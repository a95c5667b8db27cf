-- ===== src/Agent/Codex/Reading.antt =====
-- What the codex client reads off decoded JSON, in daemon/pkg/agent/codex.go: fields, the usage of a
-- turn, and the thread that a notification is of. The conversion of a JSON number is an argument.
use meowth.Prelude.{
  ℕ, Bool, true, false, not, ◌&&◌, ◌||◌, List, [], ◌∷◌, ◌++◌, Option, none, some, String,
  if◌then◌else◌, Bytes, codes, bytes_eq, is_blank, ℤ, pos, ◌-ℤ◌, is_positive, lt_ℤ,
}
use meowth.Pump.{TokenUsage}
use meowth.Agent.Json.{Json, number, string, bool, object, Fields, end, get}
use meowth.Agent.Messages.{add_tokens}
use meowth.Agent.Codex.{CodexClient}

unfoldable pub text_of : Option Json → Bytes
text_of (some (string s)) = s
text_of (some v) = []
text_of none = []

unfoldable pub flag_value : Option Json → Bool
flag_value (some (bool b)) = b
flag_value (some v) = false
flag_value none = false

unfoldable pub object_of : Option Json → Option Fields
object_of (some (object fs)) = some fs
object_of (some v) = none
object_of none = none

unfoldable pub fields_of : Option Json → Fields
unfolding object_of
fields_of o = elim (object_of o) [ none ↦ end | some fs ↦ fs ]

unfoldable pub nested : List String → Option Json → Bytes
unfolding text_of object_of
nested [] v = text_of v
nested (key ∷ keys) v = elim (object_of v) [ none ↦ [] | some fs ↦ nested keys (get key fs) ]

-- `extractNestedString`
unfoldable pub extract_nested_string : Fields → List String → Bytes
unfolding nested
extract_nested_string fs keys = nested keys (some (object fs))

unfoldable pub is_zero : ℤ → Bool
is_zero x = not (is_positive x) && not (lt_ℤ x (pos 0))

-- `codexUncachedInputTokens`
unfoldable pub codex_uncached_input_tokens : ℤ → ℤ → ℤ
codex_uncached_input_tokens input cached =
    let uncached = input -ℤ cached in if lt_ℤ uncached (pos 0) then pos 0 else uncached

-- The first of the fields that is an object.
first_object : Fields → List String → Option Fields
first_object fs [] = none
first_object fs (key ∷ keys) = elim (object_of (get key fs)) [
  | none ↦ first_object fs keys
  | some m ↦ some m
]

unfoldable pub contains_id : Bytes → List Bytes → Bool
contains_id id [] = false
contains_id id (j ∷ js) = bytes_eq j id || contains_id id js

unfoldable pub or_text : Bytes → Bytes → Bytes
or_text a b = if is_blank a then b else a

-- `describeCodexItemProgressActivity`
unfoldable pub describe_item : Bytes → Bytes → Bytes → Bytes
unfolding or_text
describe_item method item_type item_id =
    let t = or_text item_type (codes "unknown") in
    if is_blank item_id
    then method ++ codes ":" ++ t
    else method ++ codes ":" ++ t ++ codes ":" ++ item_id

unfoldable pub or_zero : Option ℕ → ℕ
or_zero none = 0
or_zero (some n) = n

unfoldable pub is_there : Option Json → Bool
is_there none = false
is_there (some v) = true

-- A notification of a thread that is not the client's.
unfoldable pub is_foreign : Bytes → Option Json → Bool
is_foreign mine (some (string s)) = not (is_blank mine) && not (bytes_eq s mine)
is_foreign mine (some v) = false
is_foreign mine none = false

-- `int64_of` is the conversion of a number that is not zero to an integer; it is none for a zero.
module _ (int64_of : Bytes → Option ℤ) where
  number_of : Option Json → Option ℤ
  number_of (some (number n)) = int64_of n
  number_of (some v) = none
  number_of none = none

  -- `codexInt64`: the integer of the first number that is not zero.
  codex_int64 : Fields → List String → ℤ
  unfolding number_of
  codex_int64 m [] = pos 0
  codex_int64 m (key ∷ keys) =
      let rest = codex_int64 m keys in elim (number_of (get key m)) [ none ↦ rest | some v ↦ v ]

  usage_in : Fields → TokenUsage
  unfolding codex_int64
  usage_in m =
      let cached =
        codex_int64 m
          ("cached_input_tokens" ∷ "cache_read_tokens" ∷ "cache_read_input_tokens" ∷ []) in
      record {
        input_tokens =
            codex_uncached_input_tokens
              (codex_int64 m ("input_tokens" ∷ "input" ∷ "prompt_tokens" ∷ [])) cached;
        output_tokens = codex_int64 m ("output_tokens" ∷ "output" ∷ "completion_tokens" ∷ []);
        cache_read_tokens = cached;
        cache_write_tokens =
            codex_int64 m ("cache_write_tokens" ∷ "cache_creation_input_tokens" ∷ []);
      }

  unfoldable pub with_usage : Option Fields → CodexClient → CodexClient
  unfolding usage_in
  with_usage none c = c
  with_usage (some m) c = record c { usage = add_tokens c.usage (usage_in m) }

  -- `extractUsageFromMap`
  unfoldable pub extract_usage_from_map : Fields → CodexClient → CodexClient
  unfolding with_usage usage_in first_object
  extract_usage_from_map fs c =
      with_usage (first_object fs ("usage" ∷ "token_usage" ∷ "tokens" ∷ [])) c
