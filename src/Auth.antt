-- ===== src/Auth.antt =====
-- The bearer-token middleware: daemon/internal/server/auth/middleware.go and keys.go. The argon2id
-- hasher and the dummy salt of the process are arguments.
pub mod Tests
pub mod Admission
use meowth.Prelude.{
  ℕ, ◌+◌, Bool, true, false, ◌&&◌, ◌||◌, not, List, [], ◌∷◌, ◌++◌, Option, none, some, String,
  str_eq, leb, ◌==◌, if◌then◌else◌, length, take, drop, Bytes, codes, bytes_eq, has_prefix, Result,
  ok, err, map,
}
use meowth.Store.Secret.{secret_total_len, secret_prefix_len}
use meowth.Store.Tokens.{Token, Table, TokenError, list_active_tokens_by_prefix}

pub record Request : Type 0 where
  pub method : String
  pub path : Bytes
  -- the first Authorization header, empty where there is none
  pub authorization : Bytes

-- What becomes of a request, and the salts of the hasher's runs on the way.
pub data Verdict : Type 0 where
  passed_through : Verdict
  unauthorized : Verdict
  internal : Verdict
  -- the handler runs with this id in its context; the row is touched in the background
  granted : String → Verdict

unfoldable pub extract_bearer : Bytes → Option Bytes
extract_bearer header = if has_prefix header (codes "Bearer ") then some (drop 7 header) else none

unfoldable pub requires_bearer : Request → Bool
requires_bearer r =
    if str_eq r.method "OPTIONS"
    then false
    else bytes_eq r.path (codes "/v1") || has_prefix r.path (codes "/v1/")

unfoldable pub looks_like_meowth_token : Bytes → Bool
looks_like_meowth_token s =
    if length s == secret_total_len then has_prefix s (codes "mwt_") else false

-- `RedactedPrefix`
unfoldable pub redacted_prefix : Bytes → Bytes
redacted_prefix presented =
    if leb (length presented) 8 || not (has_prefix presented (codes "mwt_"))
    then codes "<invalid>"
    else take secret_prefix_len presented

-- The bearer token of the header, if it has the shape of one.
unfoldable pub presented : Bytes → Option Bytes
presented header = elim (extract_bearer header) [
  | none ↦ none
  | some s ↦ if looks_like_meowth_token s then some s else none
]

is_none : Option Token → Bool
is_none none = true
is_none (some t) = false

module _ (hasher : Bytes → Bytes → Bytes) (dummy_salt : Bytes) where
  -- The loop over the rows: the first that matches, and the salts of the hasher's runs.
  unfoldable pub verify : Bytes → List Token → Option Token → Option Token × List Bytes
  unfolding is_none
  verify secret [] winner = (winner, [])
  verify secret (row ∷ rows) winner =
      let rest = verify secret rows (
        if bytes_eq (hasher secret row.salt) row.token_hash && is_none winner
        then some row
        else winner) in
      (rest.0, row.salt ∷ rest.1)

  -- Behind the loop: the dummy pass is run where nothing matched and there was no row.
  decided : Option Token → List Bytes → List Token → Verdict × List Bytes
  decided (some winner) salts rows = (granted winner.id, salts)
  decided none salts [] = (unauthorized, salts ++ dummy_salt ∷ [])
  decided none salts (row ∷ rows) = (unauthorized, salts)

  on_rows : Bytes → Result TokenError (List Token) → Verdict × List Bytes
  unfolding decided
  on_rows secret (err e) = (internal, [])
  on_rows secret (ok rows) = let found = verify secret rows none in decided found.0 found.1 rows

  on_presented : Bool → Table → Option Bytes → Verdict × List Bytes
  unfolding on_rows
  on_presented driver_fails ts none = (unauthorized, [])
  on_presented driver_fails ts (some secret) =
      on_rows secret (list_active_tokens_by_prefix driver_fails (take secret_prefix_len secret) ts)

  -- The handler that `Middleware` returns.
  unfoldable pub authenticate : Bool → Table → Request → Verdict × List Bytes
  unfolding on_presented
  authenticate driver_fails ts r =
      if requires_bearer r
      then on_presented driver_fails ts (presented r.authorization)
      else (passed_through, [])
