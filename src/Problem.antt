-- ===== src/Problem.antt =====
-- RFC 7807 problem bodies: daemon/internal/server/problem/problem.go.
use meowth.Prelude.{
  ℕ, ◌≡◌, refl, Bool, true, false, ◌&&◌, ◌||◌, Option, none, some, String, str_eq, List, [], ◌∷◌,
  if◌then◌else◌, leb, ◌==◌, every, drop, length, codes, has_prefix, Result, ok, err,
}

-- The declared kinds, and any other string that a caller converts to a `Kind`.
pub data Kind : Type 0 where
  invalid_request unauthorized not_found unknown_backend session_not_found : Kind
  token_not_found session_conflict payload_too_large backend_unavailable internal : Kind
  unregistered : String → Kind

unfoldable pub text : Kind → String
text invalid_request = "/problems/invalid_request"
text unauthorized = "/problems/unauthorized"
text not_found = "/problems/not_found"
text unknown_backend = "/problems/unknown_backend"
text session_not_found = "/problems/session_not_found"
text token_not_found = "/problems/token_not_found"
text session_conflict = "/problems/session_conflict"
text payload_too_large = "/problems/payload_too_large"
text backend_unavailable = "/problems/backend_unavailable"
text internal = "/problems/internal"
text (unregistered s) = s

-- The `titles` map, and `Title`.
unfoldable pub title : Kind → Option String
title invalid_request = some "Invalid request"
title unauthorized = some "Unauthorized"
title not_found = some "Not found"
title unknown_backend = some "Unknown backend"
title session_not_found = some "Session not found"
title token_not_found = some "Token not found"
title session_conflict = some "Session conflict"
title payload_too_large = some "Payload too large"
title backend_unavailable = some "Backend unavailable"
title internal = some "Internal server error"
title (unregistered s) = none

abbrev pub all_kinds : List Kind
all_kinds =
    invalid_request ∷ unauthorized ∷ not_found ∷ unknown_backend ∷ session_not_found
    ∷ token_not_found ∷ session_conflict ∷ payload_too_large ∷ backend_unavailable ∷ internal ∷ []

pub record Body : Type 0 where
  pub kind : String
  pub title : String
  pub status : ℕ
  pub detail : String
  pub instance_path : String

pub data WriteError : Type 0 where
  empty_kind : WriteError
  unknown_kind : String → WriteError

abbrev pub internal_detail_fallback : String
internal_detail_fallback = "internal server error"

detail_of : Kind → String → String
detail_of internal detail = internal_detail_fallback
detail_of _ detail = detail

write_titled : Option String → ℕ → Kind → String → String → Result WriteError Body
unfolding text detail_of
write_titled none status kind detail path = err (unknown_kind (text kind))
write_titled (some t) status kind detail path = ok (record {
  kind = text kind;
  title = t;
  status = status;
  detail = detail_of kind detail;
  instance_path = path;
})

-- `Write`: the body that it serialises with that status.
unfoldable pub write : ℕ → Kind → String → String → Result WriteError Body
unfolding write_titled title
write status kind detail path =
    if str_eq (text kind) ""
    then err empty_kind
    else write_titled (title kind) status kind detail path

slug_char : ℕ → Bool
slug_char c = (leb b'a' c && leb c b'z') || (leb b'0' c && leb c b'9') || c == b'_'

unfoldable pub slug_is_valid : Kind → Bool
unfolding slug_char text has_prefix
slug_is_valid kind =
    let s = codes (text kind) in
    let tail = drop (length (codes "/problems/")) s in
    has_prefix s (codes "/problems/") && (if length tail == 0 then false else every slug_char tail)

-- Every registered kind has a title and a slug of the reserved form.
kinds_valid : every slug_is_valid all_kinds ≡ true
unfolding slug_is_valid
kinds_valid = refl
