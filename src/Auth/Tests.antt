-- ===== src/Auth/Tests.antt =====
-- Requests to the bearer middleware (Auth.antt) at a table of one token.
use meowth.Prelude.{
  ◌≡◌, ◌≢◌, refl, true, false, [], ◌∷◌, ◌++◌, none, some, Bytes, codes, bytes_eq, has_prefix, ok,
}
use meowth.Store.Tokens.{Token, is_active, hits, revoke_token, list_active_tokens_by_prefix}
use meowth.Store.Tokens.Keys.{Op, run}
use meowth.Auth.{
  Request, granted, requires_bearer, extract_bearer, looks_like_meowth_token, presented, is_none,
  verify, decided, on_rows, on_presented, authenticate,
}
use meowth.Auth.Admission.{is_granted, is_good, granted_iff, revoked_never_granted}

abbrev identity_hasher : Bytes → Bytes → Bytes
identity_hasher secret salt = secret

abbrev secret : Bytes
secret = codes "mwt_ABCDEFGHIJKLMNOPQRSTUVWXYZ234567ABCDEFG"

abbrev row : Token
row = record {
  id = "t1";
  name = codes "laptop";
  prefix = codes "mwt_ABCDE";
  token_hash = secret;
  salt = 1 ∷ [];
  created_at = 5;
  last_used_at = none;
  revoked_at = none;
  created_via = "cli";
}

abbrev request : Request
request = record {
  method = "GET";
  path = codes "/v1/sessions";
  authorization = codes "Bearer " ++ secret;
}

secret_opens_row : (authenticate identity_hasher [] false (row ∷ []) request).0 ≡ granted "t1"
unfolding authenticate on_presented on_rows decided verify is_none presented extract_bearer
    looks_like_meowth_token requires_bearer list_active_tokens_by_prefix is_active bytes_eq
    has_prefix
secret_opens_row = refl

protected : requires_bearer request ≡ true
unfolding requires_bearer bytes_eq has_prefix
protected = refl

granted_iff_example :
    is_granted (authenticate identity_hasher [] false (row ∷ []) request).0
    ≡ is_good identity_hasher [] (presented request.authorization) (row ∷ [])
granted_iff_example = granted_iff identity_hasher [] (row ∷ []) request protected

-- The first row matches, and the second is hashed all the same.
both_hashed :
    (authenticate identity_hasher [] false
      (row ∷ record row { id = "t2"; salt = 2 ∷ [] } ∷ [])
      request).1
    ≡ (1 ∷ []) ∷ (2 ∷ []) ∷ []
unfolding authenticate on_presented on_rows decided verify is_none presented extract_bearer
    looks_like_meowth_token requires_bearer list_active_tokens_by_prefix is_active bytes_eq
    has_prefix
both_hashed = refl

abbrev revoked : Token
revoked = record row { revoked_at = some 9 }

is_gone : revoke_token false "t1" 9 (row ∷ []) ≡ ok (true, 9, revoked ∷ [])
unfolding revoke_token hits is_active
is_gone = refl

revoked_never_granted_example :
    (authenticate identity_hasher [] false
      (run (Op.touch false "t1" 10 ∷ []) (revoked ∷ []))
      request).0
    ≢ granted "t1"
revoked_never_granted_example =
    revoked_never_granted identity_hasher [] "t1" 9 (row ∷ []) (revoked ∷ []) 9
      (Op.touch false "t1" 10 ∷ []) false request is_gone
