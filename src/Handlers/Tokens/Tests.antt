-- ===== src/Handlers/Tokens/Tests.antt =====
-- Requests to the token endpoints (Handlers/Tokens.antt).
use meowth.Prelude.{
  ◌≡◌, ◌≢◌, refl, true, false, [], ◌∷◌, none, some, Bytes, codes, bytes_eq, has_prefix,
  is_base32_char, trim_space,
}
use meowth.Store.Secret.{generate_secret, prefix, validate_token_prefix}
use meowth.Store.Tokens.{
  Token, insert_token, insert_row, build_insert_token_args, has_id, revoke_token, hits, is_active,
}
use meowth.Store.Tokens.Keys.{Op, run}
use meowth.Auth.{Request, granted, requires_bearer, authenticate}
use meowth.Auth.Admission.{is_granted}
use meowth.Handlers.Tokens.{
  named, created, deleted, invalid_name, Draws, create, delete_token, generate_token_secret,
}
use meowth.Handlers.Tokens.Granting.{bearer, created_is_granted, deleted_never_granted}

abbrev encode : Bytes → Bytes
encode raw = codes "ABCDEFGHIJKLMNOPQRSTUVWXYZ234567ABCDEFG"

abbrev digest : Bytes → Bytes → Bytes
digest secret salt = codes "0123456789abcdef0123456789abcdef"

abbrev draws : Draws
draws = record {
  secret = some [];
  salt = some (codes "0123456789abcdef");
  uuid = some "t1";
  now = 5;
  insert_fails = false;
}

abbrev secret : Bytes
secret = codes "mwt_ABCDEFGHIJKLMNOPQRSTUVWXYZ234567ABCDEFG"

abbrev row : Token
row = record {
  id = "t1";
  name = codes "laptop";
  prefix = codes "mwt_ABCDE";
  token_hash = codes "0123456789abcdef0123456789abcdef";
  salt = codes "0123456789abcdef";
  created_at = 5;
  last_used_at = none;
  revoked_at = none;
  created_via = "dashboard";
}

row_created :
    create encode digest draws (named (codes " laptop ")) [] ≡ (created row secret, row ∷ [])
unfolding create generate_token_secret trim_space generate_secret insert_token
    build_insert_token_args validate_token_prefix prefix bytes_eq is_base32_char insert_row has_id
row_created = refl

blank_refused : create encode digest draws (named (codes "  ")) [] ≡ (invalid_name, [])
unfolding create trim_space
blank_refused = refl

abbrev request : Request
request = record { method = "GET"; path = codes "/v1/sessions"; authorization = bearer secret }

protected : requires_bearer request ≡ true
unfolding requires_bearer bytes_eq has_prefix
protected = refl

created_is_granted_example : is_granted (authenticate digest [] false (row ∷ []) request).0 ≡ true
created_is_granted_example =
    created_is_granted encode digest draws (named (codes " laptop ")) [] [] (row ∷ []) row secret
      request row_created protected refl

abbrev revoked : Token
revoked = record row { revoked_at = some 9 }

row_deleted : delete_token false "t1" 9 (row ∷ []) ≡ (deleted "t1" 9, revoked ∷ [])
unfolding delete_token revoke_token hits is_active
row_deleted = refl

deleted_never_granted_example :
    (authenticate digest [] false (run (Op.touch false "t1" 10 ∷ []) (revoked ∷ [])) request).0
    ≢ granted "t1"
deleted_never_granted_example =
    deleted_never_granted encode digest false "t1" 9 (row ∷ []) (revoked ∷ []) "t1" 9 []
      (Op.touch false "t1" 10 ∷ []) false request row_deleted
