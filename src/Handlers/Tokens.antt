-- ===== src/Handlers/Tokens.antt =====
-- The token endpoints: daemon/internal/server/handlers/tokens.go, over Store/Tokens.antt. The base32
-- encoder and argon2id are arguments.
pub mod Granting
pub mod Tests
use meowth.Prelude.{
  ℕ, Bool, true, false, ◌||◌, List, [], ◌∷◌, Option, none, some, String, str_eq, ltb, ◌==◌,
  if◌then◌else◌, length, map, Bytes, codes, trim_space, Result, ok, err,
}
use meowth.Store.Secret.{SecretError, generate_secret, prefix}
use meowth.Store.Tokens.{
  Token, TokenView, view, Table, TokenError, InsertTokenParams, insert_token, list_all_tokens,
  revoke_token,
}

-- What the JSON decoder makes of the body of a creation.
pub data CreateBody : Type 0 where
  too_large malformed trailing : CreateBody
  named : Bytes → CreateBody

pub data Response : Type 0 where
  -- 201 with the row and its secret, which no other answer has
  created : Token → Bytes → Response
  tokens : List TokenView → Response
  deleted : String → ℕ → Response
  payload_too_large invalid_body invalid_name missing_id token_not_found internal : Response

-- What a creation draws from its surroundings: the random bytes of the secret and of the salt.
pub record Draws : Type 0 where
  pub secret : Option Bytes
  pub salt : Option Bytes
  pub uuid : Option String
  pub now : ℕ
  pub insert_fails : Bool

module _ (encode : Bytes → Bytes) (digest : Bytes → Bytes → Bytes) where
  -- `GenerateTokenSecret`
  unfoldable pub generate_token_secret :
      Option Bytes → Option Bytes → Result SecretError (Bytes × Bytes × Bytes)
  generate_token_secret raw salt = generate_secret encode digest (codes "mwt_") raw salt

  inserted : Bytes → Table → Result TokenError (Token × Table) → Response × Table
  inserted secret ts (err e) = (internal, ts)
  inserted secret ts (ok (t, ts')) = (created t secret, ts')

  params : Bytes → Bytes → Bytes → Bytes → InsertTokenParams
  params name secret salt hash = record {
    name = name;
    prefix = prefix secret;
    token_hash = hash;
    salt = salt;
    created_via = "dashboard";
  }

  with_secret :
      Draws → Bytes → Table → Result SecretError (Bytes × Bytes × Bytes) → Response × Table
  unfolding inserted params
  with_secret d name ts (err e) = (internal, ts)
  with_secret d name ts (ok (secret, salt, hash)) =
      inserted secret ts
        (insert_token d.insert_fails (params name secret salt hash) d.uuid d.now ts)

  with_name : Draws → Bytes → Table → Response × Table
  unfolding with_secret
  with_name d name ts =
      if ltb (length name) 1 || ltb 64 (length name)
      then (invalid_name, ts)
      else with_secret d name ts (generate_token_secret d.secret d.salt)

  -- `Create`
  unfoldable pub create : Draws → CreateBody → Table → Response × Table
  unfolding with_name
  create d too_large ts = (payload_too_large, ts)
  create d malformed ts = (invalid_body, ts)
  create d trailing ts = (invalid_body, ts)
  create d (named name) ts = with_name d (trim_space name) ts

listed : Result TokenError (List Token) → Response
listed (err e) = internal
listed (ok ts) = tokens (map view ts)

-- `List`
unfoldable pub list : Bool → Table → Response
unfolding listed
list fails ts = listed (list_all_tokens fails ts)

revoked : String → Table → Result TokenError (Bool × ℕ × Table) → Response × Table
revoked id ts (err e) = (internal, ts)
revoked id ts (ok (true, now, ts')) = (deleted id now, ts')
revoked id ts (ok (false, now, ts')) = (token_not_found, ts')

-- `Delete`
unfoldable pub delete_token : Bool → String → ℕ → Table → Response × Table
unfolding revoked
delete_token fails id now ts =
    if str_eq id "" then (missing_id, ts) else revoked id ts (revoke_token fails id now ts)
