-- ===== src/Store/Tokens/Insertion.antt =====
-- What a successful insertion of Store/Tokens.antt did.
use meowth.Prelude.{
  ℕ, ◌≡◌, Bool, false, [], ◌∷◌, ◌++◌, Option, none, some, String, arith, ok, length,
}
use meowth.Store.Secret.{validate_token_prefix}
use meowth.Store.Tokens.{
  Token, Table, InsertTokenParams, has_id, insert_row, insert_token, build_insert_token_args,
}

-- The row that the parameters describe.
pub record IsRow (p : InsertTokenParams) (now : ℕ) (t : Token) : Type 0 where
  pub name : t.name ≡ p.name
  pub prefix : t.prefix ≡ p.prefix
  pub token_hash : t.token_hash ≡ p.token_hash
  pub salt : t.salt ≡ p.salt
  pub created_at : t.created_at ≡ now
  pub revoked_at : t.revoked_at ≡ none
  pub last_used_at : t.last_used_at ≡ none
  pub created_via : t.created_via ≡ p.created_via

build-eq :
    (p : InsertTokenParams) (uuid : Option String) (now : ℕ) (t : Token)
    → build_insert_token_args p uuid now ≡ ok t
    → IsRow p now t
      × (uuid ≡ some t.id)
      × (validate_token_prefix p.prefix ≡ ok tt)
      × (length t.token_hash ≡ 32)
      × (length t.salt ≡ 16)
unfolding build_insert_token_args
build-eq p uuid now t h = ground arith

-- A successful insertion validated the prefix, the hash and the salt, appended one active row made
-- of the parameters under a fresh id, and returned it.
pub insert_token-eq :
    (f : Bool) (p : InsertTokenParams) (uuid : Option String) (now : ℕ) (ts ts' : Table) (t : Token)
    → insert_token f p uuid now ts ≡ ok (t, ts')
    → IsRow p now t
      × (ts' ≡ ts ++ t ∷ [])
      × (uuid ≡ some t.id)
      × (has_id t.id ts ≡ false)
      × (validate_token_prefix p.prefix ≡ ok tt)
      × (length t.token_hash ≡ 32)
      × (length t.salt ≡ 16)
unfolding insert_token insert_row
insert_token-eq f p uuid now ts ts' t h = ground (arith, build-eq p uuid now t)
