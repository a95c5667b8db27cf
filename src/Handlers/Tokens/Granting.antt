-- ===== src/Handlers/Tokens/Granting.antt =====
-- A token that Handlers/Tokens.antt creates is one that the middleware of Auth.antt grants, until it
-- deletes it.
use meowth.Prelude.{
  ℕ, ◌≡◌, ◌≢◌, refl, sym, subst, Bool, true, false, ◌||◌, List, [], ◌∷◌, ◌++◌, Option, none, some,
  String, str_eq, ltb, ◌==◌, length, take, Bytes, codes, bytes_eq, bytes_eq_refl, has_prefix,
  trim_space, Result, ok, err, arith, Bool-cases, inl, inr,
}
use meowth.Store.Secret.{
  SecretError, generate_secret, salted, secret_base32_len, prefix, secret_prefix_len,
  secret_total_len,
}
use meowth.Store.Tokens.{Token, Table, TokenError, insert_token, is_active, revoke_token}
use meowth.Store.Tokens.Keys.{Op, run}
use meowth.Store.Tokens.Insertion.{IsRow, insert_token-eq}
use meowth.Auth.{
  Request, granted, requires_bearer, presented, extract_bearer, looks_like_meowth_token,
  authenticate,
}
use meowth.Auth.Admission.{is_granted, is_good, opens, any, granted_iff, revoked_never_granted}
use meowth.Handlers.Tokens.{
  CreateBody, too_large, malformed, trailing, named, Draws, created, deleted, generate_token_secret,
  inserted, params, with_secret, with_name, create, revoked, delete_token,
}

-- The Authorization header that carries a secret.
unfoldable pub bearer : Bytes → Bytes
bearer secret = codes "Bearer " ++ secret

extract_bearer-bearer : (secret : Bytes) → extract_bearer (bearer secret) ≡ some secret
unfolding extract_bearer has_prefix bytes_eq bearer
extract_bearer-bearer secret = refl

-- The shape of a secret that the generator returned, and the digest that goes with it.
record IsSecret (digest : Bytes → Bytes → Bytes) (secret salt hash : Bytes) : Type 0 where
  rest : Bytes
  whole : secret ≡ codes "mwt_" ++ rest
  total : (length secret == secret_total_len) ≡ true
  hashed : hash ≡ digest secret salt

whole-has_prefix : (rest : Bytes) → has_prefix (codes "mwt_" ++ rest) (codes "mwt_") ≡ true
unfolding has_prefix bytes_eq
whole-has_prefix rest = refl

module _ (encode : Bytes → Bytes) (digest : Bytes → Bytes → Bytes) where
  salted-IsSecret :
      (e : Bytes) (o : Option Bytes) (secret s hash : Bytes)
      → (length (codes "mwt_" ++ e) == secret_total_len) ≡ true
      → salted encode digest (codes "mwt_" ++ e) o ≡ ok (secret, s, hash)
      → IsSecret digest secret s hash
  unfolding salted
  salted-IsSecret e none secret s hash n h = cc
  salted-IsSecret e (some salt) secret s hash n h =
      let whole : codes "mwt_" ++ e ≡ secret = cc h in
      let same : salt ≡ s = cc h in
      let d : digest (codes "mwt_" ++ e) salt ≡ hash = cc h in
      record {
        rest = e;
        whole = sym whole;
        total = subst (λ x. (length x == secret_total_len) ≡ true) whole n;
        hashed = cc (d, whole, same);
      }

  generated :
      (raw salt : Option Bytes) (secret s hash : Bytes)
      → generate_token_secret encode digest raw salt ≡ ok (secret, s, hash)
      → IsSecret digest secret s hash
  unfolding generate_token_secret generate_secret
  generated none salt secret s hash h = cc
  generated (some raw) salt secret s hash h =
      elim (Bool-cases (length (encode raw) == secret_base32_len)) [
        | inl a ↦ elim (Bool-cases (length (codes "mwt_" ++ encode raw) == secret_total_len)) [
          | inl b ↦ salted-IsSecret (encode raw) salt secret s hash b (ground (arith, a, b, h))
          | inr b ↦ ground (arith, a, b, h)
        ]
        | inr a ↦ ground (arith, a, h)
      ]

  secret-presented :
      (secret salt hash : Bytes)
      → IsSecret digest secret salt hash
      → presented (bearer secret) ≡ some secret
  unfolding presented looks_like_meowth_token extract_bearer has_prefix bearer
  secret-presented secret salt hash i =
      rw (extract_bearer-bearer secret) (ground (arith, i.total, i.whole, whole-has_prefix i.rest))

  any-append :
      (secret : Bytes) (dummy : Bytes) (ts : Table) (t : Token)
      → opens digest dummy secret t ≡ true
      → any (opens digest dummy secret) (ts ++ t ∷ []) ≡ true
  any-append secret dummy [] t h = ground (arith, h)
  any-append secret dummy (u ∷ ts) t h = ground (arith, any-append secret dummy ts t h)

  prefix-take :
      (secret : Bytes)
      → (length secret == secret_total_len) ≡ true
      → prefix secret ≡ take secret_prefix_len secret
  unfolding prefix
  prefix-take secret h = ground (arith, h)

  row-opens :
      (now : ℕ) (name secret salt hash : Bytes) (dummy : Bytes) (t : Token)
      → IsSecret digest secret salt hash
      → IsRow (params encode digest name secret salt hash) now t
      → opens digest dummy secret t ≡ true
  unfolding params is_active
  row-opens now name secret salt hash dummy t i r =
      rw
        (
          r.prefix,
          prefix-take secret i.total,
          r.revoked_at,
          r.salt,
          r.token_hash,
          i.hashed,
          bytes_eq_refl (take secret_prefix_len secret),
          bytes_eq_refl (digest secret salt),
        )
        refl

  inserted-created :
      (secret : Bytes) (ts ts' : Table) (t : Token) (s : Bytes)
      (x : Result TokenError (Token × Table))
      → inserted encode digest secret ts x ≡ (created t s, ts')
      → (x ≡ ok (t, ts')) × (secret ≡ s)
  unfolding inserted
  inserted-created secret ts ts' t s (err e) h = cc
  inserted-created secret ts ts' t s (ok (u, us)) h = (cc h, cc h)

  inserted-good :
      (d : Draws) (name secret salt hash : Bytes) (dummy : Bytes) (ts ts' : Table) (t : Token)
      (s : Bytes)
      → IsSecret digest secret salt hash
      → inserted encode digest secret ts
          (insert_token d.insert_fails (params encode digest name secret salt hash) d.uuid d.now ts)
        ≡ (created t s, ts')
      → is_good digest dummy (presented (bearer s)) ts' ≡ true
  inserted-good d name secret salt hash dummy ts ts' t s i h =
      let (e, same) = inserted-created secret ts ts' t s _ h in
      let (r, appended, _, _, _, _, _) = insert_token-eq d.insert_fails _ d.uuid d.now ts ts' t e in
      subst (λ x. is_good digest dummy (presented (bearer x)) ts' ≡ true) same
        (rw (secret-presented secret salt hash i, appended)
          (any-append secret dummy ts t (row-opens d.now name secret salt hash dummy t i r)))

  with_secret-good :
      (d : Draws) (name : Bytes) (dummy : Bytes) (ts ts' : Table) (t : Token) (s : Bytes)
      (g : Result SecretError (Bytes × Bytes × Bytes))
      → generate_token_secret encode digest d.secret d.salt ≡ g
      → with_secret encode digest d name ts g ≡ (created t s, ts')
      → is_good digest dummy (presented (bearer s)) ts' ≡ true
  unfolding with_secret
  with_secret-good d name dummy ts ts' t s (err e) q h = cc
  with_secret-good d name dummy ts ts' t s (ok (secret, salt, hash)) q h =
      inserted-good d name secret salt hash dummy ts ts' t s
        (generated d.secret d.salt secret salt hash q) h

  with_name-good :
      (d : Draws) (name : Bytes) (dummy : Bytes) (ts ts' : Table) (t : Token) (s : Bytes)
      → with_name encode digest d name ts ≡ (created t s, ts')
      → is_good digest dummy (presented (bearer s)) ts' ≡ true
  unfolding with_name
  with_name-good d name dummy ts ts' t s h =
      elim (Bool-cases (ltb (length name) 1 || ltb 64 (length name))) [
        | inl b ↦ cc (b, h)
        | inr b ↦ with_secret-good d name dummy ts ts' t s _ refl (cc (b, h))
      ]

  create-good :
      (d : Draws) (body : CreateBody) (dummy : Bytes) (ts ts' : Table) (t : Token) (s : Bytes)
      → create encode digest d body ts ≡ (created t s, ts')
      → is_good digest dummy (presented (bearer s)) ts' ≡ true
  unfolding create
  create-good d too_large dummy ts ts' t s h = cc
  create-good d malformed dummy ts ts' t s h = cc
  create-good d trailing dummy ts ts' t s h = cc
  create-good d (named n) dummy ts ts' t s h = with_name-good d (trim_space n) dummy ts ts' t s h

  -- The secret in a 201 answer of the creation is at once a valid bearer token: while the database
  -- answers, a request under /v1 that carries it is granted.
  pub created_is_granted :
      (d : Draws) (body : CreateBody) (dummy : Bytes) (ts ts' : Table) (t : Token) (s : Bytes)
      (r : Request)
      → create encode digest d body ts ≡ (created t s, ts')
      → requires_bearer r ≡ true
      → r.authorization ≡ bearer s
      → is_granted (authenticate digest dummy false ts' r).0 ≡ true
  created_is_granted d body dummy ts ts' t s r h p a =
      rw (granted_iff digest dummy ts' r p, a) (create-good d body dummy ts ts' t s h)

  revoked-deleted :
      (id : String) (now : ℕ) (ts ts' : Table) (x : Result TokenError (Bool × ℕ × Table))
      (k : String) (w : ℕ)
      → revoked id ts x ≡ (deleted k w, ts')
      → (x ≡ ok (true, w, ts')) × (id ≡ k)
  unfolding revoked
  revoked-deleted id now ts ts' (err e) k w h = cc
  revoked-deleted id now ts ts' (ok (true, v, us)) k w h = (cc h, cc h)
  revoked-deleted id now ts ts' (ok (false, v, us)) k w h = cc

  delete-revokes :
      (fails : Bool) (id : String) (now : ℕ) (ts ts' : Table) (k : String) (w : ℕ)
      → delete_token fails id now ts ≡ (deleted k w, ts')
      → (revoke_token fails id now ts ≡ ok (true, w, ts')) × (id ≡ k)
  unfolding delete_token
  delete-revokes fails id now ts ts' k w h = elim (Bool-cases (str_eq id "")) [
    | inl b ↦ cc (b, h)
    | inr b ↦ revoked-deleted id now ts ts' _ k w (cc (b, h))
  ]

  -- Once a deletion has been answered with 200, no request is ever granted the id again, whatever
  -- inserts, touches and revocations come in between, and whether or not the database answers.
  pub deleted_never_granted :
      (fails : Bool) (id : String) (now : ℕ) (ts ts' : Table) (k : String) (w : ℕ) (dummy : Bytes)
      (ops : List Op) (down : Bool) (r : Request)
      → delete_token fails id now ts ≡ (deleted k w, ts')
      → (authenticate digest dummy down (run ops ts') r).0 ≢ granted id
  unfolding revoke_token
  deleted_never_granted true id now ts ts' k w dummy ops down r h =
      let (e, same) = delete-revokes true id now ts ts' k w h in cc e
  deleted_never_granted false id now ts ts' k w dummy ops down r h =
      let (e, same) = delete-revokes false id now ts ts' k w h in
      revoked_never_granted digest dummy id now ts ts' w ops down r e
