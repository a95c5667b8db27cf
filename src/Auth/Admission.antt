-- ===== src/Auth/Admission.antt =====
-- Which requests the bearer middleware (daemon/internal/server/auth/middleware.go) lets through, and
-- what it hashes.
use meowth.Prelude.{
  ℕ, ◌≡◌, ◌≢◌, refl, sym, ◌∙◌, subst, Bool, true, false, ◌&&◌, ◌||◌, List, [], ◌∷◌, Option, none,
  some, String, if◌then◌else◌, take, filter, Bytes, bytes_eq, ok, map, arith, eq_iff, Bool-cases,
  inl, inr, ◌⊎◌,
}
use meowth.Store.Secret.{secret_prefix_len}
use meowth.Store.Tokens.{
  Token, Table, list_active_tokens_by_prefix, has_id, is_active, revoke_token,
}
use meowth.Store.Tokens.Keys.{Op, run}
use meowth.Store.Tokens.Revocation.{revoked_forever}
use meowth.Auth.{
  Request, Verdict, unauthorized, granted, requires_bearer, presented, is_none, verify, decided,
  on_rows, on_presented, authenticate,
}

abbrev pub is_granted : Verdict → Bool
is_granted (granted id) = true
is_granted _ = false

abbrev is_empty : {A : Type 0} → List A → Bool
is_empty [] = true
is_empty (x ∷ xs) = false

abbrev pub any : (Token → Bool) → List Token → Bool
any p [] = false
any p (t ∷ ts) = p t || any p ts

module _ (hasher : Bytes → Bytes → Bytes) (dummy_salt : Bytes) where
  -- The secret hashes to the row's digest.
  abbrev pub matches : Bytes → Token → Bool
  matches secret t = bytes_eq (hasher secret t.salt) t.token_hash

  -- The row is active, has the lead of the secret, and its digest.
  abbrev pub opens : Bytes → Token → Bool
  opens secret t =
      (bytes_eq t.prefix (take secret_prefix_len secret) && is_active t) && matches secret t

  verify-some :
      (secret : Bytes) (rows : List Token) (w : Token)
      → (verify hasher dummy_salt secret rows (some w)).0 ≡ some w
  unfolding verify
  verify-some secret [] w = refl
  verify-some secret (row ∷ rows) w = ground (arith, verify-some secret rows w)

  verify-cases :
      (secret : Bytes) (rows : List Token)
      → (((verify hasher dummy_salt secret rows none).0 ≡ none)
          × (any (matches secret) rows ≡ false))
        ⊎ ((w : Token) × ((verify hasher dummy_salt secret rows none).0 ≡ some w)
            × (any (matches secret) rows ≡ true)
            × (has_id w.id (filter (matches secret) rows) ≡ true))
  unfolding verify is_none has_id
  verify-cases secret [] = inl (refl, refl)
  verify-cases secret (row ∷ rows) = elim (Bool-cases (matches secret row)) [
    | inl m ↦ inr (
      row,
      ground (arith, m, verify-some secret rows row),
      ground (arith, m),
      ground (arith, m, eq_iff row.id row.id),
    )
    | inr m ↦ elim (verify-cases secret rows) [
      | inl h ↦ inl (ground (arith, m, h.0), ground (arith, m, h.1))
      | inr (w, h, a, b) ↦ inr (w, ground (arith, m, h), ground (arith, m, a), ground (arith, m, b))
    ]
  ]

  filter_twice :
      (secret p : Bytes) (ts : List Token)
      → filter (matches secret) (filter (λ t. bytes_eq t.prefix p && is_active t) ts)
        ≡ filter (λ t. (bytes_eq t.prefix p && is_active t) && matches secret t) ts
  filter_twice secret p [] = refl
  filter_twice secret p (t ∷ ts) = ground (arith, filter_twice secret p ts)

  any_twice :
      (secret p : Bytes) (ts : List Token)
      → any (matches secret) (filter (λ t. bytes_eq t.prefix p && is_active t) ts)
        ≡ any (λ t. (bytes_eq t.prefix p && is_active t) && matches secret t) ts
  any_twice secret p [] = refl
  any_twice secret p (t ∷ ts) = ground (arith, any_twice secret p ts)

  same_id :
      (a b : String) (rows : List Token)
      → granted a ≡ granted b
      → has_id a rows ≡ true
      → has_id b rows ≡ true
  same_id a b rows e h = cc (e, h)

  -- The verdict on the rows of the table that the query reads.
  abbrev Judged : Bytes → Table → Verdict → Type 0
  Judged secret ts v =
      ((v ≡ unauthorized) × (any (opens secret) ts ≡ false))
      ⊎ ((id : String) × (v ≡ granted id)
          × (any (opens secret) ts ≡ true)
          × (has_id id (filter (opens secret) ts) ≡ true))

  decided-none :
      (salts : List Bytes) (rows : List Token)
      → (decided hasher dummy_salt none salts rows).0 ≡ unauthorized
  unfolding decided
  decided-none salts [] = refl
  decided-none salts (row ∷ rows) = refl

  judged :
      (secret : Bytes) (ts : Table)
      → Judged secret ts
          (on_rows hasher dummy_salt secret
            (list_active_tokens_by_prefix false (take secret_prefix_len secret) ts)).0
  unfolding decided on_rows list_active_tokens_by_prefix
  judged secret ts =
      let p = take secret_prefix_len secret in
      elim (verify-cases secret (filter (λ t. bytes_eq t.prefix p && is_active t) ts)) [
        | inl h ↦ rw h.0 (inl (decided-none _ _, sym (any_twice secret p ts) ∙ h.1))
        | inr (w, h, a, b) ↦ rw h (
            inr (
              w.id,
              refl,
              sym (any_twice secret p ts) ∙ a,
              subst (λ l. has_id w.id l ≡ true) (filter_twice secret p ts) b,
            ))
      ]

  -- A bearer token that opens some row of the table, as far as the request presents one.
  abbrev pub is_good : Option Bytes → Table → Bool
  is_good none ts = false
  is_good (some secret) ts = any (opens secret) ts

  presented-granted :
      (ts : Table) (o : Option Bytes)
      → is_granted (on_presented hasher dummy_salt false ts o).0 ≡ is_good o ts
  unfolding on_presented
  presented-granted ts none = refl
  presented-granted ts (some secret) = elim (judged secret ts) [
    | inl (h, n) ↦ rw (h, n) refl
    | inr (id, h, a, b) ↦ rw (h, a) refl
  ]

  -- While the database answers, a request under /v1 is granted exactly when it presents a token of
  -- the right shape which opens an active row.
  pub granted_iff :
      (ts : Table) (r : Request)
      → requires_bearer r ≡ true
      → is_granted (authenticate hasher dummy_salt false ts r).0
        ≡ is_good (presented r.authorization) ts
  unfolding authenticate
  granted_iff ts r h = rw h (presented-granted ts (presented r.authorization))

  presented-opens :
      (id : String) (ts : Table) (o : Option Bytes) (fails : Bool)
      → (on_presented hasher dummy_salt fails ts o).0 ≡ granted id
      → (secret : Bytes) × (o ≡ some secret) × (has_id id (filter (opens secret) ts) ≡ true)
  unfolding on_presented on_rows list_active_tokens_by_prefix
  presented-opens id ts none fails h = cc
  presented-opens id ts (some secret) true h = cc
  presented-opens id ts (some secret) false h = elim (judged secret ts) [
    | inl (g, n) ↦ cc (g, h)
    | inr (id', g, a, b) ↦ (secret, refl, same_id id' id (filter (opens secret) ts) (cc (g, h)) b)
  ]

  -- A granted request presents a token that opens an active row with the id that it is given.
  pub granted-opens :
      (id : String) (fails : Bool) (ts : Table) (r : Request)
      → (authenticate hasher dummy_salt fails ts r).0 ≡ granted id
      → (secret : Bytes) × (presented r.authorization ≡ some secret)
        × (has_id id (filter (opens secret) ts) ≡ true)
  unfolding authenticate
  granted-opens id fails ts r h = elim (Bool-cases (requires_bearer r)) [
    | inl b ↦ presented-opens id ts (presented r.authorization) fails (cc (b, h))
    | inr b ↦ cc (b, h)
  ]

  fewer :
      (id : String) (secret : Bytes) (ts : Table)
      → has_id id (filter (opens secret) ts) ≡ true
      → has_id id
          (filter (λ t. bytes_eq t.prefix (take secret_prefix_len secret) && is_active t) ts)
        ≡ true
  unfolding has_id
  fewer id secret [] h = cc
  fewer id secret (t ∷ ts) h = ground (arith, h, fewer id secret ts)

  -- Once the revocation of a token has reported success, no request is ever granted its id again,
  -- whatever inserts, touches and revocations come in between, and whether or not the database
  -- answers.
  pub revoked_never_granted :
      (id : String) (now : ℕ) (ts ts' : Table) (w : ℕ) (ops : List Op) (fails : Bool) (r : Request)
      → revoke_token false id now ts ≡ ok (true, w, ts')
      → (authenticate hasher dummy_salt fails (run ops ts') r).0 ≢ granted id
  unfolding list_active_tokens_by_prefix
  revoked_never_granted id now ts ts' w ops fails r h g =
      let (secret, e, m) = granted-opens id fails (run ops ts') r g in
      cc (
        revoked_forever id now ts ts' w ops (take secret_prefix_len secret) _ h refl,
        fewer id secret (run ops ts') m,
      )

  abbrev salts : List Token → List Bytes
  salts rows = map (λ (t : Token). t.salt) rows

  -- The salts of the active rows with the lead of the secret, in the table's order; the dummy's where
  -- there is none.
  unfoldable pub salts_to_hash : Bool → Table → Option Bytes → List Bytes
  salts_to_hash true ts o = []
  salts_to_hash false ts none = []
  salts_to_hash false ts (some secret) =
      let found =
        salts (filter (λ t. bytes_eq t.prefix (take secret_prefix_len secret) && is_active t) ts) in
      if is_empty found then dummy_salt ∷ [] else found
