-- ===== src/Store/Tokens/Revocation.antt =====
-- What a revocation of Store/Tokens.antt promises.
use meowth.Prelude.{
  ℕ, ◌≡◌, refl, ◌∙◌, Bool, true, false, ◌&&◌, List, [], ◌∷◌, some, String, str_eq, eq_iff, arith,
  if◌then◌else◌, map, Result, ok, err, length, filter, ◌==◌, Bytes, bytes_eq, All, All-append,
}
use meowth.Store.Tokens.{
  Token, Table, TokenError, has_id, insert_row, insert_token, build_insert_token_args, insert_built,
  inserted, touch_token_last_used_at, revoke_token, revoke_rows, hits, is_active,
  list_active_tokens_by_prefix,
}
use meowth.Store.Tokens.Keys.{
  Op, apply, run, table_of, has_id-append, has_id-map, insert_row-eq, touch_id, revoke_id,
}

-- The id is taken, and no row of it is active.
pub record IsDead (id : String) (ts : Table) : Type 0 where
  pub present : has_id id ts ≡ true
  pub inactive : All (λ (t : Token). hits id t ≡ false) ts

module _ (id : String) where
  All-map :
      (f : Token → Token)
      → ((t : Token) → hits id t ≡ false → hits id (f t) ≡ false)
      → (ts : Table) → All (λ (t : Token). hits id t ≡ false) ts
      → All (λ (t : Token). hits id t ≡ false) (map f ts)
  All-map f h [] a = tt
  All-map f h (t ∷ ts) a = (h t a.0, All-map f h ts a.1)

  row-IsDead :
      (f : Bool) (t : Token) (ts : Table) (r : Result TokenError Table)
      → insert_row f t ts ≡ r
      → IsDead id ts
      → IsDead id (table_of ts (inserted t r))
  unfolding inserted table_of hits
  row-IsDead f t ts (err e) h d = d
  row-IsDead f t ts (ok ts') h d =
      let facts = insert_row-eq f t ts ts' h in
      rw facts.1 (record {
        present = ground (arith, has_id-append id ts t, d.present);
        inactive =
            All-append _ ts (t ∷ []) d.inactive
              (ground (arith, eq_iff t.id id, facts.0, d.present), tt);
      })

  built-IsDead :
      (f : Bool) (b : Result TokenError Token) (ts : Table)
      → IsDead id ts
      → IsDead id (table_of ts (insert_built f b ts))
  unfolding insert_built table_of
  built-IsDead f (ok t) ts d = row-IsDead f t ts (insert_row f t ts) refl d
  built-IsDead f (err e) ts d = d

  touch_hits :
      (k : String) (when : ℕ) (t : Token)
      → hits id t ≡ false
      → hits id (if str_eq t.id k then record t { last_used_at = some when } else t) ≡ false
  unfolding hits
  touch_hits k when t h = ground arith

  revoke_hits :
      (k : String) (now : ℕ) (t : Token)
      → hits id t ≡ false
      → hits id (if hits k t then record t { revoked_at = some now } else t) ≡ false
  unfolding hits
  revoke_hits k now t h = ground arith

  apply-IsDead : (op : Op) (ts : Table) → IsDead id ts → IsDead id (apply op ts)
  unfolding apply insert_token touch_token_last_used_at revoke_token
  apply-IsDead (Op.insert f p uuid now) ts d =
      built-IsDead f (build_insert_token_args p uuid now) ts d
  apply-IsDead (Op.touch true k when) ts d = d
  apply-IsDead (Op.touch false k when) ts d = record {
    present = has_id-map _ (touch_id k when) id ts ∙ d.present;
    inactive = All-map _ (touch_hits k when) ts d.inactive;
  }
  apply-IsDead (Op.revoke true k now) ts d = d
  apply-IsDead (Op.revoke false k now) ts d = record {
    present = has_id-map _ (revoke_id k now) id ts ∙ d.present;
    inactive = All-map _ (revoke_hits k now) ts d.inactive;
  }

  pub run-IsDead : (ops : List Op) (ts : Table) → IsDead id ts → IsDead id (run ops ts)
  unfolding run
  run-IsDead [] ts d = d
  run-IsDead (op ∷ ops) ts d = run-IsDead ops (apply op ts) (apply-IsDead op ts d)

  -- A revocation ends every active row of its id.
  revoke_ends :
      (now : ℕ) (ts : Table) → All (λ (t : Token). hits id t ≡ false) (revoke_rows id now ts)
  unfolding revoke_rows hits
  revoke_ends now [] = tt
  revoke_ends now (t ∷ ts) = (ground arith, revoke_ends now ts)

  found_present : (ts : Table) → (length (filter (hits id) ts) == 1) ≡ true → has_id id ts ≡ true
  unfolding has_id hits
  found_present [] h = cc
  found_present (t ∷ ts) h = ground (arith, found_present ts)

  dead_unlisted :
      (p : Bytes) (ts : Table)
      → All (λ (t : Token). hits id t ≡ false) ts
      → has_id id (filter (λ (t : Token). bytes_eq t.prefix p && is_active t) ts) ≡ false
  unfolding has_id hits
  dead_unlisted p [] a = refl
  dead_unlisted p (t ∷ ts) a = ground (arith, dead_unlisted p ts a.1, a.0)

  revoke-eq :
      (now : ℕ) (ts : Table) {w : ℕ} {ts' : Table} (b : Bool)
      → revoke_token false id now ts ≡ ok (b, w, ts')
      → ((length (filter (hits id) ts) == 1) ≡ b) × (ts' ≡ revoke_rows id now ts)
  unfolding revoke_token
  revoke-eq now ts b h = ground arith

  pub revoke-IsDead :
      (now : ℕ) (ts : Table) {w : ℕ} {ts' : Table}
      → revoke_token false id now ts ≡ ok (true, w, ts')
      → IsDead id ts'
  revoke-IsDead now ts h =
      let facts = revoke-eq now ts true h in
      rw facts.1 (record {
        present =
            unfold revoke_rows in has_id-map _ (revoke_id id now) id ts ∙ found_present ts facts.0;
        inactive = revoke_ends now ts;
      })

-- Once a revocation of a token has reported success, no later sequence of inserts, touches and
-- revocations brings a row of its id back into the list of active tokens that authentication
-- reads, whatever the prefix.
pub revoked_forever :
    (id : String) (now : ℕ) (ts ts' : Table) (w : ℕ) (ops : List Op) (p : Bytes) (rows : List Token)
    → revoke_token false id now ts ≡ ok (true, w, ts')
    → list_active_tokens_by_prefix false p (run ops ts') ≡ ok rows
    → has_id id rows ≡ false
unfolding list_active_tokens_by_prefix
revoked_forever id now ts ts' w ops p rows r l =
    let d = run-IsDead id ops ts' (revoke-IsDead id now ts r) in
    cc (dead_unlisted id p (run ops ts') d.inactive)
