-- ===== src/Mint/OneShot.antt =====
-- A window of Mint.antt mints at most once, and exactly when it should.
use meowth.Prelude.{
  ℕ, ◌+◌, ◌≤◌, ◌≡◌, ◌≢◌, ◌↔◌, true, false, List, [], ◌∷◌, some, arith, ◌⊎◌, if◌then◌else◌,
}
use meowth.Mint.Traces.{Event, call, outside, is_mint, step, weigh, run, total}
use meowth.Mint.{
  World, Faults, ConsumeRequest, IdKey, minted, window_closed, consume, consume_locked,
  record_counted_failure, valid_setup_code_shape, digest_matches,
}

module _ {D : Type 0} (id_key : IdKey) where
  -- Everything that a call needs to mint.
  pub record Grants (r : ConsumeRequest D) (f : Faults) (w : World D) : Type 0 where
    pub well_formed : valid_setup_code_shape r.setup_code ≡ true
    pub still_open : w.window.closed ≡ false
    pub right_code : digest_matches id_key w.window r.setup_code ≡ true
    pub no_tokens : r.recheck w.db ≡ some true
    pub nonce : w.nonce_present ≡ true
    pub stat : f.stat_fails ≡ false
    pub commits : (db : D) × (r.commit w.db ≡ some db)

  -- `Consume` reports a mint exactly when the window is open, the code is well-formed and hashes
  -- to the digest, the tokens table is empty, the nonce file is there and the commit succeeds.
  pub minted_iff :
      (r : ConsumeRequest D) (f : Faults) (w : World D)
      → ((consume id_key r f w).1 ≡ minted) ↔ Grants r f w
  unfolding consume consume_locked record_counted_failure
  minted_iff r f w = (λ h. ground arith, λ g. ground arith)

  -- A call that mints leaves the window closed and the database as the commit made it; any other
  -- call leaves the database alone.
  pub consume-db :
      (r : ConsumeRequest D) (f : Faults) (w : World D)
      → (((consume id_key r f w).1 ≡ minted)
          × ((consume id_key r f w).0.window.closed ≡ true)
          × (r.commit w.db ≡ some (consume id_key r f w).0.db))
        ⊎ (((consume id_key r f w).1 ≢ minted) × ((consume id_key r f w).0.db ≡ w.db))
  unfolding consume consume_locked record_counted_failure
  consume-db r f w = ground arith

  -- A closed window answers every call alike and changes nothing.
  pub closed_absorbs :
      (r : ConsumeRequest D) (f : Faults) (w : World D)
      → w.window.closed ≡ true
      → ((consume id_key r f w).0 ≡ w) × ((consume id_key r f w).1 ≡ window_closed)
  unfolding consume consume_locked record_counted_failure
  closed_absorbs r f w h = ground arith

  -- 1 while a mint is still possible, 0 once the window is closed.
  abbrev pub room : World D → ℕ
  room w = if w.window.closed then 0 else 1

  step-room :
      (e : Event D) (w : World D) → weigh id_key is_mint e w + room (step id_key e w) ≤ room w
  unfolding step consume consume_locked record_counted_failure
  step-room (call r f) w = ground arith
  step-room (outside change present) w = omega arith

  -- Over any trace of calls and outside changes a window mints at most once, and not at all if it
  -- is closed at the start.
  pub total_mints :
      (es : List (Event D)) (w : World D)
      → total id_key is_mint es w + room (run id_key es w) ≤ room w
  unfolding total run
  total_mints [] w = omega arith
  total_mints (e ∷ es) w = omega (arith, step-room e w, total_mints es (step id_key e w))
