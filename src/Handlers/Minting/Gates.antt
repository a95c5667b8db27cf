-- ===== src/Handlers/Minting/Gates.antt =====
-- Who gets a token from Handlers/Minting.antt, and what everybody else can tell from the answer.
use meowth.Prelude.{
  ℕ, ◌≤◌, ◌≡◌, refl, Bool, true, false, Option, none, some, arith, ◌⊎◌, not, ◌||◌, Bool-cases, inl,
  inr, Result, ok, err, Bytes,
}
use meowth.Problem.{Kind}
use meowth.Store.Secret.{SecretError}
use meowth.Store.Tokens.{Token}
use meowth.Mint.{
  World, ConsumeRequest, IdKey, Outcome, minted, format_error, mismatch, consume, is_closed,
  valid_setup_code_shape, digest_matches,
}
use meowth.Mint.OneShot.{minted_iff}
use meowth.Handlers.Minting.Effects.{is_problem}
use meowth.Handlers.Minting.{
  Db, MintBody, too_large, malformed, trailing, setup_code, Request, created, problem, Reply, Net,
  Draws, recheck, commit, mint, is_loopback, origin_gate_passes, jitter_duration, with_secret,
  counted_failure, on_body, reply_of, not_found_reply, success,
}

no_success : (o : Option Token) (secret : Bytes) → is_problem (success o secret) ≡ true → ⊥
unfolding success
no_success none secret h = cc
no_success (some t) secret h = cc

module _ (id_key : IdKey) where
  -- What the caller had to present.
  pub record Presented (r : Request) (w : World Db) : Type 0 where
    pub code : Bytes
    pub body : r.body ≡ setup_code code
    pub shape : valid_setup_code_shape code ≡ true
    pub digest : digest_matches id_key w.window code ≡ true

  minted_reply :
      (r : Request) (j : Option ℕ) (secret s : Bytes) (db : Db) (o : Outcome) (t : Token)
      → (reply_of r j secret db o).response ≡ created t s
      → o ≡ minted
  unfolding reply_of
  minted_reply r j secret s db o t h = ground arith

  with_secret-Presented :
      (r : Request) (d : Draws) (code : Bytes) (x : Result SecretError (Bytes × Bytes × Bytes))
      (w : World Db) (t : Token) (s : Bytes)
      → (with_secret id_key r d code x w).1.response ≡ created t s
      → (valid_setup_code_shape code ≡ true) × (digest_matches id_key w.window code ≡ true)
  unfolding with_secret
  with_secret-Presented r d code (err e) w t s h = cc
  with_secret-Presented r d code (ok (secret, salt, hash)) w t s h =
      let w0 : World Db = record w { db = record { table = w.db.table; made = none } } in
      let q : ConsumeRequest Db = record {
        setup_code = code;
        recheck = recheck d.sql;
        commit = commit d.sql (secret, salt, hash) d.uuid d.now;
      } in
      let out = consume id_key q d.disk w0 in
      let g =
        (minted_iff id_key q d.disk w0).0 (minted_reply r d.jitter secret s out.0.db out.1 t h) in
      (g.well_formed, g.right_code)

  on_body-Presented :
      (r : Request) (d : Draws) (b : MintBody) (w : World Db) (t : Token) (s : Bytes)
      → r.body ≡ b
      → (on_body id_key r d b w).1.response ≡ created t s
      → Presented r w
  unfolding on_body
  on_body-Presented r d too_large w t s e h = cc
  on_body-Presented r d malformed w t s e h = cc
  on_body-Presented r d trailing w t s e h = cc
  on_body-Presented r d (setup_code code) w t s e h =
      let (shape, digest) = with_secret-Presented r d code d.secret w t s h in
      record { code = code; body = e; shape = shape; digest = digest }

  -- A token is issued only to a loopback peer that passes the origin gate, while a window is
  -- mounted and open, for a body with a well-formed setup code that hashes to the digest.
  pub issued_guarded :
      (net : Net) (mounted : Bool) (r : Request) (d : Draws) (w : World Db) (t : Token) (s : Bytes)
      → (mint id_key net mounted r d w).1.response ≡ created t s
      → (is_loopback net r.remote_addr ≡ true)
        × (origin_gate_passes r ≡ true)
        × (mounted ≡ true)
        × (is_closed w ≡ false)
        × Presented r w
  unfolding mint
  issued_guarded net mounted r d w t s h = ground (arith, on_body-Presented r d r.body w t s refl)

  -- The only answers besides a token.
  abbrev pub IsOrdinary : Request → Reply → Type 0
  IsOrdinary r reply =
      ((reply.response ≡ problem 404 Kind.not_found "Not Found" r.path)
        × ((reply.slept ≡ none) ⊎ ((ms : ℕ) × (reply.slept ≡ some ms) × (200 ≤ ms) × (ms ≤ 500))))
      ⊎ ((reply.slept ≡ none)
          × ((reply.response
                ≡ problem 413 Kind.payload_too_large
                    "request body exceeds the per-request size limit" r.path)
              ⊎ (reply.response ≡ problem 500 Kind.internal "internal" r.path)))

  jitter_bounds : (j : Option ℕ) → (200 ≤ jitter_duration j) × (jitter_duration j ≤ 500)
  unfolding jitter_duration
  jitter_bounds none = omega arith
  jitter_bounds (some n) = omega arith

  quiet : (r : Request) → IsOrdinary r (not_found_reply r none)
  unfolding not_found_reply
  quiet r = inl (refl, inl refl)

  delayed :
      (r : Request) (j : Option ℕ) → IsOrdinary r (not_found_reply r (some (jitter_duration j)))
  unfolding not_found_reply
  delayed r j = inl (refl, inr (jitter_duration j, refl, (jitter_bounds j).0, (jitter_bounds j).1))

  reply_of-IsOrdinary :
      (r : Request) (j : Option ℕ) (secret : Bytes) (db : Db) (o : Outcome)
      → is_problem (reply_of r j secret db o).response ≡ true
      → IsOrdinary r (reply_of r j secret db o)
  unfolding reply_of
  reply_of-IsOrdinary r j secret db minted h = absurd (no_success db.made secret h)
  reply_of-IsOrdinary r j secret db format_error h = delayed r j
  reply_of-IsOrdinary r j secret db mismatch h = delayed r j
  reply_of-IsOrdinary r j secret db _ h = quiet r

  with_secret-IsOrdinary :
      (r : Request) (d : Draws) (code : Bytes) (x : Result SecretError (Bytes × Bytes × Bytes))
      (w : World Db)
      → is_problem (with_secret id_key r d code x w).1.response ≡ true
      → IsOrdinary r (with_secret id_key r d code x w).1
  unfolding with_secret
  with_secret-IsOrdinary r d code (err e) w h = inr (refl, inr refl)
  with_secret-IsOrdinary r d code (ok (secret, salt, hash)) w h =
      let q : ConsumeRequest Db = record {
        setup_code = code;
        recheck = recheck d.sql;
        commit = commit d.sql (secret, salt, hash) d.uuid d.now;
      } in
      let out =
        consume id_key q d.disk (record w { db = record { table = w.db.table; made = none } }) in
      reply_of-IsOrdinary r d.jitter secret out.0.db out.1 h

  on_body-IsOrdinary :
      (r : Request) (d : Draws) (b : MintBody) (w : World Db)
      → is_problem (on_body id_key r d b w).1.response ≡ true
      → IsOrdinary r (on_body id_key r d b w).1
  unfolding on_body counted_failure
  on_body-IsOrdinary r d too_large w h = inr (refl, inl refl)
  on_body-IsOrdinary r d malformed w h = delayed r d.jitter
  on_body-IsOrdinary r d trailing w h = delayed r d.jitter
  on_body-IsOrdinary r d (setup_code code) w h = with_secret-IsOrdinary r d code d.secret w h

  -- A refused caller sees one and the same 404, after no delay or one of 200 to 500 ms, except for
  -- a body over the size limit (413) and a failure of the random source (500).
  pub refusal-IsOrdinary :
      (net : Net) (mounted : Bool) (r : Request) (d : Draws) (w : World Db)
      → is_problem (mint id_key net mounted r d w).1.response ≡ true
      → IsOrdinary r (mint id_key net mounted r d w).1
  unfolding mint
  refusal-IsOrdinary net mounted r d w = elim (Bool-cases (not (is_loopback net r.remote_addr))) [
    | inl far ↦ rw far (λ h. quiet r)
    | inr near ↦ rw near (elim (Bool-cases (not (origin_gate_passes r))) [
      | inl cross ↦ rw cross (λ h. quiet r)
      | inr same ↦ rw same (elim (Bool-cases (not mounted || is_closed w)) [
        | inl shut ↦ rw shut (λ h. quiet r)
        | inr live ↦ rw live (on_body-IsOrdinary r d r.body w)
      ])
    ])
  ]
