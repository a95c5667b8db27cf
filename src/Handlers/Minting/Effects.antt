-- ===== src/Handlers/Minting/Effects.antt =====
-- What a request to Handlers/Minting.antt does to the table and to the window, and what it answers.
use meowth.Prelude.{
  ℕ, ◌≡◌, ◌≢◌, refl, ap, ◌∙◌, Bool, true, false, [], ◌∷◌, ◌++◌, Option, none, some, String, arith,
  ◌⊎◌, not, ◌||◌, Bool-cases, if◌then◌else◌, inl, inr, Result, ok, err, length, Bytes,
}
use meowth.Store.Secret.{SecretError, prefix}
use meowth.Store.Tokens.{Token, Table, TokenError, insert_token, count_tokens}
use meowth.Store.Tokens.Insertion.{insert_token-eq}
use meowth.Mint.{World, ConsumeRequest, IdKey, is_closed, Outcome, minted, consume}
use meowth.Mint.OneShot.{consume-db}
use meowth.Handlers.Minting.{
  Db, DbFaults, MintBody, too_large, malformed, trailing, setup_code, Request, Response, created,
  problem, Reply, minted_in, after_count, bootstrap_params, hopeless, reply_of, Net, Draws, recheck,
  commit, mint, is_loopback, origin_gate_passes, with_secret, counted_failure, on_body,
}

empty_of_length : (ts : Table) → length ts ≡ 0 → ts ≡ []
empty_of_length [] h = refl
empty_of_length (t ∷ ts) h = absurd (omega arith)

-- A commit finds the table empty, and leaves it with the one row that it returns.
record IsFirst (secret : Bytes) (before after : Db) (t : Token) : Type 0 where
  empty : before.table ≡ []
  only : after.table ≡ t ∷ []
  made : after.made ≡ some t
  via : t.created_via ≡ "first_run_mint"
  lead : t.prefix ≡ prefix secret
  active : t.revoked_at ≡ none

minted_in-eq :
    (f : DbFaults) (r : Result TokenError (Token × Table)) (db' : Db)
    → minted_in f r ≡ some db'
    → (t : Token) × (r ≡ ok (t, db'.table)) × (db'.made ≡ some t)
unfolding minted_in
minted_in-eq f (err e) db' h = cc
minted_in-eq f (ok (t, ts)) db' h = (t, ground arith, ground arith)

after_count-eq :
    (f : DbFaults) (r : Result TokenError (Token × Table)) (ts : Table) (b : Bool) (db' : Db)
    → after_count f r (count_tokens b ts) ≡ some db'
    → (length ts ≡ 0) × (minted_in f r ≡ some db')
unfolding after_count count_tokens
after_count-eq f r ts b db' h = ground arith

begun :
    {A : Type 0} {y : A} (b : Bool) (x : Option A) → (if b then none else x) ≡ some y → x ≡ some y
begun true x h = cc
begun false x h = h

commit-IsFirst :
    (f : DbFaults) (secret salt hash : Bytes) (uuid : Option String) (now : ℕ) (db db' : Db)
    → commit f (secret, salt, hash) uuid now db ≡ some db'
    → (t : Token) × IsFirst secret db db' t
unfolding commit
commit-IsFirst f secret salt hash uuid now db db' h =
    let (none_yet, committed) =
      after_count-eq f
        (insert_token f.insert_fails (bootstrap_params secret salt hash) uuid now db.table) db.table
        f.count_fails db' (begun f.begin_fails _ h) in
    let (t, inserted, made) =
      minted_in-eq f
        (insert_token f.insert_fails (bootstrap_params secret salt hash) uuid now db.table) db'
        committed in
    let facts =
      insert_token-eq f.insert_fails (bootstrap_params secret salt hash) uuid now db.table db'.table
        t inserted in
    let empty = empty_of_length db.table none_yet in
    (
      t,
      record {
        empty = empty;
        only = facts.1 ∙ ap (λ (ts : Table). ts ++ t ∷ []) empty;
        made = made;
        via = facts.0.created_via;
        lead = facts.0.prefix;
        active = facts.0.revoked_at;
      },
    )

abbrev pub is_problem : Response → Bool
is_problem (problem status kind detail path) = true
is_problem _ = false

-- The request got the token: the only row of a table that was empty.
pub record Issued (before after : World Db) (reply : Reply) (t : Token) (secret : Bytes)
    : Type 0 where
  pub answer : reply.response ≡ created t secret
  pub empty : before.db.table ≡ []
  pub only : after.db.table ≡ t ∷ []
  pub via : t.created_via ≡ "first_run_mint"
  pub lead : t.prefix ≡ prefix secret
  pub active : t.revoked_at ≡ none
  pub shut : after.window.closed ≡ true

abbrev pub Effect : World Db → World Db × Reply → Type 0
Effect w (w', reply) =
    ((t : Token) × (secret : Bytes) × Issued w w' reply t secret)
    ⊎ ((is_problem reply.response ≡ true) × (w'.db.table ≡ w.db.table))

module _ (id_key : IdKey) where
  counted_failure-Effect :
      (r : Request) (d : Draws) (w : World Db) → Effect w (counted_failure id_key r d w)
  unfolding counted_failure
  counted_failure-Effect r d w = elim (consume-db id_key hopeless d.disk w) [
    | inl (m, c, h) ↦ cc h
    | inr (m, h) ↦ inr (refl, ap (λ (x : Db). x.table) h)
  ]

  other_reply :
      (r : Request) (j : Option ℕ) (secret : Bytes) (db : Db) (o : Outcome)
      → o ≢ minted
      → is_problem (reply_of r j secret db o).response ≡ true
  unfolding reply_of
  other_reply r j secret db minted h = absurd (h refl)
  other_reply r j secret db _ h = refl

  with_secret-Effect :
      (r : Request) (d : Draws) (code : Bytes) (s : Result SecretError (Bytes × Bytes × Bytes))
      (w : World Db)
      → Effect w (with_secret id_key r d code s w)
  unfolding with_secret
  with_secret-Effect r d code (err e) w = inr (refl, refl)
  with_secret-Effect r d code (ok (secret, salt, hash)) w =
      let w0 : World Db = record w { db = record { table = w.db.table; made = none } } in
      let q : ConsumeRequest Db = record {
        setup_code = code;
        recheck = recheck d.sql;
        commit = commit d.sql (secret, salt, hash) d.uuid d.now;
      } in
      elim (consume-db id_key q d.disk w0) [
        | inl (m, c, h) ↦
            let (t, first) =
              commit-IsFirst d.sql secret salt hash d.uuid d.now w0.db
                (consume id_key q d.disk w0).0.db h in
            inl (
              t,
              secret,
              record {
                answer = rw (m, first.made) refl;
                empty = first.empty;
                only = first.only;
                via = first.via;
                lead = first.lead;
                active = first.active;
                shut = c;
              },
            )
        | inr (m, h) ↦ inr (
          other_reply r d.jitter secret (consume id_key q d.disk w0).0.db
              (consume id_key q d.disk w0).1 m,
          ap (λ (x : Db). x.table) h,
        )
      ]

  on_body-Effect :
      (r : Request) (d : Draws) (b : MintBody) (w : World Db) → Effect w (on_body id_key r d b w)
  unfolding on_body
  on_body-Effect r d too_large w = inr (refl, refl)
  on_body-Effect r d malformed w = counted_failure-Effect r d w
  on_body-Effect r d trailing w = counted_failure-Effect r d w
  on_body-Effect r d (setup_code code) w = with_secret-Effect r d code d.secret w

  -- A mint request either gets a 201 with the one row of a table that was empty, created via the
  -- first-run mint, and leaves the window closed; or it gets a problem and leaves the table as it
  -- was. In particular a token is never written without the answer, nor answered without a token.
  pub mint-Effect :
      (net : Net) (mounted : Bool) (r : Request) (d : Draws) (w : World Db)
      → Effect w (mint id_key net mounted r d w)
  unfolding mint
  mint-Effect net mounted r d w = elim (Bool-cases (not (is_loopback net r.remote_addr))) [
    | inl far ↦ rw far (inr (refl, refl))
    | inr near ↦ rw near (elim (Bool-cases (not (origin_gate_passes r))) [
      | inl cross ↦ rw cross (inr (refl, refl))
      | inr same ↦ rw same (elim (Bool-cases (not mounted || is_closed w)) [
        | inl shut ↦ rw shut (inr (refl, refl))
        | inr live ↦ rw live (on_body-Effect r d r.body w)
      ])
    ])
  ]
