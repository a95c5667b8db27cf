-- ===== src/Mint/Probe.antt =====
-- The decision at startup whether to mount a window: daemon/internal/server/mint/probe.go.
use meowth.Prelude.{
  ℕ, zero, suc, ◌≡◌, refl, Bool, true, false, ◌&&◌, not, [], ◌∷◌, Option, none, some, String,
  if◌then◌else◌, arith, Bytes, Result, ok, err, inl, inr, ap, ◌∙◌, Bool-cases,
}
use meowth.SetupNonce.{Parsed, Decoded, NonceError, parse}
use meowth.SetupNonce.RoundTrip.{IsSound, parse-IsSound}
use meowth.Store.Tokens.{Table, TokenError, count_tokens}
use meowth.Mint.{Window, OpenError, open_window, open_parsed}

-- `os.Stat` of the nonce file.
pub data Stat : Type 0 where
  present absent stat_failed : Stat

pub data ProbeResult : Type 0 where
  mounted : Window → ProbeResult
  -- nothing to mount, with the reason that is logged
  unmounted : String → ProbeResult
  -- the daemon does not start
  nil_home nil_db count_failed nonce_unreadable : ProbeResult

-- `ProbeInput`, with what the disk and the driver answer. The file is its bytes, `none` if it cannot
-- be read.
pub record ProbeInput : Type 0 where
  pub home : Option String
  pub db : Option Table
  pub is_local : Bool
  pub count_fails : Bool
  pub stat : Stat
  pub file : Option Bytes
  pub remove_fails : Bool

opened : Result OpenError Window → ProbeResult
opened (ok w) = mounted w
opened (err e) = unmounted "nonce_invalid"

module _ (decode64 : Bytes → Option Bytes) (unmarshal : Bytes → Decoded) where
  on_parsed : String → Result NonceError Parsed → ProbeResult
  unfolding opened
  on_parsed path (err e) = unmounted "nonce_invalid"
  on_parsed path (ok q) = opened (open_window (some q) path)

  -- The result for an empty table, by the file.
  on_empty : ProbeInput → String → Stat → ProbeResult
  unfolding on_parsed
  on_empty i path absent = unmounted "no_nonce_file"
  on_empty i path stat_failed = nonce_unreadable
  on_empty i path present = on_parsed path (parse decode64 unmarshal i.file)

  on_count : ProbeInput → String → Result TokenError ℕ → ProbeResult
  unfolding on_empty
  on_count i path (err e) = count_failed
  on_count i path (ok zero) = on_empty i path i.stat
  on_count i path (ok (suc n)) = unmounted "token_exists"

  with_db : ProbeInput → String → Option Table → ProbeResult
  unfolding on_count
  with_db i path none = nil_db
  with_db i path (some ts) =
      if not i.is_local
      then unmounted "remote_access_mode"
      else on_count i path (count_tokens i.count_fails ts)

  with_home : ProbeInput → Option String → ProbeResult
  unfolding with_db
  with_home i none = nil_home
  with_home i (some path) = with_db i path i.db

  -- `Probe`
  unfoldable pub probe : ProbeInput → ProbeResult
  unfolding with_home
  probe i = with_home i i.home

is_stale : Result TokenError ℕ → Bool
is_stale (ok (suc n)) = true
is_stale _ = false

is_present : Stat → Bool
is_present present = true
is_present _ = false

-- Whether `Probe` removes the nonce file: the stale cleanup.
unfoldable pub removes : ProbeInput → Bool
unfolding is_stale is_present
removes i = elim i.home [
  | none ↦ false
  | some path ↦ elim i.db [
    | none ↦ false
    | some ts ↦
        i.is_local
        && is_stale (count_tokens i.count_fails ts)
        && is_present i.stat
        && not i.remove_fails
  ]
]

module _ (decode64 : Bytes → Option Bytes) (unmarshal : Bytes → Decoded) where
  -- What a mounted window rests on.
  pub record Mounted (i : ProbeInput) (w : Window) : Type 0 where
    pub is_local : i.is_local ≡ true
    pub no_tokens : i.db ≡ some []
    pub nonce : i.stat ≡ present
    pub parsed : Parsed
    pub reads : parse decode64 unmarshal i.file ≡ ok parsed
    pub sound : IsSound parsed
    pub salt : w.salt ≡ parsed.salt
    pub digest : w.digest ≡ parsed.digest
    pub no_failure : w.failure_count ≡ 0
    pub still_open : w.closed ≡ false

  opened-eq :
      (q : Parsed) (path : String) (w : Window)
      → opened (open_window (some q) path) ≡ mounted w
      → (w.salt ≡ q.salt) × (w.digest ≡ q.digest) × (w.failure_count ≡ 0) × (w.closed ≡ false)
  unfolding opened open_window open_parsed
  opened-eq q path w h = ground (arith, h)

  -- What the parsed file adds to a mounted window.
  FromFile : ProbeInput → Window → Type 0
  FromFile i w =
      (q : Parsed) × (parse decode64 unmarshal i.file ≡ ok q)
      × (w.salt ≡ q.salt)
      × (w.digest ≡ q.digest)
      × (w.failure_count ≡ 0)
      × (w.closed ≡ false)

  parsed-FromFile :
      (i : ProbeInput) (path : String) (w : Window) (r : Result NonceError Parsed)
      → parse decode64 unmarshal i.file ≡ r
      → on_parsed decode64 unmarshal path r ≡ mounted w
      → FromFile i w
  unfolding on_parsed FromFile
  parsed-FromFile i path w (err e) p h = cc
  parsed-FromFile i path w (ok q) p h =
      let (a, b, c, d) = opened-eq q path w h in (q, p, a, b, c, d)

  empty-FromFile :
      (i : ProbeInput) (path : String) (w : Window) (s : Stat)
      → on_empty decode64 unmarshal i path s ≡ mounted w
      → (s ≡ present) × FromFile i w
  unfolding on_empty
  empty-FromFile i path w absent h = cc
  empty-FromFile i path w stat_failed h = cc
  empty-FromFile i path w present h = (refl, parsed-FromFile i path w _ refl h)

  count-FromFile :
      (i : ProbeInput) (path : String) (w : Window) (c : Result TokenError ℕ)
      → on_count decode64 unmarshal i path c ≡ mounted w
      → (c ≡ ok 0) × (i.stat ≡ present) × FromFile i w
  unfolding on_count
  count-FromFile i path w (err e) h = cc
  count-FromFile i path w (ok zero) h =
      let (a, b) = empty-FromFile i path w i.stat h in (refl, a, b)
  count-FromFile i path w (ok (suc n)) h = cc

  none_counted : (fails : Bool) (ts : Table) → count_tokens fails ts ≡ ok 0 → ts ≡ []
  unfolding count_tokens
  none_counted true ts h = cc
  none_counted false [] h = refl
  none_counted false (t ∷ ts) h = ground (arith, h)

  db-Mounted :
      (i : ProbeInput) (path : String) (w : Window) (d : Option Table)
      → i.db ≡ d
      → with_db decode64 unmarshal i path d ≡ mounted w
      → Mounted i w
  unfolding with_db FromFile
  db-Mounted i path w none e h = cc
  db-Mounted i path w (some ts) e h = elim (Bool-cases i.is_local) [
    | inl local ↦
        let (counted, stat, from_file) =
          count-FromFile i path w (count_tokens i.count_fails ts) (cc (local, h)) in
        let (q, reads, s, d, n, c) = from_file in
        record {
          is_local = local;
          no_tokens = e ∙ ap (λ t. some t) (none_counted i.count_fails ts counted);
          nonce = stat;
          parsed = q;
          reads = reads;
          sound = parse-IsSound decode64 unmarshal i.file q reads;
          salt = s;
          digest = d;
          no_failure = n;
          still_open = c;
        }
    | inr remote ↦ absurd (cc (remote, h))
  ]

  home-Mounted :
      (i : ProbeInput) (w : Window) (o : Option String)
      → with_home decode64 unmarshal i o ≡ mounted w
      → Mounted i w
  unfolding with_home
  home-Mounted i w none h = cc
  home-Mounted i w (some path) h = db-Mounted i path w i.db refl h

  unstale : (i : ProbeInput) → i.db ≡ some [] → removes i ≡ false
  unfolding removes count_tokens is_stale
  unstale i e = ground (arith, e)

  -- The startup mounts a window only for a daemon with local access alone, an empty tokens table and
  -- a nonce file that the parser accepts, which it leaves there; the window has the salt and the
  -- digest of the file, is open, and has counted no failure.
  pub probe-Mounted :
      (i : ProbeInput) (w : Window)
      → probe decode64 unmarshal i ≡ mounted w
      → Mounted i w × (removes i ≡ false)
  unfolding probe
  probe-Mounted i w h = let m = home-Mounted i w i.home h in (m, unstale i m.no_tokens)
