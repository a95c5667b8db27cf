-- ===== src/Handlers/Minting.antt =====
-- POST /bootstrap/mint: daemon/internal/server/handlers/mint.go, over the window of Mint.antt and
-- the tokens table of Store/Tokens.antt.
pub mod Tests
pub mod Effects
pub mod Gates
use meowth.Prelude.{
  ℕ, ◌+◌, ◌-◌, ◌/◌, ◌%◌, ◌^◌, ◌≡◌, refl, Bool, true, false, ◌&&◌, ◌||◌, not, List, [], ◌∷◌, ◌++◌,
  Option, none, some, String, str_eq, arith, leb, ltb, ◌==◌, if◌then◌else◌, length, Bytes, codes,
  bytes_eq, Result, ok, err,
}
use meowth.Problem
use meowth.Problem.{Kind}
use meowth.Store.Secret.{SecretError, prefix}
use meowth.Store.Tokens.{Token, Table, TokenError, InsertTokenParams, insert_token, count_tokens}
use meowth.Mint.{
  World, Faults, ConsumeRequest, IdKey, Outcome, minted, format_error, mismatch, recheck_failed,
  window_closed, internal, is_closed, consume,
}

abbrev pub jitter_min_ms : ℕ
jitter_min_ms = 200

abbrev pub jitter_max_ms : ℕ
jitter_max_ms = 500

-- `rand.Int` of the window's width; `none` where it failed.
unfoldable pub jitter_duration : Option ℕ → ℕ
jitter_duration none = jitter_max_ms
jitter_duration (some n) = jitter_min_ms + n % (jitter_max_ms - jitter_min_ms + 1)

-- The table, and the variable that the commit callback fills.
pub record Db : Type 0 where
  pub table : Table
  pub made : Option Token

pub record DbFaults : Type 0 where
  pub recheck_fails : Bool
  pub begin_fails : Bool
  pub count_fails : Bool
  pub insert_fails : Bool
  pub commit_fails : Bool

-- What the JSON decoder makes of the body.
pub data MintBody : Type 0 where
  too_large malformed trailing : MintBody
  setup_code : Bytes → MintBody

pub record Request : Type 0 where
  pub remote_addr : String
  pub sec_fetch_site : String
  pub origin : Bytes
  pub host : Bytes
  pub path : String
  pub body : MintBody

pub data Response : Type 0 where
  -- 201 with the token's row and its secret
  created : Token → Bytes → Response
  problem : ℕ → Kind → String → String → Response
  -- no token to write: the handler would dereference nil
  crashed : Response

pub record Reply : Type 0 where
  pub response : Response
  pub slept : Option ℕ

trim_suffix_slash : Bytes → Bytes
trim_suffix_slash [] = []
trim_suffix_slash (c ∷ []) = if c == b'/' then [] else c ∷ []
trim_suffix_slash (c ∷ d ∷ s) = c ∷ trim_suffix_slash (d ∷ s)

unfoldable pub origin_gate_passes : Request → Bool
unfolding trim_suffix_slash
origin_gate_passes r =
    if str_eq r.sec_fetch_site "cross-site" || str_eq r.sec_fetch_site "same-site"
    then false
    else if length r.origin == 0
    then true
    else bytes_eq (trim_suffix_slash r.origin) (codes "http://" ++ r.host)

-- An IP address is its 16 bytes as one number; `To4` finds the last four of a mapped one.
to_4 : ℕ → Option ℕ
to_4 ip = if ip / 2 ^ 32 == 0xffff then some (ip % 2 ^ 32) else none

ip_is_loopback : Option ℕ → ℕ → Bool
ip_is_loopback (some v4) ip = v4 / 2 ^ 24 == 127
ip_is_loopback none ip = ip == 1

-- `net.SplitHostPort` and `net.ParseIP`.
pub record Net : Type 0 where
  pub split_host_port : String → Option String
  pub parse_ip : String → Option ℕ

host_of : Option String → String → String
host_of (some host) addr = host
host_of none addr = addr

parsed_is_loopback : Option ℕ → Bool
unfolding to_4 ip_is_loopback
parsed_is_loopback none = false
parsed_is_loopback (some ip) = ip_is_loopback (to_4 ip) ip

unfoldable pub is_loopback : Net → String → Bool
unfolding host_of parsed_is_loopback
is_loopback net addr = parsed_is_loopback (net.parse_ip (host_of (net.split_host_port addr) addr))

-- The Recheck callback.
recheck : DbFaults → Db → Option Bool
recheck f db = elim (count_tokens f.recheck_fails db.table) [ ok n ↦ some (n == 0) | err e ↦ none ]

minted_in : DbFaults → Result TokenError (Token × Table) → Option Db
minted_in f (err e) = none
minted_in f (ok (t, ts)) =
    if f.commit_fails then none else some (record { table = ts; made = some t })

after_count : DbFaults → Result TokenError (Token × Table) → Result TokenError ℕ → Option Db
unfolding minted_in
after_count f next (err e) = none
after_count f next (ok n) = if n == 0 then minted_in f next else none

abbrev pub bootstrap_params : Bytes → Bytes → Bytes → InsertTokenParams
bootstrap_params secret salt hash = record {
  name = codes "bootstrap";
  prefix = prefix secret;
  token_hash = hash;
  salt = salt;
  created_via = "first_run_mint";
}

-- The Commit callback: a transaction, rolled back on every error.
commit : DbFaults → Bytes × Bytes × Bytes → Option String → ℕ → Db → Option Db
unfolding after_count
commit f (secret, salt, hash) uuid now db =
    if f.begin_fails
    then none
    else after_count f
        (insert_token f.insert_fails (bootstrap_params secret salt hash) uuid now db.table)
        (count_tokens f.count_fails db.table)

not_found_reply : Request → Option ℕ → Reply
not_found_reply r slept = record {
  response = problem 404 Kind.not_found "Not Found" r.path;
  slept = slept;
}

success : Option Token → Bytes → Response
success (some t) secret = created t secret
success none secret = crashed

-- The switch on the outcome.
reply_of : Request → Option ℕ → Bytes → Db → Outcome → Reply
unfolding not_found_reply success jitter_duration
reply_of r jitter secret db minted = record { response = success db.made secret; slept = none }
reply_of r jitter secret db format_error = not_found_reply r (some (jitter_duration jitter))
reply_of r jitter secret db mismatch = not_found_reply r (some (jitter_duration jitter))
reply_of r jitter secret db recheck_failed = not_found_reply r none
reply_of r jitter secret db window_closed = not_found_reply r none
reply_of r jitter secret db internal = not_found_reply r none

-- What one request draws from its surroundings.
pub record Draws : Type 0 where
  pub jitter : Option ℕ
  pub secret : Result SecretError (Bytes × Bytes × Bytes)
  pub uuid : Option String
  pub now : ℕ
  pub disk : Faults
  pub sql : DbFaults

-- The request that `countedFailure` sends: its code cannot pass the shape check.
abbrev pub hopeless : ConsumeRequest Db
hopeless = record { setup_code = []; recheck = λ _. none; commit = λ _. none }

module _ (id_key : IdKey) where
  counted_failure : Request → Draws → World Db → World Db × Reply
  unfolding not_found_reply jitter_duration
  counted_failure r d w =
      ((consume id_key hopeless d.disk w).0, not_found_reply r (some (jitter_duration d.jitter)))

  consumed : Request → Draws → Bytes → World Db × Outcome × String → World Db × Reply
  unfolding reply_of
  consumed r d secret (w, outcome, reason) = (w, reply_of r d.jitter secret w.db outcome)

  with_secret :
      Request
      → Draws
      → Bytes
      → Result SecretError (Bytes × Bytes × Bytes)
      → World Db
      → World Db × Reply
  unfolding consumed recheck commit
  with_secret r d code (err e) w =
      (w, record { response = problem 500 Kind.internal "internal" r.path; slept = none })
  with_secret r d code (ok (secret, salt, hash)) w = consumed r d secret (
      consume id_key
        (record {
          setup_code = code;
          recheck = recheck d.sql;
          commit = commit d.sql (secret, salt, hash) d.uuid d.now;
        })
        d.disk (record w { db = record { table = w.db.table; made = none } }))

  on_body : Request → Draws → MintBody → World Db → World Db × Reply
  unfolding counted_failure with_secret
  on_body r d too_large w = (
    w,
    record {
      response =
          problem 413 Kind.payload_too_large "request body exceeds the per-request size limit"
            r.path;
      slept = none;
    },
  )
  on_body r d malformed w = counted_failure r d w
  on_body r d trailing w = counted_failure r d w
  on_body r d (setup_code code) w = with_secret r d code d.secret w

  -- `Mint`; `mounted` says that the handler has a window.
  unfoldable pub mint : Net → Bool → Request → Draws → World Db → World Db × Reply
  unfolding on_body is_loopback origin_gate_passes not_found_reply
  mint net mounted r d w =
      if not (is_loopback net r.remote_addr)
      then (w, not_found_reply r none)
      else if not (origin_gate_passes r)
      then (w, not_found_reply r none)
      else if not mounted || is_closed w
      then (w, not_found_reply r none)
      else on_body r d r.body w
