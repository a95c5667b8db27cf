-- ===== src/Mint.antt =====
-- The first-run mint window: daemon/internal/server/mint/window.go and probe.go. A call of
-- `Consume` reads only fields that never change before it takes the mutex, so every interleaving
-- of calls is a sequence of `consume` on one world.
pub mod Tests
pub mod Probe
pub mod Traces
pub mod OneShot
pub mod Lockout
use meowth.Prelude.{
  ℕ, ◌+◌, Bool, true, false, ◌&&◌, ◌||◌, not, List, [], ◌∷◌, Option, none, some, String, str_eq,
  leb, ltb, ◌==◌, if◌then◌else◌, length, take, drop, every, Bytes, codes, bytes_eq, is_base32_char,
  Result, ok, err,
}
use meowth.SetupNonce.{Parsed, NonceError}

abbrev pub max_failures : ℕ
max_failures = 5

abbrev pub setup_code_total_len : ℕ
setup_code_total_len = 43

pub record Window : Type 0 where
  pub algorithm : String
  pub version : ℕ
  pub memory_kib : ℕ
  pub time_cost : ℕ
  pub parallelism : ℕ
  pub salt : Bytes
  pub digest : Bytes
  pub nonce_path : String
  pub failure_count : ℕ
  pub closed : Bool

pub data OpenError : Type 0 where
  nil_parsed empty_path : OpenError
  unsupported_algorithm : String → OpenError
  not_one_shot zero_cost empty_material : OpenError

open_parsed : Parsed → String → Result OpenError Window
open_parsed q path =
    if str_eq path ""
    then err empty_path
    else if not (str_eq q.payload.algorithm "argon2id")
    then err (unsupported_algorithm q.payload.algorithm)
    else if not q.payload.one_shot
    then err not_one_shot
    else if q.payload.memory_kib == 0 || q.payload.time_cost == 0 || q.payload.parallelism == 0
    then err zero_cost
    else if length q.salt == 0 || length q.digest == 0
    then err empty_material
    else ok (record {
      algorithm = q.payload.algorithm;
      version = q.payload.version;
      memory_kib = q.payload.memory_kib;
      time_cost = q.payload.time_cost;
      parallelism = q.payload.parallelism;
      salt = q.salt;
      digest = q.digest;
      nonce_path = path;
      failure_count = 0;
      closed = false;
    })

-- `Open`; `none` is a nil pointer.
unfoldable pub open_window : Option Parsed → String → Result OpenError Window
unfolding open_parsed
open_window none path = err nil_parsed
open_window (some q) path = open_parsed q path

pub data Outcome : Type 0 where
  minted format_error mismatch recheck_failed window_closed internal : Outcome

-- The window, whether the nonce file is on disk, and the state that the callbacks work on.
pub record World (D : Type 0) : Type 0 where
  pub window : Window
  pub nonce_present : Bool
  pub db : D

-- How the file system answers during one call.
pub record Faults : Type 0 where
  pub stat_fails : Bool
  pub remove_fails : Bool

pub record ConsumeRequest (D : Type 0) : Type 0 where
  pub setup_code : Bytes
  -- Is the tokens table empty? `none` is an error.
  pub recheck : D → Option Bool
  -- `none` is an error; the transaction is rolled back.
  pub commit : D → Option D

unfoldable pub valid_setup_code_shape : Bytes → Bool
valid_setup_code_shape s =
    length s == setup_code_total_len
    && (bytes_eq (take 4 s) (codes "mws_") && every is_base32_char (drop 4 s))

-- `argon2.IDKey`: password, salt, time, memory, threads, key length.
abbrev pub IdKey : Type 0
IdKey = Bytes → Bytes → ℕ → ℕ → ℕ → ℕ → Bytes

unfoldable pub digest_matches : IdKey → Window → Bytes → Bool
digest_matches id_key v code =
    bytes_eq (id_key code v.salt v.time_cost v.memory_kib v.parallelism (length v.digest)) v.digest

-- `os.Remove` of the nonce file: an error is logged, and leaves the file.
removed : Faults → Bool → Bool
removed f present = present && f.remove_fails

module _ {D : Type 0} where
  unfoldable pub is_closed : World D → Bool
  is_closed w = w.window.closed

  lockout_locked : Faults → World D → World D
  unfolding removed
  lockout_locked f w = record w {
    window = record w.window { closed = true };
    nonce_present = removed f w.nonce_present;
  }

  -- `failureCount++`, and the lockout at the limit.
  count_failure : Faults → World D → World D
  unfolding lockout_locked
  count_failure f w =
      let v = record w {
        window = record w.window { failure_count = w.window.failure_count + 1 };
      } in
      if leb max_failures v.window.failure_count then lockout_locked f v else v

  unfoldable pub record_counted_failure : String → Faults → World D → World D × Outcome × String
  unfolding count_failure
  record_counted_failure reason f w =
      if w.window.closed
      then (w, window_closed, "closed")
      else (count_failure f w, format_error, reason)

  committed : Faults → World D → Option D → World D × Outcome × String
  unfolding removed
  committed f w none = (w, internal, "commit_failed")
  committed f w (some db) = (
    record w {
      window = record w.window { closed = true };
      nonce_present = removed f w.nonce_present;
      db = db;
    },
    minted,
    "minted",
  )

  rechecked : ConsumeRequest D → Faults → World D → Option Bool → World D × Outcome × String
  unfolding committed
  rechecked r f w none = (w, internal, "recheck_failed")
  rechecked r f w (some false) = (w, recheck_failed, "tokens_nonempty")
  rechecked r f w (some true) =
      if not w.nonce_present || f.stat_fails
      then (w, recheck_failed, "nonce_missing")
      else committed f w (r.commit w.db)

  -- What runs under the mutex once the digest has been compared.
  unfoldable pub consume_locked :
      Bool → ConsumeRequest D → Faults → World D → World D × Outcome × String
  unfolding count_failure rechecked
  consume_locked digest_matches r f w =
      if w.window.closed
      then (w, window_closed, "closed")
      else if not digest_matches
      then (count_failure f w, mismatch, "mismatch")
      else rechecked r f w (r.recheck w.db)

  unfoldable pub consume : IdKey → ConsumeRequest D → Faults → World D → World D × Outcome × String
  consume id_key r f w =
      if valid_setup_code_shape r.setup_code
      then consume_locked (digest_matches id_key w.window r.setup_code) r f w
      else record_counted_failure "format" f w
