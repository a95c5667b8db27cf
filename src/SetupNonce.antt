-- ===== src/SetupNonce.antt =====
-- The setup_nonce.hash file: daemon/internal/setupnonce/setupnonce.go.
pub mod Tests
pub mod RoundTrip
use meowth.Prelude.{
  ℕ, ◌≡◌, Bool, true, false, Option, none, some, String, str_eq, if◌then◌else◌, length, ltb, ◌==◌,
  not, Bytes, Result, ok, err, ◌>>=◌, ◌>>◌, ℤ, pos, lt_ℤ,
}
use meowth.Store.Secret.{argon2_version, argon2_salt_len, argon2_key_len}

pub record Payload : Type 0 where
  pub algorithm : String
  pub version : ℕ
  pub memory_kib : ℕ
  pub time_cost : ℕ
  pub parallelism : ℕ
  pub salt_b64 : Bytes
  pub digest_b64 : Bytes
  pub created_at : ℤ
  pub one_shot : Bool

pub record Parsed : Type 0 where
  pub payload : Payload
  pub salt : Bytes
  pub digest : Bytes

pub data NonceError : Type 0 where
  read_failed decode_failed trailing_data : NonceError
  algorithm_not_supported : String → NonceError
  not_one_shot : NonceError
  version_differs : ℕ → NonceError
  zero_memory zero_time zero_parallelism bad_created_at : NonceError
  salt_not_base64 digest_not_base64 : NonceError
  salt_length digest_length : ℕ → NonceError
  marshal_failed write_failed chmod_failed : NonceError

-- What the JSON decoder of the file's bytes reports: no object of the schema, an object followed
-- by more data, or the object alone.
pub data Decoded : Type 0 where
  malformed : Decoded
  trailing : Decoded
  object : Payload → Decoded

abbrev pub argon2_memory : ℕ
argon2_memory = 65536

abbrev pub argon2_time : ℕ
argon2_time = 3

abbrev pub argon2_parallelism : ℕ
argon2_parallelism = 4

abbrev pub guard : Bool → NonceError → Result NonceError (Unit {0})
guard true e = ok tt
guard false e = err e

base64 : NonceError → Option Bytes → Result NonceError Bytes
base64 e none = err e
base64 e (some b) = ok b

module _ (decode64 : Bytes → Option Bytes) where
  -- The checks that follow the decoding, in their order.
  unfoldable pub validate : Payload → Result NonceError Parsed
  unfolding base64
  validate p = do
    guard (str_eq p.algorithm "argon2id") (algorithm_not_supported p.algorithm)
    guard p.one_shot not_one_shot
    guard (p.version == argon2_version) (version_differs p.version)
    guard (not (p.memory_kib == 0)) zero_memory
    guard (not (p.time_cost == 0)) zero_time
    guard (not (p.parallelism == 0)) zero_parallelism
    guard (lt_ℤ (pos 0) p.created_at) bad_created_at
    salt ← base64 salt_not_base64 (decode64 p.salt_b64)
    guard (length salt == argon2_salt_len) (salt_length (length salt))
    digest ← base64 digest_not_base64 (decode64 p.digest_b64)
    guard (length digest == argon2_key_len) (digest_length (length digest))
    ok (record { payload = p; salt = salt; digest = digest })

  unfoldable pub from_decoded : Decoded → Result NonceError Parsed
  from_decoded malformed = err decode_failed
  from_decoded trailing = err trailing_data
  from_decoded (object p) = validate p

  -- `Parse`, of the JSON decoder and a file; `none` is a file that cannot be read.
  unfoldable pub parse : (Bytes → Decoded) → Option Bytes → Result NonceError Parsed
  unfolding from_decoded
  parse unmarshal none = err read_failed
  parse unmarshal (some body) = from_decoded (unmarshal body)

module _ (marshal : Payload → Option Bytes) (encode64 : Bytes → Bytes) where
  unfoldable pub payload_of : ℕ → Bytes → Bytes → Payload
  payload_of now salt digest = record {
    algorithm = "argon2id";
    version = argon2_version;
    memory_kib = argon2_memory;
    time_cost = argon2_time;
    parallelism = argon2_parallelism;
    salt_b64 = encode64 salt;
    digest_b64 = encode64 digest;
    created_at = pos now;
    one_shot = true;
  }

  written : Option Bytes → Bool → Bool → Result NonceError Bytes
  written none write_fails chmod_fails = err marshal_failed
  written (some body) write_fails chmod_fails =
      if write_fails then err write_failed else if chmod_fails then err chmod_failed else ok body

  -- `Write`: the bytes that the file holds afterwards.
  unfoldable pub write : ℕ → Bytes → Bytes → Bool → Bool → Result NonceError Bytes
  unfolding written payload_of
  write now salt digest write_fails chmod_fails =
      if length salt == argon2_salt_len
      then (if length digest == argon2_key_len
          then written (marshal (payload_of now salt digest)) write_fails chmod_fails
          else err (digest_length (length digest)))
      else err (salt_length (length salt))
