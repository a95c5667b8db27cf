-- ===== src/SetupNonce/RoundTrip.antt =====
-- What `Parse` accepts, and that it reads back what `Write` wrote: SetupNonce.antt.
use meowth.Prelude.{
  ℕ, ◌<◌, ◌≡◌, Bool, true, Option, none, some, eq_iff, length, Bytes, ok, pos, lt_ℤ, arith,
}
use meowth.SetupNonce.{
  Payload, Parsed, Decoded, object, trailing, malformed, validate, parse, write, from_decoded,
  payload_of,
}

-- What holds of every nonce that the parser lets through.
pub record IsSound (q : Parsed) : Type 0 where
  pub algorithm : q.payload.algorithm ≡ "argon2id"
  pub one_shot : q.payload.one_shot ≡ true
  pub version : q.payload.version ≡ 19
  pub memory : 0 < q.payload.memory_kib
  pub time : 0 < q.payload.time_cost
  pub parallelism : 0 < q.payload.parallelism
  pub created : lt_ℤ (pos 0) q.payload.created_at ≡ true
  pub salt : length q.salt ≡ 16
  pub digest : length q.digest ≡ 32

module _ (decode64 : Bytes → Option Bytes) where
  validate-IsSound : (p : Payload) (q : Parsed) → validate decode64 p ≡ ok q → IsSound q
  unfolding validate
  validate-IsSound p q h = ground (arith, eq_iff p.algorithm "argon2id")

  decoded-IsSound : (d : Decoded) (q : Parsed) → from_decoded decode64 d ≡ ok q → IsSound q
  unfolding from_decoded
  decoded-IsSound malformed q h = cc
  decoded-IsSound trailing q h = cc
  decoded-IsSound (object p) q h = validate-IsSound p q h

  -- A file that the parser accepts names argon2id v1.3 with positive costs and a positive date, is
  -- one-shot, and holds a salt of 16 bytes and a digest of 32, whatever the decoders are.
  pub parse-IsSound :
      (unmarshal : Bytes → Decoded) (file : Option Bytes) (q : Parsed)
      → parse decode64 unmarshal file ≡ ok q
      → IsSound q
  unfolding parse
  parse-IsSound unmarshal none q h = cc
  parse-IsSound unmarshal (some body) q h = decoded-IsSound (unmarshal body) q h

module _ (marshal : Payload → Option Bytes) (encode64 : Bytes → Bytes) where
  write-eq :
      (now : ℕ) (salt digest : Bytes) (wf cf : Bool) (body : Bytes)
      → write marshal encode64 now salt digest wf cf ≡ ok body
      → (length salt ≡ 16)
        × (length digest ≡ 32)
        × (marshal (payload_of marshal encode64 now salt digest) ≡ some body)
  unfolding write
  write-eq now salt digest wf cf body h = ground arith

  validate-payload :
      (decode64 : Bytes → Option Bytes) (now : ℕ) (salt digest : Bytes)
      → decode64 (encode64 salt) ≡ some salt
      → decode64 (encode64 digest) ≡ some digest
      → 0 < now
      → length salt ≡ 16
      → length digest ≡ 32
      → validate decode64 (payload_of marshal encode64 now salt digest)
        ≡ ok (record {
          payload = payload_of marshal encode64 now salt digest;
          salt = salt;
          digest = digest;
        })
  unfolding validate payload_of
  validate-payload decode64 now salt digest es ed n ls ld = rw (es, ed, ls, ld) (ground arith)

-- Given a JSON codec and a base64 codec that read back what they write, the parser reads a file
-- that `Write` wrote, at a positive time, as that salt and that digest.
pub parse-write :
    (unmarshal : Bytes → Decoded) (marshal : Payload → Option Bytes) (encode64 : Bytes → Bytes)
    (decode64 : Bytes → Option Bytes)
    → ((p : Payload) (body : Bytes) → marshal p ≡ some body → unmarshal body ≡ object p)
    → ((b : Bytes) → decode64 (encode64 b) ≡ some b)
    → (now : ℕ) (salt digest : Bytes) (write_fails chmod_fails : Bool) (body : Bytes) → 0 < now
    → write marshal encode64 now salt digest write_fails chmod_fails ≡ ok body
    → parse decode64 unmarshal (some body)
      ≡ ok (record {
        payload = payload_of marshal encode64 now salt digest;
        salt = salt;
        digest = digest;
      })
unfolding parse
parse-write unmarshal marshal encode64 decode64 json b64 now salt digest wf cf body n h =
    let facts = write-eq marshal encode64 now salt digest wf cf body h in
    rw (json (payload_of marshal encode64 now salt digest) body facts.2) (
      validate-payload marshal encode64 decode64 now salt digest (b64 salt) (b64 digest) n facts.0
        facts.1)
