-- ===== src/SetupNonce/Tests.antt =====
-- A setup nonce (SetupNonce.antt) written and read back by a codec that knows this one payload.
use meowth.Prelude.{
  ◌≡◌, refl, ap, subst, Bool, true, false, ◌&&◌, [], ◌∷◌, Option, none, some, str_eq, eq_iff,
  if◌then◌else◌, ◌==◌, Bytes, bytes_eq, bytes_eq_sound, ok, ℤ, pos, negsuc, arith,
}
use meowth.SetupNonce.{Payload, Decoded, object, malformed, parse, validate, write, payload_of}
use meowth.SetupNonce.RoundTrip.{IsSound, parse-IsSound, parse-write}

abbrev salt : Bytes
salt = 0 ∷ 1 ∷ 2 ∷ 3 ∷ 4 ∷ 5 ∷ 6 ∷ 7 ∷ 8 ∷ 9 ∷ 10 ∷ 11 ∷ 12 ∷ 13 ∷ 14 ∷ 15 ∷ []

abbrev digest : Bytes
digest =
    0 ∷ 1 ∷ 2 ∷ 3 ∷ 4 ∷ 5 ∷ 6 ∷ 7 ∷ 8 ∷ 9 ∷ 10 ∷ 11 ∷ 12 ∷ 13 ∷ 14 ∷ 15 ∷ 0 ∷ 1 ∷ 2 ∷ 3 ∷ 4 ∷ 5 ∷ 6
    ∷ 7 ∷ 8 ∷ 9 ∷ 10 ∷ 11 ∷ 12 ∷ 13 ∷ 14 ∷ 15 ∷ []

abbrev known : Payload
known = record {
  algorithm = "argon2id";
  version = 19;
  memory_kib = 65536;
  time_cost = 3;
  parallelism = 4;
  salt_b64 = salt;
  digest_b64 = digest;
  created_at = pos 7;
  one_shot = true;
}

abbrev is_seven : ℤ → Bool
is_seven (pos n) = n == 7
is_seven (negsuc n) = false

is_known : Payload → Bool
is_known p =
    str_eq p.algorithm "argon2id"
    && p.version == 19
    && p.memory_kib == 65536
    && p.time_cost == 3
    && p.parallelism == 4
    && bytes_eq p.salt_b64 salt
    && bytes_eq p.digest_b64 digest
    && is_seven p.created_at
    && p.one_shot

abbrev marshal : Payload → Option Bytes
marshal p = if is_known p then some (1 ∷ []) else none

abbrev unmarshal : Bytes → Decoded
unmarshal [] = malformed
unmarshal (c ∷ s) = object known

is_seven-eq : (z : ℤ) → is_seven z ≡ true → z ≡ pos 7
is_seven-eq (pos n) h = ap (λ k. pos k) (ground (arith, h))
is_seven-eq (negsuc n) h = cc

is_known-eq : (p : Payload) → is_known p ≡ true → known ≡ p
unfolding is_known
is_known-eq p h = ground (
  arith,
  h,
  eq_iff p.algorithm "argon2id",
  bytes_eq_sound p.salt_b64 salt,
  bytes_eq_sound p.digest_b64 digest,
  is_seven-eq p.created_at,
)

marshal-cases :
    (p : Payload) (body : Bytes) → marshal p ≡ some body → (is_known p ≡ true) × (1 ∷ [] ≡ body)
marshal-cases p body h = ground (arith, h)

reads_back : (p : Payload) (body : Bytes) → marshal p ≡ some body → unmarshal body ≡ object p
reads_back p body h =
    let (k, b) = marshal-cases p body h in
    subst (λ s. unmarshal s ≡ object p) b (ap (λ q. object q) (is_known-eq p k))

abbrev keep : Bytes → Bytes
keep b = b

abbrev kept : Bytes → Option Bytes
kept b = some b

wrote : write marshal keep 7 salt digest false false ≡ ok (1 ∷ [])
unfolding write is_known bytes_eq
wrote = refl

parse-write_example :
    parse kept unmarshal (some (1 ∷ []))
    ≡ ok (record { payload = payload_of marshal keep 7 salt digest; salt = salt; digest = digest })
parse-write_example =
    parse-write unmarshal marshal keep kept reads_back (λ b. refl) 7 salt digest false false
      (1 ∷ []) (ground arith) wrote

known_parsed :
    parse kept unmarshal (some (1 ∷ []))
    ≡ ok (record { payload = known; salt = salt; digest = digest })
unfolding parse validate
known_parsed = refl

parse-IsSound_example : IsSound (record { payload = known; salt = salt; digest = digest })
parse-IsSound_example =
    parse-IsSound kept unmarshal (some (1 ∷ []))
      (record { payload = known; salt = salt; digest = digest }) known_parsed
