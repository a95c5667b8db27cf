-- ===== src/Store/Secret.antt =====
-- The shape of secrets, and the check of a token prefix: daemon/internal/store/secret.go.
use meowth.Prelude.{
  ℕ, ◌+◌, ◌≡◌, refl, true, [], ◌∷◌, ◌++◌, arith, ltb, ◌==◌, if◌then◌else◌, length, take, drop,
  every, Option, none, some, Bytes, codes, bytes_eq, is_base32_char, Result, ok, err,
}

abbrev pub argon2_key_len : ℕ
argon2_key_len = 32

abbrev pub argon2_salt_len : ℕ
argon2_salt_len = 16

abbrev pub argon2_version : ℕ
argon2_version = 19

abbrev pub secret_total_len : ℕ
secret_total_len = 43

abbrev pub secret_base32_len : ℕ
secret_base32_len = 39

abbrev pub secret_prefix_len : ℕ
secret_prefix_len = 9

pub data SecretError : Type 0 where
  prefix_length prefix_lead : Bytes → SecretError
  prefix_tail : ℕ → ℕ → SecretError
  rand_failed salt_rand_failed : SecretError
  base32_length total_length : ℕ → SecretError

-- `secret[:9]`, or the whole secret where it is shorter.
unfoldable pub prefix : Bytes → Bytes
prefix secret =
    if ltb (length secret) secret_prefix_len then secret else take secret_prefix_len secret

-- The loop over the five bytes of the tail, at index `i`.
check_tail : ℕ → Bytes → Result SecretError (Unit {0})
check_tail i [] = ok tt
check_tail i (c ∷ rest) =
    let next = check_tail (i + 1) rest in if is_base32_char c then next else err (prefix_tail i c)

unfoldable pub validate_token_prefix : Bytes → Result SecretError (Unit {0})
unfolding check_tail
validate_token_prefix p =
    if length p == secret_prefix_len
    then (if bytes_eq (take 4 p) (codes "mwt_")
        then check_tail 0 (drop 4 p)
        else err (prefix_lead p))
    else err (prefix_length p)

-- `generateSecret`: the random bytes of the two `rand.Read` calls (`none` where it failed), the
-- base32 encoder and the digest are arguments.
module _ (encode : Bytes → Bytes) (digest : Bytes → Bytes → Bytes) where
  unfoldable pub salted : Bytes → Option Bytes → Result SecretError (Bytes × Bytes × Bytes)
  salted secret none = err salt_rand_failed
  salted secret (some salt) = ok (secret, salt, digest secret salt)

  unfoldable pub generate_secret :
      Bytes → Option Bytes → Option Bytes → Result SecretError (Bytes × Bytes × Bytes)
  unfolding salted
  generate_secret lead none salt = err rand_failed
  generate_secret lead (some raw) salt =
      if length (encode raw) == secret_base32_len
      then (if length (lead ++ encode raw) == secret_total_len
          then salted (lead ++ encode raw) salt
          else err (total_length (length (lead ++ encode raw))))
      else err (base32_length (length (encode raw)))

check_tail_of_every : (i : ℕ) (t : Bytes) → every is_base32_char t ≡ true → check_tail i t ≡ ok tt
unfolding check_tail
check_tail_of_every i [] h = refl
check_tail_of_every i (c ∷ rest) h = ground (arith, check_tail_of_every (i + 1) rest)
