-- ===== src/Mint/Tests.antt =====
-- Runs of a setup-code window (Mint.antt) over a database that is the number of its tokens.
use meowth.Prelude.{
  ℕ, ◌+◌, ◌≤◌, ◌≡◌, ◌↔◌, refl, true, false, List, [], ◌∷◌, some, arith, inl, Bytes, codes, bytes_eq,
  is_base32_char, ◌==◌,
}
use meowth.Mint.{
  Window, World, Faults, ConsumeRequest, IdKey, minted, window_closed, consume, consume_locked,
  valid_setup_code_shape, digest_matches,
}
use meowth.Prelude.{pos, Option, some}
use meowth.SetupNonce.{Payload, Decoded, object, parse, validate}
use meowth.Store.Tokens.{count_tokens}
use meowth.Mint.{open_window}
use meowth.Mint.Probe.{ProbeInput, present, mounted, probe, removes, Mounted, probe-Mounted}
use meowth.Mint.Traces.{Event, call, outside, is_mint, total, run}
use meowth.Mint.OneShot.{total_mints, room, minted_iff, Grants}
use meowth.Mint.Lockout.{Inv, IsBad, calls, lockout}

-- A hasher that keeps the code as it is.
abbrev identity_key : IdKey
identity_key code salt time memory lanes n = code

abbrev good_code : Bytes
good_code = codes "mws_ABCDEFGHIJKLMNOPQRSTUVWXYZ234567ABCDEFG"

abbrev wrong_code : Bytes
wrong_code = codes "mws_AAAAAAAAAAAAAAAAAAAAAAAAAAAAAAAAAAAAAAA"

abbrev fresh_window : Window
fresh_window = record {
  algorithm = "argon2id";
  version = 19;
  memory_kib = 65536;
  time_cost = 3;
  parallelism = 1;
  salt = 1 ∷ [];
  digest = good_code;
  nonce_path = "nonce.json";
  failure_count = 0;
  closed = false;
}

abbrev fresh : World ℕ
fresh = record { window = fresh_window; nonce_present = true; db = 0 }

abbrev good_disk : Faults
good_disk = record { stat_fails = false; remove_fails = false }

abbrev asking : Bytes → ConsumeRequest ℕ
asking code = record { setup_code = code; recheck = λ n. some (n == 0); commit = λ n. some (n + 1) }

good_code_mints : (consume identity_key (asking good_code) good_disk fresh).1 ≡ minted
unfolding consume consume_locked valid_setup_code_shape digest_matches bytes_eq is_base32_char
good_code_mints = refl

wrong_code_counts :
    (consume identity_key (asking wrong_code) good_disk fresh).0.window.failure_count ≡ 1
unfolding consume consume_locked valid_setup_code_shape digest_matches bytes_eq is_base32_char
wrong_code_counts = refl

-- The right code, then the table emptied by hand, then the right code again.
abbrev two_tries : List (Event ℕ)
two_tries =
    call (asking good_code) good_disk
    ∷ outside (λ n. 0) true
    ∷ call (asking good_code) good_disk
    ∷ []

total_mints_example :
    total identity_key is_mint two_tries fresh
      + room identity_key (run identity_key two_tries fresh)
    ≤ room identity_key fresh
total_mints_example = total_mints identity_key two_tries fresh

fresh-Inv : Inv fresh
fresh-Inv = record { bounded = omega arith; open_below = λ h. omega arith }

abbrev bad : ConsumeRequest ℕ × Faults
bad = (asking [], good_disk)

bad-IsBad : IsBad identity_key fresh bad
unfolding valid_setup_code_shape
bad-IsBad = inl refl

abbrev five_bad : List (ConsumeRequest ℕ × Faults)
five_bad = bad ∷ bad ∷ bad ∷ bad ∷ bad ∷ []

lockout_example :
    ((consume identity_key
        (asking good_code)
        good_disk
        (run identity_key (calls identity_key five_bad) fresh)).1
      ≡ window_closed)
    × ((consume identity_key
          (asking good_code)
          good_disk
          (run identity_key (calls identity_key five_bad) fresh)).0
        ≡ run identity_key (calls identity_key five_bad) fresh)
lockout_example =
    lockout identity_key five_bad fresh (asking good_code) good_disk fresh-Inv
      (bad-IsBad, (bad-IsBad, (bad-IsBad, (bad-IsBad, (bad-IsBad, tt))))) (omega arith)

minted_iff_example :
    ((consume identity_key (asking good_code) good_disk fresh).1 ≡ minted)
    ↔ Grants identity_key (asking good_code) good_disk fresh
minted_iff_example = minted_iff identity_key (asking good_code) good_disk fresh

abbrev known : Payload
known = record {
  algorithm = "argon2id";
  version = 19;
  memory_kib = 65536;
  time_cost = 3;
  parallelism = 4;
  salt_b64 = 0 ∷ 1 ∷ 2 ∷ 3 ∷ 4 ∷ 5 ∷ 6 ∷ 7 ∷ 8 ∷ 9 ∷ 10 ∷ 11 ∷ 12 ∷ 13 ∷ 14 ∷ 15 ∷ [];
  digest_b64 =
      0 ∷ 1 ∷ 2 ∷ 3 ∷ 4 ∷ 5 ∷ 6 ∷ 7 ∷ 8 ∷ 9 ∷ 10 ∷ 11 ∷ 12 ∷ 13 ∷ 14 ∷ 15 ∷ 0 ∷ 1 ∷ 2 ∷ 3 ∷ 4 ∷ 5
      ∷ 6 ∷ 7 ∷ 8 ∷ 9 ∷ 10 ∷ 11 ∷ 12 ∷ 13 ∷ 14 ∷ 15 ∷ [];
  created_at = pos 7;
  one_shot = true;
}

-- A codec that reads this one file.
abbrev unmarshal : Bytes → Decoded
unmarshal b = object known

abbrev kept : Bytes → Option Bytes
kept b = some b

abbrev first_start : ProbeInput
first_start = record {
  home = some "nonce.json";
  db = some [];
  is_local = true;
  count_fails = false;
  stat = present;
  file = some [];
  remove_fails = false;
}

abbrev first_window : Window
first_window = record {
  algorithm = "argon2id";
  version = 19;
  memory_kib = 65536;
  time_cost = 3;
  parallelism = 4;
  salt = known.salt_b64;
  digest = known.digest_b64;
  nonce_path = "nonce.json";
  failure_count = 0;
  closed = false;
}

first_start_mounts : probe kept unmarshal first_start ≡ mounted first_window
unfolding probe parse validate open_window count_tokens
first_start_mounts = refl

probe-Mounted_example :
    Mounted kept unmarshal first_start first_window × (removes first_start ≡ false)
probe-Mounted_example = probe-Mounted kept unmarshal first_start first_window first_start_mounts
