-- ===== src/Handlers/Minting/Tests.antt =====
-- First-run mint requests (Handlers/Minting.antt) from a loopback peer.
use meowth.Prelude.{
  ◌≡◌, refl, true, false, [], ◌∷◌, none, some, Bytes, codes, bytes_eq, Result, ok, err,
  is_base32_char,
}
use meowth.Store.Secret.{SecretError, prefix, validate_token_prefix, salt_rand_failed}
use meowth.Store.Tokens.{
  Token, insert_token, build_insert_token_args, insert_row, count_tokens, has_id,
  created_via_is_valid,
}
use meowth.Mint.{
  World, IdKey, consume, consume_locked, valid_setup_code_shape, digest_matches, is_closed,
}
use meowth.Handlers.Minting.{
  Db, Request, Net, Draws, created, setup_code, malformed, is_loopback, origin_gate_passes, on_body,
  mint,
}
use meowth.Handlers.Minting.Effects.{Effect, mint-Effect, is_problem}
use meowth.Handlers.Minting.Gates.{Presented, issued_guarded, IsOrdinary, refusal-IsOrdinary}

abbrev identity_key : IdKey
identity_key code salt time memory lanes n = code

abbrev code : Bytes
code = codes "mws_ABCDEFGHIJKLMNOPQRSTUVWXYZ234567ABCDEFG"

abbrev secret : Bytes
secret = codes "mwt_ABCDEFGHIJKLMNOPQRSTUVWXYZ234567ABCDEFG"

abbrev bytes_16 : Bytes
bytes_16 = 0 ∷ 1 ∷ 2 ∷ 3 ∷ 4 ∷ 5 ∷ 6 ∷ 7 ∷ 8 ∷ 9 ∷ 10 ∷ 11 ∷ 12 ∷ 13 ∷ 14 ∷ 15 ∷ []

abbrev bytes_32 : Bytes
bytes_32 =
    0 ∷ 1 ∷ 2 ∷ 3 ∷ 4 ∷ 5 ∷ 6 ∷ 7 ∷ 8 ∷ 9 ∷ 10 ∷ 11 ∷ 12 ∷ 13 ∷ 14 ∷ 15 ∷ 0 ∷ 1 ∷ 2 ∷ 3 ∷ 4 ∷ 5 ∷ 6
    ∷ 7 ∷ 8 ∷ 9 ∷ 10 ∷ 11 ∷ 12 ∷ 13 ∷ 14 ∷ 15 ∷ []

abbrev world : World Db
world = record {
  window = record {
    algorithm = "argon2id";
    version = 19;
    memory_kib = 65536;
    time_cost = 3;
    parallelism = 1;
    salt = bytes_16;
    digest = code;
    nonce_path = "nonce.json";
    failure_count = 0;
    closed = false;
  };
  nonce_present = true;
  db = record { table = []; made = none };
}

-- Every address is ::1.
abbrev net : Net
net = record { split_host_port = λ a. some a; parse_ip = λ a. some 1 }

abbrev request : Request
request = record {
  remote_addr = "[::1]:5000";
  sec_fetch_site = "";
  origin = [];
  host = codes "localhost:7777";
  path = "/bootstrap/mint";
  body = setup_code code;
}

abbrev draws : Result SecretError (Bytes × Bytes × Bytes) → Draws
draws s = record {
  jitter = some 7;
  secret = s;
  uuid = some "u1";
  now = 100;
  disk = record { stat_fails = false; remove_fails = false };
  sql = record {
    recheck_fails = false;
    begin_fails = false;
    count_fails = false;
    insert_fails = false;
    commit_fails = false;
  };
}

abbrev issued : Token
issued = record {
  id = "u1";
  name = codes "bootstrap";
  prefix = codes "mwt_ABCDE";
  token_hash = bytes_32;
  salt = bytes_16;
  created_at = 100;
  last_used_at = none;
  revoked_at = none;
  created_via = "first_run_mint";
}

issues :
    (mint identity_key net true request (draws (ok (secret, bytes_16, bytes_32))) world).1.response
    ≡ created issued secret
unfolding mint on_body is_loopback origin_gate_passes is_closed consume consume_locked
    valid_setup_code_shape digest_matches is_base32_char bytes_eq insert_token count_tokens
    validate_token_prefix prefix created_via_is_valid has_id build_insert_token_args insert_row
issues = refl

issued_guarded_example :
    (is_loopback net request.remote_addr ≡ true)
    × (origin_gate_passes request ≡ true)
    × (true ≡ true)
    × (is_closed world ≡ false)
    × Presented identity_key request world
issued_guarded_example =
    issued_guarded identity_key net true request (draws (ok (secret, bytes_16, bytes_32))) world
      issued secret issues

mint-Effect_example :
    Effect world
      (mint identity_key net true request (draws (ok (secret, bytes_16, bytes_32))) world)
mint-Effect_example =
    mint-Effect identity_key net true request (draws (ok (secret, bytes_16, bytes_32))) world

abbrev garbled : Request
garbled = record request { body = malformed }

refuses :
    is_problem (mint identity_key net true garbled (draws (err salt_rand_failed)) world).1.response
    ≡ true
unfolding mint on_body is_loopback origin_gate_passes is_closed
refuses = refl

refusal-IsOrdinary_example :
    IsOrdinary identity_key garbled
      (mint identity_key net true garbled (draws (err salt_rand_failed)) world).1
refusal-IsOrdinary_example =
    refusal-IsOrdinary identity_key net true garbled (draws (err salt_rand_failed)) world refuses
