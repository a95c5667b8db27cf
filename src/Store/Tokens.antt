-- ===== src/Store/Tokens.antt =====
-- The tokens table: daemon/internal/store/tokens.go, dbtypes.go, queries/tokens.sql and
-- migrations/001. Times are unix seconds, as the table stores them.
pub mod Keys
pub mod Insertion
pub mod Revocation
use meowth.Prelude.{
  ℕ, ◌≡◌, Bool, true, false, ◌&&◌, ◌||◌, List, [], ◌∷◌, ◌++◌, Option, none, some, String, str_eq,
  arith, leb, ◌==◌, if◌then◌else◌, length, filter, Bytes, bytes_eq, Result, ok, err, map,
  order_desc,
}
use meowth.Store.Secret.{SecretError, argon2_key_len, argon2_salt_len, validate_token_prefix}

-- `CreatedVia` is a string type with `IsValid`.
unfoldable pub created_via_is_valid : String → Bool
created_via_is_valid v =
    str_eq v "init" || str_eq v "first_run_mint" || str_eq v "dashboard" || str_eq v "cli"

pub record Token : Type 0 where
  pub id : String
  pub name : Bytes
  pub prefix : Bytes
  pub token_hash : Bytes
  pub salt : Bytes
  pub created_at : ℕ
  pub last_used_at : Option ℕ
  pub revoked_at : Option ℕ
  pub created_via : String

-- What handlers may serialise: no hash, no salt.
pub record TokenView : Type 0 where
  pub id : String
  pub name : Bytes
  pub prefix : Bytes
  pub created_at : ℕ
  pub last_used_at : Option ℕ
  pub revoked_at : Option ℕ
  pub created_via : String

unfoldable pub view : Token → TokenView
view t = record {
  id = t.id;
  name = t.name;
  prefix = t.prefix;
  created_at = t.created_at;
  last_used_at = t.last_used_at;
  revoked_at = t.revoked_at;
  created_via = t.created_via;
}

abbrev pub Table : Type 0
Table = List Token

pub data TokenError : Type 0 where
  invalid_created_via : String → TokenError
  name_required : TokenError
  bad_prefix : SecretError → TokenError
  bad_hash_length bad_salt_length : ℕ → TokenError
  uuid_failed : TokenError
  db_failed : TokenError

pub record InsertTokenParams : Type 0 where
  pub name : Bytes
  pub prefix : Bytes
  pub token_hash : Bytes
  pub salt : Bytes
  pub created_via : String

is_empty : Bytes → Bool
is_empty [] = true
is_empty (c ∷ s) = false

lift_prefix : Result SecretError (Unit {0}) → Result TokenError Token → Result TokenError Token
lift_prefix (ok u) next = next
lift_prefix (err e) next = err (bad_prefix e)

new_row : InsertTokenParams → Option String → ℕ → Result TokenError Token
new_row p none now = err uuid_failed
new_row p (some id) now = ok (record {
  id = id;
  name = p.name;
  prefix = p.prefix;
  token_hash = p.token_hash;
  salt = p.salt;
  created_at = now;
  last_used_at = none;
  revoked_at = none;
  created_via = p.created_via;
})

-- `buildInsertTokenArgs`: `uuid` is what `uuid.NewV7` returned, `now` the clock.
unfoldable pub build_insert_token_args :
    InsertTokenParams → Option String → ℕ → Result TokenError Token
unfolding is_empty lift_prefix new_row created_via_is_valid
build_insert_token_args p uuid now =
    if created_via_is_valid p.created_via
    then (if is_empty p.name
        then err name_required
        else lift_prefix (validate_token_prefix p.prefix) (
            if length p.token_hash == argon2_key_len
            then (if length p.salt == argon2_salt_len
                then new_row p uuid now
                else err (bad_salt_length (length p.salt)))
            else err (bad_hash_length (length p.token_hash))))
    else err (invalid_created_via p.created_via)

unfoldable pub has_id : String → Table → Bool
has_id k [] = false
has_id k (t ∷ ts) = str_eq t.id k || has_id k ts

-- The INSERT statement: `id` is the primary key, and CHECK bounds created_via.
unfoldable pub insert_row : Bool → Token → Table → Result TokenError Table
unfolding created_via_is_valid
insert_row driver_fails t ts =
    if driver_fails || has_id t.id ts
    then err db_failed
    else if created_via_is_valid t.created_via
    then ok (ts ++ t ∷ [])
    else err db_failed

inserted : Token → Result TokenError Table → Result TokenError (Token × Table)
inserted t (ok ts) = ok (t, ts)
inserted t (err e) = err e

insert_built : Bool → Result TokenError Token → Table → Result TokenError (Token × Table)
unfolding inserted
insert_built driver_fails (ok t) ts = inserted t (insert_row driver_fails t ts)
insert_built driver_fails (err e) ts = err e

-- `InsertToken` and `InsertTokenTx`.
unfoldable pub insert_token :
    Bool → InsertTokenParams → Option String → ℕ → Table → Result TokenError (Token × Table)
unfolding insert_built
insert_token driver_fails p uuid now ts =
    insert_built driver_fails (build_insert_token_args p uuid now) ts

unfoldable pub count_tokens : Bool → Table → Result TokenError ℕ
count_tokens driver_fails ts = if driver_fails then err db_failed else ok (length ts)

unfoldable pub is_active : Token → Bool
is_active t = elim t.revoked_at [ none ↦ true | some w ↦ false ]

unfoldable pub list_active_tokens_by_prefix : Bool → Bytes → Table → Result TokenError (List Token)
unfolding is_active
list_active_tokens_by_prefix driver_fails p ts =
    if driver_fails then err db_failed else ok (filter (λ t. bytes_eq t.prefix p && is_active t) ts)

-- ORDER BY created_at DESC.
unfoldable pub list_all_tokens : Bool → Table → Result TokenError (List Token)
list_all_tokens driver_fails ts =
    if driver_fails then err db_failed else ok (order_desc (λ (t : Token). t.created_at) ts)

-- UPDATE tokens SET last_used_at = ? WHERE id = ?
unfoldable pub touch_token_last_used_at : Bool → String → ℕ → Table → Result TokenError Table
touch_token_last_used_at driver_fails id when ts =
    if driver_fails
    then err db_failed
    else ok (
        map (λ (t : Token). if str_eq t.id id then record t { last_used_at = some when } else t) ts)

unfoldable pub hits : String → Token → Bool
unfolding is_active
hits id t = str_eq t.id id && is_active t

revoke_rows : String → ℕ → Table → Table
unfolding hits
revoke_rows id now ts =
    map (λ (t : Token). if hits id t then record t { revoked_at = some now } else t) ts

-- UPDATE tokens SET revoked_at = ? WHERE id = ? AND revoked_at IS NULL; the Boolean says that
-- exactly one row was changed.
unfoldable pub revoke_token : Bool → String → ℕ → Table → Result TokenError (Bool × ℕ × Table)
unfolding revoke_rows
revoke_token driver_fails id now ts =
    if driver_fails
    then err db_failed
    else ok (length (filter (hits id) ts) == 1, now, revoke_rows id now ts)
