-- ===== src/Store/Tokens/Keys.antt =====
-- The primary key of the tokens table, under every operation of Store/Tokens.antt.
use meowth.Prelude.{
  ℕ, ◌≡◌, refl, Bool, true, false, ◌||◌, List, [], ◌∷◌, ◌++◌, Option, some, String, str_eq, eq_iff,
  arith, if◌then◌else◌, map, Result, ok, err,
}
use meowth.Store.Tokens.{
  Token, Table, InsertTokenParams, TokenError, has_id, insert_row, insert_token,
  build_insert_token_args, insert_built, inserted, touch_token_last_used_at, revoke_token, hits,
}

-- No two rows have one id.
abbrev pub IsKeyed : Table → Type 0
IsKeyed [] = Unit
IsKeyed (t ∷ ts) = (has_id t.id ts ≡ false) × IsKeyed ts

-- What other connections and handlers may do to the table, in any order.
pub data Op : Type 0 where
  insert : Bool → InsertTokenParams → Option String → ℕ → Op
  touch : Bool → String → ℕ → Op
  revoke : Bool → String → ℕ → Op

unfoldable pub table_of : Table → Result TokenError (Token × Table) → Table
table_of ts (ok (t, ts')) = ts'
table_of ts (err e) = ts

touched : Table → Result TokenError Table → Table
touched ts (ok ts') = ts'
touched ts (err e) = ts

revoked : Table → Result TokenError (Bool × ℕ × Table) → Table
revoked ts (ok (b, w, ts')) = ts'
revoked ts (err e) = ts

-- An operation that fails leaves the table as it was.
unfoldable pub apply : Op → Table → Table
unfolding table_of touched revoked
apply (insert f p uuid now) ts = table_of ts (insert_token f p uuid now ts)
apply (touch f id when) ts = touched ts (touch_token_last_used_at f id when ts)
apply (revoke f id now) ts = revoked ts (revoke_token f id now ts)

unfoldable pub run : List Op → Table → Table
run [] ts = ts
run (op ∷ ops) ts = run ops (apply op ts)

pub has_id-append :
    (k : String) (ts : Table) (t : Token) → has_id k (ts ++ t ∷ []) ≡ (has_id k ts || str_eq t.id k)
unfolding has_id
has_id-append k [] t = ground arith
has_id-append k (u ∷ ts) t = ground (arith, has_id-append k ts t)

append-IsKeyed :
    (ts : Table) (t : Token) → has_id t.id ts ≡ false → IsKeyed ts → IsKeyed (ts ++ t ∷ [])
unfolding has_id
append-IsKeyed [] t h k = (refl, tt)
append-IsKeyed (u ∷ ts) t h k = (
  ground (arith, has_id-append u.id ts t, eq_iff u.id t.id, eq_iff t.id u.id),
  append-IsKeyed ts t (ground arith) k.1,
)

-- A map that keeps ids keeps the keys.
module _ (f : Token → Token) (same : (t : Token) → (f t).id ≡ t.id) where
  pub has_id-map : (k : String) (ts : Table) → has_id k (map f ts) ≡ has_id k ts
  unfolding has_id
  has_id-map k [] = refl
  has_id-map k (t ∷ ts) = rw (same t, has_id-map k ts) refl

  map-IsKeyed : (ts : Table) → IsKeyed ts → IsKeyed (map f ts)
  map-IsKeyed [] h = tt
  map-IsKeyed (t ∷ ts) h = (rw (has_id-map (f t).id ts) (rw (same t) h.0), map-IsKeyed ts h.1)

pub touch_id :
    (id : String) (when : ℕ) (t : Token)
    → (if str_eq t.id id then record t { last_used_at = some when } else t).id ≡ t.id
touch_id id when t = ground arith

pub revoke_id :
    (id : String) (now : ℕ) (t : Token)
    → (if hits id t then record t { revoked_at = some now } else t).id ≡ t.id
revoke_id id now t = ground arith

pub insert_row-eq :
    (f : Bool) (t : Token) (ts ts' : Table)
    → insert_row f t ts ≡ ok ts'
    → (has_id t.id ts ≡ false) × (ts' ≡ ts ++ t ∷ [])
unfolding insert_row
insert_row-eq f t ts ts' h = ground arith

row-IsKeyed :
    (f : Bool) (t : Token) (ts : Table) (r : Result TokenError Table)
    → insert_row f t ts ≡ r
    → IsKeyed ts
    → IsKeyed (table_of ts (inserted t r))
unfolding inserted table_of
row-IsKeyed f t ts (err e) h k = k
row-IsKeyed f t ts (ok ts') h k =
    let facts = insert_row-eq f t ts ts' h in rw facts.1 (append-IsKeyed ts t facts.0 k)

built-IsKeyed :
    (f : Bool) (b : Result TokenError Token) (ts : Table)
    → IsKeyed ts
    → IsKeyed (table_of ts (insert_built f b ts))
unfolding insert_built table_of
built-IsKeyed f (ok t) ts k = row-IsKeyed f t ts (insert_row f t ts) refl k
built-IsKeyed f (err e) ts k = k

pub apply-IsKeyed : (op : Op) (ts : Table) → IsKeyed ts → IsKeyed (apply op ts)
unfolding apply insert_token touch_token_last_used_at revoke_token
apply-IsKeyed (insert f p uuid now) ts k = built-IsKeyed f (build_insert_token_args p uuid now) ts k
apply-IsKeyed (touch true id when) ts k = k
apply-IsKeyed (touch false id when) ts k = map-IsKeyed _ (touch_id id when) ts k
apply-IsKeyed (revoke true id now) ts k = k
apply-IsKeyed (revoke false id now) ts k = map-IsKeyed _ (revoke_id id now) ts k

-- From a table whose ids are distinct, any sequence of inserts, touches and revocations, failing
-- or not, leads to a table whose ids are distinct.
pub run-IsKeyed : (ops : List Op) (ts : Table) → IsKeyed ts → IsKeyed (run ops ts)
unfolding run
run-IsKeyed [] ts k = k
run-IsKeyed (op ∷ ops) ts k = run-IsKeyed ops (apply op ts) (apply-IsKeyed op ts k)
