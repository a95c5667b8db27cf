-- ===== src/Store/Messages/Paging.antt =====
-- Pages of the rows of one session (Store/Messages.antt): what lies behind the last row of a page is
-- what the page left out.
use meowth.Prelude.{
  ℕ, zero, suc, ◌≡◌, refl, sym, ap, ◌∙◌, true, false, [], ◌∷◌, String, take, drop, filter, ℤ, pos,
  negsuc, lt_ℤ, arith, Bool-cases, inl, inr,
}
use meowth.Store.Messages.{Messages, order_by_seq, is_after}
use meowth.Store.Messages.Ascending.{
  IsKeyed, IsAscending, of_session, is_above, lower-IsAscending, filter-IsAscending,
  order-IsAscending, filter-order, session-IsDistinct,
}

-- The rows of the session `k` behind the number `a`, in order: what the query reads.
abbrev pub rows_after : String → ℤ → Messages → Messages
rows_after k a ms = order_by_seq (filter (is_after k a) ms)

-- The number of the last row, or `a`.
unfoldable pub last_seq : ℤ → Messages → ℤ
last_seq a [] = a
last_seq a (m ∷ ms) = last_seq (pos m.seq) ms

-- The rows of a session, in order.
unfoldable pub session_order : String → Messages → Messages
session_order k ms = order_by_seq (filter (of_session k) ms)

split_filter :
    (k : String) (a : ℤ) (ms : Messages)
    → filter (is_after k a) ms ≡ filter (is_above a) (filter (of_session k) ms)
unfolding is_after
split_filter k a [] = refl
split_filter k a (m ∷ ms) = ground (arith, split_filter k a ms)

-- What the query reads is what of the session's rows stands above the number.
pub rows_after-eq :
    (k : String) (a : ℤ) (ms : Messages)
    → IsKeyed ms
    → rows_after k a ms ≡ filter (is_above a) (session_order k ms)
unfolding session_order
rows_after-eq k a ms h =
    ap (λ l. order_by_seq l) (split_filter k a ms)
    ∙ filter-order (is_above a) (filter (of_session k) ms) (session-IsDistinct k ms h)

not_lower : (a b : ℤ) (n : ℕ) → lt_ℤ b (pos n) ≡ true → lt_ℤ b a ≡ false → lt_ℤ (pos n) a ≡ false
not_lower (pos a) (pos b) n h l = ground (arith, h, l)
not_lower (pos a) (negsuc b) n h l = cc
not_lower (negsuc a) b n h l = refl

not_above : (a b : ℤ) (n : ℕ) → lt_ℤ b a ≡ false → lt_ℤ a (pos n) ≡ false → lt_ℤ b (pos n) ≡ false
not_above (pos a) (pos b) n h l = ground (arith, h, l)
not_above (pos a) (negsuc b) n h l = cc
not_above (negsuc a) b n h l = cc

-- No later row is below an earlier one.
last-not_below :
    (a : ℤ) (b : ℤ) (ms : Messages)
    → IsAscending b ms
    → lt_ℤ b a ≡ false
    → lt_ℤ (last_seq b ms) a ≡ false
unfolding last_seq
last-not_below a b [] h l = l
last-not_below a b (m ∷ ms) h l = last-not_below a (pos m.seq) ms h.1 (not_lower a b m.seq h.0 l)

take-IsAscending : (n : ℕ) (a : ℤ) (ms : Messages) → IsAscending a ms → IsAscending a (take n ms)
take-IsAscending zero a ms h = tt
take-IsAscending (suc n) a [] h = tt
take-IsAscending (suc n) a (m ∷ ms) h = (h.0, take-IsAscending n (pos m.seq) ms h.1)

all_above : (a : ℤ) (ms : Messages) → IsAscending a ms → filter (is_above a) ms ≡ ms
all_above a [] h = refl
all_above a (m ∷ ms) h =
    rw h.0 (ap (λ l. m ∷ l) (all_above a ms (lower-IsAscending a (pos m.seq) ms h.0 h.1)))

-- Behind the last of the first `n` rising rows are the others.
above-drop :
    (n : ℕ) (a : ℤ) (ms : Messages)
    → IsAscending a ms
    → filter (is_above (last_seq a (take n ms))) ms ≡ drop n ms
unfolding last_seq
above-drop zero a ms h = all_above a ms h
above-drop (suc n) a [] h = refl
above-drop (suc n) a (m ∷ ms) h =
    rw
      (last-not_below (pos m.seq) (pos m.seq) (take n ms) (take-IsAscending n (pos m.seq) ms h.1)
        (ground arith))
      (above-drop n (pos m.seq) ms h.1)

filter_again :
    (a b : ℤ) (ms : Messages)
    → lt_ℤ b a ≡ false
    → filter (is_above b) (filter (is_above a) ms) ≡ filter (is_above b) ms
filter_again a b [] l = refl
filter_again a b (m ∷ ms) l = elim (Bool-cases (lt_ℤ a (pos m.seq))) [
  | inl e ↦ rw e (ground (arith, filter_again a b ms l))
  | inr e ↦ rw (e, not_above a b m.seq l e) (filter_again a b ms l)
]

last_above :
    (a : ℤ) (n : ℕ) (ms : Messages) → IsAscending a ms → lt_ℤ (last_seq a (take n ms)) a ≡ false
last_above a n ms h = last-not_below a a (take n ms) (take-IsAscending n a ms h) (irreflexive a)
  where
    irreflexive : (a : ℤ) → lt_ℤ a a ≡ false
    irreflexive (pos a) = ground arith
    irreflexive (negsuc a) = ground arith

above-IsAscending :
    (a b : ℤ) (ms : Messages) → IsAscending b ms → IsAscending a (filter (is_above a) ms)
above-IsAscending a b [] h = tt
above-IsAscending a b (m ∷ ms) h = elim (Bool-cases (lt_ℤ a (pos m.seq))) [
  | inl e ↦ rw e (e, filter-IsAscending (is_above a) (pos m.seq) ms h.1)
  | inr e ↦ rw e (above-IsAscending a (pos m.seq) ms h.1)
]

-- The rows behind the last of the first `n` rows are the rows that these `n` leave out.
pub rows_after-next :
    (k : String) (a : ℤ) (n : ℕ) (ms : Messages)
    → IsKeyed ms
    → rows_after k (last_seq a (take n (rows_after k a ms))) ms ≡ drop n (rows_after k a ms)
rows_after-next k a n ms h =
    let s = session_order k ms in
    let t = filter (is_above a) s in
    let up = above-IsAscending a (negsuc 0) s (
      unfold session_order in
      order-IsAscending (filter (of_session k) ms) (session-IsDistinct k ms h)) in
    rw (rows_after-eq k a ms h) (
      rows_after-eq k (last_seq a (take n t)) ms h
      ∙ sym (filter_again a (last_seq a (take n t)) s (last_above a n t up))
      ∙ above-drop n a t up)
