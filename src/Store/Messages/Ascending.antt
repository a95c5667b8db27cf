-- ===== src/Store/Messages/Ascending.antt =====
-- The order of the rows of one session (Store/Messages.antt), and what lies behind a number in it.
use meowth.Prelude.{
  ℕ, ◌≡◌, refl, sym, ap, ◌∙◌, subst, Bool, true, false, ◌||◌, [], ◌∷◌, String, str_eq, leb, ◌==◌,
  if◌then◌else◌, filter, ℤ, pos, negsuc, lt_ℤ, arith, Bool-cases, inl, inr, eq_iff,
}
use meowth.Store.Messages.{MessageRow, Messages, has_key, insert_asc, order_by_seq}

-- The primary key of the table.
abbrev pub IsKeyed : Messages → Type 0
IsKeyed [] = Unit
IsKeyed (m ∷ ms) = (has_key m.session_id m.seq ms ≡ false) × IsKeyed ms

-- Rising numbers, all above `a`.
abbrev pub IsAscending : ℤ → Messages → Type 0
IsAscending a [] = Unit
IsAscending a (m ∷ ms) = (lt_ℤ a (pos m.seq) ≡ true) × IsAscending (pos m.seq) ms

abbrev pub has_seq : ℕ → Messages → Bool
has_seq n [] = false
has_seq n (m ∷ ms) = m.seq == n || has_seq n ms

abbrev pub IsDistinct : Messages → Type 0
IsDistinct [] = Unit
IsDistinct (m ∷ ms) = (has_seq m.seq ms ≡ false) × IsDistinct ms

abbrev pub of_session : String → MessageRow → Bool
of_session k m = str_eq m.session_id k

abbrev pub is_above : ℤ → MessageRow → Bool
is_above a m = lt_ℤ a (pos m.seq)

has_seq-filter :
    (k : String) (n : ℕ) (ms : Messages) → has_seq n (filter (of_session k) ms) ≡ has_key k n ms
unfolding has_key
has_seq-filter k n [] = refl
has_seq-filter k n (m ∷ ms) = ground (arith, has_seq-filter k n ms)

pub session-IsDistinct :
    (k : String) (ms : Messages) → IsKeyed ms → IsDistinct (filter (of_session k) ms)
session-IsDistinct k [] h = tt
session-IsDistinct k (m ∷ ms) h = elim (Bool-cases (str_eq m.session_id k)) [
  | inl e ↦ rw e (
    has_seq-filter k m.seq ms
        ∙ subst (λ i. has_key i m.seq ms ≡ false) ((eq_iff m.session_id k).0 e) h.0,
    session-IsDistinct k ms h.1,
  )
  | inr e ↦ rw e (session-IsDistinct k ms h.1)
]

has_seq-insert :
    (n : ℕ) (m : MessageRow) (ms : Messages)
    → has_seq n (insert_asc m ms) ≡ (m.seq == n || has_seq n ms)
unfolding insert_asc
has_seq-insert n m [] = refl
has_seq-insert n m (x ∷ ms) = ground (arith, has_seq-insert n m ms)

has_seq-order : (n : ℕ) (ms : Messages) → has_seq n (order_by_seq ms) ≡ has_seq n ms
unfolding order_by_seq
has_seq-order n [] = refl
has_seq-order n (m ∷ ms) = ground (arith, has_seq-insert n m (order_by_seq ms), has_seq-order n ms)

insert-IsAscending :
    (a : ℤ) (m : MessageRow) (ms : Messages)
    → IsAscending a ms
    → lt_ℤ a (pos m.seq) ≡ true
    → has_seq m.seq ms ≡ false
    → IsAscending a (insert_asc m ms)
unfolding insert_asc
insert-IsAscending a m [] h l d = (l, tt)
insert-IsAscending a m (x ∷ ms) h l d = elim (Bool-cases (leb m.seq x.seq)) [
  | inl e ↦ rw e (l, (ground (arith, e, d), h.1))
  | inr e ↦
      rw e (h.0, insert-IsAscending (pos x.seq) m ms h.1 (ground (arith, e)) (ground (arith, d)))
]

pub order-IsAscending : (ms : Messages) → IsDistinct ms → IsAscending (negsuc 0) (order_by_seq ms)
unfolding order_by_seq
order-IsAscending [] d = tt
order-IsAscending (m ∷ ms) d =
    insert-IsAscending (negsuc 0) m (order_by_seq ms) (order-IsAscending ms d.1) refl
      (has_seq-order m.seq ms ∙ d.0)

pub lt_trans : (a b : ℤ) (n : ℕ) → lt_ℤ a b ≡ true → lt_ℤ b (pos n) ≡ true → lt_ℤ a (pos n) ≡ true
lt_trans (pos a) (pos b) n l h = ground (arith, l, h)
lt_trans (pos a) (negsuc b) n l h = cc
lt_trans (negsuc a) b n l h = refl

pub lower-IsAscending :
    (a b : ℤ) (ms : Messages) → lt_ℤ a b ≡ true → IsAscending b ms → IsAscending a ms
lower-IsAscending a b [] l h = tt
lower-IsAscending a b (m ∷ ms) l h = (lt_trans a b m.seq l h.0, h.1)

insert_below :
    (m : MessageRow) (ms : Messages) → IsAscending (pos m.seq) ms → insert_asc m ms ≡ m ∷ ms
unfolding insert_asc
insert_below m [] h = refl
insert_below m (x ∷ ms) h = ground (arith, h.0)

pub filter-IsAscending :
    (p : MessageRow → Bool) (a : ℤ) (ms : Messages) → IsAscending a ms → IsAscending a (filter p ms)
filter-IsAscending p a [] h = tt
filter-IsAscending p a (m ∷ ms) h = elim (Bool-cases (p m)) [
  | inl e ↦ rw e (h.0, filter-IsAscending p (pos m.seq) ms h.1)
  | inr e ↦ rw e (filter-IsAscending p a ms (lower-IsAscending a (pos m.seq) ms h.0 h.1))
]

-- A filter and the insertion change places, on rising rows.
filter-insert :
    (p : MessageRow → Bool) (a : ℤ) (m : MessageRow) (ms : Messages)
    → IsAscending a ms
    → has_seq m.seq ms ≡ false
    → filter p (insert_asc m ms) ≡ (if p m then insert_asc m (filter p ms) else filter p ms)
unfolding insert_asc
filter-insert p a m [] h d = ground arith
filter-insert p a m (x ∷ ms) h d = elim (Bool-cases (leb m.seq x.seq)) [
  | inl e ↦ rw e (elim (Bool-cases (p m)) [
    | inl q ↦ rw q (
        sym (
          insert_below m (filter p (x ∷ ms))
            (filter-IsAscending p (pos m.seq) (x ∷ ms) (ground (arith, e, d), h.1))))
    | inr q ↦ rw q refl
  ])
  | inr e ↦ rw e (ground (arith, e, filter-insert p (pos x.seq) m ms h.1 (ground (arith, d))))
]

pub filter-order :
    (p : MessageRow → Bool) (ms : Messages)
    → IsDistinct ms
    → order_by_seq (filter p ms) ≡ filter p (order_by_seq ms)
unfolding order_by_seq
filter-order p [] d = refl
filter-order p (m ∷ ms) d =
    let swap =
      filter-insert p (negsuc 0) m (order_by_seq ms) (order-IsAscending ms d.1)
        (has_seq-order m.seq ms ∙ d.0) in
    elim (Bool-cases (p m)) [
      | inl e ↦ rw e (ap (λ l. insert_asc m l) (filter-order p ms d.1) ∙ sym (swap ∙ rw e refl))
      | inr e ↦ rw e (filter-order p ms d.1 ∙ sym (swap ∙ rw e refl))
    ]
