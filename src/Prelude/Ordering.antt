-- ===== src/Prelude/Ordering.antt =====
-- ORDER BY key DESC LIMIT n, by insertion: rows of one key keep the table's order.
use Prim.Native.Nat.{ℕ, zero, suc, ◌≤◌, ◌<◌}
use mathlib.Core.Path.{◌≡◌, sym, subst}
use mathlib.Core.List.{List, [], ◌∷◌, ◌++◌, Perm}
use mathlib.Core.List.Perm
use native.Mathlib.Omega.{arith}
use mathlib.Core.Logic.{inl, inr}
use meowth.Prelude.Tests.{Bool-cases, leb, if◌then◌else◌}
use meowth.Prelude.Lists.{All, length, length-take, length-drop, take, drop, take-append-drop}

module _ {A : Type 0} (key : A → ℕ) where
  unfoldable pub insert_desc : A → List A → List A
  insert_desc a [] = a ∷ []
  insert_desc a (b ∷ bs) = if leb (key b) (key a) then a ∷ b ∷ bs else b ∷ insert_desc a bs

  unfoldable pub order_desc : List A → List A
  unfolding insert_desc
  order_desc [] = []
  order_desc (a ∷ xs) = insert_desc a (order_desc xs)

  abbrev pub IsDesc : List A → Type 0
  IsDesc [] = Unit
  IsDesc (a ∷ xs) = All (λ b. key b ≤ key a) xs × IsDesc xs

  All-insert_desc :
      (P : A → Type 0) (a : A) (bs : List A) → P a → All P bs → All P (insert_desc a bs)
  unfolding insert_desc
  All-insert_desc P a [] p h = (p, tt)
  All-insert_desc P a (b ∷ bs) p h = elim (Bool-cases (leb (key b) (key a))) [
    | inl le ↦ rw le (p, h)
    | inr gt ↦ rw gt (h.0, All-insert_desc P a bs p h.1)
  ]

  All-weaken :
      (a b : A) (bs : List A)
      → key b ≤ key a
      → All (λ c. key c ≤ key b) bs
      → All (λ c. key c ≤ key a) bs
  All-weaken a b [] le h = tt
  All-weaken a b (c ∷ bs) le h = (omega (arith, h.0), All-weaken a b bs le h.1)

  insert_desc-IsDesc : (a : A) (bs : List A) → IsDesc bs → IsDesc (insert_desc a bs)
  unfolding insert_desc
  insert_desc-IsDesc a [] h = (tt, tt)
  insert_desc-IsDesc a (b ∷ bs) h = elim (Bool-cases (leb (key b) (key a))) [
    | inl le ↦ rw le ((ground arith, All-weaken a b bs (ground arith) h.0), h)
    | inr gt ↦
        rw gt (
          All-insert_desc (λ c. key c ≤ key b) a bs (ground arith) h.0,
          insert_desc-IsDesc a bs h.1,
        )
  ]

  pub order_desc-IsDesc : (xs : List A) → IsDesc (order_desc xs)
  unfolding order_desc
  order_desc-IsDesc [] = tt
  order_desc-IsDesc (a ∷ xs) = insert_desc-IsDesc a (order_desc xs) (order_desc-IsDesc xs)

  insert_desc-perm : (a : A) (bs : List A) → Perm (insert_desc a bs) (a ∷ bs)
  unfolding insert_desc
  insert_desc-perm a [] = Perm.refl (a ∷ [])
  insert_desc-perm a (b ∷ bs) = elim (Bool-cases (leb (key b) (key a))) [
    | inl le ↦ rw le (Perm.refl (a ∷ b ∷ bs))
    | inr gt ↦ rw gt (Perm.trans (Perm.cons b (insert_desc-perm a bs)) (Perm.swap a b bs))
  ]

  pub order_desc-perm : (xs : List A) → Perm (order_desc xs) xs
  unfolding order_desc
  order_desc-perm [] = Perm.refl []
  order_desc-perm (a ∷ xs) =
      Perm.trans (insert_desc-perm a (order_desc xs)) (Perm.cons a (order_desc-perm xs))

  All-drop : (P : A → Type 0) (n : ℕ) (xs : List A) → All P xs → All P (drop n xs)
  All-drop P zero xs h = h
  All-drop P (suc n) [] h = tt
  All-drop P (suc n) (x ∷ xs) h = All-drop P n xs h.1

  IsDesc-take : (n : ℕ) (xs : List A) → IsDesc xs → IsDesc (take n xs)
  IsDesc-take zero xs h = tt
  IsDesc-take (suc n) [] h = tt
  IsDesc-take (suc n) (x ∷ xs) h = (All-take n xs h.0, IsDesc-take n xs h.1)
    where
      All-take :
          (m : ℕ) (ys : List A) → All (λ b. key b ≤ key x) ys → All (λ b. key b ≤ key x) (take m ys)
      All-take zero ys a = tt
      All-take (suc m) [] a = tt
      All-take (suc m) (y ∷ ys) a = (a.0, All-take m ys a.1)

  -- No row that LIMIT cuts off is newer than one that it keeps.
  abbrev pub Newest : List A → List A → Type 0
  Newest kept cut = All (λ a. All (λ b. key b ≤ key a) cut) kept

  take-Newest : (n : ℕ) (xs : List A) → IsDesc xs → Newest (take n xs) (drop n xs)
  take-Newest zero xs h = tt
  take-Newest (suc n) [] h = tt
  take-Newest (suc n) (x ∷ xs) h = (All-drop (λ b. key b ≤ key x) n xs h.0, take-Newest n xs h.1)

  -- `kept` is a page of `all`: its newest rows, in descending order, at most `limit` of them, and
  -- fewer only if nothing was cut off.
  pub record IsPage (limit : ℕ) (kept all : List A) : Type 0 where
    pub cut : List A
    pub whole : Perm (kept ++ cut) all
    pub desc : IsDesc kept
    pub newest : Newest kept cut
    pub bounded : length kept ≤ limit
    pub full : 0 < length cut → length kept ≡ limit

  pub take-IsPage : (limit : ℕ) (xs : List A) → IsPage limit (take limit (order_desc xs)) xs
  take-IsPage limit xs =
      let ys = order_desc xs in
      record {
        cut = drop limit ys;
        whole = subst (λ zs. Perm zs xs) (sym (take-append-drop limit ys)) (order_desc-perm xs);
        desc = IsDesc-take limit ys (order_desc-IsDesc xs);
        newest = take-Newest limit ys (order_desc-IsDesc xs);
        bounded = omega (arith, length-take limit ys);
        full = λ h. omega (arith, length-take limit ys, length-drop limit ys);
      }
