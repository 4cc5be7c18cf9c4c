-- ===== src/Base/Sort.antt =====
-- Python's stable `sorted`, and what it keeps.
use mathlib.Core.Path.{◌≡◌, refl}
use mathlib.Core.Bool.{false}
use mathlib.Core.List.{List, [], ◌∷◌, Perm}
use mathlib.Core.List.Perm
use mathlib.Core.Logic.{inl, inr}
use native.Mathlib.Omega.{arith}
use cachi.Base.Tests.{if◌then◌else◌, Bool-cases}
use cachi.Base.Order.{Ord}

module _ {ℓ κ} {A : Type ℓ} {K : Type κ} ⦃o : Ord K⦄ (key : A → K) where
  -- An earlier item goes in front of the first item that is not smaller.
  unfoldable pub insert_by : A → List A → List A
  insert_by x [] = x ∷ []
  insert_by x (y ∷ ys) = if o.lt (key y) (key x) then y ∷ insert_by x ys else x ∷ y ∷ ys

  -- `sorted(items, key=key)`
  unfoldable pub sort_by : List A → List A
  unfolding insert_by
  sort_by [] = []
  sort_by (x ∷ xs) = insert_by x (sort_by xs)

  pub insert_by-perm : (x : A) (l : List A) → Perm (insert_by x l) (x ∷ l)
  unfolding insert_by
  insert_by-perm x [] = Perm.rfl
  insert_by-perm x (y ∷ ys) = elim (Bool-cases (o.lt (key y) (key x))) [
    | inl p ↦ rw (p, insert_by) (Perm.trans (Perm.cons y (insert_by-perm x ys)) (Perm.swap x y ys))
    | inr p ↦ rw (p, insert_by) Perm.rfl
  ]

  pub sort_by-perm : (l : List A) → Perm (sort_by l) l
  unfolding sort_by
  sort_by-perm [] = Perm.rfl
  sort_by-perm (x ∷ xs) = Perm.trans (insert_by-perm x (sort_by xs)) (Perm.cons x (sort_by-perm xs))

  -- The head's key is not above any other, and so on down the tail.
  abbrev pub NotBelow : A → List A → Type 0
  NotBelow x [] = Unit
  NotBelow x (y ∷ ys) = (o.lt (key y) (key x) ≡ false) × NotBelow x ys

  abbrev pub IsSortedBy : List A → Type 0
  IsSortedBy [] = Unit
  IsSortedBy (x ∷ xs) = NotBelow x xs × IsSortedBy xs

  not_lt_trans : (a b c : K) → o.lt b a ≡ false → o.lt c b ≡ false → o.lt c a ≡ false
  not_lt_trans a b c h k = grind (arith, o.asym, o.trans, o.connex)

  NotBelow-insert_by :
      (x z : A) (l : List A)
      → o.lt (key x) (key z) ≡ false
      → NotBelow z l
      → NotBelow z (insert_by x l)
  unfolding insert_by
  NotBelow-insert_by x z [] h n = (h, tt)
  NotBelow-insert_by x z (y ∷ ys) h n = ground (arith, NotBelow-insert_by x z ys h n.1)

  NotBelow-lower :
      (x y : A) (l : List A) → o.lt (key y) (key x) ≡ false → NotBelow y l → NotBelow x l
  NotBelow-lower x y [] h n = tt
  NotBelow-lower x y (z ∷ zs) h n =
      (not_lt_trans (key x) (key y) (key z) h n.0, NotBelow-lower x y zs h n.1)

  insert_by-IsSortedBy : (x : A) (l : List A) → IsSortedBy l → IsSortedBy (insert_by x l)
  unfolding insert_by
  insert_by-IsSortedBy x [] s = (tt, tt)
  insert_by-IsSortedBy x (y ∷ ys) (n, s) = elim (Bool-cases (o.lt (key y) (key x))) [
    | inl p ↦
        rw (p, insert_by) (NotBelow-insert_by x y ys (o.asym _ _ p) n, insert_by-IsSortedBy x ys s)
    | inr p ↦ rw (p, insert_by) ((p, NotBelow-lower x y ys p n), (n, s))
  ]

  pub sort_by-IsSortedBy : (l : List A) → IsSortedBy (sort_by l)
  unfolding sort_by
  sort_by-IsSortedBy [] = tt
  sort_by-IsSortedBy (x ∷ xs) = insert_by-IsSortedBy x (sort_by xs) (sort_by-IsSortedBy xs)

  -- A sorted list is left alone: the sort is stable.
  pub sort_by_of_IsSortedBy : (l : List A) → IsSortedBy l → sort_by l ≡ l
  unfolding sort_by
  sort_by_of_IsSortedBy [] s = refl
  sort_by_of_IsSortedBy (x ∷ []) s = refl
  sort_by_of_IsSortedBy (x ∷ y ∷ ys) (n, s) = rw (sort_by_of_IsSortedBy (y ∷ ys) s) (rw (n.0))
