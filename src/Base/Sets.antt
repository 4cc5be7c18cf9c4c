-- ===== src/Base/Sets.antt =====
-- `set` and `frozenset`: the strictly ascending list of the members.
use mathlib.Core.Path.{◌≡◌, refl, sym, ◌∙◌, ap}
use mathlib.Core.Bool.{true, false}
use mathlib.Core.List.{List, [], ◌∷◌, ◌++◌}
use mathlib.Core.Logic.{inl, inr}
use native.Mathlib.Omega.{arith}
use cachi.Base.Tests.{if◌then◌else◌, Bool-cases}
use cachi.Base.Order.{Ord}

module _ {ℓ} {A : Type ℓ} ⦃o : Ord A⦄ where
  -- `s.add(a)`
  unfoldable pub set_add : A → List A → List A
  set_add a [] = a ∷ []
  set_add a (x ∷ xs) =
      if o.lt a x then a ∷ x ∷ xs else if o.lt x a then x ∷ set_add a xs else x ∷ xs

  -- `s | t`
  unfoldable pub union : List A → List A → List A
  unfolding set_add
  union [] t = t
  union (a ∷ s) t = set_add a (union s t)

  -- `set(items)`
  abbrev pub set_of : List A → List A
  set_of items = union items []

  abbrev pub Below : A → List A → Type 0
  Below a [] = Unit
  Below a (x ∷ xs) = (o.lt a x ≡ true) × Below a xs

  abbrev pub IsOrderedSet : List A → Type 0
  IsOrderedSet [] = Unit
  IsOrderedSet (x ∷ xs) = Below x xs × IsOrderedSet xs

  pub irrefl : (a : A) → o.lt a a ≡ false
  irrefl a = grind (arith, o.asym)

  pub set_add_comm : (a b : A) (l : List A) → set_add a (set_add b l) ≡ set_add b (set_add a l)
  unfolding set_add
  set_add_comm a b [] = grind (arith, o.asym, o.connex)
  set_add_comm a b (x ∷ xs) = ground (
    arith,
    set_add_comm a b xs,
    o.asym a b,
    o.asym b a,
    o.asym a x,
    o.asym x a,
    o.asym b x,
    o.asym x b,
    o.trans a x b,
    o.trans b x a,
    o.trans a b x,
    o.trans b a x,
    o.trans x a b,
    o.trans x b a,
    o.connex a b,
    o.connex a x,
    o.connex b x,
  )

  set_add_idem : (a : A) (l : List A) → set_add a (set_add a l) ≡ set_add a l
  unfolding set_add
  set_add_idem a [] = ground (arith, irrefl a)
  set_add_idem a (x ∷ xs) =
      ground (arith, set_add_idem a xs, irrefl a, o.asym a x, o.asym x a, o.connex a x)

  union-set_add : (a : A) (s t : List A) → union (set_add a s) t ≡ set_add a (union s t)
  unfolding union
  union-set_add a [] t = refl
  union-set_add a (x ∷ xs) t = elim (Bool-cases (o.lt a x)) [
    | inl p ↦ rw (p, set_add)
    | inr p ↦ elim (Bool-cases (o.lt x a)) [
      | inl q ↦ rw (p, q, set_add) (ap (set_add x) (union-set_add a xs t) ∙ set_add_comm x a _)
      | inr q ↦ rw (p, q, set_add) (rw (o.connex a x p q) (sym (set_add_idem x _)))
    ]
  ]

  pub union_assoc : (s t u : List A) → union (union s t) u ≡ union s (union t u)
  unfolding union
  union_assoc [] t u = refl
  union_assoc (a ∷ s) t u = union-set_add a (union s t) u ∙ ap (set_add a) (union_assoc s t u)

  pub union-append : (s t u : List A) → union (s ++ t) u ≡ union s (union t u)
  unfolding union
  union-append [] t u = refl
  union-append (a ∷ s) t u = ap (set_add a) (union-append s t u)

  -- A set in front of more members adds what its own list of members adds.
  pub set_of-append : (s t : List A) → set_of (set_of s ++ t) ≡ set_of (s ++ t)
  unfolding union
  set_of-append s t =
      union-append (set_of s) t [] ∙ union_assoc s [] (union t []) ∙ sym (union-append s t [])

  Below-set_add : (a b : A) (l : List A) → o.lt b a ≡ true → Below b l → Below b (set_add a l)
  unfolding set_add
  Below-set_add a b [] h n = (h, tt)
  Below-set_add a b (x ∷ xs) h n = ground (arith, Below-set_add a b xs h n.1)

  pub Below-lower : (a x : A) (l : List A) → o.lt a x ≡ true → Below x l → Below a l
  Below-lower a x [] h n = tt
  Below-lower a x (y ∷ ys) h n = (o.trans a x y h n.0, Below-lower a x ys h n.1)

  pub set_add-IsOrderedSet : (a : A) (l : List A) → IsOrderedSet l → IsOrderedSet (set_add a l)
  unfolding set_add
  set_add-IsOrderedSet a [] s = (tt, tt)
  set_add-IsOrderedSet a (x ∷ xs) (n, s) = elim (Bool-cases (o.lt a x)) [
    | inl p ↦ rw (p, set_add) ((p, Below-lower a x xs p n), (n, s))
    | inr p ↦ elim (Bool-cases (o.lt x a)) [
      | inl q ↦ rw (p, q, set_add) (Below-set_add a x xs q n, set_add-IsOrderedSet a xs s)
      | inr q ↦ rw (p, q, set_add) (n, s)
    ]
  ]

  pub union-IsOrderedSet : (s t : List A) → IsOrderedSet t → IsOrderedSet (union s t)
  unfolding union
  union-IsOrderedSet [] t h = h
  union-IsOrderedSet (a ∷ s) t h = set_add-IsOrderedSet a (union s t) (union-IsOrderedSet s t h)

  set_add_of_Below : (a : A) (l : List A) → Below a l → set_add a l ≡ a ∷ l
  unfolding set_add
  set_add_of_Below a [] n = refl
  set_add_of_Below a (x ∷ xs) n = rw (n.0)

  -- A set is the set of its members.
  pub set_of-IsOrderedSet : (s : List A) → IsOrderedSet s → set_of s ≡ s
  unfolding union
  set_of-IsOrderedSet [] h = refl
  set_of-IsOrderedSet (a ∷ s) (n, h) = rw (set_of-IsOrderedSet s h) (set_add_of_Below a s n)

  pub union-set_add_right : (a : A) (s t : List A) → union s (set_add a t) ≡ set_add a (union s t)
  unfolding union
  union-set_add_right a [] t = refl
  union-set_add_right a (x ∷ s) t = ap (set_add x) (union-set_add_right a s t) ∙ set_add_comm x a _

  union_absorb : (s t : List A) → union s (union s t) ≡ union s t
  unfolding union
  union_absorb [] t = refl
  union_absorb (a ∷ s) t =
      ap (set_add a) (union-set_add_right a s (union s t))
      ∙ set_add_idem a _
      ∙ ap (set_add a) (union_absorb s t)

  pub union_idem : (s : List A) → IsOrderedSet s → union s s ≡ s
  union_idem s h =
      ap (union s) (sym (set_of-IsOrderedSet s h)) ∙ union_absorb s [] ∙ set_of-IsOrderedSet s h

  pub union_comm : (s t : List A) → IsOrderedSet s → IsOrderedSet t → union s t ≡ union t s
  unfolding union
  union_comm [] t hs ht = sym (set_of-IsOrderedSet t ht)
  union_comm (a ∷ s) t hs ht =
      ap (set_add a) (union_comm s t hs.1 ht)
      ∙ sym (union-set_add_right a t s)
      ∙ ap (union t) (set_add_of_Below a s hs.0)
