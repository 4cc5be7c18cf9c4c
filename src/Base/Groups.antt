-- ===== src/Base/Groups.antt =====
-- `itertools.groupby` behind a stable sort by the same key: one group for each key, in order, with
-- the items of the key in their first order.
use cachi.Base.Tests.{if◌then◌else◌, Bool-cases}
use cachi.Base.Equality.{Eq, ◌==◌}
use cachi.Base.Order.{Ord}
use cachi.Base.Sort.{insert_by, sort_by}
use cachi.Base.Sets.{
  set_add, union, set_of, irrefl, Below, Below-lower, IsOrderedSet, union-IsOrderedSet,
}
use mathlib.Core.Path.{◌≡◌, refl, ◌∙◌, ap, ap₂, subst}
use mathlib.Core.Bool.{true, false}
use mathlib.Core.List.{List, [], ◌∷◌, ◌++◌, map}
use mathlib.Core.Logic.{inl, inr}
use native.Mathlib.Omega.{arith}

-- A group: its first item and the others.
abbrev pub Group {ℓ} : Type ℓ → Type ℓ
Group A = A × List A

module _ {ℓ κ} {A : Type ℓ} {K : Type κ} ⦃e : Eq K⦄ ⦃o : Ord K⦄ (key : A → K) where
  -- An item in front of the groups of what follows it.
  unfoldable pub group_cons : A → List (Group A) → List (Group A)
  group_cons x [] = (x, []) ∷ []
  group_cons x ((y, ys) ∷ gs) = if key x == key y then (x, y ∷ ys) ∷ gs else (x, []) ∷ (y, ys) ∷ gs

  unfoldable pub group_by : List A → List (Group A)
  unfolding group_cons
  group_by [] = []
  group_by (x ∷ xs) = group_cons x (group_by xs)

  -- An item put into the group of its key, among groups in order.
  add_group : A → List (Group A) → List (Group A)
  add_group x [] = (x, []) ∷ []
  add_group x ((y, ys) ∷ gs) =
      if o.lt (key x) (key y)
      then (x, []) ∷ (y, ys) ∷ gs
      else if o.lt (key y) (key x)
      then (y, ys) ∷ add_group x gs
      else (x, y ∷ ys) ∷ gs

  group_cons-add_group :
      (x y : A) (gs : List (Group A))
      → o.lt (key y) (key x) ≡ true
      → group_cons y (add_group x gs) ≡ add_group x (group_cons y gs)
  unfolding group_cons add_group
  group_cons-add_group x y [] h = ground (arith, o.asym (key y) (key x), irrefl (key x))
  group_cons-add_group x y ((z, zs) ∷ gs) h = ground (
    arith,
    o.asym (key y) (key x),
    o.connex (key x) (key z),
    irrefl (key x),
    irrefl (key z),
    o.asym (key x) (key z),
  )

  group_cons-eq-add_group :
      (x y : A) (gs : List (Group A))
      → o.lt (key y) (key x) ≡ false
      → group_cons x (group_cons y gs) ≡ add_group x (group_cons y gs)
  unfolding group_cons add_group
  group_cons-eq-add_group x y [] h =
      ground (arith, o.connex (key x) (key y), irrefl (key x), irrefl (key y))
  group_cons-eq-add_group x y ((z, zs) ∷ gs) h =
      ground (arith, o.connex (key x) (key y), irrefl (key x), irrefl (key y))

  group_by-insert_by :
      (x : A) (l : List A) → group_by (insert_by key x l) ≡ add_group x (group_by l)
  unfolding group_by insert_by add_group
  group_by-insert_by x [] = refl
  group_by-insert_by x (y ∷ ys) = elim (Bool-cases (o.lt (key y) (key x))) [
    | inl p ↦
        rw (p, insert_by)
          (ap (group_cons y) (group_by-insert_by x ys) ∙ group_cons-add_group x y _ p)
    | inr p ↦ rw (p, insert_by) (group_cons-eq-add_group x y (group_by ys) p)
  ]

  abbrev pub group_key : Group A → K
  group_key g = key g.0

  map-add_group :
      (x : A) (gs : List (Group A))
      → map group_key (add_group x gs) ≡ set_add (key x) (map group_key gs)
  unfolding add_group set_add
  map-add_group x [] = refl
  map-add_group x ((y, ys) ∷ gs) = ground (arith, map-add_group x gs, o.connex (key x) (key y))

  -- The items with a key, in order.
  unfoldable pub members : K → List A → List A
  members k [] = []
  members k (x ∷ xs) = let rest = members k xs in if key x == k then x ∷ rest else rest

  -- The items of the group of a key.
  unfoldable pub group_of : K → List (Group A) → List A
  group_of k [] = []
  group_of k ((x, xs) ∷ gs) = if key x == k then x ∷ xs else group_of k gs

  pub group_of-Below :
      (k : K) (gs : List (Group A)) → Below k (map group_key gs) → group_of k gs ≡ []
  unfolding group_of
  group_of-Below k [] h = refl
  group_of-Below k ((x, xs) ∷ gs) h = ground (arith, group_of-Below k gs h.1, irrefl k)

  group_of-add_group :
      (k : K) (x : A) (gs : List (Group A))
      → IsOrderedSet (map group_key gs)
      → group_of k (add_group x gs) ≡ (if key x == k then x ∷ group_of k gs else group_of k gs)
  unfolding group_of add_group
  group_of-add_group k x [] h = refl
  group_of-add_group k x ((y, ys) ∷ gs) h = ground (
    arith,
    group_of-add_group k x gs h.1,
    group_of-Below k gs,
    irrefl k,
    o.connex (key x) (key y),
    group_of-Below (key y) gs h.0,
    Below-lower (key x) (key y) (map group_key gs),
  )

  -- The groups of a sorted list, without the sort.
  abbrev pub groups : List A → List (Group A)
  groups items = group_by (sort_by key items)

  pub keys-groups : (l : List A) → map group_key (groups l) ≡ set_of (map key l)
  unfolding group_by sort_by union
  keys-groups [] = refl
  keys-groups (x ∷ xs) =
      rw (group_by-insert_by x (sort_by key xs))
        (map-add_group x (groups xs) ∙ ap (set_add (key x)) (keys-groups xs))

  pub group_of-groups : (k : K) (l : List A) → group_of k (groups l) ≡ members k l
  unfolding group_by sort_by members group_of
  group_of-groups k [] = refl
  group_of-groups k (x ∷ xs) = rw (group_by-insert_by x (sort_by key xs)) (
      group_of-add_group k x (groups xs)
        (rw (keys-groups xs) (union-IsOrderedSet (map key xs) [] tt))
      ∙ rw (group_of-groups k xs))

  pub members-append : (k : K) (l r : List A) → members k (l ++ r) ≡ members k l ++ members k r
  unfolding members
  members-append k [] r = refl
  members-append k (x ∷ xs) r = ground (arith, members-append k xs r)

  members-Below : (k : K) (l : List A) → Below k (map key l) → members k l ≡ []
  unfolding members
  members-Below k [] h = refl
  members-Below k (x ∷ xs) h = ground (arith, members-Below k xs h.1, irrefl k)

  tails_eq :
      (k : K) (x y : A) (l r : List A)
      → key x ≡ key y
      → Below (key x) (map key l)
      → Below (key y) (map key r)
      → members k (x ∷ l) ≡ members k (y ∷ r)
      → members k l ≡ members k r
  unfolding members
  tails_eq k x y l r e hl hr h =
      ground (arith, members-Below (key x) l hl, members-Below (key y) r hr)

  heads_eq :
      (x y : A) (l r : List A)
      → key x ≡ key y
      → members (key x) (x ∷ l) ≡ members (key x) (y ∷ r)
      → x ≡ y
  unfolding members
  heads_eq x y l r e h = ground arith

  -- Lists with the same ascending keys and the same item for each key are equal.
  pub eq_of_members :
      (l r : List A)
      → IsOrderedSet (map key l)
      → map key l ≡ map key r
      → ((k : K) → members k l ≡ members k r)
      → l ≡ r
  eq_of_members [] [] h e m = refl
  eq_of_members [] (y ∷ r) h e m = cc
  eq_of_members (x ∷ l) [] h e m = cc
  eq_of_members (x ∷ l) (y ∷ r) h e m =
      let heads : key x ≡ key y = cc in
      let tails : map key l ≡ map key r = cc in
      let below : Below (key y) (map key r) =
        subst (λ ks. Below (key y) ks) tails (subst (λ k. Below k (map key l)) heads h.0) in
      ap₂ ◌∷◌ (heads_eq x y l r heads (m (key x)))
        (eq_of_members l r h.1 tails (λ k. tails_eq k x y l r heads h.0 below (m k)))
