-- ===== src/Base/Members.antt =====
-- The members of sets and of lists.
use mathlib.Core.Path.{◌≡◌, refl}
use mathlib.Core.Bool.{Bool, false, ◌||◌}
use mathlib.Core.Logic.{◌⊎◌, inl, inr}
use mathlib.Core.List.{List, [], ◌∷◌, ◌++◌}
use native.Mathlib.Omega.{arith}
use cachi.Base.Equality.{Eq, ◌==◌, contains}
use cachi.Base.Order.{Ord}
use cachi.Base.Sets.{set_add, union, set_of}
use cachi.Base.Sort.{insert_by, sort_by}

module _ {ℓ} {A : Type ℓ} ⦃e : Eq A⦄ where
  pub contains-append :
      (l r : List A) (x : A) → contains (l ++ r) x ≡ (contains l x || contains r x)
  contains-append [] r x = refl
  contains-append (y ∷ l) r x = ground (arith, contains-append l r x)

module _ {ℓ} {A : Type ℓ} ⦃e : Eq A⦄ ⦃o : Ord A⦄ where
  pub contains-set_add :
      (a : A) (l : List A) (x : A) → contains (set_add a l) x ≡ (a == x || contains l x)
  unfolding set_add
  contains-set_add a [] x = ground arith
  contains-set_add a (y ∷ l) x = ground (arith, contains-set_add a l x, o.connex a y)

  pub contains-union :
      (a b : List A) (x : A) → contains (union a b) x ≡ (contains a x || contains b x)
  unfolding union
  contains-union [] b x = refl
  contains-union (y ∷ a) b x =
      ground (arith, contains-set_add y (union a b) x, contains-union a b x)

  pub contains-set_of : (l : List A) (x : A) → contains (set_of l) x ≡ contains l x
  unfolding union
  contains-set_of [] x = refl
  contains-set_of (y ∷ l) x = ground (arith, contains-set_add y (set_of l) x, contains-set_of l x)

-- Whether some member passes the test.
abbrev pub any {ℓ} : {A : Type ℓ} → (A → Bool) → List A → Bool
any p [] = false
any p (x ∷ l) = p x || any p l

pub any-append {ℓ} :
    {A : Type ℓ} (p : A → Bool) (l r : List A) → any p (l ++ r) ≡ (any p l || any p r)
any-append p [] r = refl
any-append p (x ∷ l) r = ground (arith, any-append p l r)

module _ {ℓ κ} {A : Type ℓ} {K : Type κ} ⦃o : Ord K⦄ (key : A → K) where
  any-insert_by : (p : A → Bool) (x : A) (l : List A) → any p (insert_by key x l) ≡ (p x || any p l)
  unfolding insert_by
  any-insert_by p x [] = refl
  any-insert_by p x (y ∷ l) = ground (arith, any-insert_by p x l)

  pub any-sort_by : (p : A → Bool) (l : List A) → any p (sort_by key l) ≡ any p l
  unfolding sort_by
  any-sort_by p [] = refl
  any-sort_by p (x ∷ l) = ground (arith, any-insert_by p x (sort_by key l), any-sort_by p l)

-- The item is one of the list.
abbrev pub Among : {A : Type 0} → A → List A → Type 0
Among x [] = ⊥
Among x (y ∷ l) = (x ≡ y) ⊎ Among x l

pub Among-append : {A : Type 0} (x : A) (l r : List A) → Among x (l ++ r) → Among x l ⊎ Among x r
Among-append x [] r h = inr h
Among-append x (y ∷ l) r (inl e) = inl (inl e)
Among-append x (y ∷ l) r (inr h) = elim (Among-append x l r h) [
  | inl a ↦ inl (inr a)
  | inr b ↦ inr b
]

-- Each item of the list meets the condition.
abbrev pub AllMeet : {A : Type 0} → (A → Type 0) → List A → Type 0
AllMeet P [] = Unit
AllMeet P (x ∷ l) = P x × AllMeet P l

pub AllMeet-append :
    {A : Type 0} (P : A → Type 0) (l r : List A) → AllMeet P l → AllMeet P r → AllMeet P (l ++ r)
AllMeet-append P [] r h k = k
AllMeet-append P (x ∷ l) r h k = (h.0, AllMeet-append P l r h.1 k)
