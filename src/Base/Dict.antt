-- ===== src/Base/Dict.antt =====
-- `dict` with texts for keys, in the order of the insertions.
use Prim.Native.String.{String}
use mathlib.Core.Path.{◌≡◌, refl}
use mathlib.Core.Option.{Option, none, some}
use mathlib.Core.List.{List, [], ◌∷◌}
use native.Mathlib.Omega.{arith}
use mathlib.Core.Bool.{Bool, true, ◌||◌}
use mathlib.Core.Logic.{inl, inr}
use cachi.Base.Tests.{if◌then◌else◌, Bool-cases}
use cachi.Base.Equality.{◌==◌, string_eq, contains}

-- `qualifiers[attr] = value`
unfoldable pub set_item {ℓ} : {V : Type ℓ} → String → V → List (String × V) → List (String × V)
set_item k v [] = (k, v) ∷ []
set_item k v ((j, w) ∷ d) = if k == j then (j, v) ∷ d else (j, w) ∷ set_item k v d

-- `d.get(k)`
unfoldable pub get_item {ℓ} : {V : Type ℓ} → String → List (String × V) → Option V
get_item k [] = none
get_item k ((j, w) ∷ d) = let rest = get_item k d in if k == j then some w else rest

-- `d.keys()`
unfoldable pub keys_of {ℓ} : {V : Type ℓ} → List (String × V) → List String
keys_of [] = []
keys_of ((j, w) ∷ d) = j ∷ keys_of d

pub get_item-set_item {ℓ} :
    {V : Type ℓ} (k j : String) (v : V) (d : List (String × V))
    → get_item k (set_item j v d) ≡ (if k == j then some v else get_item k d)
unfolding get_item set_item
get_item-set_item k j v [] = refl
get_item-set_item k j v ((i, w) ∷ d) = ground (arith, get_item-set_item k j v d)

-- `k in d`
abbrev pub has {ℓ} : {V : Type ℓ} → List (String × V) → String → Bool
has d k = contains (keys_of d) k

pub has-set_item {ℓ} :
    {V : Type ℓ} (k x : String) (v : V) (d : List (String × V))
    → has (set_item k v d) x ≡ (k == x || has d x)
unfolding set_item keys_of
has-set_item k x v [] = ground arith
has-set_item k x v ((j, w) ∷ d) = grind (arith, has-set_item k x v d)

-- What a key of a dictionary has.
pub found {ℓ} :
    {V : Type ℓ} (k : String) (d : List (String × V))
    → has d k ≡ true
    → (v : V) × (get_item k d ≡ some v)
unfolding get_item keys_of
found k [] h = cc
found k ((j, w) ∷ d) h = elim (Bool-cases (k == j)) [
  | inl t ↦ (w, rw (t) refl)
  | inr f ↦ (let (v, e) = found k d (grind arith) in (v, rw (f, get_item) e))
]
