-- ===== src/Validators.antt =====
-- hermeto/core/models/validators.py
pub mod Unique
use cachi.Base.{
  String, Bool, true, false, not, ◌&&◌, ◌||◌, Option, none, some, List, [], ◌∷◌, ◌++◌, ◌==◌,
  string_eq, if◌then◌else◌, contains, Eq, Ord,
}
use cachi.Base.Sort.{sort_by}
use cachi.Errors.{Result, ok, err, ◌>>=◌, value_error}
use cachi.RootedPath.{PurePath}

module _ {ℓ κ} {A : Type ℓ} {K : Type κ} ⦃a : Eq A⦄ ⦃e : Eq K⦄ (by : A → K) where
  -- `by_key[key]`, among the values of the dict in the order of their insertions.
  unfoldable pub find_key : K → List A → Option A
  find_key k [] = none
  find_key k (x ∷ xs) = if by x == k then some x else find_key k xs

  unfoldable pub unique_from : Bool → List A → List A → Result (List A)
  unfolding find_key
  unique_from dedupe seen [] = ok seen
  unique_from dedupe seen (x ∷ items) =
      let added = unique_from dedupe (seen ++ x ∷ []) items in
      let kept = unique_from dedupe seen items in
      elim (find_key (by x) seen) [
        | none ↦ added
        | some y ↦ if not dedupe || not (y == x) then err value_error else kept
      ]

  unfoldable pub unique : List A → Bool → Result (List A)
  unfolding unique_from
  unique items dedupe = unique_from dedupe [] items

  unfoldable pub unique_sorted : ⦃o : Ord K⦄ → List A → Bool → Result (List A)
  unfolding unique
  unique_sorted items dedupe = unique items dedupe >>= λ unique_items. ok (sort_by by unique_items)

unfoldable pub check_sane_relpath : PurePath → Result PurePath
check_sane_relpath path =
    if path.absolute
    then err value_error
    else if contains path.parts ".."
    then err value_error
    else ok path
