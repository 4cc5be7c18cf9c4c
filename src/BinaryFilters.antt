-- ===== src/BinaryFilters.antt =====
-- hermeto/core/binary_filters.py, and hermeto/core/package_managers/rpm/binary_filters.py on it.
pub mod Satisfied
use cachi.Base.{
  String, Bool, true, false, ◌||◌, Option, none, some, List, [], ◌∷◌, ◌==◌, string_eq, string_ord,
  if◌then◌else◌, contains,
}
use mathlib.Core.List.{map}
use cachi.Base.Sets.{set_add, set_of}
use cachi.Base.Text.{split_on, strip}
use cachi.Errors.{Result, ok, err, ◌>>=◌, package_rejected}
use cachi.Input.Filters.{RpmBinaryFilters, binary_filter_all}

-- The set of the stripped items that are not empty.
unfoldable pub filters_of : List String → List String
filters_of [] = []
filters_of (item ∷ items) =
    let rest = filters_of items in if strip item == "" then rest else set_add (strip item) rest

-- `_parse_filter_spec`: `none` accepts all.
unfoldable pub parse_filter_spec : String → Option (List String)
unfolding filters_of
parse_filter_spec spec =
    if spec == binary_filter_all
    then none
    else if contains (filters_of (split_on "," spec)) binary_filter_all
    then none
    else some (filters_of (split_on "," spec))

-- `RPMArchitectureFilter(filters).arch_constraints`
unfoldable pub arch_constraints : Option RpmBinaryFilters → Option (List String)
unfolding parse_filter_spec
arch_constraints none = parse_filter_spec binary_filter_all
arch_constraints (some filters) = parse_filter_spec filters.arch

-- `arch in self`, on the name of an architecture.
unfoldable pub allows : Option (List String) → String → Bool
allows none arch = true
allows (some constraints) arch = contains constraints arch

-- `a - b`, of sets
unfoldable pub difference : List String → List String → List String
difference [] b = []
difference (x ∷ a) b = let rest = difference a b in if contains b x then rest else x ∷ rest

-- The architectures of a lockfile, of which only the names are read here.
module _ {LockfileArch : Type 0} (arch : LockfileArch → String) where
  unfoldable pub filter : Option (List String) → List LockfileArch → List LockfileArch
  unfolding allows
  filter constraints [] = []
  filter constraints (a ∷ arches) =
      let rest = filter constraints arches in if allows constraints (arch a) then a ∷ rest else rest

  unfoldable pub ensure_satisfiable : Option (List String) → List LockfileArch → Result (Unit {0})
  unfolding difference
  ensure_satisfiable none arches = ok tt
  ensure_satisfiable (some constraints) arches =
      elim (difference constraints (set_of (map arch arches))) [
        | [] ↦ ok tt
        | x ∷ unsatisfiable ↦ err package_rejected
      ]

  unfoldable pub validate_and_filter :
      Option (List String) → List LockfileArch → Result (List LockfileArch)
  unfolding ensure_satisfiable filter
  validate_and_filter constraints arches =
      ensure_satisfiable constraints arches >>= λ _. ok (filter constraints arches)
