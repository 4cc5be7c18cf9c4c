-- ===== src/BinaryFilters/Satisfied.antt =====
-- hermeto/core/package_managers/rpm/binary_filters.py: what the architecture filter leaves.
use mathlib.Core.List.{map}
use cachi.Base.{
  String, true, ◌&&◌, some, List, [], ◌∷◌, ◌≡◌, subst, string_eq, string_ord, contains, arith,
}
use cachi.Base.Sets.{set_of}
use cachi.Base.Members.{contains-set_of}
use cachi.Errors.{ok_injective, ok, >>=-eq-ok}
use cachi.BinaryFilters.{allows, difference, filter, ensure_satisfiable, validate_and_filter}

contains-difference :
    (a b : List String) (x : String)
    → difference a b ≡ []
    → contains a x ≡ true
    → contains b x ≡ true
unfolding difference
contains-difference [] b x h k = absurd (ground arith)
contains-difference (y ∷ a) b x h k = ground (arith, contains-difference a b x)

module _ {LockfileArch : Type 0} (arch : LockfileArch → String) where
  contains-filter :
      (constraints : List String) (arches : List LockfileArch) (x : String)
      → contains (map arch (filter arch (some constraints) arches)) x
        ≡ (contains constraints x && contains (map arch arches) x)
  unfolding filter allows
  contains-filter constraints [] x = ground arith
  contains-filter constraints (a ∷ arches) x = ground (arith, contains-filter constraints arches x)

  satisfied :
      (constraints : List String) (arches : List LockfileArch) {u : Unit {0}}
      → ensure_satisfiable arch (some constraints) arches ≡ ok u
      → difference constraints (set_of (map arch arches)) ≡ []
  unfolding ensure_satisfiable
  satisfied constraints arches h = ground arith

  -- Where the filter has constraints and accepts the architectures of a lockfile, an architecture is
  -- among those that it returns exactly when it is one of the constraints.
  pub contains-validate_and_filter :
      (constraints : List String) (arches : List LockfileArch) {r : List LockfileArch} (x : String)
      → validate_and_filter arch (some constraints) arches ≡ ok r
      → contains (map arch r) x ≡ contains constraints x
  unfolding validate_and_filter
  contains-validate_and_filter constraints arches x h =
      let (_, e, g) = >>=-eq-ok (ensure_satisfiable arch (some constraints) arches) _ h in
      let none_left = satisfied constraints arches e in
      subst (λ l. contains (map arch l) x ≡ contains constraints x) (ok_injective g)
        (ground (
          arith,
          contains-filter constraints arches x,
          contains-set_of (map arch arches) x,
          contains-difference constraints (set_of (map arch arches)) x none_left,
        ))
