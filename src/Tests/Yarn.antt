-- ===== src/Tests/Yarn.antt =====
-- Runs and instances for the yarn_classic package manager.
use mathlib.Core.List.{Memᴰ}
use cachi.YarnClassic.Reached.Runtime.{find_runtime_deps-IsRuntime}
use cachi.YarnClassic.Reached.Roots.{IsRoot, root_deps-IsRoot}
use cachi.Base.{
  ℕ, String, ◌<>◌, true, false, ◌==◌, if◌then◌else◌, Option-cases, inl, inr, subst, sym, ap, ◌∙◌,
  Option, none, some, List, [], ◌∷◌, ◌≡◌, refl, ◌↔◌, ◌≢◌, string_eq, char_eq, string_ord, contains,
}
use cachi.Base.Sets.{set_add, union}
use cachi.Base.Dict.{set_item, get_item}
use cachi.Base.Text.{partition}
use cachi.Errors.{not_returned, Result, ok, err, ok_injective, value_error}
use cachi.YarnClassic.Search.{
  root_deps, YarnPackage, at, new_dep, Pyarn, PackageJson, dep_id, find_transitive_deps,
  find_runtime_deps, expand_yarn_lock_keys,
}
use cachi.YarnClassic.Total.{find_transitive_deps-ends, Misses}
use cachi.YarnClassic.Total.Runtime.{find_runtime_deps-ends}
use cachi.YarnClassic.Reached.{Reaches, here, step, IsCoherent, find_transitive_deps-Reaches}

-- An entry is a version and the dependencies.
abbrev Entry : Type 0
Entry = String × List (String × String)

abbrev read_entry : String → Option Entry → Result YarnPackage
read_entry key none = err value_error
read_entry key (some (version, dependencies)) =
    ok (record { name = (partition "@" key).0; version = version; dependencies = dependencies })

abbrev entries : Pyarn Entry
entries = record { from_dict = read_entry; is_empty = λ _. false }

-- `a` and `b` depend on one another.
abbrev yarn_lock : List (String × Entry)
yarn_lock =
    ("\"a@^1, a@^2\"", ("2.0", ("b", "*") ∷ []))
    ∷ ("b@*", ("1.1", ("a", "^1") ∷ ("c", "1") ∷ []))
    ∷ ("c@1", ("1.0", []))
    ∷ ("d@1", ("1.0", []))
    ∷ []

abbrev package_json : PackageJson
package_json = ("devDependencies", ("d", "1") ∷ []) ∷ ("dependencies", ("a", "^2") ∷ []) ∷ []

runtime_deps :
    find_runtime_deps entries 9 package_json yarn_lock []
    ≡ some (ok ("a@2.0" ∷ "b@1.1" ∷ "c@1.0" ∷ []))
unfolding find_runtime_deps get_item string_eq cachi.Base.char_eq cachi.Base.Dict.set_item
    cachi.Base.Sets.set_add partition string_ord cachi.Base.Sets.union
runtime_deps = refl

misses_entries : (lock : List (String × Entry)) → Misses entries lock
misses_entries lock k p h = cc

runtime_example :
    (fuel : ℕ) × (r : Result (List String)) × (find_runtime_deps entries fuel package_json yarn_lock
        []
      ≡ some r)
runtime_example =
    find_runtime_deps-ends entries package_json yarn_lock []
      (misses_entries (expand_yarn_lock_keys yarn_lock))

abbrev a_package : YarnPackage
a_package = record { name = "a"; version = "2.0"; dependencies = ("b", "*") ∷ [] }

transitive_example :
    (fuel : ℕ) × (r : Result (List String)) × (find_transitive_deps entries
        (expand_yarn_lock_keys yarn_lock)
        fuel
        a_package
      ≡ some r)
transitive_example =
    find_transitive_deps-ends entries (expand_yarn_lock_keys yarn_lock) a_package
      (misses_entries (expand_yarn_lock_keys yarn_lock))

-- The dependencies of a package, by its identifier.
unfoldable needs : String → List (String × String)
needs id =
    if id == "a@1@1"
    then ("b", "1") ∷ []
    else if id == "b@1@1"
    then ("a", "1") ∷ ("c", "1") ∷ []
    else []

abbrev by_id : Pyarn ℕ
by_id = record {
  from_dict = λ key entry. elim entry [
    | none ↦ err value_error
    | some _ ↦ ok (record { name = key; version = "1"; dependencies = needs (at key "1") })
  ];
  is_empty = λ _. false;
}

abbrev id_lock : List (String × ℕ)
id_lock = ("a@1", 1) ∷ ("b@1", 2) ∷ ("c@1", 3) ∷ ("d@1", 4) ∷ []

abbrev a_at_1 : YarnPackage
a_at_1 = record { name = "a@1"; version = "1"; dependencies = ("b", "1") ∷ [] }

new_dep-needs :
    (d : String × String) (p : YarnPackage)
    → new_dep by_id id_lock d ≡ ok p
    → p.dependencies ≡ needs (dep_id p)
unfolding new_dep
new_dep-needs (name, spec) p h = elim (Option-cases (get_item (at name spec) id_lock)) [
  | inl n ↦ absurd (not_returned (rw (n, new_dep) at h))
  | inr (entry, e) ↦
      subst (λ (q : YarnPackage). q.dependencies ≡ needs (dep_id q))
        (ok_injective (rw (e, new_dep) at h)) refl
]

reached_needs :
    (p : YarnPackage) → Reaches by_id id_lock a_at_1 p → p.dependencies ≡ needs (dep_id p)
unfolding needs string_eq
reached_needs p here = refl
reached_needs p (step d r m e) = new_dep-needs d p e

coherent : IsCoherent by_id id_lock a_at_1
coherent p q r s e = reached_needs p r ∙ ap needs e ∙ sym (reached_needs q s)

found_ids :
    find_transitive_deps by_id id_lock 5 a_at_1 ≡ some (ok ("a@1@1" ∷ "b@1@1" ∷ "c@1@1" ∷ []))
unfolding find_transitive_deps get_item string_eq cachi.Base.Sets.set_add needs string_ord
found_ids = refl

search_example :
    (contains {A = String} ("a@1@1" ∷ "b@1@1" ∷ "c@1@1" ∷ []) "c@1@1" ≡ true)
    ↔ ((p : YarnPackage) × Reaches by_id id_lock a_at_1 p × (dep_id p ≡ "c@1@1"))
search_example = find_transitive_deps-Reaches by_id id_lock 5 a_at_1 coherent found_ids "c@1@1"

abbrev id_json : PackageJson
id_json = ("peerDependencies", ("z", "1") ∷ []) ∷ ("dependencies", ("a", "1") ∷ []) ∷ []

id_roots : root_deps by_id (expand_yarn_lock_keys id_lock) (id_json ∷ []) ≡ ok (a_at_1 ∷ [])
unfolding root_deps get_item string_eq expand_yarn_lock_keys char_eq set_item needs
id_roots = refl

id_lock_expanded : expand_yarn_lock_keys id_lock ≡ id_lock
unfolding expand_yarn_lock_keys char_eq set_item string_eq
id_lock_expanded = refl

listed_root :
    (root : YarnPackage)
    → Memᴰ root (a_at_1 ∷ [])
    → IsCoherent by_id (expand_yarn_lock_keys id_lock) root
listed_root root (Memᴰ.head same) =
    subst (IsCoherent by_id (expand_yarn_lock_keys id_lock)) (sym same)
      (subst (λ l. IsCoherent by_id l a_at_1) (sym id_lock_expanded) coherent)
listed_root root (Memᴰ.tail m) = elim m [ ]

each_root :
    (root : YarnPackage)
    → IsRoot by_id (expand_yarn_lock_keys id_lock) (id_json ∷ []) root
    → IsCoherent by_id (expand_yarn_lock_keys id_lock) root
each_root root r =
    listed_root root
      ((root_deps-IsRoot by_id (expand_yarn_lock_keys id_lock) (id_json ∷ []) id_roots root).1 r)

id_runtime :
    find_runtime_deps by_id 9 id_json id_lock [] ≡ some (ok ("a@1@1" ∷ "b@1@1" ∷ "c@1@1" ∷ []))
unfolding find_runtime_deps get_item string_eq char_eq set_item needs set_add string_ord union
id_runtime = refl

all_found_example : (contains {A = String} ("a@1@1" ∷ "b@1@1" ∷ "c@1@1" ∷ []) "c@1@1" ≡ true) ↔ (
    (root : YarnPackage) × IsRoot by_id (expand_yarn_lock_keys id_lock) (id_json ∷ []) root
    × ((p : YarnPackage) × Reaches by_id (expand_yarn_lock_keys id_lock) root p
        × (dep_id p ≡ "c@1@1")))
all_found_example =
    find_runtime_deps-IsRuntime by_id 9 id_json id_lock [] each_root id_runtime "c@1@1"
