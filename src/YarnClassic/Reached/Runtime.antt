-- ===== src/YarnClassic/Reached/Runtime.antt =====
-- hermeto/core/package_managers/yarn_classic/utils.py: what `find_runtime_deps` promises, and that it
-- keeps the promise.
use mathlib.Core.List.{Memᴰ}
use cachi.Base.{
  ℕ, String, true, some, List, [], ◌∷◌, ◌≡◌, refl, sym, ap, ◌∙◌, ◌⊎◌, ◌↔◌, string_eq, string_ord,
  contains, Bool-cases, Option-cases, inl, inr, arith, subst, some_injective, not_some,
}
use cachi.Base.Members.{contains-union}
use cachi.Base.Sets.{union}
use cachi.Errors.{ok, Result-cases, ok_injective, not_returned}
use cachi.YarnClassic.Search.{
  YarnPackage, Pyarn, PackageJson, dep_id, expand_yarn_lock_keys, root_deps, find_transitive_deps,
  all_deps, find_runtime_deps,
}
use cachi.YarnClassic.Reached.Roots.{IsRoot, root_deps-IsRoot}
use cachi.YarnClassic.Reached.{Reaches, IsCoherent, find_transitive_deps-Reaches}

module _ {Data : Type 0} (lib : Pyarn Data) (lock : List (String × Data)) where
  -- The identifier is that of a package that dependencies lead to from one of the roots.
  abbrev pub IsRuntime : List YarnPackage → String → Type 0
  IsRuntime roots x =
      (root : YarnPackage) × Memᴰ root roots
      × ((p : YarnPackage) × Reaches lib lock root p × (dep_id p ≡ x))

  first_root :
      (fuel : ℕ) (acc : List String) (root : YarnPackage) (roots : List YarnPackage)
      {ids : List String}
      → all_deps lib lock fuel acc (root ∷ roots) ≡ some (ok ids)
      → (found : List String) × (find_transitive_deps lib lock fuel root ≡ some (ok found))
        × (all_deps lib lock fuel (union acc found) roots ≡ some (ok ids))
  unfolding all_deps
  first_root fuel acc root roots h = elim (Option-cases (find_transitive_deps lib lock fuel root)) [
    | inl n ↦ absurd (not_some (rw (n, all_deps) at h))
    | inr (r, e) ↦ elim (Result-cases r) [
      | inl (x, j) ↦ absurd (not_returned (some_injective (rw (j) at (rw (e, all_deps) at h))))
      | inr (found, j) ↦ (found, e ∙ ap some j, rw (j) at (rw (e, all_deps) at h))
    ]
  ]

  all_deps-IsRuntime :
      (fuel : ℕ) (acc : List String) (roots : List YarnPackage) {ids : List String}
      → ((root : YarnPackage) → Memᴰ root roots → IsCoherent lib lock root)
      → all_deps lib lock fuel acc roots ≡ some (ok ids)
      → (x : String) → (contains ids x ≡ true) ↔ ((contains acc x ≡ true) ⊎ IsRuntime roots x)
  unfolding all_deps
  all_deps-IsRuntime fuel acc [] {ids} coherent h x =
      let same : acc ≡ ids = ok_injective (some_injective h) in
      (
        (λ c. inl (subst (λ l. contains l x ≡ true) (sym same) c)),
        (λ either. elim either [
          | inl c ↦ subst (λ l. contains l x ≡ true) same c
          | inr (root, m, _) ↦ elim m [ ]
        ]),
      )
  all_deps-IsRuntime fuel acc (root ∷ roots) {ids} coherent h x =
      let (found, e, g) = first_root fuel acc root roots h in
      let (to, from) =
        all_deps-IsRuntime fuel (union acc found) roots (λ r m. coherent r (Memᴰ.tail m)) g x in
      let (sound, complete) =
        find_transitive_deps-Reaches lib lock fuel root (coherent root (Memᴰ.head refl)) e x in
      let joined = contains-union acc found x in
      (
        (λ c. elim (to c) [
          | inl u ↦ elim (Bool-cases (contains acc x)) [
            | inl t ↦ inl t
            | inr f ↦ inr (root, Memᴰ.head refl, sound (ground (arith, u, f, joined)))
          ]
          | inr (r, m, reached) ↦ inr (r, Memᴰ.tail m, reached)
        ]),
        (λ either. from (elim either [
          | inl c ↦ inl (ground (arith, joined, c))
          | inr (r, Memᴰ.head same, reached) ↦
              (let c = complete (
                  subst (λ v. (p : YarnPackage) × Reaches lib lock v p × (dep_id p ≡ x)) same
                    reached) in
                inl (ground (arith, joined, c)))
          | inr (r, Memᴰ.tail m, reached) ↦ inr (r, m, reached)
        ])),
      )

-- What the docstring promises: where packages of one identifier have the same dependencies, the
-- identifiers that are returned are those of the packages that dependencies lead to from a package
-- that is listed, and in the lockfile with data, under `dependencies`, `peerDependencies` or
-- `optionalDependencies` of the main package.json or of a workspace's.
pub find_runtime_deps-IsRuntime :
    {Data : Type 0} (lib : Pyarn Data) (fuel : ℕ) (main_package_json : PackageJson)
    (yarn_lock : List (String × Data)) (workspaces : List PackageJson) {ids : List String}
    → ((root : YarnPackage)
        → IsRoot lib (expand_yarn_lock_keys yarn_lock) (main_package_json ∷ workspaces) root
        → IsCoherent lib (expand_yarn_lock_keys yarn_lock) root)
    → find_runtime_deps lib fuel main_package_json yarn_lock workspaces ≡ some (ok ids)
    → (x : String)
    → (contains ids x ≡ true) ↔ (
        (root : YarnPackage) × IsRoot lib
          (expand_yarn_lock_keys yarn_lock)
          (main_package_json ∷ workspaces)
          root
        × ((p : YarnPackage) × Reaches lib (expand_yarn_lock_keys yarn_lock) root p
            × (dep_id p ≡ x)))
unfolding find_runtime_deps
find_runtime_deps-IsRuntime lib fuel main_package_json yarn_lock workspaces coherent h x =
    let lock = expand_yarn_lock_keys yarn_lock in
    let jsons = main_package_json ∷ workspaces in
    elim (Result-cases (root_deps lib lock jsons)) [
      | inl (e, r) ↦ absurd (not_returned (some_injective (rw (r, find_runtime_deps) at h)))
      | inr (roots, r) ↦
          (let known = root_deps-IsRoot lib lock jsons r in
            let (to, from) =
              all_deps-IsRuntime lib lock fuel [] roots (λ root m. coherent root ((known root).0 m))
                (rw (r, find_runtime_deps) at h) x in
            (
              (λ c. elim (to c) [
                | inl nowhere ↦ cc
                | inr (root, m, reached) ↦ (root, (known root).0 m, reached)
              ]),
              (λ (root, is_root, reached). from (inr (root, (known root).1 is_root, reached))),
            ))
    ]
