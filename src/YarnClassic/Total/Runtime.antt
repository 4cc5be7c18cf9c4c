-- ===== src/YarnClassic/Total/Runtime.antt =====
-- hermeto/core/package_managers/yarn_classic/utils.py: the search for all dependencies at run time ends.
use cachi.Base.{
  ℕ, zero, suc, ◌+◌, ◌≤◌, String, some, List, [], ◌∷◌, ◌++◌, ◌≡◌, refl, ap, ◌∙◌, string_eq,
  string_ord, inl, inr, arith,
}
use cachi.Base.Sets.{set_add, union}
use cachi.Errors.{Error, Result, ok, err, Result-cases}
use cachi.YarnClassic.Search.{
  YarnPackage, Pyarn, dep_id, new_deps, search, find_transitive_deps, all_deps, find_runtime_deps,
  expand_yarn_lock_keys, root_deps, PackageJson,
}
use cachi.YarnClassic.Total.{Misses, find_transitive_deps-ends}

module _ {Data : Type 0} (lib : Pyarn Data) (lock : List (String × Data)) where
  search_more :
      (fuel more : ℕ) (visited : List String) (queue : List YarnPackage) {r : Result (List String)}
      → fuel ≤ more
      → search lib lock fuel visited queue ≡ some r
      → search lib lock more visited queue ≡ some r
  unfolding search
  search_more fuel more visited [] l h = h
  search_more zero more visited (p ∷ queue) l h = cc
  search_more (suc fuel) zero visited (p ∷ queue) l h = absurd (omega arith)
  search_more (suc fuel) (suc more) visited (p ∷ queue) l h =
      elim (Result-cases (new_deps lib lock (set_add (dep_id p) visited) p.dependencies)) [
        | inl (e, j) ↦ rw (j, search) (rw (j, search) at h)
        | inr (ps, j) ↦
            rw (j, search)
              (search_more fuel more (set_add (dep_id p) visited) (queue ++ ps) (omega arith)
                (rw (j, search) at h))
      ]

  all_deps_next :
      (fuel : ℕ) (ids : List String) (root : YarnPackage) (roots : List YarnPackage)
      {found : List String}
      → find_transitive_deps lib lock fuel root ≡ some (ok found)
      → all_deps lib lock fuel ids (root ∷ roots) ≡ all_deps lib lock fuel (union ids found) roots
  unfolding all_deps
  all_deps_next fuel ids root roots h = rw (h, all_deps) refl

  all_deps_error :
      (fuel : ℕ) (ids : List String) (root : YarnPackage) (roots : List YarnPackage) {e : Error}
      → find_transitive_deps lib lock fuel root ≡ some (err e)
      → all_deps lib lock fuel ids (root ∷ roots) ≡ some (err e)
  unfolding all_deps
  all_deps_error fuel ids root roots h = rw (h, all_deps) refl

  -- One fuel is enough for the searches from all roots.
  all_deps-ends :
      Misses lib lock
      → (roots : List YarnPackage)
      → (enough : ℕ) × ((fuel : ℕ) (ids : List String)
          → enough ≤ fuel
          → (r : Result (List String)) × (all_deps lib lock fuel ids roots ≡ some r))
  unfolding all_deps find_transitive_deps
  all_deps-ends misses [] = (0, λ fuel ids l. (ok ids, refl))
  all_deps-ends misses (root ∷ roots) =
      let (f, r, h) = find_transitive_deps-ends lib lock root misses in
      let (g, rest) = all_deps-ends misses roots in
      (
        f + g,
        λ fuel ids l.
            let found : find_transitive_deps lib lock fuel root ≡ some r =
              search_more f fuel [] (root ∷ []) (omega arith) h in
            elim (Result-cases r) [
              | inl (e, j) ↦ (err e, all_deps_error fuel ids root roots (found ∙ ap some j))
              | inr (ids_of_root, j) ↦
                  (let (s, k) = rest fuel (union ids ids_of_root) (omega arith) in
                    (s, all_deps_next fuel ids root roots (found ∙ ap some j) ∙ k))
            ],
      )

-- The search for all dependencies at run time ends: with some fuel it returns or raises, if
-- `Package.from_dict` raises on what the lockfile does not have.
pub find_runtime_deps-ends :
    {Data : Type 0} (lib : Pyarn Data) (main_package_json : PackageJson)
    (yarn_lock : List (String × Data)) (workspaces : List PackageJson)
    → Misses lib (expand_yarn_lock_keys yarn_lock)
    → (fuel : ℕ) × (r : Result (List String)) × (find_runtime_deps lib fuel main_package_json
          yarn_lock workspaces
        ≡ some r)
unfolding find_runtime_deps
find_runtime_deps-ends lib main_package_json yarn_lock workspaces misses =
    let lock = expand_yarn_lock_keys yarn_lock in
    elim (Result-cases (root_deps lib lock (main_package_json ∷ workspaces))) [
      | inl (e, h) ↦ (0, err e, rw (h, find_runtime_deps) refl)
      | inr (roots, h) ↦
          (let (fuel, enough) = all_deps-ends lib lock misses roots in
            let (r, k) = enough fuel [] (omega arith) in (fuel, r, rw (h, find_runtime_deps) k))
    ]
