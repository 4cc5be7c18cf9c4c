-- ===== src/YarnClassic/Reached.antt =====
-- hermeto/core/package_managers/yarn_classic/utils.py: what the search finds.
pub mod Runtime
pub mod Roots
use mathlib.Core.List.{Memᴰ}
use cachi.Base.{
  ℕ, zero, suc, String, Bool, true, ◌||◌, Option, some, List, [], ◌∷◌, ◌++◌, ◌≡◌, refl, sym, ap,
  ◌∙◌, string_eq, string_ord, if◌then◌else◌, contains, ◌==◌, ==_refl, Bool-cases, inl, inr, arith,
  subst, ◌↔◌,
}
use cachi.Base.Members.{contains-set_add, any, any-append}
use cachi.Base.Sets.{set_add}
use cachi.Errors.{Error, Result, ok, err, Result-cases, >>=-eq-ok, ok_injective}
use cachi.YarnClassic.Search.{
  YarnPackage, Pyarn, dep_id, new_dep, new_deps, search, find_transitive_deps,
}

-- Whether a package of the queue has the identifier.
abbrev queued : List YarnPackage → String → Bool
queued q x = any (λ (p : YarnPackage). dep_id p == x) q

not_raised :
    {e : Error} {r : List String}
    → ◌≡◌ {A = Option (Result (List String))} (some (err e)) (some (ok r))
    → ⊥
not_raised h = cc

module _ {Data : Type 0} (lib : Pyarn Data) (lock : List (String × Data)) where
  -- The packages that dependencies lead to, from a root.
  pub data Reaches (root : YarnPackage) : YarnPackage → Type 0 where
    here : Reaches root root
    step :
        {p q : YarnPackage} (d : String × String)
        → Reaches root p
        → Memᴰ d p.dependencies
        → new_dep lib lock d ≡ ok q
        → Reaches root q

  -- What the rounds append is a dependency of the package.
  AllReached : YarnPackage → List YarnPackage → Type 0
  AllReached root [] = Unit
  AllReached root (p ∷ queue) = Reaches root p × AllReached root queue

  AllReached-append :
      (root : YarnPackage) (q r : List YarnPackage)
      → AllReached root q
      → AllReached root r
      → AllReached root (q ++ r)
  unfolding AllReached
  AllReached-append root [] r h k = k
  AllReached-append root (p ∷ q) r h k = (h.0, AllReached-append root q r h.1 k)

  new_deps-AllReached :
      {root : YarnPackage} (p : YarnPackage)
      → Reaches root p
      → (visited : List String) (ds : List (String × String)) {ps : List YarnPackage}
      → ((d : String × String) → Memᴰ d ds → Memᴰ d p.dependencies)
      → new_deps lib lock visited ds ≡ ok ps
      → AllReached root ps
  unfolding AllReached new_deps
  new_deps-AllReached {root} p r visited [] within h = subst (AllReached root) (ok_injective h) tt
  new_deps-AllReached {root} p r visited (d ∷ ds) within h =
      let (q, e, g) = >>=-eq-ok (new_dep lib lock d) _ h in
      let (ps, e2, g2) = >>=-eq-ok (new_deps lib lock visited ds) _ g in
      let rest = new_deps-AllReached p r visited ds (λ c m. within c (Memᴰ.tail m)) e2 in
      let reached : Reaches root q = step d r (within d (Memᴰ.head refl)) e in
      subst (AllReached root) (ok_injective g2) (elim (Bool-cases (contains visited (dep_id q))) [
        | inl t ↦ subst (λ b. AllReached root (if b then ps else q ∷ ps)) (sym t) rest
        | inr f ↦ subst (λ b. AllReached root (if b then ps else q ∷ ps)) (sym f) (reached, rest)
      ])

  -- A dependency is visited, or it is appended.
  new_deps-queued :
      (visited : List String) (ds : List (String × String)) (d : String × String) {q : YarnPackage}
      {ps : List YarnPackage}
      → Memᴰ d ds
      → new_dep lib lock d ≡ ok q
      → new_deps lib lock visited ds ≡ ok ps
      → (contains visited (dep_id q) || queued ps (dep_id q)) ≡ true
  unfolding new_deps
  new_deps-queued visited [] d m j h = elim m [ ]
  new_deps-queued visited (c ∷ ds) d {q} m j h =
      let (p, e, g) = >>=-eq-ok (new_dep lib lock c) _ h in
      let (ps, e2, g2) = >>=-eq-ok (new_deps lib lock visited ds) _ g in
      subst (λ l. (contains visited (dep_id q) || queued l (dep_id q)) ≡ true) (ok_injective g2)
        (elim m [
          | Memᴰ.head same ↦
              (let equal : p ≡ q = ok_injective (sym e ∙ ap (new_dep lib lock) (sym same) ∙ j) in
                subst
                  (λ x.
                    (contains visited (dep_id x)
                      || queued (if contains visited (dep_id p) then ps else p ∷ ps) (dep_id x))
                    ≡ true)
                  equal (ground (arith, ==_refl {A = String} (dep_id p))))
          | Memᴰ.tail m ↦ (let rest = new_deps-queued visited ds d m j e2 in ground (arith, rest))
        ])

  -- Packages with one identifier have the same dependencies.
  abbrev pub IsCoherent : YarnPackage → Type 0
  IsCoherent root =
      (p q : YarnPackage)
      → Reaches root p
      → Reaches root q
      → dep_id p ≡ dep_id q
      → p.dependencies ≡ q.dependencies

  -- The dependencies of what is visited are visited, or wait in the queue.
  abbrev Open : YarnPackage → List String → List YarnPackage → Type 0
  Open root visited queue =
      (p q : YarnPackage) (d : String × String)
      → Reaches root p
      → contains visited (dep_id p) ≡ true
      → Memᴰ d p.dependencies
      → new_dep lib lock d ≡ ok q
      → (contains visited (dep_id q) || queued queue (dep_id q)) ≡ true

  module _ (root : YarnPackage) (coherent : IsCoherent root) where
    next_Open :
        (visited : List String) (p : YarnPackage) (queue ps : List YarnPackage)
        → Reaches root p
        → new_deps lib lock (set_add (dep_id p) visited) p.dependencies ≡ ok ps
        → Open root visited (p ∷ queue)
        → Open root (set_add (dep_id p) visited) (queue ++ ps)
    next_Open visited p queue ps r h opened a b d ra va m e =
        let split = any-append (λ (c : YarnPackage). dep_id c == dep_id b) queue ps in
        let added = contains-set_add (dep_id p) visited (dep_id b) in
        elim (Bool-cases (dep_id p == dep_id a)) [
          | inl same ↦
              (let equal : dep_id a ≡ dep_id p = grind arith in
                let new =
                  new_deps-queued (set_add (dep_id p) visited) p.dependencies d
                    (subst (Memᴰ d) (coherent a p ra r equal) m) e h in
                ground (arith, new, split))
          | inr other ↦
              (let before : contains visited (dep_id a) ≡ true =
                  ground (arith, va, other, contains-set_add (dep_id p) visited (dep_id a)) in
                let old = opened a b d ra before m e in ground (arith, old, split, added))
        ]

    -- Visited identifiers are those of packages that dependencies lead to.
    abbrev AllFrom : List String → Type 0
    AllFrom visited =
        (x : String)
        → contains visited x ≡ true
        → (p : YarnPackage) × Reaches root p × (dep_id p ≡ x)

    next_AllFrom :
        (visited : List String) (p : YarnPackage)
        → Reaches root p
        → AllFrom visited
        → AllFrom (set_add (dep_id p) visited)
    next_AllFrom visited p r from x h = elim (Bool-cases (dep_id p == x)) [
      | inl t ↦ (p, r, grind arith)
      | inr f ↦ from x (ground (arith, h, f, contains-set_add (dep_id p) visited x))
    ]

    all_visited :
        (visited : List String)
        → Open root visited []
        → contains visited (dep_id root) ≡ true
        → (p : YarnPackage) → Reaches root p
        → contains visited (dep_id p) ≡ true
    all_visited visited closed first p here = first
    all_visited visited closed first q (step {p} d r m e) =
        let before = all_visited visited closed first p r in
        let found = closed p q d r before m e in ground (arith, found)

    search-Reaches :
        (fuel : ℕ) (visited : List String) (queue : List YarnPackage) {ids : List String}
        → AllReached root queue
        → AllFrom visited
        → Open root visited queue
        → (contains visited (dep_id root) || queued queue (dep_id root)) ≡ true
        → search lib lock fuel visited queue ≡ some (ok ids)
        → AllFrom ids × ((p : YarnPackage) → Reaches root p → contains ids (dep_id p) ≡ true)
    unfolding search AllReached
    search-Reaches fuel visited [] {ids} reached from opened first h =
        let same : visited ≡ ids = cc in
        subst (λ l. AllFrom l × ((p : YarnPackage) → Reaches root p → contains l (dep_id p) ≡ true))
          same (from, all_visited visited opened (ground (arith, first)))
    search-Reaches zero visited (p ∷ queue) reached from opened first h = cc
    search-Reaches (suc fuel) visited (p ∷ queue) reached from opened first h =
        elim (Result-cases (new_deps lib lock (set_add (dep_id p) visited) p.dependencies)) [
          | inl (e, j) ↦ absurd (not_raised (rw (j, search) at h))
          | inr (ps, j) ↦
              search-Reaches fuel (set_add (dep_id p) visited) (queue ++ ps)
                (AllReached-append root queue ps reached.1 (
                  new_deps-AllReached p reached.0 (set_add (dep_id p) visited) p.dependencies
                    (λ d m. m) j))
                (next_AllFrom visited p reached.0 from)
                (next_Open visited p queue ps reached.0 j opened)
                (ground (
                  arith,
                  first,
                  contains-set_add (dep_id p) visited (dep_id root),
                  any-append (λ (c : YarnPackage). dep_id c == dep_id root) queue ps,
                ))
                (rw (j, search) at h)
        ]

  -- Where packages of one identifier have the same dependencies, the search finds the identifiers of
  -- the packages that the dependencies lead to from the root, and no others.
  pub find_transitive_deps-Reaches :
      (fuel : ℕ) (root_dep : YarnPackage) {ids : List String}
      → IsCoherent root_dep
      → find_transitive_deps lib lock fuel root_dep ≡ some (ok ids)
      → (x : String)
      → (contains ids x ≡ true) ↔ ((p : YarnPackage) × Reaches root_dep p × (dep_id p ≡ x))
  unfolding find_transitive_deps AllReached
  find_transitive_deps-Reaches fuel root_dep {ids} coherent h x =
      let (sound, complete) =
        search-Reaches root_dep coherent fuel [] (root_dep ∷ []) (here, tt) (λ x k. cc)
          (λ p q d r k m e. cc) (ground (arith, ==_refl {A = String} (dep_id root_dep))) h in
      (sound x, λ (p, r, e). subst (λ y. contains ids y ≡ true) e (complete p r))
