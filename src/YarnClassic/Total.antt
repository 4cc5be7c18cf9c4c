-- ===== src/YarnClassic/Total.antt =====
-- hermeto/core/package_managers/yarn_classic/utils.py: the search ends.
pub mod Runtime
use cachi.Base.{
  ℕ, zero, suc, ◌+◌, ◌≤◌, ◌<◌, String, Bool, true, false, ◌&&◌, Option, none, some, List, [], ◌∷◌,
  ◌++◌, ◌≡◌, ◌≢◌, refl, subst, sym, ap, ◌∙◌, string_eq, string_ord, if◌then◌else◌, contains, ◌==◌,
  ==_refl, Bool-cases, Option-cases, inl, inr, arith,
}
use cachi.Base.Dict.{get_item}
use cachi.Base.Members.{contains-append, contains-set_add}
use cachi.Base.Sets.{set_add, union}
use cachi.Errors.{Error, Result, ok, err, ◌>>=◌, Result-cases, >>=-eq-ok, ok_injective}
use cachi.YarnClassic.Search.{
  YarnPackage, Pyarn, at, dep_id, new_dep, new_deps, search, find_transitive_deps, all_deps,
  find_runtime_deps, expand_yarn_lock_keys, root_deps, PackageJson,
}

-- The number of the identifiers that the search has not visited.
unseen : List String → List String → ℕ
unseen visited [] = 0
unseen visited (u ∷ ids) =
    let rest = unseen visited ids in if contains visited u then rest else suc rest

unseen-set_add :
    (a : String) (visited ids : List String) → unseen (set_add a visited) ids ≤ unseen visited ids
unfolding unseen
unseen-set_add a visited [] = omega arith
unseen-set_add a visited (u ∷ ids) =
    ground (arith, unseen-set_add a visited ids, contains-set_add a visited u)

unseen_less :
    (a : String) (visited ids : List String)
    → contains visited a ≡ false
    → contains ids a ≡ true
    → unseen (set_add a visited) ids < unseen visited ids
unfolding unseen
unseen_less a visited [] h k = cc
unseen_less a visited (u ∷ ids) h k =
    ground (
      arith,
      unseen-set_add a visited ids,
      contains-set_add a visited u,
      unseen_less a visited ids h,
    )

-- The number of the packages in a queue that the search has visited.
seen : List String → List YarnPackage → ℕ
seen visited [] = 0
seen visited (p ∷ queue) =
    let rest = seen visited queue in if contains visited (dep_id p) then suc rest else rest

seen-append :
    (visited : List String) (q r : List YarnPackage)
    → seen visited (q ++ r) ≡ seen visited q + seen visited r
unfolding seen
seen-append visited [] r = omega arith
seen-append visited (p ∷ q) r = ground (arith, seen-append visited q r)

seen-set_add :
    (a : String) (visited : List String) (q : List YarnPackage)
    → contains visited a ≡ true
    → seen (set_add a visited) q ≡ seen visited q
unfolding seen
seen-set_add a visited [] h = refl
seen-set_add a visited (p ∷ q) h =
    grind (arith, seen-set_add a visited q h, contains-set_add a visited (dep_id p))

-- A round on a package that is visited has one package less that is.
seen_again :
    (visited : List String) (p : YarnPackage) (queue ps : List YarnPackage)
    → contains visited (dep_id p) ≡ true
    → seen (set_add (dep_id p) visited) ps ≡ 0
    → seen visited (p ∷ queue) ≡ suc (seen (set_add (dep_id p) visited) (queue ++ ps))
unfolding seen
seen_again visited p queue ps h j = grind (
  arith,
  seen-append (set_add (dep_id p) visited) queue ps,
  seen-set_add (dep_id p) visited queue h,
)

-- Whether all packages of a queue have one of the identifiers.
abbrev known : List String → List YarnPackage → Bool
known ids [] = true
known ids (p ∷ queue) = contains ids (dep_id p) && known ids queue

known-append :
    (ids : List String) (q r : List YarnPackage) → known ids (q ++ r) ≡ (known ids q && known ids r)
known-append ids [] r = refl
known-append ids (p ∷ q) r = ground (arith, known-append ids q r)

known_more :
    (i : String) (ids : List String) (q : List YarnPackage)
    → known ids q ≡ true
    → known (i ∷ ids) q ≡ true
known_more i ids [] h = refl
known_more i ids (p ∷ q) h = ground (arith, known_more i ids q)

module _ {Data : Type 0} (lib : Pyarn Data) (lock : List (String × Data)) where
  -- The identifiers of the packages of a lockfile's entries.
  unfoldable ids_of : List (String × Data) → List String
  ids_of [] = []
  ids_of ((k, entry) ∷ items) = elim (lib.from_dict k (some entry)) [
    | err e ↦ ids_of items
    | ok p ↦ dep_id p ∷ ids_of items
  ]

  contains-ids_of :
      (k : String) (items : List (String × Data)) {entry : Data} {p : YarnPackage}
      → get_item k items ≡ some entry
      → lib.from_dict k (some entry) ≡ ok p
      → contains (ids_of items) (dep_id p) ≡ true
  unfolding ids_of get_item
  contains-ids_of k [] h j = cc
  contains-ids_of k ((i, entry) ∷ items) {entry = w} {p} h j = elim (Bool-cases (k == i)) [
    | inl t ↦
        (let q : lib.from_dict i (some entry) ≡ ok p = grind arith in rw (q, ids_of) ground arith)
    | inr f ↦
        (let rest = contains-ids_of k items (rw (f, get_item) at h) j in
          elim (Result-cases (lib.from_dict i (some entry))) [
            | inl (e, q) ↦ rw (q, ids_of) rest
            | inr (r, q) ↦ rw (q, ids_of) ground (arith, rest)
          ])
  ]

  -- A dependency that the lockfile does not have is an error of `Package.from_dict`.
  abbrev pub Misses : Type 0
  Misses = (k : String) (p : YarnPackage) → lib.from_dict k none ≢ ok p

  new_dep-known :
      Misses
      → (d : String × String) {p : YarnPackage} → new_dep lib lock d ≡ ok p
      → contains (ids_of lock) (dep_id p) ≡ true
  unfolding new_dep
  new_dep-known misses (name, spec) {p} h = elim (Option-cases (get_item (at name spec) lock)) [
    | inl n ↦ absurd (misses (at name spec) p (rw (n, new_dep) at h))
    | inr (entry, e) ↦ contains-ids_of (at name spec) lock e (rw (e, new_dep) at h)
  ]

  new_deps-known :
      Misses
      → (visited : List String) (ds : List (String × String)) {ps : List YarnPackage}
      → new_deps lib lock visited ds ≡ ok ps
      → (known (ids_of lock) ps ≡ true) × (seen visited ps ≡ 0)
  unfolding new_deps seen
  new_deps-known misses visited [] h =
      subst (λ ps. (known (ids_of lock) ps ≡ true) × (seen visited ps ≡ 0)) (ok_injective h)
        (refl, refl)
  new_deps-known misses visited (d ∷ ds) h =
      let (p, e, g) = >>=-eq-ok (new_dep lib lock d) _ h in
      let (ps, e2, g2) = >>=-eq-ok (new_deps lib lock visited ds) _ g in
      let rest = new_deps-known misses visited ds e2 in
      let found = new_dep-known misses d e in
      subst (λ ps. (known (ids_of lock) ps ≡ true) × (seen visited ps ≡ 0)) (ok_injective g2)
        (ground (arith, rest, found))

  -- The search from a state ends, with some fuel.
  abbrev Ends : List String → List YarnPackage → Type 0
  Ends visited queue =
      (fuel : ℕ) × (r : Result (List String)) × (search lib lock fuel visited queue ≡ some r)

  module _ (misses : Misses) (ids : List String)
      (all_known : (visited : List String) (ds : List (String × String)) (ps : List YarnPackage)
        → new_deps lib lock visited ds ≡ ok ps
        → (known ids ps ≡ true) × (seen visited ps ≡ 0)) where
    next_round :
        (visited : List String) (p : YarnPackage) (queue ps : List YarnPackage)
        → new_deps lib lock (set_add (dep_id p) visited) p.dependencies ≡ ok ps
        → Ends (set_add (dep_id p) visited) (queue ++ ps)
        → Ends visited (p ∷ queue)
    unfolding search
    next_round visited p queue ps e (fuel, r, h) = (suc fuel, r, rw (e, search) h)

    -- Rounds on packages that are visited already, between two rounds on a new package.
    between_rounds :
        (n m : ℕ)
        → ((v : List String) (q : List YarnPackage)
            → unseen v ids < n
            → known ids q ≡ true
            → Ends v q)
        → (visited : List String) (queue : List YarnPackage) → unseen visited ids ≤ n
        → seen visited queue < m
        → known ids queue ≡ true
        → Ends visited queue
    unfolding search
    between_rounds n zero fewer visited queue u s k = absurd (omega arith)
    between_rounds n (suc m) fewer visited [] u s k = (0, ok visited, refl)
    between_rounds n (suc m) fewer visited (p ∷ queue) u s k =
        elim (Result-cases (new_deps lib lock (set_add (dep_id p) visited) p.dependencies)) [
          | inl (e, h) ↦ (1, err e, rw (h, search) refl)
          | inr (ps, h) ↦ next_round visited p queue ps h (
              let new = all_known (set_add (dep_id p) visited) p.dependencies ps h in
              let all : known ids (queue ++ ps) ≡ true =
                ground (arith, known-append ids queue ps, k, new) in
              elim (Bool-cases (contains visited (dep_id p))) [
                | inl t ↦
                    between_rounds n m fewer (set_add (dep_id p) visited) (queue ++ ps)
                      (let more = unseen-set_add (dep_id p) visited ids in omega arith)
                      (let same = seen_again visited p queue ps t new.1 in omega arith) all
                | inr f ↦
                    fewer (set_add (dep_id p) visited) (queue ++ ps)
                      (let less = unseen_less (dep_id p) visited ids f (ground arith) in
                        omega arith)
                      all
              ])
        ]

    ends :
        (n : ℕ) (visited : List String) (queue : List YarnPackage)
        → unseen visited ids ≤ n
        → known ids queue ≡ true
        → Ends visited queue
    ends zero visited queue u k =
        between_rounds zero (suc (seen visited queue)) (λ v q less _. absurd (omega arith)) visited
          queue u (omega arith) k
    ends (suc n) visited queue u k =
        between_rounds (suc n) (suc (seen visited queue))
          (λ v q less all. ends n v q (omega arith) all) visited queue u (omega arith) k

  -- The search from a root dependency ends: with some fuel it returns or raises, also where the
  -- dependencies have cycles, if `Package.from_dict` raises on what the lockfile does not have.
  pub find_transitive_deps-ends :
      (root_dep : YarnPackage)
      → Misses
      → (fuel : ℕ) × (r : Result (List String)) × (find_transitive_deps lib lock fuel root_dep
          ≡ some r)
  unfolding find_transitive_deps
  find_transitive_deps-ends root_dep misses =
      ends misses (dep_id root_dep ∷ ids_of lock)
        (λ visited ds ps h.
          let new = new_deps-known misses visited ds h in
          (known_more (dep_id root_dep) (ids_of lock) ps new.0, new.1))
        (unseen [] (dep_id root_dep ∷ ids_of lock)) [] (root_dep ∷ []) (omega arith)
        (ground (arith, ==_refl {A = String} (dep_id root_dep)))
