-- ===== src/YarnClassic/Apart.antt =====
-- hermeto/core/package_managers/yarn_classic/main.py: packages that pass the check of the mirror.
use mathlib.Core.List.{Memᴰ}
use cachi.Base.{
  String, true, some, List, [], ◌∷◌, ◌++◌, ◌≡◌, refl, sym, ap, ◌∙◌, ◌==◌, ==_refl, string_eq,
  if◌then◌else◌, contains, Bool-cases, Option-cases, inl, inr, arith, subst, some_injective,
  not_some,
}
use cachi.Base.Members.{contains-append}
use cachi.Errors.{Result, ok, Result-cases, >>=-eq-ok, ok_injective, not_returned}
use cachi.RootedPath.{PurePath}
use cachi.YarnClassic.Mirror.{YarnUrl}
use cachi.YarnClassic.Packages.{YarnClassicPackage}
use cachi.YarnClassic.Collisions.{
  yarn_package_eq, Tarballs, add_tarball, all_are, all_equal, all_groups, tarball_of,
  collect_tarballs, verify_no_offline_mirror_collisions,
}

-- The packages of a name, none of them if there is no such name.
unfoldable group : String → Tarballs → List YarnClassicPackage
group n [] = []
group n ((k, ps) ∷ tarballs) = let rest = group n tarballs in if n == k then ps else rest

group-add_tarball :
    (n m : String) (p : YarnClassicPackage) (tarballs : Tarballs)
    → group n (add_tarball m p tarballs)
      ≡ (if n == m then group n tarballs ++ p ∷ [] else group n tarballs)
unfolding add_tarball group
group-add_tarball n m p [] = ground arith
group-add_tarball n m p ((k, ps) ∷ tarballs) = ground (arith, group-add_tarball n m p tarballs)

all_equal-group :
    (n : String) (tarballs : Tarballs)
    → all_groups tarballs ≡ true
    → all_equal (group n tarballs) ≡ true
unfolding all_groups group
all_equal-group n [] h = unfold all_equal in refl
all_equal-group n ((k, ps) ∷ tarballs) h = ground (arith, all_equal-group n tarballs, h)

all_are_eq :
    (x p : YarnClassicPackage) (packages : List YarnClassicPackage)
    → all_are x packages ≡ true
    → contains packages p ≡ true
    → p ≡ x
unfolding all_are
all_are_eq x p [] h k = cc
all_are_eq x p (q ∷ packages) h k = elim (Bool-cases (q == p)) [
  | inl t ↦ grind arith
  | inr f ↦ all_are_eq x p packages (ground (arith, h)) (ground (arith, k, f))
]

one_package :
    (p q : YarnClassicPackage) (packages : List YarnClassicPackage)
    → all_equal packages ≡ true
    → contains packages p ≡ true
    → contains packages q ≡ true
    → p ≡ q
unfolding all_equal
one_package p q [] h k j = cc
one_package p q (x ∷ packages) h k j =
    all_are_eq x p (x ∷ packages) h k ∙ sym (all_are_eq x q (x ∷ packages) h j)

-- A package joins the group of its name, and every group keeps its packages.
kept :
    (n m : String) (p q : YarnClassicPackage) (tarballs : Tarballs)
    → contains (group n tarballs) q ≡ true
    → contains (group n (add_tarball m p tarballs)) q ≡ true
kept n m p q tarballs h =
    ap (λ l. contains l q) (group-add_tarball n m p tarballs)
    ∙ ground (arith, h, contains-append (group n tarballs) (p ∷ []) q)

joined :
    (n : String) (p : YarnClassicPackage) (tarballs : Tarballs)
    → contains (group n (add_tarball n p tarballs)) p ≡ true
joined n p tarballs =
    ap (λ l. contains l p) (group-add_tarball n n p tarballs)
    ∙ ground (
      arith,
      ==_refl {A = String} n,
      ==_refl {A = YarnClassicPackage} p,
      contains-append (group n tarballs) (p ∷ []) p,
    )

module _ (urlparse : String → Result YarnUrl) (path_of : String → PurePath) where
  -- A round that returns, and the rounds behind it.
  first_tarball :
      (tarballs : Tarballs) (p : YarnClassicPackage) (packages : List YarnClassicPackage)
      {last : Tarballs}
      → collect_tarballs urlparse path_of tarballs (p ∷ packages) ≡ ok last
      → (next : Tarballs) × (collect_tarballs urlparse path_of next packages ≡ ok last)
        × ((n : String) (q : YarnClassicPackage)
            → contains (group n tarballs) q ≡ true
            → contains (group n next) q ≡ true)
        × ((n : String)
            → tarball_of urlparse path_of p ≡ ok (some n)
            → contains (group n next) p ≡ true)
  unfolding collect_tarballs
  first_tarball tarballs p packages h = elim (Result-cases (tarball_of urlparse path_of p)) [
    | inl (e, j) ↦ absurd (not_returned (rw (j, collect_tarballs) at h))
    | inr (o, j) ↦ elim (Option-cases o) [
      | inl k ↦ (
        tarballs,
        rw (k) at (rw (j, collect_tarballs) at h),
        λ n q c. c,
        λ n e. absurd (not_some (ok_injective (sym (j ∙ ap ok k) ∙ e))),
      )
      | inr (m, k) ↦ (
        add_tarball m p tarballs,
        rw (k) at (rw (j, collect_tarballs) at h),
        λ n q c. kept n m p q tarballs c,
        λ n e.
            subst (λ v. contains (group v (add_tarball m p tarballs)) p ≡ true)
              (some_injective (ok_injective (sym (j ∙ ap ok k) ∙ e))) (joined m p tarballs),
      )
    ]
  ]

  collect_tarballs-kept :
      (tarballs : Tarballs) (packages : List YarnClassicPackage) {last : Tarballs} (n : String)
      (q : YarnClassicPackage)
      → collect_tarballs urlparse path_of tarballs packages ≡ ok last
      → contains (group n tarballs) q ≡ true
      → contains (group n last) q ≡ true
  unfolding collect_tarballs
  collect_tarballs-kept tarballs [] n q h c =
      subst (λ t. contains (group n t) q ≡ true) (ok_injective h) c
  collect_tarballs-kept tarballs (p ∷ packages) n q h c =
      let (next, g, keeps, new) = first_tarball tarballs p packages h in
      collect_tarballs-kept next packages n q g (keeps n q c)

  collect_tarballs-Mem :
      (tarballs : Tarballs) (packages : List YarnClassicPackage) {last : Tarballs} (n : String)
      (q : YarnClassicPackage)
      → collect_tarballs urlparse path_of tarballs packages ≡ ok last
      → Memᴰ q packages
      → tarball_of urlparse path_of q ≡ ok (some n)
      → contains (group n last) q ≡ true
  collect_tarballs-Mem tarballs [] n q h m e = elim m [ ]
  collect_tarballs-Mem tarballs (p ∷ packages) n q h (Memᴰ.head same) e =
      let (next, g, keeps, new) = first_tarball tarballs p packages h in
      collect_tarballs-kept next packages n q g (
        subst (λ x. contains (group n next) x ≡ true) (sym same)
          (new n (ap (tarball_of urlparse path_of) (sym same) ∙ e)))
  collect_tarballs-Mem tarballs (p ∷ packages) n q h (Memᴰ.tail m) e =
      let (next, g, keeps, new) = first_tarball tarballs p packages h in
      collect_tarballs-Mem next packages n q g m e

  -- Of packages that pass the check, two that have one tarball in the mirror are the same.
  pub verify_no_offline_mirror_collisions-eq :
      (packages : List YarnClassicPackage)
      → verify_no_offline_mirror_collisions urlparse path_of packages ≡ ok tt
      → (p q : YarnClassicPackage) (n : String) → Memᴰ p packages
      → Memᴰ q packages
      → tarball_of urlparse path_of p ≡ ok (some n)
      → tarball_of urlparse path_of q ≡ ok (some n)
      → p ≡ q
  unfolding verify_no_offline_mirror_collisions
  verify_no_offline_mirror_collisions-eq packages h p q n mp mq ep eq =
      let (tarballs, c, g) = >>=-eq-ok (collect_tarballs urlparse path_of [] packages) _ h in
      elim (Bool-cases (all_groups tarballs)) [
        | inl t ↦
            one_package p q (group n tarballs) (all_equal-group n tarballs t)
              (collect_tarballs-Mem [] packages n p c mp ep)
              (collect_tarballs-Mem [] packages n q c mq eq)
        | inr f ↦ absurd (not_returned (rw (f) at g))
      ]
