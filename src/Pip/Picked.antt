-- ===== src/Pip/Picked.antt =====
-- hermeto/core/package_managers/pip/package_distributions.py: which distributions are downloaded.
use cachi.Base.{
  String, true, false, not, ◌||◌, some, List, [], ◌∷◌, ◌==◌, string_eq, option_eq, contains, ◌≡◌,
  refl, ap, subst, ◌∙◌, inl, inr, arith, Bool-cases, ==→≡, ==_refl,
}
use cachi.Base.Members.{Among, AllMeet, AllMeet-append}
use cachi.Errors.{ok, ok_injective, not_returned}
use cachi.Checksum.{ChecksumInfo}
use cachi.Pip.Distributions.{
  checksum_eq, IndexPackage, DistributionPackageInfo, intersection, determine_checksums_to_match,
  is_empty, preference_lt, find_the_best_sdist, process_no_binary_mode, process_prefer_binary_mode,
  process_only_binary_mode, of_type,
}

-- The checksums that a file is compared with: where the index and the requirements both have some,
-- there is one that both have, and no other; else those of the one that has some.
abbrev pub AreChecked : List ChecksumInfo → List ChecksumInfo → List ChecksumInfo → Type 0
AreChecked [] req checks = checks ≡ req
AreChecked (c ∷ pypi) [] checks = checks ≡ c ∷ pypi
AreChecked (c ∷ pypi) (r ∷ req) checks =
    (is_empty checks ≡ false)
    × AllMeet (λ x. (contains (c ∷ pypi) x ≡ true) × (contains (r ∷ req) x ≡ true)) checks

intersection-both :
    (a b l : List ChecksumInfo)
    → AllMeet (λ x. contains l x ≡ true) a
    → AllMeet (λ x. (contains l x ≡ true) × (contains b x ≡ true)) (intersection a b)
unfolding intersection
intersection-both [] b l h = tt
intersection-both (c ∷ a) b l h = elim (Bool-cases (contains b c)) [
  | inl t ↦ rw (t) ((h.0, t), intersection-both a b l h.1)
  | inr f ↦ rw (f) (intersection-both a b l h.1)
]

contains_weaken :
    (c : ChecksumInfo) (a l : List ChecksumInfo)
    → AllMeet (λ x. contains l x ≡ true) a
    → AllMeet (λ x. contains (c ∷ l) x ≡ true) a
contains_weaken c [] l h = tt
contains_weaken c (x ∷ a) l h = (ground (arith, h.0), contains_weaken c a l h.1)

contains_self : (l : List ChecksumInfo) → AllMeet (λ x. contains l x ≡ true) l
contains_self [] = tt
contains_self (c ∷ l) = (rw (==_refl c) refl, contains_weaken c l l (contains_self l))

pub checks-AreChecked :
    (pypi req : List ChecksumInfo)
    → (not (is_empty (determine_checksums_to_match pypi req)) || is_empty pypi || is_empty req)
      ≡ true
    → AreChecked pypi req (determine_checksums_to_match pypi req)
unfolding determine_checksums_to_match
checks-AreChecked [] req h = refl
checks-AreChecked (c ∷ pypi) [] h = refl
checks-AreChecked (c ∷ pypi) (r ∷ req) h =
    (ground arith, intersection-both (c ∷ pypi) (r ∷ req) (c ∷ pypi) (contains_self (c ∷ pypi)))

pub of_type-Among :
    (type : String) (l : List IndexPackage) (p : IndexPackage)
    → Among p (of_type type l)
    → Among p l × (p.package_type ≡ some type)
unfolding of_type
of_type-Among type [] p h = absurd h
of_type-Among type (q ∷ l) p h = elim (Bool-cases (q.package_type == some type)) [
  | inr f ↦ (let (among, e) = of_type-Among type l p (rw (f) at h) in (inr among, e))
  | inl t ↦ elim (let k : Among p (q ∷ of_type type l) = rw (t) at h in k) [
    | inl e ↦
        (inl e, ap (λ (x : IndexPackage). x.package_type) e ∙ ==→≡ q.package_type (some type) t)
    | inr k ↦ (let (among, e) = of_type-Among type l p k in (inr among, e))
  ]
]

-- The condition holds for what `find_the_best_sdist` chooses.
best_meets :
    (P : DistributionPackageInfo → Type 0) (best : DistributionPackageInfo)
    (l : List DistributionPackageInfo)
    → P best
    → AllMeet P l
    → P (find_the_best_sdist best l)
unfolding find_the_best_sdist
best_meets P best [] b h = b
best_meets P best (d ∷ l) b h = elim (Bool-cases (preference_lt best d)) [
  | inl t ↦ rw (t) (best_meets P d l h.0 h.1)
  | inr f ↦ rw (f) (best_meets P best l b h.1)
]

-- There is an item.
abbrev pub IsGiven : List DistributionPackageInfo → Type 0
IsGiven [] = ⊥
IsGiven (d ∷ l) = Unit

module _ (P : DistributionPackageInfo → Type 0) where
  abbrev pub Good : List DistributionPackageInfo → Type 0
  Good l = AllMeet P l × IsGiven l

  pub no_binary_meets :
      (sdists : List DistributionPackageInfo) {r : List DistributionPackageInfo}
      → AllMeet P sdists
      → process_no_binary_mode sdists ≡ ok r
      → Good r
  unfolding process_no_binary_mode
  no_binary_meets [] h e = absurd (not_returned e)
  no_binary_meets (d ∷ sdists) h e =
      subst Good (ok_injective e) ((best_meets P d sdists h.0 h.1, tt), tt)

  pub prefer_binary_meets :
      (sdists wheels : List DistributionPackageInfo) {r : List DistributionPackageInfo}
      → AllMeet P sdists
      → AllMeet P wheels
      → process_prefer_binary_mode sdists wheels ≡ ok r
      → Good r
  unfolding process_prefer_binary_mode
  prefer_binary_meets sdists [] h k e = no_binary_meets sdists h e
  prefer_binary_meets [] (w ∷ wheels) h k e = subst Good (ok_injective e) (k, tt)
  prefer_binary_meets (d ∷ sdists) (w ∷ wheels) h k e =
      subst Good (ok_injective e)
        (AllMeet-append P (w ∷ wheels) _ k (best_meets P d sdists h.0 h.1, tt), tt)

  pub only_binary_meets :
      (wheels : List DistributionPackageInfo) {r : List DistributionPackageInfo}
      → AllMeet P wheels
      → process_only_binary_mode wheels ≡ ok r
      → Good r
  unfolding process_only_binary_mode
  only_binary_meets [] h e = absurd (not_returned e)
  only_binary_meets (w ∷ wheels) h e = subst Good (ok_injective e) (h, tt)
