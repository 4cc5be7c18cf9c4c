-- ===== src/Gomod/Ranked.antt =====
-- hermeto/core/package_managers/gomod.py: the versions of tags, and a round of `_get_highest_semver_tag`.
use cachi.Base.{
  ℕ, String, Option, none, some, ◌==◌, string_eq, nat_eq, if◌then◌else◌, ◌≡◌, inl, inr, Bool-cases,
}
use cachi.Base.Text.{startswith}
use cachi.Errors.{Error, value_error, Result, ok, err, ok_injective, not_returned}
use cachi.Gomod.Tags.{
  SemanticVersions, get_semantic_version_from_tag, prefix_of, Highest, better, consider,
}

module _ (lib : SemanticVersions) (subpath : String) (major_version : ℕ) where
  open lib use {Version, order, major}

  of_major : Result Version → Option Version
  of_major (err e) = none
  of_major (ok v) = if major v == major_version then some v else none

  -- The version of a tag of the module, with its major version.
  unfoldable pub version_in : String → Option Version
  unfolding of_major
  version_in tag =
      if startswith tag (prefix_of lib subpath)
      then of_major (get_semantic_version_from_tag lib subpath tag)
      else none

  unfoldable pub advance : Highest lib → String → Option Version → Highest lib
  advance highest tag none = highest
  advance highest tag (some v) = better lib highest tag v

  consider-err :
      (highest : Highest lib) (tag : String) (e : Error) {found : Highest lib}
      → consider lib major_version highest tag (err e) ≡ ok found
      → highest ≡ found
  consider-err highest tag value_error h = ok_injective h
  consider-err highest tag _ h = absurd (not_returned h)

  consider-advance :
      (highest : Highest lib) (tag : String) (parsed : Result Version) {found : Highest lib}
      → consider lib major_version highest tag parsed ≡ ok found
      → advance highest tag (of_major parsed) ≡ found
  unfolding advance of_major
  consider-advance highest tag (err e) h = consider-err highest tag e h
  consider-advance highest tag (ok v) h = elim (Bool-cases (major v == major_version)) [
    | inl t ↦ rw (t) (ok_injective (rw (t) at h))
    | inr f ↦ rw (f) (ok_injective (rw (f) at h))
  ]

  pub step-advance :
      (highest : Highest lib) (tag : String) {found : Highest lib}
      → (if startswith tag (prefix_of lib subpath)
          then consider lib major_version highest tag
              (get_semantic_version_from_tag lib subpath tag)
          else ok highest)
        ≡ ok found
      → advance highest tag (version_in tag) ≡ found
  unfolding version_in advance
  step-advance highest tag h = elim (Bool-cases (startswith tag (prefix_of lib subpath))) [
    | inl t ↦ rw (t) (unfold advance in consider-advance highest tag _ (rw (t) at h))
    | inr f ↦ rw (f) (ok_injective (rw (f) at h))
  ]
