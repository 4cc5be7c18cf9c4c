-- ===== src/Checksum/Verify.antt =====
-- hermeto/core/checksum.py: when `must_match_any_checksum` accepts a file.
use mathlib.Core.List.{foldl}
use cachi.Base.{
  ℕ, String, Char, Bool, true, false, ◌&&◌, ◌||◌, List, [], ◌∷◌, ◌≡◌, refl, ap, ◌∙◌, ◌==◌,
  string_eq, string_ord, contains, arith, if◌then◌else◌, Bool-cases, inl, inr,
}
use cachi.Base.Members.{contains-set_add, AllMeet}
use cachi.Errors.{ok, err, checksum_verification_failed}
use cachi.Checksum.{
  ChecksumInfo, Hashlib, add_digest, group_by_algorithm, get_hexdigest, match_groups,
  must_match_any_checksum,
}

module _ {H : Type 0} (lib : Hashlib H) (digest : String → String) where
  -- Whether an expected checksum is the file's, by the digests of the file.
  abbrev pub matches : ChecksumInfo → Bool
  matches c = lib.guaranteed c.algorithm && c.hexdigest == digest c.algorithm

  abbrev pub any_matches : List ChecksumInfo → Bool
  any_matches [] = false
  any_matches (c ∷ checksums) = matches c || any_matches checksums

  any_group : List (String × List String) → Bool
  any_group [] = false
  any_group ((algorithm, digests) ∷ groups) =
      lib.guaranteed algorithm && contains digests (digest algorithm) || any_group groups

  any_group-add_digest :
      (groups : List (String × List String)) (c : ChecksumInfo)
      → any_group (add_digest groups c) ≡ (matches c || any_group groups)
  unfolding any_group add_digest
  any_group-add_digest [] c = ground arith
  any_group-add_digest ((algorithm, digests) ∷ groups) c = ground (
    arith,
    any_group-add_digest groups c,
    contains-set_add c.hexdigest digests (digest c.algorithm),
  )

  any_group-foldl :
      (groups : List (String × List String)) (checksums : List ChecksumInfo)
      → any_group (foldl add_digest groups checksums) ≡ (any_group groups || any_matches checksums)
  any_group-foldl groups [] = ground arith
  any_group-foldl groups (c ∷ checksums) =
      ground (arith, any_group-foldl (add_digest groups c) checksums, any_group-add_digest groups c)

  -- The digest of the file, for an algorithm of `hashlib`.
  abbrev pub HasDigest : List Char → ℕ → String → Type 0
  HasDigest content size algorithm =
      lib.guaranteed algorithm ≡ true
      → get_hexdigest lib content algorithm size ≡ ok (digest algorithm)

  -- The digests of the file, for the algorithms of the expected checksums.
  abbrev pub Digests : List Char → ℕ → List ChecksumInfo → Type 0
  Digests content size expected =
      AllMeet (λ (c : ChecksumInfo). HasDigest content size c.algorithm) expected

  abbrev GroupDigests : List Char → ℕ → List (String × List String) → Type 0
  GroupDigests content size [] = Unit
  GroupDigests content size ((algorithm, digests) ∷ groups) =
      HasDigest content size algorithm × GroupDigests content size groups

  add_digest-GroupDigests :
      (content : List Char) (size : ℕ) (groups : List (String × List String)) (c : ChecksumInfo)
      → GroupDigests content size groups
      → HasDigest content size c.algorithm
      → GroupDigests content size (add_digest groups c)
  unfolding add_digest
  add_digest-GroupDigests content size [] c h k = (k, tt)
  add_digest-GroupDigests content size ((algorithm, digests) ∷ groups) c h k =
      elim (Bool-cases (algorithm == c.algorithm)) [
        | inl t ↦ rw (t) (h.0, h.1)
        | inr f ↦ rw (f) (h.0, add_digest-GroupDigests content size groups c h.1 k)
      ]

  foldl-GroupDigests :
      (content : List Char) (size : ℕ) (groups : List (String × List String))
      (checksums : List ChecksumInfo)
      → GroupDigests content size groups
      → Digests content size checksums
      → GroupDigests content size (foldl add_digest groups checksums)
  foldl-GroupDigests content size groups [] h k = h
  foldl-GroupDigests content size groups (c ∷ checksums) h k =
      foldl-GroupDigests content size (add_digest groups c) checksums
        (add_digest-GroupDigests content size groups c h k.0) k.1

  match_groups-any_group :
      (content : List Char) (size : ℕ) (groups : List (String × List String))
      → GroupDigests content size groups
      → match_groups lib content size groups
        ≡ (if any_group groups then ok tt else err checksum_verification_failed)
  unfolding match_groups any_group
  match_groups-any_group content size [] h = refl
  match_groups-any_group content size ((algorithm, digests) ∷ groups) h =
      ground (arith, match_groups-any_group content size groups h.1, h.0)

  -- Where the file has a digest for each algorithm of `hashlib` that an expected checksum is of, the
  -- verification accepts exactly when one of the expected checksums is of such an algorithm and is
  -- the file's digest by it.
  pub must_match_any_checksum-any_matches :
      (content : List Char) (expected : List ChecksumInfo) (size : ℕ)
      → Digests content size expected
      → must_match_any_checksum lib content expected size
        ≡ (if any_matches expected then ok tt else err checksum_verification_failed)
  unfolding must_match_any_checksum group_by_algorithm any_group
  must_match_any_checksum-any_matches content expected size h =
      match_groups-any_group content size (foldl add_digest [] expected)
        (foldl-GroupDigests content size [] expected tt h)
      ∙ ap (λ b. if b then ok tt else err checksum_verification_failed)
          (any_group-foldl [] expected)
