-- ===== src/Pip/Validate.antt =====
-- hermeto/core/package_managers/pip/requirements.py: `validate_requirements` and
-- `validate_requirements_hashes`.
pub mod Accepts
pub mod Requirements
use Prim.Native.String.{[] as ε, ◌∷◌ as ◌▹◌}
use cachi.Base.{
  ℕ, zero, suc, String, Char, Bool, true, false, not, ◌&&◌, ◌||◌, Option, none, some, List, [], ◌∷◌,
  ◌==◌, string_eq, char_eq, nat_eq, if◌then◌else◌, contains, leb, code,
}
use cachi.Base.Text.{startswith, endswith, partition, length}
use cachi.Errors.{
  Result, ok, err, ◌>>=◌, package_rejected, unsupported_feature, invalid_checksum, missing_checksum,
}
use cachi.Pip.External.{ParsedUrl, External}
use cachi.Pip.Requirement.{Kind, pypi, url, vcs, PipRequirement, requirement_url}

-- `[a-fA-F0-9]`
unfoldable pub is_hex : Char → Bool
is_hex c =
    (leb b'a' (code c) && leb (code c) b'f')
    || (leb b'A' (code c) && leb (code c) b'F')
    || (leb b'0' (code c) && leb (code c) b'9')

unfoldable pub all_hex : String → Bool
unfolding is_hex
all_hex ε = true
all_hex (c ▹ s) = is_hex c && all_hex s

-- `GIT_REF_IN_PATH.search(path)`: the pattern `@[a-fA-F0-9]{40}$`, found anywhere.
unfoldable pub git_ref_in_path : String → Bool
unfolding all_hex
git_ref_in_path ε = false
git_ref_in_path (c ▹ s) = (c == "@" && (length s == 40 && all_hex s)) || git_ref_in_path s

-- `ALL_FILE_EXTENSIONS`
abbrev pub all_file_extensions : List String
all_file_extensions = ".zip" ∷ ".tar.gz" ∷ ".tar.bz2" ∷ ".tar.xz" ∷ ".tar.Z" ∷ ".tar" ∷ ".whl" ∷ []

unfoldable pub ends_with_any : String → List String → Bool
ends_with_any path [] = false
ends_with_any path (ext ∷ exts) = endswith path ext || ends_with_any path exts

abbrev pub check : Bool → Result (Unit {0}) → Result (Unit {0})
check passes failure = if passes then ok tt else failure

-- `len(vspec) == 1 and vspec[0][0] in ("==", "===")`
unfoldable pub is_pinned : List (String × String) → Bool
is_pinned ((operator, version) ∷ []) = contains ("==" ∷ "===" ∷ []) operator
is_pinned _ = false

unfoldable pub has_one : List String → Bool
has_one (h ∷ []) = true
has_one _ = false

module _ (lib : External) where
  -- The branch for a `vcs` requirement, on the parsed URL.
  unfoldable pub validate_vcs : ParsedUrl → Result (Unit {0})
  unfolding git_ref_in_path
  validate_vcs parsed =
      if startswith parsed.scheme "git"
      then check (git_ref_in_path parsed.path) (err package_rejected)
      else err unsupported_feature

  -- The branch for a `url` requirement, from the test on the hashes on.
  unfoldable pub validate_url : PipRequirement → Result (Unit {0})
  unfolding has_one ends_with_any
  validate_url r =
      let link_path = requirement_url r >>= λ link. lib.urlparse link in
      if has_one r.hashes
      then (link_path >>= λ parsed.
          check (ends_with_any parsed.path all_file_extensions) (err package_rejected))
      else err invalid_checksum

  -- The body of the loop of `validate_requirements`.
  unfoldable pub validate_requirement : PipRequirement → Result (Unit {0})
  unfolding validate_vcs is_pinned validate_url
  validate_requirement r = elim r.kind [
    | pypi ↦ check (is_pinned r.version_specs) (err package_rejected)
    | vcs ↦ requirement_url r >>= λ link. lib.urlparse link >>= λ parsed. validate_vcs parsed
    | url ↦ validate_url r
  ]

  unfoldable pub validate_requirements : List PipRequirement → Result (Unit {0})
  unfolding validate_requirement
  validate_requirements [] = ok tt
  validate_requirements (r ∷ requirements) = elim (validate_requirement r) [
    | err e ↦ err e
    | ok _ ↦ validate_requirements requirements
  ]

-- The inner loop of `validate_requirements_hashes`.
unfoldable pub validate_digests : List String → Result (Unit {0})
unfolding partition
validate_digests [] = ok tt
validate_digests (h ∷ hashes) =
    let rest = validate_digests hashes in
    if (partition ":" h).1 == "" then err invalid_checksum else rest

is_empty : List String → Bool
is_empty [] = true
is_empty (h ∷ hashes) = false

unfoldable pub validate_requirements_hashes : List PipRequirement → Bool → Result (Unit {0})
unfolding validate_digests is_empty
validate_requirements_hashes [] require_hashes = ok tt
validate_requirements_hashes (r ∷ requirements) require_hashes =
    if require_hashes && is_empty r.hashes
    then err missing_checksum
    else elim (validate_digests r.hashes) [
      | err e ↦ err e
      | ok _ ↦ validate_requirements_hashes requirements require_hashes
    ]
