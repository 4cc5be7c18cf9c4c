-- ===== src/Pip/Validate/Requirements.antt =====
-- hermeto/core/package_managers/pip/requirements.py: the requirements that pass
-- `validate_requirements`.
use cachi.Base.{Bool, true, false, List, [], ◌∷◌, ◌≡◌, refl, string_eq, arith, Bool-cases, inl, inr}
use cachi.Base.Text.{startswith}
use cachi.Errors.{Error, ok, err, ◌>>=◌, Result-cases, >>=-eq-ok, package_rejected}
use cachi.Pip.External.{ParsedUrl, External}
use cachi.Pip.Requirement.{Kind, pypi, url, vcs, PipRequirement, requirement_url}
use cachi.Pip.Validate.{
  git_ref_in_path, all_file_extensions, ends_with_any, is_pinned, has_one, validate_vcs,
  validate_url, validate_requirement, validate_requirements, check,
}
use cachi.Pip.Validate.Accepts.{
  AcceptableAs, AllAcceptable, git_ref_in_path-EndsInRef, pinned, one_hash,
}

module _ (lib : External) where
  accept_pypi : (r : PipRequirement) → is_pinned r.version_specs ≡ true → AcceptableAs lib pypi r
  accept_pypi r h = pinned r.version_specs h

  vcs_tests :
      (parsed : ParsedUrl)
      → validate_vcs lib parsed ≡ ok tt
      → (startswith parsed.scheme "git" ≡ true) × (git_ref_in_path parsed.path ≡ true)
  unfolding validate_vcs
  vcs_tests parsed h = ground arith

  accept_vcs :
      (r : PipRequirement)
      → (requirement_url r >>= λ link. lib.urlparse link >>= λ parsed. validate_vcs lib parsed)
        ≡ ok tt
      → AcceptableAs lib vcs r
  accept_vcs r h =
      let (link, found, rest) = >>=-eq-ok (requirement_url r) _ h in
      let (parsed, read, tests) = >>=-eq-ok (lib.urlparse link) (validate_vcs lib) rest in
      let (git, ref) = vcs_tests parsed tests in
      (link, parsed, found, read, git, git_ref_in_path-EndsInRef parsed.path ref)

  url_tests :
      (r : PipRequirement)
      → validate_url lib r ≡ ok tt
      → (has_one r.hashes ≡ true)
        × ((requirement_url r >>= λ link. lib.urlparse link) >>= (λ parsed.
              check (ends_with_any parsed.path all_file_extensions) (err package_rejected))
            ≡ ok tt)
  unfolding validate_url
  url_tests r h = elim (Bool-cases (has_one r.hashes)) [
    | inl one ↦ (one, (rw (one, validate_url) at h))
    | inr not_one ↦ absurd (wrong not_one)
  ]
    where
      wrong : has_one r.hashes ≡ false → ⊥
      wrong e = ground arith

  extension : (b : Bool) (e : Error) → check b (err e) ≡ ok tt → b ≡ true
  extension b e h = ground arith

  accept_url : (r : PipRequirement) → validate_url lib r ≡ ok tt → AcceptableAs lib url r
  accept_url r h =
      let (one, chain) = url_tests r h in
      let (digest, single) = one_hash r.hashes one in
      let (parsed, both, tested) =
        >>=-eq-ok (requirement_url r >>= λ link. lib.urlparse link) _ chain in
      let (link, found, read) = >>=-eq-ok (requirement_url r) (λ l. lib.urlparse l) both in
      (digest, link, parsed, single, found, read, extension _ package_rejected tested)

  validate_requirement-Acceptable :
      (k : Kind) (r : PipRequirement)
      → r.kind ≡ k
      → validate_requirement lib r ≡ ok tt
      → AcceptableAs lib k r
  unfolding validate_requirement
  validate_requirement-Acceptable pypi r e h =
      accept_pypi r (extension _ package_rejected (rw (e, validate_requirement) at h))
  validate_requirement-Acceptable vcs r e h = accept_vcs r (rw (e, validate_requirement) at h)
  validate_requirement-Acceptable url r e h = accept_url r (rw (e, validate_requirement) at h)

  -- Requirements that pass the validation are acceptable, each one.
  pub validate_requirements-AllAcceptable :
      (requirements : List PipRequirement)
      → validate_requirements lib requirements ≡ ok tt
      → AllAcceptable lib requirements
  unfolding validate_requirements
  validate_requirements-AllAcceptable [] h = tt
  validate_requirements-AllAcceptable (r ∷ requirements) h =
      elim (Result-cases (validate_requirement lib r)) [
        | inl (e, p) ↦ absurd (stopped e p)
        | inr (_, p) ↦ (
          validate_requirement-Acceptable r.kind r refl p,
          validate_requirements-AllAcceptable requirements (rw (p, validate_requirements) at h),
        )
      ]
    where
      stopped : (e : Error) → validate_requirement lib r ≡ err e → ⊥
      stopped e p = ground arith
