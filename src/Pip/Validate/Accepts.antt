-- ===== src/Pip/Validate/Accepts.antt =====
-- hermeto/core/package_managers/pip/requirements.py: what an acceptable requirement is.
use Prim.Native.String.{[] as ε, ◌∷◌ as ◌▹◌}
use text.Mathlib.TextLemmas.{nil-append, cons-append}
use cachi.Base.{
  String, ◌<>◌, Char, Bool, true, ◌&&◌, List, [], ◌∷◌, ◌≡◌, refl, sym, ap, ◌∙◌, ◌==◌, string_eq,
  char_eq, nat_eq, arith, Bool-cases, inl, inr, ◌⊎◌,
}
use cachi.Base.Text.{startswith, length}
use cachi.Errors.{ok}
use cachi.Pip.External.{ParsedUrl, External}
use cachi.Pip.Requirement.{Kind, pypi, url, vcs, PipRequirement, requirement_url}
use cachi.Pip.Validate.{
  all_hex, git_ref_in_path, all_file_extensions, ends_with_any, is_pinned, has_one,
}

-- A path that ends in `@` and 40 hexadecimal digits.
pub record EndsInRef (path : String) : Type 0 where
  pub repository : String
  pub ref : String
  pub splits : path ≡ repository <> ("@" ▹ ref)
  pub full_length : length ref ≡ 40
  pub hexadecimal : all_hex ref ≡ true

at_sign : (c : Char) (b : Bool) → (c == "@" && b) ≡ true → c ≡ "@"
at_sign c b h = ground arith

-- A path with a match of the pattern for git refs ends in `@` and a full-length hexadecimal ref.
pub git_ref_in_path-EndsInRef : (path : String) → git_ref_in_path path ≡ true → EndsInRef path
unfolding git_ref_in_path
git_ref_in_path-EndsInRef ε h = absurd (ground arith)
git_ref_in_path-EndsInRef (c ▹ s) h =
    elim (Bool-cases (c == "@" && (length s == 40 && all_hex s))) [
      | inl here ↦ record {
        repository = ε;
        ref = s;
        splits = ap (λ (d : Char). d ▹ s) (at_sign c _ here) ∙ sym (nil-append ("@" ▹ s));
        full_length = ground arith;
        hexadecimal = ground arith;
      }
      | inr no_match ↦
          let later : EndsInRef s = git_ref_in_path-EndsInRef s (ground arith) in
          record {
            repository = c ▹ later.repository;
            ref = later.ref;
            splits =
                ap (λ (t : String). c ▹ t) later.splits ∙ sym (cons-append c later.repository _);
            full_length = later.full_length;
            hexadecimal = later.hexadecimal;
          }
    ]

-- What a requirement must be for each kind.
abbrev pub AcceptableAs : External → Kind → PipRequirement → Type 0
AcceptableAs lib pypi r =
    (operator : String) × (version : String) × (r.version_specs ≡ (operator, version) ∷ [])
    × ((operator ≡ "==") ⊎ (operator ≡ "==="))
AcceptableAs lib vcs r =
    (link : String) × (parsed : ParsedUrl) × (requirement_url r ≡ ok link)
    × (lib.urlparse link ≡ ok parsed)
    × (startswith parsed.scheme "git" ≡ true)
    × EndsInRef parsed.path
AcceptableAs lib url r =
    (h : String) × (link : String) × (parsed : ParsedUrl) × (r.hashes ≡ h ∷ [])
    × (requirement_url r ≡ ok link)
    × (lib.urlparse link ≡ ok parsed)
    × (ends_with_any parsed.path all_file_extensions ≡ true)

-- A PyPI requirement is pinned to one version; a VCS requirement is of git, at a full-length ref; a
-- URL requirement has one hash, and a known file extension.
abbrev pub Acceptable : External → PipRequirement → Type 0
Acceptable lib r = AcceptableAs lib r.kind r

abbrev pub AllAcceptable : External → List PipRequirement → Type 0
AllAcceptable lib [] = Unit
AllAcceptable lib (r ∷ requirements) = Acceptable lib r × AllAcceptable lib requirements

pub pinned :
    (specs : List (String × String))
    → is_pinned specs ≡ true
    → (operator : String) × (version : String) × (specs ≡ (operator, version) ∷ [])
      × ((operator ≡ "==") ⊎ (operator ≡ "==="))
unfolding is_pinned
pinned [] h = absurd (ground arith)
pinned ((operator, version) ∷ []) h = (operator, version, refl, ground arith)
pinned (a ∷ b ∷ specs) h = absurd (ground arith)

pub one_hash : (hashes : List String) → has_one hashes ≡ true → (h : String) × (hashes ≡ h ∷ [])
unfolding has_one
one_hash [] e = absurd (ground arith)
one_hash (h ∷ []) e = (h, refl)
one_hash (h ∷ k ∷ hashes) e = absurd (ground arith)
