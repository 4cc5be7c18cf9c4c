-- ===== src/Pip/Requirement.antt =====
-- hermeto/core/package_managers/pip/requirements.py: the class `PipRequirement`.
use mathlib.Core.List.{map}
use Prim.Native.String.{[] as ε, ◌∷◌ as ◌▹◌}
use cachi.Base.{
  String, ◌<>◌, Bool, false, not, ◌&&◌, ◌||◌, Option, none, some, List, [], ◌∷◌, ◌++◌, ◌==◌,
  string_eq, char_eq, string_ord, if◌then◌else◌, contains,
}
use cachi.Base.Sets.{set_of}
use cachi.Base.Text.{startswith, cut, split, split_on, strip, lower, join}
use cachi.Errors.{
  Result, ok, err, ◌>>=◌, unexpected_format, unsupported_feature, value_error, index_error,
}

pub data Kind : Type 0 where
  pypi url vcs : Kind

pub record PipRequirement : Type 0 where
  pub package_name : String
  pub raw_package : String
  pub extras : List String
  pub version_specs : List (String × String)
  pub environment_marker : Option String
  pub hashes : List String
  pub qualifiers : List (String × String)
  pub kind : Kind
  pub download_line : String
  pub options : List String

third : List String → Result String
third (a ∷ b ∷ c ∷ parts) = ok c
third _ = err index_error

-- The property `url`; the cached value is the same at each call.
unfoldable pub requirement_url : PipRequirement → Result String
unfolding third split
requirement_url r = elim r.kind [ pypi ↦ err value_error | _ ↦ third (split r.download_line) ]

-- `__str__`
unfoldable pub requirement_str : PipRequirement → String
requirement_str r = join " " (r.options ++ (r.download_line ∷ map (λ h. "--hash=" <> h) r.hashes))

-- `url or ""`, a truth test on an optional text.
abbrev text_or_empty : Option String → String
text_or_empty none = ""
text_or_empty (some s) = s

-- `set(options) - {"-e", "--editable"}` as a list; Python leaves its order open, here it ascends.
without_editable : List String → List String
without_editable [] = []
without_editable (o ∷ options) =
    let rest = without_editable options in
    if contains ("-e" ∷ "--editable" ∷ []) o then rest else o ∷ rest

-- The download line of a copy that has a new URL.
unfoldable pub direct_line : PipRequirement → String → String
direct_line r link =
    let qualifiers_line = join "&" (map (λ (key, value). key <> ("=" <> value)) r.qualifiers) in
    let target = if qualifiers_line == "" then link else link <> ("#" <> qualifiers_line) in
    let marker = text_or_empty r.environment_marker in
    join " " (r.raw_package ∷ "@" ∷ target ∷ (if marker == "" then [] else ";" ∷ marker ∷ []))

or_list : Option (List String) → List String → List String
or_list (some (h ∷ hs)) own = h ∷ hs
or_list _ own = own

-- `copy`
unfoldable pub copy : PipRequirement → Option String → Option (List String) → PipRequirement
unfolding direct_line or_list without_editable
copy r link hashes =
    let target = text_or_empty link in
    if target == "" then record r { hashes = or_list hashes r.hashes } else record r {
      extras = [];
      version_specs = [];
      hashes = or_list hashes r.hashes;
      kind = Kind.url;
      download_line = direct_line r target;
      options = set_of (without_editable r.options);
    }

-- `HAS_NAME_IN_DIRECT_ACCESS_REQUIREMENT`, the pattern `@.+://`, found anywhere.
scheme_ahead : String → Bool
scheme_ahead ε = false
scheme_ahead (c ▹ s) = not (c == "\n") && (startswith s "://" || scheme_ahead s)

unfoldable pub has_name : String → Bool
unfolding scheme_ahead
has_name ε = false
has_name (c ▹ s) = (c == "@" && scheme_ahead s) || has_name s

abbrev url_schemes : List String
url_schemes = "http" ∷ "https" ∷ "ftp" ∷ []

abbrev vcs_schemes : List String
vcs_schemes =
    "bzr" ∷ "bzr+ftp" ∷ "bzr+http" ∷ "bzr+https" ∷ "git" ∷ "git+ftp" ∷ "git+http" ∷ "git+https"
    ∷ "hg" ∷ "hg+ftp" ∷ "hg+http" ∷ "hg+https" ∷ "svn" ∷ "svn+ftp" ∷ "svn+http" ∷ "svn+https" ∷ []

unfoldable pub scheme_kind : String → Result Kind
scheme_kind scheme =
    if contains url_schemes scheme
    then ok url
    else if contains vcs_schemes scheme
    then ok vcs
    else err unsupported_feature

-- `scheme_parts`, of which there may be two, and the last.
last_of_two : List String → Result String
last_of_two (scheme ∷ []) = ok scheme
last_of_two (name ∷ scheme ∷ []) = ok scheme
last_of_two _ = err unexpected_format

-- `_assess_direct_access_requirement`; `pypi` is its `None`.
unfoldable pub assess_direct_access_requirement : String → Result Kind
unfolding cut split_on last_of_two lower strip scheme_kind
assess_direct_access_requirement line = elim (cut ":" line) [
  | none ↦ ok pypi
  | some (start, _) ↦
      last_of_two (split_on "@" start) >>= λ scheme. scheme_kind (strip (lower scheme))
]
