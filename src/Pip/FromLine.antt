-- ===== src/Pip/FromLine.antt =====
-- hermeto/core/package_managers/pip/requirements.py: `PipRequirement.from_line`.
use mathlib.Core.List.{foldl}
use cachi.Base.{String, Option, none, some, List, [], ◌∷◌, ◌==◌, string_eq, char_eq, if◌then◌else◌}
use cachi.Base.Text.{cut, cut_text, split_on, strip, join}
use cachi.Base.Dict.{set_item}
use cachi.Errors.{Result, ok, err, ◌>>=◌, unexpected_format, unsupported_feature}
use cachi.Pip.External.{Req, External}
use cachi.Pip.Options.{split_hashes_from_options}
use cachi.Pip.Requirement.{Kind, pypi, PipRequirement, has_name, assess_direct_access_requirement}

-- The package name and the qualifiers, as the loop over the sections of the fragment changes them.
pub record Sections : Type 0 where
  pub package_name : Option String
  pub qualifiers : List (String × String)

abbrev cut_or : Option (String × String) → Option String → String → Option String × String
cut_or none name rest = (name, rest)
cut_or (some (a, b)) name rest = (some a, b)

module _ (lib : External) where
  unfoldable pub read_section : Sections → String → Sections
  read_section s section = elim (cut "=" section) [
    | none ↦ s
    | some (attr, text) ↦
        let value = lib.unquote text in
        record {
          package_name = if attr == "egg" then some value else s.package_name;
          qualifiers = set_item attr value s.qualifiers;
        }
  ]

  unfoldable pub read_fragment : String → Option String → Sections
  unfolding read_section
  read_fragment fragment name =
      let before : Sections = record { package_name = name; qualifiers = [] } in
      if fragment == "" then before else foldl read_section before (split_on "&" fragment)

  -- The parts are joined at the end of `_adjust_direct_access_requirement`.
  unfoldable pub direct_parts :
      String → Option String → Sections → Result (String × List (String × String))
  direct_parts target marker s = elim s.package_name [
    | none ↦ err unsupported_feature
    | some name ↦
        if name == ""
        then err unsupported_feature
        else ok (
          join " " (
              strip name
              ∷ "@"
              ∷ strip target
              ∷ elim marker [ none ↦ [] | some m ↦ (if m == "" then [] else ";" ∷ strip m ∷ []) ]),
          s.qualifiers,
        )
  ]

  -- The name in front of `@`, if there is one, and the rest of the line.
  unfoldable pub split_name : String → Option String × String
  unfolding has_name cut
  split_name line = if has_name line then cut_or (cut "@" line) none line else (none, line)

  -- The URL and what stands behind a semicolon and a space.
  unfoldable pub split_marker : String → String × Option String
  unfolding cut_text
  split_marker target = elim (cut_text "; " target) [
    | none ↦ (target, none)
    | some (before, marker) ↦ (before, some marker)
  ]

  -- `_adjust_direct_access_requirement`
  unfoldable pub adjust_direct_access_requirement :
      String → Result (String × List (String × String))
  unfolding split_name split_marker read_fragment direct_parts
  adjust_direct_access_requirement line =
      let (name, rest) = split_name line in
      let (target, marker) = split_marker rest in
      lib.urlparse target >>= λ parsed.
      direct_parts target marker (read_fragment parsed.fragment name)

  -- The end of `from_line`, once the line is parsed.
  unfoldable pub assemble :
      Kind → String → List (String × String) → List String → Req → PipRequirement
  assemble kind line qualifiers options req =
      let (hashes, rest) = split_hashes_from_options options in
      record {
        package_name = lib.canonicalize_name req.name;
        raw_package = req.name;
        extras = req.extras;
        version_specs = req.specifier;
        environment_marker = elim req.marker [ none ↦ none | some marker ↦ some marker ];
        hashes = hashes;
        qualifiers = qualifiers;
        kind = kind;
        download_line = line;
        options = rest;
      }

  unfoldable pub parse_line :
      Kind → List String → String × List (String × String) → Result PipRequirement
  unfolding assemble
  parse_line kind options (line, qualifiers) = elim (lib.parse line) [
    | none ↦ err unexpected_format
    | some req ↦ ok (assemble kind line qualifiers options req)
  ]

  -- `from_line`
  unfoldable pub from_line : String → List String → Result PipRequirement
  unfolding parse_line adjust_direct_access_requirement
  from_line line options = do
    kind ← assess_direct_access_requirement line
    adjusted ← elim kind [ pypi ↦ ok (line, []) | _ ↦ adjust_direct_access_requirement line ]
    parse_line kind options adjusted
