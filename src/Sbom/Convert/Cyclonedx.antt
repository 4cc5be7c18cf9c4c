-- ===== src/Sbom/Convert/Cyclonedx.antt =====
-- hermeto/core/models/sbom.py: `SPDXSbom.to_cyclonedx`.
use mathlib.Core.List.{map}
use Prim.Native.String.{[] as ε, ◌∷◌ as ◌▹◌}
use cachi.Base.{
  ℕ, zero, suc, ◌-◌, String, Bool, true, ◌&&◌, Option, none, some, List, [], ◌∷◌, ◌++◌, ◌==◌,
  string_eq, char_eq, option_eq, string_ord, if◌then◌else◌,
}
use cachi.Base.Text.{startswith, endswith, split_on, strip, length}
use cachi.Errors.{Result, ok, err, ◌>>=◌, value_error}
use cachi.Properties.{
  PropertyEnum, bundler_package_binary, npm_package_bundled, npm_package_development, found_by,
  missing_hash_in_file, pip_package_binary, pip_package_build_dependency, rpm_modularity_label,
  rpm_summary, enum_value, Property,
}
use cachi.Sbom.Component.{ExternalReference, Component, library, validate}
use cachi.Sbom.Document.{sbom_add, Tool, Sbom, make_sbom}
use cachi.Sbom.Spdx.{PackageAnnotation, SpdxPackage, extract_purls}
use cachi.Sbom.Relations.{SpdxSbom}
use cachi.Sbom.Convert.{Codec}

-- What `replace(t, "")` leaves of a text, where `skip` characters of an occurrence are still ahead.
unfoldable pub remove_from : ℕ → String → String → String
remove_from skip t ε = ε
remove_from (suc skip) t (c ▹ s) = remove_from skip t s
remove_from zero t (c ▹ s) =
    let removed = remove_from (length t - 1) t s in
    let kept = remove_from zero t s in if startswith (c ▹ s) t then removed else c ▹ kept

-- The loop over the creators, with the name and the vendor that are read.
unfoldable pub read_tools : Option String → Option String → List String → List Tool
unfolding remove_from startswith
read_tools name vendor [] = []
read_tools name vendor (creator ∷ creators) =
    let organization = startswith creator "Organization:" in
    let new_vendor =
      if organization then some (strip (remove_from zero "Organization:" creator)) else vendor in
    let new_name =
      if organization
      then name
      else if startswith creator "Tool:"
      then some (strip (remove_from zero "Tool:" creator))
      else name in
    elim new_name [
      | none ↦ read_tools none new_vendor creators
      | some n ↦ elim new_vendor [
        | none ↦ read_tools (some n) none creators
        | some v ↦ record { vendor = v; name = n } ∷ read_tools none none creators
      ]
    ]

-- `PropertyEnum(value)`, where `app` is `APP_NAME`.
unfoldable pub enum_of_value : String → String → Result PropertyEnum
unfolding enum_value
enum_of_value app value =
    if value == enum_value app bundler_package_binary
    then ok bundler_package_binary
    else if value == enum_value app npm_package_bundled
    then ok npm_package_bundled
    else if value == enum_value app npm_package_development
    then ok npm_package_development
    else if value == enum_value app found_by
    then ok found_by
    else if value == enum_value app missing_hash_in_file
    then ok missing_hash_in_file
    else if value == enum_value app pip_package_binary
    then ok pip_package_binary
    else if value == enum_value app pip_package_build_dependency
    then ok pip_package_build_dependency
    else if value == enum_value app rpm_modularity_label
    then ok rpm_modularity_label
    else if value == enum_value app rpm_summary
    then ok rpm_summary
    else err value_error

abbrev pub proxy_reference : String → ExternalReference
proxy_reference url = record { url = url; type = "distribution"; comment = some "proxy URL" }

-- The references that a package's `sourceInfo` stands for.
abbrev pub references_of : Option String → Option (List ExternalReference)
references_of none = none
references_of (some source_info) = some (map proxy_reference (split_on ";" source_info))

module _ (app : String) (codec : Codec) where
  -- The property of an annotation.
  unfoldable pub read_annotation : PackageAnnotation → Result Property
  read_annotation a =
      if endswith a.annotator ":jsonencoded"
      then (codec.loads a.comment >>= λ (name, value).
          enum_of_value app name >>= λ n. ok (record { name = n; value = value }))
      else (enum_of_value app a.annotator >>= λ n. ok (record { name = n; value = a.comment }))

  unfoldable pub read_annotations : List PackageAnnotation → Result (List Property)
  unfolding read_annotation
  read_annotations [] = ok []
  read_annotations (a ∷ annotations) =
      let rest = read_annotations annotations in
      read_annotation a >>= λ p. rest >>= λ properties. ok (p ∷ properties)

  unfoldable pub component_of : SpdxPackage → List Property → String → Component
  unfolding validate
  component_of p properties purl = validate app (record {
    bom_ref = "";
    name = p.name;
    purl = purl;
    version = p.version_info;
    properties = properties;
    type = library;
    external_references = references_of p.source_info;
    pedigree = none;
  })

  abbrev no_version : Option String → Bool
  no_version none = true
  no_version (some v) = v == ""

  -- The body of the loop over the packages.
  unfoldable pub package_components : SpdxPackage → Result (List Component)
  unfolding read_annotations component_of extract_purls
  package_components p = read_annotations p.annotations >>= λ properties.
      elim (extract_purls p.external_refs) [
        | [] ↦
            if p.name == "" && no_version p.version_info
            then ok []
            else ok (component_of p properties "" ∷ [])
        | u ∷ us ↦ ok (map (component_of p properties) (u ∷ us))
      ]

  unfoldable pub all_components : List SpdxPackage → Result (List Component)
  unfolding package_components
  all_components [] = ok []
  all_components (p ∷ packages) =
      let rest = all_components packages in
      package_components p >>= λ cs. rest >>= λ components. ok (cs ++ components)

  unfoldable pub to_cyclonedx : SpdxSbom → Result Sbom
  unfolding all_components read_tools make_sbom
  to_cyclonedx s = all_components s.packages >>= λ components.
      ok (record (make_sbom app [] components) {
        tools = read_tools none none s.creation_info.creators;
      })

  -- The addition of a document in the SPDX form to one in the CycloneDX form.
  unfoldable pub sbom_add_spdx : Sbom → SpdxSbom → Result Sbom
  unfolding to_cyclonedx sbom_add
  sbom_add_spdx a b = to_cyclonedx b >>= λ other. ok (sbom_add app a other)
