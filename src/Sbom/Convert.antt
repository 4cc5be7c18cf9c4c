-- ===== src/Sbom/Convert.antt =====
-- hermeto/core/models/sbom.py: `Sbom.to_spdx`.
pub mod Back
pub mod Cyclonedx
use mathlib.Core.List.{map}
use Prim.Native.String.{[] as ε, ◌∷◌ as ◌▹◌}
use cachi.Base.{
  ℕ, zero, suc, ◌-◌, String, ◌<>◌, Char, Bool, true, false, not, ◌&&◌, ◌||◌, Option, none, some,
  List, [], ◌∷◌, ◌++◌, ◌==◌, string_eq, char_eq, option_eq, string_ord, if◌then◌else◌, contains,
  leb, code,
}
use cachi.Base.Sort.{sort_by}
use cachi.Base.Text.{join, startswith, endswith, split_on, strip, length}
use cachi.Errors.{Result, ok, err, ◌>>=◌, value_error}
use cachi.Properties.{
  PropertyEnum, bundler_package_binary, npm_package_bundled, npm_package_development, found_by,
  missing_hash_in_file, pip_package_binary, pip_package_build_dependency, rpm_modularity_label,
  rpm_summary, enum_value, Property,
}
use cachi.Sbom.Component.{ExternalReference, Component, library, validate}
use cachi.Sbom.Document.{Annotation, Tool, Sbom, make_sbom}
use cachi.Sbom.Spdx.{
  ExternalRef, PackageAnnotation, SpdxPackage, PackageUrls, make_package, extract_purls,
}
use cachi.Sbom.Packages.{deduplicate_spdx_packages}
use cachi.Sbom.Relations.{spdx_add, SpdxRelation, CreationInfo, SpdxSbom, document_id}

-- `json`, on the texts that the conversions write and read, and the hash of a package. `loads` gives
-- the fields `name` and `value`, and raises a `ValueError` on what is no JSON.
pub record Codec : Type 0 where
  pub dumps : String → String → String
  pub loads : String → Result (String × String)
  pub package_hash : String → Option String → String → String

-- `[0-9a-zA-Z\.\-]`
unfoldable pub is_spdx_char : Char → Bool
is_spdx_char c =
    (leb b'0' (code c) && leb (code c) b'9')
    || (leb b'a' (code c) && leb (code c) b'z')
    || (leb b'A' (code c) && leb (code c) b'Z')
    || c == "."
    || c == "-"

unfoldable pub sanitize_spdxid : String → String
unfolding is_spdx_char
sanitize_spdxid ε = ε
sanitize_spdxid (c ▹ s) = (if is_spdx_char c then c else "-") ▹ sanitize_spdxid s

abbrev pub document_root : String
document_root = "SPDXRef-DocumentRoot-File-"

abbrev pub root_package : SpdxPackage
root_package = record {
  spdx_id = document_root;
  name = "";
  version_info = some "";
  external_refs = [];
  annotations = [];
  download_location = "NOASSERTION";
  source_info = none;
}

abbrev pub root_relationship : SpdxRelation
root_relationship = record {
  element_id = document_id;
  comment = some "";
  related = document_root;
  relationship_type = "DESCRIBES";
}

unfoldable pub link_to_root : List SpdxPackage → List SpdxRelation
link_to_root [] = []
link_to_root (p ∷ packages) =
    let rest = link_to_root packages in
    if p.spdx_id == document_root
    then rest
    else record {
      element_id = document_root;
      comment = some "";
      related = p.spdx_id;
      relationship_type = "CONTAINS";
    }
      ∷ rest

abbrev pub is_proxy : ExternalReference → Bool
is_proxy r = r.type == "distribution" && r.comment == some "proxy URL"

unfoldable pub proxy_urls : List ExternalReference → List String
proxy_urls [] = []
proxy_urls (r ∷ refs) = let rest = proxy_urls refs in if is_proxy r then r.url ∷ rest else rest

-- `source_infos`
unfoldable pub source_infos : Component → List String
unfolding proxy_urls
source_infos c = elim c.external_references [
  | none ↦ []
  | some refs ↦ sort_by (λ (u : String). u) (proxy_urls refs)
]

abbrev pub or_none : String → Option String
or_none s = if s == "" then none else some s

unfoldable pub creators_of : List Tool → List String
creators_of [] = []
creators_of (t ∷ tools) = ("Tool: " <> t.name) ∷ ("Organization: " <> t.vendor) ∷ creators_of tools

-- `erefdict`, on the package URL.
abbrev pub purl_ref : String → ExternalRef
purl_ref purl = record {
  reference_locator = purl;
  reference_type = "purl";
  reference_category = "PACKAGE-MANAGER";
}

-- The clock is read as `now`, once.
module _ (app now : String) (codec : Codec) where
  unfoldable pub base_annotation : String → PackageAnnotation
  base_annotation comment = record {
    annotator = "Tool: " <> (app <> ":jsonencoded");
    annotation_date = now;
    annotation_type = "OTHER";
    comment = comment;
  }

  unfoldable pub subject_annotations : List Annotation → String → List PackageAnnotation
  unfolding base_annotation
  subject_annotations [] bom_ref = []
  subject_annotations (a ∷ annotations) bom_ref =
      let rest = subject_annotations annotations bom_ref in
      if contains a.subjects bom_ref then base_annotation a.text ∷ rest else rest

  unfoldable pub property_annotation : Property → PackageAnnotation
  unfolding base_annotation
  property_annotation p = base_annotation (codec.dumps (enum_value app p.name) p.value)

  -- `generate_package_annotations`
  unfoldable pub generate_package_annotations :
      List Annotation → List Property → String → List PackageAnnotation
  unfolding subject_annotations property_annotation
  generate_package_annotations annotations properties bom_ref =
      subject_annotations annotations bom_ref ++ map property_annotation properties

  -- The package of a component, before its validators.
  unfoldable pub package_of : List Annotation → Component → SpdxPackage
  unfolding sanitize_spdxid source_infos generate_package_annotations
  package_of annotations c =
      let package_hash = codec.package_hash c.name c.version c.purl in
      let human_readable_id : String = elim c.version [
        | none ↦ c.name
        | some v ↦ if v == "" then c.name else c.name <> ("-" <> v)
      ] in
      record {
        spdx_id =
            sanitize_spdxid ("SPDXRef-Package-" <> (human_readable_id <> ("-" <> package_hash)));
        name = c.name;
        version_info = c.version;
        external_refs = purl_ref c.purl ∷ [];
        annotations = generate_package_annotations annotations c.properties c.bom_ref;
        download_location = "NOASSERTION";
        source_info = or_none (join ";" (source_infos c));
      }

  unfoldable pub libs_to_packages :
      PackageUrls → List Annotation → List Component → Result (List SpdxPackage)
  unfolding package_of make_package
  libs_to_packages lib annotations [] = ok []
  libs_to_packages lib annotations (c ∷ libraries) =
      let rest = libs_to_packages lib annotations libraries in
      make_package lib (package_of annotations c) >>= λ p. rest >>= λ packages. ok (p ∷ packages)

  unfoldable pub to_spdx : PackageUrls → String → Sbom → Result SpdxSbom
  unfolding libs_to_packages link_to_root deduplicate_spdx_packages creators_of
  to_spdx lib doc_namespace s = do
    packages ← libs_to_packages lib s.annotations s.components
    unique_packages ← deduplicate_spdx_packages lib (root_package ∷ packages)
    ok (record {
      name = "";
      document_namespace = doc_namespace;
      creation_info = record { creators = creators_of s.tools; created = now };
      packages = unique_packages;
      relationships = root_relationship ∷ link_to_root (root_package ∷ packages);
    })

  -- The addition of a document in the CycloneDX form to one in the SPDX form.
  unfoldable pub spdx_add_sbom : PackageUrls → SpdxSbom → Sbom → Result SpdxSbom
  unfolding to_spdx spdx_add
  spdx_add_sbom lib a b = to_spdx lib "NOASSERTION" b >>= λ other. spdx_add lib a other
