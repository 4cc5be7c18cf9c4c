-- ===== src/Tests/Spdx.antt =====
-- Runs and instances for the SPDX documents of hermeto/core/models/sbom.py.
use Prim.Native.String.{[] as ε, ◌∷◌ as ◌▹◌}
use cachi.Base.{
  inl, inr, String, ◌<>◌, Bool, true, false, none, some, List, [], ◌∷◌, ◌++◌, ◌≡◌, refl, string_eq,
  string_ord, nat_eq, list_ord, ◌||◌, char_eq, option_eq, ◌==◌, if◌then◌else◌, contains, arith,
}
use cachi.Base.Text.{length, has_char, endswith}
use cachi.Errors.{Error, Result, ok, err, ◌>>=◌, value_error}
use cachi.Properties.{
  PropertyEnum, bundler_package_binary, npm_package_bundled, npm_package_development, found_by,
  missing_hash_in_file, pip_package_binary, pip_package_build_dependency, rpm_modularity_label,
  rpm_summary, enum_value,
}
use cachi.Sbom.Component.{Component, library, validate}
use cachi.Sbom.Document.{Annotation}
use cachi.Sbom.Spdx.{ExternalRef, SpdxPackage, PackageUrls, ref_eq, ref_ord, annotation_ord}
use cachi.Sbom.Relations.{
  SpdxRelation, relation_eq, SpdxSbom, retarget_relations, retarget_and_prune_relationships,
  non_root_packages, spdx_add,
}
use cachi.Sbom.Relations.Retarget.{AllMoved, retarget_relations-AllMoved}
use cachi.Sbom.Relations.Sum.{NoDup, has_ref, spdx_add-members}
use cachi.Sbom.Convert.{Codec, source_infos, package_of, purl_ref}
use cachi.Sbom.Convert.Cyclonedx.{enum_of_value, package_components}
use cachi.Sbom.Convert.Back.{
  Readable, proxies, package_components-package_of, package_components-annotation,
}

-- A library for package URLs where the name is the whole text.
abbrev sample_lib : PackageUrls
sample_lib = record {
  urlparse = λ s.
      ok (record { scheme = "pkg"; netloc = ""; path = s; params = ""; query = ""; fragment = "" });
  from_string = λ s. ok (record {
    type = "pypi";
    namespace = none;
    name = s;
    version = none;
    qualifiers = [];
    subpath = none;
  });
  hash_sum = λ purls. elim purls [ [] ↦ 0 | p ∷ _ ↦ length p.name ];
  hash_texts = λ _. 0;
}

abbrev relation : String → String → String → SpdxRelation
relation a kind b = record { element_id = a; comment = none; related = b; relationship_type = kind }

abbrev spdx_package : String → List ExternalRef → SpdxPackage
spdx_package id refs = record {
  spdx_id = id;
  name = id;
  version_info = none;
  external_refs = refs;
  annotations = [];
  download_location = "NOASSERTION";
  source_info = none;
}

abbrev document : String → List ExternalRef → SpdxSbom
document root refs = record {
  name = "";
  document_namespace = "n";
  creation_info = record { creators = []; created = "2024" };
  packages = spdx_package root [] ∷ spdx_package "p" refs ∷ [];
  relationships = relation "SPDXRef-DOCUMENT" "DESCRIBES" root ∷ relation root "CONTAINS" "p" ∷ [];
}

retarget_relations_example : AllMoved "a" "b" (
    retarget_relations "a" "b" (
      relation "SPDXRef-DOCUMENT" "DESCRIBES" "a"
      ∷ relation "a" "CONTAINS" "p"
      ∷ relation "q" "DEPENDS_ON" "a"
      ∷ []))
unfolding string_eq
retarget_relations_example = retarget_relations-AllMoved "a" "b" _ refl

abbrev one_ref : List ExternalRef
one_ref = purl_ref "pkg:pypi/x" ∷ []

abbrev two_refs : List ExternalRef
two_refs = purl_ref "pkg:pypi/y" ∷ purl_ref "pkg:pypi/x" ∷ []

-- The packages of both documents have one key; the second's relations move to the first's root.
abbrev sum : SpdxSbom
sum = record (document "a" one_ref) {
  packages =
      spdx_package "a" []
      ∷ spdx_package "p" (purl_ref "pkg:pypi/x" ∷ purl_ref "pkg:pypi/y" ∷ [])
      ∷ [];
}

sum_of : spdx_add sample_lib (document "a" one_ref) (document "b" two_refs) ≡ ok sum
unfolding spdx_add string_eq option_eq cachi.Base.Sort.sort_by relation_eq nat_eq list_ord
    string_ord cachi.Base.Sets.union ref_ord cachi.Base.ord_by
sum_of = refl

add_example :
    NoDup sum.relationships
    × ((r : SpdxRelation)
        → contains sum.relationships r ≡ (
            contains (document "a" one_ref).relationships r
            || contains
                (retarget_and_prune_relationships (document "b" two_refs) (document "a" one_ref))
                r))
    × ((x : ExternalRef)
        → has_ref x sum.packages ≡ (
            has_ref x (document "a" one_ref).packages
            || has_ref x (non_root_packages (document "b" two_refs))))
add_example = spdx_add-members sample_lib (document "a" one_ref) (document "b" two_refs) sum_of

-- A form of texts that keeps two of them apart: each character of the name behind a comma, then a
-- semicolon and the value.
unfoldable dumps : String → String → String
dumps ε value = ";" ▹ value
dumps (c ▹ name) value = "," ▹ (c ▹ dumps name value)

unfoldable loads : String → Result (String × String)
loads ε = err value_error
loads (c ▹ ε) = if c == ";" then ok (ε, ε) else err value_error
loads (c ▹ (d ▹ s)) =
    let rest = loads s in
    if c == ";" then ok (ε, d ▹ s) else (rest >>= λ (name, value). ok (d ▹ name, value))

loads-dumps : (name value : String) → loads (dumps name value) ≡ ok (name, value)
unfolding loads dumps char_eq
loads-dumps ε ε = refl
loads-dumps ε (c ▹ value) = refl
loads-dumps (c ▹ name) value = rw (loads-dumps name value) refl

abbrev codec : Codec
codec = record { dumps = dumps; loads = loads; package_hash = λ name version purl. purl }

names_readable : (n : PropertyEnum) → enum_of_value "hermeto" (enum_value "hermeto" n) ≡ ok n
unfolding enum_of_value enum_value string_eq
names_readable bundler_package_binary = refl
names_readable npm_package_bundled = refl
names_readable npm_package_development = refl
names_readable found_by = refl
names_readable missing_hash_in_file = refl
names_readable pip_package_binary = refl
names_readable pip_package_build_dependency = refl
names_readable rpm_modularity_label = refl
names_readable rpm_summary = refl

readable : Readable "hermeto" codec
unfolding endswith string_eq
readable = record { json = loads-dumps; names = names_readable; tool = refl }

abbrev proxied : Component
proxied = record {
  bom_ref = "pkg:pypi/x";
  name = "x";
  purl = "pkg:pypi/x";
  version = some "1";
  properties = record { name = pip_package_binary; value = "true" } ∷ [];
  type = library;
  external_references =
      some (record { url = "u"; type = "distribution"; comment = some "proxy URL" } ∷ []);
  pedigree = none;
}

abbrev elsewhere : Annotation
elsewhere = record {
  subjects = "pkg:pypi/other" ∷ [];
  annotator = [];
  timestamp = "2024";
  text = "text";
}

package_of_example :
    package_components "hermeto" codec (package_of "hermeto" "2024" codec (elsewhere ∷ []) proxied)
    ≡ ok (
        validate "hermeto" (record proxied {
          type = library;
          pedigree = none;
          external_references = proxies (source_infos proxied);
        })
        ∷ [])
unfolding source_infos string_eq string_ord has_char cachi.Base.Sort.sort_by option_eq char_eq
package_of_example =
    package_components-package_of "hermeto" "2024" codec readable (elsewhere ∷ []) proxied
      (refl, tt) (refl, refl, tt)

abbrev warning : Annotation
warning = record { subjects = "pkg:pypi/x" ∷ []; annotator = []; timestamp = "2024"; text = "text" }

annotation_example :
    (e : Error) × (package_components "hermeto" codec
        (package_of "hermeto" "2024" codec (elsewhere ∷ warning ∷ []) proxied)
      ≡ err e)
unfolding loads string_eq char_eq
annotation_example =
    package_components-annotation "hermeto" "2024" codec warning (elsewhere ∷ warning ∷ []) proxied
      readable (inr (inl refl)) refl refl
