-- ===== src/Tests/Outputs.antt =====
-- Runs and instances for hermeto/core/models/output.py and the documents of sbom.py.
use cachi.Base.{
  String, ◌<>◌, Bool, true, false, Option, none, some, List, [], ◌∷◌, ◌++◌, ◌≡◌, refl, string_eq,
  char_eq, string_ord, ◌==◌, if◌then◌else◌, contains, arith,
}
use cachi.Errors.{ok}
use cachi.Checksum.{best_of}
use cachi.Checksum.Integrity.{IsUpperBound, best_of-IsUpperBound}
use cachi.Sbom.Component.{Component, library}
use cachi.Sbom.Document.{Sbom, make_sbom, sbom_add, sbom_add_assoc}
use cachi.Output.{
  EnvironmentVariable, Template, Mappings, RequestOutput, empty_output, output_add, generate_sbom,
  resolve_value,
}
use cachi.Output.Variables.{resolve_value-apart}
use cachi.Output.Documents.{generate_sbom-output_add}

abbrev component : String → Component
component purl = record {
  bom_ref = purl;
  name = "p";
  purl = purl;
  version = none;
  properties = [];
  type = library;
  external_references = none;
  pedigree = none;
}

abbrev document : String → Sbom
document purl = make_sbom "hermeto" [] (component purl ∷ [])

assoc_example :
    sbom_add "hermeto" (sbom_add "hermeto" (document "b") (document "a")) (document "b")
    ≡ sbom_add "hermeto" (document "b") (sbom_add "hermeto" (document "a") (document "b"))
assoc_example = sbom_add_assoc "hermeto" (document "b") (document "a") (document "b")

abbrev output : String → RequestOutput
output purl = record empty_output { components = component purl ∷ [] }

abbrev both : RequestOutput
both = record empty_output { components = component "b" ∷ component "a" ∷ [] }

sum_of_both : output_add (output "b") (output "a") ≡ ok both
unfolding output_add cachi.Base.Sort.sort_by
sum_of_both = refl

generate_example :
    generate_sbom "hermeto" both
    ≡ sbom_add "hermeto"
        (generate_sbom "hermeto" (output "b"))
        (generate_sbom "hermeto" (output "a"))
generate_example = generate_sbom-output_add "hermeto" (output "b") (output "a") sum_of_both

-- Texts that are one placeholder or none.
abbrev one_placeholder : Template
one_placeholder = record {
  safe_substitute = λ text mappings. if text == "$home" then "/root" else text;
  placeholders = λ text. if text == "$home" then "home" ∷ [] else [];
}

abbrev variable : EnvironmentVariable
variable = record { name = "CACHE"; value = "$home"; kind = none }

abbrev mappings : Mappings
mappings = ("home", "/root") ∷ ("CACHE", "$home") ∷ []

resolve_variable : resolve_value one_placeholder variable mappings ≡ ok (variable, "/root")
unfolding resolve_value string_eq string_ord cachi.Base.Sets.union
resolve_variable = refl

apart_example : contains (one_placeholder.placeholders "/root") "home" ≡ false
unfolding resolve_value string_eq
apart_example =
    resolve_value-apart one_placeholder variable mappings "home" resolve_variable refl refl

best_example :
    IsUpperBound (best_of none ("sha1-aa" ∷ "sha512-bb" ∷ [])) ("sha1-aa" ∷ "sha512-bb" ∷ [])
best_example = best_of-IsUpperBound none ("sha1-aa" ∷ "sha512-bb" ∷ [])
