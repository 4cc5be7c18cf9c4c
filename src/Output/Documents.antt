-- ===== src/Output/Documents.antt =====
-- hermeto/core/models/output.py: the documents of added outputs.
use cachi.Base.{String, Option, List, ◌++◌, ◌≡◌, sym, ap, ap₂, ◌∙◌}
use cachi.Errors.{Result, ok, >>=-eq-ok}
use cachi.Sbom.Component.{Component, merge_component_properties}
use cachi.Sbom.Absorb.{merge_component_properties-append, merge_component_properties_idem}
use cachi.Sbom.AbsorbRight.{merge_component_properties-append_right}
use cachi.Sbom.Document.{Annotation, make_sbom, sbom_add}
use cachi.Output.{
  RequestOutput, BuildConfig, EnvironmentVariable, ProjectFile, make_build_config, from_obj_list,
  output_add, generate_sbom,
}

components_add :
    (app : String) (a b : List Component)
    → merge_component_properties app (
        merge_component_properties app (merge_component_properties app a)
        ++ merge_component_properties app (merge_component_properties app b))
      ≡ merge_component_properties app (a ++ b)
components_add app a b =
    rw (merge_component_properties_idem app a, merge_component_properties_idem app b)
      (merge_component_properties-append_right app (merge_component_properties app a) b
        ∙ merge_component_properties-append app a b)

parts :
    {annotations : List Annotation} {components : List Component} {config : BuildConfig}
    {c : RequestOutput}
    → ◌≡◌ {A = Result RequestOutput}
        (ok (record { annotations = annotations; components = components; build_config = config }))
        (ok c)
    → (c.annotations ≡ annotations) × (c.components ≡ components)
parts h = (cc, cc)

pub from_obj_list-parts :
    (components : List Component) (variables : List EnvironmentVariable) (files : List ProjectFile)
    (options : Option (List (String × String))) (annotations : List Annotation) {c : RequestOutput}
    → from_obj_list components variables files options annotations ≡ ok c
    → (c.annotations ≡ annotations) × (c.components ≡ components)
unfolding from_obj_list
from_obj_list-parts components variables files options annotations h =
    let config : BuildConfig = record {
      environment_variables = variables;
      project_files = files;
      options = options;
    } in
    let sum : BuildConfig → Result RequestOutput =
      λ b. ok (record { annotations = annotations; components = components; build_config = b }) in
    parts (>>=-eq-ok (make_build_config config) sum h).2

-- The document of the sum of two outputs is the sum of their documents.
pub generate_sbom-output_add :
    (app : String) (a b : RequestOutput) {c : RequestOutput}
    → output_add a b ≡ ok c
    → generate_sbom app c ≡ sbom_add app (generate_sbom app a) (generate_sbom app b)
unfolding output_add generate_sbom sbom_add make_sbom
generate_sbom-output_add app a b h =
    let (annotations, components) =
      from_obj_list-parts (a.components ++ b.components) _ _ _ (a.annotations ++ b.annotations) h in
    ap₂ (λ x y. make_sbom app x (merge_component_properties app y)) annotations components
    ∙ ap (make_sbom app (a.annotations ++ b.annotations))
        (sym (components_add app a.components b.components))
