-- ===== src/Sbom/Document.antt =====
-- hermeto/core/models/sbom.py: `Annotation`, `Sbom` with its addition, and
-- `create_backend_annotation`.
use mathlib.Core.List.{map}
use cachi.Base.{
  ℕ, String, ◌<>◌, Option, none, some, List, [], ◌∷◌, ◌++◌, ◌≡◌, sym, ap, ◌∙◌, string_eq,
  string_ord, if◌then◌else◌, append_assoc, ap₂,
}
use cachi.Base.Sets.{set_of}
use cachi.Base.Text.{startswith}
use cachi.Sbom.Component.{Component, merge_component_properties}
use cachi.Sbom.Absorb.{merge_component_properties-append, merge_component_properties_idem}
use cachi.Sbom.AbsorbRight.{merge_component_properties-append_right}

-- The time stamp is its text.
pub record Annotation : Type 0 where
  pub subjects : List String
  pub annotator : List (String × List (String × String))
  pub timestamp : String
  pub text : String

abbrev pub backend_annotation_prefix : String → String
backend_annotation_prefix app = app <> ":backend:"

-- `now` is what `spdx_now` returns.
unfoldable pub create_backend_annotation :
    String → String → List Component → String → Option Annotation
unfolding startswith
create_backend_annotation app now [] backend_name = none
create_backend_annotation app now (c ∷ components) backend_name = some (record {
  subjects = set_of (map (λ (d : Component). d.bom_ref) (c ∷ components));
  annotator = ("organization", ("name", "red hat") ∷ []) ∷ [];
  timestamp = now;
  text =
      if startswith backend_name "x-"
      then backend_annotation_prefix app <> ("experimental:" <> backend_name)
      else backend_annotation_prefix app <> backend_name;
})

pub record Tool : Type 0 where
  pub vendor : String
  pub name : String

pub record Sbom : Type 0 where
  pub bom_format : String
  pub annotations : List Annotation
  pub components : List Component
  pub tools : List Tool
  pub spec_version : String
  pub version : ℕ

-- `Sbom(annotations=…, components=…)`, with the validator of the components.
unfoldable pub make_sbom : String → List Annotation → List Component → Sbom
make_sbom app annotations components = record {
  bom_format = "CycloneDX";
  annotations = annotations;
  components = merge_component_properties app components;
  tools = (record { vendor = "red hat"; name = app }) ∷ [];
  spec_version = "1.6";
  version = 1;
}

-- `a + b`, of two `Sbom`s
unfoldable pub sbom_add : String → Sbom → Sbom → Sbom
unfolding make_sbom
sbom_add app a b =
    make_sbom app (a.annotations ++ b.annotations)
      (merge_component_properties app (a.components ++ b.components))

components_assoc :
    (app : String) (a b c : List Component)
    → merge_component_properties app (merge_component_properties app (a ++ b) ++ c)
      ≡ merge_component_properties app (a ++ merge_component_properties app (b ++ c))
components_assoc app a b c =
    merge_component_properties-append app (a ++ b) c
    ∙ ap (merge_component_properties app) (append_assoc a b c)
    ∙ sym (merge_component_properties-append_right app a (b ++ c))

-- Adding three documents gives the same in whichever order the two additions are made.
pub sbom_add_assoc :
    (app : String) (a b c : Sbom)
    → sbom_add app (sbom_add app a b) c ≡ sbom_add app a (sbom_add app b c)
unfolding sbom_add make_sbom
sbom_add_assoc app a b c =
    ap₂ (make_sbom app) (append_assoc a.annotations b.annotations c.annotations) (
      rw
        (
          merge_component_properties_idem app (a.components ++ b.components),
          merge_component_properties_idem app (b.components ++ c.components),
        )
        (components_assoc app a.components b.components c.components))
