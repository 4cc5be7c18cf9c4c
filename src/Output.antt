-- ===== src/Output.antt =====
-- hermeto/core/models/output.py: the output of the package managers and its addition.
pub mod Variables
pub mod Documents
use mathlib.Core.List.{foldl, map}
use cachi.Base.{
  String, ◌<>◌, Bool, true, false, Option, none, some, List, [], ◌∷◌, ◌++◌, ◌==◌, Eq, string_eq,
  string_ord, list_eq, list_ord, option_eq, if◌then◌else◌, contains, ◌&&◌,
}
use cachi.Base.Sets.{set_of, union}
use cachi.Base.Dict.{set_item}
use cachi.Errors.{Result, ok, err, ◌>>=◌, base_error}
use cachi.RootedPath.{PurePath}
use cachi.Validators.{unique_sorted}
use cachi.Sbom.Component.{Component, merge_component_properties}
use cachi.Sbom.Document.{Annotation, Sbom, make_sbom}

pub data VariableKind : Type 0 where
  literal path : VariableKind

pub record EnvironmentVariable : Type 0 where
  pub name : String
  pub value : String
  pub kind : Option VariableKind

abbrev pub Mappings : Type 0
Mappings = List (String × String)

-- `string.Template`: `safe_substitute`, and the placeholders that the matches of its pattern name.
pub record Template : Type 0 where
  pub safe_substitute : String → Mappings → String
  pub placeholders : String → List String

abbrev pub names : Mappings → List String
names mappings = map (λ m. m.0) mappings

-- `a & b`, of sets
unfoldable pub common : List String → List String → List String
common [] b = []
common (x ∷ a) b = let rest = common a b in if contains b x then x ∷ rest else rest

abbrev pub nothing_in : List String → Bool
nothing_in [] = true
nothing_in (x ∷ l) = false

-- The value that the resolution begins with: that of a variable of kind `path` gets a base path,
-- and the variable keeps it.
unfoldable pub legacy_path : Mappings → EnvironmentVariable → EnvironmentVariable
legacy_path mappings v = elim v.kind [
  | some path ↦
      if contains (names mappings) "output_dir"
      then record v { value = "${output_dir}/" <> v.value }
      else v
  | some literal ↦ v
  | none ↦ v
]

module _ (template : Template) where
  -- The loop of `resolve_value`, once for each of the first mappings.
  unfoldable pub resolve_rounds :
      Mappings → List String → Mappings → String → Result (List String × String)
  unfolding common
  resolve_rounds [] substituted mappings ret = ok (substituted, ret)
  resolve_rounds (m ∷ rounds) substituted mappings ret =
      let new_ret = template.safe_substitute ret mappings in
      let new_substituted =
        union substituted (common (template.placeholders ret) (names mappings)) in
      let rest = resolve_rounds rounds new_substituted mappings new_ret in
      if nothing_in (common new_substituted (template.placeholders new_ret))
      then rest
      else err base_error

  -- `resolve_value`: the variable as it is left, and the value.
  unfoldable pub resolve_value :
      EnvironmentVariable → Mappings → Result (EnvironmentVariable × String)
  unfolding legacy_path resolve_rounds
  resolve_value v mappings =
      resolve_rounds mappings [] mappings (legacy_path mappings v).value >>= λ (substituted, ret).
      ok (legacy_path mappings v, ret)

pub record ProjectFile : Type 0 where
  pub abspath : PurePath
  pub template : String

-- `f.resolve_content(output_dir)`
unfoldable pub resolve_content : Template → ProjectFile → String → String
resolve_content template f output_dir =
    template.safe_substitute f.template (("output_dir", output_dir) ∷ [])

unfoldable pub variable_discrete : Discrete EnvironmentVariable
variable_discrete = hlevel (string_eq.dec)

unfoldable pub file_discrete : Discrete ProjectFile
file_discrete = hlevel (string_eq.dec)

instance unfoldable pub variable_eq : Eq EnvironmentVariable
unfolding variable_discrete
variable_eq = record { dec = variable_discrete }

instance unfoldable pub file_eq : Eq ProjectFile
unfolding file_discrete
file_eq = record { dec = file_discrete }

-- What paths are compared by: the parts of their text between slashes.
abbrev pub path_key : PurePath → List String
path_key p = if p.absolute then "" ∷ p.parts else p.parts

pub record BuildConfig : Type 0 where
  pub environment_variables : List EnvironmentVariable
  pub project_files : List ProjectFile
  pub options : Option (List (String × String))

-- `BuildConfig(…)`, with its validators.
unfoldable pub make_build_config : BuildConfig → Result BuildConfig
unfolding unique_sorted
make_build_config c = do
  variables ← unique_sorted (λ (v : EnvironmentVariable). v.name) c.environment_variables true
  files ← unique_sorted (λ (f : ProjectFile). path_key f.abspath) c.project_files true
  ok (record c { environment_variables = variables; project_files = files })

pub record RequestOutput : Type 0 where
  pub annotations : List Annotation
  pub components : List Component
  pub build_config : BuildConfig

-- `from_obj_list`, where the arguments that are not given are empty.
unfoldable pub from_obj_list :
    List Component
    → List EnvironmentVariable
    → List ProjectFile
    → Option (List (String × String))
    → List Annotation
    → Result RequestOutput
unfolding make_build_config
from_obj_list components environment_variables project_files options annotations = do
  build_config ← make_build_config (record {
    environment_variables = environment_variables;
    project_files = project_files;
    options = options;
  })
  ok (record { annotations = annotations; components = components; build_config = build_config })

-- `dict.update`
unfoldable pub update : List (String × String) → List (String × String) → List (String × String)
unfolding set_item
update options other = foldl (λ d item. set_item item.0 item.1 d) options other

unfoldable pub merge_options :
    Option (List (String × String))
    → Option (List (String × String))
    → Option (List (String × String))
unfolding update
merge_options none rhs = rhs
merge_options (some lhs) none = some lhs
merge_options (some lhs) (some rhs) = some (update lhs rhs)

-- `a + b`
unfoldable pub output_add : RequestOutput → RequestOutput → Result RequestOutput
unfolding from_obj_list merge_options
output_add a b =
    from_obj_list (a.components ++ b.components)
      (a.build_config.environment_variables ++ b.build_config.environment_variables)
      (a.build_config.project_files ++ b.build_config.project_files)
      (merge_options a.build_config.options b.build_config.options) (a.annotations ++ b.annotations)

abbrev pub empty_output : RequestOutput
empty_output = record {
  annotations = [];
  components = [];
  build_config = record { environment_variables = []; project_files = []; options = none };
}

-- `sum(outputs, RequestOutput.empty())`, with `_resolve_packages` of hermeto/core/resolver.py
unfoldable pub sum_outputs : RequestOutput → List RequestOutput → Result RequestOutput
unfolding output_add
sum_outputs acc [] = ok acc
sum_outputs acc (o ∷ outputs) = elim (output_add acc o) [
  | err e ↦ err e
  | ok next ↦ sum_outputs next outputs
]

unfoldable pub generate_sbom : String → RequestOutput → Sbom
unfolding make_sbom
generate_sbom app o = make_sbom app o.annotations (merge_component_properties app o.components)
