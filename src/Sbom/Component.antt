-- ===== src/Sbom/Component.antt =====
-- hermeto/core/models/sbom.py: `Component` with its validators, and `merge_component_properties`.
use mathlib.Core.List.{foldl, map}
use cachi.Base.{
  String, Option, none, some, List, [], ◌∷◌, ◌++◌, ◌==◌, string_eq, string_ord, if◌then◌else◌,
  contains,
}
use cachi.Base.Sort.{sort_by}
use cachi.Base.Groups.{Group, group_by}
use cachi.Properties.{found_by, Property, property_eq, from_properties, to_properties, merge}

pub record ExternalReference : Type 0 where
  pub url : String
  pub type : String
  pub comment : Option String

pub record PatchDiff : Type 0 where
  pub url : String

pub record Patch : Type 0 where
  pub type : String
  pub diff : PatchDiff

pub record Pedigree : Type 0 where
  pub patches : List Patch

pub data ComponentType : Type 0 where
  library file : ComponentType

pub record Component : Type 0 where
  pub bom_ref : String
  pub name : String
  pub purl : String
  pub version : Option String
  pub properties : List Property
  pub type : ComponentType
  pub external_references : Option (List ExternalReference)
  pub pedigree : Option Pedigree

-- `Component.key`
abbrev pub key : Component → String
key c = c.purl

-- `FOUND_BY_APP_PROPERTY`, where `app` is `APP_NAME`.
abbrev pub found_by_app_property : String → Property
found_by_app_property app = record { name = found_by; value = app }

unfoldable pub add_found_by_property : String → List Property → List Property
add_found_by_property app properties =
    if contains properties (found_by_app_property app)
    then properties
    else properties ++ found_by_app_property app ∷ []

unfoldable pub remove_empty_version : Option String → Option String
remove_empty_version none = none
remove_empty_version (some version) = if version == "" then none else some version

-- The validators, as a construction of a `Component` runs them.
unfoldable pub validate : String → Component → Component
unfolding add_found_by_property remove_empty_version
validate app c = record c {
  bom_ref = c.purl;
  version = remove_empty_version c.version;
  properties = add_found_by_property app c.properties;
}

-- `merge_component_group`, on a group's first component and the others.
unfoldable pub merge_component_group : String → Group Component → Component
merge_component_group app (c, cs) =
    let merged =
      foldl merge (from_properties c.properties)
        (map (λ (d : Component). from_properties d.properties) cs) in
    record c { properties = to_properties app merged }

unfoldable pub merge_component_properties : String → List Component → List Component
unfolding merge_component_group
merge_component_properties app components =
    map (merge_component_group app) (group_by key (sort_by key components))
