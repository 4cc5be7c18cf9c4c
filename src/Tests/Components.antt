-- ===== src/Tests/Components.antt =====
-- Runs and instances for hermeto/core/models/property_semantics.py and sbom.py.
use mathlib.Core.List.{map}
use cachi.Base.{
  String, Bool, true, false, none, some, List, [], ◌∷◌, ◌++◌, ◌≡◌, refl, string_eq, string_ord,
  arith,
}
use cachi.Base.Sets.{set_of}
use cachi.Base.Groups.{members}
use cachi.Properties.{
  Property, PropertySet, npm_package_development, npm_package_bundled, found_by,
  missing_hash_in_file, empty, from_properties, to_properties, merge,
}
use cachi.Properties.RoundTrip.{normal, from_properties-to_properties}
use cachi.Sbom.Component.{Component, library, key, merge_component_properties}
use cachi.Sbom.Merge.{
  together, purls-merge_component_properties, members-merge_component_properties,
}
use cachi.Sbom.Absorb.{merge_component_properties-append}

abbrev bundled : Property
bundled = record { name = npm_package_bundled; value = "true" }

abbrev development : Property
development = record { name = npm_package_development; value = "true" }

abbrev unhashed : String → Property
unhashed path = record { name = missing_hash_in_file; value = path }

abbrev component : String → List Property → Component
component purl properties = record {
  bom_ref = purl;
  name = "p";
  purl = purl;
  version = none;
  properties = properties;
  type = library;
  external_references = none;
  pedigree = none;
}

abbrev sample : List Component
sample =
    component "pkg:npm/b@1" (development ∷ bundled ∷ [])
    ∷ component "pkg:npm/a@1" []
    ∷ component "pkg:npm/b@1" (unhashed "y" ∷ development ∷ unhashed "x" ∷ [])
    ∷ []

merged_sample :
    merge_component_properties "hermeto" sample
    ≡ component "pkg:npm/a@1" []
      ∷ component "pkg:npm/b@1" (development ∷ unhashed "x" ∷ unhashed "y" ∷ [])
      ∷ []
unfolding merge_component_properties from_properties to_properties merge string_ord string_eq
    cachi.Base.Sort.sort_by cachi.Base.Groups.group_by cachi.Base.Sets.union
    cachi.Properties.key_ord cachi.Properties.enum_value
merged_sample = refl

abbrev some_set : PropertySet
some_set = record empty { npm_development = true; missing_hash_in_file = "x" ∷ "y" ∷ [] }

from_properties-to_properties_example :
    from_properties (to_properties "hermeto" some_set) ≡ normal some_set
unfolding string_ord
from_properties-to_properties_example =
    from_properties-to_properties "hermeto" some_set ((refl, tt), (tt, tt))

purls_example : map key (merge_component_properties "hermeto" sample) ≡ set_of (map key sample)
purls_example = purls-merge_component_properties "hermeto" sample

members_example :
    members key "pkg:npm/b@1" (merge_component_properties "hermeto" sample)
    ≡ together "hermeto" (members key "pkg:npm/b@1" sample)
members_example = members-merge_component_properties "hermeto" "pkg:npm/b@1" sample

append_example :
    merge_component_properties "hermeto" (merge_component_properties "hermeto" sample ++ sample)
    ≡ merge_component_properties "hermeto" (sample ++ sample)
append_example = merge_component_properties-append "hermeto" sample sample
