-- ===== src/Sbom/Merge.antt =====
-- hermeto/core/models/sbom.py: what `merge_component_properties` returns.
use mathlib.Core.List.{map, foldl}
use cachi.Base.{String, List, [], ◌∷◌, ◌≡◌, refl, ap, ◌∙◌, string_eq, string_ord, arith}
use cachi.Base.Sets.{set_of, IsOrderedSet, union-IsOrderedSet}
use cachi.Base.Groups.{
  Group, group_key, members, group_of, group_of-Below, keys-groups, group_of-groups,
}
use cachi.Base.Members.{AllMeet}
use cachi.Properties.{PropertySet, empty, read_property, from_properties, to_properties}
use cachi.Properties.Combined.{combined, HasOrdered, foldl-merge}
use cachi.Sbom.Component.{Component, key, merge_component_group, merge_component_properties}

-- What the code makes of the components of a purl, if there are any.
unfoldable pub merged : String → List Component → List Component
merged app [] = []
merged app (c ∷ cs) = merge_component_group app (c, cs) ∷ []

abbrev pub read : Component → PropertySet
read c = from_properties c.properties

-- The component that stands for all components of a purl, if there are any: the first of them, with
-- the properties of the combination of all their property sets.
unfoldable pub together : String → List Component → List Component
together app [] = []
together app (c ∷ cs) =
    record c { properties = to_properties app (combined (read c) (map read cs)) } ∷ []

read-HasOrdered : (c : Component) → HasOrdered (read c)
unfolding from_properties
read-HasOrdered c =
    union-IsOrderedSet (foldl read_property empty c.properties).missing_hash_in_file [] tt

all_ordered : (cs : List Component) → AllMeet HasOrdered (map read cs)
all_ordered [] = tt
all_ordered (c ∷ cs) = (read-HasOrdered c, all_ordered cs)

merged-eq-together : (app : String) (cs : List Component) → merged app cs ≡ together app cs
unfolding merged together merge_component_group
merged-eq-together app [] = refl
merged-eq-together app (c ∷ cs) =
    ap (λ (s : PropertySet). record c { properties = to_properties app s } ∷ [])
      (foldl-merge (read c) (map read cs) (read-HasOrdered c) (all_ordered cs))

map-merge_component_group :
    (app : String) (gs : List (Group Component))
    → map key (map (merge_component_group app) gs) ≡ map (group_key key) gs
unfolding merge_component_group
map-merge_component_group app [] = refl
map-merge_component_group app (g ∷ gs) = ap (λ ks. g.0.purl ∷ ks) (map-merge_component_group app gs)

-- The purls of the merged components are the set of the purls, in order: none is lost, none is
-- new, and none occurs twice.
pub purls-merge_component_properties :
    (app : String) (components : List Component)
    → map key (merge_component_properties app components) ≡ set_of (map key components)
unfolding merge_component_properties
purls-merge_component_properties app components =
    map-merge_component_group app _ ∙ keys-groups key components

members-map :
    (app : String) (k : String) (gs : List (Group Component))
    → IsOrderedSet (map (group_key key) gs)
    → members key k (map (merge_component_group app) gs) ≡ merged app (group_of key k gs)
unfolding members merged group_of merge_component_group
members-map app k [] h = refl
members-map app k ((c, cs) ∷ gs) h =
    ground (arith, members-map app k gs h.1, group_of-Below key k gs)

pub members-merged :
    (app : String) (k : String) (components : List Component)
    → members key k (merge_component_properties app components)
      ≡ merged app (members key k components)
unfolding merge_component_properties
members-merged app k components =
    members-map app k _
      (rw (keys-groups key components) (union-IsOrderedSet (map key components) [] tt))
    ∙ ap (merged app) (group_of-groups key k components)

-- The merged components hold one component for each purl of the input: the first component of the
-- purl, with the properties of what all of them together hold: the flags for binaries that any has,
-- those for bundled, development and build dependencies that all have, the files of the missing
-- hashes of all, and the first text that is not empty of each other kind.
pub members-merge_component_properties :
    (app : String) (k : String) (components : List Component)
    → members key k (merge_component_properties app components)
      ≡ together app (members key k components)
members-merge_component_properties app k components =
    members-merged app k components ∙ merged-eq-together app (members key k components)
