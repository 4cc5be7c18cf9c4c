-- ===== src/Sbom/Absorb.antt =====
-- hermeto/core/models/sbom.py: merging components of which the first are merged already.
use mathlib.Core.List.{foldl, map, foldl-append, map-append}
use cachi.Base.{
  String, List, [], ◌∷◌, ◌++◌, ◌≡◌, refl, sym, ap, ◌∙◌, string_eq, string_ord, arith, append-nil,
}
use cachi.Base.Sets.{set_of, IsOrderedSet, union-IsOrderedSet, set_of-append}
use cachi.Base.Groups.{members, members-append, eq_of_members}
use cachi.Properties.{PropertySet, from_properties, to_properties, merge, Property}
use cachi.Properties.RoundTrip.{normal, from_properties-to_properties}
use cachi.Sbom.Component.{Component, key, merge_component_group, merge_component_properties}
use cachi.Sbom.Merge.{merged, purls-merge_component_properties, members-merged}

pub to_properties-normal :
    (app : String) (s : PropertySet) → to_properties app (normal s) ≡ to_properties app s
unfolding to_properties
to_properties-normal app s = ground arith

normal-merge : (a b c : PropertySet) → normal a ≡ normal b → normal (merge a c) ≡ normal (merge b c)
unfolding merge
normal-merge a b c h = ground arith

normal-foldl :
    (l : List PropertySet) (a b : PropertySet)
    → normal a ≡ normal b
    → normal (foldl merge a l) ≡ normal (foldl merge b l)
normal-foldl [] a b h = h
normal-foldl (c ∷ l) a b h = normal-foldl l (merge a c) (merge b c) (normal-merge a b c h)

normal_idem : (a : PropertySet) → normal (normal a) ≡ normal a
normal_idem a = ground arith

from_properties-IsOrderedSet :
    (l : List Property) → IsOrderedSet (from_properties l).missing_hash_in_file
unfolding from_properties
from_properties-IsOrderedSet l = union-IsOrderedSet _ [] tt

merge-IsOrderedSet :
    (a b : PropertySet)
    → IsOrderedSet b.missing_hash_in_file
    → IsOrderedSet (merge a b).missing_hash_in_file
unfolding merge
merge-IsOrderedSet a b h = union-IsOrderedSet a.missing_hash_in_file b.missing_hash_in_file h

abbrev pub read : Component → PropertySet
read c = from_properties c.properties

foldl-IsOrderedSet :
    (cs : List Component) (a : PropertySet)
    → IsOrderedSet a.missing_hash_in_file
    → IsOrderedSet (foldl merge a (map read cs)).missing_hash_in_file
foldl-IsOrderedSet [] a h = h
foldl-IsOrderedSet (c ∷ cs) a h =
    foldl-IsOrderedSet cs (merge a (read c))
      (merge-IsOrderedSet a (read c) (from_properties-IsOrderedSet c.properties))

-- What is read back of a merged group.
pub from_to-normal :
    (app : String) (c : Component) (cs : List Component)
    → normal (from_properties (to_properties app (foldl merge (read c) (map read cs))))
      ≡ normal (foldl merge (read c) (map read cs))
from_to-normal app c cs =
    ap normal (
      from_properties-to_properties app _
        (foldl-IsOrderedSet cs (read c) (from_properties-IsOrderedSet c.properties)))
    ∙ normal_idem _

-- A group that begins with a merged group is the group of all.
merge_component_group-absorb :
    (app : String) (c : Component) (cs ds : List Component)
    → merge_component_group app (merge_component_group app (c, cs), ds)
      ≡ merge_component_group app (c, cs ++ ds)
unfolding merge_component_group
merge_component_group-absorb app c cs ds =
    let m : PropertySet = foldl merge (read c) (map read cs) in
    let whole : foldl merge (read c) (map read (cs ++ ds)) ≡ foldl merge m (map read ds) =
      rw (map-append, foldl-append) in
    ap (λ (props : List Property). record c { properties = props })
      (sym (to_properties-normal app _)
        ∙ ap (to_properties app) (normal-foldl (map read ds) _ m (from_to-normal app c cs))
        ∙ to_properties-normal app _
        ∙ ap (to_properties app) (sym whole))

pub merged-append :
    (app : String) (cs ds : List Component)
    → merged app (merged app cs ++ ds) ≡ merged app (cs ++ ds)
unfolding merged
merged-append app [] ds = refl
merged-append app (c ∷ cs) ds =
    ap (λ (d : Component). d ∷ []) (merge_component_group-absorb app c cs ds)

purls-append :
    (app : String) (cs ds : List Component)
    → set_of (map key (merge_component_properties app cs ++ ds)) ≡ set_of (map key (cs ++ ds))
purls-append app cs ds = rw (map-append key (merge_component_properties app cs) ds) (
    rw (purls-merge_component_properties app cs)
      (rw (map-append key cs ds) (set_of-append (map key cs) (map key ds))))

members-both :
    (app k : String) (cs ds : List Component)
    → merged app (members key k (merge_component_properties app cs ++ ds))
      ≡ merged app (members key k (cs ++ ds))
members-both app k cs ds = rw (members-append key k (merge_component_properties app cs) ds) (
    rw (members-merged app k cs)
      (rw (members-append key k cs ds) (merged-append app (members key k cs) (members key k ds))))

-- Merging components that begin with merged ones is merging all at once: documents can be merged
-- one after the other.
pub merge_component_properties-append :
    (app : String) (cs ds : List Component)
    → merge_component_properties app (merge_component_properties app cs ++ ds)
      ≡ merge_component_properties app (cs ++ ds)
merge_component_properties-append app cs ds =
    eq_of_members key _ _ (rw purls-merge_component_properties (union-IsOrderedSet _ [] tt))
      (purls-merge_component_properties app _
        ∙ purls-append app cs ds
        ∙ sym (purls-merge_component_properties app (cs ++ ds)))
      (λ k.
        members-merged app k _ ∙ members-both app k cs ds ∙ sym (members-merged app k (cs ++ ds)))

-- Merging merged components changes nothing.
pub merge_component_properties_idem :
    (app : String) (cs : List Component)
    → merge_component_properties app (merge_component_properties app cs)
      ≡ merge_component_properties app cs
merge_component_properties_idem app cs =
    rw (append-nil (merge_component_properties app cs), append-nil cs) at
      (merge_component_properties-append app cs [])
