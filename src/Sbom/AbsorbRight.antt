-- ===== src/Sbom/AbsorbRight.antt =====
-- hermeto/core/models/sbom.py: merging components of which the last are merged already.
use mathlib.Core.List.{foldl, map, foldl-append, map-append}
use cachi.Base.{
  String, List, [], ◌∷◌, ◌++◌, ◌≡◌, refl, sym, ap, ◌∙◌, string_eq, string_ord, arith, append-nil,
}
use cachi.Base.Sets.{set_of, union-IsOrderedSet, union, union-append, set_of-IsOrderedSet}
use cachi.Base.Groups.{members, members-append, eq_of_members}
use cachi.Properties.{PropertySet, Property, from_properties, to_properties, merge}
use cachi.Properties.Merge.{merge_assoc}
use cachi.Properties.RoundTrip.{normal}
use cachi.Sbom.Component.{Component, key, merge_component_group, merge_component_properties}
use cachi.Sbom.Merge.{merged, purls-merge_component_properties, members-merged}
use cachi.Sbom.Absorb.{read, to_properties-normal, from_to-normal, merged-append}

normal-merge_right :
    (a b c : PropertySet) → normal b ≡ normal c → normal (merge a b) ≡ normal (merge a c)
unfolding merge
normal-merge_right a b c h = ground arith

foldl-merge :
    (l : List PropertySet) (a b : PropertySet)
    → foldl merge (merge a b) l ≡ merge a (foldl merge b l)
foldl-merge [] a b = refl
foldl-merge (c ∷ l) a b =
    ap (λ x. foldl merge x l) (merge_assoc a b c) ∙ foldl-merge l a (merge b c)

last_absorb :
    (app : String) (c d : Component) (cs ds : List Component)
    → merge_component_group app (c, cs ++ merge_component_group app (d, ds) ∷ [])
      ≡ merge_component_group app (c, cs ++ d ∷ ds)
unfolding merge_component_group
last_absorb app c d cs ds =
    let m : PropertySet = foldl merge (read c) (map read cs) in
    let n : PropertySet = foldl merge (read d) (map read ds) in
    let whole : foldl merge (read c) (map read (cs ++ d ∷ ds)) ≡ merge m n =
      rw (map-append read cs (d ∷ ds), foldl-append) (foldl-merge (map read ds) m (read d)) in
    let again : foldl merge (read c) (map read (cs ++ merge_component_group app (d, ds) ∷ []))
        ≡ merge m (from_properties (to_properties app n)) =
      rw (map-append read cs (merge_component_group app (d, ds) ∷ []), foldl-append) refl in
    ap (λ (props : List Property). record c { properties = props })
      (ap (to_properties app) again
        ∙ sym (to_properties-normal app _)
        ∙ ap (to_properties app) (normal-merge_right m _ n (from_to-normal app d ds))
        ∙ to_properties-normal app _
        ∙ ap (to_properties app) (sym whole))

merged-append_right :
    (app : String) (cs ds : List Component)
    → merged app (cs ++ merged app ds) ≡ merged app (cs ++ ds)
unfolding merged
merged-append_right app [] ds =
    rw (append-nil (merged app ds), append-nil ds) at (merged-append app ds [])
merged-append_right app (c ∷ cs) [] = refl
merged-append_right app (c ∷ cs) (d ∷ ds) =
    ap (λ (x : Component). x ∷ []) (last_absorb app c d cs ds)

purls-append_right :
    (app : String) (cs ds : List Component)
    → set_of (map key (cs ++ merge_component_properties app ds)) ≡ set_of (map key (cs ++ ds))
purls-append_right app cs ds =
    rw
      (
        map-append key cs (merge_component_properties app ds),
        map-append key cs ds,
        purls-merge_component_properties app ds,
      )
      (union-append (map key cs) (set_of (map key ds)) []
        ∙ ap (union (map key cs)) (set_of-IsOrderedSet _ (union-IsOrderedSet (map key ds) [] tt))
        ∙ sym (union-append (map key cs) (map key ds) []))

members-both_right :
    (app k : String) (cs ds : List Component)
    → merged app (members key k (cs ++ merge_component_properties app ds))
      ≡ merged app (members key k (cs ++ ds))
members-both_right app k cs ds = rw (members-append key k cs (merge_component_properties app ds)) (
    rw (members-merged app k ds) (
      rw (members-append key k cs ds)
        (merged-append_right app (members key k cs) (members key k ds))))

-- Merging components that end with merged ones is merging all at once.
pub merge_component_properties-append_right :
    (app : String) (cs ds : List Component)
    → merge_component_properties app (cs ++ merge_component_properties app ds)
      ≡ merge_component_properties app (cs ++ ds)
merge_component_properties-append_right app cs ds =
    eq_of_members key _ _ (rw purls-merge_component_properties (union-IsOrderedSet _ [] tt))
      (purls-merge_component_properties app _
        ∙ purls-append_right app cs ds
        ∙ sym (purls-merge_component_properties app (cs ++ ds)))
      (λ k.
        members-merged app k _
        ∙ members-both_right app k cs ds
        ∙ sym (members-merged app k (cs ++ ds)))
