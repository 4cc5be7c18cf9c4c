-- ===== src/Properties/RoundTrip.antt =====
-- hermeto/core/models/property_semantics.py: reading back the properties that a set lists.
use mathlib.Core.List.{foldl, foldl-append}
use cachi.Base.{
  String, Bool, Option, none, some, List, [], ◌∷◌, ◌++◌, ◌≡◌, refl, ◌∙◌, ◌==◌, ◌||◌, string_eq,
  string_ord, if◌then◌else◌, arith,
}
use cachi.Base.Sets.{union, set_add, union-set_add_right, IsOrderedSet, set_of-IsOrderedSet}
use cachi.Properties.{
  bundler_package_binary, found_by, Property, PropertySet, empty, from_properties, list_properties,
  to_properties, flag, maybe_text, missing, or_str, key_ord,
}
use cachi.Properties.Collect.{collect, foldl-sort_by, from_properties-foldl}
use cachi.Properties.Listed.{tail_properties, list_properties-NoRepeat}

-- An empty `found_by` is read back as no `found_by`.
abbrev pub non_empty : Option String → Option String
non_empty none = none
non_empty (some v) = if v == "" then none else some v

abbrev pub normal : PropertySet → PropertySet
normal s = record s { found_by = non_empty s.found_by }

foldl-missing :
    (l : List String) (s : PropertySet)
    → foldl collect s (missing l)
      ≡ record s { missing_hash_in_file = foldl (λ t v. set_add v t) s.missing_hash_in_file l }
unfolding collect
foldl-missing [] s = refl
foldl-missing (v ∷ l) s =
    foldl-missing l (record s { missing_hash_in_file = set_add v s.missing_hash_in_file })

foldl-set_add : (l t : List String) → foldl (λ u v. set_add v u) t l ≡ union l t
unfolding union
foldl-set_add [] t = refl
foldl-set_add (v ∷ l) t = foldl-set_add l (set_add v t) ∙ union-set_add_right v l t

-- The run over the properties behind the missing hashes.
foldl-tail :
    (s t : PropertySet)
    → foldl collect t (tail_properties s) ≡ record t {
      npm_bundled = s.npm_bundled || t.npm_bundled;
      npm_development = s.npm_development || t.npm_development;
      pip_build_dependency = s.pip_build_dependency || t.pip_build_dependency;
      pip_package_binary = s.pip_package_binary || t.pip_package_binary;
      rpm_modularity_label = or_str s.rpm_modularity_label t.rpm_modularity_label;
      rpm_summary = or_str s.rpm_summary t.rpm_summary;
    }
unfolding collect
foldl-tail s t = simp foldl-append (ground arith)

-- The run over the properties up to the missing hashes, with anything behind them.
foldl-head :
    (b : Bool) (f : Option String) (l : List String) (r : List Property)
    → IsOrderedSet l
    → foldl collect empty
        (flag b bundler_package_binary ++ (maybe_text f found_by ++ (missing l ++ r)))
      ≡ foldl collect
          (record empty {
            bundler_package_binary = b;
            found_by = non_empty f;
            missing_hash_in_file = l;
          })
          r
unfolding collect
foldl-head b f l r h =
    simp (foldl-append, foldl-missing, foldl-set_add) (ground (arith, set_of-IsOrderedSet l h))

foldl-list_properties :
    (s : PropertySet)
    → IsOrderedSet s.missing_hash_in_file
    → foldl collect empty (list_properties s) ≡ normal s
unfolding list_properties
foldl-list_properties s h =
    foldl-head s.bundler_package_binary s.found_by s.missing_hash_in_file _ h
    ∙ foldl-tail s _
    ∙ ground arith

-- The properties that a set lists, sorted, are read back as the set, if its missing hashes are a
-- set in order; an empty `found_by` is read back as no `found_by`.
pub from_properties-to_properties :
    (app : String) (s : PropertySet)
    → IsOrderedSet s.missing_hash_in_file
    → from_properties (to_properties app s) ≡ normal s
unfolding to_properties
from_properties-to_properties app s h =
    from_properties-foldl _
    ∙ foldl-sort_by app _ empty (list_properties-NoRepeat s)
    ∙ foldl-list_properties s h
