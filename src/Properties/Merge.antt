-- ===== src/Properties/Merge.antt =====
-- hermeto/core/models/property_semantics.py: `merge` on three sets, and on one set twice.
use cachi.Base.{◌≡◌, string_eq, string_ord, arith}
use cachi.Base.Sets.{union_assoc, union_idem, IsOrderedSet}
use cachi.Properties.{PropertySet, merge}

-- Merging three property sets gives the same in whichever order the two merges are made.
pub merge_assoc : (a b c : PropertySet) → merge (merge a b) c ≡ merge a (merge b c)
unfolding merge
merge_assoc a b c =
    ground (arith, union_assoc a.missing_hash_in_file b.missing_hash_in_file c.missing_hash_in_file)

-- A property set merged with itself is itself.
pub merge_idem : (a : PropertySet) → IsOrderedSet a.missing_hash_in_file → merge a a ≡ a
unfolding merge
merge_idem a h = ground (arith, union_idem a.missing_hash_in_file h)
