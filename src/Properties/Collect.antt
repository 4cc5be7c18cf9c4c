-- ===== src/Properties/Collect.antt =====
-- hermeto/core/models/property_semantics.py: reading properties in another order.
use mathlib.Core.List.{foldl}
use cachi.Base.{
  String, Bool, true, false, List, [], ◌∷◌, ◌++◌, ◌≡◌, ◌≢◌, refl, sym, ap, ◌∙◌, inl, inr, string_eq,
  string_ord, arith, Bool-cases,
}
use cachi.Base.Sort.{insert_by, sort_by}
use cachi.Base.Sets.{union, set_add, set_of, set_add_comm}
use cachi.Properties.{
  PropertyEnum, found_by, missing_hash_in_file, rpm_modularity_label, rpm_summary, Property,
  PropertySet, empty, read_property, from_properties, key_ord, property_key,
}

-- The same round, with the values collected into the set at once.
unfoldable pub collect : PropertySet → Property → PropertySet
unfolding read_property
collect s p = elim p.name [
  | missing_hash_in_file ↦ record s {
    missing_hash_in_file = set_add p.value s.missing_hash_in_file;
  }
  | _ ↦ read_property s p
]

unfoldable pub is_text : PropertyEnum → Bool
is_text found_by = true
is_text rpm_modularity_label = true
is_text rpm_summary = true
is_text _ = false

abbrev pub Lacks : PropertyEnum → List Property → Type 0
Lacks n [] = Unit
Lacks n (p ∷ l) = (p.name ≢ n) × Lacks n l

-- No text-valued property occurs twice.
abbrev pub NoRepeat : List Property → Type 0
NoRepeat [] = Unit
NoRepeat (p ∷ l) = (is_text p.name ≡ true → Lacks p.name l) × NoRepeat l

collect_comm :
    (m n : PropertyEnum) (v w : String) (s : PropertySet)
    → (is_text m ≡ true → n ≢ m)
    → collect (collect s (record { name = m; value = v })) (record { name = n; value = w })
      ≡ collect (collect s (record { name = n; value = w })) (record { name = m; value = v })
unfolding collect is_text
collect_comm missing_hash_in_file missing_hash_in_file v w s h =
    ground (arith, set_add_comm v w s.missing_hash_in_file)
collect_comm missing_hash_in_file n v w s h = ground arith
collect_comm found_by found_by v w s h = absurd (h refl refl)
collect_comm found_by n v w s h = ground arith
collect_comm rpm_modularity_label rpm_modularity_label v w s h = absurd (h refl refl)
collect_comm rpm_modularity_label n v w s h = ground arith
collect_comm rpm_summary rpm_summary v w s h = absurd (h refl refl)
collect_comm rpm_summary n v w s h = ground arith
collect_comm m n v w s h = ground arith

Lacks-insert_by :
    (app : String) (n : PropertyEnum) (p : Property) (l : List Property)
    → p.name ≢ n
    → Lacks n l
    → Lacks n (insert_by (property_key app) p l)
unfolding insert_by
Lacks-insert_by app n p [] h k = (h, tt)
Lacks-insert_by app n p (q ∷ l) h k =
    elim (Bool-cases (key_ord.lt (property_key app q) (property_key app p))) [
      | inl e ↦ rw (e, insert_by) (k.0, Lacks-insert_by app n p l h k.1)
      | inr e ↦ rw (e, insert_by) (h, k)
    ]

Lacks-sort_by :
    (app : String) (n : PropertyEnum) (l : List Property)
    → Lacks n l
    → Lacks n (sort_by (property_key app) l)
unfolding sort_by
Lacks-sort_by app n [] h = tt
Lacks-sort_by app n (p ∷ l) h = Lacks-insert_by app n p _ h.0 (Lacks-sort_by app n l h.1)

foldl-insert_by :
    (app : String) (p : Property) (l : List Property) (s : PropertySet)
    → (is_text p.name ≡ true → Lacks p.name l)
    → foldl collect s (insert_by (property_key app) p l) ≡ foldl collect (collect s p) l
unfolding insert_by
foldl-insert_by app p [] s h = refl
foldl-insert_by app p (q ∷ l) s h =
    elim (Bool-cases (key_ord.lt (property_key app q) (property_key app p))) [
      | inl e ↦
          rw (e, insert_by)
            (foldl-insert_by app p l (collect s q) (λ t. (h t).1)
              ∙ ap (λ (r : PropertySet). foldl collect r l)
                  (sym (collect_comm p.name q.name p.value q.value s (λ t. (h t).0))))
      | inr e ↦ rw (e, insert_by)
    ]

pub foldl-sort_by :
    (app : String) (l : List Property) (s : PropertySet)
    → NoRepeat l
    → foldl collect s (sort_by (property_key app) l) ≡ foldl collect s l
unfolding sort_by
foldl-sort_by app [] s h = refl
foldl-sort_by app (p ∷ l) s (h, k) =
    foldl-insert_by app p _ s (λ t. Lacks-sort_by app p.name l (h t))
    ∙ foldl-sort_by app l (collect s p) k

set_of-concat : (l : List String) (v : String) → set_of (l ++ v ∷ []) ≡ set_add v (set_of l)
unfolding union
set_of-concat [] v = refl
set_of-concat (a ∷ l) v = ap (set_add a) (set_of-concat l v) ∙ set_add_comm a v _

-- Collecting the values one by one gives the set of the list of them.
abbrev settle : PropertySet → PropertySet
settle s = record s { missing_hash_in_file = set_of s.missing_hash_in_file }

settle-read_property :
    (n : PropertyEnum) (v : String) (s : PropertySet)
    → settle (read_property s (record { name = n; value = v }))
      ≡ collect (settle s) (record { name = n; value = v })
unfolding collect
settle-read_property missing_hash_in_file v s =
    ground (arith, set_of-concat s.missing_hash_in_file v)
settle-read_property n v s = ground arith

settle-foldl :
    (l : List Property) (s : PropertySet)
    → settle (foldl read_property s l) ≡ foldl collect (settle s) l
settle-foldl [] s = refl
settle-foldl (p ∷ l) s =
    settle-foldl l (read_property s p)
    ∙ ap (λ (r : PropertySet). foldl collect r l) (settle-read_property p.name p.value s)

pub from_properties-foldl : (l : List Property) → from_properties l ≡ foldl collect empty l
unfolding from_properties union
from_properties-foldl l = settle-foldl l empty
