-- ===== src/Properties/Combined.antt =====
-- hermeto/core/models/property_semantics.py: what the merge of several property sets holds, field by
-- field.
use mathlib.Core.List.{foldl}
use cachi.Base.{
  String, Bool, true, false, ◌&&◌, ◌||◌, Option, none, some, List, [], ◌∷◌, ◌++◌, ◌≡◌, sym, ap, ◌∙◌,
  ◌==◌, string_eq, string_ord, if◌then◌else◌, arith, append-nil,
}
use cachi.Base.Members.{any, AllMeet}
use cachi.Base.Sets.{
  union, set_of, IsOrderedSet, union-append, union_assoc, union-IsOrderedSet, set_of-IsOrderedSet,
}
use cachi.Properties.{PropertySet, merge, or_str}

-- Whether each member passes the test.
abbrev pub every : (PropertySet → Bool) → List PropertySet → Bool
every p [] = true
every p (s ∷ sets) = p s && every p sets

-- The first text that is not empty, if there is one.
abbrev pub first_text : (PropertySet → String) → List PropertySet → String
first_text f [] = ""
first_text f (s ∷ sets) = let rest = first_text f sets in if f s == "" then rest else f s

abbrev pub is_given : Option String → Bool
is_given none = false
is_given (some s) = if s == "" then false else true

-- The first one that is there and not empty, or the last one of all.
abbrev pub first_given :
    (PropertySet → Option String) → PropertySet → List PropertySet → Option String
first_given f s [] = f s
first_given f s (t ∷ sets) = let rest = first_given f t sets in if is_given (f s) then f s else rest

abbrev pub all_missing : List PropertySet → List String
all_missing [] = []
all_missing (s ∷ sets) = s.missing_hash_in_file ++ all_missing sets

-- One set for a first one and others: a flag for binaries is set if any has it, one for bundled,
-- development or build dependencies if all have it, the missing hashes are those of all, and a text
-- is the first that is not empty.
unfoldable pub combined : PropertySet → List PropertySet → PropertySet
combined s sets = record {
  bundler_package_binary = any (λ (t : PropertySet). t.bundler_package_binary) (s ∷ sets);
  found_by = first_given (λ t. t.found_by) s sets;
  missing_hash_in_file = set_of (all_missing (s ∷ sets));
  npm_bundled = every (λ t. t.npm_bundled) (s ∷ sets);
  npm_development = every (λ t. t.npm_development) (s ∷ sets);
  pip_build_dependency = every (λ t. t.pip_build_dependency) (s ∷ sets);
  pip_package_binary = any (λ (t : PropertySet). t.pip_package_binary) (s ∷ sets);
  rpm_modularity_label = first_text (λ t. t.rpm_modularity_label) (s ∷ sets);
  rpm_summary = first_text (λ t. t.rpm_summary) (s ∷ sets);
}

missing-merge : (m n rest : List String) → set_of (union m n ++ rest) ≡ set_of (m ++ (n ++ rest))
missing-merge m n rest =
    union-append (union m n) rest []
    ∙ union_assoc m n (set_of rest)
    ∙ ap (union m) (sym (union-append n rest []))
    ∙ sym (union-append m (n ++ rest) [])

or_assoc : (a b c : Bool) → ((a || b) || c) ≡ (a || (b || c))
or_assoc a b c = ground arith

and_assoc : (a b c : Bool) → ((a && b) && c) ≡ (a && (b && c))
and_assoc a b c = ground arith

text_assoc :
    (a b rest : String)
    → (if or_str a b == "" then rest else or_str a b)
      ≡ (if a == "" then (if b == "" then rest else b) else a)
text_assoc a b rest = ground arith

found_by-merge :
    (s t : PropertySet) (sets : List PropertySet)
    → first_given (λ u. u.found_by) (merge s t) sets ≡ first_given (λ u. u.found_by) s (t ∷ sets)
unfolding merge
found_by-merge s t [] = ground arith
found_by-merge s t (u ∷ sets) = ground arith

combined-merge :
    (s t : PropertySet) (sets : List PropertySet)
    → combined (merge s t) sets ≡ combined s (t ∷ sets)
unfolding combined merge
combined-merge s t sets = λ i. record {
  bundler_package_binary =
      or_assoc s.bundler_package_binary t.bundler_package_binary
        (any (λ (u : PropertySet). u.bundler_package_binary) sets) i;
  found_by = found_by-merge s t sets i;
  missing_hash_in_file =
      missing-merge s.missing_hash_in_file t.missing_hash_in_file (all_missing sets) i;
  npm_bundled = and_assoc s.npm_bundled t.npm_bundled (every (λ u. u.npm_bundled) sets) i;
  npm_development =
      and_assoc s.npm_development t.npm_development (every (λ u. u.npm_development) sets) i;
  pip_build_dependency =
      and_assoc s.pip_build_dependency t.pip_build_dependency
        (every (λ u. u.pip_build_dependency) sets) i;
  pip_package_binary =
      or_assoc s.pip_package_binary t.pip_package_binary
        (any (λ (u : PropertySet). u.pip_package_binary) sets) i;
  rpm_modularity_label =
      text_assoc s.rpm_modularity_label t.rpm_modularity_label
        (first_text (λ u. u.rpm_modularity_label) sets) i;
  rpm_summary = text_assoc s.rpm_summary t.rpm_summary (first_text (λ u. u.rpm_summary) sets) i;
}

abbrev pub HasOrdered : PropertySet → Type 0
HasOrdered s = IsOrderedSet s.missing_hash_in_file

combined-nil : (s : PropertySet) → HasOrdered s → s ≡ combined s []
unfolding combined
combined-nil s h =
    ground (arith, append-nil s.missing_hash_in_file, set_of-IsOrderedSet s.missing_hash_in_file h)

merge-HasOrdered : (s t : PropertySet) → HasOrdered t → HasOrdered (merge s t)
unfolding merge
merge-HasOrdered s t h = union-IsOrderedSet s.missing_hash_in_file t.missing_hash_in_file h

pub foldl-merge :
    (s : PropertySet) (sets : List PropertySet)
    → HasOrdered s
    → AllMeet HasOrdered sets
    → foldl merge s sets ≡ combined s sets
foldl-merge s [] h k = combined-nil s h
foldl-merge s (t ∷ sets) h k =
    foldl-merge (merge s t) sets (merge-HasOrdered s t k.0) k.1 ∙ combined-merge s t sets
