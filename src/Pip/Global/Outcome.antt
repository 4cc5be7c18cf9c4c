-- ===== src/Pip/Global/Outcome.antt =====
-- `process_requirements_options` on options in their proper form, and on a value that looks like an
-- option.
use mathlib.Core.List.{foldl}
use cachi.Base.{
  String, Bool, true, false, Option, none, some, List, [], ◌∷◌, ◌++◌, ◌≡◌, refl, sym, ◌∙◌,
  string_eq, char_eq, if◌then◌else◌, contains, ◌||◌, ◌&&◌, not, arith, append_assoc, append-nil,
}
use cachi.Base.Text.{startswith}
use cachi.Errors.{ok, err, unsupported_feature, index_error}
use cachi.Pip.Global.{
  Loop, start, reject, action, process_from, finish, process_requirements_options,
}
use cachi.Pip.Global.Items.{
  Item, plain, valued, render, AllProper, option_of, values_of, has_any, last_or, expected,
  step_item, process_from_item, one_value, step_item_rejected, step_item_hashes, step_item_hosts,
  step_item_index,
}

abbrev run_items : List Item → Loop → Loop
run_items items s = foldl step_item s items

process_from-render :
    (items : List Item) (s : Loop) (rest : List String)
    → AllProper items
    → process_from none s (render items ++ rest) ≡ process_from none (run_items items s) rest
unfolding render
process_from-render [] s rest p = refl
process_from-render (plain o ∷ items) s rest p =
    process_from_item (plain o) s (render items ++ rest) p.0
    ∙ process_from-render items (step_item s (plain o)) rest p.1
process_from-render (valued o v ∷ items) s rest p =
    process_from_item (valued o v) s (render items ++ rest) p.0
    ∙ process_from-render items (step_item s (valued o v)) rest p.1

values_of-cons :
    (names : List String) (i : Item) (items : List Item)
    → values_of names (i ∷ items) ≡ one_value names i ++ values_of names items
unfolding values_of
values_of-cons names (plain o) items = refl
values_of-cons names (valued o v) items = ground arith

last_or-append :
    (d : Option String) (l r : List String) → last_or d (l ++ r) ≡ last_or (last_or d l) r
unfolding last_or
last_or-append d [] r = refl
last_or-append d (v ∷ l) r = last_or-append (some v) l r

run_items-hosts :
    (items : List Item) (s : Loop)
    → AllProper items
    → (run_items items s).opts.trusted_hosts
      ≡ s.opts.trusted_hosts ++ values_of ("--trusted-host" ∷ []) items
unfolding values_of
run_items-hosts [] s p = sym (append-nil _)
run_items-hosts (i ∷ items) s p =
    run_items-hosts items (step_item s i) p.1
    ∙ rw (step_item_hosts s i p.0, append_assoc, values_of-cons ("--trusted-host" ∷ []) i items)

run_items-index :
    (items : List Item) (s : Loop)
    → AllProper items
    → (run_items items s).opts.index_url
      ≡ last_or s.opts.index_url (values_of ("-i" ∷ "--index-url" ∷ []) items)
unfolding values_of last_or
run_items-index [] s p = refl
run_items-index (i ∷ items) s p =
    run_items-index items (step_item s i) p.1
    ∙ rw (
      step_item_index s i p.0,
      values_of-cons ("-i" ∷ "--index-url" ∷ []) i items,
      last_or-append,
    )

run_items-hashes :
    (items : List Item) (s : Loop)
    → AllProper items
    → (run_items items s).opts.require_hashes
      ≡ (has_any ("--require-hashes" ∷ []) items || s.opts.require_hashes)
unfolding has_any
run_items-hashes [] s p = refl
run_items-hashes (i ∷ items) s p =
    ground (arith, run_items-hashes items (step_item s i) p.1, step_item_hashes s i p.0)

is_nil : List String → Bool
is_nil [] = true
is_nil (x ∷ l) = false

is_nil-append : (l r : List String) → is_nil (l ++ r) ≡ (is_nil l && is_nil r)
unfolding is_nil
is_nil-append [] r = refl
is_nil-append (x ∷ l) r = refl

run_items-rejected :
    (items : List Item) (s : Loop)
    → AllProper items
    → is_nil (run_items items s).rejected ≡ (not (has_any reject items) && is_nil s.rejected)
unfolding has_any is_nil
run_items-rejected [] s p = refl
run_items-rejected (i ∷ items) s p =
    run_items-rejected items (step_item s i) p.1
    ∙ rw (step_item_rejected s i p.0) (
        ground (
          arith,
          is_nil-append s.rejected (if contains reject (option_of i) then option_of i ∷ [] else []),
        ))

finish_lem :
    (s : Loop) → finish s ≡ (if is_nil s.rejected then ok s.opts else err unsupported_feature)
unfolding finish is_nil
finish_lem s = ground arith

-- Options in their proper form are processed into what they ask for, item by item: hashes are
-- required if some item says so, the trusted hosts are the values given, in order, the index URL is
-- the last one given. If some item has an option of the rejected ones, the result is an
-- `UnsupportedFeature`.
pub process_requirements_options-expected :
    (items : List Item)
    → AllProper items
    → process_requirements_options (render items) ≡ expected items
unfolding process_requirements_options expected is_nil
process_requirements_options-expected items p = rw (sym (append-nil (render items))) (
    rw (process_from-render items start [] p, process_requirements_options)
      (finish_lem (run_items items start)
        ∙ ground (
          arith,
          run_items-rejected items start p,
          run_items-hashes items start p,
          run_items-hosts items start p,
          run_items-index items start p,
        )))

-- A value that looks like an option is taken for one: behind any options in their proper form, a
-- constraint file with the name of an option that reads a value ends in an `IndexError`.
pub process_requirements_options-IndexError :
    (items : List Item)
    → AllProper items
    → process_requirements_options (render items ++ "-c" ∷ "--trusted-host" ∷ []) ≡ err index_error
unfolding process_requirements_options action string_eq char_eq startswith
process_requirements_options-IndexError items p =
    rw
      (
        process_from-render items start ("-c" ∷ "--trusted-host" ∷ []) p,
        process_requirements_options,
      )
      refl
