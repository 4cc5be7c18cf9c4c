-- ===== src/Pip/Global/Items.antt =====
-- What `process_requirements_options` makes of options in their proper form.
use cachi.Base.{
  String, Bool, true, false, Option, none, some, List, [], ◌∷◌, ◌++◌, ◌≡◌, refl, ◌==◌, string_eq,
  char_eq, if◌then◌else◌, contains, ◌||◌, arith, append-nil,
}
use cachi.Base.Text.{startswith}
use cachi.Errors.{Result, ok, err, unsupported_feature}
use cachi.Pip.Options.{requires_value}
use cachi.Pip.Global.{
  Opts, Loop, reject, store, take_next, set_require_hashes, add_rejected, add_ignored, skip, action,
  process_from,
}

-- An option without a value, or with one.
pub data Item : Type 0 where
  plain : String → Item
  valued : String → String → Item

unfoldable pub render : List Item → List String
render [] = []
render (plain option ∷ items) = option ∷ render items
render (valued option value ∷ items) = option ∷ value ∷ render items

-- As the table has it; a value must not look like an option, which the loop would take it for.
abbrev pub IsProper : Item → Type 0
IsProper (plain option) = requires_value option ≡ some false
IsProper (valued option value) =
    (requires_value option ≡ some true) × (startswith value "-" ≡ false)

abbrev pub AllProper : List Item → Type 0
AllProper [] = Unit
AllProper (i ∷ items) = IsProper i × AllProper items

unfoldable pub option_of : Item → String
option_of (plain option) = option
option_of (valued option value) = option

-- The values that the items give to some options, in order.
unfoldable pub values_of : List String → List Item → List String
values_of names [] = []
values_of names (plain option ∷ items) = values_of names items
values_of names (valued option value ∷ items) =
    let rest = values_of names items in if contains names option then value ∷ rest else rest

-- Some item has one of the options.
unfoldable pub has_any : List String → List Item → Bool
unfolding option_of
has_any names [] = false
has_any names (i ∷ items) = contains names (option_of i) || has_any names items

unfoldable pub last_or : Option String → List String → Option String
last_or default [] = default
last_or default (v ∷ vs) = last_or (some v) vs

-- The options that the items ask for, each read off the items on its own.
unfoldable pub expected : List Item → Result Opts
unfolding values_of has_any last_or
expected items =
    if has_any reject items
    then err unsupported_feature
    else ok (record {
      require_hashes = has_any ("--require-hashes" ∷ []) items;
      trusted_hosts = values_of ("--trusted-host" ∷ []) items;
      index_url = last_or none (values_of ("-i" ∷ "--index-url" ∷ []) items);
    })

table_facts :
    (requires_value "--require-hashes" ≡ some false)
    × (requires_value "--trusted-host" ≡ some true)
    × (requires_value "-i" ≡ some true)
    × (requires_value "--index-url" ≡ some true)
    × (requires_value "--no-index" ≡ some false)
unfolding requires_value string_eq
table_facts = (refl, refl, refl, refl, refl)

undashed_ne : (v w : String) → startswith v "-" ≡ false → startswith w "-" ≡ true → (v == w) ≡ false
undashed_ne v w h k = ground arith

action_undashed : (value : String) → startswith value "-" ≡ false → action value ≡ skip
unfolding action startswith char_eq
action_undashed value h = simp (
  undashed_ne value "--require-hashes" h refl,
  undashed_ne value "--trusted-host" h refl,
  undashed_ne value "-i" h refl,
  undashed_ne value "--index-url" h refl,
  undashed_ne value "--extra-index-url" h refl,
  undashed_ne value "--no-index" h refl,
  undashed_ne value "-f" h refl,
  undashed_ne value "--find-links" h refl,
  undashed_ne value "--only-binary" h refl,
  h,
)

-- The variables after one item.
unfoldable pub step_item : Loop → Item → Loop
step_item s (plain option) = elim (action option) [
  | set_require_hashes ↦ record s { opts = record (s.opts) { require_hashes = true } }
  | add_rejected ↦ record s { rejected = s.rejected ++ option ∷ [] }
  | add_ignored ↦ record s { ignored = s.ignored ++ option ∷ [] }
  | _ ↦ s
]
step_item s (valued option value) = elim (action option) [
  | take_next slot ↦ store slot value s
  | add_rejected ↦ record s { rejected = s.rejected ++ option ∷ [] }
  | add_ignored ↦ record s { ignored = s.ignored ++ option ∷ [] }
  | _ ↦ s
]

pub process_from_item :
    (i : Item) (s : Loop) (rest : List String)
    → IsProper i
    → process_from none s (render (i ∷ []) ++ rest) ≡ process_from none (step_item s i) rest
unfolding process_from render step_item action
process_from_item (plain option) s rest p = ground (arith, table_facts)
process_from_item (valued option value) s rest p =
    ground (arith, table_facts, action_undashed value p.1)

abbrev pub one_value : List String → Item → List String
one_value names i = values_of names (i ∷ [])

abbrev Differ : String → String → Type 0
Differ a b = (a == b) ≡ false

apart :
    (contains reject "--require-hashes" ≡ false)
    × (contains reject "--trusted-host" ≡ false)
    × (contains reject "-i" ≡ false)
    × (contains reject "--index-url" ≡ false)
    × Differ "--require-hashes" "--trusted-host"
    × Differ "--require-hashes" "-i"
    × Differ "--require-hashes" "--index-url"
    × Differ "--trusted-host" "-i"
    × Differ "--trusted-host" "--index-url"
unfolding string_eq
apart = (refl, refl, refl, refl, refl, refl, refl, refl, refl)

module _ (s : Loop) where
  pub step_item_rejected :
      (i : Item)
      → IsProper i
      → (step_item s i).rejected
        ≡ s.rejected ++ (if contains reject (option_of i) then option_of i ∷ [] else [])
  unfolding step_item action option_of
  step_item_rejected (plain o) p = ground (arith, apart, table_facts, append-nil s.rejected)
  step_item_rejected (valued o v) p = ground (arith, apart, table_facts, append-nil s.rejected)

  pub step_item_hashes :
      (i : Item)
      → IsProper i
      → (step_item s i).opts.require_hashes
        ≡ (contains ("--require-hashes" ∷ []) (option_of i) || s.opts.require_hashes)
  unfolding step_item action option_of
  step_item_hashes (plain o) p = ground (arith, apart, table_facts)
  step_item_hashes (valued o v) p = ground (arith, apart, table_facts)

  pub step_item_hosts :
      (i : Item)
      → IsProper i
      → (step_item s i).opts.trusted_hosts
        ≡ s.opts.trusted_hosts ++ one_value ("--trusted-host" ∷ []) i
  unfolding step_item action values_of
  step_item_hosts (plain o) p = ground (arith, apart, table_facts, append-nil s.opts.trusted_hosts)
  step_item_hosts (valued o v) p =
      ground (arith, apart, table_facts, append-nil s.opts.trusted_hosts)

  pub step_item_index :
      (i : Item)
      → IsProper i
      → (step_item s i).opts.index_url
        ≡ last_or s.opts.index_url (one_value ("-i" ∷ "--index-url" ∷ []) i)
  unfolding step_item action values_of last_or
  step_item_index (plain o) p = ground (arith, apart, table_facts)
  step_item_index (valued o v) p = ground (arith, apart, table_facts)
