-- ===== src/Pip/Options.antt =====
-- hermeto/core/package_managers/pip/requirements.py: `_split_options_and_requirement` and `_split_hashes_from_options`.
pub mod Grammar
use cachi.Base.{
  String, Bool, true, false, not, ◌&&◌, ◌||◌, Option, none, some, List, [], ◌∷◌, ◌++◌, ◌==◌,
  string_eq, if◌then◌else◌, contains,
}
use cachi.Base.Text.{startswith, cut, split, join}
use cachi.Errors.{Result, ok, err, unexpected_format}

-- `OPTIONS`: whether an option requires a value.
abbrev options_table : List (String × Bool)
options_table =
    ("--constraint", true)
    ∷ ("--editable", false)
    ∷ ("--extra-index-url", true)
    ∷ ("--find-links", true)
    ∷ ("--index-url", true)
    ∷ ("--no-binary", true)
    ∷ ("--no-index", false)
    ∷ ("--only-binary", true)
    ∷ ("--pre", false)
    ∷ ("--prefer-binary", false)
    ∷ ("--require-hashes", false)
    ∷ ("--requirement", true)
    ∷ ("--trusted-host", true)
    ∷ ("--use-feature", true)
    ∷ ("-c", true)
    ∷ ("-e", false)
    ∷ ("-f", true)
    ∷ ("--hash", true)
    ∷ ("-i", true)
    ∷ ("-r", true)
    ∷ []

lookup : String → List (String × Bool) → Option Bool
lookup k [] = none
lookup k ((j, v) ∷ table) = if k == j then some v else lookup k table

-- `OPTIONS[option]`, or `none` for an unknown option.
unfoldable pub requires_value : String → Option Bool
unfolding lookup
requires_value option = lookup option options_table

-- `option in REQUIREMENT_OPTIONS`
unfoldable pub is_requirement_option : String → Bool
is_requirement_option option = contains ("-e" ∷ "--editable" ∷ "--hash" ∷ []) option

-- The variables of the loop. `to_requirement` says which list `_context_options` refers to.
pub record State : Type 0 where
  pub global_options : List String
  pub requirement_options : List String
  pub requirement : List String
  pub require_value : Bool
  pub to_requirement : Bool

abbrev pub start : State
start = record {
  global_options = [];
  requirement_options = [];
  requirement = [];
  require_value = false;
  to_requirement = false;
}

-- `_context_options.append(part)`
unfoldable pub append_context : String → State → State
append_context part s =
    if s.to_requirement
    then record s { requirement_options = s.requirement_options ++ part ∷ [] }
    else record s { global_options = s.global_options ++ part ∷ [] }

-- `option, value = part.split("=", 1)`, or the part alone. An empty value counts as none.
unfoldable pub split_value : String → String × Option String
split_value part = elim (cut "=" part) [
  | none ↦ (part, none)
  | some (option, value) ↦ (option, if value == "" then none else some value)
]

-- The two last appends, with the option's value if it came behind a `=`.
append_option : String → Option String → Bool → State → State
unfolding append_context
append_option option none needs s = record (append_context option s) { require_value = needs }
append_option option (some value) needs s =
    record (append_context value (append_context option s)) { require_value = false }

unfoldable pub step_option : String → Option String → Option Bool → State → Result State
unfolding append_option is_requirement_option
step_option option value none s = err unexpected_format
step_option option (some value) (some false) s = err unexpected_format
step_option option value (some needs) s =
    ok (
      append_option option value needs (record s { to_requirement = is_requirement_option option }))

-- One round of the loop.
unfoldable pub step : String → State → Result State
unfolding step_option split_value
step part s =
    if s.require_value
    then ok (record (append_context part s) { require_value = false })
    else if startswith part "-"
    then (let (option, value) = split_value part in
        step_option option value (requires_value option) s)
    else ok (record s { requirement = s.requirement ++ part ∷ [] })

unfoldable pub run : List String → State → Result State
unfolding step
run [] s = ok s
run (part ∷ parts) s = elim (step part s) [ err e ↦ err e | ok t ↦ run parts t ]

unfoldable pub finish : State → Result (List String × List String × String)
finish s = if s.require_value then err unexpected_format else elim s.requirement_options [
  | [] ↦ ok (s.global_options, s.requirement_options, join " " s.requirement)
  | _ ∷ _ ↦ elim s.requirement [
    | [] ↦ err unexpected_format
    | _ ∷ _ ↦ ok (s.global_options, s.requirement_options, join " " s.requirement)
  ]
]

-- `_split_options_and_requirement`
unfoldable pub split_options_and_requirement : String → Result (List String × List String × String)
unfolding run finish split
split_options_and_requirement line = elim (run (split line) start) [
  | err e ↦ err e
  | ok s ↦ finish s
]

-- The loop of `_split_hashes_from_options`, with `is_hash`.
unfoldable pub split_hashes : Bool → List String → List String × List String
split_hashes is_hash [] = ([], [])
split_hashes true (item ∷ options) =
    let (hashes, reduced) = split_hashes false options in (item ∷ hashes, reduced)
split_hashes false (item ∷ options) =
    let found = item == "--hash" in
    let (hashes, reduced) = split_hashes found options in
    (hashes, if found then reduced else item ∷ reduced)

-- `_split_hashes_from_options`
unfoldable pub split_hashes_from_options : List String → List String × List String
unfolding split_hashes
split_hashes_from_options options = split_hashes false options
