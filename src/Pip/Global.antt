-- ===== src/Pip/Global.antt =====
-- hermeto/core/package_managers/pip/requirements.py: `process_requirements_options`.
pub mod Items
pub mod Outcome
use cachi.Base.{
  String, Bool, true, false, Option, none, some, List, [], ◌∷◌, ◌++◌, ◌==◌, string_eq,
  if◌then◌else◌, contains, ◌||◌,
}
use cachi.Base.Text.{startswith}
use cachi.Errors.{Result, ok, err, unsupported_feature, index_error}

-- The dict `opts`.
pub record Opts : Type 0 where
  pub require_hashes : Bool
  pub trusted_hosts : List String
  pub index_url : Option String

-- The variables of the loop.
pub record Loop : Type 0 where
  pub opts : Opts
  pub ignored : List String
  pub rejected : List String

abbrev pub start : Loop
start = record {
  opts = record { require_hashes = false; trusted_hosts = []; index_url = none };
  ignored = [];
  rejected = [];
}

abbrev pub reject : List String
reject = "--extra-index-url" ∷ "--no-index" ∷ "-f" ∷ "--find-links" ∷ "--only-binary" ∷ []

-- The key that `options[i + 1]` is stored under.
pub data Slot : Type 0 where
  trusted_host index : Slot

abbrev pub store : Slot → String → Loop → Loop
store trusted_host value s = record s {
  opts = record (s.opts) { trusted_hosts = s.opts.trusted_hosts ++ value ∷ [] };
}
store index value s = record s { opts = record (s.opts) { index_url = some value } }

-- What an option asks for: the next item, or a change of the variables.
pub data Action : Type 0 where
  take_next : Slot → Action
  set_require_hashes add_rejected add_ignored skip : Action

unfoldable pub action : String → Action
action option =
    if option == "--require-hashes"
    then set_require_hashes
    else if option == "--trusted-host"
    then take_next trusted_host
    else if contains ("-i" ∷ "--index-url" ∷ []) option
    then take_next index
    else if contains reject option
    then add_rejected
    else if startswith option "-"
    then add_ignored
    else skip

-- The loop over `options[i:]`; the slot waits for `options[i + 1]`, which may not be there.
unfoldable pub process_from : Option Slot → Loop → List String → Result Loop
process_from none s [] = ok s
process_from (some slot) s [] = err index_error
process_from (some slot) s (value ∷ rest) = process_from none (store slot value s) rest
process_from none s (option ∷ rest) = elim (action option) [
  | take_next slot ↦ process_from (some slot) s rest
  | set_require_hashes ↦
      process_from none (record s { opts = record (s.opts) { require_hashes = true } }) rest
  | add_rejected ↦ process_from none (record s { rejected = s.rejected ++ option ∷ [] }) rest
  | add_ignored ↦ process_from none (record s { ignored = s.ignored ++ option ∷ [] }) rest
  | skip ↦ process_from none s rest
]

-- The tests behind the loop.
unfoldable pub finish : Loop → Result Opts
finish s = elim s.rejected [ [] ↦ ok s.opts | _ ∷ _ ↦ err unsupported_feature ]

unfoldable pub process_requirements_options : List String → Result Opts
unfolding process_from finish
process_requirements_options options = elim (process_from none start options) [
  | err e ↦ err e
  | ok s ↦ finish s
]
