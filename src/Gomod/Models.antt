-- ===== src/Gomod/Models.antt =====
-- hermeto/core/package_managers/gomod.py: what the go command and go.mod say of modules, packages
-- and workspaces.
use cachi.Base.{String, Bool, Option, none, some, List, ◌==◌, Eq, string_eq, if◌then◌else◌}
use cachi.RootedPath.{PurePath, RootedPath}

-- `ParsedModule`, by whether it is replaced by another one.
pub data ParsedModule : Type 0 where
  unreplaced : (path : String) (version : Option String) (main : Bool) → ParsedModule
  replaced :
      (path : String) (version : Option String) (main : Bool) (replace : ParsedModule)
      → ParsedModule

unfoldable pub module_path : ParsedModule → String
module_path (unreplaced p v m) = p
module_path (replaced p v m r) = p

unfoldable pub module_version : ParsedModule → Option String
module_version (unreplaced p v m) = v
module_version (replaced p v m r) = v

unfoldable pub is_main : ParsedModule → Bool
is_main (unreplaced p v m) = m
is_main (replaced p v m r) = m

unfoldable pub module_replace : ParsedModule → Option ParsedModule
module_replace (unreplaced p v m) = none
module_replace (replaced p v m r) = some r

pub record ParsedPackage : Type 0 where
  pub import_path : String
  pub standard : Bool
  pub parent : Option ParsedModule

-- `GoWork`: the path of go.work, and `workspace_paths`.
pub record GoWork : Type 0 where
  pub rooted_path : RootedPath
  pub workspace_paths : List PurePath

-- `ModuleID`
abbrev pub ModuleId : Type 0
ModuleId = String × String

unfoldable pub id_discrete : Discrete ModuleId
unfolding string_eq
id_discrete = hlevel (string_eq.dec)

instance unfoldable pub id_eq : Eq ModuleId
unfolding id_discrete
id_eq = record { dec = id_discrete }

-- `s or default`
abbrev pub or_else : Option String → String → String
or_else none default = default
or_else (some s) default = if s == "" then default else s

-- The version of a module that is replaced, if it is there and not empty.
unfoldable pub replaced_id : String → ParsedModule → ModuleId
unfolding module_version module_path
replaced_id path replace =
    if or_else (module_version replace) "" == ""
    then (path, module_path replace)
    else (module_path replace, or_else (module_version replace) "")

-- `_get_module_id`
unfoldable pub get_module_id : ParsedModule → ModuleId
unfolding replaced_id
get_module_id (unreplaced path version main) = (path, or_else version ".")
get_module_id (replaced path version main replace) = replaced_id path replace
