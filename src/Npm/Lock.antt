-- ===== src/Npm/Lock.antt =====
-- hermeto/core/package_managers/npm.py: `Package` and `PackageLock`.
use cachi.Base.{
  String, ◌<>◌, Bool, false, ◌&&◌, ◌||◌, Option, none, some, List, [], ◌∷◌, ◌==◌, string_eq,
  if◌then◌else◌,
}
use cachi.Base.Text.{startswith}
use cachi.Base.Dict.{get_item, set_item}
use cachi.RootedPath.{RootedPath}

-- What is read of a package's dictionary in the lockfile: a key that is missing is `none` or `false`.
pub record LockEntry : Type 0 where
  pub name : Option String
  pub version : Option String
  pub resolved : Option String
  pub integrity : Option String
  pub in_bundle : Bool
  pub dev : Bool
  pub link : Bool
  pub workspaces : Option (List String)
  pub sections : List (String × List (String × String))

-- `PackageLock`, with what is read of `_lockfile_data`.
pub record PackageLock : Type 0 where
  pub lockfile_path : RootedPath
  pub name : Option String
  pub version : Option String
  pub packages : List (String × LockEntry)

pub record Package : Type 0 where
  pub name : String
  pub path : String
  pub package_dict : LockEntry

-- `Package.resolved_url`, by the path of the package.
unfoldable pub resolved_url : String → LockEntry → Option String
resolved_url path e = elim e.resolved [
  | none ↦ if e.in_bundle then none else some ("file:" <> path)
  | some url ↦ some url
]

-- `Package.bundled`
unfoldable pub bundled : LockEntry → Bool
bundled e = elim e.resolved [ none ↦ e.in_bundle | some _ ↦ false ]

-- `get_package_name_from_path`: the last part of the path, and the last two of a scoped package.
unfoldable pub name_from_parts : List String → String
name_from_parts [] = ""
name_from_parts (p ∷ []) = p
name_from_parts (p ∷ q ∷ []) = if startswith p "@" then p <> ("/" <> q) else q
name_from_parts (p ∷ q ∷ r ∷ parts) = name_from_parts (q ∷ r ∷ parts)

unfoldable pub package_name : (String → List String) → String → LockEntry → String
unfolding name_from_parts
package_name parts path e =
    let from_path = name_from_parts (parts path) in
    elim e.name [ none ↦ from_path | some n ↦ if n == "" then from_path else n ]

-- What `pathlib` and `fnmatch` do: the parts of a relative path, and the match of a text with the
-- path of a pattern.
module _ (parts : String → List String) (fnmatch : String → String → Bool) where
  any_match : String → List String → Bool
  any_match url [] = false
  any_match url (w ∷ workspaces) = let rest = any_match url workspaces in fnmatch url w || rest

  -- `_check_if_package_is_workspace`
  unfoldable pub check_if_package_is_workspace : PackageLock → String → Bool
  unfolding any_match get_item
  check_if_package_is_workspace lock url = elim (get_item "" lock.packages) [
    | none ↦ false
    | some main ↦ elim main.workspaces [ none ↦ false | some workspaces ↦ any_match url workspaces ]
  ]

  -- `_packages`, of the items of the lockfile.
  unfoldable pub get_packages : List (String × LockEntry) → List Package
  unfolding package_name
  get_packages [] = []
  get_packages ((path, e) ∷ items) =
      let rest = get_packages items in
      if e.link || path == ""
      then rest
      else record { name = package_name parts path e; path = path; package_dict = e } ∷ rest

  -- `_workspaces`. A link has its target in `resolved`.
  unfoldable pub workspaces_from : PackageLock → List (String × LockEntry) → List String
  unfolding check_if_package_is_workspace
  workspaces_from lock [] = []
  workspaces_from lock ((path, e) ∷ items) =
      let rest = workspaces_from lock items in
      elim e.resolved [
        | none ↦ rest
        | some url ↦ if e.link && check_if_package_is_workspace lock url then url ∷ rest else rest
      ]

pub record Wanted : Type 0 where
  pub version : Option String
  pub name : String
  pub integrity : Option String

unfoldable pub wanted_url : Package → Option String
unfolding resolved_url startswith
wanted_url p = elim (resolved_url p.path p.package_dict) [
  | none ↦ none
  | some url ↦ if url == "" || startswith url "file:" then none else some url
]

unfoldable pub add_wanted : Package → List (String × Wanted) → List (String × Wanted)
unfolding wanted_url set_item
add_wanted p deps = elim (wanted_url p) [
  | none ↦ deps
  | some url ↦
      set_item url
        (record {
          version = p.package_dict.version;
          name = p.name;
          integrity = p.package_dict.integrity;
        })
        deps
]

-- The dictionary comprehension, with the items that it has.
unfoldable pub wanted_from : List (String × Wanted) → List Package → List (String × Wanted)
unfolding add_wanted
wanted_from deps [] = deps
wanted_from deps (p ∷ packages) = wanted_from (add_wanted p deps) packages

-- `get_dependencies_to_download`
unfoldable pub get_dependencies_to_download : List Package → List (String × Wanted)
unfolding wanted_from
get_dependencies_to_download packages = wanted_from [] packages
