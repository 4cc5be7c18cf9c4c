-- ===== src/Npm/Update.antt =====
-- hermeto/core/package_managers/npm.py: what is written back to the lockfile and the package.json
-- files, and `fetch_npm_source`. The dictionaries of the packages are those of the lockfile's items,
-- so that an update of a package is one of its item.
use cachi.Base.{String, ◌<>◌, none, some, List, [], ◌∷◌, ◌==◌, string_eq, if◌then◌else◌}
use cachi.Base.Dict.{set_item, get_item}
use cachi.Errors.{Result, ok, err, ◌>>=◌, key_error}
use cachi.RootedPath.{RootedPath, join_path, subpath_from_root}
use cachi.Npm.Urls.{
  DepType, registry, git, file, https, normalize_resolved_url, classify_resolved_url,
  should_replace_dependency,
}
use cachi.Npm.Lock.{LockEntry, PackageLock, resolved_url}
use cachi.Npm.Purls.{Surroundings, given}

abbrev pub dependency_types : List String
dependency_types =
    "dependencies" ∷ "devDependencies" ∷ "optionalDependencies" ∷ "peerDependencies" ∷ []

-- A dictionary of dependencies, and one of such dictionaries by their types.
abbrev pub Section : Type 0
Section = List (String × String)

abbrev pub Sections : Type 0
Sections = List (String × Section)

module _ (lib : Surroundings) where
  -- The innermost loop. It sets the values of keys that it has just read.
  unfoldable pub clear_section : Section → Result Section
  unfolding should_replace_dependency
  clear_section [] = ok []
  clear_section ((dependency, version) ∷ items) =
      let rest = clear_section items in
      should_replace_dependency lib.urlparse version >>= λ replaced.
      rest >>= λ cleared. ok ((dependency, if replaced then "" else version) ∷ cleared)

  -- The loop over `DEPENDENCY_TYPES`.
  unfoldable pub clear_sections : List String → Sections → Result Sections
  unfolding clear_section get_item set_item
  clear_sections [] sections = ok sections
  clear_sections (dep_type ∷ dep_types) sections = elim (get_item dep_type sections) [
    | none ↦ clear_sections dep_types sections
    | some section ↦ elim (clear_section section) [
      | err e ↦ err e
      | ok cleared ↦ clear_sections dep_types (set_item dep_type cleared sections)
    ]
  ]

  -- The new resolved URL of a package that is downloaded.
  unfoldable pub local_url : List (String × RootedPath) → String → Result String
  unfolding get_item subpath_from_root join_path
  local_url download_paths url = elim (get_item url download_paths) [
    | none ↦ err key_error
    | some path ↦ subpath_from_root path >>= λ subpath.
        ok ("file://" <> lib.text_of (join_path (lib.path_of "${output_dir}") subpath))
  ]

  abbrev pub without_hash : LockEntry → LockEntry
  without_hash e = elim (given e.integrity) [ none ↦ e | some _ ↦ record e { integrity = some "" } ]

  -- A package's integrity and resolved URL, by the kind of the URL.
  unfoldable pub update_url :
      List (String × RootedPath) → String → LockEntry → DepType → Result LockEntry
  unfolding local_url
  update_url download_paths url e file = ok e
  update_url download_paths url e git =
      local_url download_paths url >>= λ new. ok (record (without_hash e) { resolved = some new })
  update_url download_paths url e registry =
      local_url download_paths url >>= λ new. ok (record e { resolved = some new })
  update_url download_paths url e https =
      local_url download_paths url >>= λ new. ok (record e { resolved = some new })

  -- The part of the loop's body behind the sections.
  unfoldable pub update_resolved :
      List (String × RootedPath) → String → LockEntry → Result LockEntry
  unfolding update_url resolved_url classify_resolved_url normalize_resolved_url
  update_resolved download_paths path e =
      if path == "" then ok e else elim (given (resolved_url path e)) [
        | none ↦ ok e
        | some url ↦ classify_resolved_url lib.urlparse (normalize_resolved_url url) >>= λ dep_type.
            update_url download_paths (normalize_resolved_url url) e dep_type
      ]

  -- The body of the loop, on an item of the lockfile. Links are no packages.
  unfoldable pub update_entry : List (String × RootedPath) → String → LockEntry → Result LockEntry
  unfolding clear_sections update_resolved
  update_entry download_paths path e =
      if e.link
      then ok e
      else (clear_sections dependency_types e.sections >>= λ sections.
          update_resolved download_paths path (record e { sections = sections }))

  unfoldable pub update_entries :
      List (String × RootedPath) → List (String × LockEntry) → Result (List (String × LockEntry))
  unfolding update_entry
  update_entries download_paths [] = ok []
  update_entries download_paths ((path, e) ∷ items) =
      let rest = update_entries download_paths items in
      update_entry download_paths path e >>= λ updated.
      rest >>= λ entries. ok ((path, updated) ∷ entries)

  -- `_update_package_lock_with_local_paths`
  unfoldable pub update_package_lock_with_local_paths :
      List (String × RootedPath) → PackageLock → Result PackageLock
  unfolding update_entries
  update_package_lock_with_local_paths download_paths lock =
      update_entries download_paths lock.packages >>= λ entries.
      ok (record lock { packages = entries })
