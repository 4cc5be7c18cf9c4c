-- ===== src/Npm/Fetch.antt =====
-- hermeto/core/package_managers/npm.py: `_resolve_npm` and `fetch_npm_source`.
use cachi.Base.{
  ℕ, String, ◌<>◌, Char, Bool, false, ◌||◌, Option, none, some, List, [], ◌∷◌, ◌++◌, ◌==◌, nat_eq,
  option_eq, if◌then◌else◌,
}
use cachi.Errors.{Result, ok, err, ◌>>=◌, unsupported_feature, package_rejected, lockfile_not_found}
use cachi.RootedPath.{PurePath, RootedPath, join_within_root}
use cachi.Checksum.{Hashlib}
use cachi.Sbom.Document.{create_backend_annotation}
use cachi.Output.{ProjectFile, RequestOutput, from_obj_list}
use cachi.Input.Package.{PackageInput, npm}
use cachi.Input.Request.{Request, packages_by_type}
use cachi.Npm.Lock.{PackageLock, get_packages, workspaces_from, get_dependencies_to_download}
use cachi.Npm.Purls.{
  Surroundings, NpmComponentInfo, get_main_package, get_sbom_components, generate_component_list,
}
use cachi.Npm.Downloads.{NpmConfig, DownloadItem, get_npm_dependencies}
use cachi.Npm.Update.{
  Sections, dependency_types, clear_sections, update_package_lock_with_local_paths,
}

-- The files that are read, and `json`: the lockfile's version and data, and a package.json with its
-- dependencies. The dumps are those with an indent of two.
pub record Files (Json : Type 0) : Type 0 where
  pub exists : PurePath → Bool
  pub load_lock : PurePath → Result (Option ℕ × PackageLock)
  pub dump_lock : PackageLock → String
  pub load : PurePath → Result Json
  pub sections_of : Json → Sections
  pub with_sections : Sections → Json → Json
  pub dump : Json → String

pub record ResolvedNpmPackage : Type 0 where
  pub main : NpmComponentInfo
  pub dependencies : List NpmComponentInfo
  pub projectfiles : List ProjectFile

abbrev below : String → PurePath
below name = record { absolute = false; parts = name ∷ [] }

module _ {Json : Type 0} (lib : Surroundings) (files : Files Json) where
  -- `PackageLock.from_file`
  unfoldable pub from_file : RootedPath → Result PackageLock
  from_file lockfile_path = files.load_lock lockfile_path.path >>= λ (version, lock).
      if version == some 2 || version == some 3
      then ok (record lock { lockfile_path = lockfile_path })
      else err unsupported_feature

  -- `get_project_file`
  unfoldable pub get_project_file : PackageLock → Result ProjectFile
  get_project_file lock = lib.resolve lock.lockfile_path.path >>= λ path.
      ok (record { abspath = path; template = files.dump_lock lock <> "\n" })

  unfoldable pub package_json_paths : RootedPath → List String → Result (List RootedPath)
  unfolding join_within_root
  package_json_paths pkg_dir [] =
      join_within_root lib.resolve pkg_dir (below "package.json" ∷ []) >>= λ p. ok (p ∷ [])
  package_json_paths pkg_dir (w ∷ workspaces) =
      let rest = package_json_paths pkg_dir workspaces in
      join_within_root lib.resolve pkg_dir (lib.path_of w ∷ below "package.json" ∷ []) >>= λ p.
      rest >>= λ paths. ok (p ∷ paths)

  unfoldable pub package_json_file : RootedPath → Result ProjectFile
  unfolding clear_sections
  package_json_file path = do
    content ← files.load path.path
    sections ← clear_sections lib dependency_types (files.sections_of content)
    ok (record {
      abspath = path.path;
      template = files.dump (files.with_sections sections content) <> "\n";
    })

  unfoldable pub package_json_files : List RootedPath → Result (List ProjectFile)
  unfolding package_json_file
  package_json_files [] = ok []
  package_json_files (p ∷ paths) =
      let rest = package_json_files paths in package_json_file p >>= λ f. rest >>= λ fs. ok (f ∷ fs)

  -- `_update_package_json_files`
  unfoldable pub update_package_json_files : List String → RootedPath → Result (List ProjectFile)
  unfolding package_json_paths package_json_files
  update_package_json_files workspaces pkg_dir =
      package_json_paths pkg_dir workspaces >>= λ paths. package_json_files paths

  -- The loop over the names of lockfiles.
  unfoldable pub find_lockfile : RootedPath → List String → Result RootedPath
  unfolding join_within_root
  find_lockfile pkg_path [] = err lockfile_not_found
  find_lockfile pkg_path (name ∷ names) =
      let rest = find_lockfile pkg_path names in
      join_within_root lib.resolve pkg_path (below name ∷ []) >>= λ path.
      if files.exists path.path then ok path else rest

  module _ {H : Type 0} (hashes : Hashlib H)
      (clone : String → String → PurePath → Result (Unit {0}))
      (fetch : List (String × DownloadItem) → Result (PurePath → List Char))
      (parts : String → List String) (fnmatch : String → String → Bool) (config : NpmConfig) where
    -- `_resolve_npm`
    unfoldable pub resolve_npm : RootedPath → RootedPath → Result ResolvedNpmPackage
    unfolding find_lockfile join_within_root from_file get_npm_dependencies get_packages
        workspaces_from get_dependencies_to_download update_package_lock_with_local_paths
        update_package_json_files get_project_file get_main_package get_sbom_components
    resolve_npm pkg_path npm_deps_dir = do
      lock_path ← find_lockfile pkg_path ("npm-shrinkwrap.json" ∷ "package-lock.json" ∷ [])
      node_modules ← join_within_root lib.resolve pkg_path (below "node_modules" ∷ [])
      _ ← (if files.exists node_modules.path then err package_rejected else ok node_modules)
      lock ← from_file lock_path
      let packages = get_packages parts fnmatch lock.packages
      paths ←
          get_npm_dependencies lib hashes clone fetch npm_deps_dir config
            (get_dependencies_to_download packages)
      updated ← update_package_lock_with_local_paths lib paths lock
      projectfiles ←
          update_package_json_files (workspaces_from parts fnmatch lock lock.packages) pkg_path
      lock_file ← get_project_file updated
      main ← get_main_package lib lock
      dependencies ← get_sbom_components lib lock config.proxy_url packages
      ok (record {
        main = main;
        dependencies = dependencies;
        projectfiles = projectfiles ++ lock_file ∷ [];
      })

    -- The loop over the packages of a request, with its two lists.
    unfoldable pub resolve_all :
        RootedPath
        → RootedPath
        → List PackageInput
        → Result (List NpmComponentInfo × List ProjectFile)
    unfolding resolve_npm join_within_root
    resolve_all source_dir npm_deps_dir [] = ok ([], [])
    resolve_all source_dir npm_deps_dir (p ∷ packages) =
        let rest = resolve_all source_dir npm_deps_dir packages in
        join_within_root lib.resolve source_dir (p.path ∷ []) >>= λ path.
        resolve_npm path npm_deps_dir >>= λ info. rest >>= λ (infos, project_files).
        ok (info.main ∷ (info.dependencies ++ infos), info.projectfiles ++ project_files)

    -- `fetch_npm_source`
    unfoldable pub fetch_npm_source : String → String → Request → Result RequestOutput
    unfolding resolve_all generate_component_list create_backend_annotation from_obj_list
        packages_by_type join_within_root
    fetch_npm_source app now request = do
      npm_deps_dir ←
          join_within_root lib.resolve request.output_dir (below "deps" ∷ below "npm" ∷ [])
      (infos, project_files) ←
          resolve_all request.source_dir npm_deps_dir (packages_by_type npm request.packages)
      let components = generate_component_list app infos
      from_obj_list components [] project_files none
          (elim (create_backend_annotation app now components "npm") [
            | none ↦ []
            | some annotation ↦ annotation ∷ []
          ])
