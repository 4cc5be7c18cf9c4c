-- ===== src/Gomod/Fetch.antt =====
-- hermeto/core/package_managers/gomod.py: `fetch_gomod_source`.
use mathlib.Core.List.{map}
use cachi.Base.{
  String, Bool, true, false, Option, none, some, List, [], ◌∷◌, ◌++◌, string_eq, string_ord,
  if◌then◌else◌,
}
use cachi.Errors.{Result, ok, err, ◌>>=◌, fetch_error, lockfile_not_found, package_rejected}
use cachi.RootedPath.{PurePath, RootedPath, join_within_root}
use cachi.Sbom.Component.{Component}
use cachi.Sbom.Document.{Annotation, create_backend_annotation}
use cachi.Output.{RequestOutput, from_obj_list, empty_output}
use cachi.Input.Package.{PackageInput, gomod, Mode, strict, permissive}
use cachi.Input.Request.{Request, packages_by_type}
use cachi.Gomod.Models.{GoWork}
use cachi.Gomod.Tags.{get_golang_version}
use cachi.Gomod.Toolchain.{Versions, Go, select_toolchain}
use cachi.Gomod.Paths.{path_of}
use cachi.Gomod.Modules.{create_main_module_from_parsed_data, create_modules_from_parsed_data}
use cachi.Gomod.Packages.{create_packages_from_parsed_data}
use cachi.Gomod.Resolve.{ResolvedGoModule, resolve_gomod}
use cachi.Gomod.Surroundings.{
  Surroundings, env_vars_template, update_vars, variable, update_sbom_annotations,
  find_missing_gomod_files, get_repository_name, from_repo_path, get_go_work_path, go_work_at,
  vendor_tree, vendor_changed, components_of_modules, components_of_packages, copy_cache,
}

module _ (versions : Versions) (lib : Surroundings versions) where
  -- `go`, where no toolchain is a `FetchError`
  abbrev pub found_toolchain : Option (Go versions) → Result (Go versions)
  found_toolchain none = err fetch_error
  found_toolchain (some go) = ok go

  abbrev pub rejected : Mode → Bool → Result (Unit {0})
  rejected strict true = err package_rejected
  rejected strict false = ok tt
  rejected permissive changed = ok tt

  -- The method of the version resolver.
  abbrev pub GetVersion : Type 0
  GetVersion = String → RootedPath → Result String

  -- The directory of a subpath, its go.work, and what `_resolve_gomod` finds there.
  abbrev pub Resolved : Type 0
  Resolved = RootedPath × Option GoWork × ResolvedGoModule

  -- The loop's body up to `_resolve_gomod`, with the tree that this leaves.
  unfoldable pub resolve_subpath :
      GetVersion → Request → PurePath → lib.Tree → Result (Resolved × lib.Tree)
  unfolding join_within_root select_toolchain get_go_work_path go_work_at resolve_gomod path_of
      vendor_tree
  resolve_subpath get_version request subpath tree = do
    main_module_dir ← join_within_root lib.resolve request.source_dir (subpath ∷ [])
    go_mod ← join_within_root lib.resolve main_module_dir (path_of "go.mod" ∷ [])
    selected ← select_toolchain versions lib.install (lib.go_mod_lines go_mod.path) lib.installed
    go ← found_toolchain selected
    go_work_path ← get_go_work_path versions lib go main_module_dir
    go_work ← go_work_at versions lib go go_work_path
    resolved ←
        resolve_gomod (lib.project go) get_version main_module_dir lib.tmp_dir lib.proxy_url
          request.flags go_work
    left ← vendor_tree versions lib go go_work main_module_dir tree
    ok ((main_module_dir, go_work, resolved), left)

  unfoldable pub subpath_components :
      GetVersion → String → String → Resolved → Result (List Component)
  unfolding create_main_module_from_parsed_data create_modules_from_parsed_data
      create_packages_from_parsed_data components_of_modules components_of_packages
  subpath_components get_version app repo_name (main_module_dir, go_work, resolved) = do
    main_module ←
        create_main_module_from_parsed_data lib.resolve get_version main_module_dir repo_name
          resolved.parsed_main_module
    others ←
        create_modules_from_parsed_data lib.resolve get_version main_module main_module_dir
          resolved.modules_in_go_sum go_work resolved.parsed_modules
    packages ← create_packages_from_parsed_data (main_module ∷ others) resolved.parsed_packages
    module_components ← components_of_modules versions lib app (main_module ∷ others)
    package_components ← components_of_packages versions lib app packages
    ok (module_components ++ package_components)

  -- The loop's body, for a subpath: its components, whether the vendor directory has changed, and the
  -- tree that it leaves.
  unfoldable pub fetch_subpath :
      GetVersion
      → String
      → String
      → Request
      → PurePath
      → lib.Tree
      → Result (List Component × Bool × lib.Tree)
  unfolding resolve_subpath vendor_changed subpath_components
  fetch_subpath get_version app repo_name request subpath tree = do
    (resolved, left) ← resolve_subpath get_version request subpath tree
    (changed, after) ← vendor_changed versions lib resolved.0 left
    _ ← rejected request.mode changed
    components ← subpath_components get_version app repo_name resolved
    ok (components, changed, after)

  -- The loop, with the components and the annotations so far, and the tree.
  unfoldable pub fetch_subpaths :
      GetVersion
      → String
      → String
      → String
      → Request
      → List Component
      → List Annotation
      → lib.Tree
      → List PurePath
      → Result (List Component × List Annotation)
  unfolding fetch_subpath update_sbom_annotations
  fetch_subpaths get_version app now repo_name request components annotations tree [] =
      ok (components, annotations)
  fetch_subpaths get_version app now repo_name request components annotations tree
        (subpath ∷ subpaths) =
      fetch_subpath get_version app repo_name request subpath tree >>= λ (found, changed, after).
      fetch_subpaths get_version app now repo_name request (components ++ found)
        (if changed then update_sbom_annotations now found annotations else annotations) after
        subpaths

  abbrev pub any_installed : List (Go versions) → Result (Unit {0})
  any_installed [] = err fetch_error
  any_installed (go ∷ toolchains) = ok tt

  abbrev pub none_missing : List PurePath → Result (Unit {0})
  none_missing [] = ok tt
  none_missing (path ∷ files) = err lockfile_not_found

  unfoldable pub fetch_packages : String → String → Request → List PurePath → Result RequestOutput
  unfolding find_missing_gomod_files get_repository_name from_repo_path fetch_subpaths copy_cache
      get_golang_version update_vars from_obj_list create_backend_annotation
  fetch_packages app now request subpaths = do
    _ ← any_installed lib.installed
    missing ← find_missing_gomod_files versions lib request.source_dir subpaths
    _ ← none_missing missing
    repo_name ← get_repository_name versions lib
    commit ← from_repo_path versions lib
    gomod_download_dir ←
        join_within_root lib.resolve request.output_dir
          (path_of "deps/gomod/pkg/mod/cache/download" ∷ [])
    _ ← lib.mkdir gomod_download_dir.path
    fetched ←
        fetch_subpaths (get_golang_version lib.semver commit) app now repo_name request [] []
          lib.tree subpaths
    _ ← copy_cache versions lib gomod_download_dir
    from_obj_list fetched.0 (map variable (update_vars env_vars_template lib.environment_variables))
        [] none
        (elim (create_backend_annotation app now fetched.0 "gomod") [
          | none ↦ fetched.1
          | some annotation ↦ fetched.1 ++ annotation ∷ []
        ])

  -- `fetch_gomod_source`, without the removal of the temporary cache
  unfoldable pub fetch_gomod_source : String → String → Request → Result RequestOutput
  unfolding fetch_packages packages_by_type
  fetch_gomod_source app now request =
      elim (map (λ (p : PackageInput). p.path) (packages_by_type gomod request.packages)) [
        | [] ↦ ok empty_output
        | subpath ∷ subpaths ↦ fetch_packages app now request (subpath ∷ subpaths)
      ]
