-- ===== src/Gomod/Resolve.antt =====
-- hermeto/core/package_managers/gomod.py: `_resolve_gomod` and the steps that it takes.
use cachi.Base.{
  String, Bool, true, false, Option, none, some, List, [], ◌∷◌, ◌++◌, ◌==◌, string_eq,
  if◌then◌else◌,
}
use cachi.Errors.{Result, ok, err, ◌>>=◌, runtime_error}
use cachi.RootedPath.{PurePath, RootedPath, join_within_root}
use cachi.Gomod.Models.{ParsedModule, unreplaced, is_main, ParsedPackage, GoWork, ModuleId}
use cachi.Gomod.Paths.{path_of, text_of}
use cachi.Gomod.Modules.{deduplicate_resolved_modules, validate_local_replacements, parse_go_sum}
use cachi.Gomod.Vendor.{parse_vendor}
use cachi.Gomod.Project.{
  Env, Project, go_vars, disable_telemetry, go_exec_env, protect_against_symlinks,
}
use cachi.Gomod.Workspace.{parse_go_sum_from_workspaces, parse_workspace_modules}

-- `ResolvedGoModule`
pub record ResolvedGoModule : Type 0 where
  pub parsed_main_module : ParsedModule
  pub parsed_modules : List ParsedModule
  pub parsed_packages : List ParsedPackage
  pub modules_in_go_sum : List ModuleId

module _ (lib : Project) where
  unfoldable pub modules_in_go_sum : Option GoWork → RootedPath → Result (List ModuleId)
  unfolding parse_go_sum_from_workspaces join_within_root parse_go_sum path_of
  modules_in_go_sum (some go_work) app_dir = parse_go_sum_from_workspaces lib go_work
  modules_in_go_sum none app_dir =
      join_within_root lib.resolve app_dir (path_of "go.sum" ∷ []) >>= λ path.
      ok (parse_go_sum (lib.lines_of path.path))

  -- `_vendor_deps`
  unfoldable pub vendor_deps : Bool → Env → RootedPath → Result (List ParsedModule)
  unfolding parse_vendor join_within_root path_of
  vendor_deps has_workspace env context_dir =
      lib.vendor has_workspace env context_dir.path >>= λ vendored.
      join_within_root lib.resolve context_dir (path_of "vendor" ∷ path_of "modules.txt" ∷ [])
      >>= λ modules_txt. parse_vendor (lib.lines_of modules_txt.path)

  -- `_process_modules_json_stream`, with the main module that is found so far.
  unfoldable pub process_modules :
      String
      → Option (String × String)
      → List (String × String)
      → Result ((String × String) × List (String × String))
  process_modules app_dir none [] = err runtime_error
  process_modules app_dir (some main) [] = ok (main, [])
  process_modules app_dir main ((path, dir) ∷ modules) =
      let others = process_modules app_dir main modules in
      let found = process_modules app_dir (some (path, dir)) modules in
      if dir == app_dir then found else (others >>= λ (m, ms). ok (m, (path, dir) ∷ ms))

  -- `get_golang_version` is the method of the version resolver.
  module _ (get_golang_version : String → RootedPath → Result String) where
    -- `_parse_local_modules`
    unfoldable pub parse_local_modules :
        Option GoWork → Env → RootedPath → Result (ParsedModule × List ParsedModule)
    unfolding process_modules parse_workspace_modules text_of
    parse_local_modules go_work env app_dir = lib.list_modules env app_dir.path >>= λ listed.
        process_modules (text_of app_dir.path) none listed >>= λ (main, workspaces).
        get_golang_version main.0 app_dir >>= λ version.
        parse_workspace_modules lib go_work workspaces >>= λ workspace_modules.
        ok (unreplaced main.0 (some version) true, workspace_modules)

    -- The modules of the packages, but the main ones.
    unfoldable pub modules_of_packages : List ParsedPackage → List ParsedModule
    unfolding is_main
    modules_of_packages [] = []
    modules_of_packages (p ∷ packages) =
        let rest = modules_of_packages packages in
        elim p.parent [ none ↦ rest | some m ↦ if is_main m then rest else m ∷ rest ]

    unfoldable pub list_each : Env → List PurePath → Result (List ParsedPackage)
    list_each env [] = ok []
    list_each env (wsp ∷ paths) =
        let rest = list_each env paths in
        lib.list_deps "./..." env wsp >>= λ packages. rest >>= λ others. ok (packages ++ others)

    -- `_parse_packages`
    unfoldable pub parse_packages : Option GoWork → Env → RootedPath → Result (List ParsedPackage)
    unfolding list_each
    parse_packages none env app_dir = lib.list_deps "./..." env app_dir.path
    parse_packages (some go_work) env app_dir = list_each env go_work.workspace_paths

    abbrev pub has_workspace : Option GoWork → Bool
    has_workspace none = false
    has_workspace (some go_work) = true

    -- `_resolve_gomod`
    unfoldable pub resolve_gomod :
        RootedPath → String → String → List String → Option GoWork → Result ResolvedGoModule
    unfolding protect_against_symlinks join_within_root go_vars go_exec_env disable_telemetry
        modules_in_go_sum vendor_deps parse_local_modules modules_of_packages
        deduplicate_resolved_modules validate_local_replacements parse_packages path_of
    resolve_gomod app_dir tmp_dir proxy_url flags go_work = do
      _ ← protect_against_symlinks lib app_dir
      vendor ← join_within_root lib.resolve app_dir (path_of "vendor" ∷ [])
      let should_vendor = lib.is_dir vendor.path
      let env = go_exec_env lib (go_vars tmp_dir should_vendor proxy_url flags)
      _ ← disable_telemetry lib env app_dir.path
      sums ← modules_in_go_sum go_work app_dir
      downloaded ←
          if should_vendor
          then vendor_deps (has_workspace go_work) env app_dir
          else lib.download env app_dir.path
      local ← parse_local_modules go_work env app_dir
      deps ← lib.list_deps "all" env app_dir.path
      let all_modules =
          deduplicate_resolved_modules (modules_of_packages deps ++ local.1) downloaded
      _ ← validate_local_replacements lib.resolve get_golang_version all_modules app_dir
      packages ← parse_packages go_work env app_dir
      ok (record {
        parsed_main_module = local.0;
        parsed_modules = all_modules;
        parsed_packages = packages;
        modules_in_go_sum = sums;
      })
