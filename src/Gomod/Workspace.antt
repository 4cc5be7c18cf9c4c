-- ===== src/Gomod/Workspace.antt =====
-- hermeto/core/package_managers/gomod.py: the workspaces of a go.work.
use mathlib.Core.List.{map}
use cachi.Base.{
  String, ◌<>◌, false, Option, none, some, List, [], ◌∷◌, ◌++◌, ◌==◌, string_eq, if◌then◌else◌,
}
use cachi.Errors.{Result, ok, err, ◌>>=◌, runtime_error}
use cachi.RootedPath.{PurePath, RootedPath, join_path, relative_to, join_within_root}
use cachi.Gomod.Models.{ParsedModule, unreplaced, replaced, GoWork, ModuleId}
use cachi.Gomod.Paths.{path_of, text_of, parent_parts, beside}
use cachi.Gomod.Modules.{parse_go_sum}
use cachi.Gomod.Project.{Project}

-- `path.parent`
abbrev pub parent : PurePath → PurePath
parent path = record path { parts = parent_parts path.parts }

module _ (lib : Project) where
  unfoldable pub workspaces_from : PurePath → RootedPath → List String → Result (List PurePath)
  unfolding join_within_root join_path path_of
  workspaces_from go_work_dir dir [] = ok []
  workspaces_from go_work_dir dir (wp ∷ wps) =
      let rest = workspaces_from go_work_dir dir wps in
      join_within_root lib.resolve dir (path_of wp ∷ []) >>= λ inside.
      lib.resolve (join_path go_work_dir (path_of wp)) >>= λ path.
      rest >>= λ paths. ok (path ∷ paths)

  -- `GoWork.workspace_paths`, of the disk paths in go.work
  unfoldable pub workspace_paths : RootedPath → List String → Result (List PurePath)
  unfolding workspaces_from join_within_root
  workspace_paths go_work_path disk_paths =
      join_within_root lib.resolve (record { root = go_work_path.root; path = go_work_path.root })
        (parent go_work_path.path ∷ [])
      >>= λ dir. workspaces_from (parent go_work_path.path) dir disk_paths

  unfoldable pub sums_from : RootedPath → List PurePath → Result (List ModuleId)
  unfolding join_within_root parse_go_sum
  sums_from go_work_path [] = ok []
  sums_from go_work_path (p ∷ paths) =
      let rest = sums_from go_work_path paths in
      join_within_root lib.resolve go_work_path (p ∷ []) >>= λ path.
      rest >>= λ modules. ok (parse_go_sum (lib.lines_of path.path) ++ modules)

  -- `_parse_go_sum_from_workspaces` with `_get_go_sum_files`
  unfoldable pub parse_go_sum_from_workspaces : GoWork → Result (List ModuleId)
  unfolding sums_from beside
  parse_go_sum_from_workspaces go_work = sums_from go_work.rooted_path (
      map (λ (p : PurePath). record p { parts = p.parts ++ "go.sum" ∷ [] }) go_work.workspace_paths
      ++ beside go_work.rooted_path.path "go.work.sum" ∷ [])

  unfoldable pub find_workspace : String → List PurePath → Result PurePath
  unfolding text_of
  find_workspace dir [] = err runtime_error
  find_workspace dir (wp ∷ paths) =
      let rest = find_workspace dir paths in if text_of wp == dir then ok wp else rest

  -- `_parse_workspace_module`
  unfoldable pub parse_workspace_module : GoWork → String × String → Result ParsedModule
  unfolding find_workspace relative_to text_of
  parse_workspace_module go_work (path, dir) = find_workspace dir go_work.workspace_paths >>= λ wp.
      relative_to wp (parent go_work.rooted_path.path) >>= λ behind.
      ok (replaced path none false (unreplaced ("./" <> text_of behind) none false))

  unfoldable pub parse_workspace_modules :
      Option GoWork → List (String × String) → Result (List ParsedModule)
  unfolding parse_workspace_module
  parse_workspace_modules none modules = ok []
  parse_workspace_modules (some go_work) [] = ok []
  parse_workspace_modules (some go_work) (m ∷ modules) =
      let rest = parse_workspace_modules (some go_work) modules in
      parse_workspace_module go_work m >>= λ parsed. rest >>= λ others. ok (parsed ∷ others)
