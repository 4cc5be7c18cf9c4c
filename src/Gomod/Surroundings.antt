-- ===== src/Gomod/Surroundings.antt =====
-- hermeto/core/package_managers/gomod.py: what `fetch_gomod_source` meets, and its steps beside `_resolve_gomod`.
use mathlib.Core.List.{map}
use cachi.Base.{
  String, ◌<>◌, Bool, true, false, Option, none, some, List, [], ◌∷◌, ◌==◌, string_eq, ◌&&◌,
  string_ord, if◌then◌else◌,
}
use cachi.Base.Dict.{set_item}
use cachi.Base.Sets.{set_of, union}
use cachi.Base.Text.{strip, rstrip_char, has_text}
use cachi.Base.Text.Affixes.{removesuffix}
use cachi.Errors.{Result, ok, err, ◌>>=◌, fetch_error}
use cachi.RootedPath.{PurePath, RootedPath, join_path, join_within_root}
use cachi.Sbom.Component.{Component}
use cachi.Sbom.Document.{Annotation}
use cachi.Output.{EnvironmentVariable}
use cachi.Gomod.Models.{GoWork}
use cachi.Gomod.Tags.{SemanticVersions, Commit}
use cachi.Gomod.Toolchain.{Versions, Go}
use cachi.Gomod.Paths.{path_of, text_of}
use cachi.Gomod.Modules.{Module, GolangPurl, module_component}
use cachi.Gomod.Packages.{Package, package_component}
use cachi.Gomod.Project.{Project}
use cachi.Gomod.Workspace.{workspace_paths}

-- What a run meets outside of the program: the installed toolchains and the installation of
-- another, what the go command of a toolchain gives, the files, the configuration, git, and
-- `PackageURL.to_string`. `go_mod_lines` reads a go.mod, `go_env` is `go env GOWORK`, `work_edit`
-- the disk paths that `go work edit -json` gives, and `origin` the host and the path of the URL of the
-- repository. A `Tree` is what git works on, the working tree with the index, and `tree` is that at
-- the start: `vendored` is what `go mod vendor`, or `go work vendor` for a workspace, leaves of it in a
-- directory, `git_add` marks what is not tracked (`git add --intent-to-add --force`), `git_diff` gives
-- the difference of a path, and `git_reset` takes the marks back. `mkdir` makes a directory with its
-- parents, and `copytree` copies a tree but the files that a function names. `commit` is the commit
-- of the repository, and `fetch_tags` the fetch of its tags, which raises a `GitError` only.
pub record Surroundings (versions : Versions) : Type 1 where
  pub installed : List (Go versions)
  pub install : String → String → Result (Go versions)
  pub project : Go versions → Project
  pub resolve : PurePath → Result PurePath
  pub exists : PurePath → Bool
  pub go_mod_lines : PurePath → List String
  pub go_env : Go versions → PurePath → Result String
  pub work_edit : Go versions → PurePath → Result (List String)
  pub tmp_dir : String
  pub mkdir : PurePath → Result (Unit {0})
  pub copytree : (String → List String → List String) → PurePath → PurePath → Result (Unit {0})
  pub proxy_url : String
  pub environment_variables : List (String × String)
  pub Tree : Type 0
  pub tree : Tree
  pub vendored : Go versions → Bool → PurePath → Tree → Tree
  pub git_add : RootedPath → Tree → Result Tree
  pub git_diff : RootedPath → String → Tree → Result String
  pub git_reset : RootedPath → Tree → Result Tree
  pub origin : Result (String × String)
  pub semver : SemanticVersions
  pub commit : Result Commit
  pub fetch_tags : Result (Unit {0})
  pub to_string : GolangPurl → Result String

-- `env_vars_template`, before the update by the configuration.
abbrev pub env_vars_template : List (String × String)
env_vars_template =
    ("GOCACHE", "${output_dir}/deps/gomod")
    ∷ ("GOPATH", "${output_dir}/deps/gomod")
    ∷ ("GOMODCACHE", "${output_dir}/deps/gomod/pkg/mod")
    ∷ ("GOPROXY", "file://${GOMODCACHE}/cache/download")
    ∷ []

unfoldable pub update_vars :
    List (String × String) → List (String × String) → List (String × String)
unfolding set_item
update_vars vars [] = vars
update_vars vars ((k, v) ∷ more) = update_vars (set_item k v vars) more

abbrev pub variable : String × String → EnvironmentVariable
variable (name, value) = record { name = name; value = value; kind = none }

abbrev is_a_toolchain_path : String → Bool
is_a_toolchain_path path = has_text "golang.org/toolchain" path && has_text "pkg/mod/cache" path

-- `_list_toolchain_files`
unfoldable pub list_toolchain_files : String → List String → List String
unfolding has_text path_of text_of join_path
list_toolchain_files dir_path [] = []
list_toolchain_files dir_path (file ∷ files) =
    let rest = list_toolchain_files dir_path files in
    if is_a_toolchain_path (text_of (join_path (path_of dir_path) (path_of file)))
    then file ∷ rest
    else rest

-- `_update_sbom_annotations`
unfoldable pub update_sbom_annotations : String → List Component → List Annotation → List Annotation
unfolding union
update_sbom_annotations now components [] =
    record {
      subjects = set_of (map (λ (c : Component). c.bom_ref) components);
      annotator = ("organization", ("name", "red hat") ∷ []) ∷ [];
      timestamp = now;
      text = "hermeto:permissive-mode:gomod:vendor-directory-changed-after-vendoring";
    }
    ∷ []
update_sbom_annotations now components (a ∷ annotations) =
    record a { subjects = union (map (λ (c : Component). c.bom_ref) components) a.subjects }
    ∷ annotations

-- `bool(go_work)`
abbrev pub in_workspace : Option GoWork → Bool
in_workspace none = false
in_workspace (some go_work) = true

-- `try: body finally: last`, with what `last` leaves.
abbrev pub and_finally : {Left : Type 0} → Result Bool → Result Left → Result (Bool × Left)
and_finally body (ok left) = body >>= λ b. ok (b, left)
and_finally body (err e) = err e

module _ (versions : Versions) (lib : Surroundings versions) where
  -- `_find_missing_gomod_files`
  unfoldable pub find_missing_gomod_files : RootedPath → List PurePath → Result (List PurePath)
  unfolding join_within_root path_of
  find_missing_gomod_files source_path [] = ok []
  find_missing_gomod_files source_path (subpath ∷ subpaths) =
      let rest = find_missing_gomod_files source_path subpaths in
      join_within_root lib.resolve source_path (subpath ∷ path_of "go.mod" ∷ []) >>= λ path.
      rest >>= λ files. ok (if lib.exists path.path then files else path.path ∷ files)

  -- `_get_repository_name`
  unfoldable pub get_repository_name : Result String
  unfolding rstrip_char removesuffix
  get_repository_name =
      lib.origin >>= λ (hostname, path). ok (hostname <> removesuffix (rstrip_char "/" path) ".git")

  -- `ModuleVersionResolver.from_repo_path`
  unfoldable pub from_repo_path : Result Commit
  from_repo_path =
      lib.commit >>= λ commit. elim lib.fetch_tags [ ok _ ↦ ok commit | err _ ↦ err fetch_error ]

  -- `_get_go_work_path`
  unfoldable pub get_go_work_path : Go versions → RootedPath → Result (Option RootedPath)
  unfolding strip join_within_root path_of
  get_go_work_path go app_dir = lib.go_env go app_dir.path >>= λ output.
      if strip output == ""
      then ok none
      else if strip output == "off"
      then ok none
      else (join_within_root lib.resolve app_dir (path_of (strip output) ∷ []) >>= λ path.
          ok (some path))

  -- `GoWork.from_file`, with its `workspace_paths`
  unfoldable pub go_work_at : Go versions → Option RootedPath → Result (Option GoWork)
  unfolding workspace_paths
  go_work_at go none = ok none
  go_work_at go (some path) = do
    disk_paths ← lib.work_edit go path.path
    paths ← workspace_paths (lib.project go) path disk_paths
    ok (some (record { rooted_path = path; workspace_paths = paths }))

  -- The tree after `_resolve_gomod`: the go commands vendor where there is a vendor directory.
  unfoldable pub vendor_tree : Go versions → Option GoWork → RootedPath → lib.Tree → Result lib.Tree
  unfolding join_within_root path_of
  vendor_tree go go_work app_dir tree =
      join_within_root (lib.project go).resolve app_dir (path_of "vendor" ∷ []) >>= λ vendor. ok (
        if (lib.project go).is_dir vendor.path
        then lib.vendored go (in_workspace go_work) app_dir.path tree
        else tree)

  abbrev pub diffs : RootedPath → lib.Tree → Result Bool
  diffs context_dir tree =
      lib.git_diff context_dir "vendor/modules.txt" tree >>= λ modules_txt_diff.
      if modules_txt_diff == ""
      then (lib.git_diff context_dir "vendor" tree >>= λ vendor_diff.
          ok (if vendor_diff == "" then false else true))
      else ok true

  -- `_vendor_changed`, with the tree that it leaves.
  unfoldable pub vendor_changed : RootedPath → lib.Tree → Result (Bool × lib.Tree)
  vendor_changed context_dir tree = lib.git_add context_dir tree >>= λ marked.
      and_finally (diffs context_dir marked) (lib.git_reset context_dir marked)

  unfoldable pub components_of_modules : String → List Module → Result (List Component)
  unfolding module_component
  components_of_modules app [] = ok []
  components_of_modules app (m ∷ modules) =
      let rest = components_of_modules app modules in
      module_component lib.to_string app m >>= λ c. rest >>= λ components. ok (c ∷ components)

  unfoldable pub components_of_packages : String → List Package → Result (List Component)
  unfolding package_component
  components_of_packages app [] = ok []
  components_of_packages app (p ∷ packages) =
      let rest = components_of_packages app packages in
      package_component lib.to_string app p >>= λ c. rest >>= λ components. ok (c ∷ components)

  unfoldable pub copy_cache : RootedPath → Result (Unit {0})
  unfolding list_toolchain_files path_of join_path
  copy_cache gomod_download_dir =
      let tmp_download_cache_dir =
        join_path (path_of lib.tmp_dir) (path_of "pkg/mod/cache/download") in
      if lib.exists tmp_download_cache_dir
      then lib.copytree list_toolchain_files tmp_download_cache_dir gomod_download_dir.path
      else ok tt
