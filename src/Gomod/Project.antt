-- ===== src/Gomod/Project.antt =====
-- hermeto/core/package_managers/gomod.py: what `_resolve_gomod` runs, and the environment of its commands.
use cachi.Base.{
  String, ◌<>◌, Bool, Option, none, some, List, [], ◌∷◌, ◌==◌, string_eq, if◌then◌else◌, contains,
}
use cachi.Base.Dict.{set_item}
use cachi.Base.Text.{rstrip}
use cachi.Errors.{Result, ok, ◌>>=◌}
use cachi.RootedPath.{PurePath, RootedPath, join_within_root}
use cachi.Gomod.Models.{ParsedModule, ParsedPackage}
use cachi.Gomod.Paths.{path_of}

abbrev pub Env : Type 0
Env = List (String × String)

-- The files, and what the commands of a go toolchain give, in an environment and a directory:
-- `env GOTELEMETRY` gives `telemetry`, `list -e -m -json` gives the paths of modules with their directories, `list -e -deps -json` the
-- packages of a pattern.
pub record Project : Type 0 where
  pub resolve : PurePath → Result PurePath
  pub is_dir : PurePath → Bool
  pub lines_of : PurePath → Option (List String)
  pub go_sources : PurePath → List PurePath
  pub env_path : Option String
  pub env_home : Option String
  pub user_home : String
  pub env_netrc : Option String
  pub telemetry : Env → PurePath → Result String
  pub telemetry_off : Env → PurePath → Result (Unit {0})
  pub download : Env → PurePath → Result (List ParsedModule)
  pub vendor : Bool → Env → PurePath → Result (Unit {0})
  pub list_modules : Env → PurePath → Result (List (String × String))
  pub list_deps : String → Env → PurePath → Result (List ParsedPackage)

-- `a | b` of dictionaries
unfoldable pub merge_env : Env → Env → Env
unfolding set_item
merge_env env [] = env
merge_env env ((k, v) ∷ extra) = merge_env (set_item k v env) extra

-- `go_vars`
unfoldable pub go_vars : String → Bool → String → List String → Env
unfolding set_item
go_vars tmp_dir should_vendor proxy_url flags =
    let vars : Env =
      ("GOPATH", tmp_dir)
      ∷ ("GO111MODULE", "on")
      ∷ ("GOCACHE", tmp_dir)
      ∷ ("GOMODCACHE", if should_vendor then tmp_dir <> "/vendor-cache" else tmp_dir <> "/pkg/mod")
      ∷ ("GOSUMDB", "sum.golang.org")
      ∷ ("GOTOOLCHAIN", "auto")
      ∷ [] in
    let proxied = if proxy_url == "" then vars else set_item "GOPROXY" proxy_url vars in
    if contains flags "cgo-disable" then set_item "CGO_ENABLED" "0" proxied else proxied

module _ (lib : Project) where
  unfoldable pub join_each : RootedPath → List PurePath → Result (Unit {0})
  unfolding join_within_root
  join_each app_dir [] = ok tt
  join_each app_dir (p ∷ paths) =
      let rest = join_each app_dir paths in
      join_within_root lib.resolve app_dir (p ∷ []) >>= λ path. rest

  -- `_disable_telemetry`
  unfoldable pub disable_telemetry : Env → PurePath → Result (Unit {0})
  unfolding rstrip
  disable_telemetry env dir = lib.telemetry env dir >>= λ telemetry.
      if rstrip telemetry == ""
      then ok tt
      else if rstrip telemetry == "off"
      then ok tt
      else lib.telemetry_off env dir

  -- `_go_exec_env`
  unfoldable pub go_exec_env : Env → Env
  unfolding merge_env
  go_exec_env extra_vars =
      merge_env
        (("PATH", elim lib.env_path [ none ↦ "" | some path ↦ path ])
          ∷ ("HOME", elim lib.env_home [ none ↦ lib.user_home | some home ↦ home ])
          ∷ ("NETRC", elim lib.env_netrc [ none ↦ "" | some netrc ↦ netrc ])
          ∷ [])
        extra_vars

  -- `_protect_against_symlinks`
  unfoldable pub protect_against_symlinks : RootedPath → Result (Unit {0})
  unfolding join_each path_of
  protect_against_symlinks app_dir = join_each app_dir (
      path_of "go.mod"
      ∷ path_of "go.sum"
      ∷ path_of "vendor/modules.txt"
      ∷ lib.go_sources app_dir.path)
