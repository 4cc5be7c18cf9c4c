-- ===== src/Tests/Resolve.antt =====
-- Runs and an instance for `_resolve_gomod`.
use cachi.Base.{
  String, Bool, true, false, Option, none, some, List, [], ◌∷◌, ◌≡◌, refl, string_eq, char_eq,
  bool_eq, ◌==◌, if◌then◌else◌,
}
use cachi.Errors.{Result, ok, err, path_outside_root}
use cachi.RootedPath.{PurePath, RootedPath, last_part}
use cachi.Gomod.Models.{ParsedModule, unreplaced, replaced, ParsedPackage}
use cachi.Gomod.Project.{Project}
use cachi.Gomod.Resolve.{ResolvedGoModule, resolve_gomod}
use cachi.Gomod.Replacements.{AllInside, AllApart, resolve_gomod-AllInside}

abbrev pub source : PurePath
source = record { absolute = true; parts = "src" ∷ [] }

abbrev pub app_dir : RootedPath
app_dir = record { root = source; path = source }

abbrev pub plain_resolve : PurePath → Result PurePath
plain_resolve path = ok path

abbrev pub package_of : ParsedModule → ParsedPackage
package_of m = record { import_path = "ex.com/b"; standard = false; parent = some m }

-- A module that is replaced by a path.
abbrev pub at_path : String → ParsedModule
at_path path = replaced "ex.com/b" (some "v1.0.0") false (unreplaced path none false)

abbrev pub uuid : ParsedModule
uuid = unreplaced "ex.com/uuid" (some "v1.3.0") false

abbrev pub main : ParsedModule
main = unreplaced "ex.com/a" (some "v0.1.0") true

abbrev pub project : ParsedModule → Project
project m = record {
  resolve = plain_resolve;
  is_dir = λ path. false;
  lines_of = λ path. none;
  go_sources = λ path. [];
  env_path = some "/usr/bin";
  env_home = none;
  user_home = "/root";
  env_netrc = none;
  telemetry = λ env path. ok "off";
  telemetry_off = λ env path. ok tt;
  download = λ env path. ok (uuid ∷ m ∷ []);
  vendor = λ work env path. ok tt;
  list_modules = λ env path. ok (("ex.com/a", "/src") ∷ []);
  list_deps = λ pattern env path. ok (package_of m ∷ package_of main ∷ package_of m ∷ []);
}

abbrev pub golang_version : String → RootedPath → Result String
golang_version name path = ok "v0.1.0"

abbrev made : ResolvedGoModule
made = record {
  parsed_main_module = main;
  parsed_modules = at_path "./b" ∷ uuid ∷ [];
  parsed_packages = package_of (at_path "./b") ∷ package_of main ∷ package_of (at_path "./b") ∷ [];
  modules_in_go_sum = [];
}

resolved :
    resolve_gomod (project (at_path "./b")) golang_version app_dir "/tmp" "" [] none ≡ ok made
unfolding resolve_gomod string_eq char_eq bool_eq cachi.Base.Text.join cachi.Gomod.Models.id_eq
resolved = refl

resolved_example :
    AllInside plain_resolve app_dir made.parsed_modules × AllApart made.parsed_modules
resolved_example =
    resolve_gomod-AllInside (project (at_path "./b")) golang_version app_dir "/tmp" "" [] none
      resolved

-- A file system in which a link leads out of the root.
abbrev with_link : PurePath → Result PurePath
with_link path =
    ok (if last_part path.parts == "b" then record path { parts = "etc" ∷ [] } else path)

refused :
    resolve_gomod
      (record (project (at_path "./b")) { resolve = with_link })
      golang_version
      app_dir
      "/tmp"
      ""
      []
      none
    ≡ err path_outside_root
unfolding resolve_gomod string_eq char_eq bool_eq cachi.Base.Text.join cachi.Gomod.Models.id_eq
refused = refl
