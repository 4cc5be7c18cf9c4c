-- ===== src/Tests/Npm.antt =====
-- Runs and instances for the npm package manager.
use mathlib.Core.List.{Memᴰ}
use cachi.Base.{
  String, true, false, string_eq, char_eq, bool_eq, if◌then◌else◌, Option, none, some, List, [],
  ◌∷◌, ◌≡◌, refl,
}
use cachi.Base.Dict.{get_item}
use cachi.Base.Text.{startswith, join, partition}
use cachi.Errors.{Result, ok}
use cachi.RootedPath.{RootedPath}
use cachi.Checksum.{Hashlib}
use cachi.Npm.Urls.{
  Url, registry, classify_resolved_url, normalize_resolved_url, update_vcs_url_with_full_hostname,
}
use cachi.Npm.Lock.{
  LockEntry, PackageLock, resolved_url, get_packages, get_dependencies_to_download,
}
use cachi.Npm.Purls.{Surroundings}
use cachi.Npm.Downloads.{NpmConfig, get_npm_dependencies}
use cachi.Npm.Update.{update_package_lock_with_local_paths}
use cachi.Npm.Cleared.{EmptyHasNoScheme}
use cachi.Npm.Local.{AllLocal, update_package_lock-AllLocal}
use cachi.Npm.Paths.{packages_have_paths}

hosted :
    update_vcs_url_with_full_hostname "bitbucket:kevva/is-positive#97edff6"
    ≡ "git+ssh://git@bitbucket.org/kevva/is-positive.git#97edff6"
unfolding update_vcs_url_with_full_hostname string_eq partition char_eq
hosted = refl

abbrev read_url : String → Result Url
read_url s =
    if startswith s "https:"
    then ok (record { scheme = "https"; hostname = some "registry.npmjs.org"; path = "/a.tgz" })
    else ok (record { scheme = ""; hostname = none; path = s })

abbrev surroundings : Surroundings
surroundings = record {
  urlparse = read_url;
  resolve = λ p. ok p;
  path_of = λ s. record { absolute = false; parts = s ∷ [] };
  text_of = λ p. join "/" p.parts;
  base64 = record { decode = λ s. some s; encode = λ s. s };
  to_string = λ p. ok p.name;
  repo_id = ok (record { origin_url = "u"; commit_id = "c" });
}

abbrev entry : Option String → List (String × List (String × String)) → LockEntry
entry url sections = record {
  name = none;
  version = some "1";
  resolved = url;
  integrity = none;
  in_bundle = false;
  dev = false;
  link = false;
  workspaces = none;
  sections = sections;
}

abbrev rooted : List String → RootedPath
rooted parts = record {
  root = record { absolute = true; parts = "r" ∷ [] };
  path = record { absolute = true; parts = "r" ∷ parts };
}

abbrev url_of_a : String
url_of_a = "https://registry.npmjs.org/a.tgz"

abbrev a_entry : LockEntry
a_entry = entry (some url_of_a) (("dependencies", ("b", "^1") ∷ ("c", "x/c") ∷ []) ∷ [])

abbrev lock_with : LockEntry → PackageLock
lock_with e = record {
  lockfile_path = rooted ("package-lock.json" ∷ []);
  name = some "main";
  version = none;
  packages = ("", entry none []) ∷ ("node_modules/a", e) ∷ [];
}

abbrev no_hashes : Hashlib (Unit {0})
no_hashes = record {
  guaranteed = λ _. false;
  new = λ _. tt;
  update = λ h _. h;
  hexdigest = λ _. ok "";
}

abbrev no_proxy : NpmConfig
no_proxy = record { proxy_url = none; proxy_login = none; proxy_password = none }

abbrev paths_of_a : List (String × RootedPath)
paths_of_a = (url_of_a, rooted ("deps" ∷ "a-1.tgz" ∷ [])) ∷ []

downloaded :
    get_npm_dependencies surroundings no_hashes
      (λ _ _ _. ok tt)
      (λ _. ok (λ _. []))
      (rooted ("deps" ∷ []))
      no_proxy
      (get_dependencies_to_download
        (get_packages (λ s. "node_modules" ∷ "a" ∷ []) (λ _ _. false) (lock_with a_entry).packages))
    ≡ ok paths_of_a
unfolding get_npm_dependencies get_dependencies_to_download get_packages string_eq char_eq bool_eq
downloaded = refl

paths_example : (p : RootedPath) × (get_item (normalize_resolved_url url_of_a) paths_of_a ≡ some p)
unfolding string_eq startswith normalize_resolved_url resolved_url char_eq classify_resolved_url
paths_example =
    packages_have_paths surroundings no_hashes (λ _ _ _. ok tt) (λ _. ok (λ _. []))
      (λ s. "node_modules" ∷ "a" ∷ []) (λ _ _. false) (rooted ("deps" ∷ [])) no_proxy
      (lock_with a_entry) downloaded "node_modules/a" a_entry url_of_a registry
      (Memᴰ.tail (Memᴰ.head refl)) refl refl refl refl refl refl (λ h. cc)

abbrev local_a : LockEntry
local_a =
    entry (some "file://${output_dir}/deps/a-1.tgz")
      (("dependencies", ("b", "^1") ∷ ("c", "") ∷ []) ∷ [])

updated :
    update_package_lock_with_local_paths surroundings paths_of_a (lock_with a_entry)
    ≡ ok (lock_with local_a)
unfolding update_package_lock_with_local_paths string_eq char_eq bool_eq join
updated = refl

quiet : EmptyHasNoScheme surroundings
unfolding startswith
quiet = (record { scheme = ""; hostname = none; path = "" }, refl, refl)

local_example :
    AllLocal surroundings paths_of_a (lock_with a_entry).packages (lock_with local_a).packages
local_example =
    update_package_lock-AllLocal surroundings paths_of_a (lock_with a_entry) quiet updated
