-- ===== src/Tests/Mirror.antt =====
-- Runs and instances for the packages of yarn_classic and their tarballs.
use mathlib.Core.List.{Memᴰ}
use cachi.Base.{
  String, true, false, none, some, List, [], ◌∷◌, ◌≡◌, refl, string_eq, char_eq, bool_eq, option_eq,
}
use cachi.Base.Text.{split_on, startswith}
use cachi.Errors.{Result, ok}
use cachi.RootedPath.{PurePath, RootedPath}
use cachi.YarnClassic.Mirror.{YarnUrl, get_tarball_mirror_name, get_git_tarball_mirror_name}
use cachi.YarnClassic.Packages.{
  BasePackage, YarnClassicPackage, registry_package, file_package, LockPackage, YarnFiles,
  create_package,
}
use cachi.YarnClassic.Collisions.{tarball_of, yarn_package_eq, verify_no_offline_mirror_collisions}
use cachi.YarnClassic.Apart.{verify_no_offline_mirror_collisions-eq}
use cachi.YarnClassic.Inside.{IsMade, create_package-IsMade}

-- A URL is its path.
abbrev read_url : String → Result YarnUrl
read_url s = ok (record { scheme = "https"; hostname = none; path = s; fragment = "f" })

abbrev read_path : String → PurePath
read_path s = record { absolute = false; parts = split_on "/" s }

scoped :
    get_tarball_mirror_name read_url read_path "h/@angular/core/-/core-1.tgz"
    ≡ ok "@angular-core-1.tgz"
unfolding get_tarball_mirror_name split_on char_eq string_eq
scoped = refl

encoded :
    get_tarball_mirror_name read_url read_path "h/@angular%2fcore/-/core-1.tgz"
    ≡ ok "@angular-core-1.tgz"
unfolding get_tarball_mirror_name split_on char_eq string_eq
encoded = refl

unscoped : get_tarball_mirror_name read_url read_path "h/acorn/-/acorn-1.tgz" ≡ ok "acorn-1.tgz"
unfolding get_tarball_mirror_name split_on char_eq string_eq
unscoped = refl

git_name : get_git_tarball_mirror_name read_url read_path "org/:repo.git" ≡ ok "repo.git-f"
unfolding get_git_tarball_mirror_name startswith string_eq split_on char_eq
git_name = refl

abbrev base : BasePackage
base = record { name = "acorn"; version = some "1"; integrity = none; dev = true }

abbrev acorn : YarnClassicPackage
acorn = registry_package base "h/acorn/-/acorn-1.tgz"

abbrev mirrored : List YarnClassicPackage
mirrored = acorn ∷ registry_package base "h/other/-/other-1.tgz" ∷ acorn ∷ []

acorn_tarball : tarball_of read_url read_path acorn ≡ ok (some "acorn-1.tgz")
unfolding tarball_of split_on char_eq string_eq
acorn_tarball = refl

mirror_accepted : verify_no_offline_mirror_collisions read_url read_path mirrored ≡ ok tt
unfolding verify_no_offline_mirror_collisions string_eq split_on char_eq yarn_package_eq
mirror_accepted = refl

mirror_example : acorn ≡ acorn
mirror_example =
    verify_no_offline_mirror_collisions-eq read_url read_path mirrored mirror_accepted acorn acorn
      "acorn-1.tgz" (Memᴰ.head refl) (Memᴰ.tail (Memᴰ.tail (Memᴰ.head refl))) acorn_tarball
      acorn_tarball

abbrev files : YarnFiles
files = record {
  urlparse = read_url;
  path_of = read_path;
  resolve = λ p. ok p;
  getnames = λ _. ok ("package/package.json" ∷ []);
  extract_name = λ _ _. ok (some (some "real"));
  exists = λ _. true;
  json_name = λ _. ok (some "real");
}

abbrev at_root : List String → RootedPath
at_root parts = record {
  root = record { absolute = true; parts = "r" ∷ [] };
  path = record { absolute = true; parts = "r" ∷ parts };
}

abbrev local_entry : LockPackage
local_entry = record {
  name = "l";
  version = "1";
  url = some "file:x/l.tgz";
  path = some "x/l.tgz";
  checksum = none;
}

abbrev local_package : YarnClassicPackage
local_package =
    file_package (record { name = "real"; version = some "1"; integrity = none; dev = false })
      (at_root ("x" ∷ "l.tgz" ∷ []))

created :
    create_package files (at_root []) (at_root ("deps" ∷ [])) ("l@1" ∷ []) local_entry
    ≡ ok local_package
unfolding create_package string_eq bool_eq char_eq
created = refl

inside_example :
    IsMade files (at_root []) (at_root ("deps" ∷ [])) ("l@1" ∷ []) local_entry local_package
inside_example =
    create_package-IsMade files (at_root []) (at_root ("deps" ∷ [])) ("l@1" ∷ []) local_entry
      created
