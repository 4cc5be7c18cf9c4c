-- ===== src/YarnClassic/Packages.antt =====
-- hermeto/core/package_managers/yarn_classic/resolver.py: the packages of a project.
use Prim.Native.String.{[] as ε, ◌∷◌ as ◌▹◌}
use cachi.Base.{
  String, Bool, true, false, not, ◌&&◌, ◌||◌, Option, none, some, List, [], ◌∷◌, ◌==◌, string_eq,
  char_eq, option_eq, if◌then◌else◌, contains,
}
use cachi.Base.Text.{startswith, endswith, has_char, has_text, split_on}
use cachi.Base.Text.Affixes.{drop}
use cachi.Errors.{
  Result, ok, err, ◌>>=◌, package_rejected, unexpected_format, value_error, type_error,
}
use cachi.RootedPath.{PurePath, RootedPath, join_within_root}
use cachi.Npm.Urls.{in_cnames}
use cachi.YarnClassic.Search.{at}
use cachi.YarnClassic.Mirror.{YarnUrl, get_tarball_mirror_name, get_git_tarball_mirror_name}

-- `_BasePackage`
pub record BasePackage : Type 0 where
  pub name : String
  pub version : Option String
  pub integrity : Option String
  pub dev : Bool

-- The classes of packages, with their URLs or paths.
pub data YarnClassicPackage : Type 0 where
  registry_package git_package url_package : BasePackage → (url : String) → YarnClassicPackage
  file_package workspace_package link_package :
      BasePackage → (path : RootedPath) → YarnClassicPackage

-- `pyarn.lockfile.Package`, as the factory reads it.
pub record LockPackage : Type 0 where
  pub name : String
  pub version : String
  pub url : Option String
  pub path : Option String
  pub checksum : Option String

-- What comes from elsewhere: `urlparse`, `pathlib.Path`, `Path.resolve`, the names of the members of
-- a tarball, the `name` in the JSON of a member (`none` for what is no file), and the `name` of a
-- package.json, if the file exists.
pub record YarnFiles : Type 0 where
  pub urlparse : String → Result YarnUrl
  pub path_of : String → PurePath
  pub resolve : PurePath → Result PurePath
  pub getnames : RootedPath → Result (List String)
  pub extract_name : RootedPath → String → Result (Option (Option String))
  pub exists : PurePath → Bool
  pub json_name : RootedPath → Result (Option String)

-- `\.git#.+`, somewhere in a text
unfoldable pub has_git_ref : String → Bool
unfolding startswith drop
has_git_ref ε = false
has_git_ref (c ▹ s) =
    let rest = has_git_ref s in startswith (c ▹ s) ".git#" && not (drop 5 (c ▹ s) == "") || rest

-- What is behind `http:` or `https:`.
unfoldable pub behind_http : String → Option String
unfolding startswith drop
behind_http url =
    if startswith url "http:"
    then some (drop 5 url)
    else if startswith url "https:"
    then some (drop 6 url)
    else none

-- `any(matcher.match(url) for matcher in GIT_PATTERN_MATCHERS)`, on a URL of one line
unfoldable pub matches_git : String → Bool
unfolding has_git_ref behind_http endswith has_char
matches_git url =
    startswith url "git:"
    || startswith url "git+" && has_char ":" (drop 5 url)
    || startswith url "ssh:"
    || (elim (behind_http url) [
      | none ↦ false
      | some rest ↦ endswith (drop 1 rest) ".git" || has_git_ref (drop 1 rest)
    ])

abbrev pub git_hosts : List String
git_hosts = "github.com" ∷ "gitlab.com" ∷ "bitbucket.com" ∷ "bitbucket.org" ∷ []

abbrev pub in_hosts : Option String → Bool
in_hosts none = false
in_hosts (some host) = contains git_hosts host

unfoldable pub nonempty_parts : List String → List String
nonempty_parts [] = []
nonempty_parts (p ∷ parts) = let rest = nonempty_parts parts in if p == "" then rest else p ∷ rest

abbrev pub are_two : List String → Bool
are_two (p ∷ q ∷ []) = true
are_two _ = false

abbrev pub or_empty : Option String → String
or_empty none = ""
or_empty (some s) = s

-- The first of the names that ends with `package.json`.
unfoldable pub first_json : List String → Option String
unfolding endswith
first_json [] = none
first_json (n ∷ names) =
    let rest = first_json names in if endswith n "package.json" then some n else rest

module _ (files : YarnFiles) where
  -- `_is_tarball_url`
  unfoldable pub is_tarball_url : String → Result Bool
  unfolding endswith has_text
  is_tarball_url url = files.urlparse url >>= λ parsed_url. ok (
      (parsed_url.scheme == "http" || parsed_url.scheme == "https")
      && (endswith parsed_url.path ".tar"
          || endswith parsed_url.path ".tar.gz"
          || endswith parsed_url.path ".tgz"
          || parsed_url.hostname == some "codeload.github.com"
            && has_text "tar.gz" parsed_url.path))

  -- `_is_git_url`
  unfoldable pub is_git_url : String → Result Bool
  unfolding matches_git nonempty_parts split_on
  is_git_url url =
      if matches_git url
      then ok true
      else (files.urlparse url >>= λ parsed_url.
          ok (
            in_hosts parsed_url.hostname
            && are_two (nonempty_parts (split_on "/" parsed_url.path))))

  -- `_is_from_npm_registry`, where no URL has no host name.
  unfoldable pub is_from_npm_registry : Option String → Result Bool
  is_from_npm_registry none = ok false
  is_from_npm_registry (some url) =
      files.urlparse url >>= λ parsed_url. ok (in_cnames parsed_url.hostname)

  -- `_read_name_from_tarball`
  unfoldable pub read_name_from_tarball : RootedPath → Result String
  unfolding first_json
  read_name_from_tarball tarball_path = files.getnames tarball_path >>= λ names.
      elim (first_json names) [
        | none ↦ err value_error
        | some subpath ↦ files.extract_name tarball_path subpath >>= λ content. elim content [
          | none ↦ err value_error
          | some none ↦ err value_error
          | some (some name) ↦ ok name
        ]
      ]

  -- `_read_name_from_package_json`
  unfoldable pub read_name_from_package_json : RootedPath → Result String
  read_name_from_package_json path =
      files.json_name path >>= λ name. elim name [ none ↦ err value_error | some n ↦ ok n ]

  module _ (source_dir mirror_dir : RootedPath) (runtime_deps : List String) where
    abbrev pub base_of : LockPackage → String → Option String → BasePackage
    base_of p name integrity = record {
      name = name;
      version = some p.version;
      integrity = integrity;
      dev = not (contains runtime_deps (at p.name p.version));
    }

    -- A package at a path: a link without a URL, a file with one.
    unfoldable pub create_at : LockPackage → RootedPath → String → Result YarnClassicPackage
    unfolding join_within_root read_name_from_tarball read_name_from_package_json
    create_at p path ε = do
      json_path ←
          join_within_root files.resolve path
            (record { absolute = false; parts = "package.json" ∷ [] } ∷ [])
      real_name ←
          (if files.exists json_path.path then read_name_from_package_json json_path else ok p.name)
      ok (link_package (base_of p real_name none) path)
    create_at p path (c ▹ url) = read_name_from_tarball path >>= λ real_name.
        ok (file_package (base_of p real_name p.checksum) path)

    -- The branch for a package with a path.
    unfoldable pub create_local : LockPackage → String → Result YarnClassicPackage
    unfolding join_within_root create_at
    create_local p path_text =
        if not (path_text == "") && (files.path_of path_text).absolute
        then err package_rejected
        else (join_within_root files.resolve source_dir (files.path_of path_text ∷ []) >>= λ path.
            create_at p path (or_empty p.url))

    -- The branches for a package of the mirror.
    unfoldable pub create_remote : LockPackage → String → Result YarnClassicPackage
    unfolding is_git_url is_tarball_url get_git_tarball_mirror_name get_tarball_mirror_name
        join_within_root read_name_from_tarball
    create_remote p url = is_git_url url >>= λ git.
        if git
        then (do
          tarball_name ← get_git_tarball_mirror_name files.urlparse files.path_of url
          tarball_path ← join_within_root files.resolve mirror_dir (files.path_of tarball_name ∷ [])
          real_name ← read_name_from_tarball tarball_path
          ok (git_package (base_of p real_name none) url))
        else (is_tarball_url url >>= λ tarball.
            if tarball
            then (do
              tarball_name ← get_tarball_mirror_name files.urlparse files.path_of url
              tarball_path ←
                  join_within_root files.resolve mirror_dir (files.path_of tarball_name ∷ [])
              real_name ← read_name_from_tarball tarball_path
              ok (url_package (base_of p real_name p.checksum) url))
            else err unexpected_format)

    -- The branches, by the URL, the path, and whether the URL is that of a registry. A pattern that
    -- is matched with no URL is a `TypeError`.
    unfoldable pub create_by :
        LockPackage → Option String → Option String → Bool → Result YarnClassicPackage
    unfolding create_local create_remote
    create_by p none none registry = err type_error
    create_by p none (some path) registry = create_local p path
    create_by p (some url) path true = ok (registry_package (base_of p p.name p.checksum) url)
    create_by p (some url) (some path) false = create_local p path
    create_by p (some url) none false = create_remote p url

    -- `create_package_from_pyarn_package`
    unfoldable pub create_package : LockPackage → Result YarnClassicPackage
    unfolding is_from_npm_registry create_by
    create_package p = is_from_npm_registry p.url >>= λ registry. create_by p p.url p.path registry

    -- `_get_packages_from_lockfile`
    unfoldable pub get_packages_from_lockfile : List LockPackage → Result (List YarnClassicPackage)
    unfolding create_package
    get_packages_from_lockfile [] = ok []
    get_packages_from_lockfile (p ∷ pyarn_packages) =
        let rest = get_packages_from_lockfile pyarn_packages in
        create_package p >>= λ q. rest >>= λ packages. ok (q ∷ packages)
