-- ===== src/Npm/Downloads.antt =====
-- hermeto/core/package_managers/npm.py: `_get_npm_dependencies`, without the making of directories.
use cachi.Base.{
  String, ◌<>◌, Char, Bool, true, false, Option, none, some, List, [], ◌∷◌, ◌++◌, string_eq,
  if◌then◌else◌,
}
use cachi.Base.Dict.{set_item}
use cachi.Base.Text.Affixes.{removeprefix, replace_char}
use cachi.Errors.{Result, ok, err, ◌>>=◌, missing_checksum}
use cachi.RootedPath.{PurePath, RootedPath, join_within_root}
use cachi.Checksum.{Hashlib, from_sri, must_match_any_checksum}
use cachi.Npm.Urls.{
  DepType, registry, git, file, https, normalize_resolved_url, classify_resolved_url,
  extract_git_info_npm, patch_url_to_point_to_a_proxy,
}
use cachi.Npm.Lock.{Wanted}
use cachi.Npm.Purls.{Surroundings, given}

-- `config.npm`
pub record NpmConfig : Type 0 where
  pub proxy_url : Option String
  pub proxy_login : Option String
  pub proxy_password : Option String

pub record DownloadItem : Type 0 where
  pub fetch_url : String
  pub download_path : RootedPath
  pub integrity : Option String
  pub proxy_auth : Option (String × String)

-- The two dictionaries of the loop.
pub record Plan : Type 0 where
  pub files_to_download : List (String × DownloadItem)
  pub download_paths : List (String × RootedPath)

abbrev pub no_plan : Plan
no_plan = record { files_to_download = []; download_paths = [] }

-- A value in an f-string.
abbrev pub shown : Option String → String
shown none = "None"
shown (some s) = s

abbrev pub archive_name : Wanted → String
archive_name info =
    replace_char "/" "-" (removeprefix (info.name <> ("-" <> (shown info.version <> ".tgz"))) "@")

abbrev pub auth_of : NpmConfig → Option (String × String)
auth_of config = elim (given config.proxy_login) [
  | none ↦ none
  | some login ↦ elim (given config.proxy_password) [
    | none ↦ none
    | some password ↦ some (login, password)
  ]
]

unfoldable pub add_path : String → RootedPath → Plan → Plan
unfolding set_item
add_path url path plan = record plan { download_paths = set_item url path plan.download_paths }

unfoldable pub add_file : String → DownloadItem → Plan → Plan
unfolding add_path set_item
add_file url item plan = record (add_path url item.download_path plan) {
  files_to_download = set_item url item plan.files_to_download;
}

-- `clone` is `clone_as_tarball`. `fetch` downloads the items, and leaves a file system with the
-- contents of the files.
module _ {H : Type 0} (lib : Surroundings) (hashes : Hashlib H)
    (clone : String → String → PurePath → Result (Unit {0}))
    (fetch : List (String × DownloadItem) → Result (PurePath → List Char)) where
  -- `_clone_repo_pack_archive`
  unfoldable pub clone_repo_pack_archive : String → RootedPath → Result RootedPath
  unfolding extract_git_info_npm join_within_root
  clone_repo_pack_archive vcs download_dir = do
    info ← extract_git_info_npm lib.urlparse vcs
    download_path ← join_within_root lib.resolve download_dir (
        lib.path_of info.host
        ∷ lib.path_of info.namespace
        ∷ lib.path_of info.repo
        ∷ lib.path_of (info.repo <> ("-external-gitcommit-" <> (info.ref <> ".tgz")))
        ∷ [])
    _ ← clone info.url info.ref download_path.path
    ok download_path

  unfoldable pub registry_item : RootedPath → NpmConfig → String → Wanted → Result DownloadItem
  unfolding join_within_root removeprefix replace_char patch_url_to_point_to_a_proxy
  registry_item download_dir config url info =
      join_within_root lib.resolve download_dir (lib.path_of (archive_name info) ∷ []) >>= λ path.
      elim config.proxy_url [
        | none ↦ ok (record {
          fetch_url = url;
          download_path = path;
          integrity = info.integrity;
          proxy_auth = none;
        })
        | some proxy_url ↦ patch_url_to_point_to_a_proxy lib.urlparse url proxy_url >>= λ fetch_url.
            ok (record {
              fetch_url = fetch_url;
              download_path = path;
              integrity = info.integrity;
              proxy_auth = auth_of config;
            })
      ]

  unfoldable pub https_item : RootedPath → String → Wanted → Result DownloadItem
  unfolding join_within_root from_sri
  https_item download_dir url info = elim (given info.integrity) [
    | none ↦ err missing_checksum
    | some integrity ↦ do
      checksum ← from_sri lib.base64 integrity
      path ← join_within_root lib.resolve download_dir (
          lib.path_of ("external-" <> info.name)
          ∷ lib.path_of (
              info.name
              <> ("-external-" <> (checksum.algorithm <> ("-" <> (checksum.hexdigest <> ".tgz")))))
          ∷ [])
      ok (record {
        fetch_url = url;
        download_path = path;
        integrity = info.integrity;
        proxy_auth = none;
      })
  ]

  -- The body of the first loop, on a URL that is normalized.
  unfoldable pub plan_url : RootedPath → NpmConfig → String → Wanted → DepType → Plan → Result Plan
  unfolding clone_repo_pack_archive registry_item https_item add_path add_file
  plan_url download_dir config url info file plan = ok plan
  plan_url download_dir config url info git plan =
      clone_repo_pack_archive url download_dir >>= λ path. ok (add_path url path plan)
  plan_url download_dir config url info registry plan =
      registry_item download_dir config url info >>= λ item. ok (add_file url item plan)
  plan_url download_dir config url info https plan =
      https_item download_dir url info >>= λ item. ok (add_file url item plan)

  unfoldable pub plan_from : RootedPath → NpmConfig → Plan → List (String × Wanted) → Result Plan
  unfolding plan_url classify_resolved_url normalize_resolved_url
  plan_from download_dir config plan [] = ok plan
  plan_from download_dir config plan ((url, info) ∷ deps) =
      elim (classify_resolved_url lib.urlparse (normalize_resolved_url url)) [
        | err e ↦ err e
        | ok dep_type ↦
            elim (plan_url download_dir config (normalize_resolved_url url) info dep_type plan) [
              | err e ↦ err e
              | ok next ↦ plan_from download_dir config next deps
            ]
      ]

  unfoldable pub with_auth : Bool → List (String × DownloadItem) → List (String × DownloadItem)
  with_auth wanted [] = []
  with_auth wanted ((url, item) ∷ items) =
      let rest = with_auth wanted items in
      elim item.proxy_auth [
        | none ↦ if wanted then rest else (url, item) ∷ rest
        | some _ ↦ if wanted then (url, item) ∷ rest else rest
      ]

  -- The last loop. The size of the chunks is the default.
  unfoldable pub check_items :
      (PurePath → List Char) → List (String × DownloadItem) → Result (Unit {0})
  unfolding must_match_any_checksum from_sri
  check_items content [] = ok tt
  check_items content ((url, item) ∷ items) =
      let rest = check_items content items in
      elim (given item.integrity) [
        | none ↦ rest
        | some integrity ↦ do
          checksum ← from_sri lib.base64 integrity
          _ ← must_match_any_checksum hashes (content item.download_path.path) (checksum ∷ []) 10240
          rest
      ]

  -- `_get_npm_dependencies`
  unfoldable pub get_npm_dependencies :
      RootedPath → NpmConfig → List (String × Wanted) → Result (List (String × RootedPath))
  unfolding plan_from with_auth check_items
  get_npm_dependencies download_dir config deps_to_download = do
    plan ← plan_from download_dir config no_plan deps_to_download
    content ←
        fetch (with_auth true plan.files_to_download ++ with_auth false plan.files_to_download)
    _ ← check_items content plan.files_to_download
    ok plan.download_paths
