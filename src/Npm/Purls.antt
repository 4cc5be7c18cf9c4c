-- ===== src/Npm/Purls.antt =====
-- hermeto/core/package_managers/npm.py: `_Purlifier` and the components of a lockfile.
use mathlib.Core.List.{map}
use cachi.Base.{
  String, Bool, false, Option, none, some, List, [], ◌∷◌, ◌==◌, string_eq, list_eq, if◌then◌else◌,
  string_ord,
}
use cachi.Base.Text.{lower}
use cachi.Errors.{Result, ok, err, ◌>>=◌, unexpected_format}
use cachi.RootedPath.{PurePath, RootedPath, join_within_root, subpath_from_root}
use cachi.Checksum.{Base64, from_sri, info_str}
use cachi.Properties.{empty, to_properties}
use cachi.Sbom.Component.{ExternalReference, Component, library, validate}
use cachi.Npm.Urls.{
  Url, RepoId, as_vcs_url_qualifier, registry, git, file, https, DepType, normalize_resolved_url,
  classify_resolved_url, extract_git_info_npm,
}
use cachi.Npm.Lock.{PackageLock, Package, resolved_url, bundled}

-- `PackageURL(type="npm", …)`, with the qualifiers that are given.
pub record NpmPurl : Type 0 where
  pub name : String
  pub version : Option String
  pub qualifiers : List (String × String)
  pub subpath : Option String

pub record NpmComponentInfo : Type 0 where
  pub name : String
  pub purl : String
  pub version : Option String
  pub dev : Bool
  pub is_bundled : Bool
  pub external_refs : Option (List ExternalReference)
  pub missing_hash_in_file : Option String

-- What comes from elsewhere: `urlparse`, `Path.resolve`, `pathlib.Path` with its text, base64,
-- `PackageURL.to_string`, and the repository that the package is in.
pub record Surroundings : Type 0 where
  pub urlparse : String → Result Url
  pub resolve : PurePath → Result PurePath
  pub path_of : String → PurePath
  pub text_of : PurePath → String
  pub base64 : Base64
  pub to_string : NpmPurl → Result String
  pub repo_id : Result RepoId

-- A text that is there, and not empty.
abbrev pub given : Option String → Option String
given none = none
given (some s) = if s == "" then none else some s

module _ (lib : Surroundings) where
  -- The qualifiers and the subpath of a URL, by its kind.
  unfoldable pub purl_parts :
      RootedPath
      → String
      → Option String
      → DepType
      → Result (List (String × String) × Option String)
  unfolding extract_git_info_npm as_vcs_url_qualifier join_within_root subpath_from_root from_sri
      info_str
  purl_parts pkg_path url integrity registry = ok ([], none)
  purl_parts pkg_path url integrity git = extract_git_info_npm lib.urlparse url >>= λ info. ok (
    ("vcs_url", as_vcs_url_qualifier (record { origin_url = info.url; commit_id = info.ref })) ∷ [],
    none,
  )
  purl_parts pkg_path url integrity file = do
    repo_id ← lib.repo_id
    parsed ← lib.urlparse url
    joined ← join_within_root lib.resolve pkg_path (lib.path_of parsed.path ∷ [])
    subpath ← subpath_from_root joined
    ok (
      ("vcs_url", as_vcs_url_qualifier repo_id) ∷ [],
      if subpath.parts == [] then none else some (lib.text_of subpath),
    )
  purl_parts pkg_path url integrity https = elim (given integrity) [
    | none ↦ ok (("download_url", url) ∷ [], none)
    | some sri ↦ from_sri lib.base64 sri >>= λ checksum.
        ok (("download_url", url) ∷ ("checksum", info_str checksum) ∷ [], none)
  ]

  -- `_Purlifier.get_purl`
  unfoldable pub get_purl :
      RootedPath → String → Option String → Option String → Option String → Result NpmPurl
  unfolding purl_parts classify_resolved_url normalize_resolved_url lower
  get_purl pkg_path name version url integrity = elim (given url) [
    | none ↦ ok (record { name = lower name; version = version; qualifiers = []; subpath = none })
    | some u ↦
        (let normal = normalize_resolved_url u in
          classify_resolved_url lib.urlparse normal >>= λ dep_type.
          purl_parts pkg_path normal integrity dep_type >>= λ (qualifiers, subpath). ok (record {
            name = lower name;
            version = version;
            qualifiers = qualifiers;
            subpath = subpath;
          }))
  ]

  -- `_purlifier`: the directory of the lockfile.
  unfoldable pub purlifier : PackageLock → Result RootedPath
  unfolding join_within_root
  purlifier lock =
      join_within_root lib.resolve lock.lockfile_path
        (record { absolute = false; parts = ".." ∷ [] } ∷ [])

  -- `get_main_package`
  unfoldable pub get_main_package : PackageLock → Result NpmComponentInfo
  unfolding get_purl purlifier
  get_main_package lock = elim (given lock.name) [
    | none ↦ err unexpected_format
    | some name ↦ do
      pkg_path ← purlifier lock
      purl ← get_purl pkg_path name lock.version (some "file:.") none
      text ← lib.to_string purl
      ok (record {
        name = name;
        purl = text;
        version = lock.version;
        dev = false;
        is_bundled = false;
        external_refs = none;
        missing_hash_in_file = none;
      })
  ]

  abbrev pub proxy_refs : Option String → DepType → Option (List ExternalReference)
  proxy_refs (some proxy_url) registry =
      some (record { url = proxy_url; type = "distribution"; comment = some "proxy URL" } ∷ [])
  proxy_refs proxy_url dep_type = none

  -- The file that is named where a package that is downloaded has no hash.
  abbrev pub missing_hash : String → Option String → DepType → Option String
  missing_hash lock_text integrity dep_type = elim (given integrity) [
    | some _ ↦ none
    | none ↦ elim dep_type [
      | registry ↦ some lock_text
      | https ↦ some lock_text
      | git ↦ none
      | file ↦ none
    ]
  ]

  -- `to_component` of `get_sbom_components`
  unfoldable pub component_info : PackageLock → Option String → Package → Result NpmComponentInfo
  unfolding get_purl purlifier resolved_url bundled classify_resolved_url normalize_resolved_url
      subpath_from_root
  component_info lock proxy_url p = do
    let e = p.package_dict
    pkg_path ← purlifier lock
    purl ← get_purl pkg_path p.name e.version (resolved_url p.path e) e.integrity
    text ← lib.to_string purl
    let info : NpmComponentInfo = record {
      name = p.name;
      purl = text;
      version = e.version;
      dev = e.dev;
      is_bundled = bundled e;
      external_refs = none;
      missing_hash_in_file = none;
    }
    elim (given (resolved_url p.path e)) [
      | none ↦ ok info
      | some url ↦ do
        dep_type ← classify_resolved_url lib.urlparse (normalize_resolved_url url)
        subpath ← subpath_from_root lock.lockfile_path
        ok (record info {
          external_refs = proxy_refs proxy_url dep_type;
          missing_hash_in_file = missing_hash (lib.text_of subpath) e.integrity dep_type;
        })
    ]

  -- `get_sbom_components`
  unfoldable pub get_sbom_components :
      PackageLock → Option String → List Package → Result (List NpmComponentInfo)
  unfolding component_info
  get_sbom_components lock proxy_url [] = ok []
  get_sbom_components lock proxy_url (p ∷ packages) =
      let rest = get_sbom_components lock proxy_url packages in
      component_info lock proxy_url p >>= λ info. rest >>= λ infos. ok (info ∷ infos)

-- `to_component` of `_generate_component_list`
unfoldable pub to_component : String → NpmComponentInfo → Component
unfolding to_properties validate
to_component app info =
    let missing : List String = elim (given info.missing_hash_in_file) [
      | none ↦ []
      | some path ↦ path ∷ []
    ] in
    validate app (record {
      bom_ref = "";
      name = info.name;
      purl = info.purl;
      version = info.version;
      properties = to_properties app (record empty {
        npm_bundled = info.is_bundled;
        npm_development = info.dev;
        missing_hash_in_file = missing;
      });
      type = library;
      external_references = info.external_refs;
      pedigree = none;
    })

-- `_generate_component_list`
unfoldable pub generate_component_list : String → List NpmComponentInfo → List Component
unfolding to_component
generate_component_list app infos = map (to_component app) infos
