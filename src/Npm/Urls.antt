-- ===== src/Npm/Urls.antt =====
-- hermeto/core/package_managers/npm.py: the URLs of a lockfile's packages.
use cachi.Base.{
  String, ◌<>◌, Bool, false, not, ◌||◌, Option, none, some, List, [], ◌∷◌, ◌==◌, string_eq,
  option_eq, if◌then◌else◌, contains,
}
use cachi.Base.Text.{startswith, partition, has_char, lower, endswith}
use cachi.Base.Text.Affixes.{drop, removeprefix, removesuffix, strip_char}
use cachi.Errors.{Result, ok, err, ◌>>=◌, unexpected_format, index_error}

-- What `urllib.parse.urlparse` gives: three of its attributes.
pub record Url : Type 0 where
  pub scheme : String
  pub hostname : Option String
  pub path : String

-- `RepoID`, of hermeto/core/scm.py
pub record RepoId : Type 0 where
  pub origin_url : String
  pub commit_id : String

unfoldable pub as_vcs_url_qualifier : RepoId → String
as_vcs_url_qualifier r = "git+" <> (r.origin_url <> ("@" <> r.commit_id))

pub data DepType : Type 0 where
  registry git file https : DepType

abbrev pub npm_registry_cnames : List String
npm_registry_cnames = "registry.npmjs.org" ∷ "registry.yarnpkg.com" ∷ []

abbrev pub in_cnames : Option String → Bool
in_cnames none = false
in_cnames (some host) = contains npm_registry_cnames host

-- What `_update_vcs_url_with_full_hostname` makes of the three parts of its argument.
unfoldable pub full_url : String → String → String → String
full_url host namespace_repo ref =
    let suffix_domain : String = if host == "bitbucket" then "org" else "com" in
    let vcs =
      "git+ssh://git@"
      <> (host <> ("." <> (suffix_domain <> ("/" <> (namespace_repo <> ".git"))))) in
    if not (ref == "") then vcs <> ("#" <> ref) else vcs

-- `_update_vcs_url_with_full_hostname`
unfoldable pub update_vcs_url_with_full_hostname : String → String
unfolding full_url
update_vcs_url_with_full_hostname vcs =
    let (host, path) = partition ":" vcs in
    let (namespace_repo, ref) = partition "#" path in full_url host namespace_repo ref

-- `_normalize_resolved_url`
unfoldable pub normalize_resolved_url : String → String
unfolding update_vcs_url_with_full_hostname startswith
normalize_resolved_url resolved_url =
    if startswith resolved_url "github:"
      || startswith resolved_url "gitlab:"
      || startswith resolved_url "bitbucket:"
    then update_vcs_url_with_full_hostname resolved_url
    else resolved_url

-- The kind of a URL that is read.
unfoldable pub classify : Url → DepType
classify url =
    if in_cnames url.hostname
    then registry
    else if url.scheme == "git" || startswith url.scheme "git+"
    then git
    else if url.scheme == "file"
    then file
    else https

pub record GitInfo : Type 0 where
  pub url : String
  pub ref : String
  pub namespace : String
  pub repo : String
  pub host : String

-- `urlparse`, which raises a `ValueError` on some texts.
module _ (urlparse : String → Result Url) where
  -- `_classify_resolved_url`
  unfoldable pub classify_resolved_url : String → Result DepType
  unfolding classify
  classify_resolved_url resolved_url = urlparse resolved_url >>= λ url. ok (classify url)

  -- `_extract_git_info_npm`
  unfoldable pub extract_git_info_npm : String → Result GitInfo
  unfolding removeprefix removesuffix strip_char lower
  extract_git_info_npm vcs_url =
      let (vcs, ref) = partition "#" vcs_url in
      let clean_url = removeprefix vcs "git+" in
      urlparse clean_url >>= λ url.
      let (namespace, repo) = partition "/" (removesuffix (strip_char "/" url.path) ".git") in
      if clean_url == "" || lower ref == "" || namespace == "" || repo == ""
      then err unexpected_format
      else elim url.hostname [
        | none ↦ err unexpected_format
        | some host ↦
            if host == ""
            then err unexpected_format
            else ok (record {
              url = clean_url;
              ref = lower ref;
              namespace = namespace;
              repo = repo;
              host = host;
            })
      ]

  -- `_patch_url_to_point_to_a_proxy`, where the last character of the empty text is an `IndexError`.
  unfoldable pub patch_url_to_point_to_a_proxy : String → String → Result String
  unfolding drop endswith
  patch_url_to_point_to_a_proxy url proxy_url =
      if proxy_url == ""
      then err index_error
      else (urlparse url >>= λ parsed.
          let base = if endswith proxy_url "/" then proxy_url else proxy_url <> "/" in
          ok (base <> drop 1 parsed.path))

  -- `_should_replace_dependency`
  unfoldable pub should_replace_dependency : String → Result Bool
  unfolding has_char
  should_replace_dependency dependency_version = urlparse dependency_version >>= λ url. ok (
      if url.scheme == "file" || url.scheme == "npm"
      then false
      else not (url.scheme == "") || has_char "/" dependency_version)
