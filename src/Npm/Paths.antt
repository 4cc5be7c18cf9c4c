-- ===== src/Npm/Paths.antt =====
-- hermeto/core/package_managers/npm.py: every package that is not local has a download path.
use mathlib.Core.List.{Memᴰ}
use cachi.Base.{
  String, Char, Bool, true, false, some, List, [], ◌∷◌, ◌++◌, ◌≡◌, ◌≢◌, refl, sym, ap, ap₂, ◌∙◌,
  ◌==◌, ==_refl, string_eq, Bool-cases, inl, inr, subst, arith,
}
use cachi.Base.Dict.{has, has-set_item, found, get_item, keys_of}
use cachi.Base.Text.{startswith}
use cachi.Errors.{not_returned, Result, ok, Result-cases, >>=-eq-ok, ok_injective}
use cachi.RootedPath.{PurePath, RootedPath}
use cachi.Checksum.{Hashlib}
use cachi.Npm.Urls.{
  DepType, registry, git, file, https, normalize_resolved_url, classify_resolved_url,
}
use cachi.Npm.Lock.{
  LockEntry, PackageLock, Wanted, resolved_url, get_packages, wanted_url,
  get_dependencies_to_download,
}
use cachi.Npm.Purls.{Surroundings}
use cachi.Npm.Wanted.{wanted_from-Mem, get_packages-Mem, wanted_url-resolved}
use cachi.Npm.Downloads.{
  NpmConfig, DownloadItem, Plan, no_plan, add_path, add_file, plan_url, plan_from,
  get_npm_dependencies, clone_repo_pack_archive, registry_item, https_item, check_items, with_auth,
}

module _ {H : Type 0} (lib : Surroundings) (hashes : Hashlib H)
    (clone : String → String → PurePath → Result (Unit {0}))
    (fetch : List (String × DownloadItem) → Result (PurePath → List Char)) where
  -- A round keeps the download paths, and has one for a URL that is not local.
  plan_url-has :
      (dir : RootedPath) (config : NpmConfig) (url : String) (info : Wanted) (t : DepType)
      (plan : Plan) {next : Plan} (x : String)
      → plan_url lib hashes clone fetch dir config url info t plan ≡ ok next
      → has plan.download_paths x ≡ true
      → has next.download_paths x ≡ true
  unfolding plan_url add_path add_file
  plan_url-has dir config url info registry plan x h k =
      let (item, e, g) = >>=-eq-ok (registry_item lib hashes clone fetch dir config url info) _ h in
      subst (λ (q : Plan). has q.download_paths x ≡ true) (ok_injective g)
        (has-set_item url x item.download_path plan.download_paths ∙ ground (arith, k))
  plan_url-has dir config url info git plan x h k =
      let (path, e, g) = >>=-eq-ok (clone_repo_pack_archive lib hashes clone fetch url dir) _ h in
      subst (λ (q : Plan). has q.download_paths x ≡ true) (ok_injective g)
        (has-set_item url x path plan.download_paths ∙ ground (arith, k))
  plan_url-has dir config url info file plan x h k =
      subst (λ (q : Plan). has q.download_paths x ≡ true) (ok_injective h) k
  plan_url-has dir config url info https plan x h k =
      let (item, e, g) = >>=-eq-ok (https_item lib hashes clone fetch dir url info) _ h in
      subst (λ (q : Plan). has q.download_paths x ≡ true) (ok_injective g)
        (has-set_item url x item.download_path plan.download_paths ∙ ground (arith, k))

  plan_url_new :
      (dir : RootedPath) (config : NpmConfig) (url : String) (info : Wanted) (t : DepType)
      (plan : Plan) {next : Plan}
      → plan_url lib hashes clone fetch dir config url info t plan ≡ ok next
      → t ≢ file
      → has next.download_paths url ≡ true
  unfolding plan_url add_path add_file
  plan_url_new dir config url info registry plan h n =
      let (item, e, g) = >>=-eq-ok (registry_item lib hashes clone fetch dir config url info) _ h in
      subst (λ (q : Plan). has q.download_paths url ≡ true) (ok_injective g)
        (has-set_item url url item.download_path plan.download_paths
          ∙ ground (arith, ==_refl {A = String} url))
  plan_url_new dir config url info git plan h n =
      let (path, e, g) = >>=-eq-ok (clone_repo_pack_archive lib hashes clone fetch url dir) _ h in
      subst (λ (q : Plan). has q.download_paths url ≡ true) (ok_injective g)
        (has-set_item url url path plan.download_paths ∙ ground (arith, ==_refl {A = String} url))
  plan_url_new dir config url info file plan h n = absurd (n refl)
  plan_url_new dir config url info https plan h n =
      let (item, e, g) = >>=-eq-ok (https_item lib hashes clone fetch dir url info) _ h in
      subst (λ (q : Plan). has q.download_paths url ≡ true) (ok_injective g)
        (has-set_item url url item.download_path plan.download_paths
          ∙ ground (arith, ==_refl {A = String} url))

  -- A round that returns, and the rounds behind it.
  first_round :
      (dir : RootedPath) (config : NpmConfig) (plan : Plan) (url : String) (info : Wanted)
      (deps : List (String × Wanted)) {last : Plan}
      → plan_from lib hashes clone fetch dir config plan ((url, info) ∷ deps) ≡ ok last
      → (t : DepType) × (next : Plan) × (classify_resolved_url lib.urlparse
            (normalize_resolved_url url)
          ≡ ok t)
        × (plan_url lib hashes clone fetch dir config (normalize_resolved_url url) info t plan
            ≡ ok next)
        × (plan_from lib hashes clone fetch dir config next deps ≡ ok last)
  unfolding plan_from
  first_round dir config plan url info deps h =
      elim (Result-cases (classify_resolved_url lib.urlparse (normalize_resolved_url url))) [
        | inl (e, j) ↦ absurd (not_returned (rw (j, plan_from) at h))
        | inr (t, j) ↦
            (let g = rw (j, plan_from) at h in
              elim (Result-cases (
                plan_url lib hashes clone fetch dir config (normalize_resolved_url url) info t
                  plan)) [
                    | inl (e, k) ↦ absurd (not_returned (rw (k) at g))
                    | inr (next, k) ↦ (t, next, j, k, rw (k) at g)
                  ])
      ]

  no_round :
      (dir : RootedPath) (config : NpmConfig) (plan : Plan) {last : Plan}
      → plan_from lib hashes clone fetch dir config plan [] ≡ ok last
      → plan ≡ last
  unfolding plan_from
  no_round dir config plan h = ok_injective h

  plan_from-has :
      (dir : RootedPath) (config : NpmConfig) (plan : Plan) (deps : List (String × Wanted))
      {last : Plan} (x : String)
      → plan_from lib hashes clone fetch dir config plan deps ≡ ok last
      → has plan.download_paths x ≡ true
      → has last.download_paths x ≡ true
  plan_from-has dir config plan [] x h k =
      subst (λ (q : Plan). has q.download_paths x ≡ true) (no_round dir config plan h) k
  plan_from-has dir config plan ((url, info) ∷ deps) x h k =
      let (t, next, c, j, g) = first_round dir config plan url info deps h in
      plan_from-has dir config next deps x g
        (plan_url-has dir config (normalize_resolved_url url) info t plan x j k)

  plan_from_new :
      (dir : RootedPath) (config : NpmConfig) (plan : Plan) (deps : List (String × Wanted))
      {last : Plan} (url : String) {t : DepType}
      → plan_from lib hashes clone fetch dir config plan deps ≡ ok last
      → has deps url ≡ true
      → classify_resolved_url lib.urlparse (normalize_resolved_url url) ≡ ok t
      → t ≢ file
      → has last.download_paths (normalize_resolved_url url) ≡ true
  plan_from_new dir config plan [] url h k c n = unfold keys_of in cc
  plan_from_new dir config plan ((u, info) ∷ deps) {last} url {t} h k c n =
      let (t2, next, c2, j, g) = first_round dir config plan u info deps h in
      elim (Bool-cases (u == url)) [
        | inl same ↦
            (let equal : u ≡ url = grind arith in
              let kind : t2 ≡ t = ok_injective (
                sym c2
                ∙ ap (λ v. classify_resolved_url lib.urlparse (normalize_resolved_url v)) equal
                ∙ c) in
              subst (λ v. has last.download_paths (normalize_resolved_url v) ≡ true) equal
                (plan_from-has dir config next deps (normalize_resolved_url u) g (
                  plan_url_new dir config (normalize_resolved_url u) info t2 plan j
                    (λ e. n (sym kind ∙ e)))))
        | inr other ↦
            plan_from_new dir config next deps url g (unfold keys_of in ground (arith, k, other)) c
              n
      ]

-- Where the downloads return, each package of the lockfile has the path of its download: a package
-- that is no link and not the main one, with a URL that does not begin with `file:` and is not of
-- that kind.
pub packages_have_paths :
    {H : Type 0} (lib : Surroundings) (hashes : Hashlib H)
    (clone : String → String → PurePath → Result (Unit {0}))
    (fetch : List (String × DownloadItem) → Result (PurePath → List Char))
    (parts : String → List String) (fnmatch : String → String → Bool) (dir : RootedPath)
    (config : NpmConfig) (lock : PackageLock) {paths : List (String × RootedPath)}
    → get_npm_dependencies lib hashes clone fetch dir config
        (get_dependencies_to_download (get_packages parts fnmatch lock.packages))
      ≡ ok paths
    → (path : String) (e : LockEntry) (url : String) (t : DepType) → Memᴰ (path, e) lock.packages
    → e.link ≡ false
    → (path == "") ≡ false
    → resolved_url path e ≡ some url
    → (url == "") ≡ false
    → startswith url "file:" ≡ false
    → classify_resolved_url lib.urlparse (normalize_resolved_url url) ≡ ok t
    → t ≢ file
    → (p : RootedPath) × (get_item (normalize_resolved_url url) paths ≡ some p)
unfolding get_npm_dependencies get_dependencies_to_download
packages_have_paths lib hashes clone fetch parts fnmatch dir config lock {paths} h path e url t m l
      n r g f c k =
    let packages = get_packages parts fnmatch lock.packages in
    let (p, inside, same_path, same_dict) =
      get_packages-Mem parts fnmatch path e lock.packages m l n in
    let deps = get_dependencies_to_download packages in
    let (plan, planned, h2) =
      >>=-eq-ok (plan_from lib hashes clone fetch dir config no_plan deps) _ h in
    let (content, _, h3) =
      >>=-eq-ok
        (fetch (
          with_auth lib hashes clone fetch true plan.files_to_download
          ++ with_auth lib hashes clone fetch false plan.files_to_download))
        _ h2 in
    let (_, _, h4) =
      >>=-eq-ok (check_items lib hashes clone fetch content plan.files_to_download) _ h3 in
    let wants : wanted_url p ≡ some url =
      wanted_url-resolved p url (ap₂ resolved_url same_path same_dict ∙ r) g f in
    found (normalize_resolved_url url) paths (
      subst (λ d. has d (normalize_resolved_url url) ≡ true) (ok_injective h4)
        (plan_from_new lib hashes clone fetch dir config no_plan deps url planned
          (wanted_from-Mem [] packages p url inside wants) c k))
