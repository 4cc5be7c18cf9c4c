-- ===== src/Pip/Acceptable.antt =====
-- hermeto/core/package_managers/pip/package_distributions.py: what `process_package_distributions`
-- returns.
use mathlib.Core.List.{map}
use cachi.Base.{
  String, true, Option, some, List, [], ◌∷◌, ◌==◌, string_eq, contains, ◌≡◌, refl, sym, subst, inl,
  inr, Bool-cases, Option-cases,
}
use cachi.Base.Members.{Among, AllMeet}
use cachi.Errors.{Result, ok, >>=-eq-ok, ok_injective}
use cachi.RootedPath.{PurePath, RootedPath, join_within_root}
use cachi.RootedPath.Confined.{IsBelow, join_within_root-IsBelow}
use cachi.Checksum.{from_hash}
use cachi.Input.Filters.{PipBinaryFilters}
use cachi.Pip.Requirement.{PipRequirement}
use cachi.Pip.Wheels.{WheelsFilter}
use cachi.Pip.Picked.{
  AreChecked, checks-AreChecked, IsGiven, Good, no_binary_meets, prefer_binary_meets,
  only_binary_meets,
}
use cachi.Pip.Offered.{IsAllowed, with_version-Among, select_distros-IsAllowed}
use cachi.Pip.Distributions.{
  Surroundings, IndexPackage, DistributionPackageInfo, should_download, Distros, only_sdists,
  only_wheels, both, allowed_distros, has_version, with_version, get_project_packages_from,
  select_distros, make_info, Found, add_info, collect_infos, process_found, version_of,
  process_package_distributions, checksums_of, filter_of,
}

-- Both lists of what is found meet the condition.
abbrev FoundMeet : (DistributionPackageInfo → Type 0) → Found → Type 0
FoundMeet P (sdists, wheels) = AllMeet P sdists × AllMeet P wheels

add_info-FoundMeet :
    (P : DistributionPackageInfo → Type 0) (d : DistributionPackageInfo) (found : Found)
    → (should_download d ≡ true → P d)
    → FoundMeet P found
    → FoundMeet P (add_info d found)
unfolding add_info
add_info-FoundMeet P d (sdists, wheels) p h = elim (Bool-cases (should_download d)) [
  | inr f ↦ rw (f) h
  | inl t ↦ elim (Bool-cases (d.package_type == "sdist")) [
    | inl s ↦ rw (t, s) ((p t, h.0), h.1)
    | inr w ↦ rw (t, w) (h.0, (p t, h.1))
  ]
]

collect_infos-FoundMeet :
    (P : DistributionPackageInfo → Type 0) (allowed : List String)
    (make : IndexPackage → String → Result DistributionPackageInfo) (l : List IndexPackage)
    {found : Found}
    → ((p : IndexPackage) (type : String) (d : DistributionPackageInfo)
        → Among p l
        → p.package_type ≡ some type
        → make p type ≡ ok d
        → should_download d ≡ true
        → P d)
    → collect_infos allowed make l ≡ ok found
    → FoundMeet P found
unfolding collect_infos
collect_infos-FoundMeet P allowed make [] h e = subst (FoundMeet P) (ok_injective e) (tt, tt)
collect_infos-FoundMeet P allowed make (p ∷ l) h e = elim (Option-cases p.package_type) [
  | inl n ↦
      collect_infos-FoundMeet P allowed make l (λ q t d a. h q t d (inr a))
        (rw (n, collect_infos) at e)
  | inr (type, n) ↦ elim (Bool-cases (contains allowed type)) [
    | inr f ↦
        collect_infos-FoundMeet P allowed make l (λ q t d a. h q t d (inr a))
          (rw (n, collect_infos, f) at e)
    | inl t ↦
        (let (d, made, g) = >>=-eq-ok (make p type) _ (rw (n, collect_infos, t) at e) in
          let (found, rest, k) = >>=-eq-ok (collect_infos allowed make l) _ g in
          subst (FoundMeet P) (ok_injective k) (
            add_info-FoundMeet P d found (h p type d (inl refl) n made)
              (collect_infos-FoundMeet P allowed make l (λ q t d a. h q t d (inr a)) rest)))
  ]
]

process_found-Good :
    (P : DistributionPackageInfo → Type 0) (distros : Distros) (found : Found)
    {r : List DistributionPackageInfo}
    → FoundMeet P found
    → process_found distros found ≡ ok r
    → Good P r
unfolding process_found
process_found-Good P only_sdists (sdists, wheels) h e = no_binary_meets P sdists h.0 e
process_found-Good P only_wheels (sdists, wheels) h e = only_binary_meets P wheels h.1 e
process_found-Good P both (sdists, wheels) h e = prefer_binary_meets P sdists wheels h.0 h.1 e

module _ (lib : Surroundings) where
  -- A distribution that is made of a package on the page, with the version of the requirement, as
  -- an sdist or as a wheel that the filters accept: below the root, with the checksums of the page
  -- and of the requirement, and with those of them that its file is compared with.
  pub record IsPicked (requirement : PipRequirement) (version : String) (root : PurePath)
      (filters : Option WheelsFilter) (page : List IndexPackage) (d : DistributionPackageInfo)
      : Type 0 where
    pub source : IndexPackage
    pub among : Among source page
    pub same_version : has_version lib version source.version ≡ true
    pub allowed : IsAllowed lib filters source
    pub same_type : source.package_type ≡ some d.package_type
    pub same_url : d.url ≡ source.url
    pub same_place : IsBelow root d.path
    pub reported : d.pypi_checksums ≡ checksums_of source
    pub required : d.req_file_checksums ≡ map from_hash requirement.hashes
    pub checked : AreChecked d.pypi_checksums d.req_file_checksums d.checksums_to_match

  module _ (requirement : PipRequirement) (version : String) (dir : RootedPath)
      (filters : Option WheelsFilter) (index_url : String) (page : List IndexPackage) where
    make_info-IsPicked :
        (p : IndexPackage) (type : String) (d : DistributionPackageInfo)
        → Among p page × (has_version lib version p.version ≡ true)
        → IsAllowed lib filters p
        → p.package_type ≡ some type
        → make_info lib requirement.package_name version dir index_url
            (map from_hash requirement.hashes)
            p
            type
          ≡ ok d
        → should_download d ≡ true
        → IsPicked requirement version dir.root filters page d
    unfolding make_info should_download
    make_info-IsPicked p type d a l t made downloads =
        let (path, e, g) =
          >>=-eq-ok (join_within_root lib.resolve dir (lib.path_of p.filename ∷ [])) _ made in
        let same = ok_injective g in
        subst (IsPicked requirement version dir.root filters page) same (record {
          source = p;
          among = a.0;
          same_version = a.1;
          allowed = l;
          same_type = t;
          same_url = refl;
          same_place = (join_within_root-IsBelow lib.resolve dir (lib.path_of p.filename ∷ []) e).0;
          reported = refl;
          required = refl;
          checked = checks-AreChecked (checksums_of p) (map from_hash requirement.hashes) (
              subst (λ (x : DistributionPackageInfo). should_download x ≡ true) (sym same)
                downloads);
        })

    selected-IsPicked :
        (selected : Distros × List IndexPackage)
        → select_distros lib filters requirement.package_name (with_version lib version page)
          ≡ ok selected
        → (p : IndexPackage) (type : String) (d : DistributionPackageInfo) → Among p selected.1
        → p.package_type ≡ some type
        → make_info lib requirement.package_name version dir index_url
            (map from_hash requirement.hashes)
            p
            type
          ≡ ok d
        → should_download d ≡ true
        → IsPicked requirement version dir.root filters page d
    selected-IsPicked selected s p type d a t made downloads =
        let (among, allowed) =
          select_distros-IsAllowed lib filters requirement.package_name
            (with_version lib version page) p s a in
        make_info-IsPicked p type d (with_version-Among lib version page p among) allowed t made
          downloads

  page_of :
      (index_url name version : String) {page : List IndexPackage}
      → lib.get_project_page index_url name ≡ some page
      → get_project_packages_from lib index_url name version ≡ ok (with_version lib version page)
  unfolding get_project_packages_from
  page_of index_url name version g = rw (g, get_project_packages_from) refl

  -- What is returned for a requirement is not empty, and each distribution is made of a package on
  -- the page of the index, with the version of the requirement, as an sdist or as a wheel that the
  -- filters accept. Its path is at or below the root of the directory. Where the index and the
  -- requirement both have checksums, its file is compared with those that both have, and there is
  -- one; where only one has some, with all of them.
  pub process_package_distributions-AllPicked :
      (requirement : PipRequirement) (dir : RootedPath) (binary_filters : Option PipBinaryFilters)
      (index_url : String) {version : String} {page : List IndexPackage}
      {picked : List DistributionPackageInfo}
      → version_of requirement.version_specs ≡ ok version
      → lib.get_project_page index_url requirement.package_name ≡ some page
      → process_package_distributions lib requirement dir binary_filters index_url ≡ ok picked
      → AllMeet (IsPicked requirement version dir.root (filter_of lib binary_filters) page) picked
        × IsGiven picked
  unfolding process_package_distributions
  process_package_distributions-AllPicked requirement dir binary_filters index_url {version} {page}
        v g e =
      let name = requirement.package_name in
      let filters = filter_of lib binary_filters in
      let e2 = rw (v, page_of index_url name version g) at e in
      let (selected, s, k) =
        >>=-eq-ok (select_distros lib filters name (with_version lib version page)) _ e2 in
      let (found, c, last) =
        >>=-eq-ok
          (collect_infos (allowed_distros selected.0)
            (make_info lib name version dir index_url (map from_hash requirement.hashes))
            selected.1)
          _ k in
      process_found-Good (IsPicked requirement version dir.root filters page) selected.0 found
        (collect_infos-FoundMeet (IsPicked requirement version dir.root filters page)
          (allowed_distros selected.0)
          (make_info lib name version dir index_url (map from_hash requirement.hashes)) selected.1
          (λ p type d a t made downloads.
            selected-IsPicked requirement version dir filters index_url page selected s p type d a t
              made downloads)
          c)
        last
