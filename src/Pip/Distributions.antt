-- ===== src/Pip/Distributions.antt =====
-- hermeto/core/package_managers/pip/package_distributions.py: `process_package_distributions`.
use mathlib.Core.List.{map}
use cachi.Base.{
  ℕ, String, Bool, true, false, not, ◌||◌, Option, none, some, List, [], ◌∷◌, ◌++◌, ◌==◌, Eq,
  string_eq, option_eq, if◌then◌else◌, contains, ltb,
}
use cachi.Base.Text.{endswith}
use cachi.Errors.{Result, ok, err, ◌>>=◌, package_rejected, fetch_error, index_error}
use cachi.RootedPath.{PurePath, RootedPath, last_part, join_within_root}
use cachi.Checksum.{ChecksumInfo, from_hash}
use cachi.Input.Filters.{PipBinaryFilters}
use cachi.Pip.Requirement.{PipRequirement}
use cachi.Pip.Wheels.{Packaging, WheelsFilter, wheels_filter, accepts}

unfoldable pub checksum_discrete : Discrete ChecksumInfo
unfolding string_eq
checksum_discrete = hlevel (string_eq.dec)

instance unfoldable pub checksum_eq : Eq ChecksumInfo
unfolding checksum_discrete
checksum_eq = record { dec = checksum_discrete }

-- `pypi_simple.DistributionPackage`: the attributes that are read.
pub record IndexPackage : Type 0 where
  pub filename : String
  pub url : String
  pub version : Option String
  pub package_type : Option String
  pub digests : List (String × String)
  pub is_yanked : Bool

-- The sets of checksums are the lists of their members.
pub record DistributionPackageInfo : Type 0 where
  pub name : String
  pub version : String
  pub package_type : String
  pub path : PurePath
  pub url : String
  pub index_url : String
  pub is_yanked : Bool
  pub pypi_checksums : List ChecksumInfo
  pub req_file_checksums : List ChecksumInfo
  pub checksums_to_match : List ChecksumInfo

-- `a.intersection(b)`
unfoldable pub intersection : List ChecksumInfo → List ChecksumInfo → List ChecksumInfo
intersection [] b = []
intersection (c ∷ a) b = let rest = intersection a b in if contains b c then c ∷ rest else rest

-- `_determine_checksums_to_match`
unfoldable pub determine_checksums_to_match :
    List ChecksumInfo → List ChecksumInfo → List ChecksumInfo
unfolding intersection
determine_checksums_to_match [] req = req
determine_checksums_to_match (c ∷ pypi) [] = c ∷ pypi
determine_checksums_to_match (c ∷ pypi) (r ∷ req) = intersection (c ∷ pypi) (r ∷ req)

abbrev pub is_empty : List ChecksumInfo → Bool
is_empty [] = true
is_empty (c ∷ checksums) = false

-- `should_download`
unfoldable pub should_download : DistributionPackageInfo → Bool
should_download d =
    not (is_empty d.checksums_to_match)
    || is_empty d.pypi_checksums
    || is_empty d.req_file_checksums

abbrev pub yanked_pref : DistributionPackageInfo → ℕ
yanked_pref d = if d.is_yanked then 0 else 1

unfoldable pub filetype_pref : DistributionPackageInfo → ℕ
unfolding endswith last_part
filetype_pref d =
    if endswith (last_part d.path.parts) ".tar.gz"
    then 2
    else if endswith (last_part d.path.parts) ".zip"
    then 1
    else 0

-- `<` on the pairs of `_sdist_preference`
unfoldable pub preference_lt : DistributionPackageInfo → DistributionPackageInfo → Bool
unfolding filetype_pref
preference_lt a b =
    if ltb (yanked_pref a) (yanked_pref b)
    then true
    else if ltb (yanked_pref b) (yanked_pref a)
    then false
    else ltb (filetype_pref a) (filetype_pref b)

-- `_find_the_best_sdist`, where the first one is the best so far.
unfoldable pub find_the_best_sdist :
    DistributionPackageInfo → List DistributionPackageInfo → DistributionPackageInfo
unfolding preference_lt
find_the_best_sdist best [] = best
find_the_best_sdist best (d ∷ sdists) =
    find_the_best_sdist (if preference_lt best d then d else best) sdists

-- `_process_no_binary_mode`
unfoldable pub process_no_binary_mode :
    List DistributionPackageInfo → Result (List DistributionPackageInfo)
unfolding find_the_best_sdist
process_no_binary_mode [] = err package_rejected
process_no_binary_mode (d ∷ sdists) = ok (find_the_best_sdist d sdists ∷ [])

-- `_process_prefer_binary_mode`
unfoldable pub process_prefer_binary_mode :
    List DistributionPackageInfo
    → List DistributionPackageInfo
    → Result (List DistributionPackageInfo)
unfolding process_no_binary_mode find_the_best_sdist
process_prefer_binary_mode sdists [] = process_no_binary_mode sdists
process_prefer_binary_mode [] (w ∷ wheels) = ok (w ∷ wheels)
process_prefer_binary_mode (d ∷ sdists) (w ∷ wheels) =
    ok (w ∷ wheels ++ find_the_best_sdist d sdists ∷ [])

-- `_process_only_binary_mode`
unfoldable pub process_only_binary_mode :
    List DistributionPackageInfo → Result (List DistributionPackageInfo)
process_only_binary_mode [] = err package_rejected
process_only_binary_mode (w ∷ wheels) = ok (w ∷ wheels)

-- `allowed_distros`
pub data Distros : Type 0 where
  only_sdists only_wheels both : Distros

abbrev pub allowed_distros : Distros → List String
allowed_distros only_sdists = "sdist" ∷ []
allowed_distros only_wheels = "wheel" ∷ []
allowed_distros both = "sdist" ∷ "wheel" ∷ []

unfoldable pub of_type : String → List IndexPackage → List IndexPackage
of_type type [] = []
of_type type (p ∷ packages) =
    let rest = of_type type packages in if p.package_type == some type then p ∷ rest else rest

-- A package that is to be downloaded is one of the sdists or of the wheels.
abbrev pub Found : Type 0
Found = List DistributionPackageInfo × List DistributionPackageInfo

unfoldable pub add_info : DistributionPackageInfo → Found → Found
unfolding should_download
add_info d (sdists, wheels) =
    if should_download d
    then (if d.package_type == "sdist" then (d ∷ sdists, wheels) else (sdists, d ∷ wheels))
    else (sdists, wheels)

-- The loop.
unfoldable pub collect_infos :
    List String
    → (IndexPackage → String → Result DistributionPackageInfo)
    → List IndexPackage
    → Result Found
unfolding add_info
collect_infos allowed make [] = ok ([], [])
collect_infos allowed make (p ∷ packages) =
    let rest = collect_infos allowed make packages in
    elim p.package_type [
      | none ↦ rest
      | some type ↦
          if contains allowed type
          then (make p type >>= λ d. rest >>= λ found. ok (add_info d found))
          else rest
    ]

unfoldable pub process_found : Distros → Found → Result (List DistributionPackageInfo)
unfolding process_no_binary_mode process_only_binary_mode process_prefer_binary_mode
process_found only_sdists (sdists, wheels) = process_no_binary_mode sdists
process_found only_wheels (sdists, wheels) = process_only_binary_mode wheels
process_found both (sdists, wheels) = process_prefer_binary_mode sdists wheels

-- `requirement.version_specs[0][1]`
abbrev pub version_of : List (String × String) → Result String
version_of [] = err index_error
version_of ((operator, version) ∷ specs) = ok version

-- The checksums of a package that the index reports.
abbrev pub checksums_of : IndexPackage → List ChecksumInfo
checksums_of p = map (λ d. record { algorithm = d.0; hexdigest = d.1 }) p.digests

-- What comes from elsewhere: `packaging` with its `canonicalize_version`, `Path.resolve`,
-- `pathlib.Path`, and the client of an index, which gives the packages of a page, or none where the
-- query fails.
pub record Surroundings : Type 0 where
  pub packaging : Packaging
  pub canonicalize_version : String → String
  pub resolve : PurePath → Result PurePath
  pub path_of : String → PurePath
  pub get_project_page : String → String → Option (List IndexPackage)

module _ (lib : Surroundings) where
  abbrev pub has_version : String → Option String → Bool
  has_version version none = false
  has_version version (some v) = lib.canonicalize_version v == lib.canonicalize_version version

  unfoldable pub with_version : String → List IndexPackage → List IndexPackage
  with_version version [] = []
  with_version version (p ∷ packages) =
      let rest = with_version version packages in
      if has_version version p.version then p ∷ rest else rest

  -- `_get_project_packages_from`
  unfoldable pub get_project_packages_from : String → String → String → Result (List IndexPackage)
  unfolding with_version
  get_project_packages_from index_url name version = elim (lib.get_project_page index_url name) [
    | none ↦ err fetch_error
    | some packages ↦ ok (with_version version packages)
  ]

  -- `wheels_filter.filter(wheels)`
  unfoldable pub filter_wheels : WheelsFilter → List IndexPackage → Result (List IndexPackage)
  unfolding accepts
  filter_wheels f [] = ok []
  filter_wheels f (w ∷ wheels) =
      let rest = filter_wheels f wheels in
      accepts lib.packaging f w.filename >>= λ accepted.
      rest >>= λ kept. ok (if accepted then w ∷ kept else kept)

  -- `allowed_distros` and `to_process`
  unfoldable pub select_distros :
      Option WheelsFilter → String → List IndexPackage → Result (Distros × List IndexPackage)
  unfolding of_type filter_wheels
  select_distros none name packages = ok (only_sdists, of_type "sdist" packages)
  select_distros (some f) name packages = elim f.packages [
    | none ↦ filter_wheels f (of_type "wheel" packages) >>= λ wheels.
        ok (both, of_type "sdist" packages ++ wheels)
    | some names ↦
        if contains names name
        then (filter_wheels f (of_type "wheel" packages) >>= λ wheels. ok (only_wheels, wheels))
        else ok (only_sdists, of_type "sdist" packages)
  ]

  -- `DistributionPackageInfo(…)`
  unfoldable pub make_info :
      String
      → String
      → RootedPath
      → String
      → List ChecksumInfo
      → IndexPackage
      → String
      → Result DistributionPackageInfo
  unfolding join_within_root determine_checksums_to_match
  make_info name version pip_deps_dir index_url req_file_checksums p package_type =
      let pypi = checksums_of p in
      join_within_root lib.resolve pip_deps_dir (lib.path_of p.filename ∷ []) >>= λ path.
      ok (record {
        name = name;
        version = version;
        package_type = package_type;
        path = path.path;
        url = p.url;
        index_url = index_url;
        is_yanked = p.is_yanked;
        pypi_checksums = pypi;
        req_file_checksums = req_file_checksums;
        checksums_to_match = determine_checksums_to_match pypi req_file_checksums;
      })

  abbrev pub filter_of : Option PipBinaryFilters → Option WheelsFilter
  filter_of none = none
  filter_of (some filters) = some (wheels_filter lib.packaging filters)

  -- `process_package_distributions`
  unfoldable pub process_package_distributions :
      PipRequirement
      → RootedPath
      → Option PipBinaryFilters
      → String
      → Result (List DistributionPackageInfo)
  unfolding get_project_packages_from select_distros make_info collect_infos process_found from_hash
      wheels_filter
  process_package_distributions requirement pip_deps_dir binary_filters index_url = do
    version ← version_of requirement.version_specs
    packages ← get_project_packages_from index_url requirement.package_name version
    selected ← select_distros (filter_of binary_filters) requirement.package_name packages
    found ←
        collect_infos (allowed_distros selected.0)
          (make_info requirement.package_name version pip_deps_dir index_url
            (map from_hash requirement.hashes))
          selected.1
    process_found selected.0 found
