-- ===== src/Tests/Distributions.antt =====
-- Runs and instances for the distributions of pip packages.
use cachi.Base.{
  String, true, false, none, some, List, [], ◌∷◌, ◌≡◌, refl, string_eq, char_eq, bool_eq, nat_eq,
  option_eq,
}
use cachi.Base.Members.{AllMeet}
use cachi.Errors.{ok, err, runtime_error}
use cachi.RootedPath.{RootedPath}
use cachi.Checksum.{from_hash}
use cachi.Input.Filters.{PipBinaryFilters}
use cachi.Pip.Requirement.{PipRequirement, pypi}
use cachi.Pip.Wheels.{parse_py_version}
use cachi.Pip.Distributions.{
  IndexPackage, DistributionPackageInfo, Surroundings, filter_of, process_package_distributions,
  checksum_eq,
}
use cachi.Pip.Picked.{IsGiven}
use cachi.Pip.Acceptable.{IsPicked, process_package_distributions-AllPicked}

py312 : parse_py_version "cp312" ≡ ok 312
unfolding parse_py_version char_eq string_eq
py312 = refl

py3 : parse_py_version "py2.py3" ≡ ok 3
unfolding parse_py_version char_eq string_eq
py3 = refl

no_version : parse_py_version "cp" ≡ err runtime_error
unfolding parse_py_version char_eq string_eq
no_version = refl

abbrev six : PipRequirement
six = record {
  package_name = "six";
  raw_package = "six";
  extras = [];
  version_specs = ("==", "1") ∷ [];
  environment_marker = none;
  hashes = "sha256:ab" ∷ [];
  qualifiers = [];
  kind = pypi;
  download_line = "six==1";
  options = [];
}

abbrev on_index : String → String → String → IndexPackage
on_index filename type digest = record {
  filename = filename;
  url = "u";
  version = some "1";
  package_type = some type;
  digests = ("sha256", digest) ∷ [];
  is_yanked = false;
}

-- The first sdist has another checksum than the requirement.
abbrev page : List IndexPackage
page =
    on_index "six-1.zip" "sdist" "cd"
    ∷ on_index "six-1.tar.gz" "sdist" "ab"
    ∷ on_index "six-1-py3-none-any.whl" "wheel" "ab"
    ∷ []

abbrev lib : Surroundings
lib = record {
  packaging = record {
    canonicalize_name = λ s. s;
    wheel_tags = λ s. some (record { interpreter = "py3"; abi = "none"; platform = "any" } ∷ []);
    search = λ regex s. true;
  };
  canonicalize_version = λ s. s;
  resolve = λ p. ok p;
  path_of = λ s. record { absolute = false; parts = s ∷ [] };
  get_project_page = λ url name. some page;
}

abbrev deps : RootedPath
deps = record {
  root = record { absolute = true; parts = "deps" ∷ [] };
  path = record { absolute = true; parts = "deps" ∷ [] };
}

abbrev picked_as : String → String → DistributionPackageInfo
picked_as type filename = record {
  name = "six";
  version = "1";
  package_type = type;
  path = record { absolute = true; parts = "deps" ∷ filename ∷ [] };
  url = "u";
  index_url = "i";
  is_yanked = false;
  pypi_checksums = from_hash "sha256:ab" ∷ [];
  req_file_checksums = from_hash "sha256:ab" ∷ [];
  checksums_to_match = from_hash "sha256:ab" ∷ [];
}

abbrev picked : List DistributionPackageInfo
picked = picked_as "wheel" "six-1-py3-none-any.whl" ∷ picked_as "sdist" "six-1.tar.gz" ∷ []

abbrev all_filters : PipBinaryFilters
all_filters = record {
  packages = ":all:";
  arch = ":all:";
  os = ":all:";
  py_version = none;
  py_impl = ":all:";
  abi = ":all:";
  platform = none;
}

both_kinds : process_package_distributions lib six deps (some all_filters) "i" ≡ ok picked
unfolding process_package_distributions string_eq char_eq bool_eq nat_eq option_eq checksum_eq
    from_hash
both_kinds = refl

picked_example :
    AllMeet (IsPicked lib six "1" deps.root (filter_of lib (some all_filters)) page) picked
    × IsGiven picked
picked_example =
    process_package_distributions-AllPicked lib six deps (some all_filters) "i" refl refl both_kinds
