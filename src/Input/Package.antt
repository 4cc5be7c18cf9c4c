-- ===== src/Input/Package.antt =====
-- hermeto/core/models/input.py: the inputs of the package managers.
use cachi.Base.{String, Bool, Option, none, some, List, [], ◌∷◌, Eq, string_eq, nat_eq, option_eq}
use cachi.Errors.{Result, ok, err, ◌>>=◌}
use cachi.RootedPath.{PurePath}
use cachi.Validators.{check_sane_relpath}
use cachi.Input.Filters.{
  PipBinaryFilters, BundlerBinaryFilters, RpmBinaryFilters, Legacy, handle_legacy_allow_binary,
  bundler_allow_binary, pip_allow_binary,
}
use cachi.Input.Options.{ExtraOptions}

pub data PackageManagerType : Type 0 where
  bundler cargo generic gomod npm pip rpm yarn : PackageManagerType

abbrev pub Flags : Type 0
Flags = List String

pub data Mode : Type 0 where
  strict permissive : Mode

-- The fields of a type of package behind `path`.
pub data Details : Type 0 where
  bundler_details : Legacy BundlerBinaryFilters → Details
  generic_details : Option PurePath → Details
  pip_details : Option (List PurePath) → Option (List PurePath) → Legacy PipBinaryFilters → Details
  rpm_details : Bool → Option ExtraOptions → Option RpmBinaryFilters → Details
  cargo_details gomod_details npm_details yarn_details : Details

unfoldable pub details_type : Details → PackageManagerType
details_type (bundler_details l) = bundler
details_type (generic_details l) = generic
details_type (pip_details r b l) = pip
details_type (rpm_details s o b) = rpm
details_type cargo_details = cargo
details_type gomod_details = gomod
details_type npm_details = npm
details_type yarn_details = yarn

pub record PackageInput : Type 0 where
  pub path : PurePath
  pub details : Details

unfoldable pub path_discrete : Discrete PurePath
unfolding string_eq
path_discrete = hlevel (string_eq.dec)

unfoldable pub type_discrete : Discrete PackageManagerType
type_discrete = hlevel

unfoldable pub package_discrete : Discrete PackageInput
unfolding string_eq
package_discrete = hlevel (string_eq.dec, nat_eq.dec)

-- `pkg.type` and `pkg.path`, the key of a package.
abbrev pub Key : Type 0
Key = PackageManagerType × PurePath

unfoldable pub key_discrete : Discrete Key
unfolding path_discrete type_discrete
key_discrete = hlevel (path_discrete, type_discrete)

instance unfoldable pub package_eq : Eq PackageInput
unfolding package_discrete
package_eq = record { dec = package_discrete }

instance unfoldable pub key_eq : Eq Key
unfolding key_discrete
key_eq = record { dec = key_discrete }

unfoldable pub package_key : PackageInput → Key
unfolding details_type
package_key p = (details_type p.details, p.path)

unfoldable pub sane_paths : List PurePath → Result (Unit {0})
unfolding check_sane_relpath
sane_paths [] = ok tt
sane_paths (p ∷ paths) = elim (check_sane_relpath p) [ err e ↦ err e | ok _ ↦ sane_paths paths ]

-- `_requirements_file_path_is_relative`; `none` stands for a field that is not given.
abbrev sane_files : Option (List PurePath) → Result (Unit {0})
sane_files none = ok tt
sane_files (some paths) = sane_paths paths

-- The validators of a package on its path and on the fields behind it.
unfoldable pub validate_details : Details → Result Details
unfolding sane_paths handle_legacy_allow_binary
validate_details (bundler_details l) =
    ok (bundler_details (handle_legacy_allow_binary l bundler_allow_binary))
validate_details (pip_details files build_files l) = sane_files files >>= λ _.
    sane_files build_files >>= λ _.
    ok (pip_details files build_files (handle_legacy_allow_binary l pip_allow_binary))
validate_details d = ok d

unfoldable pub validate_package : PackageInput → Result PackageInput
unfolding validate_details check_sane_relpath
validate_package p = do
  path ← check_sane_relpath p.path
  details ← validate_details p.details
  ok (record { path = path; details = details })
