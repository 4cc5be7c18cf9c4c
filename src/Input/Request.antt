-- ===== src/Input/Request.antt =====
-- hermeto/core/models/input.py: `Request` and its validators.
use cachi.Base.{Bool, true, false, List, [], ◌∷◌, string_eq, nat_eq, option_eq, if◌then◌else◌}
use mathlib.Core.Logic.{ite}
use cachi.Errors.{Result, ok, err, ◌>>=◌, value_error, path_outside_root}
use cachi.RootedPath.{PurePath, RootedPath, join_within_root}
use cachi.Validators.{unique}
use cachi.Input.Package.{
  PackageManagerType, Flags, Mode, PackageInput, details_type, type_discrete, package_key, key_eq,
  package_eq,
}

pub record Request : Type 0 where
  pub source_dir : RootedPath
  pub output_dir : RootedPath
  pub packages : List PackageInput
  pub flags : Flags
  pub mode : Mode

-- `_packages_by_type`
unfoldable pub packages_by_type : PackageManagerType → List PackageInput → List PackageInput
unfolding details_type type_discrete
packages_by_type t [] = []
packages_by_type t (p ∷ packages) =
    let rest = packages_by_type t packages in
    if ite (type_discrete (details_type p.details) t) true false then p ∷ rest else rest

-- `_packages_not_empty`
unfoldable pub packages_not_empty : List PackageInput → Result (List PackageInput)
packages_not_empty [] = err value_error
packages_not_empty (p ∷ packages) = ok (p ∷ packages)

-- The file system: `Path.resolve` and `Path.is_dir`.
module _ (resolve : PurePath → Result PurePath) (is_dir : PurePath → Bool) where
  -- The body of the loop of `_check_packages_paths`.
  unfoldable pub check_package_path : RootedPath → PackageInput → Result RootedPath
  unfolding join_within_root
  check_package_path source_dir p = elim (join_within_root resolve source_dir (p.path ∷ [])) [
    | err path_outside_root ↦ err value_error
    | err e ↦ err e
    | ok abspath ↦ if is_dir abspath.path then ok abspath else err value_error
  ]

  unfoldable pub check_packages_paths : RootedPath → List PackageInput → Result (Unit {0})
  unfolding check_package_path
  check_packages_paths source_dir [] = ok tt
  check_packages_paths source_dir (p ∷ packages) = elim (check_package_path source_dir p) [
    | err e ↦ err e
    | ok _ ↦ check_packages_paths source_dir packages
  ]

  -- The validators of `packages`, in their order, where `source_dir` is valid.
  unfoldable pub validate_packages : RootedPath → List PackageInput → Result (List PackageInput)
  unfolding unique package_key check_packages_paths packages_not_empty
  validate_packages source_dir packages = do
    unique_packages ← unique package_key packages true
    _ ← check_packages_paths source_dir unique_packages
    packages_not_empty unique_packages
