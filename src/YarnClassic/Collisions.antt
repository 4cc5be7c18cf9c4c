-- ===== src/YarnClassic/Collisions.antt =====
-- hermeto/core/package_managers/yarn_classic/main.py: the check of the offline mirror, and the
-- components of the SBOM.
use mathlib.Core.List.{map}
use cachi.Base.{
  String, Bool, true, ◌&&◌, Option, none, some, List, [], ◌∷◌, ◌++◌, ◌==◌, Eq, string_eq, option_eq,
  if◌then◌else◌,
}
use cachi.Errors.{Result, ok, err, ◌>>=◌, package_manager_error}
use cachi.RootedPath.{PurePath}
use cachi.Properties.{empty, to_properties}
use cachi.Sbom.Component.{Component, library, validate}
use cachi.YarnClassic.Mirror.{YarnUrl, get_tarball_mirror_name, get_git_tarball_mirror_name}
use cachi.YarnClassic.Packages.{
  BasePackage, YarnClassicPackage, registry_package, git_package, url_package, file_package,
  workspace_package, link_package,
}

unfoldable pub package_discrete : Discrete YarnClassicPackage
package_discrete = hlevel (string_eq.dec)

instance unfoldable pub yarn_package_eq : Eq YarnClassicPackage
unfolding package_discrete
yarn_package_eq = record { dec = package_discrete }

-- The packages by the names of their tarballs: `tarball_collisions`.
abbrev pub Tarballs : Type 0
Tarballs = List (String × List YarnClassicPackage)

unfoldable pub add_tarball : String → YarnClassicPackage → Tarballs → Tarballs
add_tarball name p [] = (name, p ∷ []) ∷ []
add_tarball name p ((n, ps) ∷ tarballs) =
    if name == n then (n, ps ++ p ∷ []) ∷ tarballs else (n, ps) ∷ add_tarball name p tarballs

unfoldable pub all_are : YarnClassicPackage → List YarnClassicPackage → Bool
all_are p [] = true
all_are p (q ∷ packages) = let rest = all_are p packages in q == p && rest

-- `all(pkg == packages[0] for pkg in packages)`
unfoldable pub all_equal : List YarnClassicPackage → Bool
unfolding all_are
all_equal [] = true
all_equal (p ∷ packages) = all_are p (p ∷ packages)

unfoldable pub all_groups : Tarballs → Bool
unfolding all_equal
all_groups [] = true
all_groups ((name, packages) ∷ tarballs) =
    let rest = all_groups tarballs in all_equal packages && rest

module _ (urlparse : String → Result YarnUrl) (path_of : String → PurePath) where
  -- The tarball of a package, where it has one in the mirror.
  unfoldable pub tarball_of : YarnClassicPackage → Result (Option String)
  unfolding get_tarball_mirror_name get_git_tarball_mirror_name
  tarball_of (registry_package b url) =
      get_tarball_mirror_name urlparse path_of url >>= λ name. ok (some name)
  tarball_of (url_package b url) =
      get_tarball_mirror_name urlparse path_of url >>= λ name. ok (some name)
  tarball_of (git_package b url) =
      get_git_tarball_mirror_name urlparse path_of url >>= λ name. ok (some name)
  tarball_of (file_package b path) = ok none
  tarball_of (workspace_package b path) = ok none
  tarball_of (link_package b path) = ok none

  -- The first loop.
  unfoldable pub collect_tarballs : Tarballs → List YarnClassicPackage → Result Tarballs
  unfolding tarball_of add_tarball
  collect_tarballs tarballs [] = ok tarballs
  collect_tarballs tarballs (p ∷ packages) = elim (tarball_of p) [
    | err e ↦ err e
    | ok none ↦ collect_tarballs tarballs packages
    | ok (some name) ↦ collect_tarballs (add_tarball name p tarballs) packages
  ]

  -- `_verify_no_offline_mirror_collisions`
  unfoldable pub verify_no_offline_mirror_collisions : List YarnClassicPackage → Result (Unit {0})
  unfolding collect_tarballs all_groups
  verify_no_offline_mirror_collisions packages = collect_tarballs [] packages >>= λ tarballs.
      if all_groups tarballs then ok tt else err package_manager_error

abbrev pub base_package : YarnClassicPackage → BasePackage
base_package (registry_package b url) = b
base_package (git_package b url) = b
base_package (url_package b url) = b
base_package (file_package b path) = b
base_package (workspace_package b path) = b
base_package (link_package b path) = b

-- `_create_sbom_components`, where `purl` is `package.purl`.
unfoldable pub create_sbom_components :
    String → (YarnClassicPackage → String) → List YarnClassicPackage → List Component
unfolding to_properties validate
create_sbom_components app purl packages =
    map
      (λ (p : YarnClassicPackage). validate app (record {
        bom_ref = "";
        name = (base_package p).name;
        purl = purl p;
        version = (base_package p).version;
        properties = to_properties app (record empty { npm_development = (base_package p).dev });
        type = library;
        external_references = none;
        pedigree = none;
      }))
      packages
