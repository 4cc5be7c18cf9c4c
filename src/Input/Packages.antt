-- ===== src/Input/Packages.antt =====
-- hermeto/core/models/input.py: the packages of a request that passes its validators.
use cachi.Base.{
  Bool, true, false, not, List, [], ◌∷◌, ◌++◌, ◌≡◌, ◌≢◌, ◌⊎◌, ◌==◌, sym, subst, inl, inr, arith,
  Bool-cases, Option-cases,
}
use cachi.Base.Members.{Among, Among-append}
use cachi.Errors.{Result, ok_injective, ok, err, >>=-eq-ok, Result-cases, Error}
use cachi.RootedPath.{PurePath, RootedPath, join_within_root}
use cachi.RootedPath.Confined.{IsBelow, join_within_root-IsBelow}
use cachi.Validators.{find_key, unique_from, unique}
use cachi.Validators.Unique.{AllFound, unique-AllFound}
use cachi.Input.Package.{PackageInput, package_key, key_eq, package_eq}
use cachi.Input.Request.{
  check_package_path, check_packages_paths, packages_not_empty, validate_packages,
}

module _ (resolve : PurePath → Result PurePath) (is_dir : PurePath → Bool) where
  -- The package's path leads to a directory at or below the root of the source directory.
  pub record IsInside (source_dir : RootedPath) (p : PackageInput) : Type 0 where
    pub abspath : RootedPath
    pub joined : join_within_root resolve source_dir (p.path ∷ []) ≡ ok abspath
    pub directory : is_dir abspath.path ≡ true
    pub inside : IsBelow source_dir.root abspath.path

  abbrev pub AllInside : RootedPath → List PackageInput → Type 0
  AllInside source_dir [] = Unit
  AllInside source_dir (p ∷ packages) = IsInside source_dir p × AllInside source_dir packages

  check_package_path-IsInside :
      (source_dir : RootedPath) (p : PackageInput) {q : RootedPath}
      → check_package_path resolve is_dir source_dir p ≡ ok q
      → IsInside source_dir p
  unfolding check_package_path
  check_package_path-IsInside source_dir p h =
      elim (Result-cases (join_within_root resolve source_dir (p.path ∷ []))) [
        | inl (e, g) ↦ absurd (grind (arith, g))
        | inr (abspath, g) ↦ record {
          abspath = abspath;
          joined = g;
          directory = ground (arith, g);
          inside = (join_within_root-IsBelow resolve source_dir (p.path ∷ []) g).0;
        }
      ]

  check_packages_paths-AllInside :
      (source_dir : RootedPath) (packages : List PackageInput) {u : Unit {0}}
      → check_packages_paths resolve is_dir source_dir packages ≡ ok u
      → AllInside source_dir packages
  unfolding check_packages_paths
  check_packages_paths-AllInside source_dir [] h = tt
  check_packages_paths-AllInside source_dir (p ∷ packages) h =
      elim (Result-cases (check_package_path resolve is_dir source_dir p)) [
        | inl (e, g) ↦ absurd (stopped e g)
        | inr (_, g) ↦ (
          check_package_path-IsInside source_dir p g,
          check_packages_paths-AllInside source_dir packages (rw (g, check_packages_paths) at h),
        )
      ]
    where
      stopped : (e : Error) → check_package_path resolve is_dir source_dir p ≡ err e → ⊥
      stopped e g = ground arith

  -- What is found so far or is returned is of the input.
  unique_from-Among :
      (seen items : List PackageInput) {r : List PackageInput}
      → unique_from package_key true seen items ≡ ok r
      → (p : PackageInput) → Among p r
      → Among p seen ⊎ Among p items
  unfolding unique_from
  unique_from-Among seen [] h p a = inl (subst (Among p) (sym (ok_injective h)) a)
  unique_from-Among seen (y ∷ items) h p a =
      elim (Option-cases (find_key package_key (package_key y) seen)) [
        | inl n ↦ elim (unique_from-Among (seen ++ y ∷ []) items (rw (n, unique_from) at h) p a) [
          | inl b ↦ elim (Among-append p seen (y ∷ []) b) [
            | inl c ↦ inl c
            | inr (inl e) ↦ inr (inl e)
            | inr (inr c) ↦ absurd c
          ]
          | inr b ↦ inr (inr b)
        ]
        | inr (z, e) ↦ elim (Bool-cases (not (z == y))) [
          | inl t ↦ absurd (ground (arith, e, t))
          | inr f ↦ elim (unique_from-Among seen items (rw (e, f, unique_from) at h) p a) [
            | inl b ↦ inl b
            | inr b ↦ inr (inr b)
          ]
        ]
      ]

  unique-Among :
      (items : List PackageInput) {r : List PackageInput}
      → unique package_key items true ≡ ok r
      → (p : PackageInput) → Among p r
      → Among p items
  unfolding unique
  unique-Among items h p a = elim (unique_from-Among [] items h p a) [
    | inl none_ ↦ absurd none_
    | inr b ↦ b
  ]

  not_empty :
      (packages : List PackageInput) {r : List PackageInput}
      → packages_not_empty packages ≡ ok r
      → (packages ≡ r) × (packages ≢ [])
  unfolding packages_not_empty
  not_empty [] h = absurd cc
  not_empty (p ∷ packages) h = (cc, λ e. cc)

  -- Packages that pass the validators are not none, each is one of the input and each of the input
  -- is one of them, no type and path occurs twice, and each leads to a directory at or below the root
  -- of the source directory.
  pub validate_packages-AllInside :
      (source_dir : RootedPath) (packages : List PackageInput) {r : List PackageInput}
      → validate_packages resolve is_dir source_dir packages ≡ ok r
      → (r ≢ [])
        × ((p : PackageInput) → Among p r → Among p packages)
        × AllFound package_key packages r
        × (unique package_key r false ≡ ok r)
        × AllInside source_dir r
  unfolding validate_packages
  validate_packages-AllInside source_dir packages h =
      let (u, e, g) = >>=-eq-ok (unique package_key packages true) _ h in
      let (_, f, k) = >>=-eq-ok (check_packages_paths resolve is_dir source_dir u) _ g in
      let (same, some_) = not_empty u k in
      let (found, once) = unique-AllFound package_key packages true e in
      subst
        (λ l.
          (l ≢ [])
          × ((p : PackageInput) → Among p l → Among p packages)
          × AllFound package_key packages l
          × (unique package_key l false ≡ ok l)
          × AllInside source_dir l)
        same
        (some_, unique-Among packages e, found, once, check_packages_paths-AllInside source_dir u f)
