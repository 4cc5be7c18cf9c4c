-- ===== src/Gomod/Replacements.antt =====
-- hermeto/core/package_managers/gomod.py: the modules that `_resolve_gomod` returns.
use cachi.Base.{
  String, false, ◌||◌, Option, none, some, List, [], ◌∷◌, ◌++◌, ◌==◌, string_eq, if◌then◌else◌,
  contains, ◌≡◌, refl, sym, subst, ◌∙◌, arith, ◌⊎◌, inl, inr, Bool-cases, Option-cases,
}
use mathlib.Core.List.{map}
use cachi.Base.Members.{AllMeet}
use cachi.Base.Text.{startswith}
use cachi.Errors.{Result, ok, >>=-eq-ok, ok_injective}
use cachi.RootedPath.{PurePath, RootedPath, join_within_root}
use cachi.RootedPath.Confined.{IsBelow, join_within_root-IsBelow}
use cachi.Gomod.Models.{
  ParsedModule, module_path, module_replace, GoWork, ModuleId, id_eq, get_module_id,
}
use cachi.Gomod.Paths.{path_of}
use cachi.Gomod.Modules.{
  add_module, add_modules, deduplicate_resolved_modules, validate_local_replacements,
}
use cachi.Gomod.Project.{Project, go_exec_env, disable_telemetry, go_vars, protect_against_symlinks}
use cachi.Gomod.Resolve.{
  ResolvedGoModule, resolve_gomod, modules_in_go_sum, vendor_deps, has_workspace,
  parse_local_modules, modules_of_packages, parse_packages,
}

-- A replacement by a path leads to one that is at or below the root.
abbrev pub LeadsInside : (PurePath → Result PurePath) → RootedPath → Option ParsedModule → Type 0
LeadsInside resolve app_dir none = Unit
LeadsInside resolve app_dir (some replace) =
    (startswith (module_path replace) "." ≡ false)
    ⊎ ((path : RootedPath) × (join_within_root resolve app_dir (path_of (module_path replace) ∷ [])
          ≡ ok path)
        × IsBelow app_dir.root path.path)

abbrev pub AllInside : (PurePath → Result PurePath) → RootedPath → List ParsedModule → Type 0
AllInside resolve app_dir ms = AllMeet (λ m. LeadsInside resolve app_dir (module_replace m)) ms

abbrev pub ids_of : List ParsedModule → List ModuleId
ids_of ms = map get_module_id ms

-- No identifier occurs twice.
abbrev pub AllApart : List ParsedModule → Type 0
AllApart [] = Unit
AllApart (m ∷ ms) = (contains (ids_of ms) (get_module_id m) ≡ false) × AllApart ms

module _ (resolve : PurePath → Result PurePath)
    (get_golang_version : String → RootedPath → Result String) where
  validate-AllInside :
      (ms : List ParsedModule) (app_dir : RootedPath) {r : Unit {0}}
      → validate_local_replacements resolve get_golang_version ms app_dir ≡ ok r
      → AllInside resolve app_dir ms
  unfolding validate_local_replacements
  validate-AllInside [] app_dir h = tt
  validate-AllInside (m ∷ ms) app_dir h = elim (Option-cases (module_replace m)) [
    | inl n ↦ (
      subst (LeadsInside resolve app_dir) (sym n) tt,
      validate-AllInside ms app_dir (rw (n, validate_local_replacements) at h),
    )
    | inr (replace, n) ↦ elim (Bool-cases (startswith (module_path replace) ".")) [
      | inr f ↦ (
        subst (LeadsInside resolve app_dir) (sym n) (inl f),
        validate-AllInside ms app_dir (rw (n, validate_local_replacements, f) at h),
      )
      | inl t ↦
          (let (path, e, g) =
              >>=-eq-ok (join_within_root resolve app_dir (path_of (module_path replace) ∷ [])) _
                (rw (n, validate_local_replacements, t) at h) in
            (
              subst (LeadsInside resolve app_dir) (sym n) (
                  inr (
                    path,
                    e,
                    (join_within_root-IsBelow resolve app_dir (path_of (module_path replace) ∷ [])
                        e).0,
                  )),
              validate-AllInside ms app_dir g,
            ))
    ]
  ]

contains-add_module :
    (m : ParsedModule) (ms : List ParsedModule) (i : ModuleId)
    → contains (ids_of (add_module m ms)) i ≡ (contains (ids_of ms) i || i == get_module_id m)
unfolding add_module
contains-add_module m [] i = ground arith
contains-add_module m (k ∷ ms) i = ground (arith, contains-add_module m ms i)

add_module-AllApart :
    (m : ParsedModule) (ms : List ParsedModule) → AllApart ms → AllApart (add_module m ms)
unfolding add_module
add_module-AllApart m [] h = (refl, tt)
add_module-AllApart m (k ∷ ms) h = elim (Bool-cases (get_module_id k == get_module_id m)) [
  | inl t ↦ rw (t) h
  | inr f ↦
      rw (f) (
        contains-add_module m ms (get_module_id k) ∙ rw (h.0, f) refl,
        add_module-AllApart m ms h.1,
      )
]

add_modules-AllApart :
    (found ms : List ParsedModule) → AllApart found → AllApart (add_modules found ms)
unfolding add_modules
add_modules-AllApart found [] h = h
add_modules-AllApart found (m ∷ ms) h =
    add_modules-AllApart (add_module m found) ms (add_module-AllApart m found h)

deduplicate-AllApart :
    (ms downloaded : List ParsedModule) → AllApart (deduplicate_resolved_modules ms downloaded)
unfolding deduplicate_resolved_modules
deduplicate-AllApart ms downloaded = add_modules-AllApart [] (ms ++ downloaded) tt

module _ (lib : Project) (get_golang_version : String → RootedPath → Result String) where
  -- The modules that are returned have one identifier each, and each replacement by a path that
  -- begins with a dot leads to a path at or below the root of the application's directory.
  pub resolve_gomod-AllInside :
      (app_dir : RootedPath) (tmp_dir proxy_url : String) (flags : List String)
      (go_work : Option GoWork) {resolved : ResolvedGoModule}
      → resolve_gomod lib get_golang_version app_dir tmp_dir proxy_url flags go_work ≡ ok resolved
      → AllInside lib.resolve app_dir resolved.parsed_modules × AllApart resolved.parsed_modules
  unfolding resolve_gomod
  resolve_gomod-AllInside app_dir tmp_dir proxy_url flags go_work h =
      let (_, _, h1) = >>=-eq-ok (protect_against_symlinks lib app_dir) _ h in
      let (vendor, _, h2) =
        >>=-eq-ok (join_within_root lib.resolve app_dir (path_of "vendor" ∷ [])) _ h1 in
      let should_vendor = lib.is_dir vendor.path in
      let env = go_exec_env lib (go_vars tmp_dir should_vendor proxy_url flags) in
      let (_, _, h3) = >>=-eq-ok (disable_telemetry lib env app_dir.path) _ h2 in
      let (_, _, h4) = >>=-eq-ok (modules_in_go_sum lib go_work app_dir) _ h3 in
      let (downloaded, _, h5) =
        >>=-eq-ok
          (if should_vendor
            then vendor_deps lib (has_workspace lib get_golang_version go_work) env app_dir
            else lib.download env app_dir.path)
          _ h4 in
      let (local, _, h6) =
        >>=-eq-ok (parse_local_modules lib get_golang_version go_work env app_dir) _ h5 in
      let (deps, _, h7) = >>=-eq-ok (lib.list_deps "all" env app_dir.path) _ h6 in
      let all_modules =
        deduplicate_resolved_modules (modules_of_packages lib get_golang_version deps ++ local.1)
          downloaded in
      let (_, valid, h8) =
        >>=-eq-ok (validate_local_replacements lib.resolve get_golang_version all_modules app_dir) _
          h7 in
      let (_, _, h9) = >>=-eq-ok (parse_packages lib get_golang_version go_work env app_dir) _ h8 in
      subst
        (λ (r : ResolvedGoModule).
          AllInside lib.resolve app_dir r.parsed_modules × AllApart r.parsed_modules)
        (ok_injective h9)
        (
          validate-AllInside lib.resolve get_golang_version all_modules app_dir valid,
          deduplicate-AllApart (modules_of_packages lib get_golang_version deps ++ local.1)
              downloaded,
        )
