-- ===== src/Gomod/Pristine.antt =====
-- hermeto/core/package_managers/gomod.py: what `fetch_gomod_source` returns in the strict mode.
use mathlib.Core.List.{map}
use cachi.Base.{
  String, Option, none, some, List, [], ◌∷◌, ◌++◌, string_eq, ◌≡◌, refl, sym, ap, subst, ◌∙◌,
}
use cachi.Base.Members.{AllMeet}
use cachi.Errors.{ok, >>=-eq-ok, ok_injective}
use cachi.RootedPath.{PurePath, join_within_root}
use cachi.Sbom.Component.{Component}
use cachi.Sbom.Document.{Annotation, create_backend_annotation}
use cachi.Output.{RequestOutput, empty_output}
use cachi.Output.Documents.{from_obj_list-parts}
use cachi.Input.Package.{PackageInput, gomod, strict}
use cachi.Input.Request.{Request, packages_by_type}
use cachi.Gomod.Tags.{get_golang_version}
use cachi.Gomod.Toolchain.{Versions}
use cachi.Gomod.Paths.{path_of}
use cachi.Gomod.Surroundings.{
  Surroundings, copy_cache, env_vars_template, update_vars, variable, find_missing_gomod_files,
  get_repository_name, from_repo_path,
}
use cachi.Gomod.Fetch.{
  fetch_subpaths, any_installed, none_missing, fetch_packages, fetch_gomod_source,
}
use cachi.Gomod.Unchanged.{
  Present, AllUnchanged, find_missing_gomod_files-Present, none_missing_lem,
  fetch_subpaths-AllUnchanged,
}

-- The annotations of an output that has only its own.
abbrev pub own_annotations : String → String → List Component → List Annotation
own_annotations app now components = elim (create_backend_annotation app now components "gomod") [
  | none ↦ []
  | some annotation ↦ annotation ∷ []
]

abbrev pub paths_of : Request → List PurePath
paths_of request = map (λ (p : PackageInput). p.path) (packages_by_type gomod request.packages)

module _ (versions : Versions) (lib : Surroundings versions) where
  abbrev and_own : List Annotation → Option Annotation → List Annotation
  and_own annotations own = elim own [ none ↦ annotations | some a ↦ annotations ++ a ∷ [] ]

  and_own-nil :
      (annotations : List Annotation) (own : Option Annotation)
      → annotations ≡ []
      → and_own annotations own ≡ (elim own [ none ↦ [] | some a ↦ a ∷ [] ])
  and_own-nil annotations none e = e
  and_own-nil annotations (some a) e = ap (λ l. l ++ a ∷ []) e

  Pristine : String → String → Request → List PurePath → RequestOutput → Type 0
  Pristine app now request subpaths output =
      AllMeet (Present versions lib request) subpaths
      × AllUnchanged versions lib request subpaths lib.tree
      × (output.annotations ≡ own_annotations app now output.components)

  fetch_packages-Pristine :
      (app now : String) (request : Request) (subpaths : List PurePath) {output : RequestOutput}
      → request.mode ≡ strict
      → fetch_packages versions lib app now request subpaths ≡ ok output
      → Pristine app now request subpaths output
  unfolding fetch_packages Pristine
  fetch_packages-Pristine app now request subpaths strict_mode h =
      let (_, _, h1) = >>=-eq-ok (any_installed versions lib lib.installed) _ h in
      let (missing, e, h2) =
        >>=-eq-ok (find_missing_gomod_files versions lib request.source_dir subpaths) _ h1 in
      let (_, all_there, h3) = >>=-eq-ok (none_missing versions lib missing) _ h2 in
      let (repo_name, _, h4) = >>=-eq-ok (get_repository_name versions lib) _ h3 in
      let (commit, _, c) = >>=-eq-ok (from_repo_path versions lib) _ h4 in
      let (download_dir, _, h5) =
        >>=-eq-ok
          (join_within_root lib.resolve request.output_dir
            (path_of "deps/gomod/pkg/mod/cache/download" ∷ []))
          _ c in
      let (_, _, h6) = >>=-eq-ok (lib.mkdir download_dir.path) _ h5 in
      let (fetched, is_fetched, h7) =
        >>=-eq-ok
          (fetch_subpaths versions lib (get_golang_version lib.semver commit) app now repo_name
            request [] [] lib.tree subpaths)
          _ h6 in
      let (_, _, h8) = >>=-eq-ok (copy_cache versions lib download_dir) _ h7 in
      let (annotations, components) =
        from_obj_list-parts fetched.0
          (map variable (update_vars env_vars_template lib.environment_variables)) [] none
          (and_own fetched.1 (create_backend_annotation app now fetched.0 "gomod")) h8 in
      let (same, own) =
        fetch_subpaths-AllUnchanged versions lib (get_golang_version lib.semver commit) app now
          repo_name request [] [] lib.tree subpaths strict_mode is_fetched in
      (
        find_missing_gomod_files-Present versions lib request subpaths
            (e ∙ ap ok (none_missing_lem versions lib missing all_there)),
        same,
        annotations
            ∙ and_own-nil fetched.1 (create_backend_annotation app now fetched.0 "gomod") own
            ∙ ap (own_annotations app now) (sym components),
      )

  fetch_from-Pristine :
      (app now : String) (request : Request) (subpaths : List PurePath) {output : RequestOutput}
      → request.mode ≡ strict
      → (elim subpaths [
        | [] ↦ ok empty_output
        | s ∷ ss ↦ fetch_packages versions lib app now request (s ∷ ss)
      ])
        ≡ ok output
      → Pristine app now request subpaths output
  fetch_from-Pristine app now request [] strict_mode h =
      unfold Pristine in
      (
        tt,
        tt,
        subst (λ (o : RequestOutput). o.annotations ≡ own_annotations app now o.components)
            (ok_injective h) (unfold create_backend_annotation in refl),
      )
  fetch_from-Pristine app now request (s ∷ ss) strict_mode h =
      fetch_packages-Pristine app now request (s ∷ ss) strict_mode h

  -- In the strict mode, the go.mod of each path of a Go package is there where an output is
  -- returned, git shows no difference in its vendor directory in the tree that the vendoring leaves of
  -- the tree before it, with what is not tracked marked, and the output has no annotation but that of
  -- the backend.
  pub fetch_gomod_source-Unchanged :
      (app now : String) (request : Request) {output : RequestOutput}
      → request.mode ≡ strict
      → fetch_gomod_source versions lib app now request ≡ ok output
      → AllMeet (Present versions lib request) (paths_of request)
        × AllUnchanged versions lib request (paths_of request) lib.tree
        × (output.annotations ≡ own_annotations app now output.components)
  unfolding fetch_gomod_source Pristine
  fetch_gomod_source-Unchanged app now request strict_mode h =
      fetch_from-Pristine app now request (paths_of request) strict_mode h
