-- ===== src/Generic/Main.antt =====
-- hermeto/core/package_managers/generic/main.py: `fetch_generic_source`.
use cachi.Base.{
  String, Char, Bool, false, Option, none, some, List, [], ◌∷◌, ◌++◌, string_eq, if◌then◌else◌,
}
use cachi.Base.Dict.{set_item}
use cachi.Errors.{
  Result, ok, err, ◌>>=◌, value_error, package_rejected, lockfile_not_found,
  invalid_lockfile_format,
}
use cachi.RootedPath.{PurePath, RootedPath, is_relative_to, re_root, join_within_root}
use cachi.Checksum.{Hashlib, must_match_any_checksum}
use cachi.Sbom.Component.{Component}
use cachi.Sbom.Document.{create_backend_annotation}
use cachi.Output.{RequestOutput, from_obj_list}
use cachi.Input.Package.{PackageInput, generic, Details, generic_details}
use cachi.Input.Request.{Request, packages_by_type}
use cachi.Generic.Components.{get_sbom_component}
use cachi.Generic.Models.{
  LockfileArtifact, GenericLib, Placed, download_url, formatted_checksum, make_lockfile,
}

abbrev relative : List String → PurePath
relative parts = record { absolute = false; parts = parts }

-- `package.lockfile`
abbrev lockfile_of : Details → Option PurePath
lockfile_of (generic_details lockfile) = lockfile
lockfile_of _ = none

-- `load` reads the YAML of a lockfile, and raises where the file is none. `download` fetches the
-- URLs to the files, and leaves the contents of files.
module _ {H : Type 0} (lib : GenericLib) (hashes : Hashlib H) (exists : PurePath → Bool)
    (load : PurePath → Result (List LockfileArtifact))
    (download : List (String × PurePath) → Result (PurePath → List Char)) where
  -- `_resolve_lockfile_path`
  unfoldable pub resolve_lockfile_path : RootedPath → PurePath → Option PurePath → Result PurePath
  unfolding join_within_root is_relative_to
  resolve_lockfile_path source_dir package_path lockfile_path =
      let inside : PurePath → Result PurePath = λ lockfile_name. (do
        path ← join_within_root lib.resolve source_dir (package_path ∷ [])
        lockfile ← join_within_root lib.resolve path (lockfile_name ∷ [])
        if is_relative_to lockfile.path path.path
            then ok lockfile.path
            else err package_rejected) in
      elim lockfile_path [
        | none ↦ inside (relative ("artifacts.lock.yaml" ∷ []))
        | some p ↦ if p.absolute then ok p else inside p
      ]

  -- What `_load_lockfile` makes of an exception: a `ValidationError` gathers each `ValueError`.
  unfoldable pub format_error : {A : Type 0} → Result A → Result A
  format_error (ok a) = ok a
  format_error (err value_error) = err invalid_lockfile_format
  format_error (err e) = err e

  -- `_load_lockfile`
  unfoldable pub load_lockfile : PurePath → RootedPath → Result (List (Placed lib))
  unfolding make_lockfile format_error
  load_lockfile lockfile_path output_dir =
      load lockfile_path >>= λ artifacts. format_error (make_lockfile lib output_dir artifacts)

  unfoldable pub downloads_from :
      List (String × PurePath) → List (Placed lib) → List (String × PurePath)
  unfolding set_item download_url
  downloads_from to_download [] = to_download
  downloads_from to_download ((a, place) ∷ artifacts) =
      downloads_from (set_item (download_url lib a.origin) place to_download) artifacts

  -- The size of the chunks is the default.
  unfoldable pub check_artifacts : (PurePath → List Char) → List (Placed lib) → Result (Unit {0})
  unfolding must_match_any_checksum formatted_checksum
  check_artifacts content [] = ok tt
  check_artifacts content ((a, place) ∷ artifacts) =
      let rest = check_artifacts content artifacts in
      must_match_any_checksum hashes (content place) (formatted_checksum a ∷ []) 10240 >>= λ _. rest

  unfoldable pub components_of : String → List (Placed lib) → Result (List Component)
  unfolding get_sbom_component
  components_of app [] = ok []
  components_of app (a ∷ artifacts) =
      let rest = components_of app artifacts in
      get_sbom_component lib app a >>= λ c. rest >>= λ components. ok (c ∷ components)

  -- `_resolve_generic_lockfile`
  unfoldable pub resolve_generic_lockfile : String → PurePath → RootedPath → Result (List Component)
  unfolding re_root load_lockfile downloads_from check_artifacts components_of
  resolve_generic_lockfile app lockfile_path output_dir =
      if exists lockfile_path
      then (do
        deps_dir ← re_root lib.resolve output_dir (relative ("deps" ∷ "generic" ∷ []) ∷ [])
        artifacts ← load_lockfile lockfile_path deps_dir
        content ← download (downloads_from [] artifacts)
        _ ← check_artifacts content artifacts
        components_of app artifacts)
      else err lockfile_not_found

  unfoldable pub resolve_all : String → Request → List PackageInput → Result (List Component)
  unfolding resolve_lockfile_path resolve_generic_lockfile
  resolve_all app request [] = ok []
  resolve_all app request (p ∷ packages) =
      let rest = resolve_all app request packages in
      resolve_lockfile_path request.source_dir p.path (lockfile_of p.details) >>= λ path.
      resolve_generic_lockfile app path request.output_dir >>= λ components.
      rest >>= λ others. ok (components ++ others)

  -- `fetch_generic_source`
  unfoldable pub fetch_generic_source : String → String → Request → Result RequestOutput
  unfolding resolve_all create_backend_annotation from_obj_list packages_by_type
  fetch_generic_source app now request = do
    components ← resolve_all app request (packages_by_type generic request.packages)
    from_obj_list components [] [] none
        (elim (create_backend_annotation app now components "generic") [
          | none ↦ []
          | some annotation ↦ annotation ∷ []
        ])
