-- ===== src/Gomod/Modules.antt =====
-- hermeto/core/package_managers/gomod.py: the modules that the SBOM describes.
use cachi.Base.{
  String, ◌<>◌, Bool, false, Option, none, some, List, [], ◌∷◌, ◌++◌, ◌==◌, string_eq, string_ord,
  if◌then◌else◌, contains,
}
use cachi.Base.Text.{startswith, split}
use cachi.Errors.{Result, ok, err, ◌>>=◌, runtime_error}
use cachi.RootedPath.{PurePath, RootedPath, last_part, join_within_root, subpath_from_root}
use cachi.Properties.{empty, to_properties}
use cachi.Sbom.Component.{Component, library, validate}
use cachi.Gomod.Models.{
  ParsedModule, unreplaced, replaced, module_path, module_version, module_replace, GoWork, ModuleId,
  id_eq, or_else, get_module_id,
}
use cachi.Gomod.Paths.{path_of, text_of, beside, normpath}

pub record Module : Type 0 where
  pub name : String
  pub original_name : String
  pub real_path : String
  pub version : String
  pub main : Bool
  pub missing_hash_in_file : Option PurePath

-- `PackageURL(type="golang", …)`
pub record GolangPurl : Type 0 where
  pub name : String
  pub version : Option String
  pub qualifiers : List (String × String)

unfoldable pub module_purl : Module → GolangPurl
module_purl m = record {
  name = m.real_path;
  version = some m.version;
  qualifiers = ("type", "module") ∷ [];
}

abbrev pub component : String → String → Option String → String → List String → Component
component app name version purl missing_hash_in_file = validate app (record {
  bom_ref = "";
  name = name;
  purl = purl;
  version = version;
  properties = to_properties app (record empty { missing_hash_in_file = missing_hash_in_file });
  type = library;
  external_references = none;
  pedigree = none;
})

-- `Module.to_component`; `to_string` is the method of `PackageURL`.
unfoldable pub module_component : (GolangPurl → Result String) → String → Module → Result Component
unfolding module_purl text_of
module_component to_string app m = to_string (module_purl m) >>= λ purl. ok (
    component app m.name (some m.version) purl
      (elim m.missing_hash_in_file [ none ↦ [] | some path ↦ text_of path ∷ [] ]))

-- `resolve` is `Path.resolve`, and `get_golang_version` the method of the version resolver.
module _ (resolve : PurePath → Result PurePath)
    (get_golang_version : String → RootedPath → Result String) where
  -- Where the hash of a module should be.
  unfoldable pub sum_file : Option GoWork → RootedPath → Result PurePath
  unfolding beside subpath_from_root
  sum_file (some go_work) main_module_dir =
      subpath_from_root go_work.rooted_path >>= λ path. ok (beside path "go.work.sum")
  sum_file none main_module_dir = subpath_from_root main_module_dir >>= λ path.
      ok (record path { parts = path.parts ++ "go.sum" ∷ [] })

  -- `_resolve_path_for_local_replacement`
  unfoldable pub resolve_path_for_local_replacement : Module → ParsedModule → Result String
  unfolding normpath module_path text_of path_of
  resolve_path_for_local_replacement main_module (unreplaced path version main) = err runtime_error
  resolve_path_for_local_replacement main_module (replaced path version main replace) =
      ok (text_of (path_of (normpath (main_module.real_path <> ("/" <> module_path replace)))))

  -- `_create_module`
  unfoldable pub create_module :
      Module → RootedPath → List ModuleId → Option GoWork → ParsedModule → Result Module
  unfolding get_module_id sum_file resolve_path_for_local_replacement join_within_root path_of
      startswith module_path
  create_module main_module main_module_dir modules_in_go_sum go_work m =
      let (name, version_or_path) = get_module_id m in
      let made : String → String → Option PurePath → Module = λ version real_path missing. (record {
        name = name;
        original_name = module_path m;
        real_path = real_path;
        version = version;
        main = false;
        missing_hash_in_file = missing;
      }) in
      if startswith version_or_path "."
      then (do
        path ← join_within_root resolve main_module_dir (path_of version_or_path ∷ [])
        version ← get_golang_version (module_path m) path
        real_path ← resolve_path_for_local_replacement main_module m
        ok (made version real_path none))
      else if contains modules_in_go_sum (name, version_or_path)
      then ok (made version_or_path name none)
      else (sum_file go_work main_module_dir >>= λ path. ok (made version_or_path name (some path)))

  -- `_create_modules_from_parsed_data`
  unfoldable pub create_modules_from_parsed_data :
      Module → RootedPath → List ModuleId → Option GoWork → List ParsedModule → Result (List Module)
  unfolding create_module
  create_modules_from_parsed_data main_module main_module_dir sums go_work [] = ok []
  create_modules_from_parsed_data main_module main_module_dir sums go_work (m ∷ ms) =
      let rest = create_modules_from_parsed_data main_module main_module_dir sums go_work ms in
      create_module main_module main_module_dir sums go_work m >>= λ made.
      rest >>= λ modules. ok (made ∷ modules)

  -- `_create_main_module_from_parsed_data`
  unfoldable pub create_main_module_from_parsed_data :
      RootedPath → String → ParsedModule → Result Module
  unfolding subpath_from_root text_of module_path module_version
  create_main_module_from_parsed_data main_module_dir repo_name m =
      subpath_from_root main_module_dir >>= λ path.
      if or_else (module_version m) "" == ""
      then err runtime_error
      else ok (record {
        name = module_path m;
        original_name = module_path m;
        real_path = if text_of path == "." then repo_name else repo_name <> ("/" <> text_of path);
        version = or_else (module_version m) "";
        main = false;
        missing_hash_in_file = none;
      })

  -- `_validate_local_replacements`
  unfoldable pub validate_local_replacements : List ParsedModule → RootedPath → Result (Unit {0})
  unfolding join_within_root path_of module_replace module_path startswith
  validate_local_replacements [] app_path = ok tt
  validate_local_replacements (m ∷ ms) app_path =
      let rest = validate_local_replacements ms app_path in
      elim (module_replace m) [
        | none ↦ rest
        | some replace ↦
            if startswith (module_path replace) "."
            then (join_within_root resolve app_path (path_of (module_path replace) ∷ []) >>= λ path.
                rest)
            else rest
      ]

-- `d.setdefault(key, m)`, where the key is that of the module.
unfoldable pub add_module : ParsedModule → List ParsedModule → List ParsedModule
unfolding get_module_id
add_module m [] = m ∷ []
add_module m (k ∷ ms) =
    let rest = add_module m ms in if get_module_id k == get_module_id m then k ∷ ms else k ∷ rest

unfoldable pub add_modules : List ParsedModule → List ParsedModule → List ParsedModule
unfolding add_module
add_modules found [] = found
add_modules found (m ∷ ms) = add_modules (add_module m found) ms

-- `_deduplicate_resolved_modules`
unfoldable pub deduplicate_resolved_modules :
    List ParsedModule → List ParsedModule → List ParsedModule
unfolding add_modules
deduplicate_resolved_modules package_modules downloaded_modules =
    add_modules [] (package_modules ++ downloaded_modules)

-- The loop of `_parse_go_sum`: the rest of the file behind a malformed line is skipped. The set is
-- the list of its members.
unfoldable pub parse_sum_lines : List String → List ModuleId
unfolding split last_part path_of
parse_sum_lines [] = []
parse_sum_lines (line ∷ lines) =
    let rest = parse_sum_lines lines in
    elim (split line) [
      | [] ↦ rest
      | name ∷ [] ↦ []
      | name ∷ version ∷ [] ↦ []
      | name ∷ version ∷ hash ∷ [] ↦
          if last_part (path_of version).parts == "go.mod" then rest else (name, version) ∷ rest
      | name ∷ version ∷ hash ∷ more ∷ others ↦ []
    ]

-- `_parse_go_sum`, on the lines of the file, if it is there
unfoldable pub parse_go_sum : Option (List String) → List ModuleId
unfolding parse_sum_lines
parse_go_sum none = []
parse_go_sum (some lines) = parse_sum_lines lines
