-- ===== src/Gomod/Packages.antt =====
-- hermeto/core/package_managers/gomod.py: the packages that the SBOM describes, and their modules.
use cachi.Base.{
  String, ◌<>◌, Option, none, some, List, [], ◌∷◌, ◌==◌, string_eq, bool_eq, if◌then◌else◌, ltb,
}
use cachi.Base.Dict.{set_item, get_item, keys_of}
use cachi.Base.Text.{length}
use cachi.Base.Text.Affixes.{removeprefix}
use cachi.Errors.{Result, ok, err, ◌>>=◌, runtime_error, key_error}
use cachi.RootedPath.{relative_to, is_relative_to}
use cachi.Sbom.Component.{Component}
use cachi.Gomod.Models.{ParsedPackage, module_path}
use cachi.Gomod.Paths.{path_of, text_of}
use cachi.Gomod.Modules.{Module, GolangPurl, component}

-- `Package` and `StandardPackage`
pub data Package : Type 0 where
  module_package : (relative_path : String) (parent : Module) → Package
  standard_package : (import_path : String) → Package

-- A name, and what stands below it.
abbrev pub below : String → String → String
below name relative_path = if relative_path == "" then name else name <> ("/" <> relative_path)

-- `Package.name`
unfoldable pub package_name : Package → String
package_name (module_package relative_path parent) = below parent.name relative_path
package_name (standard_package import_path) = import_path

-- `Package.purl`
unfoldable pub package_purl : Package → GolangPurl
package_purl (module_package relative_path parent) = record {
  name = below parent.real_path relative_path;
  version = some parent.version;
  qualifiers = ("type", "package") ∷ [];
}
package_purl (standard_package import_path) = record {
  name = import_path;
  version = none;
  qualifiers = ("type", "package") ∷ [];
}

-- `Package.to_component`
unfoldable pub package_component :
    (GolangPurl → Result String) → String → Package → Result Component
unfolding package_purl package_name
package_component to_string app p = to_string (package_purl p) >>= λ purl.
    ok (component app (package_name p) (package_purl p).version purl [])

-- `indexed_modules`
abbrev pub Index : Type 0
Index = List (String × Module)

unfoldable pub index_modules : Index → List Module → Index
unfolding set_item
index_modules index [] = index
index_modules index (m ∷ ms) = index_modules (set_item m.original_name m index) ms

-- `max(filter(path.is_relative_to, names), key=len, default=None)`, where the best one so far is
-- given.
unfoldable pub longest_from : String → Option String → List String → Option String
unfolding path_of is_relative_to
longest_from import_path best [] = best
longest_from import_path best (name ∷ names) =
    longest_from import_path
      (if is_relative_to (path_of import_path) (path_of name)
        then (elim best [
          | none ↦ some name
          | some b ↦ if ltb (length b) (length name) then some name else some b
        ])
        else best)
      names

-- `indexed_modules[name]`
unfoldable pub module_named : String → Index → Result Module
unfolding get_item
module_named name index = elim (get_item name index) [ none ↦ err key_error | some m ↦ ok m ]

-- `_find_parent_module_by_name`
unfoldable pub find_parent_module_by_name : Index → String → Result Module
unfolding longest_from module_named keys_of
find_parent_module_by_name index import_path =
    elim (longest_from import_path none (keys_of index)) [
      | none ↦ err runtime_error
      | some name ↦ if name == "" then err runtime_error else module_named name index
    ]

-- The module of a package.
unfoldable pub parent_module : Index → ParsedPackage → Result Module
unfolding find_parent_module_by_name module_named module_path
parent_module index p = elim p.parent [
  | none ↦ find_parent_module_by_name index p.import_path
  | some m ↦ module_named (module_path m) index
]

-- `_resolve_package_relative_path`
unfoldable pub resolve_package_relative_path : ParsedPackage → Module → Result String
unfolding path_of relative_to text_of removeprefix
resolve_package_relative_path p m =
    relative_to (path_of p.import_path) (path_of m.original_name) >>= λ relative_path.
    ok (removeprefix (text_of relative_path) ".")

-- `_create_package`
unfoldable pub create_package : Index → ParsedPackage → Result Package
unfolding parent_module resolve_package_relative_path
create_package index p =
    if p.standard
    then ok (standard_package p.import_path)
    else (parent_module index p >>= λ m.
        resolve_package_relative_path p m >>= λ relative_path. ok (module_package relative_path m))

unfoldable pub create_packages : Index → List ParsedPackage → Result (List Package)
unfolding create_package
create_packages index [] = ok []
create_packages index (p ∷ ps) =
    let rest = create_packages index ps in
    create_package index p >>= λ made. rest >>= λ packages. ok (made ∷ packages)

-- `_create_packages_from_parsed_data`
unfoldable pub create_packages_from_parsed_data :
    List Module → List ParsedPackage → Result (List Package)
unfolding index_modules create_packages
create_packages_from_parsed_data modules parsed_packages =
    create_packages (index_modules [] modules) parsed_packages
