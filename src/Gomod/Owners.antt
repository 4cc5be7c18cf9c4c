-- ===== src/Gomod/Owners.antt =====
-- hermeto/core/package_managers/gomod.py: what is made of the packages.
use cachi.Base.{
  String, true, List, [], ◌∷◌, string_eq, ◌≡◌, refl, ap, subst, ◌∙◌, Bool-cases, inl, inr,
}
use cachi.Base.Dict.{keys_of}
use cachi.Errors.{ok, >>=-eq-ok, ok_injective}
use cachi.Gomod.Models.{ParsedPackage}
use cachi.Gomod.Paths.{path_of, text_of}
use cachi.Gomod.Modules.{Module}
use cachi.Gomod.Names.{AllDotless, below_original}
use cachi.Gomod.Parents.{
  AllPlain, Longest, AllIndexed, index_modules-AllIndexed, parent_module-Longest,
}
use cachi.Gomod.Packages.{
  Package, module_package, standard_package, below, Index, index_modules, parent_module,
  resolve_package_relative_path, create_package, create_packages, create_packages_from_parsed_data,
}

-- The import path is the text of its path, and none of its parts begins with a dot.
pub record IsImportPath (s : String) : Type 0 where
  pub normal : text_of (path_of s) ≡ s
  pub dotless : AllDotless (path_of s).parts

abbrev pub AllImportPaths : List ParsedPackage → Type 0
AllImportPaths [] = Unit
AllImportPaths (p ∷ ps) = IsImportPath p.import_path × AllImportPaths ps

-- What is made of a package: its name is the import path, and its module is the one that is given,
-- or that with the longest name among those that the import path is below.
abbrev pub IsOwn : List String → ParsedPackage → Package → Type 0
IsOwn names p (standard_package import_path) = (import_path ≡ p.import_path) × (p.standard ≡ true)
IsOwn names p (module_package relative_path m) =
    (below m.name relative_path ≡ p.import_path)
    × Longest p.parent p.import_path m.original_name names

abbrev pub AllOwn : List String → List ParsedPackage → List Package → Type 0
AllOwn names [] [] = Unit
AllOwn names [] (q ∷ qs) = ⊥
AllOwn names (p ∷ ps) [] = ⊥
AllOwn names (p ∷ ps) (q ∷ qs) = IsOwn names p q × AllOwn names ps qs

create_package-IsOwn :
    (index : Index) (p : ParsedPackage) {q : Package}
    → AllIndexed index
    → IsImportPath p.import_path
    → create_package index p ≡ ok q
    → IsOwn (keys_of index) p q
unfolding create_package
create_package-IsOwn index p {q} h i e = elim (Bool-cases p.standard) [
  | inl t ↦ subst (IsOwn (keys_of index) p) (ok_injective (rw (t) at e)) (refl, t)
  | inr f ↦
      (let (m, found, g) = >>=-eq-ok (parent_module index p) _ (rw (f) at e) in
        let (rel, r, k) = >>=-eq-ok (resolve_package_relative_path p m) _ g in
        let (plain, longest) = parent_module-Longest index p h found in
        subst (IsOwn (keys_of index) p) (ok_injective k) (
          ap (λ (x : String). below x rel) plain.same_name
              ∙ below_original p m r i.normal plain.normal plain.has_part i.dotless,
          longest,
        ))
]

create_packages-AllOwn :
    (index : Index) (ps : List ParsedPackage) {qs : List Package}
    → AllIndexed index
    → AllImportPaths ps
    → create_packages index ps ≡ ok qs
    → AllOwn (keys_of index) ps qs
unfolding create_packages
create_packages-AllOwn index [] h i e = subst (AllOwn (keys_of index) []) (ok_injective e) tt
create_packages-AllOwn index (p ∷ ps) h i e =
    let (q, made, g) = >>=-eq-ok (create_package index p) _ e in
    let (qs, rest, k) = >>=-eq-ok (create_packages index ps) _ g in
    subst (AllOwn (keys_of index) (p ∷ ps)) (ok_injective k)
      (create_package-IsOwn index p h i.0 made, create_packages-AllOwn index ps h i.1 rest)

-- Where modules keep their names, which are the texts of paths with a part, and import paths are
-- the texts of paths without a part that begins with a dot: a package of the standard library is
-- named after its import path; any other has its import path as its name, and its module is the one
-- that the go command gives or else that with the longest name that the import path is below.
pub create_packages-own :
    (modules : List Module) (ps : List ParsedPackage) {qs : List Package}
    → AllPlain modules
    → AllImportPaths ps
    → create_packages_from_parsed_data modules ps ≡ ok qs
    → AllOwn (keys_of (index_modules [] modules)) ps qs
unfolding create_packages_from_parsed_data
create_packages-own modules ps m i e =
    create_packages-AllOwn (index_modules [] modules) ps (index_modules-AllIndexed [] modules m tt)
      i e
