-- ===== src/Sbom/Packages.antt =====
-- hermeto/core/models/sbom.py: `SPDXSbom.deduplicate_spdx_packages`.
use mathlib.Core.List.{map}
use cachi.Base.{
  ℕ, String, none, some, List, [], ◌∷◌, ◌++◌, ◌==◌, nat_eq, string_ord, list_ord, if◌then◌else◌,
}
use cachi.Base.Sets.{set_of}
use cachi.Base.Sort.{sort_by}
use cachi.Errors.{Result, ok, err, ◌>>=◌}
use cachi.Sbom.Spdx.{SpdxPackage, PackageUrls, ref_ord, annotation_ord, purl_key}

-- The values of `unique_items`, each behind its key, in the order of the insertions.
abbrev pub Items : Type 0
Items = List (ℕ × SpdxPackage)

unfoldable pub extend_item : SpdxPackage → SpdxPackage → SpdxPackage
extend_item first item = record first {
  external_refs = first.external_refs ++ item.external_refs;
  annotations = first.annotations ++ item.annotations;
}

unfoldable pub add_item : ℕ → SpdxPackage → Items → Items
unfolding extend_item
add_item k item [] = (k, item) ∷ []
add_item k item ((j, first) ∷ items) =
    let rest = add_item k item items in
    if j == k then (j, extend_item first item) ∷ items else (j, first) ∷ rest

unfoldable pub tidy_item : SpdxPackage → SpdxPackage
tidy_item item = record item {
  external_refs = set_of item.external_refs;
  annotations = set_of item.annotations;
}

-- The key of the last sort.
abbrev pub package_order : SpdxPackage → List String
package_order p = p.name ∷ (elim p.version_info [ none ↦ "" | some v ↦ v ]) ∷ []

module _ (lib : PackageUrls) where
  -- The first loop.
  unfoldable pub collect_items : Items → List SpdxPackage → Result Items
  unfolding add_item purl_key
  collect_items unique_items [] = ok unique_items
  collect_items unique_items (item ∷ items) = elim (purl_key lib item) [
    | err e ↦ err e
    | ok k ↦ collect_items (add_item k item unique_items) items
  ]

  unfoldable pub deduplicate_spdx_packages : List SpdxPackage → Result (List SpdxPackage)
  unfolding collect_items tidy_item
  deduplicate_spdx_packages items = collect_items [] items >>= λ unique_items.
      ok (sort_by package_order (map (λ (i : ℕ × SpdxPackage). tidy_item i.1) unique_items))
