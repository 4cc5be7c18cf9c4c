-- ===== src/Sbom/Relations.antt =====
-- hermeto/core/models/sbom.py: `SPDXSbom` with its root, its relationships and its addition.
pub mod Retarget
pub mod Sum
use mathlib.Core.List.{map, foldl}
use cachi.Base.{
  ℕ, String, Bool, true, false, not, ◌&&◌, ◌||◌, Option, none, some, List, [], ◌∷◌, ◌++◌, ◌==◌, Eq,
  string_eq, option_eq, if◌then◌else◌, contains,
}
use cachi.Base.Dict.{set_item, get_item, keys_of}
use cachi.Errors.{Result, ok, err, ◌>>=◌}
use cachi.Sbom.Spdx.{SpdxPackage, PackageUrls}
use cachi.Sbom.Packages.{deduplicate_spdx_packages}

pub record SpdxRelation : Type 0 where
  pub element_id : String
  pub comment : Option String
  pub related : String
  pub relationship_type : String

unfoldable pub relation_discrete : Discrete SpdxRelation
relation_discrete = hlevel (string_eq.dec)

instance unfoldable pub relation_eq : Eq SpdxRelation
unfolding relation_discrete
relation_eq = record { dec = relation_discrete }

pub record CreationInfo : Type 0 where
  pub creators : List String
  pub created : String

-- The fields that have one value each are left out: `document_id` is `SPDXID`.
pub record SpdxSbom : Type 0 where
  pub name : String
  pub document_namespace : String
  pub creation_info : CreationInfo
  pub packages : List SpdxPackage
  pub relationships : List SpdxRelation

abbrev pub document_id : String
document_id = "SPDXRef-DOCUMENT"

-- `first_for`, of hermeto/core/utils.py
unfoldable pub first_for {ℓ} : {A : Type ℓ} → (A → Bool) → List A → A → A
first_for predicate [] fallback = fallback
first_for predicate (x ∷ items) fallback =
    let rest = first_for predicate items fallback in if predicate x then x else rest

unfoldable pub direct_relationships : List SpdxRelation → List (String × List String)
unfolding set_item get_item
direct_relationships relationships =
    foldl
      (λ d (r : SpdxRelation).
        set_item r.element_id
          ((elim (get_item r.element_id d) [ none ↦ [] | some l ↦ l ]) ++ r.related ∷ []) d)
      [] relationships

unfoldable pub inverse_relationships : List SpdxRelation → List (String × String)
unfolding set_item
inverse_relationships relationships =
    foldl (λ d (r : SpdxRelation). set_item r.related r.element_id d) [] relationships

unfoldable pub root_of : List SpdxRelation → String
unfolding first_for direct_relationships inverse_relationships get_item keys_of
root_of relationships =
    first_for (λ p. get_item p (inverse_relationships relationships) == some document_id)
      (keys_of (direct_relationships relationships)) document_id

-- `root_id`, computed anew at each use. The code keeps what it has computed, also in a sum.
unfoldable pub root_id : SpdxSbom → String
unfolding root_of
root_id s = root_of s.relationships

unfoldable pub packages_besides : String → List SpdxPackage → List SpdxPackage
packages_besides root [] = []
packages_besides root (p ∷ packages) =
    let rest = packages_besides root packages in if p.spdx_id == root then rest else p ∷ rest

unfoldable pub non_root_packages : SpdxSbom → List SpdxPackage
unfolding packages_besides root_id
non_root_packages s = packages_besides (root_id s) s.packages

-- `new_rel`, for one relation.
unfoldable pub retarget : String → String → SpdxRelation → SpdxRelation
retarget from_root to_root r = record r {
  element_id =
      if from_root == r.element_id || from_root == r.related then to_root else r.element_id;
}

abbrev pub describes : String → SpdxRelation → Bool
describes from_root r = r.related == from_root && r.relationship_type == "DESCRIBES"

-- The loop of `retarget_and_prune_relationships`.
unfoldable pub retarget_relations : String → String → List SpdxRelation → List SpdxRelation
unfolding retarget
retarget_relations from_root to_root [] = []
retarget_relations from_root to_root (r ∷ relationships) =
    let rest = retarget_relations from_root to_root relationships in
    if not (describes from_root (retarget from_root to_root r))
    then retarget from_root to_root r ∷ rest
    else rest

unfoldable pub retarget_and_prune_relationships : SpdxSbom → SpdxSbom → List SpdxRelation
unfolding retarget_relations root_id
retarget_and_prune_relationships from_sbom to_sbom =
    retarget_relations (root_id from_sbom) (root_id to_sbom) from_sbom.relationships

-- `list(set(…))`, where the order that Python leaves open is that of the first occurrences.
unfoldable pub distinct : List SpdxRelation → List SpdxRelation → List SpdxRelation
distinct seen [] = seen
distinct seen (r ∷ relationships) =
    distinct (if contains seen r then seen else seen ++ r ∷ []) relationships

-- `a + b`, of two `SPDXSbom`s
unfoldable pub spdx_add : PackageUrls → SpdxSbom → SpdxSbom → Result SpdxSbom
unfolding non_root_packages retarget_and_prune_relationships distinct deduplicate_spdx_packages
spdx_add lib a b = deduplicate_spdx_packages lib (a.packages ++ non_root_packages b) >>= λ packages.
    ok (record a {
      packages = packages;
      relationships = distinct [] (a.relationships ++ retarget_and_prune_relationships b a);
    })
