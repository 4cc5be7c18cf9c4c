-- ===== src/Sbom/Relations/Retarget.antt =====
-- hermeto/core/models/sbom.py: what the addition of SPDX documents makes of their relationships and
-- their references.
use cachi.Base.{
  String, true, false, List, [], ◌∷◌, ◌≡◌, ◌==◌, string_eq, string_ord, nat_eq, list_ord,
  Bool-cases, inl, inr, arith,
}
use cachi.Sbom.Spdx.{ref_ord, annotation_ord}
use cachi.Sbom.Relations.{SpdxRelation, relation_eq, retarget, describes, retarget_relations}

-- A relation that is moved from one root to another.
pub record IsMoved (from_root to_root : String) (r : SpdxRelation) : Type 0 where
  pub element_differs : (r.element_id == from_root) ≡ false
  pub not_described : describes from_root r ≡ false
  pub linked : (r.related == from_root) ≡ true → r.element_id ≡ to_root

abbrev pub AllMoved : String → String → List SpdxRelation → Type 0
AllMoved f t [] = Unit
AllMoved f t (r ∷ relationships) = IsMoved f t r × AllMoved f t relationships

retarget-IsMoved :
    (f t : String) (r : SpdxRelation)
    → (f == t) ≡ false
    → describes f (retarget f t r) ≡ false
    → IsMoved f t (retarget f t r)
unfolding retarget
retarget-IsMoved f t r h d = record {
  element_differs = grind arith;
  not_described = d;
  linked = λ l. grind arith;
}

-- Relations that are moved to another root do not begin at the old root, do not describe it, and
-- begin at the new root if they end at the old one.
pub retarget_relations-AllMoved :
    (f t : String) (relationships : List SpdxRelation)
    → (f == t) ≡ false
    → AllMoved f t (retarget_relations f t relationships)
unfolding retarget_relations
retarget_relations-AllMoved f t [] h = tt
retarget_relations-AllMoved f t (r ∷ relationships) h =
    elim (Bool-cases (describes f (retarget f t r))) [
      | inl d ↦ rw (d, retarget_relations) (retarget_relations-AllMoved f t relationships h)
      | inr d ↦
          rw (d, retarget_relations)
            (retarget-IsMoved f t r h d, retarget_relations-AllMoved f t relationships h)
    ]
