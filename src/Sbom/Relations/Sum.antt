-- ===== src/Sbom/Relations/Sum.antt =====
-- hermeto/core/models/sbom.py: the relationships and the references of a sum of SPDX documents.
use mathlib.Core.List.{map}
use cachi.Base.{
  ℕ, Bool, false, ◌||◌, List, [], ◌∷◌, ◌++◌, ◌≡◌, refl, subst, ◌∙◌, string_eq, string_ord, nat_eq,
  list_ord, Bool-cases, inl, inr, arith, contains,
}
use cachi.Base.Members.{contains-append, contains-set_of, any, any-append, any-sort_by}
use cachi.Errors.{not_returned, ok, >>=-eq-ok, ok_injective, Result-cases}
use cachi.Sbom.Spdx.{
  ExternalRef, SpdxPackage, PackageUrls, ref_eq, ref_ord, annotation_ord, purl_key,
}
use cachi.Sbom.Packages.{
  Items, extend_item, add_item, tidy_item, package_order, collect_items, deduplicate_spdx_packages,
}
use cachi.Sbom.Relations.{
  SpdxRelation, relation_eq, SpdxSbom, retarget_and_prune_relationships, distinct, spdx_add,
  non_root_packages,
}

-- No relation of the list occurs twice.
abbrev pub NoDup : List SpdxRelation → Type 0
NoDup [] = Unit
NoDup (r ∷ relationships) = (contains relationships r ≡ false) × NoDup relationships

contains-distinct :
    (seen l : List SpdxRelation) (x : SpdxRelation)
    → contains (distinct seen l) x ≡ (contains seen x || contains l x)
unfolding distinct
contains-distinct seen [] x = ground arith
contains-distinct seen (r ∷ l) x = elim (Bool-cases (contains seen r)) [
  | inl h ↦ rw (h) ground (arith, contains-distinct seen l x)
  | inr h ↦
      rw (h) ground (arith, contains-distinct (seen ++ r ∷ []) l x, contains-append seen (r ∷ []) x)
]

NoDup-snoc :
    (l : List SpdxRelation) (r : SpdxRelation)
    → NoDup l
    → contains l r ≡ false
    → NoDup (l ++ r ∷ [])
NoDup-snoc [] r h n = (refl, tt)
NoDup-snoc (x ∷ l) r h n =
    (ground (arith, contains-append l (r ∷ []) x), NoDup-snoc l r h.1 (ground arith))

distinct-NoDup : (seen l : List SpdxRelation) → NoDup seen → NoDup (distinct seen l)
unfolding distinct
distinct-NoDup seen [] h = h
distinct-NoDup seen (r ∷ l) h = elim (Bool-cases (contains seen r)) [
  | inl n ↦ rw (n) (distinct-NoDup seen l h)
  | inr n ↦ rw (n) (distinct-NoDup (seen ++ r ∷ []) l (NoDup-snoc seen r h n))
]

-- Whether one of the packages has the reference.
abbrev pub has_ref : ExternalRef → List SpdxPackage → Bool
has_ref x packages = any (λ (p : SpdxPackage). contains p.external_refs x) packages

abbrev item_has : ExternalRef → Items → Bool
item_has x items = any (λ (i : ℕ × SpdxPackage). contains i.1.external_refs x) items

item_has-add_item :
    (x : ExternalRef) (k : ℕ) (p : SpdxPackage) (items : Items)
    → item_has x (add_item k p items) ≡ (item_has x items || contains p.external_refs x)
unfolding add_item extend_item
item_has-add_item x k p [] = ground arith
item_has-add_item x k p ((j, first) ∷ items) =
    ground
      (arith, item_has-add_item x k p items, contains-append first.external_refs p.external_refs x)

module _ (lib : PackageUrls) where
  item_has-collect_items :
      (x : ExternalRef) (unique_items : Items) (items : List SpdxPackage) {r : Items}
      → collect_items lib unique_items items ≡ ok r
      → item_has x r ≡ (item_has x unique_items || has_ref x items)
  unfolding collect_items
  item_has-collect_items x unique_items [] h =
      subst (λ l. item_has x l ≡ (item_has x unique_items || false)) (ok_injective h) (ground arith)
  item_has-collect_items x unique_items (p ∷ items) h = elim (Result-cases (purl_key lib p)) [
    | inl (e, k) ↦ absurd (not_returned (rw (k, collect_items) at h))
    | inr (k, e) ↦
        item_has-collect_items x (add_item k p unique_items) items (rw (e, collect_items) at h)
        ∙ ground (arith, item_has-add_item x k p unique_items)
  ]

  has_ref-tidy :
      (x : ExternalRef) (items : Items)
      → has_ref x (map (λ (i : ℕ × SpdxPackage). tidy_item i.1) items) ≡ item_has x items
  unfolding tidy_item
  has_ref-tidy x [] = refl
  has_ref-tidy x ((k, p) ∷ items) =
      ground (arith, contains-set_of p.external_refs x, has_ref-tidy x items)

  -- Packages without duplicates have the references of the packages, no more and no fewer.
  pub has_ref-deduplicate_spdx_packages :
      (x : ExternalRef) (items : List SpdxPackage) {r : List SpdxPackage}
      → deduplicate_spdx_packages lib items ≡ ok r
      → has_ref x r ≡ has_ref x items
  unfolding deduplicate_spdx_packages
  has_ref-deduplicate_spdx_packages x items h =
      let (unique_items, e, g) = >>=-eq-ok (collect_items lib [] items) _ h in
      subst (λ l. has_ref x l ≡ has_ref x items) (ok_injective g)
        (any-sort_by package_order (λ (p : SpdxPackage). contains p.external_refs x) _
          ∙ has_ref-tidy x unique_items
          ∙ item_has-collect_items x [] items e)

  -- The relationships of a sum are those of the first document and the moved ones of the second,
  -- each once; its packages have the references of the first document's packages and of the
  -- second's, but for those of its root.
  pub spdx_add-members :
      (a b : SpdxSbom) {c : SpdxSbom}
      → spdx_add lib a b ≡ ok c
      → NoDup c.relationships
        × ((r : SpdxRelation)
            → contains c.relationships r
              ≡ (contains a.relationships r || contains (retarget_and_prune_relationships b a) r))
        × ((x : ExternalRef)
            → has_ref x c.packages ≡ (has_ref x a.packages || has_ref x (non_root_packages b)))
  unfolding spdx_add
  spdx_add-members a b {c} h =
      let (packages, e, g) =
        >>=-eq-ok (deduplicate_spdx_packages lib (a.packages ++ non_root_packages b)) _ h in
      subst
        (λ (d : SpdxSbom).
          NoDup d.relationships
          × ((r : SpdxRelation)
              → contains d.relationships r
                ≡ (contains a.relationships r || contains (retarget_and_prune_relationships b a) r))
          × ((x : ExternalRef)
              → has_ref x d.packages ≡ (has_ref x a.packages || has_ref x (non_root_packages b))))
        (ok_injective g)
        (
          distinct-NoDup [] (a.relationships ++ retarget_and_prune_relationships b a) tt,
          (λ r.
              contains-distinct [] (a.relationships ++ retarget_and_prune_relationships b a) r
              ∙ contains-append a.relationships (retarget_and_prune_relationships b a) r),
          (λ x.
              has_ref-deduplicate_spdx_packages x (a.packages ++ non_root_packages b) e
              ∙ any-append (λ (p : SpdxPackage). contains p.external_refs x) a.packages
                  (non_root_packages b)),
        )
