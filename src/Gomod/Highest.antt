-- ===== src/Gomod/Highest.antt =====
-- hermeto/core/package_managers/gomod.py: `_get_highest_semver_tag` finds the highest tag.
use cachi.Base.{
  ℕ, String, true, false, Option, none, some, List, [], ◌∷◌, string_eq, nat_eq, ◌≡◌, refl, sym, ap,
  subst, ◌∙◌, arith, ◌⊎◌, inl, inr, Bool-cases, Option-cases,
}
use cachi.Base.Members.{Among, AllMeet}
use cachi.Errors.{ok, >>=-eq-ok, ok_injective}
use cachi.Gomod.Ranked.{version_in, advance, step-advance}
use cachi.Gomod.Tags.{SemanticVersions, Highest, highest_from, get_highest_semver_tag}

module _ (lib : SemanticVersions) (subpath : String) (major_version : ℕ) where
  open lib use {Version, order, major}

  -- The version is not below the other one, if there is one.
  abbrev pub NotBelow : Version → Option Version → Type 0
  NotBelow v none = Unit
  NotBelow v (some w) = order.lt v w ≡ false

  -- The tag is one of the list, with a version that is not below that of any; or no tag has a
  -- version.
  abbrev pub IsHighest : List String → Option String → Type 0
  IsHighest tags none = AllMeet (λ t. version_in lib subpath major_version t ≡ none) tags
  IsHighest tags (some tag) =
      Among tag tags
      × ((v : Version) × (version_in lib subpath major_version tag ≡ some v)
          × AllMeet (λ t. NotBelow v (version_in lib subpath major_version t)) tags)

  not_below_trans :
      (a b c : Version) → order.lt b a ≡ false → order.lt c b ≡ false → order.lt c a ≡ false
  not_below_trans a b c h k = grind (arith, order.asym, order.trans, order.connex)

  not_below_refl : (a : Version) → order.lt a a ≡ false
  not_below_refl a = grind (arith, order.asym)

  -- What the loop ends with, begun with a tag that has a version.
  Beats : List String → String → Version → Highest lib → Type 0
  Beats tags best w none = ⊥
  Beats tags best w (some (tag, v)) =
      (((tag ≡ best) × (v ≡ w))
        ⊎ (Among tag tags × (version_in lib subpath major_version tag ≡ some v)))
      × (order.lt v w ≡ false)
      × AllMeet (λ t. NotBelow v (version_in lib subpath major_version t)) tags

  later :
      (tags : List String) (t best : String) (v w : Version) (tag : String)
      → ((tag ≡ best) × (v ≡ w))
        ⊎ (Among tag tags × (version_in lib subpath major_version tag ≡ some v))
      → ((tag ≡ best) × (v ≡ w))
        ⊎ (Among tag (t ∷ tags) × (version_in lib subpath major_version tag ≡ some v))
  later tags t best v w tag (inl e) = inl e
  later tags t best v w tag (inr (a, e)) = inr (inr a, e)

  NotBelow-found :
      (v : Version) (o : Option Version) (x : Version)
      → o ≡ some x
      → order.lt v x ≡ false
      → NotBelow v o
  NotBelow-found v o x e h = subst (NotBelow v) (sym e) h

  Beats-kept :
      (tags : List String) (t best : String) (w : Version) (r : Highest lib)
      → ((v : Version) → order.lt v w ≡ false → NotBelow v (version_in lib subpath major_version t))
      → Beats tags best w r
      → Beats (t ∷ tags) best w r
  unfolding Beats
  Beats-kept tags t best w none k b = b
  Beats-kept tags t best w (some (tag, v)) k (found, above, all) =
      (later tags t best v w tag found, above, (k v above, all))

  Beats-new :
      (tags : List String) (t best : String) (w x : Version) (r : Highest lib)
      → version_in lib subpath major_version t ≡ some x
      → order.lt w x ≡ true
      → Beats tags t x r
      → Beats (t ∷ tags) best w r
  unfolding Beats
  Beats-new tags t best w x none e l b = b
  Beats-new tags t best w x (some (tag, v)) e l (inl (same, is_x), above, all) = (
    inr (inl same, ap (version_in lib subpath major_version) same ∙ e ∙ ap some (sym is_x)),
    not_below_trans w x v (order.asym w x l) above,
    (NotBelow-found v (version_in lib subpath major_version t) x e above, all),
  )
  Beats-new tags t best w x (some (tag, v)) e l (inr (a, found), above, all) = (
    inr (inr a, found),
    not_below_trans w x v (order.asym w x l) above,
    (NotBelow-found v (version_in lib subpath major_version t) x e above, all),
  )

  highest_from-Beats :
      (tags : List String) (best : String) (w : Version) (r : Highest lib)
      → highest_from lib subpath major_version (some (best, w)) tags ≡ ok r
      → Beats tags best w r
  unfolding highest_from advance
  highest_from-Beats [] best w r h =
      unfold Beats in
      subst (Beats [] best w) (ok_injective h) (inl (refl, refl), not_below_refl w, tt)
  highest_from-Beats (t ∷ tags) best w r h =
      let (found, e, g) = >>=-eq-ok _ (λ f. highest_from lib subpath major_version f tags) h in
      let same = step-advance lib subpath major_version (some (best, w)) t e in
      elim (Option-cases (version_in lib subpath major_version t)) [
        | inl n ↦
            Beats-kept tags t best w r (λ v l. subst (NotBelow v) (sym n) tt)
              (highest_from-Beats tags best w r (
                subst (λ f. highest_from lib subpath major_version f tags ≡ ok r)
                  (sym same ∙ ap (advance lib subpath major_version (some (best, w)) t) n) g))
        | inr (x, n) ↦ elim (Bool-cases (order.lt w x)) [
          | inl l ↦ Beats-new tags t best w x r n l (
              highest_from-Beats tags t x r (
                subst (λ f. highest_from lib subpath major_version f tags ≡ ok r)
                  (sym same
                    ∙ ap (advance lib subpath major_version (some (best, w)) t) n
                    ∙ rw (l) refl)
                  g))
          | inr l ↦
              Beats-kept tags t best w r
                (λ v a.
                  NotBelow-found v (version_in lib subpath major_version t) x n
                    (not_below_trans x w v l a))
                (highest_from-Beats tags best w r (
                  subst (λ f. highest_from lib subpath major_version f tags ≡ ok r)
                    (sym same
                      ∙ ap (advance lib subpath major_version (some (best, w)) t) n
                      ∙ rw (l) refl)
                    g))
        ]
      ]

  abbrev tag_of : Highest lib → Option String
  tag_of none = none
  tag_of (some (tag, v)) = some tag

  tag_of_lem :
      (highest : Highest lib)
      → tag_of highest ≡ elim highest [ none ↦ none | some (tag, v) ↦ some tag ]
  tag_of_lem none = refl
  tag_of_lem (some (tag, v)) = refl

  Beats-IsHighest :
      (tags : List String) (t : String) (x : Version) (r : Highest lib)
      → version_in lib subpath major_version t ≡ some x
      → Beats tags t x r
      → IsHighest (t ∷ tags) (tag_of r)
  unfolding Beats
  Beats-IsHighest tags t x none e b = absurd b
  Beats-IsHighest tags t x (some (tag, v)) e (inl (same, is_x), above, all) = (
    inl same,
    (
      v,
      ap (version_in lib subpath major_version) same ∙ e ∙ ap some (sym is_x),
      (NotBelow-found v (version_in lib subpath major_version t) x e above, all),
    ),
  )
  Beats-IsHighest tags t x (some (tag, v)) e (inr (a, found), above, all) = (
    inr a,
    (v, found, (NotBelow-found v (version_in lib subpath major_version t) x e above, all)),
  )

  IsHighest-later :
      (tags : List String) (t : String) (r : Option String)
      → version_in lib subpath major_version t ≡ none
      → IsHighest tags r
      → IsHighest (t ∷ tags) r
  IsHighest-later tags t none n h = (n, h)
  IsHighest-later tags t (some tag) n (a, (v, e, all)) =
      (inr a, (v, e, (subst (NotBelow v) (sym n) tt, all)))

  highest_from-IsHighest :
      (tags : List String) (r : Highest lib)
      → highest_from lib subpath major_version none tags ≡ ok r
      → IsHighest tags (tag_of r)
  unfolding highest_from advance
  highest_from-IsHighest [] r h = subst (λ x. IsHighest [] (tag_of x)) (ok_injective h) tt
  highest_from-IsHighest (t ∷ tags) r h =
      let (found, e, g) = >>=-eq-ok _ (λ f. highest_from lib subpath major_version f tags) h in
      let same = step-advance lib subpath major_version none t e in
      elim (Option-cases (version_in lib subpath major_version t)) [
        | inl n ↦ IsHighest-later tags t (tag_of r) n (
            highest_from-IsHighest tags r (
              subst (λ f. highest_from lib subpath major_version f tags ≡ ok r)
                (sym same ∙ ap (advance lib subpath major_version none t) n) g))
        | inr (x, n) ↦ Beats-IsHighest tags t x r n (
            highest_from-Beats tags t x r (
              subst (λ f. highest_from lib subpath major_version f tags ≡ ok r)
                (sym same ∙ ap (advance lib subpath major_version none t) n) g))
      ]

  -- The tag that is found is one of the tags with the prefix of the module and its major version,
  -- and none of those has a higher version; where none is found, there is no such tag.
  pub get_highest_semver_tag-IsHighest :
      (tags : List String) {r : Option String}
      → get_highest_semver_tag lib subpath major_version tags ≡ ok r
      → IsHighest tags r
  unfolding get_highest_semver_tag
  get_highest_semver_tag-IsHighest tags h =
      let (highest, e, g) = >>=-eq-ok (highest_from lib subpath major_version none tags) _ h in
      subst (IsHighest tags) (tag_of_lem highest ∙ ok_injective g)
        (highest_from-IsHighest tags highest e)
