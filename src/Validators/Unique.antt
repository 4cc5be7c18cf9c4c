-- ===== src/Validators/Unique.antt =====
-- hermeto/core/models/validators.py: what `unique` returns.
use cachi.Base.{
  Bool, false, not, ◌||◌, none, some, List, [], ◌∷◌, ◌++◌, ◌≡◌, refl, ap, subst, ◌∙◌, ◌==◌,
  Bool-cases, Option-cases, inl, inr, arith, Eq,
}
use cachi.Errors.{ok_injective, ok, ◌>>=◌}
use cachi.Validators.{find_key, unique_from, unique}

module _ {ℓ κ} {A : Type ℓ} {K : Type κ} ⦃a : Eq A⦄ ⦃e : Eq K⦄ (by : A → K) where
  unique_from-append :
      (d : Bool) (seen l m : List A)
      → unique_from by d seen (l ++ m) ≡ (unique_from by d seen l >>= λ t. unique_from by d t m)
  unfolding unique_from
  unique_from-append d seen [] m = refl
  unique_from-append d seen (x ∷ l) m =
      ground (arith, unique_from-append d (seen ++ x ∷ []) l m, unique_from-append d seen l m)

  -- Each item of the list is the one that its key has in the result.
  abbrev pub AllFound : List A → List A → Type ℓ
  AllFound [] r = Unit {ℓ}
  AllFound (x ∷ items) r = (find_key by (by x) r ≡ some x) × AllFound items r

  find_key-append :
      (k : K) (l r : List A) (x : A) → find_key by k l ≡ some x → find_key by k (l ++ r) ≡ some x
  unfolding find_key
  find_key-append k [] r x h = absurd cc
  find_key-append k (y ∷ l) r x h = ground (arith, find_key-append k l r x)

  find_key-last :
      (l : List A) (x : A) → find_key by (by x) l ≡ none → find_key by (by x) (l ++ x ∷ []) ≡ some x
  unfolding find_key
  find_key-last [] x h = ground arith
  find_key-last (y ∷ l) x h = ground (arith, find_key-last l x)

  kept :
      (d : Bool) (seen : List A) (y : A) (items : List A) (z : A) {r : List A}
      → unique_from by d seen (y ∷ items) ≡ ok r
      → find_key by (by y) seen ≡ some z
      → unique_from by d seen items ≡ ok r
  unfolding unique_from
  kept d seen y items z h p = elim (Bool-cases (not d || not (z == y))) [
    | inl q ↦ absurd (ground arith)
    | inr q ↦ rw (p, q, unique_from) at h
  ]

  same :
      (d : Bool) (seen : List A) (y : A) (items : List A) (z : A) {r : List A}
      → unique_from by d seen (y ∷ items) ≡ ok r
      → find_key by (by y) seen ≡ some z
      → z ≡ y
  unfolding unique_from
  same d seen y items z h p = grind arith

  keeps :
      (d : Bool) (k : K) (seen items : List A) (x : A) {r : List A}
      → unique_from by d seen items ≡ ok r
      → find_key by k seen ≡ some x
      → find_key by k r ≡ some x
  unfolding unique_from
  keeps d k seen [] x h f = cc
  keeps d k seen (y ∷ items) x h f = elim (Option-cases (find_key by (by y) seen)) [
    | inl p ↦
        (keeps d k (seen ++ y ∷ []) items x (rw (p, unique_from) at h)
          (find_key-append k seen (y ∷ []) x f))
    | inr (z, p) ↦ keeps d k seen items x (kept d seen y items z h p) f
  ]

  all_found :
      (d : Bool) (seen items : List A) {r : List A}
      → unique_from by d seen items ≡ ok r
      → AllFound items r
  unfolding unique_from
  all_found d seen [] h = tt
  all_found d seen (y ∷ items) h = elim (Option-cases (find_key by (by y) seen)) [
    | inl p ↦ (
      keeps d (by y) (seen ++ y ∷ []) items y (rw (p, unique_from) at h) (find_key-last seen y p),
      all_found d (seen ++ y ∷ []) items (rw (p, unique_from) at h),
    )
    | inr (z, p) ↦ (
      keeps d (by y) seen items y (kept d seen y items z h p)
          (p ∙ ap some (same d seen y items z h p)),
      all_found d seen items (kept d seen y items z h p),
    )
  ]

  adds :
      (seen : List A) (y : A)
      → find_key by (by y) seen ≡ none
      → unique_from by false seen (y ∷ []) ≡ ok (seen ++ y ∷ [])
  unfolding unique_from
  adds seen y p = rw (p, unique_from) refl

  accepts :
      (d : Bool) (seen items : List A) {r : List A}
      → unique_from by d seen items ≡ ok r
      → unique by seen false ≡ ok seen
      → unique by r false ≡ ok r
  unfolding unique_from unique
  accepts d seen [] h s = subst (λ l. unique by l false ≡ ok l) (ok_injective h) s
  accepts d seen (y ∷ items) h s = elim (Option-cases (find_key by (by y) seen)) [
    | inl p ↦ accepts d (seen ++ y ∷ []) items (rw (p, unique_from) at h) (
        unique_from-append false [] seen (y ∷ [])
        ∙ ap (λ m. m >>= λ t. unique_from by false t (y ∷ [])) s
        ∙ adds seen y p)
    | inr (z, p) ↦ accepts d seen items (kept d seen y items z h p) s
  ]

  -- A list that `unique` returns has every item of its input, as the one item of its key, and no key
  -- twice: `unique` without the removal of duplicates accepts it as it is.
  pub unique-AllFound :
      (items : List A) (d : Bool) {r : List A}
      → unique by items d ≡ ok r
      → AllFound items r × (unique by r false ≡ ok r)
  unfolding unique unique_from
  unique-AllFound items d h = (all_found d [] items h, accepts d [] items h refl)
