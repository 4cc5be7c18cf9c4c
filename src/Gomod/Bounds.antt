-- ===== src/Gomod/Bounds.antt =====
-- hermeto/core/package_managers/gomod.py: what `_select_toolchain` picks.
use cachi.Base.{
  true, false, List, [], ◌∷◌, ◌==◌, string_eq, ◌≡◌, sym, subst, arith, inl, inr, Bool-cases,
}
use cachi.Base.Members.{Among}
use cachi.Gomod.Toolchain.{Versions, Go, go_gt, min_from, max_from}

skip_second : {A : Type 0} {x : A} (y z : A) (l : List A) → Among x (y ∷ l) → Among x (y ∷ z ∷ l)
skip_second y z l (inl e) = inl e
skip_second y z l (inr e) = inr (inr e)

module _ (lib : Versions) where
  open lib use {Version, order, text}

  abbrev pub Toolchain : Type 0
  Toolchain = Go lib × Version

  not_lt_trans :
      (a b c : Version) → order.lt b a ≡ false → order.lt c b ≡ false → order.lt c a ≡ false
  not_lt_trans a b c h k = grind (arith, order.asym, order.trans, order.connex)

  pub not_lt_refl : (a : Version) → order.lt a a ≡ false
  not_lt_refl a = grind (arith, order.asym)

  -- The versions of the list all meet the condition.
  abbrev pub AllOf : (Version → Type 0) → List Toolchain → Type 0
  AllOf P [] = Unit
  AllOf P (t ∷ ts) = P t.1 × AllOf P ts

  -- No version of the list is below the one given, or above it.
  abbrev pub NoneBelow : Version → List Toolchain → Type 0
  NoneBelow v ts = AllOf (λ w. order.lt w v ≡ false) ts

  abbrev pub NoneAbove : Version → List Toolchain → Type 0
  NoneAbove v ts = AllOf (λ w. order.lt v w ≡ false) ts

  pub min_from-lower :
      (best : Toolchain) (ts : List Toolchain) (m : Toolchain)
      → min_from lib best ts ≡ m
      → NoneBelow m.1 (best ∷ ts) × Among m (best ∷ ts)
  unfolding min_from
  min_from-lower best [] m e = (
    (subst (λ (x : Toolchain). order.lt best.1 x.1 ≡ false) e (not_lt_refl best.1), tt),
    inl (sym e),
  )
  min_from-lower best (t ∷ ts) m e = elim (Bool-cases (order.lt t.1 best.1)) [
    | inl p ↦
        (let (lower, among) = min_from-lower t ts m (rw (p) at e) in
          ((not_lt_trans m.1 t.1 best.1 lower.0 (order.asym _ _ p), lower), inr among))
    | inr p ↦
        (let (lower, among) = min_from-lower best ts m (rw (p) at e) in
          (
            (lower.0, (not_lt_trans m.1 best.1 t.1 lower.0 p, lower.1)),
            skip_second best t ts among,
          ))
  ]

  -- Of two toolchains with one binary, neither has the later version.
  abbrev pub Agree : Toolchain → List Toolchain → Type 0
  Agree best [] = Unit
  Agree best (t ∷ ts) =
      ((t.0.binary == best.0.binary) ≡ true → order.lt best.1 t.1 ≡ false) × Agree best ts

  abbrev pub AllAgree : List Toolchain → Type 0
  AllAgree [] = Unit
  AllAgree (t ∷ ts) = Agree t ts × AllAgree ts

  not_above :
      (best t : Toolchain)
      → ((t.0.binary == best.0.binary) ≡ true → order.lt best.1 t.1 ≡ false)
      → go_gt lib t best ≡ false
      → order.lt best.1 t.1 ≡ false
  not_above best t same h = elim (Bool-cases (t.0.binary == best.0.binary)) [
    | inl p ↦ same p
    | inr p ↦ order.asym _ _ (ground (arith, h, p))
  ]

  not_below : (best t : Toolchain) → go_gt lib t best ≡ true → order.lt t.1 best.1 ≡ false
  not_below best t h = ground (arith, h)

  pub max_from-upper :
      (best : Toolchain) (ts : List Toolchain) (m : Toolchain)
      → AllAgree (best ∷ ts)
      → max_from lib best ts ≡ m
      → NoneAbove m.1 (best ∷ ts) × Among m (best ∷ ts)
  unfolding max_from
  max_from-upper best [] m a e = (
    (subst (λ (x : Toolchain). order.lt x.1 best.1 ≡ false) e (not_lt_refl best.1), tt),
    inl (sym e),
  )
  max_from-upper best (t ∷ ts) m a e = elim (Bool-cases (go_gt lib t best)) [
    | inl p ↦
        (let (upper, among) = max_from-upper t ts m a.1 (rw (p) at e) in
          ((not_lt_trans best.1 t.1 m.1 (not_below best t p) upper.0, upper), inr among))
    | inr p ↦
        (let (upper, among) = max_from-upper best ts m (a.0.1, a.1.1) (rw (p) at e) in
          (
            (upper.0, (not_lt_trans t.1 best.1 m.1 (not_above best t a.0.0 p) upper.0, upper.1)),
            skip_second best t ts among,
          ))
  ]
