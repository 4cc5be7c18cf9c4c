-- ===== src/Gomod/Chosen.antt =====
-- hermeto/core/package_managers/gomod.py: which toolchain `_select_toolchain` picks.
use cachi.Base.{
  String, true, false, List, [], ◌∷◌, ◌==◌, ==→≡, string_eq, ◌≡◌, refl, sym, ap, ◌∙◌, subst, inl,
  inr, Bool-cases, if◌then◌else◌,
}
use cachi.Errors.{ok}
use cachi.Base.Members.{Among}
use cachi.Gomod.Bounds.{Toolchain, not_lt_refl, AllOf, Agree, AllAgree}
use cachi.Gomod.Toolchain.{Versions, Go, matching}

module _ (lib : Versions) (version_of : String → lib.Version) where
  open lib use {Version, order, text}

  -- The version of each toolchain can be read, and goes by its binary.
  abbrev pub AllReadable : List (Go lib) → Type 0
  AllReadable [] = Unit
  AllReadable (t ∷ ts) = (t.version ≡ ok (version_of t.binary)) × AllReadable ts

  abbrev pub version_at : Go lib → Version
  version_at t = version_of t.binary

  pub kept_of : Version → List (Go lib) → List (Toolchain lib)
  kept_of b [] = []
  kept_of b (t ∷ ts) =
      if order.lt (version_at t) b then kept_of b ts else (t, version_at t) ∷ kept_of b ts

  pub matching-kept_of :
      (b : Version) (ts : List (Go lib))
      → AllReadable ts
      → matching lib (ok b) ts ≡ ok (kept_of b ts)
  unfolding matching kept_of
  matching-kept_of b [] h = refl
  matching-kept_of b (t ∷ ts) h = rw (h.0, matching-kept_of b ts h.1) refl

  pub of_kept :
      (b : Version) (ts : List (Go lib)) (m : Toolchain lib)
      → Among m (kept_of b ts)
      → Among m.0 ts × (m.1 ≡ version_at m.0) × (order.lt (version_at m.0) b ≡ false)
  unfolding kept_of
  of_kept b [] m h = absurd h
  of_kept b (t ∷ ts) m h = elim (Bool-cases (order.lt (version_at t) b)) [
    | inl p ↦ (let (among, e, l) = of_kept b ts m (rw (p) at h) in (inr among, e, l))
    | inr p ↦ of_first b t ts m p (of_kept b ts m) (rw (p) at h)
  ]
    where
      of_first :
          (b : Version) (t : Go lib) (ts : List (Go lib)) (m : Toolchain lib)
          → order.lt (version_at t) b ≡ false
          → (Among m (kept_of b ts)
              → Among m.0 ts × (m.1 ≡ version_at m.0) × (order.lt (version_at m.0) b ≡ false))
          → Among m ((t, version_at t) ∷ kept_of b ts)
          → Among m.0 (t ∷ ts) × (m.1 ≡ version_at m.0) × (order.lt (version_at m.0) b ≡ false)
      of_first b t ts m p rest (inl e) = (
        inl (ap (λ (x : Toolchain lib). x.0) e),
        ap (λ (x : Toolchain lib). x.1) e ∙ ap (λ (x : Toolchain lib). version_at x.0) (sym e),
        ap (λ (x : Toolchain lib). order.lt (version_at x.0) b) e ∙ p,
      )
      of_first b t ts m p rest (inr h) = (let (among, e, l) = rest h in (inr among, e, l))

  -- What holds for the versions that are kept.
  pub kept_all :
      (P : Version → Type 0) (b : Version) (ts : List (Go lib)) (t : Go lib)
      → AllOf lib P (kept_of b ts)
      → Among t ts
      → order.lt (version_at t) b ≡ false
      → P (version_at t)
  unfolding kept_of
  kept_all P b [] t n h l = absurd h
  kept_all P b (x ∷ ts) t n (inl e) l =
      subst (λ (y : Go lib). P (version_at y)) (sym e)
        (let f : order.lt (version_at x) b ≡ false =
            subst (λ (y : Go lib). order.lt (version_at y) b ≡ false) e l in
          let n2 : AllOf lib P ((x, version_at x) ∷ kept_of b ts) = rw (f) at n in n2.0)
  kept_all P b (x ∷ ts) t n (inr h) l = elim (Bool-cases (order.lt (version_at x) b)) [
    | inl p ↦ kept_all P b ts t (rw (p) at n) h l
    | inr p ↦
        (let n2 : AllOf lib P ((x, version_at x) ∷ kept_of b ts) = rw (p) at n in
          kept_all P b ts t n2.1 h l)
  ]

  pub kept_none :
      (b : Version) (ts : List (Go lib)) (t : Go lib)
      → kept_of b ts ≡ []
      → Among t ts
      → order.lt (version_at t) b ≡ true
  kept_none b ts t e h = elim (Bool-cases (order.lt (version_at t) b)) [
    | inl p ↦ p
    | inr p ↦ absurd (kept_all (λ v. ⊥) b ts t (subst (λ l. AllOf lib (λ v. ⊥) l) (sym e) tt) h p)
  ]

  kept-Agree :
      (b : Version) (x : Go lib) (ts : List (Go lib)) → Agree lib (x, version_at x) (kept_of b ts)
  unfolding kept_of
  kept-Agree b x [] = tt
  kept-Agree b x (t ∷ ts) = elim (Bool-cases (order.lt (version_at t) b)) [
    | inl p ↦ rw (p) (kept-Agree b x ts)
    | inr p ↦ rw (p) (
      λ (same : (t.binary == x.binary) ≡ true).
          rw (==→≡ t.binary x.binary same) (not_lt_refl lib (version_at x)),
      kept-Agree b x ts,
    )
  ]

  pub kept-AllAgree : (b : Version) (ts : List (Go lib)) → AllAgree lib (kept_of b ts)
  unfolding kept_of
  kept-AllAgree b [] = tt
  kept-AllAgree b (t ∷ ts) = elim (Bool-cases (order.lt (version_at t) b)) [
    | inl p ↦ rw (p) (kept-AllAgree b ts)
    | inr p ↦ rw (p) (kept-Agree b t ts, kept-AllAgree b ts)
  ]
