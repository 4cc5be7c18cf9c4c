-- ===== src/Gomod/Selected.antt =====
-- hermeto/core/package_managers/gomod.py: the three attempts of `_select_toolchain`.
use cachi.Base.{
  String, ◌<>◌, true, false, some, List, [], ◌∷◌, string_eq, ◌≡◌, refl, sym, ap, ◌∙◌, subst, inl,
  inr, Bool-cases, not_some, some_injective,
}
use cachi.Errors.{err, Result, ok, ok_injective, not_returned, Result-cases}
use cachi.Gomod.Directives.{get_gomod_version}
use cachi.Base.Members.{Among}
use cachi.Gomod.Bounds.{Toolchain, AllOf, NoneBelow, NoneAbove, min_from-lower, max_from-upper}
use cachi.Gomod.Chosen.{
  AllReadable, version_at, kept_of, matching-kept_of, of_kept, kept_all, kept_none, kept-AllAgree,
}
use cachi.Gomod.Toolchain.{
  Versions, go_version, to_language_version, Go, min_from, max_from, min, max, target_version,
  except_value_error, from_any_toolchain, readable, pick, select_toolchain,
}

module _ (lib : Versions) (version_of : String → lib.Version)
    (install : String → String → Result (Go lib)) where
  open lib use {Version, order, text}

  -- The toolchain among those installed that is not below the target, such that none between the
  -- two is installed.
  pub record IsClosest (target : Version) (installed : List (Go lib)) (go : Go lib) : Type 0 where
    pub among : Among go installed
    pub enough : order.lt (version_at lib version_of go) target ≡ false
    pub closest :
        (t : Go lib)
        → Among t installed
        → order.lt (version_at lib version_of t) target ≡ false
        → order.lt (version_at lib version_of t) (version_at lib version_of go) ≡ false

  -- The latest toolchain among those installed that are not below the bound.
  pub record IsLatest (bound : Version) (installed : List (Go lib)) (go : Go lib) : Type 0 where
    pub among : Among go installed
    pub enough : order.lt (version_at lib version_of go) bound ≡ false
    pub latest :
        (t : Go lib)
        → Among t installed
        → order.lt (version_at lib version_of t) bound ≡ false
        → order.lt (version_at lib version_of go) (version_at lib version_of t) ≡ false

  abbrev pub AllBelow : Version → List (Go lib) → Type 0
  AllBelow bound installed =
      (t : Go lib) → Among t installed → order.lt (version_at lib version_of t) bound ≡ true

  -- The toolchain that is picked: the closest one to the target, or the latest one that can switch
  -- to another, where none reaches the target, or one that the first one installs.
  pub data Chosen (target least : Version) (installed : List (Go lib)) (go : Go lib) : Type 0 where
    at_target : IsClosest target installed go → Chosen target least installed go
    switching :
        AllBelow target installed → IsLatest least installed go → Chosen target least installed go
    fresh :
        AllBelow target installed
        → AllBelow least installed
        → (t : Go lib) (others : List (Go lib)) → installed ≡ t ∷ others
        → install ("go" <> text target) t.binary ≡ ok go
        → Chosen target least installed go

  module _ (target least : Version) (installed : List (Go lib)) where
    IsClosest-min :
        (k : Toolchain lib) (ks : List (Toolchain lib))
        → kept_of lib version_of target installed ≡ k ∷ ks
        → IsClosest target installed (min_from lib k ks).0
    IsClosest-min k ks e =
        let m : Toolchain lib = min_from lib k ks in
        let (lower, among) = min_from-lower lib k ks m refl in
        let (inside, v, l) =
          of_kept lib version_of target installed m (subst (λ x. Among m x) (sym e) among) in
        record {
          among = inside;
          enough = l;
          closest = λ t h f.
              subst (λ x. order.lt (version_at lib version_of t) x ≡ false) v
                (kept_all lib version_of (λ w. order.lt w m.1 ≡ false) target installed t
                  (subst (λ x. NoneBelow lib m.1 x) (sym e) lower) h f);
        }

    IsLatest-max :
        (k : Toolchain lib) (ks : List (Toolchain lib))
        → kept_of lib version_of least installed ≡ k ∷ ks
        → IsLatest least installed (max_from lib k ks).0
    IsLatest-max k ks e =
        let m : Toolchain lib = max_from lib k ks in
        let (upper, among) =
          max_from-upper lib k ks m
            (subst (λ x. cachi.Gomod.Bounds.AllAgree lib x) e
              (kept-AllAgree lib version_of least installed))
            refl in
        let (inside, v, l) =
          of_kept lib version_of least installed m (subst (λ x. Among m x) (sym e) among) in
        record {
          among = inside;
          enough = l;
          latest = λ t h f.
              subst (λ x. order.lt x (version_at lib version_of t) ≡ false) v
                (kept_all lib version_of (λ w. order.lt m.1 w ≡ false) least installed t
                  (subst (λ x. NoneAbove lib m.1 x) (sym e) upper) h f);
        }

    of_readable :
        (g : Go lib) (v : Result Version) {go : Go lib} → readable lib g v ≡ some go → g ≡ go
    of_readable g (ok v) h = some_injective h
    of_readable g (err e) h = absurd (not_some h)

    fresh_from :
        {go : Go lib} (l : List (Go lib))
        → installed ≡ l
        → from_any_toolchain lib install target l ≡ some go
        → (t : Go lib) × (others : List (Go lib)) × (installed ≡ t ∷ others)
          × (install ("go" <> text target) t.binary ≡ ok go)
    unfolding from_any_toolchain
    fresh_from [] e h = absurd cc
    fresh_from (t ∷ others) e h = elim (Result-cases (install ("go" <> text target) t.binary)) [
      | inl (raised, p) ↦ absurd (not_some (rw (p, from_any_toolchain) at h))
      | inr (go2, p) ↦
          (t, others, e, p ∙ ap ok (of_readable go2 go2.version (rw (p, from_any_toolchain) at h)))
    ]

    pick_from :
        {go : Go lib} (close late : List (Toolchain lib))
        → kept_of lib version_of target installed ≡ close
        → kept_of lib version_of least installed ≡ late
        → except_value_error lib (min lib close) (
            except_value_error lib
              (max lib late)
              (ok (from_any_toolchain lib install target installed)))
          ≡ ok (some go)
        → Chosen target least installed go
    unfolding min max
    pick_from (k ∷ ks) late e f h = at_target (
        subst (λ x. IsClosest target installed x) (some_injective (ok_injective h))
          (IsClosest-min k ks e))
    pick_from [] (k ∷ ks) e f h =
        switching (λ t. kept_none lib version_of target installed t e)
          (subst (λ x. IsLatest least installed x) (some_injective (ok_injective h))
            (IsLatest-max k ks f))
    pick_from [] [] e f h =
        let (t, others, same, installs) = fresh_from installed refl (ok_injective h) in
        fresh (λ t. kept_none lib version_of target installed t e)
          (λ t. kept_none lib version_of least installed t f) t others same installs

    pick-Chosen :
        {go : Go lib}
        → AllReadable lib version_of installed
        → go_version lib "1.21" ≡ ok least
        → pick lib install target installed ≡ ok (some go)
        → Chosen target least installed go
    unfolding pick
    pick-Chosen r l h =
        pick_from (kept_of lib version_of target installed) (kept_of lib version_of least installed)
          refl refl
          (rw
            (
              matching-kept_of lib version_of target installed r,
              l,
              matching-kept_of lib version_of least installed r,
            )
            at h)

  -- Where the version of each installed toolchain can be read and goes by its binary, a toolchain
  -- that is selected is the closest one that is not below what go.mod asks for; or, where all are
  -- below it, the latest one that is not below 1.21; or, where there is none, what the first one
  -- installs. The language version that go.mod asks for is not above that of 1.25.
  pub select_toolchain-Chosen :
      (lines : List String) (installed : List (Go lib)) {go : Go lib} {target least most : Version}
      → AllReadable lib version_of installed
      → go_version lib "1.21" ≡ ok least
      → go_version lib "1.25" ≡ ok most
      → target_version lib (get_gomod_version lines).0 (get_gomod_version lines).1 ≡ ok target
      → select_toolchain lib install lines installed ≡ ok (some go)
      → Chosen target least installed go
        × (order.lt (to_language_version lib most) (to_language_version lib target) ≡ false)
  unfolding select_toolchain
  select_toolchain-Chosen lines installed {go} {target} {least} {most} r l m t h =
      elim (Bool-cases (order.lt (to_language_version lib most) (to_language_version lib target))) [
        | inl p ↦ absurd (not_returned (rw (m, t, p) at h))
        | inr p ↦ (pick-Chosen target least installed r l (rw (m, t, p) at h), p)
      ]
