-- ===== src/Npm/Cleared.antt =====
-- hermeto/core/package_managers/npm.py: the dependencies that `_update_package_lock_with_local_paths`
-- clears.
use cachi.Base.{
  not_some, String, true, false, some, List, [], ◌∷◌, ◌≡◌, refl, sym, ap, ◌∙◌, ◌==◌, ==_refl, ◌⊎◌,
  string_eq, Bool-cases, Option-cases, inl, inr, subst, arith, if◌then◌else◌, contains,
}
use cachi.Base.Dict.{set_item, get_item, get_item-set_item}
use cachi.Base.Text.{has_char}
use cachi.Errors.{not_returned, ok, Result-cases, >>=-eq-ok, ok_injective}
use cachi.Npm.Urls.{Url, should_replace_dependency}
use cachi.Npm.Purls.{Surroundings}
use cachi.Npm.Update.{Section, Sections, clear_section, clear_sections}

module _ (lib : Surroundings) where
  -- None of the versions is to be replaced.
  abbrev pub IsCleared : Section → Type 0
  IsCleared [] = Unit
  IsCleared ((dependency, version) ∷ items) =
      (should_replace_dependency lib.urlparse version ≡ ok false) × IsCleared items

  -- The empty text has no scheme.
  abbrev pub EmptyHasNoScheme : Type 0
  EmptyHasNoScheme = (url : Url) × (lib.urlparse "" ≡ ok url) × (url.scheme ≡ "")

  empty_stays : EmptyHasNoScheme → should_replace_dependency lib.urlparse "" ≡ ok false
  unfolding should_replace_dependency has_char string_eq
  empty_stays (url, e, n) = rw (e) (rw (n) refl)

  clear_section-IsCleared :
      EmptyHasNoScheme
      → (section : Section) {cleared : Section} → clear_section lib section ≡ ok cleared
      → IsCleared cleared
  unfolding clear_section
  clear_section-IsCleared quiet [] h = subst IsCleared (ok_injective h) tt
  clear_section-IsCleared quiet ((d, v) ∷ items) h =
      let (replaced, e, g) = >>=-eq-ok (should_replace_dependency lib.urlparse v) _ h in
      let (cleared, e2, g2) = >>=-eq-ok (clear_section lib items) _ g in
      let rest = clear_section-IsCleared quiet items e2 in
      subst IsCleared (ok_injective g2) (elim (Bool-cases replaced) [
        | inl t ↦
            subst (λ b. IsCleared ((d, if b then "" else v) ∷ cleared)) (sym t)
              (empty_stays quiet, rest)
        | inr f ↦
            subst (λ b. IsCleared ((d, if b then "" else v) ∷ cleared)) (sym f) (e ∙ ap ok f, rest)
      ])

  -- The section of a type, if there is one, is cleared.
  abbrev pub HasCleared : String → Sections → Type 0
  HasCleared t sections =
      (section : Section) → get_item t sections ≡ some section → IsCleared section

  set_HasCleared :
      (t k : String) (section : Section) (sections : Sections)
      → IsCleared section
      → ((t == k) ≡ false → HasCleared t sections)
      → HasCleared t (set_item k section sections)
  set_HasCleared t k section sections c h other e = elim (Bool-cases (t == k)) [
    | inl same ↦
        (let equal : section ≡ other = grind (arith, get_item-set_item t k section sections) in
          subst IsCleared equal c)
    | inr differs ↦
        (let old : get_item t sections ≡ some other =
            grind (arith, get_item-set_item t k section sections) in
          h differs other old)
  ]

  -- A round of the loop over the types clears one section, and keeps what is cleared.
  Step : String → List String → Sections → Sections → Type 0
  Step k dep_types sections last =
      (next : Sections) × (clear_sections lib dep_types next ≡ ok last)
      × ((t : String) → HasCleared t sections → HasCleared t next)
      × HasCleared k next

  clear_round :
      EmptyHasNoScheme
      → (k : String) (dep_types : List String) (sections : Sections) {last : Sections}
      → clear_sections lib (k ∷ dep_types) sections ≡ ok last
      → Step k dep_types sections last
  unfolding Step clear_sections
  clear_round quiet k dep_types sections h = elim (Option-cases (get_item k sections)) [
    | inl n ↦ (
      sections,
      rw (n, clear_sections) at h,
      λ t c. c,
      λ section e. absurd (not_some (sym n ∙ e)),
    )
    | inr (section, e) ↦ elim (Result-cases (clear_section lib section)) [
      | inl (x, j) ↦ absurd (not_returned (rw (j) at (rw (e, clear_sections) at h)))
      | inr (cleared, j) ↦
          (let is_cleared = clear_section-IsCleared quiet section j in
            (
              set_item k cleared sections,
              rw (j) at (rw (e, clear_sections) at h),
              λ t c. set_HasCleared t k cleared sections is_cleared (λ _. c),
              set_HasCleared k k cleared sections is_cleared
                  (λ differs. absurd (ground (arith, differs, ==_refl {A = String} k))),
            ))
    ]
  ]

  pub clear_sections-HasCleared :
      EmptyHasNoScheme
      → (dep_types : List String) (sections : Sections) {last : Sections} (t : String)
      → clear_sections lib dep_types sections ≡ ok last
      → (contains dep_types t ≡ true) ⊎ HasCleared t sections
      → HasCleared t last
  unfolding clear_sections Step
  clear_sections-HasCleared quiet [] sections t h (inl k) = cc
  clear_sections-HasCleared quiet [] sections t h (inr c) = subst (HasCleared t) (ok_injective h) c
  clear_sections-HasCleared quiet (k ∷ dep_types) sections t h (inl inside) =
      let (next, g, keeps, new) = clear_round quiet k dep_types sections h in
      clear_sections-HasCleared quiet dep_types next t g (elim (Bool-cases (k == t)) [
        | inl same ↦ inr (subst (λ v. HasCleared v next) (grind arith) new)
        | inr differs ↦ inl (ground (arith, inside, differs))
      ])
  clear_sections-HasCleared quiet (k ∷ dep_types) sections t h (inr c) =
      let (next, g, keeps, new) = clear_round quiet k dep_types sections h in
      clear_sections-HasCleared quiet dep_types next t g (inr (keeps t c))
