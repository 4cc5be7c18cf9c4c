-- ===== src/Pip/Offered.antt =====
-- hermeto/core/package_managers/pip/package_distributions.py: where the distributions that are
-- downloaded come from.
use cachi.Base.{
  String, Bool, true, false, Option, none, some, List, [], ◌∷◌, ◌++◌, string_eq, option_eq,
  if◌then◌else◌, contains, ◌≡◌, refl, sym, ap, subst, ◌∙◌, ◌⊎◌, inl, inr, Bool-cases, Option-cases,
}
use cachi.Base.Members.{Among, Among-append}
use cachi.Errors.{ok, >>=-eq-ok, ok_injective}
use cachi.Pip.Wheels.{WheelsFilter, accepts}
use cachi.Pip.Picked.{of_type-Among}
use cachi.Pip.Distributions.{
  Surroundings, IndexPackage, Distros, of_type, has_version, with_version, filter_wheels,
  select_distros,
}

module _ (lib : Surroundings) where
  -- A package is an sdist, or a wheel that the filters accept.
  abbrev pub IsAllowed : Option WheelsFilter → IndexPackage → Type 0
  IsAllowed f p =
      (p.package_type ≡ some "sdist")
      ⊎ ((p.package_type ≡ some "wheel")
          × ((g : WheelsFilter) × (f ≡ some g) × (accepts lib.packaging g p.filename ≡ ok true)))

  filter_wheels-Among :
      (f : WheelsFilter) (wheels : List IndexPackage) (p : IndexPackage) {kept : List IndexPackage}
      → filter_wheels lib f wheels ≡ ok kept
      → Among p kept
      → Among p wheels × (accepts lib.packaging f p.filename ≡ ok true)
  unfolding filter_wheels
  filter_wheels-Among f [] p e h = absurd (subst (Among p) (sym (ok_injective e)) h)
  filter_wheels-Among f (w ∷ wheels) p e h =
      let (accepted, a, g) = >>=-eq-ok (accepts lib.packaging f w.filename) _ e in
      let (kept, k, l) = >>=-eq-ok (filter_wheels lib f wheels) _ g in
      by_test accepted kept a (filter_wheels-Among f wheels p k)
        (subst (Among p) (sym (ok_injective l)) h)
    where
      by_test :
          (accepted : Bool) (kept : List IndexPackage)
          → accepts lib.packaging f w.filename ≡ ok accepted
          → (Among p kept → Among p wheels × (accepts lib.packaging f p.filename ≡ ok true))
          → Among p (if accepted then w ∷ kept else kept)
          → Among p (w ∷ wheels) × (accepts lib.packaging f p.filename ≡ ok true)
      by_test true kept a rest (inl e) =
          (inl e, ap (λ (x : IndexPackage). accepts lib.packaging f x.filename) e ∙ a)
      by_test true kept a rest (inr h) = (let (among, b) = rest h in (inr among, b))
      by_test false kept a rest h = (let (among, b) = rest h in (inr among, b))

  pub with_version-Among :
      (version : String) (l : List IndexPackage) (p : IndexPackage)
      → Among p (with_version lib version l)
      → Among p l × (has_version lib version p.version ≡ true)
  unfolding with_version
  with_version-Among version [] p h = absurd h
  with_version-Among version (q ∷ l) p h = elim (Bool-cases (has_version lib version q.version)) [
    | inr f ↦ (let (among, e) = with_version-Among version l p (rw (f) at h) in (inr among, e))
    | inl t ↦ elim (let k : Among p (q ∷ with_version lib version l) = rw (t) at h in k) [
      | inl e ↦ (inl e, ap (λ (x : IndexPackage). has_version lib version x.version) e ∙ t)
      | inr k ↦ (let (among, e) = with_version-Among version l p k in (inr among, e))
    ]
  ]

  sdists-IsAllowed :
      (f : Option WheelsFilter) (packages : List IndexPackage) (p : IndexPackage)
      → Among p (of_type "sdist" packages)
      → Among p packages × IsAllowed f p
  sdists-IsAllowed f packages p h =
      let (among, e) = of_type-Among "sdist" packages p h in (among, inl e)

  wheels-IsAllowed :
      (f : WheelsFilter) (packages : List IndexPackage) (p : IndexPackage)
      (wheels : List IndexPackage)
      → filter_wheels lib f (of_type "wheel" packages) ≡ ok wheels
      → Among p wheels
      → Among p packages × IsAllowed (some f) p
  wheels-IsAllowed f packages p wheels k h =
      let (a, accepted) = filter_wheels-Among f (of_type "wheel" packages) p k h in
      let (among, e) = of_type-Among "wheel" packages p a in (among, inr (e, (f, refl, accepted)))

  pub select_distros-IsAllowed :
      (f : Option WheelsFilter) (name : String) (packages : List IndexPackage) (p : IndexPackage)
      {r : Distros × List IndexPackage}
      → select_distros lib f name packages ≡ ok r
      → Among p r.1
      → Among p packages × IsAllowed f p
  unfolding select_distros
  select_distros-IsAllowed none name packages p e h =
      sdists-IsAllowed none packages p (subst (λ x. Among p x.1) (sym (ok_injective e)) h)
  select_distros-IsAllowed (some f) name packages p {r} e h = elim (Option-cases f.packages) [
    | inl n ↦
        (let (wheels, k, g) =
            >>=-eq-ok (filter_wheels lib f (of_type "wheel" packages)) _
              (rw (n, select_distros) at e) in
          let among : Among p (of_type "sdist" packages ++ wheels) =
            subst (λ (x : Distros × List IndexPackage). Among p x.1) (sym (ok_injective g)) h in
          elim (Among-append p (of_type "sdist" packages) wheels among) [
            | inl a ↦ sdists-IsAllowed (some f) packages p a
            | inr b ↦ wheels-IsAllowed f packages p wheels k b
          ])
    | inr (names, n) ↦ elim (Bool-cases (contains names name)) [
      | inl t ↦
          (let (wheels, k, g) =
              >>=-eq-ok (filter_wheels lib f (of_type "wheel" packages)) _
                (rw (n, select_distros, t) at e) in
            wheels-IsAllowed f packages p wheels k
              (subst (λ (x : Distros × List IndexPackage). Among p x.1) (sym (ok_injective g)) h))
      | inr t ↦ sdists-IsAllowed (some f) packages p (
          subst (λ (x : Distros × List IndexPackage). Among p x.1)
            (sym (ok_injective (rw (n, select_distros, t) at e))) h)
    ]
  ]
