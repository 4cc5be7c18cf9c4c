-- ===== src/YarnClassic/Reached/Roots.antt =====
-- hermeto/core/package_managers/yarn_classic/utils.py: which packages the search starts from, as the
-- docstring of `find_runtime_deps` has it.
use mathlib.Core.List.{Memᴰ}
use mathlib.Core.List.Memᴰ.{append_left, append_right, append_cases, cases_cons, not-nil}
use cachi.Base.{
  String, true, false, none, some, List, [], ◌∷◌, ◌++◌, ◌≡◌, refl, sym, ap, ◌∙◌, ◌⊎◌, ◌↔◌,
  string_eq, Bool-cases, Option-cases, inl, inr, subst, some_injective, not_some, not_both,
}
use cachi.Base.Dict.{get_item}
use cachi.Errors.{ok, >>=-eq-ok, ok_injective}
use cachi.YarnClassic.Search.{
  YarnPackage, Pyarn, PackageJson, at, section_deps, json_deps, root_deps,
}

-- The sections of a package.json with the dependencies that are for run time.
pub data IsRuntimeSection : String → Type 0 where
  of_dependencies : IsRuntimeSection "dependencies"
  of_peer_dependencies : IsRuntimeSection "peerDependencies"
  of_optional_dependencies : IsRuntimeSection "optionalDependencies"

appended :
    {P Q : Type 0} (root : YarnPackage) (ps qs : List YarnPackage)
    → Memᴰ root ps ↔ P
    → Memᴰ root qs ↔ Q
    → Memᴰ root (ps ++ qs) ↔ (P ⊎ Q)
appended root ps qs p q = (
  (λ m. elim (append_cases ps m) [ inl a ↦ inl (p.0 a) | inr b ↦ inr (q.0 b) ]),
  (λ h. elim h [ inl a ↦ append_left qs (p.1 a) | inr b ↦ append_right ps (q.1 b) ]),
)

module _ {Data : Type 0} (lib : Pyarn Data) (lock : List (String × Data)) where
  -- The package is that of the lockfile's entry of a dependency, whose data are not empty.
  pub record IsLocked (dependency : String × String) (root : YarnPackage) : Type 0 where
    pub entry : Data
    pub found : get_item (at dependency.0 dependency.1) lock ≡ some entry
    pub filled : lib.is_empty entry ≡ false
    pub read : lib.from_dict (at dependency.0 dependency.1) (some entry) ≡ ok root

  -- It is so for a dependency of the section.
  pub record IsListed (items : List (String × String)) (root : YarnPackage) : Type 0 where
    pub dependency : String × String
    pub listed : Memᴰ dependency items
    pub locked : IsLocked dependency root

  abbrev pub Lists : String → PackageJson → YarnPackage → Type 0
  Lists section package_json root =
      (items : List (String × String)) × (get_item section package_json ≡ some items)
      × IsListed items root

  -- A package that a section for run time of one of the package.json files lists.
  pub record IsRoot (jsons : List PackageJson) (root : YarnPackage) : Type 0 where
    pub package_json : PackageJson
    pub one_of : Memᴰ package_json jsons
    pub section : String
    pub for_runtime : IsRuntimeSection section
    pub lists : Lists section package_json root

  IsListed-tail :
      (d : String × String) (items : List (String × String)) (root : YarnPackage)
      → IsListed items root
      → IsListed (d ∷ items) root
  IsListed-tail d items root l = record {
    dependency = l.dependency;
    listed = Memᴰ.tail l.listed;
    locked = l.locked;
  }

  IsListed-cons :
      (d : String × String) (items : List (String × String)) (root : YarnPackage)
      → IsListed (d ∷ items) root
      → IsLocked d root ⊎ IsListed items root
  IsListed-cons d items root l = elim (cases_cons l.listed) [
    | inl e ↦ inl (subst (λ x. IsLocked x root) e l.locked)
    | inr m ↦ inr (record { dependency = l.dependency; listed = m; locked = l.locked })
  ]

  skipped :
      (d : String × String) (items : List (String × String)) (root : YarnPackage)
      {ps : List YarnPackage}
      → ¬ (IsLocked d root)
      → Memᴰ root ps ↔ IsListed items root
      → Memᴰ root ps ↔ IsListed (d ∷ items) root
  skipped d items root not_locked rest = (
    (λ m. IsListed-tail d items root (rest.0 m)),
    (λ l. elim (IsListed-cons d items root l) [ inl k ↦ absurd (not_locked k) | inr k ↦ rest.1 k ]),
  )

  section_deps-IsListed :
      (items : List (String × String)) {ps : List YarnPackage}
      → section_deps lib lock items ≡ ok ps
      → (root : YarnPackage) → Memᴰ root ps ↔ IsListed items root
  unfolding section_deps
  section_deps-IsListed [] h root = (
    (λ m. absurd (not-nil (subst (Memᴰ root) (sym (ok_injective h)) m))),
    (λ l. absurd (not-nil l.listed)),
  )
  section_deps-IsListed ((name, specifier) ∷ items) h root =
      let d : String × String = (name, specifier) in
      elim (Option-cases (get_item (at name specifier) lock)) [
        | inl n ↦
            skipped d items root (λ k. not_some (sym n ∙ k.found))
              (section_deps-IsListed items (rw (n, section_deps) at h) root)
        | inr (entry, e) ↦ elim (Bool-cases (lib.is_empty entry)) [
          | inl t ↦
              skipped d items root
                (λ k. not_both (
                  sym (subst (λ x. lib.is_empty x ≡ true) (some_injective (sym e ∙ k.found)) t)
                  ∙ k.filled))
                (section_deps-IsListed items (rw (t) at (rw (e, section_deps) at h)) root)
          | inr f ↦
              (let (p, r, h1) =
                  >>=-eq-ok (lib.from_dict (at name specifier) (some entry)) _
                    (rw (f) at (rw (e, section_deps) at h)) in
                let (ps, k, h2) = >>=-eq-ok (section_deps lib lock items) _ h1 in
                let rest = section_deps-IsListed items k root in
                subst (λ l. Memᴰ root l ↔ IsListed (d ∷ items) root) (ok_injective h2)
                  (
                    (λ m. elim (cases_cons m) [
                      | inl same ↦ record {
                        dependency = d;
                        listed = Memᴰ.head refl;
                        locked = record {
                          entry = entry;
                          found = e;
                          filled = f;
                          read = r ∙ ap ok (sym same);
                        };
                      }
                      | inr later ↦ IsListed-tail d items root (rest.0 later)
                    ]),
                    (λ l. elim (IsListed-cons d items root l) [
                      | inl locked ↦ Memᴰ.head (
                          ok_injective (
                            sym locked.read
                            ∙ ap (lib.from_dict (at name specifier)) (sym locked.found ∙ e)
                            ∙ r))
                      | inr later ↦ Memᴰ.tail (rest.1 later)
                    ]),
                  ))
        ]
      ]

  section-Lists :
      (section : String) (package_json : PackageJson) {ps : List YarnPackage}
      → section_deps lib lock
          (elim (get_item section package_json) [ none ↦ [] | some items ↦ items ])
        ≡ ok ps
      → (root : YarnPackage) → Memᴰ root ps ↔ Lists section package_json root
  section-Lists section package_json h root = elim (Option-cases (get_item section package_json)) [
    | inl n ↦
        (let listed = section_deps-IsListed [] (rw (n) at h) root in
          (
            (λ m. absurd (not-nil (listed.0 m).listed)),
            (λ (items, there, _). absurd (not_some (sym n ∙ there))),
          ))
    | inr (own, e) ↦
        (let listed = section_deps-IsListed own (rw (e) at h) root in
          (
            (λ m. (own, e, listed.0 m)),
            (λ (items, there, is_listed).
                listed.1 (subst (λ l. IsListed l root) (some_injective (sym there ∙ e)) is_listed)),
          ))
  ]

  -- Some of the sections lists the package.
  abbrev AnyLists : List String → PackageJson → YarnPackage → Type 0
  AnyLists [] package_json root = ⊥
  AnyLists (section ∷ sections) package_json root =
      Lists section package_json root ⊎ AnyLists sections package_json root

  json_deps-AnyLists :
      (sections : List String) (package_json : PackageJson) {ps : List YarnPackage}
      → json_deps lib lock sections package_json ≡ ok ps
      → (root : YarnPackage) → Memᴰ root ps ↔ AnyLists sections package_json root
  unfolding json_deps
  json_deps-AnyLists [] package_json h root =
      ((λ m. not-nil (subst (Memᴰ root) (sym (ok_injective h)) m)), (λ l. absurd l))
  json_deps-AnyLists (section ∷ sections) package_json h root =
      let (ps, e, h1) =
        >>=-eq-ok
          (section_deps lib lock
            (elim (get_item section package_json) [ none ↦ [] | some items ↦ items ]))
          _ h in
      let (qs, k, h2) = >>=-eq-ok (json_deps lib lock sections package_json) _ h1 in
      subst (λ l. Memᴰ root l ↔ AnyLists (section ∷ sections) package_json root) (ok_injective h2)
        (appended root ps qs (section-Lists section package_json e root)
          (json_deps-AnyLists sections package_json k root))

  -- The sections of one of the files.
  json-IsRoot :
      (package_json : PackageJson) (jsons : List PackageJson) (root : YarnPackage)
      → Memᴰ package_json jsons
      → AnyLists
          ("dependencies" ∷ "peerDependencies" ∷ "optionalDependencies" ∷ [])
          package_json
          root
      → IsRoot jsons root
  json-IsRoot package_json jsons root m (inl l) = record {
    package_json = package_json;
    one_of = m;
    section = "dependencies";
    for_runtime = of_dependencies;
    lists = l;
  }
  json-IsRoot package_json jsons root m (inr (inl l)) = record {
    package_json = package_json;
    one_of = m;
    section = "peerDependencies";
    for_runtime = of_peer_dependencies;
    lists = l;
  }
  json-IsRoot package_json jsons root m (inr (inr (inl l))) = record {
    package_json = package_json;
    one_of = m;
    section = "optionalDependencies";
    for_runtime = of_optional_dependencies;
    lists = l;
  }
  json-IsRoot package_json jsons root m (inr (inr (inr l))) = absurd l

  AnyLists-runtime :
      (section : String) (package_json : PackageJson) (root : YarnPackage)
      → IsRuntimeSection section
      → Lists section package_json root
      → AnyLists
          ("dependencies" ∷ "peerDependencies" ∷ "optionalDependencies" ∷ [])
          package_json
          root
  AnyLists-runtime section package_json root of_dependencies l = inl l
  AnyLists-runtime section package_json root of_peer_dependencies l = inr (inl l)
  AnyLists-runtime section package_json root of_optional_dependencies l = inr (inr (inl l))

  IsRoot-tail :
      (j : PackageJson) (jsons : List PackageJson) (root : YarnPackage)
      → IsRoot jsons root
      → IsRoot (j ∷ jsons) root
  IsRoot-tail j jsons root r = record {
    package_json = r.package_json;
    one_of = Memᴰ.tail r.one_of;
    section = r.section;
    for_runtime = r.for_runtime;
    lists = r.lists;
  }

  -- The roots of the search are the packages that sections for run time list.
  pub root_deps-IsRoot :
      (jsons : List PackageJson) {roots : List YarnPackage}
      → root_deps lib lock jsons ≡ ok roots
      → (root : YarnPackage) → Memᴰ root roots ↔ IsRoot jsons root
  unfolding root_deps
  root_deps-IsRoot [] h root = (
    (λ m. absurd (not-nil (subst (Memᴰ root) (sym (ok_injective h)) m))),
    (λ r. absurd (not-nil r.one_of)),
  )
  root_deps-IsRoot (j ∷ jsons) h root =
      let sections : List String =
        "dependencies" ∷ "peerDependencies" ∷ "optionalDependencies" ∷ [] in
      let (ps, e, h1) = >>=-eq-ok (json_deps lib lock sections j) _ h in
      let (qs, k, h2) = >>=-eq-ok (root_deps lib lock jsons) _ h1 in
      let both =
        appended root ps qs (json_deps-AnyLists sections j e root)
          (root_deps-IsRoot jsons k root) in
      subst (λ l. Memᴰ root l ↔ IsRoot (j ∷ jsons) root) (ok_injective h2)
        (
          (λ m. elim (both.0 m) [
            | inl l ↦ json-IsRoot j (j ∷ jsons) root (Memᴰ.head refl) l
            | inr r ↦ IsRoot-tail j jsons root r
          ]),
          (λ r. both.1 (elim (cases_cons r.one_of) [
            | inl same ↦ inl (
                AnyLists-runtime r.section j root r.for_runtime
                  (subst (λ (p : PackageJson). Lists r.section p root) same r.lists))
            | inr m ↦ inr (record {
              package_json = r.package_json;
              one_of = m;
              section = r.section;
              for_runtime = r.for_runtime;
              lists = r.lists;
            })
          ])),
        )
