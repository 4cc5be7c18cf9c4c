-- ===== src/Output/Variables.antt =====
-- hermeto/core/models/output.py: what `EnvironmentVariable.resolve_value` returns.
use cachi.Base.{
  String, true, false, ◌&&◌, ◌||◌, List, [], ◌∷◌, ◌≡◌, refl, ap, ap₂, ◌∙◌, string_eq, string_ord,
  contains, arith, Bool-cases, inl, inr,
}
use cachi.Base.Sets.{union}
use cachi.Base.Members.{contains-union}
use cachi.Errors.{Result, ok, err, >>=-eq-ok, base_error}
use cachi.Output.{
  EnvironmentVariable, Mappings, Template, names, common, nothing_in, legacy_path, resolve_rounds,
  resolve_value,
}

contains-common :
    (a b : List String) (x : String) → contains (common a b) x ≡ (contains a x && contains b x)
unfolding common
contains-common [] b x = refl
contains-common (y ∷ a) b x = ground (arith, contains-common a b x)

apart :
    (a b : List String) (x : String)
    → nothing_in (common a b) ≡ true
    → contains a x ≡ true
    → contains b x ≡ false
unfolding common
apart [] b x h k = absurd (ground arith)
apart (y ∷ a) b x h k = ground (arith, apart a b x)

module _ (template : Template) where
  ok_nil :
      {s subs : List String} {start ret : String} (x : String)
      → ◌≡◌ {A = Result (List String × String)} (ok (s, start)) (ok (subs, ret))
      → contains (template.placeholders start) x ≡ false
      → contains (template.placeholders ret) x ≡ false
  ok_nil x h n = cc

  stopped : {A : Type 0} {r : A} → ◌≡◌ {A = Result A} (err base_error) (ok r) → ⊥
  stopped h = cc

  resolve_rounds-apart :
      (rounds : Mappings) (substituted : List String) (mappings : Mappings) (start : String)
      {subs : List String} {ret : String} (x : String)
      → resolve_rounds template rounds substituted mappings start ≡ ok (subs, ret)
      → contains substituted x ≡ true
      → contains (template.placeholders start) x ≡ false
      → contains (template.placeholders ret) x ≡ false
  unfolding resolve_rounds
  resolve_rounds-apart [] substituted mappings start x h k n = ok_nil x h n
  resolve_rounds-apart (m ∷ rounds) substituted mappings start x h k n =
      let after : List String =
        union substituted (common (template.placeholders start) (names mappings)) in
      let next : String = template.safe_substitute start mappings in
      elim (Bool-cases (nothing_in (common after (template.placeholders next)))) [
        | inl q ↦
            let kept : contains after x ≡ true =
              contains-union substituted (common (template.placeholders start) (names mappings)) x
              ∙ ap (λ b. b || contains (common (template.placeholders start) (names mappings)) x)
                  k in
            resolve_rounds-apart rounds after mappings next x (rw (q, resolve_rounds) at h) kept
              (apart after (template.placeholders next) x q kept)
        | inr q ↦ absurd (stopped (rw (q, resolve_rounds) at h))
      ]

  -- The same, from the first round on, where the name is among the mappings.
  first_round :
      (m : String × String) (rounds mappings : Mappings) (start : String) {subs : List String}
      {ret : String} (x : String)
      → resolve_rounds template (m ∷ rounds) [] mappings start ≡ ok (subs, ret)
      → contains (template.placeholders start) x ≡ true
      → contains (names mappings) x ≡ true
      → contains (template.placeholders ret) x ≡ false
  unfolding resolve_rounds union
  first_round m rounds mappings start x h p k =
      let after : List String = common (template.placeholders start) (names mappings) in
      let next : String = template.safe_substitute start mappings in
      let there : contains after x ≡ true =
        contains-common (template.placeholders start) (names mappings) x ∙ ap₂ ◌&&◌ p k in
      elim (Bool-cases (nothing_in (common after (template.placeholders next)))) [
        | inl q ↦
            resolve_rounds-apart rounds after mappings next x (rw (q, resolve_rounds) at h) there
              (apart after (template.placeholders next) x q there)
        | inr q ↦ absurd (stopped (rw (q, resolve_rounds) at h))
      ]

  same_ret :
      {v w : EnvironmentVariable} {s ret : String} (x : String)
      → ◌≡◌ {A = Result (EnvironmentVariable × String)} (ok (v, s)) (ok (w, ret))
      → contains (template.placeholders s) x ≡ false
      → contains (template.placeholders ret) x ≡ false
  same_ret x h n = cc

  -- A placeholder of the variable's value that is one of the mappings is none of the value that the
  -- resolution returns: a value that still has one is an error.
  pub resolve_value-apart :
      (v : EnvironmentVariable) (mappings : Mappings) {w : EnvironmentVariable} {ret : String}
      (x : String)
      → resolve_value template v mappings ≡ ok (w, ret)
      → contains (template.placeholders (legacy_path mappings v).value) x ≡ true
      → contains (names mappings) x ≡ true
      → contains (template.placeholders ret) x ≡ false
  unfolding resolve_value
  resolve_value-apart v [] x h p k = absurd (ground arith)
  resolve_value-apart v (m ∷ mappings) x h p k =
      let ((subs, ret), e, g) =
        >>=-eq-ok
          (resolve_rounds template (m ∷ mappings) [] (m ∷ mappings)
            (legacy_path (m ∷ mappings) v).value)
          _ h in
      same_ret x g
        (first_round m mappings (m ∷ mappings) (legacy_path (m ∷ mappings) v).value x e p k)
