-- ===== src/Properties/Listed.antt =====
-- hermeto/core/models/property_semantics.py: the texts among the properties that a set lists.
use cachi.Base.{
  String, Bool, true, false, Option, none, some, List, [], ◌∷◌, ◌++◌, ◌≡◌, ◌≢◌, refl, sym,
  append-nil, inl, inr, ◌==◌, string_eq, string_ord, arith, Bool-cases,
}
use cachi.Properties.{
  PropertyEnum, npm_package_bundled, npm_package_development, found_by, missing_hash_in_file,
  pip_package_binary, pip_package_build_dependency, rpm_modularity_label, rpm_summary, Property,
  PropertySet, list_properties, flag, text, maybe_text, missing, key_ord,
}
use cachi.Properties.Collect.{is_text, Lacks, NoRepeat}

module _ (n : PropertyEnum) where
  Lacks-append : (l r : List Property) → Lacks n l → Lacks n r → Lacks n (l ++ r)
  Lacks-append [] r h k = k
  Lacks-append (p ∷ l) r h k = (h.0, Lacks-append l r h.1 k)

  Lacks-flag : (b : Bool) (m : PropertyEnum) → m ≢ n → Lacks n (flag b m)
  Lacks-flag true m h = (h, tt)
  Lacks-flag false m h = tt

  Lacks-text : (v : String) (m : PropertyEnum) → m ≢ n → Lacks n (text v m)
  Lacks-text v m h = ground arith

NoRepeat-flag :
    (b : Bool) (m : PropertyEnum) (r : List Property)
    → is_text m ≡ false
    → NoRepeat r
    → NoRepeat (flag b m ++ r)
NoRepeat-flag true m r h k = (λ t. cc, k)
NoRepeat-flag false m r h k = k

NoRepeat-text :
    (v : String) (m : PropertyEnum) (r : List Property)
    → Lacks m r
    → NoRepeat r
    → NoRepeat (text v m ++ r)
NoRepeat-text v m r h k = elim (Bool-cases (v == "")) [
  | inl e ↦ rw e k
  | inr e ↦ rw e ((λ t. h), k)
]

NoRepeat-maybe_text :
    (v : Option String) (m : PropertyEnum) (r : List Property)
    → Lacks m r
    → NoRepeat r
    → NoRepeat (maybe_text v m ++ r)
NoRepeat-maybe_text none m r h k = k
NoRepeat-maybe_text (some v) m r h k = NoRepeat-text v m r h k

NoRepeat-missing : (l : List String) (r : List Property) → NoRepeat r → NoRepeat (missing l ++ r)
unfolding is_text
NoRepeat-missing [] r h = h
NoRepeat-missing (v ∷ l) r h = ((λ t. cc), NoRepeat-missing l r h)

Lacks-missing :
    (n : PropertyEnum) (l : List String) → missing_hash_in_file ≢ n → Lacks n (missing l)
Lacks-missing n [] h = tt
Lacks-missing n (v ∷ l) h = (h, Lacks-missing n l h)

-- The last two texts, and the flags in front of them.
abbrev pub tail_properties : PropertySet → List Property
tail_properties s =
    flag s.npm_bundled npm_package_bundled
    ++ (flag s.npm_development npm_package_development
        ++ (flag s.pip_build_dependency pip_package_build_dependency
            ++ (flag s.pip_package_binary pip_package_binary
                ++ (text s.rpm_modularity_label rpm_modularity_label
                    ++ text s.rpm_summary rpm_summary))))

NoRepeat-tail : (s : PropertySet) → NoRepeat (tail_properties s)
unfolding is_text
NoRepeat-tail s = NoRepeat-flag s.npm_bundled _ _ refl (
    NoRepeat-flag s.npm_development _ _ refl (
      NoRepeat-flag s.pip_build_dependency _ _ refl (
        NoRepeat-flag s.pip_package_binary _ _ refl (
          NoRepeat-text s.rpm_modularity_label _ _
            (Lacks-text _ s.rpm_summary rpm_summary (λ e. cc))
            (rw (sym (append-nil (text s.rpm_summary rpm_summary)))
              (NoRepeat-text s.rpm_summary rpm_summary [] tt tt))))))

Lacks-tail : (s : PropertySet) → Lacks found_by (tail_properties s)
Lacks-tail s = Lacks-append _ _ _ (Lacks-flag _ s.npm_bundled _ (λ e. cc)) (
    Lacks-append _ _ _ (Lacks-flag _ s.npm_development _ (λ e. cc)) (
      Lacks-append _ _ _ (Lacks-flag _ s.pip_build_dependency _ (λ e. cc)) (
        Lacks-append _ _ _ (Lacks-flag _ s.pip_package_binary _ (λ e. cc)) (
          Lacks-append _ _ _ (Lacks-text _ s.rpm_modularity_label _ (λ e. cc))
            (Lacks-text _ s.rpm_summary _ (λ e. cc))))))

pub list_properties-NoRepeat : (s : PropertySet) → NoRepeat (list_properties s)
unfolding list_properties is_text
list_properties-NoRepeat s = NoRepeat-flag s.bundler_package_binary _ _ refl (
    NoRepeat-maybe_text s.found_by _ _
      (Lacks-append _ _ _ (Lacks-missing _ s.missing_hash_in_file (λ e. cc)) (Lacks-tail s))
      (NoRepeat-missing s.missing_hash_in_file _ (NoRepeat-tail s)))
