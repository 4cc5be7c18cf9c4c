-- ===== src/Pip/Tokens.antt =====
-- The rounds of the splitter on the tokens of the line that `PipRequirement.__str__` writes.
use Prim.Native.String.{◌∷◌ as ◌▹◌}
use text.Mathlib.TextLemmas.{cons-append, nil-append}
use cachi.Base.{
  String, ◌<>◌, true, false, some, List, [], ◌∷◌, ◌++◌, ◌≡◌, refl, ap, ◌∙◌, ◌==◌, string_eq,
  char_eq, contains, arith, append_assoc, inl, inr, ◌⊎◌,
}
use cachi.Base.Text.{startswith, cut}
use cachi.Errors.{Error, ok, err, Result-cases}
use cachi.Pip.Options.{requires_value, State, append_context, split_value, step_option, step, run}
use cachi.Pip.Options.Grammar.{step_at_option}

-- The options that a hash makes when the line is read back.
unfoldable pub hash_options : List String → List String
hash_options [] = []
hash_options (h ∷ hashes) = "--hash" ∷ h ∷ hash_options hashes

abbrev pub AllEditable : List String → Type 0
AllEditable [] = Unit
AllEditable (o ∷ options) = (contains ("-e" ∷ "--editable" ∷ []) o ≡ true) × AllEditable options

abbrev pub AllUndashed : List String → Type 0
AllUndashed [] = Unit
AllUndashed (w ∷ words) = (startswith w "-" ≡ false) × AllUndashed words

pub run-append : (l r : List String) (s t : State) → run l s ≡ ok t → run (l ++ r) s ≡ run r t
unfolding run
run-append [] r s t h = ground arith
run-append (p ∷ l) r s t h = elim (Result-cases (step p s)) [
  | inl (e, q) ↦ absurd (stopped e q)
  | inr (u, q) ↦ rw (q, run) (run-append l r u t (rw (q, run) at h))
]
  where
    stopped : (e : Error) → step p s ≡ err e → ⊥
    stopped e q = ground arith

-- The two ways to ask for an editable requirement.
pub is_editable :
    (o : String) → contains ("-e" ∷ "--editable" ∷ []) o ≡ true → (o ≡ "-e") ⊎ (o ≡ "--editable")
is_editable o h = ground arith

pub step_editable :
    (o : String) (s : State)
    → contains ("-e" ∷ "--editable" ∷ []) o ≡ true
    → s.require_value ≡ false
    → step o s
      ≡ ok (record s {
        requirement_options = s.requirement_options ++ o ∷ [];
        require_value = false;
        to_requirement = true;
      })
unfolding step requires_value string_eq char_eq startswith cut append_context
step_editable o s h d = elim (is_editable o h) [
  | inl e ↦ rw e (step_at_option "-e" s d refl)
  | inr e ↦ rw e (step_at_option "--editable" s d refl)
]

pub step_word :
    (w : String) (s : State)
    → startswith w "-" ≡ false
    → s.require_value ≡ false
    → step w s ≡ ok (record s { requirement = s.requirement ++ w ∷ [] })
unfolding step
step_word w s h d = ground arith

pub hash_text :
    (h : String) → ("--hash=" <> h) ≡ "-" ▹ ("-" ▹ ("h" ▹ ("a" ▹ ("s" ▹ ("h" ▹ ("=" ▹ h))))))
hash_text h =
    cons-append "-" "-hash=" h
    ∙ ap (λ (t : String). "-" ▹ t)
        (cons-append "-" "hash=" h
          ∙ ap (λ (t : String). "-" ▹ t)
              (cons-append "h" "ash=" h
                ∙ ap (λ (t : String). "h" ▹ t)
                    (cons-append "a" "sh=" h
                      ∙ ap (λ (t : String). "a" ▹ t)
                          (cons-append "s" "h=" h
                            ∙ ap (λ (t : String). "s" ▹ t)
                                (cons-append "h" "=" h
                                  ∙ ap (λ (t : String). "h" ▹ t)
                                      (cons-append "=" "" h
                                        ∙ ap (λ (t : String). "=" ▹ t) (nil-append h)))))))

split_value_of_hash :
    (h : String) → (h == "") ≡ false → split_value ("--hash=" <> h) ≡ ("--hash", some h)
unfolding split_value cut char_eq
split_value_of_hash h n = rw hash_text (ground arith)

pub step_hash :
    (h : String) (s : State)
    → (h == "") ≡ false
    → s.require_value ≡ false
    → step ("--hash=" <> h) s
      ≡ ok (record s {
        requirement_options = s.requirement_options ++ "--hash" ∷ h ∷ [];
        require_value = false;
        to_requirement = true;
      })
unfolding step_option requires_value string_eq append_context
step_hash h s n d =
    step_at_option ("--hash=" <> h) s d (rw hash_text (unfold startswith char_eq in refl))
    ∙ rw (split_value_of_hash h n) (
        ap
          (λ (l : List String).
            ok (record s { requirement_options = l; require_value = false; to_requirement = true }))
          (append_assoc s.requirement_options ("--hash" ∷ []) (h ∷ [])))
