-- ===== src/Pip/RoundTrip.antt =====
-- Reading back the line that `PipRequirement.__str__` writes.
use Prim.Native.String.{◌∷◌ as ◌▹◌}
use text.Mathlib.TextLemmas.{cons-ne-nil}
use mathlib.Core.List.{map}
use cachi.Base.{
  String, Char, ◌<>◌, Bool, true, false, List, [], ◌∷◌, ◌++◌, ◌≡◌, refl, sym, ◌∙◌, subst, ◌==◌,
  ==_refl, string_eq, char_eq, contains, arith, append_assoc, append-nil, inl, inr,
}
use cachi.Base.Text.{split, join, is_space}
use cachi.Base.Text.Words.{
  IsWord, AllWords, splits, splits-append, splits_of_AllWords, split-join_splits, split-join,
}
use cachi.Errors.{ok}
use cachi.Pip.Options.{
  State, start, run, finish, split_options_and_requirement, split_hashes_from_options,
}
use cachi.Pip.Tokens.{
  hash_options, AllEditable, AllUndashed, step_editable, step_word, hash_text, step_hash,
  is_editable,
}
use cachi.Pip.Requirement.{PipRequirement, requirement_str}

-- A state of the loop between two parts, with no global options.
abbrev between : List String → List String → Bool → State
between options words to_requirement = record start {
  requirement_options = options;
  requirement = words;
  to_requirement = to_requirement;
}

run-editable :
    (options rest : List String) (before words : List String) (b : Bool)
    → AllEditable options
    → (c : Bool) × (run (options ++ rest) (between before words b)
        ≡ run rest (between (before ++ options) words c))
unfolding run
run-editable [] rest before words b h = (b, rw append-nil)
run-editable (o ∷ options) rest before words b (e, h) =
    let (c, later) = run-editable options rest (before ++ o ∷ []) words true h in
    (c, rw (step_editable o (between before words b) e refl, run) (later ∙ rw append_assoc))

run-words :
    (ws rest : List String) (before words : List String) (b : Bool)
    → AllUndashed ws
    → run (ws ++ rest) (between before words b) ≡ run rest (between before (words ++ ws) b)
unfolding run
run-words [] rest before words b h = rw append-nil
run-words (w ∷ ws) rest before words b (e, h) =
    rw (step_word w (between before words b) e refl, run)
      (run-words ws rest before (words ++ w ∷ []) b h ∙ rw append_assoc)

abbrev AllNotEmpty : List String → Type 0
AllNotEmpty [] = Unit
AllNotEmpty (h ∷ hashes) = ((h == "") ≡ false) × AllNotEmpty hashes

abbrev hash_texts : List String → List String
hash_texts = map (λ h. "--hash=" <> h)

run-hashes :
    (hashes : List String) (before words : List String) (b : Bool)
    → AllNotEmpty hashes
    → (c : Bool) × (run (hash_texts hashes) (between before words b)
        ≡ ok (between (before ++ hash_options hashes) words c))
unfolding run hash_options
run-hashes [] before words b h = (b, rw append-nil)
run-hashes (g ∷ hashes) before words b (e, h) =
    let (c, later) = run-hashes hashes (before ++ "--hash" ∷ g ∷ []) words true h in
    (c, rw (step_hash g (between before words b) e refl, run) (later ∙ rw append_assoc))

finish-between :
    (options words : List String) (w : String) (b : Bool)
    → finish (between options (w ∷ words) b) ≡ ok ([], options, join " " (w ∷ words))
unfolding finish
finish-between [] words w b = refl
finish-between (o ∷ options) words w b = refl

-- What the text of a requirement is split into.
tokens :
    (options words hashes : List String)
    → AllWords options
    → AllWords words
    → AllWords (hash_texts hashes)
    → split (join " " (options ++ (join " " words ∷ hash_texts hashes)))
      ≡ options ++ (words ++ hash_texts hashes)
unfolding splits
tokens options words hashes ho hw hh =
    split-join_splits _
    ∙ splits-append options _
    ∙ rw (
      splits_of_AllWords options ho,
      split-join words hw,
      splits_of_AllWords (hash_texts hashes) hh,
    )

cons_not_empty : (c : Char) (s : String) → ((c ▹ s) == "") ≡ false
cons_not_empty c s = ground (arith, λ (e : (c ▹ s) ≡ ""). cons-ne-nil c s e)

hash_text-IsWord : (h : String) → IsWord h → IsWord ("--hash=" <> h)
hash_text-IsWord h w = rw hash_text (record {
  not_empty = cons_not_empty _ _;
  no_space = unfold is_space in (refl, (refl, (refl, (refl, (refl, (refl, (refl, w.no_space)))))));
})

hash_texts-AllWords : (hashes : List String) → AllWords hashes → AllWords (hash_texts hashes)
hash_texts-AllWords [] h = tt
hash_texts-AllWords (g ∷ hashes) (w, h) = (hash_text-IsWord g w, hash_texts-AllWords hashes h)

AllWords-AllNotEmpty : (l : List String) → AllWords l → AllNotEmpty l
AllWords-AllNotEmpty [] h = tt
AllWords-AllNotEmpty (g ∷ l) (w, h) = (w.not_empty, AllWords-AllNotEmpty l h)

AllEditable-AllWords : (options : List String) → AllEditable options → AllWords options
AllEditable-AllWords [] h = tt
AllEditable-AllWords (o ∷ options) (e, h) = (
  (elim (is_editable o e) [
    | inl p ↦ subst IsWord (sym p) (record {
      not_empty = cons_not_empty _ _;
      no_space = unfold is_space in (refl, (refl, tt));
    })
    | inr p ↦ subst IsWord (sym p) (record {
      not_empty = cons_not_empty _ _;
      no_space =
          unfold is_space in
          (refl, (refl, (refl, (refl, (refl, (refl, (refl, (refl, (refl, (refl, tt))))))))));
    })
  ]),
  AllEditable-AllWords options h,
)

run_tokens :
    (options words hashes : List String) (w : String)
    → AllEditable options
    → AllUndashed (w ∷ words)
    → AllNotEmpty hashes
    → (b : Bool) × (run (options ++ ((w ∷ words) ++ hash_texts hashes)) start
        ≡ ok (between (options ++ hash_options hashes) (w ∷ words) b))
run_tokens options words hashes w ho hw hh =
    let (b, first) = run-editable options ((w ∷ words) ++ hash_texts hashes) [] [] false ho in
    let (c, last) = run-hashes hashes options (w ∷ words) b hh in
    (c, first ∙ run-words (w ∷ words) (hash_texts hashes) options [] b hw ∙ last)

-- The text of a requirement is split into what it was made of: no global options, the options and
-- the hashes of the requirement, and its download line; for a download line of words that do not
-- begin with a dash, editable options only, and hashes with no white space.
pub split_options-requirement_str :
    (r : PipRequirement) (w : String) (words : List String)
    → r.download_line ≡ join " " (w ∷ words)
    → AllWords (w ∷ words)
    → AllUndashed (w ∷ words)
    → AllEditable r.options
    → AllWords r.hashes
    → split_options_and_requirement (requirement_str r)
      ≡ ok ([], r.options ++ hash_options r.hashes, r.download_line)
unfolding split_options_and_requirement requirement_str
split_options-requirement_str r w words e hw hu he hh =
    let read =
      tokens r.options (w ∷ words) r.hashes (AllEditable-AllWords r.options he) hw
        (hash_texts-AllWords r.hashes hh) in
    let (b, ran) = run_tokens r.options words r.hashes w he hu (AllWords-AllNotEmpty r.hashes hh) in
    rw e (
      rw (read, split_options_and_requirement)
        (rw (ran, split_options_and_requirement) (finish-between _ words w b)))

abbrev is_hash : String → Bool
is_hash o = o == "--hash"

literals_ne_hash : (is_hash "-e" ≡ false) × (is_hash "--editable" ≡ false)
unfolding string_eq
literals_ne_hash = (refl, refl)

editable-ne-hash :
    (o : String) → contains ("-e" ∷ "--editable" ∷ []) o ≡ true → (o == "--hash") ≡ false
editable-ne-hash o e = elim (is_editable o e) [
  | inl p ↦ rw p (literals_ne_hash.0)
  | inr p ↦ rw p (literals_ne_hash.1)
]

-- The hashes are told from the options again.
pub split_hashes-hash_options :
    (options hashes : List String)
    → AllEditable options
    → split_hashes_from_options (options ++ hash_options hashes) ≡ (hashes, options)
unfolding split_hashes_from_options hash_options
split_hashes-hash_options [] [] he = refl
split_hashes-hash_options [] (h ∷ hashes) he =
    rw (==_refl {A = String} "--hash") (ground (arith, split_hashes-hash_options [] hashes tt))
split_hashes-hash_options (o ∷ options) hashes (e, he) =
    rw (editable-ne-hash o e) (ground (arith, split_hashes-hash_options options hashes he))
