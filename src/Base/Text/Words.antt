-- ===== src/Base/Text/Words.antt =====
-- `split` undoes `join` with spaces.
use Prim.Native.String.{[] as ε, ◌∷◌ as ◌▹◌}
use text.Mathlib.TextLemmas.{nil-append, cons-append, append-nil as text_append-nil}
use text.Mathlib.TextLemmas.{append_assoc as text_append_assoc}
use Prim.Native.String.{String, ◌++◌ as ◌<>◌}
use mathlib.Core.Path.{◌≡◌, refl, sym, ◌∙◌, ap}
use mathlib.Core.Bool.{Bool, true, false, not, ◌&&◌}
use mathlib.Core.List.{List, [], ◌∷◌, ◌++◌, append_assoc, append-nil}
use native.Mathlib.Omega.{arith}
use cachi.Base.Equality.{◌==◌, char_eq, string_eq}
use cachi.Base.Text.{is_space, split_from, split, join}

split_from-space : (w s : String) → split_from w (" " <> s) ≡ split_from w ε ++ split_from ε s
unfolding split_from
split_from-space w s = rw (cons-append " " "" s) (rw (nil-append s) (ground arith))

-- A space ends a word, wherever it stands.
split_from-append :
    (t w s : String) → split_from w (t <> (" " <> s)) ≡ split_from w t ++ split_from ε s
unfolding split_from
split_from-append ε w s = rw (nil-append (" " <> s)) (split_from-space w s)
split_from-append (c ▹ t) w s =
    rw (cons-append c t (" " <> s))
      (ground (arith, split_from-append t ε s, split_from-append t (w <> (c ▹ ε)) s))

unfoldable pub splits : List String → List String
splits [] = []
splits (t ∷ ts) = split t ++ splits ts

pub split-join_splits : (ts : List String) → split (join " " ts) ≡ splits ts
unfolding split join splits
split-join_splits [] = unfold split_from string_eq in refl
split-join_splits (t ∷ []) = sym (append-nil (split t))
split-join_splits (t ∷ u ∷ ts) =
    split_from-append t ε (join " " (u ∷ ts))
    ∙ ap (λ (l : List String). split t ++ l) (split-join_splits (u ∷ ts))

-- A text with no white space.
abbrev pub NoSpace : String → Type 0
NoSpace ε = Unit
NoSpace (c ▹ s) = (is_space c ≡ false) × NoSpace s

split_from-NoSpace : (t w : String) → NoSpace t → split_from w t ≡ split_from (w <> t) ε
unfolding split_from
split_from-NoSpace ε w h = rw text_append-nil
split_from-NoSpace (c ▹ t) w h = rw (h.0) (
    split_from-NoSpace t (w <> (c ▹ ε)) h.1
    ∙ ap (λ (v : String). split_from v ε)
        (text_append_assoc w (c ▹ ε) t
          ∙ ap (λ (v : String). w <> v)
              (cons-append c ε t ∙ ap (λ (v : String). c ▹ v) (nil-append t))))

-- A word: not empty, and with no white space.
pub record IsWord (t : String) : Type 0 where
  pub not_empty : (t == "") ≡ false
  pub no_space : NoSpace t

no_space : String → Bool
no_space ε = true
no_space (c ▹ s) = not (is_space c) && no_space s

-- The same as a test.
unfoldable pub is_word : String → Bool
unfolding no_space is_space
is_word t = not (t == "") && no_space t

no_space-NoSpace : (t : String) → no_space t ≡ true → NoSpace t
unfolding no_space
no_space-NoSpace ε h = tt
no_space-NoSpace (c ▹ t) h = (ground arith, no_space-NoSpace t (ground arith))

pub is_word-IsWord : (t : String) → is_word t ≡ true → IsWord t
unfolding is_word
is_word-IsWord t h = record {
  not_empty = ground arith;
  no_space = no_space-NoSpace t (ground arith);
}

pub split_of_IsWord : (t : String) → IsWord t → split t ≡ t ∷ []
unfolding split
split_of_IsWord t h =
    split_from-NoSpace t ε h.no_space
    ∙ rw (nil-append t) (unfold split_from in ground (arith, h.not_empty))

abbrev pub AllWords : List String → Type 0
AllWords [] = Unit
AllWords (t ∷ ts) = IsWord t × AllWords ts

pub splits-append : (l r : List String) → splits (l ++ r) ≡ splits l ++ splits r
unfolding splits
splits-append [] r = refl
splits-append (t ∷ l) r =
    rw (splits-append l r) (sym (append_assoc (split t) (splits l) (splits r)))

pub splits_of_AllWords : (ts : List String) → AllWords ts → splits ts ≡ ts
unfolding splits
splits_of_AllWords [] h = refl
splits_of_AllWords (t ∷ ts) h = rw (split_of_IsWord t h.0, splits_of_AllWords ts h.1)

-- Words joined by spaces are split back into the words.
pub split-join : (ts : List String) → AllWords ts → split (join " " ts) ≡ ts
split-join ts h = split-join_splits ts ∙ splits_of_AllWords ts h
