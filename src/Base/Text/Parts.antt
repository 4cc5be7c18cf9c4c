-- ===== src/Base/Text/Parts.antt =====
-- `split` at a character, on what `join` with that character makes.
use Prim.Native.String.{String, [] as ε, ◌∷◌ as ◌▹◌, ◌++◌ as ◌<>◌}
use Prim.Native.Char.{Char}
use mathlib.Core.Path.{◌≡◌, refl, ◌∙◌, ap}
use mathlib.Core.Bool.{false}
use mathlib.Core.List.{List, [], ◌∷◌}
use native.Mathlib.Omega.{arith}
use text.Mathlib.TextLemmas.{nil-append, cons-append}
use cachi.Base.Equality.{==_refl, char_eq}
use cachi.Base.Text.{has_char, split_on, join}

-- None of the texts has the character.
abbrev pub AllWithout : Char → List String → Type 0
AllWithout d [] = Unit
AllWithout d (t ∷ ts) = (has_char d t ≡ false) × AllWithout d ts

split_on-without : (d : Char) (t : String) → has_char d t ≡ false → split_on d t ≡ t ∷ []
unfolding split_on has_char
split_on-without d ε h = refl
split_on-without d (c ▹ t) h = ground (arith, split_on-without d t)

split_on-append :
    (d : Char) (t s : String) → has_char d t ≡ false → split_on d (t <> (d ▹ s)) ≡ t ∷ split_on d s
unfolding split_on has_char
split_on-append d ε s h = rw (nil-append (d ▹ s)) (rw (==_refl d) refl)
split_on-append d (c ▹ t) s h = rw (cons-append c t (d ▹ s)) (ground (arith, split_on-append d t s))

-- A text that begins with one character.
one_char : (d : Char) (s : String) → (d ▹ ε) <> s ≡ d ▹ s
one_char d s = cons-append d ε s ∙ ap (λ (v : String). d ▹ v) (nil-append s)

-- Texts without the character, joined by it, are split into the texts.
pub split_on-join :
    (d : Char) (t : String) (ts : List String)
    → AllWithout d (t ∷ ts)
    → split_on d (join (d ▹ ε) (t ∷ ts)) ≡ t ∷ ts
unfolding join
split_on-join d t [] h = split_on-without d t h.0
split_on-join d t (u ∷ ts) h =
    ap (λ (v : String). split_on d (t <> v)) (one_char d (join (d ▹ ε) (u ∷ ts)))
    ∙ split_on-append d t _ h.0
    ∙ ap (λ (l : List String). t ∷ l) (split_on-join d u ts h.1)
