-- ===== src/Base/Text.antt =====
-- Python's methods on `str`, by clauses on the characters.
pub mod Words
pub mod Parts
pub mod Affixes
use Prim.Native.Nat.{ℕ, zero, suc, ◌+◌}
use Prim.Native.Char.{Char, code}
use Prim.Native.String.{String, [] as ε, ◌∷◌ as ◌▹◌, ◌++◌ as ◌<>◌}
use mathlib.Core.Bool.{Bool, true, false, ◌&&◌, ◌||◌}
use mathlib.Core.Option.{Option, none, some}
use mathlib.Core.List.{List, [], ◌∷◌}
use cachi.Base.Tests.{leb, if◌then◌else◌}
use cachi.Base.Equality.{◌==◌, char_eq, nat_eq, string_eq}

within : ℕ → ℕ → Char → Bool
within lo hi c = leb lo (code c) && leb (code c) hi

-- `c.isspace()`: the code points that Unicode and Python count as white space.
unfoldable pub is_space : Char → Bool
unfolding within
is_space c =
    within 9 13 c
    || within 28 32 c
    || within 133 133 c
    || within 160 160 c
    || within 5760 5760 c
    || within 8192 8202 c
    || within 8232 8233 c
    || within 8239 8239 c
    || within 8287 8287 c
    || within 12288 12288 c

-- `s.startswith(prefix)`
unfoldable pub startswith : String → String → Bool
startswith s ε = true
startswith ε (d ▹ p) = false
startswith (c ▹ s) (d ▹ p) = c == d && startswith s p

-- `s.endswith(suffix)`
unfoldable pub endswith : String → String → Bool
endswith ε suffix = suffix == ε
endswith (c ▹ s) suffix = suffix == (c ▹ s) || endswith s suffix

-- `d in s`, for a character
unfoldable pub has_char : Char → String → Bool
has_char d ε = false
has_char d (c ▹ s) = c == d || has_char d s

-- `t in s`, for a text that is not empty
unfoldable pub has_text : String → String → Bool
unfolding startswith
has_text t ε = false
has_text t (c ▹ s) = startswith (c ▹ s) t || has_text t s

push : Char → Option (String × String) → Option (String × String)
push c none = none
push c (some (a, b)) = some (c ▹ a, b)

-- `s.split(d, 1)`, if `d in s`
unfoldable pub cut : Char → String → Option (String × String)
unfolding push
cut d ε = none
cut d (c ▹ s) = if c == d then some (ε, s) else push c (cut d s)

-- The part of `s.partition(d)` in front of `d`, and that behind it.
unfoldable pub partition : Char → String → String × String
unfolding cut
partition d s = elim (cut d s) [ none ↦ (s, ε) | some r ↦ r ]

pub first_onto : Char → List String → List String
first_onto c [] = (c ▹ ε) ∷ []
first_onto c (s ∷ rest) = (c ▹ s) ∷ rest

-- `s.split(d)`
unfoldable pub split_on : Char → String → List String
unfolding first_onto
split_on d ε = ε ∷ []
split_on d (c ▹ s) = let rest = split_on d s in if c == d then ε ∷ rest else first_onto c rest

-- The rounds of `s.split()`, with the word that is being read.
unfoldable pub split_from : String → String → List String
unfolding is_space
split_from word ε = if word == ε then [] else word ∷ []
split_from word (c ▹ s) =
    let ended = split_from ε s in
    let longer = split_from (word <> c ▹ ε) s in
    if is_space c then (if word == ε then ended else word ∷ ended) else longer

-- `s.split()`
unfoldable pub split : String → List String
unfolding split_from
split s = split_from ε s

-- `s.lstrip()`
unfoldable pub lstrip : String → String
unfolding is_space
lstrip ε = ε
lstrip (c ▹ s) = let rest = lstrip s in if is_space c then rest else c ▹ s

snoc_unless : Bool → Char → String → String
snoc_unless b c ε = if b then ε else c ▹ ε
snoc_unless b c (d ▹ s) = c ▹ d ▹ s

-- `s.rstrip()`
unfoldable pub rstrip : String → String
unfolding is_space snoc_unless
rstrip ε = ε
rstrip (c ▹ s) = snoc_unless (is_space c) c (rstrip s)

-- `s.strip()`
unfoldable pub strip : String → String
unfolding lstrip rstrip
strip s = rstrip (lstrip s)

-- `s.rstrip(d)`, for one character
unfoldable pub rstrip_char : Char → String → String
unfolding snoc_unless
rstrip_char d ε = ε
rstrip_char d (c ▹ s) = snoc_unless (c == d) c (rstrip_char d s)

-- `sep.join(parts)`
unfoldable pub join : String → List String → String
join sep [] = ε
join sep (p ∷ []) = p
join sep (p ∷ q ∷ ps) = p <> (sep <> join sep (q ∷ ps))

abbrev pub length : String → ℕ
length ε = 0
length (c ▹ s) = 1 + length s

drop : ℕ → String → String
drop zero s = s
drop (suc n) ε = ε
drop (suc n) (c ▹ s) = drop n s

-- `s.split(t, 1)`, if `t in s`, for a text `t` that is not empty
unfoldable pub cut_text : String → String → Option (String × String)
unfolding push startswith drop
cut_text t ε = none
cut_text t (c ▹ s) =
    if startswith (c ▹ s) t then some (ε, drop (length t) (c ▹ s)) else push c (cut_text t s)

translate : String → String → Char → Char
translate (u ▹ upper) (l ▹ small) c = if c == u then l else translate upper small c
translate _ _ c = c

-- `s.lower()`, on the letters of ASCII; other letters, which no text of the program that `s` is
-- compared with has, stay as they are.
unfoldable pub lower : String → String
unfolding translate
lower ε = ε
lower (c ▹ s) = translate "ABCDEFGHIJKLMNOPQRSTUVWXYZ" "abcdefghijklmnopqrstuvwxyz" c ▹ lower s
