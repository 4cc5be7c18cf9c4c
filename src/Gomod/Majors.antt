-- ===== src/Gomod/Majors.antt =====
-- hermeto/core/package_managers/gomod.py: the texts that `ModuleVersionResolver` reads and writes.
use Prim.Native.Nat.{◌/◌, ◌%◌}
use Prim.Native.String.{[] as ε, ◌∷◌ as ◌▹◌}
use cachi.Base.{
  ℕ, zero, suc, ◌+◌, ◌-◌, ◌*◌, String, ◌<>◌, code, not, ◌&&◌, Option, none, some, List, [], ◌∷◌,
  ◌==◌, string_eq, nat_eq, if◌then◌else◌, ltb,
}
use cachi.Base.Text.{startswith, split_on, length}
use cachi.Base.Text.Affixes.{drop}
use cachi.Gomod.Directives.{is_digit}

-- `s.replace(t, "")`, behind characters that are skipped.
unfoldable pub remove_from : ℕ → String → String → String
unfolding startswith
remove_from skip t ε = ε
remove_from (suc skip) t (c ▹ s) = remove_from skip t s
remove_from zero t (c ▹ s) =
    let found = remove_from (length t - 1) t s in
    let rest = remove_from 0 t s in if startswith (c ▹ s) t then found else c ▹ rest

unfoldable pub remove_text : String → String → String
unfolding remove_from
remove_text t s = remove_from 0 t s

-- `int(digits)`, if the text is a number
unfoldable pub number_from : ℕ → String → Option ℕ
unfolding is_digit
number_from n ε = some n
number_from n (c ▹ s) =
    let rest = number_from (n * 10 + (code c - b'0')) s in if is_digit c then rest else none

-- `v(\d+)`
unfoldable pub major_number : String → Option ℕ
unfolding startswith drop number_from
major_number s = if startswith s "v" && not (drop 1 s == "") then number_from 0 (drop 1 s) else none

-- `(?:.+/v)(\d+)$`, on the text in front of a slash and the parts behind it, of one line in ASCII.
unfoldable pub major_of_parts : String → List String → Option ℕ
unfolding major_number
major_of_parts front [] = none
major_of_parts front (last ∷ []) = if front == "" then none else major_number last
major_of_parts front (p ∷ q ∷ parts) = major_of_parts (front <> ("/" <> p)) (q ∷ parts)

-- `module_major_version`
unfoldable pub module_major_version : String → Option ℕ
unfolding major_of_parts split_on
module_major_version name = elim (split_on "/" name) [
  | [] ↦ none
  | front ∷ parts ↦ major_of_parts front parts
]

-- A number that is not 0.
abbrev pub nonzero : Option ℕ → Option ℕ
nonzero none = none
nonzero (some zero) = none
nonzero (some (suc n)) = some (suc n)

-- `major_versions_to_try`
abbrev pub major_versions_to_try : Option ℕ → List ℕ
major_versions_to_try major = elim (nonzero major) [ none ↦ 1 ∷ 0 ∷ [] | some n ↦ n ∷ [] ]

-- `str(n)`: as many rounds as the number has are enough for its digits.
unfoldable pub digits_of : ℕ → ℕ → String → String
digits_of zero n behind = behind
digits_of (suc rounds) n behind =
    let text : String =
      (if n % 10 == 0
        then "0"
        else if n % 10 == 1
        then "1"
        else if n % 10 == 2
        then "2"
        else if n % 10 == 3
        then "3"
        else if n % 10 == 4
        then "4"
        else if n % 10 == 5
        then "5"
        else if n % 10 == 6
        then "6"
        else if n % 10 == 7
        then "7"
        else if n % 10 == 8
        then "8"
        else "9")
      <> behind in
    let more = digits_of rounds (n / 10) text in if ltb n 10 then text else more

-- `module_major_version or '0'`
unfoldable pub major_text : Option ℕ → String
unfolding digits_of
major_text major = elim (nonzero major) [ none ↦ "0" | some n ↦ digits_of (n + 1) n "" ]

-- The first characters of a text.
unfoldable pub take : ℕ → String → String
take zero s = ε
take (suc n) ε = ε
take (suc n) (c ▹ s) = c ▹ take n s
