-- ===== src/Gomod/Directives.antt =====
-- hermeto/core/package_managers/gomod.py: `_get_gomod_version`, with its regular expressions on the
-- digits and the letters of ASCII.
use Prim.Native.String.{[] as ε, ◌∷◌ as ◌▹◌}
use cachi.Base.{
  String, ◌<>◌, Char, code, Bool, true, false, not, ◌&&◌, ◌||◌, Option, none, some, List, [], ◌∷◌,
  ◌==◌, string_eq, char_eq, if◌then◌else◌, leb,
}
use cachi.Base.Text.{startswith, is_space, lstrip, length}
use cachi.Base.Text.Affixes.{drop}

unfoldable pub is_digit : Char → Bool
is_digit c = leb b'0' (code c) && leb (code c) b'9'

unfoldable pub is_letter : Char → Bool
is_letter c = leb b'a' (code c) && leb (code c) b'z' || leb b'A' (code c) && leb (code c) b'Z'

-- The longest beginning of which each character passes, and what stands behind it.
unfoldable pub span : (Char → Bool) → String → String × String
span test ε = (ε, ε)
span test (c ▹ s) = let (a, b) = span test s in if test c then (c ▹ a, b) else (ε, c ▹ s)

-- `X+`, for a class of characters
unfoldable pub some_of : (Char → Bool) → String → Option (String × String)
unfolding span
some_of test s = let (a, b) = span test s in if a == ε then none else some (a, b)

-- A literal text.
unfoldable pub literal : String → String → Option String
unfolding startswith drop
literal t s = if startswith s t then some (drop (length t) s) else none

-- `(:?\.\d+)?`
unfoldable pub micro : String → String × String
unfolding some_of literal is_digit
micro s =
    let colon : String = elim (literal ":" s) [ none ↦ "" | some r ↦ ":" ] in
    let behind : String = elim (literal ":" s) [ none ↦ s | some r ↦ r ] in
    elim (literal "." behind) [
      | none ↦ ("", s)
      | some r ↦ elim (some_of is_digit r) [
        | none ↦ ("", s)
        | some (digits, rest) ↦ (colon <> ("." <> digits), rest)
      ]
    ]

-- `(?:[a-zA-Z]+\d+)?`
unfoldable pub pre_release : String → String × String
unfolding some_of is_letter is_digit
pre_release s = elim (some_of is_letter s) [
  | none ↦ ("", s)
  | some (letters, r) ↦ elim (some_of is_digit r) [
    | none ↦ ("", s)
    | some (digits, rest) ↦ (letters <> digits, rest)
  ]
]

-- `version_str_regex`: the version, and what stands behind it.
unfoldable pub version_str : String → Option (String × String)
unfolding some_of literal micro pre_release is_digit
version_str s = elim (some_of is_digit s) [
  | none ↦ none
  | some (major, r) ↦ elim (literal "." r) [
    | none ↦ none
    | some r2 ↦ elim (some_of is_digit r2) [
      | none ↦ none
      | some (minor, r3) ↦
          let (m, r4) = micro r3 in
          let (p, r5) = pre_release r4 in some (major <> ("." <> (minor <> (m <> p))), r5)
    ]
  ]
]

-- `post_version_chars_regex` up to the end of the line
unfoldable pub ends : String → Bool
unfolding lstrip startswith
ends s = let rest : String = lstrip s in rest == "" || startswith rest "//"

-- The version behind the words of a directive, on a line.
unfoldable pub directive : String → String → String → Option String
unfolding literal lstrip some_of version_str ends is_space
directive keyword prefix line = elim (literal keyword (lstrip line)) [
  | none ↦ none
  | some r ↦ elim (some_of is_space r) [
    | none ↦ none
    | some (spaces, r2) ↦ elim (literal prefix r2) [
      | none ↦ none
      | some r3 ↦ elim (version_str r3) [
        | none ↦ none
        | some (ver, r4) ↦ if ends r4 then some ver else none
      ]
    ]
  ]
]

-- The first one, if it is there.
abbrev pub or_first : Option String → Option String → Option String
or_first none found = found
or_first (some v) found = some v

abbrev pub is_none : Option String → Bool
is_none none = true
is_none (some v) = false

-- The loop of `_get_gomod_version`: a line that gives the Go version is not read as a toolchain's.
unfoldable pub gomod_version_from :
    Option String → Option String → List String → Option String × Option String
unfolding directive
gomod_version_from go_version toolchain_version [] = (go_version, toolchain_version)
gomod_version_from go_version toolchain_version (line ∷ lines) =
    gomod_version_from (or_first go_version (directive "go" "" line))
      (if is_none go_version && not (is_none (directive "go" "" line))
        then toolchain_version
        else or_first toolchain_version (directive "toolchain" "go" line))
      lines

-- `_get_gomod_version`, on the lines of go.mod
unfoldable pub get_gomod_version : List String → Option String × Option String
unfolding gomod_version_from
get_gomod_version lines = gomod_version_from none none lines
