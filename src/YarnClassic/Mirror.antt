-- ===== src/YarnClassic/Mirror.antt =====
-- hermeto/core/package_managers/yarn_classic/utils.py: the names of tarballs in the offline mirror.
use Prim.Native.String.{[] as ε, ◌∷◌ as ◌▹◌}
use cachi.Base.{
  String, ◌<>◌, Bool, true, false, not, ◌&&◌, ◌||◌, Option, none, some, List, [], ◌∷◌, ◌==◌,
  string_eq, char_eq, if◌then◌else◌,
}
use cachi.Base.Text.{startswith}
use cachi.Base.Text.Affixes.{drop}
use cachi.Errors.{Result, ok, ◌>>=◌}
use cachi.RootedPath.{PurePath, last_part}

-- What `urllib.parse.urlparse` gives: four of its attributes.
pub record YarnUrl : Type 0 where
  pub scheme : String
  pub hostname : Option String
  pub path : String
  pub fragment : String

-- A text cut at its last `%2f` that something follows.
unfoldable pub cut_encoded : String → Option (String × String)
unfolding startswith drop
cut_encoded ε = none
cut_encoded (c ▹ s) =
    let rest = cut_encoded s in
    elim rest [
      | some (a, b) ↦ some (c ▹ a, b)
      | none ↦
          if startswith (c ▹ s) "%2f" && not (drop 3 (c ▹ s) == "")
          then some ("", drop 3 (c ▹ s))
          else none
    ]

-- `@` and a text, which is not empty
abbrev pub is_scope : String → Bool
is_scope s = startswith s "@" && not (drop 1 s == "")

-- The scope of a part such as `@scope%2fname`.
unfoldable pub encoded_scope : String → Option String
unfolding cut_encoded
encoded_scope s = elim (cut_encoded (drop 1 s)) [
  | none ↦ none
  | some (scope, name) ↦ if startswith s "@" && not (scope == "") then some ("@" <> scope) else none
]

-- `(?:-|_attachments)/(?:@[^/]+\/)?([^/]+)$`, on the parts of a path
unfoldable pub tarball_parts : List String → Option String
tarball_parts (dash ∷ file ∷ []) =
    if (dash == "-" || dash == "_attachments") && not (file == "") then some file else none
tarball_parts (dash ∷ scope ∷ file ∷ []) =
    if (dash == "-" || dash == "_attachments") && is_scope scope && not (file == "")
    then some file
    else none
tarball_parts _ = none

-- The pattern behind a slash: with a scope that is a part of its own, with one that is encoded, or
-- with none.
unfoldable pub match_parts : List String → Option (Option String × String)
unfolding tarball_parts encoded_scope
match_parts [] = none
match_parts (p ∷ []) = none
match_parts (p ∷ q ∷ parts) =
    let without_scope : Option (Option String × String) = elim (tarball_parts (q ∷ parts)) [
      | none ↦ none
      | some file ↦ if p == "" then none else some (encoded_scope p, file)
    ] in
    if is_scope p && not (q == "")
    then elim (tarball_parts parts) [ none ↦ without_scope | some file ↦ some (some p, file) ]
    else without_scope

-- `re.search(RE_URL_NAME_MATCH, …)`: the first slash behind which the pattern matches.
unfoldable pub search_parts : List String → Option (Option String × String)
unfolding match_parts
search_parts [] = none
search_parts (p ∷ parts) =
    let rest = search_parts parts in
    elim (match_parts (p ∷ parts)) [ none ↦ rest | some m ↦ some m ]

abbrev pub behind_slashes : PurePath → List String
behind_slashes path = elim path.absolute [
  | true ↦ path.parts
  | false ↦ elim path.parts [ [] ↦ [] | p ∷ parts ↦ parts ]
]

module _ (urlparse : String → Result YarnUrl) (path_of : String → PurePath) where
  unfoldable pub get_tarball_mirror_name : String → Result String
  unfolding search_parts last_part
  get_tarball_mirror_name url = urlparse url >>= λ parsed_url.
      let path = path_of parsed_url.path in
      ok (elim (search_parts (behind_slashes path)) [
        | none ↦ last_part path.parts
        | some (none, tarball_basename) ↦ tarball_basename
        | some (some scope, tarball_basename) ↦ scope <> ("-" <> tarball_basename)
      ])

  unfoldable pub get_git_tarball_mirror_name : String → Result String
  unfolding last_part drop
  get_git_tarball_mirror_name url = urlparse url >>= λ parsed_url.
      let name = last_part (path_of parsed_url.path).parts in
      let package_filename =
        if parsed_url.fragment == "" then name else name <> ("-" <> parsed_url.fragment) in
      ok (if startswith package_filename ":" then drop 1 package_filename else package_filename)
