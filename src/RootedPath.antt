-- ===== src/RootedPath.antt =====
-- hermeto/core/rooted_path.py: `RootedPath`, on the parts of POSIX paths.
pub mod Confined
use mathlib.Core.List.{foldl}
use cachi.Base.{
  String, Bool, true, false, ◌&&◌, Option, none, some, List, [], ◌∷◌, ◌++◌, ◌≡◌, ◌==◌, string_eq,
  bool_eq, if◌then◌else◌,
}
use cachi.Errors.{Result, ok, err, ◌>>=◌, value_error, path_outside_root}

-- A `pathlib.Path`: whether it starts at `/`, and its other parts.
pub record PurePath : Type 0 where
  pub absolute : Bool
  pub parts : List String

-- `path.joinpath(other)`
unfoldable pub join_path : PurePath → PurePath → PurePath
join_path path other =
    if other.absolute then other else record path { parts = path.parts ++ other.parts }

-- `path.name`, of the parts of a path
unfoldable pub last_part : List String → String
last_part [] = ""
last_part (p ∷ []) = p
last_part (p ∷ q ∷ parts) = last_part (q ∷ parts)

-- What is left of the parts behind the parts of the root, if they start with those.
unfoldable pub behind : List String → List String → Option (List String)
behind [] parts = some parts
behind (r ∷ root) [] = none
behind (r ∷ root) (p ∷ parts) = let rest = behind root parts in if r == p then rest else none

-- `path.relative_to(root)`
unfoldable pub relative_to : PurePath → PurePath → Result PurePath
unfolding behind
relative_to path root =
    if path.absolute == root.absolute
    then elim (behind root.parts path.parts) [
      | none ↦ err value_error
      | some parts ↦ ok (record { absolute = false; parts = parts })
    ]
    else err value_error

-- `path.is_relative_to(root)`
unfoldable pub is_relative_to : PurePath → PurePath → Bool
unfolding relative_to
is_relative_to path root = elim (relative_to path root) [ ok _ ↦ true | err _ ↦ false ]

pub record RootedPath : Type 0 where
  pub root : PurePath
  pub path : PurePath

-- `__init__`
unfoldable pub new : PurePath → Result RootedPath
new path = if path.absolute then ok (record { root = path; path = path }) else err value_error

unfoldable pub subpath_from_root : RootedPath → Result PurePath
unfolding relative_to
subpath_from_root p = relative_to p.path p.root

-- `resolve` is `Path.resolve`: it reads the symbolic links of the file system, and may raise.
module _ (resolve : PurePath → Result PurePath) where
  unfoldable pub re_root : RootedPath → List PurePath → Result RootedPath
  unfolding join_path is_relative_to new
  re_root p other = resolve (foldl join_path p.path other) >>= λ subpath.
      if is_relative_to subpath p.root then new subpath else err path_outside_root

  unfoldable pub join_within_root : RootedPath → List PurePath → Result RootedPath
  unfolding re_root
  join_within_root p other = re_root p other >>= λ q. ok (record q { root = p.root })

  -- What a sequence of calls makes of a path: `re_root` and `join_within_root` that return.
  pub data Reaches : RootedPath → RootedPath → Type 0 where
    stop : {p : RootedPath} → Reaches p p
    then_re_root :
        {p q r : RootedPath} (other : List PurePath)
        → Reaches p q
        → re_root q other ≡ ok r
        → Reaches p r
    then_join :
        {p q r : RootedPath} (other : List PurePath)
        → Reaches p q
        → join_within_root q other ≡ ok r
        → Reaches p r
