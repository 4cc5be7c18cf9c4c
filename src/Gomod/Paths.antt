-- ===== src/Gomod/Paths.antt =====
-- `pathlib.Path` with its text, and `os.path.normpath`, on POSIX paths that do not begin with two
-- slashes.
use mathlib.Core.List.{reverse}
use cachi.Base.{
  String, ◌<>◌, Bool, true, false, not, ◌&&◌, ◌||◌, List, [], ◌∷◌, ◌++◌, ◌==◌, string_eq,
  if◌then◌else◌,
}
use cachi.Base.Text.{startswith, split_on, join}
use cachi.RootedPath.{PurePath}

-- The parts that a path keeps.
unfoldable pub kept_parts : List String → List String
kept_parts [] = []
kept_parts (p ∷ parts) =
    let rest = kept_parts parts in if p == "" || p == "." then rest else p ∷ rest

-- `Path(s)`
unfoldable pub path_of : String → PurePath
unfolding kept_parts startswith split_on
path_of s = record { absolute = startswith s "/"; parts = kept_parts (split_on "/" s) }

-- The text of the parts of a path.
unfoldable pub parts_text : Bool → List String → String
unfolding join
parts_text true parts = "/" <> join "/" parts
parts_text false [] = "."
parts_text false (p ∷ parts) = join "/" (p ∷ parts)

-- `str(path)`, and `path.as_posix()`
unfoldable pub text_of : PurePath → String
unfolding parts_text
text_of p = parts_text p.absolute p.parts

unfoldable pub parent_parts : List String → List String
parent_parts [] = []
parent_parts (p ∷ []) = []
parent_parts (p ∷ q ∷ parts) = p ∷ parent_parts (q ∷ parts)

-- `path.parent / name`
unfoldable pub beside : PurePath → String → PurePath
unfolding parent_parts
beside path name = record path { parts = parent_parts path.parts ++ name ∷ [] }

-- The loop of `normpath`: what it has so far, the last part first.
unfoldable pub norm_from : Bool → List String → List String → List String
norm_from absolute new [] = reverse new
norm_from absolute [] (p ∷ parts) =
    norm_from absolute (if p == ".." && absolute then [] else p ∷ []) parts
norm_from absolute (n ∷ new) (p ∷ parts) =
    norm_from absolute (if p == ".." && not (n == "..") then new else p ∷ n ∷ new) parts

-- `os.path.normpath(s)`
unfoldable pub normpath : String → String
unfolding norm_from path_of parts_text
normpath s =
    let path = path_of s in parts_text path.absolute (norm_from path.absolute [] path.parts)
