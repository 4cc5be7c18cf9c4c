-- ===== src/Pip/Lines.antt =====
-- hermeto/core/package_managers/pip/requirements.py: the lines of a requirements file and the whole
-- of it. The text comes split into lines.
use Prim.Native.String.{[] as ε, ◌∷◌ as ◌▹◌}
use mathlib.Core.List.{map}
use cachi.Base.{
  String, ◌<>◌, Bool, false, Option, none, some, List, [], ◌∷◌, ◌++◌, ◌==◌, string_eq, char_eq,
  if◌then◌else◌,
}
use cachi.Base.Text.{is_space, endswith, rstrip_char, strip, join}
use cachi.Errors.{Result, ok, err, ◌>>=◌}
use cachi.Pip.External.{External}
use cachi.Pip.Options.{split_options_and_requirement}
use cachi.Pip.Requirement.{PipRequirement, requirement_str}
use cachi.Pip.FromLine.{from_line}

-- `LINE_COMMENT.sub("", line)`, the pattern `(^|\s)#.*$` on a single line.
pub cut_comment : String → String
cut_comment ε = ε
cut_comment (c ▹ s) =
    let rest = cut_comment s in
    elim s [
      | ε ↦ c ▹ ε
      | d ▹ t ↦ if is_space c then (if d == "#" then ε else c ▹ rest) else c ▹ rest
    ]

starts_comment : String → Bool
starts_comment ε = false
starts_comment (c ▹ s) = c == "#"

unfoldable pub remove_comment : String → String
unfolding starts_comment cut_comment is_space
remove_comment line = if starts_comment line then "" else cut_comment line

-- The loop of `_read_lines`, with the lines of the buffer joined; `none` is an empty buffer.
unfoldable pub read_lines_from : Option String → List String → List String
unfolding remove_comment
read_lines_from none [] = []
read_lines_from (some buffered) [] = buffered ∷ []
read_lines_from buffered (line ∷ lines) =
    let start : String = elim buffered [ none ↦ "" | some s ↦ s ] in
    let new_line = strip (remove_comment (start <> line)) in
    let goes_on = read_lines_from (some (start <> rstrip_char "\\" line)) lines in
    let rest = read_lines_from none lines in
    if endswith line "\\" then goes_on else (if new_line == "" then rest else new_line ∷ rest)

-- `_read_lines`
unfoldable pub read_lines : List String → List String
unfolding read_lines_from
read_lines lines = read_lines_from none lines

pub record Parsed : Type 0 where
  pub requirements : List PipRequirement
  pub options : List String

-- `from_requirements_and_options`
abbrev pub from_requirements_and_options : List PipRequirement → List String → Parsed
from_requirements_and_options requirements options = record {
  requirements = requirements;
  options = options;
}

module _ (lib : External) where
  -- One round of the loop of `_parsed`.
  unfoldable pub parse_requirement_line : Parsed → String → Result Parsed
  parse_requirement_line p line =
      split_options_and_requirement line >>= λ (global_options, requirement_options, rest).
      let q : Parsed = record p { options = p.options ++ global_options } in
      if rest == ""
      then ok q
      else from_line lib rest requirement_options >>= λ r.
          ok (record q { requirements = q.requirements ++ r ∷ [] })

  unfoldable pub parse_lines : Parsed → List String → Result Parsed
  unfolding parse_requirement_line
  parse_lines p [] = ok p
  parse_lines p (line ∷ lines) = elim (parse_requirement_line p line) [
    | err e ↦ err e
    | ok q ↦ parse_lines q lines
  ]

  -- `_parsed`
  unfoldable pub parsed : List String → Result Parsed
  unfolding parse_lines read_lines
  parsed lines = parse_lines (record { requirements = []; options = [] }) (read_lines lines)

options_line : List String → String
options_line [] = ""
options_line (o ∷ options) = join " " (o ∷ options) <> "\n"

-- `generate_file_content`, by `write`: each line ends in a line feed.
unfoldable pub generate_file_content : Parsed → String
unfolding options_line
generate_file_content p =
    options_line p.options
    <> join "" (map (λ (r : PipRequirement). requirement_str r <> "\n") p.requirements)
