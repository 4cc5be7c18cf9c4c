-- ===== src/Gomod/Vendor.antt =====
-- hermeto/core/package_managers/gomod.py: `_parse_vendor`, on the lines of vendor/modules.txt.
use cachi.Base.{
  String, Bool, true, false, Option, none, some, List, [], ◌∷◌, ◌==◌, string_eq, char_eq,
  if◌then◌else◌,
}
use cachi.Base.Text.{startswith, split}
use cachi.Base.Text.Affixes.{removeprefix}
use cachi.Errors.{Result, ok, err, ◌>>=◌, unexpected_format}
use cachi.Gomod.Models.{ParsedModule, unreplaced, replaced}

-- `ParsedModule(path=path, version=version)`
abbrev pub module_at : String → Option String → ParsedModule
module_at path version = unreplaced path version false

-- The five forms of a line's words.
unfoldable pub module_of_words : List String → Result ParsedModule
module_of_words (name ∷ version ∷ []) = ok (module_at name (some version))
module_of_words (a ∷ b ∷ c ∷ []) =
    if b == "=>" then ok (replaced a none false (module_at c none)) else err unexpected_format
module_of_words (a ∷ b ∷ c ∷ d ∷ []) =
    if b == "=>"
    then ok (replaced a none false (module_at c (some d)))
    else if c == "=>"
    then ok (replaced a (some b) false (module_at d none))
    else err unexpected_format
module_of_words (a ∷ b ∷ c ∷ d ∷ e ∷ []) =
    if c == "=>"
    then ok (replaced a (some b) false (module_at d (some e)))
    else err unexpected_format
module_of_words _ = err unexpected_format

-- `parse_module_line`
unfoldable pub parse_module_line : String → Result ParsedModule
unfolding module_of_words removeprefix split
parse_module_line line = module_of_words (split (removeprefix line "# "))

-- `modules` with `module_has_packages`: the last module stands first.
abbrev pub Modules : Type 0
Modules = List (ParsedModule × Bool)

-- `module_has_packages[-1] = True`
unfoldable pub mark_last : Modules → Result Modules
mark_last [] = err unexpected_format
mark_last ((m, has_packages) ∷ modules) = ok ((m, true) ∷ modules)

-- One round of the loop.
unfoldable pub read_line : String → Modules → Result Modules
unfolding startswith mark_last
read_line line modules =
    if startswith line "# "
    then (parse_module_line line >>= λ m. ok ((m, false) ∷ modules))
    else if startswith line "#"
    then (if startswith line "##" then ok modules else err unexpected_format)
    else mark_last modules

unfoldable pub read_lines : List String → Modules → Result Modules
unfolding read_line
read_lines [] modules = ok modules
read_lines (line ∷ lines) modules = read_line line modules >>= λ read. read_lines lines read

-- The modules that have packages, in front of those that are given.
unfoldable pub with_packages : Modules → List ParsedModule → List ParsedModule
with_packages [] behind = behind
with_packages ((m, has_packages) ∷ modules) behind =
    with_packages modules (if has_packages then m ∷ behind else behind)

-- `_parse_vendor`, where `none` stands for a file that is not there.
unfoldable pub parse_vendor : Option (List String) → Result (List ParsedModule)
unfolding read_lines with_packages
parse_vendor none = ok []
parse_vendor (some lines) = read_lines lines [] >>= λ modules. ok (with_packages modules [])
