-- ===== src/Gomod/Listed.antt =====
-- hermeto/core/package_managers/gomod.py: `_parse_vendor` on what `go mod vendor` writes.
use Prim.Native.String.{[] as ε, ◌∷◌ as ◌▹◌}
use text.Mathlib.TextLemmas.{nil-append, cons-append}
use mathlib.Core.List.{map}
use cachi.Base.{
  String, ◌<>◌, Bool, true, false, none, some, List, [], ◌∷◌, ◌++◌, ◌≡◌, refl, ap, ◌∙◌, ◌==◌,
  string_eq, char_eq, if◌then◌else◌, ◌||◌, arith, append-nil,
}
use cachi.Base.Text.{startswith, join}
use cachi.Base.Text.Affixes.{drop, removeprefix}
use cachi.Base.Text.Words.{AllWords, split-join}
use cachi.Errors.{ok, >>=-eq-ok, ok_injective}
use cachi.Gomod.Models.{ParsedModule, replaced}
use cachi.Gomod.Vendor.{
  module_at, module_of_words, parse_module_line, Modules, mark_last, read_line, read_lines,
  with_packages, parse_vendor,
}

-- A module as a line of vendor/modules.txt names it.
pub data Listed : Type 0 where
  plain : (name version : String) → Listed
  at_path : (name path : String) → Listed
  at_module : (name new_name new_version : String) → Listed
  version_at_path : (name version path : String) → Listed
  version_at_module : (name version new_name new_version : String) → Listed

abbrev pub words_of : Listed → List String
words_of (plain name version) = name ∷ version ∷ []
words_of (at_path name path) = name ∷ "=>" ∷ path ∷ []
words_of (at_module name new_name new_version) = name ∷ "=>" ∷ new_name ∷ new_version ∷ []
words_of (version_at_path name version path) = name ∷ version ∷ "=>" ∷ path ∷ []
words_of (version_at_module name version new_name new_version) =
    name ∷ version ∷ "=>" ∷ new_name ∷ new_version ∷ []

abbrev pub module_listed : Listed → ParsedModule
module_listed (plain name version) = module_at name (some version)
module_listed (at_path name path) = replaced name none false (module_at path none)
module_listed (at_module name new_name new_version) =
    replaced name none false (module_at new_name (some new_version))
module_listed (version_at_path name version path) =
    replaced name (some version) false (module_at path none)
module_listed (version_at_module name version new_name new_version) =
    replaced name (some version) false (module_at new_name (some new_version))

-- No version is an arrow.
abbrev pub NoArrow : Listed → Type 0
NoArrow (version_at_path name version path) = (version == "=>") ≡ false
NoArrow _ = Unit

-- A module with its markers, such as `## explicit`, and the import paths of its packages.
pub record Entry : Type 0 where
  pub listed : Listed
  pub markers : List String
  pub packages : List String

abbrev pub print_entry : Entry → List String
print_entry e =
    ("# " <> join " " (words_of e.listed)) ∷ map (λ m. "##" <> m) e.markers ++ e.packages

abbrev pub print_entries : List Entry → List String
print_entries [] = []
print_entries (e ∷ es) = print_entry e ++ print_entries es

abbrev pub AllPackageLines : List String → Type 0
AllPackageLines [] = Unit
AllPackageLines (l ∷ ls) = (startswith l "#" ≡ false) × AllPackageLines ls

pub record IsEntry (e : Entry) : Type 0 where
  pub words : AllWords (words_of e.listed)
  pub no_arrow : NoArrow e.listed
  pub package_lines : AllPackageLines e.packages

abbrev pub AllEntries : List Entry → Type 0
AllEntries [] = Unit
AllEntries (e ∷ es) = IsEntry e × AllEntries es

abbrev pub some_of : List String → Bool
some_of [] = false
some_of (l ∷ ls) = true

-- The modules of the entries that have packages.
abbrev pub used_modules : List Entry → List ParsedModule
used_modules [] = []
used_modules (e ∷ es) =
    if some_of e.packages then module_listed e.listed ∷ used_modules es else used_modules es

module_of_words-words_of :
    (l : Listed) → NoArrow l → module_of_words (words_of l) ≡ ok (module_listed l)
unfolding module_of_words string_eq
module_of_words-words_of (plain name version) h = refl
module_of_words-words_of (at_path name path) h = refl
module_of_words-words_of (at_module name new_name new_version) h = refl
module_of_words-words_of (version_at_path name version path) h = rw (h) refl
module_of_words-words_of (version_at_module name version new_name new_version) h = refl

hash_onto : (s : String) → "# " <> s ≡ ("#" ▹ " " ▹ s)
hash_onto s =
    cons-append "#" " " s
    ∙ ap (λ (v : String). "#" ▹ v)
        (cons-append " " "" s ∙ ap (λ (v : String). " " ▹ v) (nil-append s))

removeprefix-hash : (s : String) → removeprefix ("# " <> s) "# " ≡ s
unfolding removeprefix drop startswith char_eq
removeprefix-hash s = rw (hash_onto s) refl

startswith-hash : (s : String) → startswith ("# " <> s) "# " ≡ true
unfolding startswith char_eq
startswith-hash s = rw (hash_onto s) refl

markers_onto : (s : String) → "##" <> s ≡ ("#" ▹ "#" ▹ s)
markers_onto s =
    cons-append "#" "#" s
    ∙ ap (λ (v : String). "#" ▹ v)
        (cons-append "#" "" s ∙ ap (λ (v : String). "#" ▹ v) (nil-append s))

read_line-marker : (s : String) (m : Modules) → read_line ("##" <> s) m ≡ ok m
unfolding read_line startswith char_eq
read_line-marker s m = rw (markers_onto s) refl

startswith-shorter : (l : String) → startswith l "#" ≡ false → startswith l "# " ≡ false
unfolding startswith
startswith-shorter ε h = refl
startswith-shorter (c ▹ l) h = ground arith

read_line-package :
    (l : String) (p : ParsedModule) (b : Bool) (m : Modules)
    → startswith l "#" ≡ false
    → read_line l ((p, b) ∷ m) ≡ ok ((p, true) ∷ m)
unfolding read_line mark_last
read_line-package l p b m h = rw (startswith-shorter l h, h) refl

parse-entry :
    (l : Listed)
    → AllWords (words_of l)
    → NoArrow l
    → parse_module_line ("# " <> join " " (words_of l)) ≡ ok (module_listed l)
unfolding parse_module_line
parse-entry l h k =
    rw (removeprefix-hash (join " " (words_of l)), split-join (words_of l) h)
      (module_of_words-words_of l k)

read_line-module :
    (l : Listed) (m : Modules)
    → AllWords (words_of l)
    → NoArrow l
    → read_line ("# " <> join " " (words_of l)) m ≡ ok ((module_listed l, false) ∷ m)
unfolding read_line
read_line-module l m h k = rw (startswith-hash (join " " (words_of l)), parse-entry l h k) refl

read_lines-append :
    (a b : List String) (m : Modules) {r : Modules}
    → read_lines a m ≡ ok r
    → read_lines (a ++ b) m ≡ read_lines b r
unfolding read_lines
read_lines-append [] b m h = rw (ok_injective h) refl
read_lines-append (l ∷ a) b m h =
    let (n, e, g) = >>=-eq-ok (read_line l m) _ h in rw (e) (read_lines-append a b n g)

read_lines-markers :
    (markers : List String) (m : Modules) → read_lines (map (λ m. "##" <> m) markers) m ≡ ok m
unfolding read_lines
read_lines-markers [] m = refl
read_lines-markers (s ∷ markers) m = rw (read_line-marker s m) (read_lines-markers markers m)

read_lines-packages :
    (lines : List String) (p : ParsedModule) (b : Bool) (m : Modules)
    → AllPackageLines lines
    → read_lines lines ((p, b) ∷ m) ≡ ok ((p, b || some_of lines) ∷ m)
unfolding read_lines
read_lines-packages [] p b m h = ground arith
read_lines-packages (l ∷ lines) p b m h =
    rw (read_line-package l p b m h.0) (read_lines-packages lines p true m h.1 ∙ ground arith)

read_lines-entry :
    (e : Entry) (m : Modules)
    → IsEntry e
    → read_lines (print_entry e) m ≡ ok ((module_listed e.listed, some_of e.packages) ∷ m)
unfolding read_lines
read_lines-entry e m h = rw (read_line-module e.listed m h.words h.no_arrow) (
    read_lines-append (map (λ m. "##" <> m) e.markers) e.packages
      ((module_listed e.listed, false) ∷ m) (read_lines-markers e.markers _)
    ∙ read_lines-packages e.packages (module_listed e.listed) false m h.package_lines)

-- The modules of the entries in front of those that are given: the last one stands first.
onto : List Entry → Modules → Modules
onto [] m = m
onto (e ∷ es) m = onto es ((module_listed e.listed, some_of e.packages) ∷ m)

read_lines-entries :
    (es : List Entry) (m : Modules)
    → AllEntries es
    → read_lines (print_entries es) m ≡ ok (onto es m)
unfolding onto read_lines
read_lines-entries [] m h = refl
read_lines-entries (e ∷ es) m h =
    read_lines-append (print_entry e) (print_entries es) m (read_lines-entry e m h.0)
    ∙ read_lines-entries es _ h.1

with_packages-onto :
    (es : List Entry) (m : Modules) (behind : List ParsedModule)
    → with_packages (onto es m) behind ≡ with_packages m (used_modules es ++ behind)
unfolding onto with_packages
with_packages-onto [] m behind = refl
with_packages-onto (e ∷ es) m behind =
    with_packages-onto es ((module_listed e.listed, some_of e.packages) ∷ m) behind ∙ ground arith

-- What `go mod vendor` writes for modules, with words as their names, versions and paths, no
-- version `=>`, markers behind `##`, and packages whose lines do not begin with `#`, is read as the
-- modules that have packages, in their order, with their versions and replacements.
pub parse_vendor-print :
    (es : List Entry)
    → AllEntries es
    → parse_vendor (some (print_entries es)) ≡ ok (used_modules es)
unfolding parse_vendor
parse_vendor-print es h =
    rw (read_lines-entries es [] h)
      (ap ok (with_packages-onto es [] [] ∙ unfold with_packages in append-nil (used_modules es)))
