-- ===== src/Tests/Gomod.antt =====
-- Runs and instances for the Go modules.
use Prim.Native.Nat.{◌/◌, ◌%◌, ◌*◌}
use cachi.Base.{
  ℕ, ◌+◌, String, ◌<>◌, Bool, true, false, Option, none, some, List, [], ◌∷◌, ◌≡◌, refl, string_eq,
  char_eq, bool_eq, nat_eq, arith, inl, inr, Ord, ltb, if◌then◌else◌, ◌==◌,
}
use cachi.Base.Dict.{keys_of}
use cachi.Base.Text.{join, startswith, split}
use cachi.Base.Text.Words.{is_word, is_word-IsWord}
use cachi.Errors.{Result, ok, err, value_error, unexpected_format}
use cachi.Gomod.Models.{ParsedPackage}
use cachi.Gomod.Vendor.{parse_vendor, parse_module_line, module_at}
use cachi.Gomod.Listed.{
  Entry, plain, version_at_path, IsEntry, print_entries, used_modules, parse_vendor-print,
}
use cachi.Gomod.Directives.{get_gomod_version, directive}
use cachi.Gomod.Toolchain.{Versions, Go, go_version, to_language_version, select_toolchain}
use cachi.Gomod.Selected.{Chosen, select_toolchain-Chosen}
use cachi.Gomod.Paths.{path_of, text_of}
use cachi.Gomod.Modules.{Module}
use cachi.Gomod.Packages.{Package, module_package, index_modules, create_packages_from_parsed_data}
use cachi.Gomod.Parents.{IsPlain}
use cachi.Gomod.Owners.{AllOwn, create_packages-own}

abbrev uuid : Entry
uuid = record {
  listed = plain "github.com/google/uuid" "v1.3.0";
  markers = " explicit; go 1.20" ∷ [];
  packages = "github.com/google/uuid" ∷ [];
}

abbrev local : Entry
local = record {
  listed = version_at_path "example.com/a" "v0.1.0" "./a";
  markers = [];
  packages = [];
}

-- What `go mod vendor` writes of the two modules.
abbrev modules_txt : List String
modules_txt =
    "# github.com/google/uuid v1.3.0" ∷ "## explicit; go 1.20" ∷ "github.com/google/uuid"
    ∷ "# example.com/a v0.1.0 => ./a" ∷ []

printed : print_entries (uuid ∷ local ∷ []) ≡ modules_txt
unfolding join
printed = refl

parsed_vendor :
    parse_vendor (some modules_txt) ≡ ok (module_at "github.com/google/uuid" (some "v1.3.0") ∷ [])
unfolding parse_vendor parse_module_line string_eq char_eq
parsed_vendor = refl

no_parent : parse_vendor (some ("a/b" ∷ [])) ≡ err unexpected_format
unfolding parse_vendor parse_module_line string_eq char_eq
no_parent = refl

word : (s : String) → is_word s ≡ true → cachi.Base.Text.Words.IsWord s
word s h = is_word-IsWord s h

uuid-IsEntry : IsEntry uuid
unfolding is_word string_eq char_eq startswith
uuid-IsEntry = record {
  words = (word "github.com/google/uuid" refl, (word "v1.3.0" refl, tt));
  no_arrow = tt;
  package_lines = (refl, tt);
}

local-IsEntry : IsEntry local
unfolding is_word string_eq char_eq
local-IsEntry = record {
  words =
      (word "example.com/a" refl, (word "v0.1.0" refl, (word "=>" refl, (word "./a" refl, tt))));
  no_arrow = refl;
  package_lines = tt;
}

vendor_example :
    parse_vendor (some (print_entries (uuid ∷ local ∷ []))) ≡ ok (used_modules (uuid ∷ local ∷ []))
vendor_example = parse_vendor-print (uuid ∷ local ∷ []) (uuid-IsEntry, (local-IsEntry, tt))

directives :
    get_gomod_version ("module a" ∷ "  go 1.21rc4 // x" ∷ "toolchain go1.22.3" ∷ [])
    ≡ (some "1.21rc4", some "1.22.3")
unfolding get_gomod_version string_eq char_eq nat_eq
directives = refl

-- The colon is let through.
colon : directive "go" "" "go 1.21:.5" ≡ some "1.21:.5"
unfolding directive string_eq char_eq nat_eq
colon = refl

pub nat_lt_trans : (a b c : ℕ) → ltb a b ≡ true → ltb b c ≡ true → ltb a c ≡ true
nat_lt_trans a b c h k = ground arith

pub nat_lt_asym : (a b : ℕ) → ltb a b ≡ true → ltb b a ≡ false
nat_lt_asym a b h = ground arith

pub nat_lt_connex : (a b : ℕ) → ltb a b ≡ false → ltb b a ≡ false → a ≡ b
nat_lt_connex a b h k = ground arith

abbrev pub nat_order : Ord ℕ
nat_order = record { lt = ltb; asym = nat_lt_asym; trans = nat_lt_trans; connex = nat_lt_connex }

-- Versions with two numbers, as one number.
abbrev pub parse_version : String → Result ℕ
parse_version s =
    if s == "1.20"
    then ok 120
    else if s == "1.21"
    then ok 121
    else if s == "1.22"
    then ok 122
    else if s == "1.25"
    then ok 125
    else err value_error

abbrev pub numbered : Versions
numbered = record {
  Version = ℕ;
  order = nat_order;
  parse = parse_version;
  text = λ n. "1.21";
  major = λ n. n / 100;
  minor = λ n. n % 100;
  release = λ m n. m * 100 + n;
}

abbrev pub go_at : String → ℕ → Go numbered
go_at binary n = record { binary = binary; version = ok n }

abbrev version_of : String → ℕ
version_of binary = if binary == "go20" then 120 else if binary == "go22" then 122 else 125

abbrev pub no_install : String → String → Result (Go numbered)
no_install release binary = err value_error

abbrev pub installed : List (Go numbered)
installed = go_at "go20" 120 ∷ go_at "go25" 125 ∷ go_at "go22" 122 ∷ []

selected :
    select_toolchain numbered no_install ("go 1.21" ∷ []) installed ≡ ok (some (go_at "go22" 122))
unfolding select_toolchain string_eq char_eq nat_eq
selected = refl

selected_example :
    Chosen numbered version_of no_install 121 121 installed (go_at "go22" 122)
    × (ltb (to_language_version numbered 125) (to_language_version numbered 121) ≡ false)
unfolding get_gomod_version go_version cachi.Gomod.Toolchain.target_version string_eq char_eq nat_eq
selected_example =
    select_toolchain-Chosen numbered version_of no_install ("go 1.21" ∷ []) installed
      (refl, (refl, (refl, tt))) refl refl refl selected

abbrev module_at_path : String → Module
module_at_path name = record {
  name = name;
  original_name = name;
  real_path = name;
  version = "v1.0.0";
  main = false;
  missing_hash_in_file = none;
}

abbrev go_modules : List Module
go_modules = module_at_path "ex.com/a" ∷ module_at_path "ex.com/a/b" ∷ []

abbrev package_at : String → ParsedPackage
package_at import_path = record { import_path = import_path; standard = false; parent = none }

abbrev go_packages : List ParsedPackage
go_packages = package_at "ex.com/a/b/c" ∷ package_at "ex.com/a" ∷ []

abbrev made_packages : List Package
made_packages =
    module_package "c" (module_at_path "ex.com/a/b")
    ∷ module_package "" (module_at_path "ex.com/a")
    ∷ []

made : create_packages_from_parsed_data go_modules go_packages ≡ ok made_packages
unfolding create_packages_from_parsed_data string_eq char_eq bool_eq cachi.Base.Text.join
made = refl

is_plain :
    (name : String)
    → text_of (path_of name) ≡ name
    → cachi.Gomod.Names.HasPart (path_of name).parts
    → IsPlain (module_at_path name)
is_plain name e p = record { same_name = refl; normal = e; has_part = p }

packages_example : AllOwn (keys_of (index_modules [] go_modules)) go_packages made_packages
unfolding path_of text_of string_eq char_eq startswith join
packages_example =
    create_packages-own go_modules go_packages
      (is_plain "ex.com/a" refl tt, (is_plain "ex.com/a/b" refl tt, tt))
      (
        record { normal = refl; dotless = (refl, (refl, (refl, (refl, tt)))) },
        (record { normal = refl; dotless = (refl, (refl, tt)) }, tt),
      )
      made

-- A part that begins with a dot loses it.
dotted :
    create_packages_from_parsed_data go_modules (package_at "ex.com/a/.x" ∷ [])
    ≡ ok (module_package "x" (module_at_path "ex.com/a") ∷ [])
unfolding create_packages_from_parsed_data string_eq char_eq bool_eq cachi.Base.Text.join
dotted = refl
