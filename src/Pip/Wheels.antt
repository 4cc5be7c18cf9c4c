-- ===== src/Pip/Wheels.antt =====
-- hermeto/core/package_managers/pip/package_distributions.py: `WheelsFilter`.
use Prim.Native.String.{[] as ε, ◌∷◌ as ◌▹◌}
use mathlib.Core.List.{map}
use cachi.Base.{
  ℕ, ◌+◌, ◌*◌, ◌-◌, String, code, Bool, true, false, ◌&&◌, ◌||◌, Option, none, some, List, [], ◌∷◌,
  ◌==◌, string_eq, nat_eq, if◌then◌else◌, contains, leb, ltb,
}
use cachi.Base.Text.{split_on, has_text}
use cachi.Errors.{Result, ok, err, ◌>>=◌, runtime_error}
use cachi.Input.Filters.{PipBinaryFilters}
use cachi.BinaryFilters.{parse_filter_spec}

-- `packaging.tags.Tag`
pub record Tag : Type 0 where
  pub interpreter : String
  pub abi : String
  pub platform : String

-- `canonicalize_name`, the tags of `parse_wheel_filename`, which has none for a name that is
-- invalid, and whether `re.search` finds a pattern in a text.
pub record Packaging : Type 0 where
  pub canonicalize_name : String → String
  pub wheel_tags : String → Option (List Tag)
  pub search : String → String → Bool

pub record WheelsFilter : Type 0 where
  pub packages : Option (List String)
  pub arch : Option (List String)
  pub os : Option (List String)
  pub py_version : Option ℕ
  pub py_impl : Option (List String)
  pub abi : Option (List String)
  pub platform_regex : Option String

-- `WheelsFilter(filters)`
unfoldable pub wheels_filter : Packaging → PipBinaryFilters → WheelsFilter
unfolding parse_filter_spec
wheels_filter lib filters = record {
  packages = elim (parse_filter_spec filters.packages) [
    | none ↦ none
    | some packages ↦ some (map lib.canonicalize_name packages)
  ];
  arch = parse_filter_spec filters.arch;
  os = parse_filter_spec filters.os;
  py_version = filters.py_version;
  py_impl = parse_filter_spec filters.py_impl;
  abi = parse_filter_spec filters.abi;
  platform_regex = filters.platform;
}

-- `any(v in s for v in values)`, where no value is empty
unfoldable pub any_in : List String → String → Bool
unfolding has_text
any_in [] s = false
any_in (v ∷ values) s = has_text v s || any_in values s

-- The values of a field that is not given are all.
abbrev pub all_or : Option (List String) → (List String → Bool) → Bool
all_or none test = true
all_or (some values) test = test values

unfoldable pub compatible_tag_platform : Packaging → WheelsFilter → String → Bool
unfolding any_in
compatible_tag_platform lib f platform = elim f.platform_regex [
  | some regex ↦ lib.search regex platform
  | none ↦
      all_or f.arch (λ arch. platform == "any" || any_in arch platform)
      && all_or f.os (λ os. platform == "any" || any_in os platform)
]

unfoldable pub compatible_tag_abi : WheelsFilter → String → Bool
unfolding any_in
compatible_tag_abi f abi =
    all_or f.abi (λ abis. contains ("abi3" ∷ "none" ∷ []) abi || any_in abis abi)

-- `int(digits)`, behind the number that is read, if all characters are digits of ASCII
unfoldable pub digits_from : ℕ → String → Option ℕ
digits_from n ε = some n
digits_from n (c ▹ s) =
    let rest = digits_from (n * 10 + (code c - b'0')) s in
    if leb b'0' (code c) && leb (code c) b'9' then rest else none

-- `[a-z]+(\d+)`, where `named` says that a letter stands in front
unfoldable pub version_part : Bool → String → Option ℕ
unfolding digits_from
version_part named ε = none
version_part named (c ▹ s) =
    let letters = version_part true s in
    if leb b'a' (code c) && leb (code c) b'z'
    then letters
    else if named
    then digits_from 0 (c ▹ s)
    else none

unfoldable pub part_versions : List String → List ℕ
unfolding version_part
part_versions [] = []
part_versions (p ∷ parts) =
    let rest = part_versions parts in
    elim (version_part false p) [ none ↦ rest | some v ↦ v ∷ rest ]

unfoldable pub max_from : ℕ → List ℕ → ℕ
max_from best [] = best
max_from best (v ∷ versions) = max_from (if ltb best v then v else best) versions

-- `_parse_py_version`
unfoldable pub parse_py_version : String → Result ℕ
unfolding part_versions max_from split_on
parse_py_version interpreter = elim (part_versions (split_on "." interpreter)) [
  | [] ↦ err runtime_error
  | v ∷ versions ↦ ok (max_from v versions)
]

-- `_compatible_tag_interpreter`
unfoldable pub compatible_tag_interpreter : WheelsFilter → String → String → Result Bool
unfolding parse_py_version any_in has_text
compatible_tag_interpreter f interpreter abi = parse_py_version interpreter >>= λ wheel_py_version.
    ok (
      all_or f.py_impl (λ impls. has_text "py3" interpreter || any_in impls interpreter)
      && (elim f.py_version [
        | none ↦ true
        | some v ↦
            wheel_py_version == v || ltb wheel_py_version v && contains ("abi3" ∷ "none" ∷ []) abi
      ]))

-- `_matches_filter_constraints`
unfoldable pub matches_filter_constraints : Packaging → WheelsFilter → Tag → Result Bool
unfolding compatible_tag_interpreter compatible_tag_abi compatible_tag_platform
matches_filter_constraints lib f tag =
    compatible_tag_interpreter f tag.interpreter tag.abi >>= λ compatible.
    ok (compatible && (compatible_tag_abi f tag.abi && compatible_tag_platform lib f tag.platform))

-- The tags of a wheel, in some order, up to the first one that matches.
unfoldable pub any_matches : Packaging → WheelsFilter → List Tag → Result Bool
unfolding matches_filter_constraints
any_matches lib f [] = ok false
any_matches lib f (t ∷ tags) =
    let rest = any_matches lib f tags in
    matches_filter_constraints lib f t >>= λ matches. if matches then ok true else rest

-- `wheel in self`, on the name of its file
unfoldable pub accepts : Packaging → WheelsFilter → String → Result Bool
unfolding any_matches
accepts lib f filename = elim (lib.wheel_tags filename) [
  | none ↦ ok false
  | some tags ↦ any_matches lib f tags
]
