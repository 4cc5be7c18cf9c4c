-- ===== src/Tests/Paths.antt =====
-- Runs and instances for hermeto/core/rooted_path.py, checksum.py and models/input.py.
use cachi.Base.Members.{Among}
use cachi.Base.{
  ℕ, String, ◌<>◌, Char, Bool, true, false, none, some, List, [], ◌∷◌, ◌++◌, ◌≡◌, ◌≢◌, refl,
  string_eq, char_eq, string_ord, arith, bool_eq, nat_eq, if◌then◌else◌, ◌==◌, ◌||◌, contains,
  append_assoc, append-nil,
}
use cachi.BinaryFilters.{validate_and_filter}
use cachi.BinaryFilters.Satisfied.{contains-validate_and_filter}
use cachi.Errors.{type_error, Result, ok, err, path_outside_root, checksum_verification_failed}
use cachi.RootedPath.{
  PurePath, RootedPath, join_within_root, re_root, Reaches, stop, then_re_root, then_join,
}
use cachi.RootedPath.Confined.{IsBelow, Reaches-IsBelow}
use cachi.Checksum.{ChecksumInfo, Hashlib, get_hexdigest, must_match_any_checksum}
use cachi.Checksum.Chunks.{Streams, get_hexdigest-whole}
use cachi.Checksum.Verify.{any_matches, must_match_any_checksum-any_matches}
use cachi.Input.Package.{PackageInput, npm_details, package_key, package_eq, key_eq}
use cachi.Input.Request.{validate_packages}
use cachi.Input.Packages.{AllInside, validate_packages-AllInside}
use cachi.Validators.{unique}
use cachi.Validators.Unique.{AllFound, unique-AllFound}

abbrev absolute : List String → PurePath
absolute parts = record { absolute = true; parts = parts }

abbrev relative : List String → PurePath
relative parts = record { absolute = false; parts = parts }

-- A file system without symbolic links, on paths without `..`.
abbrev plain_resolve : PurePath → Result PurePath
plain_resolve path = ok path

abbrev source : RootedPath
source = record { root = absolute ("src" ∷ []); path = absolute ("src" ∷ []) }

abbrev vendored : RootedPath
vendored = record { root = absolute ("src" ∷ []); path = absolute ("src" ∷ "vendor" ∷ []) }

outside : join_within_root plain_resolve source (absolute ("etc" ∷ []) ∷ []) ≡ err path_outside_root
unfolding join_within_root re_root cachi.RootedPath.is_relative_to cachi.RootedPath.join_path
    string_eq bool_eq
outside = refl

join_vendor : join_within_root plain_resolve source (relative ("vendor" ∷ []) ∷ []) ≡ ok vendored
unfolding join_within_root string_eq bool_eq
join_vendor = refl

Reaches_example : IsBelow vendored.root vendored.path × IsBelow source.root vendored.root
Reaches_example =
    Reaches-IsBelow plain_resolve (record { rest = []; absolute = refl; parts = refl })
      (then_join (relative ("vendor" ∷ []) ∷ []) stop join_vendor)

abbrev sha : ChecksumInfo
sha = record { algorithm = "sha256"; hexdigest = "ab" }

abbrev is_nil : List Char → Bool
is_nil [] = true
is_nil (b ∷ l) = false

-- A hash that keeps the bytes, and whose digest is `ab` or empty.
abbrev collect : Hashlib (List Char)
collect = record {
  guaranteed = λ algorithm. algorithm == "sha256";
  new = λ algorithm. [];
  update = λ h bytes. h ++ bytes;
  hexdigest = λ h. ok (if is_nil h then "" else "ab");
}

streams : Streams collect
streams = record { twice = append_assoc; nothing = append-nil }

whole_example :
    get_hexdigest collect ("a" ∷ "b" ∷ "c" ∷ []) "sha256" 2
    ≡ collect.hexdigest (collect.update (collect.new "sha256") ("a" ∷ "b" ∷ "c" ∷ []))
whole_example = get_hexdigest-whole collect streams ("a" ∷ "b" ∷ "c" ∷ []) "sha256" 1

-- A hash of variable length among the algorithms, whose digest raises.
abbrev guaranteed_ones : Hashlib Bool
guaranteed_ones = record {
  guaranteed = λ algorithm. algorithm == "sha256" || algorithm == "shake_128";
  new = λ algorithm. algorithm == "shake_128";
  update = λ variable_length bytes. variable_length;
  hexdigest = λ variable_length. if variable_length then err type_error else ok "ab";
}

abbrev other : ChecksumInfo
other = record { algorithm = "unknown"; hexdigest = "00" }

digests_example : must_match_any_checksum guaranteed_ones ("a" ∷ []) (other ∷ sha ∷ []) 4 ≡ (
    if any_matches guaranteed_ones (λ a. "ab") (other ∷ sha ∷ [])
    then ok tt
    else err checksum_verification_failed)
unfolding get_hexdigest string_eq
digests_example =
    must_match_any_checksum-any_matches guaranteed_ones (λ a. "ab") ("a" ∷ []) (other ∷ sha ∷ []) 4
      ((λ g. refl), ((λ g. refl), tt))

abbrev packages : List PackageInput
packages =
    record { path = relative ("a" ∷ []); details = npm_details }
    ∷ record { path = relative ("b" ∷ []); details = npm_details }
    ∷ record { path = relative ("a" ∷ []); details = npm_details }
    ∷ []

abbrev kept : List PackageInput
kept =
    record { path = relative ("a" ∷ []); details = npm_details }
    ∷ record { path = relative ("b" ∷ []); details = npm_details }
    ∷ []

unique_packages : unique package_key packages true ≡ ok kept
unfolding unique key_eq package_eq package_key string_eq
unique_packages = refl

unique_example : AllFound package_key packages kept × (unique package_key kept false ≡ ok kept)
unique_example = unique-AllFound package_key packages true unique_packages

valid_packages : validate_packages plain_resolve (λ p. true) source packages ≡ ok kept
unfolding validate_packages unique key_eq package_eq package_key string_eq bool_eq
valid_packages = refl

AllInside_example :
    (kept ≢ [])
    × ((p : PackageInput) → Among p kept → Among p packages)
    × AllFound package_key packages kept
    × (unique package_key kept false ≡ ok kept)
    × AllInside plain_resolve (λ p. true) source kept
AllInside_example =
    validate_packages-AllInside plain_resolve (λ p. true) source packages valid_packages

-- The architectures of a lockfile, by their names.
abbrev lockfile : List String
lockfile = "x86_64" ∷ "s390x" ∷ "aarch64" ∷ []

abbrev asked : List String
asked = "aarch64" ∷ "x86_64" ∷ []

filtered :
    validate_and_filter (λ (a : String). a) (some asked) lockfile ≡ ok ("x86_64" ∷ "aarch64" ∷ [])
unfolding validate_and_filter string_eq string_ord cachi.Base.Sets.union
filtered = refl

filter_example :
    contains {A = String} ("x86_64" ∷ "aarch64" ∷ []) "s390x" ≡ contains {A = String} asked "s390x"
unfolding string_eq
filter_example = contains-validate_and_filter (λ (a : String). a) asked lockfile "s390x" filtered
