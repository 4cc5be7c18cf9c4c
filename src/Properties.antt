-- ===== src/Properties.antt =====
-- hermeto/core/models/property_semantics.py: the properties of a component, and what they mean
-- together. A `frozenset` is a strictly ascending list, a truth test on a text is `!= ""`.
mod Collect
pub mod Combined
mod Listed
pub mod Merge
pub mod RoundTrip
use mathlib.Core.List.{foldl, map}
use cachi.Base.{
  String, ◌<>◌, Bool, true, false, not, ◌&&◌, ◌||◌, Option, none, some, List, [], ◌∷◌, ◌++◌, ◌≡◌,
  ◌==◌, string_eq, Eq, Ord, str_lt, str_lt_asym, str_lt_trans, str_lt_connex, if◌then◌else◌,
  string_ord, arith,
}
use cachi.Base.Sort.{sort_by}
use cachi.Base.Sets.{union, set_of}

pub data PropertyEnum : Type 0 where
  bundler_package_binary npm_package_bundled npm_package_development found_by : PropertyEnum
  missing_hash_in_file pip_package_binary pip_package_build_dependency : PropertyEnum
  rpm_modularity_label rpm_summary : PropertyEnum

-- `str(name)`: the enumeration's value, where `app` is `APP_NAME`, which depends on the command.
unfoldable pub enum_value : String → PropertyEnum → String
enum_value app bundler_package_binary = app <> ":bundler:package:binary"
enum_value app npm_package_bundled = "cdx:npm:package:bundled"
enum_value app npm_package_development = "cdx:npm:package:development"
enum_value app found_by = app <> ":found_by"
enum_value app missing_hash_in_file = app <> ":missing_hash:in_file"
enum_value app pip_package_binary = app <> ":pip:package:binary"
enum_value app pip_package_build_dependency = app <> ":pip:package:build-dependency"
enum_value app rpm_modularity_label = app <> ":rpm_modularity_label"
enum_value app rpm_summary = app <> ":rpm_summary"

pub record Property : Type 0 where
  pub name : PropertyEnum
  pub value : String

string_discrete : Discrete String
string_discrete = string_eq.dec

unfoldable pub property_discrete : Discrete Property
unfolding string_discrete
property_discrete = hlevel string_discrete

instance unfoldable pub property_eq : Eq Property
property_eq = record { dec = property_discrete }

pub record PropertySet : Type 0 where
  pub bundler_package_binary : Bool
  pub found_by : Option String
  pub missing_hash_in_file : List String
  pub npm_bundled : Bool
  pub npm_development : Bool
  pub pip_build_dependency : Bool
  pub pip_package_binary : Bool
  pub rpm_modularity_label : String
  pub rpm_summary : String

-- `PropertySet()`: the defaults of the fields, and the values before the loop.
abbrev pub empty : PropertySet
empty = record {
  bundler_package_binary = false;
  found_by = none;
  missing_hash_in_file = [];
  npm_bundled = false;
  npm_development = false;
  pip_build_dependency = false;
  pip_package_binary = false;
  rpm_modularity_label = "";
  rpm_summary = "";
}

-- One round of the loop of `from_properties`; the list of missing hashes grows at its end.
unfoldable pub read_property : PropertySet → Property → PropertySet
read_property s p = elim p.name [
  | bundler_package_binary ↦ record s { bundler_package_binary = true }
  | npm_package_bundled ↦ record s { npm_bundled = true }
  | npm_package_development ↦ record s { npm_development = true }
  | found_by ↦ record s { found_by = some p.value }
  | missing_hash_in_file ↦ record s {
    missing_hash_in_file = s.missing_hash_in_file ++ p.value ∷ [];
  }
  | pip_package_binary ↦ record s { pip_package_binary = true }
  | pip_package_build_dependency ↦ record s { pip_build_dependency = true }
  | rpm_modularity_label ↦ record s { rpm_modularity_label = p.value }
  | rpm_summary ↦ record s { rpm_summary = p.value }
]

unfoldable pub from_properties : List Property → PropertySet
unfolding read_property
from_properties props =
    let read = foldl read_property empty props in
    record read { missing_hash_in_file = set_of read.missing_hash_in_file }

abbrev pub flag : Bool → PropertyEnum → List Property
flag b name = if b then record { name = name; value = "true" } ∷ [] else []

abbrev pub text : String → PropertyEnum → List Property
text s name = if s == "" then [] else record { name = name; value = s } ∷ []

abbrev pub maybe_text : Option String → PropertyEnum → List Property
maybe_text none name = []
maybe_text (some s) name = text s name

abbrev pub missing : List String → List Property
missing = map (λ filepath. record { name = missing_hash_in_file; value = filepath })

-- `props` before it is sorted.
unfoldable pub list_properties : PropertySet → List Property
list_properties s =
    flag s.bundler_package_binary bundler_package_binary
    ++ (maybe_text s.found_by found_by
        ++ (missing s.missing_hash_in_file
            ++ (flag s.npm_bundled npm_package_bundled
                ++ (flag s.npm_development npm_package_development
                    ++ (flag s.pip_build_dependency pip_package_build_dependency
                        ++ (flag s.pip_package_binary pip_package_binary
                            ++ (text s.rpm_modularity_label rpm_modularity_label
                                ++ text s.rpm_summary rpm_summary)))))))

-- The key `(p.name, p.value)` of the sort.
abbrev pub Key : Type 0
Key = String × String

abbrev pub property_key : String → Property → Key
property_key app p = (enum_value app p.name, p.value)

abbrev pub key_lt : Key → Key → Bool
key_lt (m, s) (n, t) = if str_lt m n then true else if str_lt n m then false else str_lt s t

pub key_lt_asym : (a b : Key) → key_lt a b ≡ true → key_lt b a ≡ false
key_lt_asym (m, s) (n, t) h = ground (arith, str_lt_asym m n, str_lt_asym s t)

pub key_lt_trans : (a b c : Key) → key_lt a b ≡ true → key_lt b c ≡ true → key_lt a c ≡ true
key_lt_trans (m, s) (n, t) (o, u) h k = ground (
  arith,
  str_lt_trans m n o,
  str_lt_asym m n,
  str_lt_asym n o,
  str_lt_asym m o,
  str_lt_trans s t u,
  str_lt_connex m n,
  str_lt_connex n o,
  str_lt_trans n o m,
  str_lt_trans o m n,
)

pub key_lt_connex : (a b : Key) → key_lt a b ≡ false → key_lt b a ≡ false → a ≡ b
key_lt_connex (m, s) (n, t) h k = ground (arith, str_lt_connex m n, str_lt_connex s t)

instance unfoldable pub key_ord : Ord Key
key_ord = record { lt = key_lt; asym = key_lt_asym; trans = key_lt_trans; connex = key_lt_connex }

unfoldable pub to_properties : String → PropertySet → List Property
unfolding list_properties
to_properties app s = sort_by (property_key app) (list_properties s)

-- `a or b`, on `str` and on `str | None`.
abbrev pub or_str : String → String → String
or_str a b = if a == "" then b else a

abbrev pub or_maybe : Option String → Option String → Option String
or_maybe none b = b
or_maybe (some a) b = if a == "" then b else some a

unfoldable pub merge : PropertySet → PropertySet → PropertySet
merge a b = record {
  bundler_package_binary = a.bundler_package_binary || b.bundler_package_binary;
  found_by = or_maybe a.found_by b.found_by;
  missing_hash_in_file = union a.missing_hash_in_file b.missing_hash_in_file;
  npm_bundled = a.npm_bundled && b.npm_bundled;
  npm_development = a.npm_development && b.npm_development;
  pip_build_dependency = a.pip_build_dependency && b.pip_build_dependency;
  pip_package_binary = a.pip_package_binary || b.pip_package_binary;
  rpm_modularity_label = or_str a.rpm_modularity_label b.rpm_modularity_label;
  rpm_summary = or_str a.rpm_summary b.rpm_summary;
}
