-- ===== src/Input/Filters.antt =====
-- hermeto/core/models/input.py: the binary filters, and the field `allow_binary` that they replace.
use cachi.Base.{
  String, Bool, false, not, ◌||◌, Option, none, some, List, [], ◌∷◌, ◌++◌, ◌==◌, string_eq, nat_eq,
  option_eq, if◌then◌else◌, contains, ℕ,
}
use cachi.Base.Text.{split_on, strip, join}
use cachi.Errors.{Result, ok, err, ◌>>=◌, value_error, invalid_input}

-- `parse_user_input`, on the outcome of the validation.
unfoldable pub parse_user_input {ℓ κ} : {T : Type ℓ} {M : Type κ} → (T → Result M) → T → Result M
parse_user_input to_model input_obj = elim (to_model input_obj) [
  | ok m ↦ ok m
  | err value_error ↦ err invalid_input
  | err e ↦ err e
]

abbrev pub binary_filter_all : String
binary_filter_all = ":all:"

-- `dict.fromkeys(…)`, on the stripped items that are not empty: each once, in order.
unfoldable pub add_filter : List String → String → List String
add_filter filters item =
    if strip item == ""
    then filters
    else if contains filters (strip item)
    then filters
    else filters ++ strip item ∷ []

unfoldable pub unique_stripped_filters : List String → List String → List String
unfolding add_filter
unique_stripped_filters filters [] = filters
unique_stripped_filters filters (item ∷ items) =
    unique_stripped_filters (add_filter filters item) items

unfoldable pub validate_binary_filter_format : String → Result String
unfolding unique_stripped_filters split_on
validate_binary_filter_format value = elim (unique_stripped_filters [] (split_on "," value)) [
  | [] ↦ err value_error
  | f ∷ filters ↦ ok (join "," (f ∷ filters))
]

pub record PipBinaryFilters : Type 0 where
  pub packages : String
  pub arch : String
  pub os : String
  pub py_version : Option ℕ
  pub py_impl : String
  pub abi : String
  pub platform : Option String

pub record BundlerBinaryFilters : Type 0 where
  pub packages : String
  pub platform : String

pub record RpmBinaryFilters : Type 0 where
  pub arch : String

-- `_validate_platform`, where `compiles` tells whether `re.compile` accepts the text.
unfoldable pub validate_platform : (String → Bool) → Option String → Result (Option String)
validate_platform compiles none = ok none
validate_platform compiles (some value) =
    if compiles value then ok (some value) else err value_error

unfoldable pub validate_platform_exclusivity : PipBinaryFilters → Result PipBinaryFilters
validate_platform_exclusivity f = elim f.platform [
  | none ↦ ok f
  | some _ ↦ if not (f.os == "linux") || not (f.arch == "x86_64") then err value_error else ok f
]

-- A construction of the filters from the given fields.
unfoldable pub validate_pip_filters : (String → Bool) → PipBinaryFilters → Result PipBinaryFilters
unfolding validate_binary_filter_format validate_platform validate_platform_exclusivity
validate_pip_filters compiles f = do
  packages ← validate_binary_filter_format f.packages
  arch ← validate_binary_filter_format f.arch
  os ← validate_binary_filter_format f.os
  py_impl ← validate_binary_filter_format f.py_impl
  abi ← validate_binary_filter_format f.abi
  platform ← validate_platform compiles f.platform
  validate_platform_exclusivity (record {
    packages = packages;
    arch = arch;
    os = os;
    py_version = f.py_version;
    py_impl = py_impl;
    abi = abi;
    platform = platform;
  })

abbrev pub default_pip_filters : PipBinaryFilters
default_pip_filters = record {
  packages = binary_filter_all;
  arch = "x86_64";
  os = "linux";
  py_version = none;
  py_impl = "cp";
  abi = binary_filter_all;
  platform = none;
}

-- `PipBinaryFilters.with_allow_binary_behavior`, before the validators, which keep it as it is.
abbrev pub pip_allow_binary : PipBinaryFilters
pip_allow_binary = record default_pip_filters {
  arch = binary_filter_all;
  os = binary_filter_all;
  py_impl = binary_filter_all;
}

-- `BundlerBinaryFilters.with_allow_binary_behavior`
abbrev pub bundler_allow_binary : BundlerBinaryFilters
bundler_allow_binary = record { packages = binary_filter_all; platform = binary_filter_all }

-- The two fields that `_handle_legacy_allow_binary` reads and sets.
pub record Legacy {ℓ} (F : Type ℓ) : Type ℓ where
  pub allow_binary : Bool
  pub binary : Option F

unfoldable pub handle_legacy_allow_binary {ℓ} : {F : Type ℓ} → Legacy F → F → Legacy F
handle_legacy_allow_binary instance_ behavior =
    if instance_.allow_binary
    then record {
      allow_binary = false;
      binary = elim instance_.binary [ some filters ↦ some filters | none ↦ some behavior ];
    }
    else instance_
