-- ===== src/Input/Options.antt =====
-- hermeto/core/models/input.py: `SslOptions` and `ExtraOptions`.
use cachi.Base.{
  String, Bool, false, not, ◌&&◌, ◌||◌, Option, none, some, List, [], ◌∷◌, ◌==◌, string_eq, nat_eq,
  option_eq, if◌then◌else◌,
}
use cachi.Errors.{Result, ok, err, ◌>>=◌, value_error}

pub record SslOptions : Type 0 where
  pub client_cert : Option String
  pub client_key : Option String
  pub ca_bundle : Option String
  pub ssl_verify : Bool

-- `is_file` is `Path.is_file`, on the text of a path.
unfoldable pub validate_auth_file_path : (String → Bool) → Option String → Result (Option String)
validate_auth_file_path is_file none = ok none
validate_auth_file_path is_file (some val) = if is_file val then ok (some val) else err value_error

-- Whether an optional text is there and not empty: Python's truth.
abbrev pub truth : Option String → Bool
truth none = false
truth (some s) = not (s == "")

unfoldable pub validate_ssl_options : SslOptions → Result SslOptions
validate_ssl_options s =
    if (truth s.client_cert || truth s.client_key)
      && not (truth s.client_cert && truth s.client_key)
    then err value_error
    else ok s

-- A value of the `dnf` options: a dict, of which the values are texts here, or something else.
pub data DnfValue : Type 0 where
  other : String → DnfValue
  dict : List (String × String) → DnfValue

pub data DnfOptions : Type 0 where
  no_dict : String → DnfOptions
  sections : List (String × DnfValue) → DnfOptions

pub record ExtraOptions : Type 0 where
  pub dnf : Option DnfOptions
  pub ssl : Option SslOptions

unfoldable pub validate_sections : List (String × DnfValue) → Result (Unit {0})
validate_sections [] = ok tt
validate_sections ((repo, other text) ∷ dnf_opts) = err value_error
validate_sections ((repo, dict options) ∷ dnf_opts) = validate_sections dnf_opts

-- `_validate_dnf_options`
unfoldable pub validate_dnf_options : ExtraOptions → Result ExtraOptions
unfolding validate_sections
validate_dnf_options data_ = elim data_.dnf [
  | none ↦ ok data_
  | some (no_dict text) ↦ err value_error
  | some (sections dnf_opts) ↦ validate_sections dnf_opts >>= λ _. ok data_
]
