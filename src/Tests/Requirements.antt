-- ===== src/Tests/Requirements.antt =====
-- Runs and instances for hermeto/core/package_managers/pip/requirements.py.
use cachi.Base.{
  String, Bool, true, false, none, some, List, [], ◌∷◌, ◌++◌, ◌≡◌, refl, string_eq, char_eq,
  string_ord, arith, inl,
}
use cachi.Base.Text.{join, startswith}
use cachi.Base.Text.Words.{is_word, is_word-IsWord}
use cachi.Errors.{ok, err, index_error, unexpected_format}
use cachi.Pip.External.{External}
use cachi.Pip.Options.{split_options_and_requirement, split_hashes_from_options, requires_value}
use cachi.Pip.Options.Grammar.{IsOptionList, split_options_and_requirement-IsOptionList}
use cachi.Pip.Requirement.{PipRequirement, pypi, requirement_str}
use cachi.Pip.RoundTrip.{split_options-requirement_str, split_hashes-hash_options}
use cachi.Pip.Tokens.{hash_options}
use cachi.Pip.Global.{process_requirements_options}
use cachi.Pip.Global.Items.{plain, valued, render, expected, Item}
use cachi.Pip.Global.Outcome.{
  process_requirements_options-expected, process_requirements_options-IndexError,
}
use cachi.Pip.Validate.{validate_requirements}
use cachi.Pip.Validate.Accepts.{AllAcceptable}
use cachi.Pip.Validate.Requirements.{validate_requirements-AllAcceptable}

abbrev line : String
line = "foo==1.0 --hash=sha256:ab  --hash sha256:cd"

split_line :
    split_options_and_requirement line
    ≡ ok ([], "--hash" ∷ "sha256:ab" ∷ "--hash" ∷ "sha256:cd" ∷ [], "foo==1.0")
unfolding split_options_and_requirement requires_value string_eq char_eq startswith
    cachi.Base.Text.cut join
split_line = refl

unknown_option : split_options_and_requirement "--frobnicate foo" ≡ err unexpected_format
unfolding split_options_and_requirement requires_value string_eq char_eq startswith
    cachi.Base.Text.cut join
unknown_option = refl

IsOptionList_example :
    IsOptionList false [] × IsOptionList true ("--hash" ∷ "sha256:ab" ∷ "--hash" ∷ "sha256:cd" ∷ [])
IsOptionList_example =
    split_options_and_requirement-IsOptionList line []
      ("--hash" ∷ "sha256:ab" ∷ "--hash" ∷ "sha256:cd" ∷ []) "foo==1.0" split_line

abbrev foo : PipRequirement
foo = record {
  package_name = "foo";
  raw_package = "foo";
  extras = [];
  version_specs = ("==", "1") ∷ [];
  environment_marker = none;
  hashes = "sha256:ab" ∷ [];
  qualifiers = [];
  kind = pypi;
  download_line = "foo ==1";
  options = "-e" ∷ [];
}

split_foo :
    split_options_and_requirement (requirement_str foo)
    ≡ ok ([], "-e" ∷ "--hash" ∷ "sha256:ab" ∷ [], "foo ==1")
unfolding is_word string_eq char_eq startswith join hash_options
split_foo =
    split_options-requirement_str foo "foo" ("==1" ∷ []) refl
      (is_word-IsWord "foo" refl, (is_word-IsWord "==1" refl, tt)) (refl, (refl, tt)) (refl, tt)
      (is_word-IsWord "sha256:ab" refl, tt)

split_hashes_example :
    split_hashes_from_options ("-e" ∷ hash_options ("sha256:ab" ∷ []))
    ≡ ("sha256:ab" ∷ [], "-e" ∷ [])
unfolding string_eq
split_hashes_example = split_hashes-hash_options ("-e" ∷ []) ("sha256:ab" ∷ []) (refl, tt)

abbrev items : List Item
items = plain "--pre" ∷ valued "-i" "https://a" ∷ valued "--trusted-host" "b" ∷ []

expected_example : process_requirements_options (render items) ≡ expected items
unfolding requires_value string_eq char_eq startswith
expected_example =
    process_requirements_options-expected items (refl, ((refl, refl), ((refl, refl), tt)))

IndexError_example :
    process_requirements_options (render items ++ "-c" ∷ "--trusted-host" ∷ []) ≡ err index_error
unfolding requires_value string_eq char_eq startswith
IndexError_example =
    process_requirements_options-IndexError items (refl, ((refl, refl), ((refl, refl), tt)))

-- A line that the splitter accepts, and whose options end in the error.
constraint_line :
    split_options_and_requirement "-c --trusted-host" ≡ ok ("-c" ∷ "--trusted-host" ∷ [], [], "")
unfolding split_options_and_requirement requires_value string_eq char_eq startswith
    cachi.Base.Text.cut join
constraint_line = refl

abbrev library : External
library = record {
  urlparse = λ link. ok (record {
    scheme = "https";
    netloc = "";
    path = link;
    params = "";
    query = "";
    fragment = "";
  });
  unquote = λ s. s;
  parse = λ s. none;
  canonicalize_name = λ s. s;
}

validate_example : AllAcceptable library (foo ∷ [])
unfolding validate_requirements string_eq
validate_example = validate_requirements-AllAcceptable library (foo ∷ []) refl
