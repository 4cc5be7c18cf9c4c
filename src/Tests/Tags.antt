-- ===== src/Tests/Tags.antt =====
-- Runs and an instance for the version resolver of the Go modules.
use Prim.Native.Nat.{◌/◌}
use cachi.Base.{
  ℕ, ◌+◌, String, ◌<>◌, Bool, true, false, none, some, List, [], ◌∷◌, ◌≡◌, ◌==◌, refl, string_eq,
  char_eq, nat_eq, if◌then◌else◌,
}
use cachi.Errors.{Result, ok, err, value_error}
use cachi.RootedPath.{RootedPath}
use cachi.Gomod.Majors.{module_major_version}
use cachi.Gomod.Tags.{SemanticVersions, Commit, get_highest_semver_tag, get_golang_version}
use cachi.Gomod.Highest.{IsHighest, get_highest_semver_tag-IsHighest}
use cachi.Tests.Gomod.{nat_order}

-- Versions with two numbers, as one number.
abbrev pub parse_semantic : String → Result ℕ
parse_semantic s =
    if s == "0.9.0"
    then ok 9
    else if s == "1.0.0"
    then ok 10
    else if s == "1.2.0"
    then ok 12
    else err value_error

abbrev pub text_of_semantic : ℕ → String
text_of_semantic n = if n == 13 then "1.2.1" else "1.0.1"

abbrev pub semantic : SemanticVersions
semantic = record {
  Version = ℕ;
  order = nat_order;
  parse = parse_semantic;
  text = text_of_semantic;
  major = λ n. n / 10;
  has_prerelease = λ n. false;
  bump_patch = λ n. n + 1;
}

abbrev pub tags : List String
tags = "v1.0.0" ∷ "version" ∷ "v1.2.0" ∷ "v0.9.0" ∷ "a/v1.0.0" ∷ []

found_tag : get_highest_semver_tag semantic "" 1 tags ≡ ok (some "v1.2.0")
unfolding get_highest_semver_tag string_eq char_eq nat_eq
found_tag = refl

found_tag_example : IsHighest semantic "" 1 tags (some "v1.2.0")
found_tag_example = get_highest_semver_tag-IsHighest semantic "" 1 tags found_tag

abbrev app : RootedPath
app = record {
  root = record { absolute = true; parts = "src" ∷ [] };
  path = record { absolute = true; parts = "src" ∷ "a" ∷ [] };
}

abbrev pub head : List String → List String → Commit
head on_commit reachable = record {
  hexsha = "0123456789abcdef";
  timestamp = "20260101000000";
  commit_tags = ok on_commit;
  all_tags = ok reachable;
}

majors : module_major_version "ex.com/a/v12" ≡ some 12
unfolding module_major_version string_eq char_eq nat_eq
majors = refl

no_major : module_major_version "/v2" ≡ none
unfolding module_major_version string_eq char_eq nat_eq
no_major = refl

tagged : get_golang_version semantic (head tags []) "ex.com/a" app ≡ ok "v1.0.0"
unfolding get_golang_version string_eq char_eq nat_eq cachi.Base.bool_eq cachi.Base.Text.join
tagged = refl

reachable :
    get_golang_version semantic (head [] tags) "ex.com/a" app
    ≡ ok "v1.0.1-0.20260101000000-0123456789ab"
unfolding get_golang_version string_eq char_eq nat_eq cachi.Base.bool_eq cachi.Base.Text.join
reachable = refl

untagged :
    get_golang_version semantic (head [] []) "ex.com/a/v2" app
    ≡ ok "v2.0.0-20260101000000-0123456789ab"
unfolding get_golang_version string_eq char_eq nat_eq cachi.Base.bool_eq cachi.Base.Text.join
untagged = refl
