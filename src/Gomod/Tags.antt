-- ===== src/Gomod/Tags.antt =====
-- hermeto/core/package_managers/gomod.py: `ModuleVersionResolver`, on the tags of a repository.
use cachi.Base.{
  ℕ, String, ◌<>◌, Bool, Option, none, some, List, [], ◌∷◌, ◌==◌, Ord, string_eq, nat_eq,
  if◌then◌else◌,
}
use cachi.Base.Text.{startswith}
use cachi.Base.Text.Affixes.{drop}
use cachi.Errors.{Result, ok, err, ◌>>=◌, value_error}
use cachi.RootedPath.{RootedPath, relative_to}
use cachi.Gomod.Paths.{text_of}
use cachi.Gomod.Majors.{remove_text, module_major_version, major_versions_to_try, major_text, take}

-- `semver.version.Version`: its values, up to its `==`, with their order, its construction from a text, which raises
-- a `ValueError`, and its attributes and methods that are called.
pub record SemanticVersions : Type 1 where
  pub Version : Type 0
  pub order : Ord Version
  pub parse : String → Result Version
  pub text : Version → String
  pub major : Version → ℕ
  pub has_prerelease : Version → Bool
  pub bump_patch : Version → Version

-- The commit, with its tags as git gives them, and its time as `strftime` writes it.
pub record Commit : Type 0 where
  pub hexsha : String
  pub timestamp : String
  pub commit_tags : Result (List String)
  pub all_tags : Result (List String)

module _ (lib : SemanticVersions) where
  open lib use {Version, order, parse, text, major, has_prerelease, bump_patch}

  -- `_get_semantic_version_from_tag`; no subpath is the empty text.
  unfoldable pub get_semantic_version_from_tag : String → String → Result Version
  unfolding remove_text drop
  get_semantic_version_from_tag subpath tag_name =
      parse (if subpath == "" then drop 1 tag_name else remove_text (subpath <> "/v") tag_name)

  abbrev pub prefix_of : String → String
  prefix_of subpath = if subpath == "" then "v" else subpath <> "/v"

  -- `highest`
  abbrev pub Highest : Type 0
  Highest = Option (String × Version)

  abbrev pub better : Highest → String → Version → Highest
  better none tag v = some (tag, v)
  better (some (best, w)) tag v = if order.lt w v then some (tag, v) else some (best, w)

  -- A tag in the loop; an exception but the `ValueError` is raised.
  abbrev pub consider : ℕ → Highest → String → Result Version → Result Highest
  consider major_version highest tag (ok v) =
      ok (if major v == major_version then better highest tag v else highest)
  consider major_version highest tag (err value_error) = ok highest
  consider major_version highest tag (err e) = err e

  -- The loop of `_get_highest_semver_tag`, with its filter.
  unfoldable pub highest_from : String → ℕ → Highest → List String → Result Highest
  unfolding get_semantic_version_from_tag startswith
  highest_from subpath major_version highest [] = ok highest
  highest_from subpath major_version highest (tag ∷ tags) =
      (if startswith tag (prefix_of subpath)
        then consider major_version highest tag (get_semantic_version_from_tag subpath tag)
        else ok highest)
      >>= λ found. highest_from subpath major_version found tags

  -- `_get_highest_semver_tag`, on the names of the tags
  unfoldable pub get_highest_semver_tag : String → ℕ → List String → Result (Option String)
  unfolding highest_from
  get_highest_semver_tag subpath major_version tags =
      highest_from subpath major_version none tags >>= λ highest.
      ok (elim highest [ none ↦ none | some (tag, v) ↦ some tag ])

  -- `_get_golang_pseudo_version`
  unfoldable pub get_golang_pseudo_version :
      Commit → Option String → Option ℕ → String → Result String
  unfolding major_text take get_semantic_version_from_tag
  get_golang_pseudo_version commit none major_version subpath = ok (
      "v"
      <> (major_text major_version
          <> (".0.0-" <> (commit.timestamp <> ("-" <> take 12 commit.hexsha)))))
  get_golang_pseudo_version commit (some tag) major_version subpath =
      get_semantic_version_from_tag subpath tag >>= λ v.
      let separator : String = if has_prerelease v then "." else "-" in
      let pseudo = if has_prerelease v then v else bump_patch v in
      ok (
        "v"
        <> (text pseudo
            <> (separator <> ("0." <> (commit.timestamp <> ("-" <> take 12 commit.hexsha))))))

  -- `_get_highest_semver_tag_on_current_commit`
  unfoldable pub get_highest_semver_tag_on_current_commit :
      Commit → String → List ℕ → Result (Option String)
  unfolding get_highest_semver_tag remove_text
  get_highest_semver_tag_on_current_commit commit subpath [] = ok none
  get_highest_semver_tag_on_current_commit commit subpath (major_version ∷ versions) =
      let rest = get_highest_semver_tag_on_current_commit commit subpath versions in
      commit.commit_tags >>= λ tags. get_highest_semver_tag subpath major_version tags >>= λ found.
      elim found [
        | none ↦ rest
        | some tag ↦ ok (some (if subpath == "" then tag else remove_text (subpath <> "/") tag))
      ]

  -- `_get_highest_reachable_semver_tag`
  unfoldable pub get_highest_reachable_semver_tag :
      Commit → String → List ℕ → Result (Option String)
  unfolding get_highest_semver_tag get_golang_pseudo_version
  get_highest_reachable_semver_tag commit subpath [] = ok none
  get_highest_reachable_semver_tag commit subpath (major_version ∷ versions) =
      let rest = get_highest_reachable_semver_tag commit subpath versions in
      commit.all_tags >>= λ tags. get_highest_semver_tag subpath major_version tags >>= λ found.
      elim found [
        | none ↦ rest
        | some tag ↦
            get_golang_pseudo_version commit (some tag) (some major_version) subpath >>= λ version.
            ok (some version)
      ]

  -- The path of a module below the root, and none at the root.
  unfoldable pub module_subpath : RootedPath → Result String
  unfolding relative_to text_of
  module_subpath app_dir = relative_to app_dir.path app_dir.root >>= λ path.
      ok (if text_of path == "." then "" else text_of path)

  -- `get_golang_version`
  unfoldable pub get_golang_version : Commit → String → RootedPath → Result String
  unfolding module_major_version module_subpath get_highest_semver_tag_on_current_commit
      get_highest_reachable_semver_tag get_golang_pseudo_version
  get_golang_version commit module_name app_dir =
      let versions = major_versions_to_try (module_major_version module_name) in
      module_subpath app_dir >>= λ subpath.
      get_highest_semver_tag_on_current_commit commit subpath versions >>= λ on_commit.
      elim on_commit [
        | some tag ↦ ok tag
        | none ↦ get_highest_reachable_semver_tag commit subpath versions >>= λ reachable.
            elim reachable [
              | some version ↦ ok version
              | none ↦
                  get_golang_pseudo_version commit none (module_major_version module_name) subpath
            ]
      ]
