-- ===== src/Gomod/Toolchain.antt =====
-- hermeto/core/package_managers/gomod.py: `GoVersion` and `_select_toolchain`.
use cachi.Base.{
  ℕ, String, ◌<>◌, Bool, not, ◌&&◌, Option, none, some, List, [], ◌∷◌, ◌==◌, Ord, string_eq,
  if◌then◌else◌,
}
use cachi.Base.Text.{startswith, partition}
use cachi.Base.Text.Affixes.{drop}
use cachi.Errors.{Result, ok, err, ◌>>=◌, value_error, package_manager_error}
use cachi.Gomod.Models.{or_else}
use cachi.Gomod.Directives.{get_gomod_version}

-- `packaging.version.Version`: its values up to its `==`, with its order, its construction from a
-- text, which raises a `ValueError`, its text, which is taken to be the same where two are `==`, two of its attributes, and the version of two numbers.
pub record Versions : Type 1 where
  pub Version : Type 0
  pub order : Ord Version
  pub parse : String → Result Version
  pub text : Version → String
  pub major : Version → ℕ
  pub minor : Version → ℕ
  pub release : ℕ → ℕ → Version

module _ (lib : Versions) where
  open lib use {Version, order, parse, text, major, minor, release}

  -- `GoVersion(version_str)`
  unfoldable pub go_version : String → Result Version
  unfolding startswith drop partition
  go_version version_str =
      let ver : String = if startswith version_str "go" then drop 2 version_str else version_str in
      parse (partition "-" ver).0

  unfoldable pub to_language_version : Version → Version
  to_language_version v = release (major v) (minor v)

  -- `Go`: its binary, and what its `version` gives.
  pub record Go : Type 0 where
    pub binary : String
    pub version : Result Version

  -- `filter(lambda t: t.version >= bound, toolchains)`, with the versions that it reads.
  unfoldable pub matching : Result Version → List Go → Result (List (Go × Version))
  matching bound [] = ok []
  matching bound (t ∷ toolchains) =
      let rest = matching bound toolchains in
      t.version >>= λ v.
      bound >>= λ b. rest >>= λ kept. ok (if order.lt v b then kept else (t, v) ∷ kept)

  -- `a < b`, and `a > b`, which `total_ordering` derives from it with the equality of the binaries.
  abbrev pub go_lt : Go × Version → Go × Version → Bool
  go_lt (a, v) (b, w) = order.lt v w

  abbrev pub go_gt : Go × Version → Go × Version → Bool
  go_gt (a, v) (b, w) = not (order.lt v w) && not (a.binary == b.binary)

  unfoldable pub min_from : Go × Version → List (Go × Version) → Go × Version
  min_from best [] = best
  min_from best (t ∷ toolchains) = min_from (if go_lt t best then t else best) toolchains

  unfoldable pub max_from : Go × Version → List (Go × Version) → Go × Version
  max_from best [] = best
  max_from best (t ∷ toolchains) = max_from (if go_gt t best then t else best) toolchains

  -- `min(toolchains)` and `max(toolchains)`
  unfoldable pub min : List (Go × Version) → Result Go
  unfolding min_from
  min [] = err value_error
  min (t ∷ toolchains) = ok (min_from t toolchains).0

  unfoldable pub max : List (Go × Version) → Result Go
  unfolding max_from
  max [] = err value_error
  max (t ∷ toolchains) = ok (max_from t toolchains).0

  -- The version that go.mod asks for.
  unfoldable pub target_version : Option String → Option String → Result Version
  unfolding go_version
  target_version go_str toolchain_str =
      let go_version_str : String = or_else go_str "1.20" in
      go_version go_version_str >>= λ go_mod_version.
      go_version (or_else toolchain_str go_version_str) >>= λ go_mod_toolchain_version. ok (
        if order.lt go_mod_version go_mod_toolchain_version
        then go_mod_toolchain_version
        else go_mod_version)

  -- `try: … except ValueError: …`
  abbrev pub except_value_error : Result Go → Result (Option Go) → Result (Option Go)
  except_value_error (ok go) otherwise = ok (some go)
  except_value_error (err value_error) otherwise = otherwise
  except_value_error (err e) otherwise = err e

  -- The toolchain, if its version can be read.
  abbrev pub readable : Go → Result Version → Option Go
  readable go (ok v) = some go
  readable go (err e) = none

  -- `install` is `Go.from_missing_toolchain`, which runs the go command.
  module _ (install : String → String → Result Go) where
    -- The last resort.
    unfoldable pub from_any_toolchain : Version → List Go → Option Go
    from_any_toolchain target [] = none
    from_any_toolchain target (t ∷ toolchains) = elim (install ("go" <> text target) t.binary) [
      | ok go ↦ readable go go.version
      | err e ↦ none
    ]

    -- The three attempts.
    unfoldable pub pick : Version → List Go → Result (Option Go)
    unfolding from_any_toolchain matching min max go_version
    pick target installed = except_value_error (matching (ok target) installed >>= λ ts. min ts) (
        except_value_error (matching (go_version "1.21") installed >>= λ ts. max ts)
          (ok (from_any_toolchain target installed)))

    -- `_select_toolchain`, on the lines of go.mod
    unfoldable pub select_toolchain : List String → List Go → Result (Option Go)
    unfolding pick target_version go_version get_gomod_version to_language_version
    select_toolchain lines installed = do
      go_max_version ← go_version "1.25"
      target ← target_version (get_gomod_version lines).0 (get_gomod_version lines).1
      if order.lt (to_language_version go_max_version) (to_language_version target)
          then err package_manager_error
          else pick target installed
