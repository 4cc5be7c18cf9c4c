-- ===== src/YarnClassic/Search.antt =====
-- hermeto/core/package_managers/yarn_classic/utils.py: the dependencies that are needed at run time.
use cachi.Base.{
  ℕ, zero, suc, String, ◌<>◌, Bool, ◌&&◌, Option, none, some, List, [], ◌∷◌, ◌++◌, string_eq,
  string_ord, if◌then◌else◌, contains, char_eq, ◌==◌,
}
use cachi.Base.Dict.{set_item, get_item}
use cachi.Base.Sets.{set_add, union}
use cachi.Errors.{Result, ok, err, ◌>>=◌}
use Prim.Native.String.{[] as ε, ◌∷◌ as ◌▹◌}

-- `pyarn.lockfile.Package`, of which the search reads three fields.
pub record YarnPackage : Type 0 where
  pub name : String
  pub version : String
  pub dependencies : List (String × String)

-- `Package.from_dict`, and whether the data of an entry are an empty dictionary.
pub record Pyarn (Data : Type 0) : Type 0 where
  pub from_dict : String → Option Data → Result YarnPackage
  pub is_empty : Data → Bool

-- `dep_id`, and likewise `key` for a name and a specifier
abbrev pub at : String → String → String
at name version = name <> ("@" <> version)

abbrev pub dep_id : YarnPackage → String
dep_id p = at p.name p.version

-- The dependency sections of a `package.json`: `package_json.data`, where the values are read.
abbrev pub PackageJson : Type 0
PackageJson = List (String × List (String × String))

-- `dep_id.replace('"', "")`
unfoldable pub without_quotes : String → String
without_quotes ε = ε
without_quotes (c ▹ s) = let rest = without_quotes s in if c == "\"" then rest else c ▹ rest

-- `s.split(", ")`, where `word` is the part that is being read.
unfoldable pub split_keys : String → String → List String
split_keys word ε = word ∷ []
split_keys word (c ▹ ε) = (word <> c ▹ ε) ∷ []
split_keys word (c ▹ (d ▹ s)) =
    let ended = split_keys ε s in
    let longer = split_keys (word <> c ▹ ε) (d ▹ s) in
    if c == "," && d == " " then word ∷ ended else longer

-- `split_multi_key`
unfoldable pub split_multi_key : String → List String
unfolding without_quotes split_keys
split_multi_key dep_id = split_keys ε (without_quotes dep_id)

module _ {Data : Type 0} where
  set_all : List String → Data → List (String × Data) → List (String × Data)
  set_all [] entry result = result
  set_all (k ∷ keys) entry result = set_all keys entry (set_item k entry result)

  -- The loops over the lockfile's items.
  unfoldable pub expand_from : List (String × Data) → List (String × Data) → List (String × Data)
  unfolding set_all split_multi_key
  expand_from result [] = result
  expand_from result ((k, entry) ∷ items) =
      expand_from (set_all (split_multi_key k) entry result) items

  -- `_expand_yarn_lock_keys`
  unfoldable pub expand_yarn_lock_keys : List (String × Data) → List (String × Data)
  unfolding expand_from
  expand_yarn_lock_keys yarn_lock = expand_from [] yarn_lock

  module _ (lib : Pyarn Data) (lock : List (String × Data)) where
    -- The package of a dependency in the expanded lockfile.
    unfoldable pub new_dep : String × String → Result YarnPackage
    new_dep (name, version_specifier) =
        let key = at name version_specifier in lib.from_dict key (get_item key lock)

    -- What the inner loop appends to the queue.
    unfoldable pub new_deps : List String → List (String × String) → Result (List YarnPackage)
    unfolding new_dep
    new_deps visited [] = ok []
    new_deps visited (d ∷ dependencies) =
        let rest = new_deps visited dependencies in
        new_dep d >>= λ p. rest >>= λ ps. ok (if contains visited (dep_id p) then ps else p ∷ ps)

    -- The rounds of the search, from a state of its set and its queue; `none` is that the fuel did
    -- not do.
    unfoldable pub search : ℕ → List String → List YarnPackage → Option (Result (List String))
    unfolding new_deps
    search fuel visited [] = some (ok visited)
    search zero visited (current ∷ bfs_queue) = none
    search (suc fuel) visited (current ∷ bfs_queue) =
        elim (new_deps (set_add (dep_id current) visited) current.dependencies) [
          | err e ↦ some (err e)
          | ok ps ↦ search fuel (set_add (dep_id current) visited) (bfs_queue ++ ps)
        ]

    -- `_find_transitive_deps`
    unfoldable pub find_transitive_deps : ℕ → YarnPackage → Option (Result (List String))
    unfolding search
    find_transitive_deps fuel root_dep = search fuel [] (root_dep ∷ [])

    -- The root dependencies of one section.
    unfoldable pub section_deps : List (String × String) → Result (List YarnPackage)
    section_deps [] = ok []
    section_deps ((name, version_specifier) ∷ items) =
        let rest = section_deps items in
        let key = at name version_specifier in
        elim (get_item key lock) [
          | none ↦ rest
          | some entry ↦
              if lib.is_empty entry
              then rest
              else (lib.from_dict key (some entry) >>= λ p. rest >>= λ ps. ok (p ∷ ps))
        ]

    unfoldable pub json_deps : List String → PackageJson → Result (List YarnPackage)
    unfolding section_deps
    json_deps [] package_json = ok []
    json_deps (dep_type ∷ dep_types) package_json =
        let rest = json_deps dep_types package_json in
        section_deps (elim (get_item dep_type package_json) [ none ↦ [] | some items ↦ items ])
        >>= λ ps. rest >>= λ qs. ok (ps ++ qs)

    -- `root_deps`
    unfoldable pub root_deps : List PackageJson → Result (List YarnPackage)
    unfolding json_deps
    root_deps [] = ok []
    root_deps (package_json ∷ all_package_jsons) =
        let rest = root_deps all_package_jsons in
        json_deps ("dependencies" ∷ "peerDependencies" ∷ "optionalDependencies" ∷ []) package_json
        >>= λ ps. rest >>= λ qs. ok (ps ++ qs)

    -- The last loop, with the set of the identifiers.
    unfoldable pub all_deps : ℕ → List String → List YarnPackage → Option (Result (List String))
    unfolding find_transitive_deps
    all_deps fuel all_dep_ids [] = some (ok all_dep_ids)
    all_deps fuel all_dep_ids (root_dep ∷ roots) = elim (find_transitive_deps fuel root_dep) [
      | none ↦ none
      | some (err e) ↦ some (err e)
      | some (ok ids) ↦ all_deps fuel (union all_dep_ids ids) roots
    ]

  -- `find_runtime_deps`
  unfoldable pub find_runtime_deps :
      Pyarn Data
      → ℕ
      → PackageJson
      → List (String × Data)
      → List PackageJson
      → Option (Result (List String))
  unfolding expand_yarn_lock_keys root_deps all_deps
  find_runtime_deps lib fuel main_package_json yarn_lock workspaces =
      let lock = expand_yarn_lock_keys yarn_lock in
      elim (root_deps lib lock (main_package_json ∷ workspaces)) [
        | err e ↦ some (err e)
        | ok roots ↦ all_deps lib lock fuel [] roots
      ]
