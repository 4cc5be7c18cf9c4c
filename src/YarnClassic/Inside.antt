-- ===== src/YarnClassic/Inside.antt =====
-- hermeto/core/package_managers/yarn_classic/resolver.py: what the factory makes of a package.
use Prim.Native.String.{[] as ε, ◌∷◌ as ◌▹◌}
use cachi.Base.{
  String, Bool, true, false, not, ◌&&◌, Option, none, some, List, [], ◌∷◌, ◌≡◌, refl, ◌==◌,
  string_eq, if◌then◌else◌, contains, Bool-cases, inl, inr, subst,
}
use cachi.Errors.{ok, >>=-eq-ok, ok_injective, not_returned}
use cachi.RootedPath.{PurePath, RootedPath, join_within_root}
use cachi.RootedPath.Confined.{IsBelow, join_within_root-IsBelow}
use cachi.YarnClassic.Search.{at}
use cachi.YarnClassic.Mirror.{get_tarball_mirror_name, get_git_tarball_mirror_name}
use cachi.YarnClassic.Packages.{
  YarnClassicPackage, registry_package, git_package, url_package, file_package, workspace_package,
  link_package, LockPackage, YarnFiles, or_empty, read_name_from_tarball,
  read_name_from_package_json, is_git_url, is_tarball_url, is_from_npm_registry, create_at,
  create_local, create_remote, create_by, create_package,
}
use cachi.YarnClassic.Collisions.{base_package}

-- The path of a local package is at or below a root, which it keeps; workspaces are not read from
-- the lockfile.
abbrev pub IsInside : PurePath → YarnClassicPackage → Type 0
IsInside root (registry_package b url) = Unit
IsInside root (git_package b url) = Unit
IsInside root (url_package b url) = Unit
IsInside root (file_package b path) = IsBelow root path.path × (path.root ≡ root)
IsInside root (workspace_package b path) = ⊥
IsInside root (link_package b path) = IsBelow root path.path × (path.root ≡ root)

module _ (files : YarnFiles) (source_dir mirror_dir : RootedPath) (runtime_deps : List String) where
  -- A package for an entry of the lockfile: inside of the project, of the entry's version, and for
  -- development exactly where the search has not found it.
  pub record IsMade (p : LockPackage) (made : YarnClassicPackage) : Type 0 where
    pub inside : IsInside source_dir.root made
    pub version : (base_package made).version ≡ some p.version
    pub dev : (base_package made).dev ≡ not (contains runtime_deps (at p.name p.version))

  create_at-IsMade :
      (p : LockPackage) (path : RootedPath) (text : String) {made : YarnClassicPackage}
      → IsBelow source_dir.root path.path × (path.root ≡ source_dir.root)
      → create_at files source_dir mirror_dir runtime_deps p path text ≡ ok made
      → IsMade p made
  unfolding create_at
  create_at-IsMade p path ε below h =
      let json : PurePath = record { absolute = false; parts = "package.json" ∷ [] } in
      let (json_path, _, g) = >>=-eq-ok (join_within_root files.resolve path (json ∷ [])) _ h in
      let (real_name, _, g2) =
        >>=-eq-ok
          (if files.exists json_path.path
            then read_name_from_package_json files json_path
            else ok p.name)
          _ g in
      subst (IsMade p) (ok_injective g2) (record { inside = below; version = refl; dev = refl })
  create_at-IsMade p path (c ▹ url) below h =
      let (real_name, _, g) = >>=-eq-ok (read_name_from_tarball files path) _ h in
      subst (IsMade p) (ok_injective g) (record { inside = below; version = refl; dev = refl })

  create_local-IsMade :
      (p : LockPackage) (path_text : String) {made : YarnClassicPackage}
      → create_local files source_dir mirror_dir runtime_deps p path_text ≡ ok made
      → IsMade p made
  unfolding create_local
  create_local-IsMade p path_text h =
      elim (Bool-cases (not (path_text == "") && (files.path_of path_text).absolute)) [
        | inl t ↦ absurd (not_returned (rw (t, create_local) at h))
        | inr f ↦
            (let (path, e, g) =
                >>=-eq-ok (join_within_root files.resolve source_dir (files.path_of path_text ∷ []))
                  _ (rw (f, create_local) at h) in
              create_at-IsMade p path (or_empty p.url)
                (join_within_root-IsBelow files.resolve source_dir (files.path_of path_text ∷ []) e)
                g)
      ]

  create_remote-IsMade :
      (p : LockPackage) (url : String) {made : YarnClassicPackage}
      → create_remote files source_dir mirror_dir runtime_deps p url ≡ ok made
      → IsMade p made
  unfolding create_remote
  create_remote-IsMade p url h =
      let (git, _, g) = >>=-eq-ok (is_git_url files url) _ h in
      elim (Bool-cases git) [
        | inl t ↦
            (let (name, _, h1) =
                >>=-eq-ok (get_git_tarball_mirror_name files.urlparse files.path_of url) _
                  (rw (t) at g) in
              let (path, _, h2) =
                >>=-eq-ok (join_within_root files.resolve mirror_dir (files.path_of name ∷ [])) _
                  h1 in
              let (real_name, _, h3) = >>=-eq-ok (read_name_from_tarball files path) _ h2 in
              subst (IsMade p) (ok_injective h3)
                (record { inside = tt; version = refl; dev = refl }))
        | inr f ↦
            (let (tarball, _, g1) = >>=-eq-ok (is_tarball_url files url) _ (rw (f) at g) in
              elim (Bool-cases tarball) [
                | inr f2 ↦ absurd (not_returned (rw (f2) at g1))
                | inl t ↦
                    (let (name, _, h1) =
                        >>=-eq-ok (get_tarball_mirror_name files.urlparse files.path_of url) _
                          (rw (t) at g1) in
                      let (path, _, h2) =
                        >>=-eq-ok
                          (join_within_root files.resolve mirror_dir (files.path_of name ∷ [])) _
                          h1 in
                      let (real_name, _, h3) = >>=-eq-ok (read_name_from_tarball files path) _ h2 in
                      subst (IsMade p) (ok_injective h3)
                        (record { inside = tt; version = refl; dev = refl }))
              ])
      ]

  create_by-IsMade :
      (p : LockPackage) (url path : Option String) (registry : Bool) {made : YarnClassicPackage}
      → create_by files source_dir mirror_dir runtime_deps p url path registry ≡ ok made
      → IsMade p made
  unfolding create_by
  create_by-IsMade p none none registry h = absurd (not_returned h)
  create_by-IsMade p none (some path) registry h = create_local-IsMade p path h
  create_by-IsMade p (some url) path true h =
      subst (IsMade p) (ok_injective h) (record { inside = tt; version = refl; dev = refl })
  create_by-IsMade p (some url) (some path) false h = create_local-IsMade p path h
  create_by-IsMade p (some url) none false h = create_remote-IsMade p url h

  -- What the factory returns for a package of the lockfile is inside of the project, if it is local,
  -- has the entry's version, and is for development exactly if the search has not found it.
  pub create_package-IsMade :
      (p : LockPackage) {made : YarnClassicPackage}
      → create_package files source_dir mirror_dir runtime_deps p ≡ ok made
      → IsMade p made
  unfolding create_package
  create_package-IsMade p h =
      let (registry, _, g) = >>=-eq-ok (is_from_npm_registry files p.url) _ h in
      create_by-IsMade p p.url p.path registry g
