-- ===== src/Npm/Local.antt =====
-- hermeto/core/package_managers/npm.py: the lockfile after `_update_package_lock_with_local_paths`.
use cachi.Base.{
  not_some, some_injective, not_both, if_false, if_true, String, ◌<>◌, true, false, some, List, [],
  ◌∷◌, ◌≡◌, refl, sym, ap, ◌∙◌, ◌==◌, ◌⊎◌, string_eq, Bool-cases, Option-cases, inl, inr, subst,
  contains,
}
use cachi.Base.Dict.{get_item}
use cachi.Errors.{not_returned, ok, ◌>>=◌, >>=-eq-ok, ok_injective}
use cachi.RootedPath.{PurePath, RootedPath, subpath_from_root, join_path}
use cachi.Npm.Urls.{
  DepType, registry, git, file, https, normalize_resolved_url, classify_resolved_url,
}
use cachi.Npm.Lock.{LockEntry, PackageLock, resolved_url}
use cachi.Npm.Purls.{Surroundings, given}
use cachi.Npm.Update.{
  dependency_types, clear_sections, local_url, without_hash, update_url, update_resolved,
  update_entry, update_entries, update_package_lock_with_local_paths,
}
use cachi.Npm.Cleared.{EmptyHasNoScheme, HasCleared, clear_sections-HasCleared}

module _ (lib : Surroundings) (download_paths : List (String × RootedPath)) where
  -- The URL of the place that a URL was downloaded to, below the output directory.
  abbrev pub IsPlace : String → String → Type 0
  IsPlace url new =
      (path : RootedPath) × (get_item url download_paths ≡ some path)
      × ((subpath : PurePath) × (subpath_from_root path ≡ ok subpath)
          × (new ≡ "file://" <> lib.text_of (join_path (lib.path_of "${output_dir}") subpath)))

  -- A resolved URL that names a file: one that is of that kind and stays, or one that is written.
  abbrev pub IsFileUrl : String → LockEntry → LockEntry → Type 0
  IsFileUrl url e updated =
      (classify_resolved_url lib.urlparse (normalize_resolved_url url) ≡ ok file)
        × (updated.resolved ≡ e.resolved)
      ⊎ ((new : String) × IsPlace (normalize_resolved_url url) new × (updated.resolved ≡ some new))

  -- What an update makes of a package of the lockfile: none of its dependencies is to be replaced,
  -- and its URL names a file, if it has one and the package is not the main one.
  pub record IsLocal (path : String) (e updated : LockEntry) : Type 0 where
    pub cleared :
        (t : String) → contains dependency_types t ≡ true → HasCleared lib t updated.sections
    pub local :
        (url : String)
        → (path == "") ≡ false
        → given (resolved_url path e) ≡ some url
        → IsFileUrl url e updated

  local_url-IsPlace :
      (url : String) {new : String} → local_url lib download_paths url ≡ ok new → IsPlace url new
  unfolding local_url
  local_url-IsPlace url h = elim (Option-cases (get_item url download_paths)) [
    | inl n ↦ absurd (not_returned (rw (n, local_url) at h))
    | inr (p, e) ↦
        (let (subpath, k, g) = >>=-eq-ok (subpath_from_root p) _ (rw (e, local_url) at h) in
          (p, e, (subpath, k, sym (ok_injective g))))
  ]

  written :
      (url : String) (e : LockEntry) {updated : LockEntry}
      → (local_url lib download_paths url >>= λ new. ok (record e { resolved = some new }))
        ≡ ok updated
      → (updated.sections ≡ e.sections)
        × ((new : String) × IsPlace url new × (updated.resolved ≡ some new))
  written url e h =
      let (new, j, g) = >>=-eq-ok (local_url lib download_paths url) _ h in
      let place = local_url-IsPlace url j in
      subst
        (λ (u : LockEntry).
          (u.sections ≡ e.sections) × ((new : String) × IsPlace url new × (u.resolved ≡ some new)))
        (ok_injective g) (refl, (new, place, refl))

  without_hash-sections : (e : LockEntry) → (without_hash lib e).sections ≡ e.sections
  without_hash-sections e = elim (Option-cases (given e.integrity)) [
    | inl n ↦ rw (n, without_hash) refl
    | inr (sri, j) ↦ rw (j, without_hash) refl
  ]

  update_url_file :
      (url : String) (e : LockEntry) (t : DepType) {updated : LockEntry}
      → update_url lib download_paths url e t ≡ ok updated
      → (updated.sections ≡ e.sections)
        × ((t ≡ file) × (updated.resolved ≡ e.resolved)
            ⊎ ((new : String) × IsPlace url new × (updated.resolved ≡ some new)))
  unfolding update_url
  update_url_file url e registry h = let (s, w) = written url e h in (s, inr w)
  update_url_file url e git h =
      let (s, w) = written url (without_hash lib e) h in (s ∙ without_hash-sections e, inr w)
  update_url_file url e file h = (
    sym (ap (λ (u : LockEntry). u.sections) (ok_injective h)),
    inl (refl, sym (ap (λ (u : LockEntry). u.resolved) (ok_injective h))),
  )
  update_url_file url e https h = let (s, w) = written url e h in (s, inr w)

  update_resolved_file :
      (path : String) (e : LockEntry) {updated : LockEntry}
      → update_resolved lib download_paths path e ≡ ok updated
      → (updated.sections ≡ e.sections)
        × ((url : String)
            → (path == "") ≡ false
            → given (resolved_url path e) ≡ some url
            → IsFileUrl url e updated)
  unfolding update_resolved
  update_resolved_file path e {updated} h = elim (Bool-cases (path == "")) [
    | inl t ↦
        (let same : e ≡ updated = ok_injective (rw (t, update_resolved) at h) in
          (ap (λ (u : LockEntry). u.sections) (sym same), λ url n r. absurd (not_both (sym t ∙ n))))
    | inr f ↦ elim (Option-cases (given (resolved_url path e))) [
      | inl n ↦
          (let same : e ≡ updated = ok_injective (rw (n) at (rw (f, update_resolved) at h)) in
            (
              ap (λ (u : LockEntry). u.sections) (sym same),
              λ url _ r. absurd (not_some (sym n ∙ r)),
            ))
      | inr (url, r) ↦
          (let (t, c, g) =
              >>=-eq-ok (classify_resolved_url lib.urlparse (normalize_resolved_url url)) _
                (rw (r) at (rw (f, update_resolved) at h)) in
            let (s, w) = update_url_file (normalize_resolved_url url) e t g in
            (
              s,
              λ v _ q.
                  subst (λ u. IsFileUrl u e updated) (some_injective (sym r ∙ q))
                    (elim w [ inl (k, stays) ↦ inl (c ∙ ap ok k, stays) | inr place ↦ inr place ]),
            ))
    ]
  ]

  update_package :
      (path : String) (e : LockEntry)
      → e.link ≡ false
      → update_entry lib download_paths path e ≡ (
          clear_sections lib dependency_types e.sections >>= λ sections.
          update_resolved lib download_paths path (record e { sections = sections }))
  unfolding update_entry
  update_package path e l = if_false e.link _ _ l

  update_link :
      (path : String) (e : LockEntry)
      → e.link ≡ true
      → update_entry lib download_paths path e ≡ ok e
  unfolding update_entry
  update_link path e l = if_true e.link _ _ l

  update_entry-IsLocal :
      EmptyHasNoScheme lib
      → (path : String) (e : LockEntry) {updated : LockEntry} → e.link ≡ false
      → update_entry lib download_paths path e ≡ ok updated
      → IsLocal path e updated
  unfolding resolved_url
  update_entry-IsLocal quiet path e {updated} l h =
      let (sections, c, g) =
        >>=-eq-ok (clear_sections lib dependency_types e.sections) _
          (sym (update_package path e l) ∙ h) in
      let (s, w) = update_resolved_file path (record e { sections = sections }) g in
      record {
        cleared = λ t k.
            subst (HasCleared lib t) (sym s)
              (clear_sections-HasCleared lib quiet dependency_types e.sections t c (inl k));
        local = w;
      }

  -- Items that are updated, one by one, with their paths.
  abbrev pub AllLocal : List (String × LockEntry) → List (String × LockEntry) → Type 0
  AllLocal [] [] = Unit
  AllLocal [] (new ∷ updated) = ⊥
  AllLocal (item ∷ items) [] = ⊥
  AllLocal ((path, e) ∷ items) ((path2, new) ∷ updated) =
      (path ≡ path2)
      × (e.link ≡ false → IsLocal path e new)
      × (e.link ≡ true → e ≡ new)
      × AllLocal items updated

  update_entries-AllLocal :
      EmptyHasNoScheme lib
      → (items : List (String × LockEntry)) {updated : List (String × LockEntry)}
      → update_entries lib download_paths items ≡ ok updated
      → AllLocal items updated
  unfolding update_entries
  update_entries-AllLocal quiet [] h = subst (AllLocal []) (ok_injective h) tt
  update_entries-AllLocal quiet ((path, e) ∷ items) h =
      let (new, j, g) = >>=-eq-ok (update_entry lib download_paths path e) _ h in
      let (rest, k, g2) = >>=-eq-ok (update_entries lib download_paths items) _ g in
      subst (AllLocal ((path, e) ∷ items)) (ok_injective g2) (
        refl,
        (λ l. update_entry-IsLocal quiet path e l j),
        (λ l. ok_injective (sym (update_link path e l) ∙ j)),
        update_entries-AllLocal quiet items k,
      )

-- The lockfile that is written has the items of the lockfile, with their paths: links as they were,
-- and packages with no dependency that is to be replaced, whose URL, where the package is not the
-- main one and has a URL, was one of a file and stays, or is `file://` with the place below the
-- output directory that the URL was downloaded to. An empty URL is taken to have no scheme.
pub update_package_lock-AllLocal :
    (lib : Surroundings) (download_paths : List (String × RootedPath)) (lock : PackageLock)
    {updated : PackageLock}
    → EmptyHasNoScheme lib
    → update_package_lock_with_local_paths lib download_paths lock ≡ ok updated
    → AllLocal lib download_paths lock.packages updated.packages
unfolding update_package_lock_with_local_paths
update_package_lock-AllLocal lib download_paths lock quiet h =
    let (entries, e, g) = >>=-eq-ok (update_entries lib download_paths lock.packages) _ h in
    subst (λ (u : PackageLock). AllLocal lib download_paths lock.packages u.packages)
      (ok_injective g) (update_entries-AllLocal lib download_paths quiet lock.packages e)
