-- ===== src/Generic/Placed.antt =====
-- hermeto/core/package_managers/generic/models.py: the artifacts of a lockfile that is valid.
use cachi.Base.{
  false, ◌||◌, List, [], ◌∷◌, ◌≡◌, refl, sym, ◌∙◌, string_eq, contains, Bool-cases, inl, inr, arith,
  subst, Eq,
}
use cachi.Errors.{Result, ok, err, >>=-eq-ok, ok_injective, not_returned}
use cachi.RootedPath.{PurePath, RootedPath, join_within_root}
use cachi.RootedPath.Confined.{IsBelow, join_within_root-IsBelow, join_within_root-resolve}
use cachi.Generic.Models.{
  LockfileArtifact, GenericLib, url_eq, checksum_format, resolve_filename, Placed, make_artifact,
  with_artifact, make_artifacts, has_duplicates, urls_of, filenames_of, no_artifact_conflicts,
  make_lockfile,
}

module _ (lib : GenericLib) where
  -- An item is not among those behind it.
  abbrev pub NoRepeat : {A : Type 0} ⦃e : Eq A⦄ → List A → Type 0
  NoRepeat [] = Unit
  NoRepeat (x ∷ l) = (contains l x ≡ false) × NoRepeat l

  has_duplicates-NoRepeat :
      {A : Type 0} ⦃e : Eq A⦄ (l : List A) → has_duplicates lib l ≡ false → NoRepeat l
  unfolding has_duplicates
  has_duplicates-NoRepeat [] h = tt
  has_duplicates-NoRepeat (x ∷ l) h =
      (ground (arith, h), has_duplicates-NoRepeat l (ground (arith, h)))

  -- Each artifact of the input, with a place below a root that its file name is the text of.
  abbrev pub AllPlaced : PurePath → List LockfileArtifact → List (Placed lib) → Type 0
  AllPlaced root [] [] = Unit
  AllPlaced root [] (p ∷ placed) = ⊥
  AllPlaced root (a ∷ artifacts) [] = ⊥
  AllPlaced root (a ∷ artifacts) ((b, place) ∷ placed) =
      IsBelow root place
      × (b.filename ≡ lib.text_of place)
      × (b.origin ≡ a.origin)
      × (b.checksum ≡ a.checksum)
      × AllPlaced root artifacts placed

  -- `Path.resolve` leaves what it has returned.
  abbrev pub Settles : Type 0
  Settles = (p q : PurePath) → lib.resolve p ≡ ok q → lib.resolve q ≡ ok q

  make_artifact-placed :
      Settles
      → (output_dir : RootedPath) (a : LockfileArtifact) {b : Placed lib}
      → make_artifact lib output_dir a ≡ ok b
      → IsBelow output_dir.root b.1
        × (b.0.filename ≡ lib.text_of b.1)
        × (b.0.origin ≡ a.origin)
        × (b.0.checksum ≡ a.checksum)
  unfolding make_artifact
  make_artifact-placed settles output_dir a h =
      let (_, _, h1) = >>=-eq-ok (checksum_format a.checksum) _ h in
      let (filename, _, h2) = >>=-eq-ok (resolve_filename lib a) _ h1 in
      let other = lib.path_of filename ∷ [] in
      let (joined, j, h3) = >>=-eq-ok (join_within_root lib.resolve output_dir other) _ h2 in
      let (place, k, h4) = >>=-eq-ok (lib.resolve joined.path) _ h3 in
      let (q, r) = join_within_root-resolve lib.resolve output_dir other j in
      let same : joined.path ≡ place = ok_injective (sym (settles q joined.path r) ∙ k) in
      let (below, _) = join_within_root-IsBelow lib.resolve output_dir other j in
      subst
        (λ (b : Placed lib).
          IsBelow output_dir.root b.1
          × (b.0.filename ≡ lib.text_of b.1)
          × (b.0.origin ≡ a.origin)
          × (b.0.checksum ≡ a.checksum))
        (ok_injective h4) (subst (IsBelow output_dir.root) same below, refl, refl, refl)

  with_artifact-eq-ok :
      (first : Result (Placed lib)) (rest : Result (List (Placed lib))) {l : List (Placed lib)}
      → with_artifact lib first rest ≡ ok l
      → (a : Placed lib) × (first ≡ ok a)
        × ((artifacts : List (Placed lib)) × (rest ≡ ok artifacts) × (a ∷ artifacts ≡ l))
  unfolding with_artifact
  with_artifact-eq-ok (err e) rest h = absurd (not_returned h)
  with_artifact-eq-ok (ok a) rest h =
      let (artifacts, e, g) = >>=-eq-ok rest _ h in (a, refl, (artifacts, e, ok_injective g))

  make_artifacts-AllPlaced :
      Settles
      → (output_dir : RootedPath) (artifacts : List LockfileArtifact) {l : List (Placed lib)}
      → make_artifacts lib output_dir artifacts ≡ ok l
      → AllPlaced output_dir.root artifacts l
  unfolding make_artifacts
  make_artifacts-AllPlaced settles output_dir [] h =
      subst (AllPlaced output_dir.root []) (ok_injective h) tt
  make_artifacts-AllPlaced settles output_dir (a ∷ artifacts) h =
      let (b, e, (l, e2, same)) =
        with_artifact-eq-ok (make_artifact lib output_dir a)
          (make_artifacts lib output_dir artifacts) h in
      let (below, name, origin, checksum) = make_artifact-placed settles output_dir a e in
      subst (AllPlaced output_dir.root (a ∷ artifacts)) same
        (below, name, origin, checksum, make_artifacts-AllPlaced settles output_dir artifacts e2)

  -- The artifacts of a lockfile that is valid are those of the input, each with the path that it is
  -- saved to at or below the root of the output directory, no two with a URL have one URL, no two of
  -- Maven have one URL, and no two have one path, where `Path.resolve` leaves what it has returned.
  pub make_lockfile-AllPlaced :
      Settles
      → (output_dir : RootedPath) (artifacts : List LockfileArtifact) {l : List (Placed lib)}
      → make_lockfile lib output_dir artifacts ≡ ok l
      → AllPlaced output_dir.root artifacts l
        × NoRepeat (urls_of lib l)
        × NoRepeat (filenames_of lib l)
  unfolding make_lockfile no_artifact_conflicts
  make_lockfile-AllPlaced settles output_dir artifacts h =
      let (placed, e, g) = >>=-eq-ok (make_artifacts lib output_dir artifacts) _ h in
      elim (Bool-cases
        (has_duplicates lib (urls_of lib placed) || has_duplicates lib (filenames_of lib placed))) [
          | inl t ↦ absurd (not_returned (rw (t) at g))
          | inr f ↦
              subst
                (λ l.
                  AllPlaced output_dir.root artifacts l
                  × NoRepeat (urls_of lib l)
                  × NoRepeat (filenames_of lib l))
                (ok_injective (rw (f) at g))
                (
                  make_artifacts-AllPlaced settles output_dir artifacts e,
                  has_duplicates-NoRepeat (urls_of lib placed) (ground (arith, f)),
                  has_duplicates-NoRepeat (filenames_of lib placed) (ground (arith, f)),
                )
        ]
