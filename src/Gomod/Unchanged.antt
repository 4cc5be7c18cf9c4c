-- ===== src/Gomod/Unchanged.antt =====
-- hermeto/core/package_managers/gomod.py: the subpaths that are fetched in the strict mode.
use cachi.Base.{
  String, Bool, true, false, Option, none, some, List, [], ◌∷◌, ◌++◌, ◌==◌, string_eq, ◌≡◌, refl,
  sym, ap, ◌∙◌, arith, inl, inr, Bool-cases, subst, if◌then◌else◌,
}
use cachi.Base.Members.{AllMeet}
use cachi.Errors.{Result, ok, err, >>=-eq-ok, ok_injective, not_returned}
use cachi.RootedPath.{PurePath, RootedPath, join_within_root}
use cachi.Sbom.Component.{Component}
use cachi.Sbom.Document.{Annotation}
use cachi.Input.Package.{Mode, strict, permissive}
use cachi.Input.Request.{Request}
use cachi.Gomod.Toolchain.{Versions, Go, select_toolchain}
use cachi.Gomod.Models.{GoWork}
use cachi.Gomod.Paths.{path_of}
use cachi.Gomod.Surroundings.{
  Surroundings, get_go_work_path, go_work_at, find_missing_gomod_files, and_finally, diffs,
  in_workspace, vendor_tree, vendor_changed,
}
use cachi.Gomod.Resolve.{resolve_gomod}
use cachi.Gomod.Fetch.{
  GetVersion, found_toolchain, rejected, Resolved, resolve_subpath, subpath_components,
  fetch_subpath, fetch_subpaths, none_missing,
}

and_finally-ok :
    {Left : Type 0} (body : Result Bool) (last : Result Left) {b : Bool} {left : Left}
    → and_finally body last ≡ ok (b, left)
    → (body ≡ ok b) × (last ≡ ok left)
and_finally-ok (ok b) (ok l) h = (
  ap (λ (r : Bool × _). ok (r.0)) (ok_injective h),
  ap (λ (r : Bool × _). ok (r.1)) (ok_injective h),
)
and_finally-ok (err e) (ok l) h = absurd (not_returned h)
and_finally-ok body (err e) h = absurd (not_returned h)

module _ (versions : Versions) (lib : Surroundings versions) where
  -- Its go.mod is there.
  abbrev pub Present : Request → PurePath → Type 0
  Present request subpath =
      (path : RootedPath) × (join_within_root lib.resolve request.source_dir
          (subpath ∷ path_of "go.mod" ∷ [])
        ≡ ok path)
      × (lib.exists path.path ≡ true)

  -- A subpath, from the tree before it to the tree after it: with the toolchain that is chosen for its
  -- go.mod and its go.work, if there is one, git shows no difference in its vendor directory in the
  -- tree that the vendoring leaves, where what is not tracked is marked.
  pub record Unchanged (request : Request) (subpath : PurePath) (before after : lib.Tree)
      : Type 0 where
    pub dir : RootedPath
    pub joined : join_within_root lib.resolve request.source_dir (subpath ∷ []) ≡ ok dir
    pub go_mod : RootedPath
    pub in_dir : join_within_root lib.resolve dir (path_of "go.mod" ∷ []) ≡ ok go_mod
    pub go : Go versions
    pub chosen :
        select_toolchain versions lib.install (lib.go_mod_lines go_mod.path) lib.installed
        ≡ ok (some go)
    pub go_work_path : Option RootedPath
    pub work_found : get_go_work_path versions lib go dir ≡ ok go_work_path
    pub go_work : Option GoWork
    pub work_read : go_work_at versions lib go go_work_path ≡ ok go_work
    pub vendor : RootedPath
    pub vendor_joined :
        join_within_root (lib.project go).resolve dir (path_of "vendor" ∷ []) ≡ ok vendor
    pub marked : lib.Tree
    pub added :
        lib.git_add dir (
          if (lib.project go).is_dir vendor.path
          then lib.vendored go (in_workspace go_work) dir.path before
          else before)
        ≡ ok marked
    pub same_modules : lib.git_diff dir "vendor/modules.txt" marked ≡ ok ""
    pub same_vendor : lib.git_diff dir "vendor" marked ≡ ok ""
    pub unmarked : lib.git_reset dir marked ≡ ok after

  -- The subpaths, one behind the other, from the tree before the first.
  abbrev pub AllUnchanged : Request → List PurePath → lib.Tree → Type 0
  AllUnchanged request [] before = Unit
  AllUnchanged request (subpath ∷ subpaths) before =
      (after : lib.Tree) × Unchanged request subpath before after
      × AllUnchanged request subpaths after

  empty_text : (s : String) → (s == "") ≡ true → s ≡ ""
  empty_text s h = grind arith

  diffs-same :
      (dir : RootedPath) (tree : lib.Tree)
      → diffs versions lib dir tree ≡ ok false
      → (lib.git_diff dir "vendor/modules.txt" tree ≡ ok "")
        × (lib.git_diff dir "vendor" tree ≡ ok "")
  diffs-same dir tree h =
      let (m, e, g) = >>=-eq-ok (lib.git_diff dir "vendor/modules.txt" tree) _ h in
      elim (Bool-cases (m == "")) [
        | inr f ↦ absurd (true_returned (rw (f) at g))
        | inl t ↦
            (let (v, e2, g2) = >>=-eq-ok (lib.git_diff dir "vendor" tree) _ (rw (t) at g) in
              elim (Bool-cases (v == "")) [
                | inr f ↦ absurd (true_returned (rw (f) at g2))
                | inl u ↦ (e ∙ ap ok (empty_text m t), e2 ∙ ap ok (empty_text v u))
              ])
      ]
    where
      true_returned : ◌≡◌ {A = Result Bool} (ok true) (ok false) → ⊥
      true_returned h = cc

  rejected-strict :
      (mode : Mode) (changed : Bool) {u : Unit {0}}
      → mode ≡ strict
      → rejected versions lib mode changed ≡ ok u
      → changed ≡ false
  rejected-strict strict true e h = absurd (not_returned h)
  rejected-strict strict false e h = refl
  rejected-strict permissive changed e h = cc

  found_toolchain-ok :
      (selected : Option (Go versions)) {go : Go versions}
      → found_toolchain versions lib selected ≡ ok go
      → selected ≡ some go
  found_toolchain-ok none h = absurd (not_returned h)
  found_toolchain-ok (some go) h = ap some (ok_injective h)

  -- A subpath, up to the search for changes.
  resolve_subpath-left :
      (get_version : GetVersion versions lib) (request : Request) (subpath : PurePath)
      (before : lib.Tree) {found : Resolved versions lib × lib.Tree} {marked after : lib.Tree}
      → resolve_subpath versions lib get_version request subpath before ≡ ok found
      → lib.git_add found.0.0 found.1 ≡ ok marked
      → lib.git_diff found.0.0 "vendor/modules.txt" marked ≡ ok ""
      → lib.git_diff found.0.0 "vendor" marked ≡ ok ""
      → lib.git_reset found.0.0 marked ≡ ok after
      → Unchanged request subpath before after
  unfolding resolve_subpath vendor_tree
  resolve_subpath-left get_version request subpath before {found} {marked} {after} h added modules
        vendor_ reset =
      let (dir, is_dir, h1) =
        >>=-eq-ok (join_within_root lib.resolve request.source_dir (subpath ∷ [])) _ h in
      let (go_mod, in_dir, h2) =
        >>=-eq-ok (join_within_root lib.resolve dir (path_of "go.mod" ∷ [])) _ h1 in
      let (selected, is_selected, h3) =
        >>=-eq-ok
          (select_toolchain versions lib.install (lib.go_mod_lines go_mod.path) lib.installed) _
          h2 in
      let (go, is_go, h4) = >>=-eq-ok (found_toolchain versions lib selected) _ h3 in
      let (go_work_path, work_found, h5) = >>=-eq-ok (get_go_work_path versions lib go dir) _ h4 in
      let (go_work, work_read, h6) = >>=-eq-ok (go_work_at versions lib go go_work_path) _ h5 in
      let (resolved, _, h7) =
        >>=-eq-ok
          (resolve_gomod (lib.project go) get_version dir lib.tmp_dir lib.proxy_url request.flags
            go_work)
          _ h6 in
      let (left, is_left, h8) = >>=-eq-ok (vendor_tree versions lib go go_work dir before) _ h7 in
      let (vendor, joined, h9) =
        >>=-eq-ok (join_within_root (lib.project go).resolve dir (path_of "vendor" ∷ [])) _
          is_left in
      let same_dir : dir ≡ found.0.0 =
        ap (λ (r : Resolved versions lib × lib.Tree). r.0.0) (ok_injective h8) in
      let same_left : left ≡ found.1 =
        ap (λ (r : Resolved versions lib × lib.Tree). r.1) (ok_injective h8) in
      record {
        dir = dir;
        joined = is_dir;
        go_mod = go_mod;
        in_dir = in_dir;
        go = go;
        chosen = is_selected ∙ ap ok (found_toolchain-ok selected is_go);
        go_work_path = go_work_path;
        work_found = work_found;
        go_work = go_work;
        work_read = work_read;
        vendor = vendor;
        vendor_joined = joined;
        marked = marked;
        added =
            ap (lib.git_add dir) (ok_injective h9 ∙ same_left)
            ∙ ap (λ (d : RootedPath). lib.git_add d found.1) same_dir
            ∙ added;
        same_modules =
            ap (λ (d : RootedPath). lib.git_diff d "vendor/modules.txt" marked) same_dir ∙ modules;
        same_vendor = ap (λ (d : RootedPath). lib.git_diff d "vendor" marked) same_dir ∙ vendor_;
        unmarked = ap (λ (d : RootedPath). lib.git_reset d marked) same_dir ∙ reset;
      }

  -- A subpath that is fetched in the strict mode.
  fetch_subpath-Unchanged :
      (get_version : GetVersion versions lib) (app repo_name : String) (request : Request)
      (subpath : PurePath) (tree : lib.Tree) {found : List Component × Bool × lib.Tree}
      → request.mode ≡ strict
      → fetch_subpath versions lib get_version app repo_name request subpath tree ≡ ok found
      → Unchanged request subpath tree found.2 × (found.1 ≡ false)
  unfolding fetch_subpath vendor_changed
  fetch_subpath-Unchanged get_version app repo_name request subpath tree strict_mode h =
      let (at_dir, e, h1) =
        >>=-eq-ok (resolve_subpath versions lib get_version request subpath tree) _ h in
      let (outcome, is_changed, h2) =
        >>=-eq-ok (vendor_changed versions lib at_dir.0.0 at_dir.1) _ h1 in
      let (_, not_rejected, h3) = >>=-eq-ok (rejected versions lib request.mode outcome.0) _ h2 in
      let (_, _, h4) =
        >>=-eq-ok (subpath_components versions lib get_version app repo_name at_dir.0) _ h3 in
      let same = rejected-strict request.mode outcome.0 strict_mode not_rejected in
      let (marked, added, h5) = >>=-eq-ok (lib.git_add at_dir.0.0 at_dir.1) _ is_changed in
      let (body, last) =
        and_finally-ok (diffs versions lib at_dir.0.0 marked) (lib.git_reset at_dir.0.0 marked)
          h5 in
      let (modules, vendor_) = diffs-same at_dir.0.0 marked (body ∙ ap ok same) in
      let final = ok_injective h4 in
      (
        subst (Unchanged request subpath tree)
            (ap (λ (r : List Component × Bool × lib.Tree). r.2) final)
            (resolve_subpath-left get_version request subpath tree e added modules vendor_ last),
        sym (ap (λ (r : List Component × Bool × lib.Tree). r.1) final) ∙ same,
      )

  pub fetch_subpaths-AllUnchanged :
      (get_version : GetVersion versions lib) (app now repo_name : String) (request : Request)
      (components : List Component) (annotations : List Annotation) (tree : lib.Tree)
      (subpaths : List PurePath) {fetched : List Component × List Annotation}
      → request.mode ≡ strict
      → fetch_subpaths versions lib get_version app now repo_name request components annotations
          tree subpaths
        ≡ ok fetched
      → AllUnchanged request subpaths tree × (fetched.1 ≡ annotations)
  unfolding fetch_subpaths
  fetch_subpaths-AllUnchanged get_version app now repo_name request components annotations tree []
        strict_mode h =
      (tt, sym (ap (λ (r : List Component × List Annotation). r.1) (ok_injective h)))
  fetch_subpaths-AllUnchanged get_version app now repo_name request components annotations tree
        (subpath ∷ subpaths) strict_mode h =
      let (found, e, g) =
        >>=-eq-ok (fetch_subpath versions lib get_version app repo_name request subpath tree) _ h in
      let (same, kept) =
        fetch_subpath-Unchanged get_version app repo_name request subpath tree strict_mode e in
      let (all, own) =
        fetch_subpaths-AllUnchanged get_version app now repo_name request (components ++ found.0) _
          found.2 subpaths strict_mode g in
      ((found.2, same, all), own ∙ rw (kept) refl)

  pub find_missing_gomod_files-Present :
      (request : Request) (subpaths : List PurePath)
      → find_missing_gomod_files versions lib request.source_dir subpaths ≡ ok []
      → AllMeet (Present request) subpaths
  unfolding find_missing_gomod_files
  find_missing_gomod_files-Present request [] h = tt
  find_missing_gomod_files-Present request (subpath ∷ subpaths) h =
      let (path, e, g) =
        >>=-eq-ok
          (join_within_root lib.resolve request.source_dir (subpath ∷ path_of "go.mod" ∷ [])) _ h in
      let (files, e2, g2) =
        >>=-eq-ok (find_missing_gomod_files versions lib request.source_dir subpaths) _ g in
      elim (Bool-cases (lib.exists path.path)) [
        | inr f ↦ absurd (not_empty (ok_injective (rw (f) at g2)))
        | inl t ↦ (
          (path, e, t),
          find_missing_gomod_files-Present request subpaths
              (e2 ∙ ap ok (ok_injective (rw (t) at g2))),
        )
      ]
    where
      not_empty : {p : PurePath} {ps : List PurePath} → (p ∷ ps) ≡ [] → ⊥
      not_empty h = cc

  pub none_missing_lem :
      (files : List PurePath) {u : Unit {0}} → none_missing versions lib files ≡ ok u → files ≡ []
  none_missing_lem [] h = refl
  none_missing_lem (p ∷ files) h = absurd (not_returned h)
