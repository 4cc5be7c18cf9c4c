-- ===== src/Npm/Wanted.antt =====
-- hermeto/core/package_managers/npm.py: what is downloaded for the packages of a lockfile.
use mathlib.Core.List.{Memᴰ}
use cachi.Base.{
  String, Bool, true, false, ◌||◌, some, List, [], ◌∷◌, ◌≡◌, refl, sym, ap, ◌∙◌, ◌==◌, ==_refl,
  string_eq, Bool-cases, Option-cases, inl, inr, subst, arith,
}
use cachi.Base.Dict.{has, has-set_item}
use cachi.Base.Text.{startswith}
use cachi.Npm.Lock.{
  LockEntry, Package, Wanted, resolved_url, package_name, get_packages, wanted_url, add_wanted,
  wanted_from,
}

has-add_wanted :
    (p : Package) (deps : List (String × Wanted)) (x : String)
    → has deps x ≡ true
    → has (add_wanted p deps) x ≡ true
unfolding add_wanted
has-add_wanted p deps x h = elim (Option-cases (wanted_url p)) [
  | inl n ↦ rw (n, add_wanted) h
  | inr (url, e) ↦ rw (e, add_wanted) (has-set_item url x _ deps ∙ ground (arith, h))
]

new-add_wanted :
    (p : Package) (deps : List (String × Wanted)) (x : String)
    → wanted_url p ≡ some x
    → has (add_wanted p deps) x ≡ true
unfolding add_wanted
new-add_wanted p deps x e =
    rw (e, add_wanted) (has-set_item x x _ deps ∙ ground (arith, ==_refl {A = String} x))

has-wanted_from :
    (deps : List (String × Wanted)) (packages : List Package) (x : String)
    → has deps x ≡ true
    → has (wanted_from deps packages) x ≡ true
unfolding wanted_from
has-wanted_from deps [] x h = h
has-wanted_from deps (p ∷ packages) x h =
    has-wanted_from (add_wanted p deps) packages x (has-add_wanted p deps x h)

-- What a package wants is among the dependencies to download.
pub wanted_from-Mem :
    (deps : List (String × Wanted)) (packages : List Package) (p : Package) (x : String)
    → Memᴰ p packages
    → wanted_url p ≡ some x
    → has (wanted_from deps packages) x ≡ true
unfolding wanted_from
wanted_from-Mem deps [] p x m e = elim m [ ]
wanted_from-Mem deps (q ∷ packages) p x (Memᴰ.head same) e =
    has-wanted_from (add_wanted q deps) packages x
      (new-add_wanted q deps x (ap wanted_url (sym same) ∙ e))
wanted_from-Mem deps (q ∷ packages) p x (Memᴰ.tail m) e =
    wanted_from-Mem (add_wanted q deps) packages p x m e

-- An item that is no link, and not the main package's, is a package.
pub get_packages-Mem :
    (parts : String → List String) (fnmatch : String → String → Bool) (path : String)
    (e : LockEntry) (items : List (String × LockEntry))
    → Memᴰ (path, e) items
    → e.link ≡ false
    → (path == "") ≡ false
    → (p : Package) × Memᴰ p (get_packages parts fnmatch items)
      × (p.path ≡ path)
      × (p.package_dict ≡ e)
unfolding get_packages
get_packages-Mem parts fnmatch path e [] m l n = elim m [ ]
get_packages-Mem parts fnmatch path e (item ∷ items) (Memᴰ.head same) l n =
    let kept : (e.link || path == "") ≡ false = ground (arith, l, n) in
    subst
      (λ i.
        (p : Package) × Memᴰ p (get_packages parts fnmatch (i ∷ items))
        × (p.path ≡ path)
        × (p.package_dict ≡ e))
      same
      (
        record { name = package_name parts path e; path = path; package_dict = e },
        rw (kept, get_packages) (Memᴰ.head refl),
        refl,
        refl,
      )
get_packages-Mem parts fnmatch path e ((path2, e2) ∷ items) (Memᴰ.tail m) l n =
    let (p, k, r, d) = get_packages-Mem parts fnmatch path e items m l n in
    elim (Bool-cases (e2.link || path2 == "")) [
      | inl t ↦ (p, rw (t, get_packages) k, r, d)
      | inr f ↦ (p, rw (f, get_packages) (Memᴰ.tail k), r, d)
    ]

pub wanted_url-resolved :
    (p : Package) (url : String)
    → resolved_url p.path p.package_dict ≡ some url
    → (url == "") ≡ false
    → startswith url "file:" ≡ false
    → wanted_url p ≡ some url
unfolding wanted_url
wanted_url-resolved p url h n f = rw (h, wanted_url) (rw (n) (rw (f) refl))
