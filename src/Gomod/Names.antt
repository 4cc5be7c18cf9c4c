-- ===== src/Gomod/Names.antt =====
-- hermeto/core/package_managers/gomod.py: the names of packages are their import paths.
use Prim.Native.String.{[] as ε, ◌∷◌ as ◌▹◌}
use text.Mathlib.TextLemmas.{append_assoc as text_append_assoc, cons-append}
use cachi.Base.{
  String, ◌<>◌, Bool, true, false, Option, none, some, List, [], ◌∷◌, ◌++◌, ◌==◌, ==_refl, ==→≡,
  Char, char_eq, string_eq, bool_eq, if◌then◌else◌, ◌≡◌, refl, sym, ap, ap₂, subst, ◌∙◌, arith,
  Bool-cases, Option-cases, inl, inr, append-nil,
}
use cachi.Base.Text.{startswith, join, split_on, length}
use cachi.Base.Text.Affixes.{removeprefix}
use cachi.Errors.{ok, >>=-eq-ok, ok_injective, not_returned}
use cachi.RootedPath.{PurePath, behind, relative_to}
use cachi.RootedPath.Confined.{behind-append}
use cachi.Gomod.Models.{ParsedPackage}
use cachi.Gomod.Paths.{kept_parts, path_of, parts_text, text_of}
use cachi.Gomod.Modules.{Module}
use cachi.Gomod.Packages.{below, resolve_package_relative_path}

-- The parts of a path are not empty.
abbrev AllGiven : List String → Type 0
AllGiven [] = Unit
AllGiven (p ∷ parts) = ((p == "") ≡ false) × AllGiven parts

kept_parts-AllGiven : (parts : List String) → AllGiven (kept_parts parts)
unfolding kept_parts
kept_parts-AllGiven [] = tt
kept_parts-AllGiven (p ∷ parts) = ground (arith, kept_parts-AllGiven parts)

path_of-AllGiven : (s : String) → AllGiven (path_of s).parts
unfolding path_of
path_of-AllGiven s = kept_parts-AllGiven (split_on "/" s)

AllGiven-behind : (root rest : List String) → AllGiven (root ++ rest) → AllGiven rest
AllGiven-behind [] rest h = h
AllGiven-behind (r ∷ root) rest h = AllGiven-behind root rest h.1

join-append :
    (p : String) (ps : List String) (q : String) (qs : List String)
    → join "/" ((p ∷ ps) ++ q ∷ qs) ≡ join "/" (p ∷ ps) <> ("/" <> join "/" (q ∷ qs))
unfolding join
join-append p [] q qs = refl
join-append p (r ∷ ps) q qs =
    ap (λ (s : String). p <> ("/" <> s)) (join-append r ps q qs) ∙ simp text_append_assoc

cons-given : (c : Char) (s : String) → ((c ▹ s) == "") ≡ false
cons-given c s = elim (Bool-cases ((c ▹ s) == "")) [
  | inl p ↦ absurd (let e = ap length (==→≡ (c ▹ s) "" p) in omega arith)
  | inr p ↦ p
]

startswith-append :
    (q t : String)
    → (q == "") ≡ false
    → startswith q "." ≡ false
    → (startswith (q <> t) "." ≡ false) × (((q <> t) == "") ≡ false)
unfolding startswith
startswith-append ε t h k = absurd (ground arith)
startswith-append (c ▹ q) t h k = rw (cons-append c q t) (ground arith, cons-given c (q <> t))

-- The text of a path whose first part is not empty, and does not begin with a dot.
join-dotless :
    (q : String) (qs : List String)
    → (q == "") ≡ false
    → startswith q "." ≡ false
    → (startswith (join "/" (q ∷ qs)) "." ≡ false) × ((join "/" (q ∷ qs) == "") ≡ false)
unfolding join
join-dotless q [] h k = (k, h)
join-dotless q (r ∷ qs) h k = startswith-append q ("/" <> join "/" (r ∷ qs)) h k

parts_text-append :
    (absolute : Bool) (p : String) (ps : List String) (q : String) (qs : List String)
    → parts_text absolute ((p ∷ ps) ++ q ∷ qs)
      ≡ parts_text absolute (p ∷ ps) <> ("/" <> parts_text false (q ∷ qs))
unfolding parts_text
parts_text-append true p ps q qs =
    ap (λ (s : String). "/" <> s) (join-append p ps q qs) ∙ sym (text_append_assoc "/" _ _)
parts_text-append false p ps q qs = join-append p ps q qs

-- No part begins with a dot.
abbrev pub AllDotless : List String → Type 0
AllDotless [] = Unit
AllDotless (p ∷ parts) = (startswith p "." ≡ false) × AllDotless parts

AllDotless-behind : (root rest : List String) → AllDotless (root ++ rest) → AllDotless rest
AllDotless-behind [] rest h = h
AllDotless-behind (r ∷ root) rest h = AllDotless-behind root rest h.1

abbrev relative : List String → PurePath
relative parts = record { absolute = false; parts = parts }

without_dot : removeprefix "." "." ≡ ""
unfolding removeprefix startswith cachi.Base.Text.Affixes.drop char_eq
without_dot = refl

-- The text of the parts behind a module's, below the module's name.
below-rest :
    (absolute : Bool) (p : String) (ps rest : List String)
    → AllGiven rest
    → AllDotless rest
    → below (parts_text absolute (p ∷ ps)) (removeprefix (text_of (relative rest)) ".")
      ≡ parts_text absolute ((p ∷ ps) ++ rest)
unfolding text_of removeprefix parts_text
below-rest absolute p ps [] g d =
    rw (without_dot, ==_refl {A = String} "")
      (ap (parts_text absolute) (ap (λ (l : List String). p ∷ l) (sym (append-nil ps))))
below-rest absolute p ps (q ∷ qs) g d =
    let (dotless, given) = join-dotless q qs g.0 d.0 in
    rw (dotless, given) (sym (parts_text-append absolute p ps q qs))

-- The parts of a path that is relative to another, behind those of the other.
relative_to-parts :
    (path root : PurePath) {rest : PurePath}
    → relative_to path root ≡ ok rest
    → (l : List String) × (rest ≡ relative l)
      × (path.absolute ≡ root.absolute)
      × (path.parts ≡ root.parts ++ l)
unfolding relative_to
relative_to-parts path root {rest} h = elim (Bool-cases (path.absolute == root.absolute)) [
  | inr f ↦ absurd (not_returned (rw (f) at h))
  | inl t ↦ elim (Option-cases (behind root.parts path.parts)) [
    | inl n ↦ absurd (not_returned (rw (t, n) at h))
    | inr (l, e) ↦ (
      l,
      sym (ok_injective (rw (t, e) at h)),
      ==→≡ path.absolute root.absolute t,
      behind-append root.parts path.parts l e,
    )
  ]
]

abbrev pub HasPart : List String → Type 0
HasPart [] = ⊥
HasPart (p ∷ parts) = Unit

below-parts :
    (absolute : Bool) (root l : List String)
    → HasPart root
    → AllGiven l
    → AllDotless l
    → below (parts_text absolute root) (removeprefix (text_of (relative l)) ".")
      ≡ parts_text absolute (root ++ l)
below-parts absolute [] l h g d = absurd h
below-parts absolute (p ∷ ps) l h g d = below-rest absolute p ps l g d

module _ (p : ParsedPackage) (m : Module) where
  -- The import path of a package is the name of its module, with the relative path that the two
  -- have, where both are the texts of their paths and no part begins with a dot.
  pub below_original :
      {rel : String}
      → resolve_package_relative_path p m ≡ ok rel
      → text_of (path_of p.import_path) ≡ p.import_path
      → text_of (path_of m.original_name) ≡ m.original_name
      → HasPart (path_of m.original_name).parts
      → AllDotless (path_of p.import_path).parts
      → below m.original_name rel ≡ p.import_path
  unfolding resolve_package_relative_path
  below_original {rel} h normal module_normal given dotless =
      let (rest, e, g) =
        >>=-eq-ok (relative_to (path_of p.import_path) (path_of m.original_name)) _ h in
      let (l, same, absolute, parts) = relative_to-parts _ _ e in
      let own = path_of m.original_name in
      let all : AllGiven (own.parts ++ l) = subst AllGiven parts (path_of-AllGiven p.import_path) in
      let plain : AllDotless (own.parts ++ l) = subst AllDotless parts dotless in
      ap (below m.original_name) (sym (ok_injective g))
      ∙ ap (λ (x : PurePath). below m.original_name (removeprefix (text_of x) ".")) same
      ∙ ap (λ (x : String). below x (removeprefix (text_of (relative l)) ".")) (sym module_normal)
      ∙ unfold text_of in
        below-parts own.absolute own.parts l given (AllGiven-behind own.parts l all)
          (AllDotless-behind own.parts l plain)
        ∙ ap₂ parts_text (sym absolute) (sym parts)
        ∙ normal
