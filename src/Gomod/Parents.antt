-- ===== src/Gomod/Parents.antt =====
-- hermeto/core/package_managers/gomod.py: the module of a package.
use Prim.Native.Nat.{ℕ}
use cachi.Base.{
  String, Bool, true, false, ◌&&◌, Option, none, some, List, [], ◌∷◌, ◌==◌, ==→≡, string_eq, ltb,
  ◌≡◌, refl, sym, ap, subst, ◌∙◌, arith, Bool-cases, Option-cases, inl, inr, some_injective,
  not_some,
}
use cachi.Base.Dict.{set_item, get_item, keys_of}
use cachi.Base.Text.{length}
use cachi.Errors.{ok, ok_injective, not_returned}
use cachi.RootedPath.{is_relative_to}
use cachi.Gomod.Models.{ParsedModule, ParsedPackage, module_path}
use cachi.Gomod.Paths.{path_of, text_of}
use cachi.Gomod.Modules.{Module}
use cachi.Gomod.Names.{HasPart}
use cachi.Gomod.Packages.{
  Index, index_modules, longest_from, module_named, find_parent_module_by_name, parent_module,
}

-- The name of a module is the one in go.mod, which is the text of its path and has a part.
pub record IsPlain (m : Module) : Type 0 where
  pub same_name : m.name ≡ m.original_name
  pub normal : text_of (path_of m.original_name) ≡ m.original_name
  pub has_part : HasPart (path_of m.original_name).parts

abbrev pub AllPlain : List Module → Type 0
AllPlain [] = Unit
AllPlain (m ∷ ms) = IsPlain m × AllPlain ms

-- Of the names, none that the path is below is longer.
abbrev pub NoneLonger : String → String → List String → Type 0
NoneLonger import_path own [] = Unit
NoneLonger import_path own (n ∷ names) =
    ((is_relative_to (path_of import_path) (path_of n) && ltb (length own) (length n)) ≡ false)
    × NoneLonger import_path own names

-- Where the go command gives no module, the one that is found has the longest name.
abbrev pub Longest : Option ParsedModule → String → String → List String → Type 0
Longest none import_path own names = NoneLonger import_path own names
Longest (some m) import_path own names = own ≡ module_path m

abbrev pub AllIndexed : Index → Type 0
AllIndexed [] = Unit
AllIndexed ((k, m) ∷ index) = (m.original_name ≡ k) × IsPlain m × AllIndexed index

set_item-AllIndexed :
    (m : Module) (index : Index)
    → IsPlain m
    → AllIndexed index
    → AllIndexed (set_item m.original_name m index)
unfolding set_item
set_item-AllIndexed m [] p h = (refl, p, tt)
set_item-AllIndexed m ((k, n) ∷ index) p h = elim (Bool-cases (m.original_name == k)) [
  | inl t ↦ rw (t) (==→≡ m.original_name k t, p, h.2)
  | inr f ↦ rw (f) (h.0, h.1, set_item-AllIndexed m index p h.2)
]

pub index_modules-AllIndexed :
    (index : Index) (ms : List Module)
    → AllPlain ms
    → AllIndexed index
    → AllIndexed (index_modules index ms)
unfolding index_modules
index_modules-AllIndexed index [] p h = h
index_modules-AllIndexed index (m ∷ ms) p h =
    index_modules-AllIndexed (set_item m.original_name m index) ms p.1
      (set_item-AllIndexed m index p.0 h)

get_item-IsPlain :
    (name : String) (index : Index) {m : Module}
    → AllIndexed index
    → get_item name index ≡ some m
    → (m.original_name ≡ name) × IsPlain m
unfolding get_item
get_item-IsPlain name [] h e = absurd (not_some e)
get_item-IsPlain name ((k, n) ∷ index) {m} h e = elim (Bool-cases (name == k)) [
  | inl t ↦
      (let same = some_injective (rw (t) at e) in
        (
          ap (λ (x : Module). x.original_name) (sym same) ∙ h.0 ∙ sym (==→≡ name k t),
          subst IsPlain same h.1,
        ))
  | inr f ↦ get_item-IsPlain name index h.2 (rw (f) at e)
]

module_named-IsPlain :
    (name : String) (index : Index) {m : Module}
    → AllIndexed index
    → module_named name index ≡ ok m
    → (m.original_name ≡ name) × IsPlain m
unfolding module_named
module_named-IsPlain name index h e = elim (Option-cases (get_item name index)) [
  | inl n ↦ absurd (not_returned (rw (n, module_named) at e))
  | inr (n, g) ↦
      get_item-IsPlain name index h (g ∙ ap some (ok_injective (rw (g, module_named) at e)))
]

-- The best name so far is not longer than the result.
abbrev NotAbove : Option String → String → Type 0
NotAbove none w = Unit
NotAbove (some b) w = ltb (length w) (length b) ≡ false

up_to_longer : (a b n : ℕ) → ltb b n ≡ true → ltb a n ≡ false → ltb a b ≡ false
up_to_longer a b n h k = ground arith

up_to_shorter : (a b n : ℕ) → ltb b n ≡ false → ltb a b ≡ false → ltb a n ≡ false
up_to_shorter a b n h k = ground arith

not_shorter : (a : ℕ) → ltb a a ≡ false
not_shorter a = ground arith

and_false : (r b : Bool) → b ≡ false → (r && b) ≡ false
and_false r b h = ground arith

longest_from-NoneLonger :
    (import_path : String) (best : Option String) (names : List String) {w : String}
    → longest_from import_path best names ≡ some w
    → NoneLonger import_path w names × NotAbove best w
unfolding longest_from
longest_from-NoneLonger s none [] e = absurd (not_some e)
longest_from-NoneLonger s (some b) [] {w} e = (tt, rw (some_injective e) (not_shorter (length w)))
longest_from-NoneLonger s none (n ∷ names) {w} e =
    elim (Bool-cases (is_relative_to (path_of s) (path_of n))) [
      | inr f ↦
          (let (none_longer, above) = longest_from-NoneLonger s none names (rw (f) at e) in
            ((rw (f) refl, none_longer), tt))
      | inl t ↦
          (let (none_longer, above) = longest_from-NoneLonger s (some n) names (rw (t) at e) in
            ((and_false _ _ above, none_longer), tt))
    ]
longest_from-NoneLonger s (some b) (n ∷ names) {w} e =
    elim (Bool-cases (is_relative_to (path_of s) (path_of n))) [
      | inr f ↦
          (let (none_longer, above) = longest_from-NoneLonger s (some b) names (rw (f) at e) in
            ((rw (f) refl, none_longer), above))
      | inl t ↦ elim (Bool-cases (ltb (length b) (length n))) [
        | inl l ↦
            (let (none_longer, above) = longest_from-NoneLonger s (some n) names (rw (t, l) at e) in
              ((and_false _ _ above, none_longer), up_to_longer _ (length b) (length n) l above))
        | inr l ↦
            (let (none_longer, above) = longest_from-NoneLonger s (some b) names (rw (t, l) at e) in
              ((and_false _ _ (up_to_shorter _ (length b) (length n) l above), none_longer), above))
      ]
    ]

find_parent-NoneLonger :
    (index : Index) (s : String) {m : Module}
    → AllIndexed index
    → find_parent_module_by_name index s ≡ ok m
    → IsPlain m × NoneLonger s m.original_name (keys_of index)
unfolding find_parent_module_by_name
find_parent-NoneLonger index s {m} h e = elim (Option-cases (longest_from s none (keys_of index))) [
  | inl n ↦ absurd (not_returned (rw (n, find_parent_module_by_name) at e))
  | inr (w, l) ↦ elim (Bool-cases (w == "")) [
    | inl t ↦ absurd (not_returned (rw (l, find_parent_module_by_name, t) at e))
    | inr f ↦
        (let (same, plain) =
            module_named-IsPlain w index h (rw (l, find_parent_module_by_name, f) at e) in
          (
            plain,
            subst (λ x. NoneLonger s x (keys_of index)) (sym same)
                (longest_from-NoneLonger s none (keys_of index) l).0,
          ))
  ]
]

pub parent_module-Longest :
    (index : Index) (p : ParsedPackage) {m : Module}
    → AllIndexed index
    → parent_module index p ≡ ok m
    → IsPlain m × Longest p.parent p.import_path m.original_name (keys_of index)
unfolding parent_module
parent_module-Longest index p {m} h e = by_parent p.parent e
  where
    by_parent :
        (parent : Option ParsedModule)
        → (elim parent [
          | none ↦ find_parent_module_by_name index p.import_path
          | some x ↦ module_named (module_path x) index
        ])
          ≡ ok m
        → IsPlain m × Longest parent p.import_path m.original_name (keys_of index)
    by_parent none e = find_parent-NoneLonger index p.import_path h e
    by_parent (some x) e =
        (let (same, plain) = module_named-IsPlain (module_path x) index h e in (plain, same))
