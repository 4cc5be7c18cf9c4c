-- ===== src/RootedPath/Confined.antt =====
-- hermeto/core/rooted_path.py: where a path lies below its root.
use mathlib.Core.List.{foldl}
use cachi.Base.{
  String, Bool, true, false, some, List, [], ◌∷◌, ◌++◌, ◌≡◌, refl, sym, ap, subst, ◌∙◌, string_eq,
  bool_eq, Bool-cases, Option-cases, inl, inr, arith, if◌then◌else◌, append_assoc, append-nil,
}
use cachi.Errors.{
  not_returned, ok_injective, Result, ok, err, >>=-eq-ok, path_outside_root, value_error,
}
use cachi.RootedPath.{
  PurePath, RootedPath, join_path, behind, relative_to, is_relative_to, new, re_root,
  join_within_root, Reaches, stop, then_re_root, then_join,
}

-- The path is the root with more parts.
pub record IsBelow (root path : PurePath) : Type 0 where
  pub rest : List String
  pub absolute : path.absolute ≡ root.absolute
  pub parts : path.parts ≡ root.parts ++ rest

pub behind-append :
    (root parts rest : List String) → behind root parts ≡ some rest → parts ≡ root ++ rest
unfolding behind
behind-append [] parts rest h = cc
behind-append (r ∷ root) [] rest h = absurd cc
behind-append (r ∷ root) (p ∷ parts) rest h = ground (arith, behind-append root parts rest)

append-behind : (root rest : List String) → behind root (root ++ rest) ≡ some rest
unfolding behind
append-behind [] rest = refl
append-behind (r ∷ root) rest = ground (arith, append-behind root rest)

relative_to-IsBelow : (path root : PurePath) → is_relative_to path root ≡ true → IsBelow root path
unfolding is_relative_to relative_to
relative_to-IsBelow path root h = elim (Option-cases (behind root.parts path.parts)) [
  | inl p ↦ absurd (grind (arith, p))
  | inr (rest, p) ↦ record {
    rest = rest;
    absolute = ground arith;
    parts = behind-append root.parts path.parts rest p;
  }
]

IsBelow-refl : (p : PurePath) → IsBelow p p
IsBelow-refl p = record { rest = []; absolute = refl; parts = sym (append-nil p.parts) }

parts_of :
    (a b c : PurePath) (x : IsBelow a b) (y : IsBelow b c) → c.parts ≡ a.parts ++ (x.rest ++ y.rest)
parts_of a b c x y = y.parts ∙ ap (λ l. l ++ y.rest) x.parts ∙ append_assoc a.parts x.rest y.rest

IsBelow-trans : {a b c : PurePath} → IsBelow a b → IsBelow b c → IsBelow a c
IsBelow-trans {a} {b} {c} x y = record {
  rest = x.rest ++ y.rest;
  absolute = y.absolute ∙ x.absolute;
  parts = parts_of a b c x y;
}

ok_fields :
    (s : PurePath) {r : RootedPath}
    → ◌≡◌ {A = Result RootedPath} (ok (record { root = s; path = s })) (ok r)
    → (r.root ≡ s) × (r.path ≡ s)
ok_fields s h = (cc, cc)

of_test :
    (absolute : Bool) (s : PurePath) {r : RootedPath}
    → (if absolute then ok (record { root = s; path = s }) else err value_error) ≡ ok r
    → (r.root ≡ s) × (r.path ≡ s)
of_test true s h = ok_fields s h
of_test false s h = absurd cc

new-eq : (s : PurePath) {r : RootedPath} → new s ≡ ok r → (r.root ≡ s) × (r.path ≡ s)
unfolding new
new-eq s h = of_test s.absolute s h

module _ (resolve : PurePath → Result PurePath) where
  outside : {A : Type 0} {x : Result A} (r : A) → x ≡ err path_outside_root → x ≡ ok r → ⊥
  outside r e h = cc

  re_root-IsBelow :
      (p : RootedPath) (other : List PurePath) {r : RootedPath}
      → re_root resolve p other ≡ ok r
      → IsBelow p.root r.path × (r.root ≡ r.path)
  unfolding re_root new
  re_root-IsBelow p other {r} h =
      let (subpath, _, g) = >>=-eq-ok (resolve (foldl join_path p.path other)) _ h in
      elim (Bool-cases (is_relative_to subpath p.root)) [
        | inl q ↦
            let (root, path) = new-eq subpath (rw (q) at g) in
            (
              subst (λ x. IsBelow p.root x) (sym path) (relative_to-IsBelow subpath p.root q),
              root ∙ sym path,
            )
        | inr q ↦ absurd (outside r refl (rw (q) at g))
      ]

  -- Every path that the two methods reach from a path at its root stays at or below its own root,
  -- which stays at or below the first root.
  pub Reaches-IsBelow :
      {p q : RootedPath}
      → IsBelow p.root p.path
      → Reaches resolve p q
      → IsBelow q.root q.path × IsBelow p.root q.root
  unfolding join_within_root
  Reaches-IsBelow b stop = (b, IsBelow-refl _)
  Reaches-IsBelow b (then_re_root {q = q} {r = r} other steps h) =
      let (_, below) = Reaches-IsBelow b steps in
      let (inside, same) = re_root-IsBelow q other h in
      (
        subst (λ x. IsBelow x r.path) (sym same) (IsBelow-refl r.path),
        IsBelow-trans below (subst (λ x. IsBelow q.root x) (sym same) inside),
      )
  Reaches-IsBelow {p} b (then_join {q = q} {r = r} other steps h) =
      let (_, below) = Reaches-IsBelow b steps in
      let (s, e, g) = >>=-eq-ok (re_root resolve q other) _ h in
      let (inside, same) = re_root-IsBelow q other e in
      subst (λ x. IsBelow x.root x.path × IsBelow p.root x.root) (ok_injective g) (inside, below)

  -- What `join_within_root` returns is at or below the root, which is kept.
  pub join_within_root-IsBelow :
      (p : RootedPath) (other : List PurePath) {r : RootedPath}
      → join_within_root resolve p other ≡ ok r
      → IsBelow p.root r.path × (r.root ≡ p.root)
  unfolding join_within_root
  join_within_root-IsBelow p other h =
      let (s, e, g) = >>=-eq-ok (re_root resolve p other) _ h in
      let (inside, same) = re_root-IsBelow p other e in
      subst (λ x. IsBelow p.root x.path × (x.root ≡ p.root)) (ok_injective g) (inside, refl)

  -- What `join_within_root` returns is what `Path.resolve` gives for some path.
  pub join_within_root-resolve :
      (p : RootedPath) (other : List PurePath) {r : RootedPath}
      → join_within_root resolve p other ≡ ok r
      → (q : PurePath) × (resolve q ≡ ok r.path)
  unfolding join_within_root re_root
  join_within_root-resolve p other h =
      let (s, e, g) = >>=-eq-ok (re_root resolve p other) _ h in
      let (subpath, e2, g2) = >>=-eq-ok (resolve (foldl join_path p.path other)) _ e in
      elim (Bool-cases (is_relative_to subpath p.root)) [
        | inl t ↦
            (let (_, path) = new-eq subpath (rw (t) at g2) in
              (
                foldl join_path p.path other,
                e2 ∙ ap ok (sym path ∙ ap (λ (x : RootedPath). x.path) (ok_injective g)),
              ))
        | inr f ↦ absurd (not_returned (rw (f) at g2))
      ]
