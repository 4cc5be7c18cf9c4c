-- ===== src/Base/Order.antt =====
-- Python's `<`, where it is a strict total order, and its instance on `str`.
use Prim.Native.Nat.{ℕ}
use Prim.Native.Char.{Char, code}
use Prim.Native.String.{String, [] as ε, ◌∷◌ as ◌▹◌}
use mathlib.Core.Path.{◌≡◌, refl}
use mathlib.Core.Bool.{Bool, true, false}
use mathlib.Core.List.{List, [], ◌∷◌}
use native.Mathlib.Omega.{arith}
use text.Mathlib.TextEquality.{Char-path}
use cachi.Base.Tests.{ltb, if◌then◌else◌}

pub record Ord {ℓ} (A : Type ℓ) : Type ℓ where
  pub lt : A → A → Bool
  pub asym : (a b : A) → lt a b ≡ true → lt b a ≡ false
  pub trans : (a b c : A) → lt a b ≡ true → lt b c ≡ true → lt a c ≡ true
  pub connex : (a b : A) → lt a b ≡ false → lt b a ≡ false → a ≡ b

-- `s < t` on `str`: by code points, and a proper prefix comes first.
pub str_lt : String → String → Bool
str_lt s ε = false
str_lt ε (d ▹ t) = true
str_lt (c ▹ s) (d ▹ t) =
    if ltb (code c) (code d) then true else if ltb (code d) (code c) then false else str_lt s t

pub str_lt_asym : (s t : String) → str_lt s t ≡ true → str_lt t s ≡ false
unfolding str_lt
str_lt_asym ε ε h = refl
str_lt_asym (c ▹ s) ε h = ground arith
str_lt_asym ε (d ▹ t) h = refl
str_lt_asym (c ▹ s) (d ▹ t) h = ground (arith, str_lt_asym s t)

pub str_lt_trans : (s t u : String) → str_lt s t ≡ true → str_lt t u ≡ true → str_lt s u ≡ true
unfolding str_lt
str_lt_trans ε ε u h k = ground arith
str_lt_trans (c ▹ s) ε u h k = ground arith
str_lt_trans ε (d ▹ t) ε h k = ground arith
str_lt_trans ε (d ▹ t) (e ▹ u) h k = refl
str_lt_trans (c ▹ s) (d ▹ t) ε h k = ground arith
str_lt_trans (c ▹ s) (d ▹ t) (e ▹ u) h k = ground (arith, str_lt_trans s t u)

code_eq : (m n : ℕ) → ltb m n ≡ false → ltb n m ≡ false → m ≡ n
code_eq m n h k = ground arith

heads_eq : (c d : Char) → ltb (code c) (code d) ≡ false → ltb (code d) (code c) ≡ false → c ≡ d
heads_eq c d h k = Char-path c d (code_eq _ _ h k)

pub str_lt_connex : (s t : String) → str_lt s t ≡ false → str_lt t s ≡ false → s ≡ t
unfolding str_lt
str_lt_connex ε ε h k = refl
str_lt_connex (c ▹ s) ε h k = ground arith
str_lt_connex ε (d ▹ t) h k = ground arith
str_lt_connex (c ▹ s) (d ▹ t) h k = ground (arith, str_lt_connex s t, heads_eq c d)

instance unfoldable pub string_ord : Ord String
unfolding str_lt
string_ord = record {
  lt = str_lt;
  asym = str_lt_asym;
  trans = str_lt_trans;
  connex = str_lt_connex;
}

module _ {ℓ} {A : Type ℓ} ⦃o : Ord A⦄ where
  -- `a < b` on lists and tuples of one type: by the first items that differ.
  pub list_lt : List A → List A → Bool
  list_lt xs [] = false
  list_lt [] (y ∷ ys) = true
  list_lt (x ∷ xs) (y ∷ ys) = if o.lt x y then true else if o.lt y x then false else list_lt xs ys

  pub list_lt_asym : (a b : List A) → list_lt a b ≡ true → list_lt b a ≡ false
  unfolding list_lt
  list_lt_asym [] [] h = refl
  list_lt_asym (x ∷ a) [] h = ground arith
  list_lt_asym [] (y ∷ b) h = refl
  list_lt_asym (x ∷ a) (y ∷ b) h = ground (arith, list_lt_asym a b, o.asym x y)

  pub list_lt_trans :
      (a b c : List A) → list_lt a b ≡ true → list_lt b c ≡ true → list_lt a c ≡ true
  unfolding list_lt
  list_lt_trans [] [] c h k = ground arith
  list_lt_trans (x ∷ a) [] c h k = ground arith
  list_lt_trans [] (y ∷ b) [] h k = ground arith
  list_lt_trans [] (y ∷ b) (z ∷ c) h k = refl
  list_lt_trans (x ∷ a) (y ∷ b) [] h k = ground arith
  list_lt_trans (x ∷ a) (y ∷ b) (z ∷ c) h k = ground (
    arith,
    list_lt_trans a b c,
    o.trans x y z,
    o.trans z x y,
    o.trans y z x,
    o.asym x y,
    o.asym y x,
    o.asym y z,
    o.asym z y,
    o.asym x z,
    o.connex x y,
    o.connex y z,
    o.connex x z,
  )

  pub list_lt_connex : (a b : List A) → list_lt a b ≡ false → list_lt b a ≡ false → a ≡ b
  unfolding list_lt
  list_lt_connex [] [] h k = refl
  list_lt_connex (x ∷ a) [] h k = ground arith
  list_lt_connex [] (y ∷ b) h k = ground arith
  list_lt_connex (x ∷ a) (y ∷ b) h k = ground (arith, list_lt_connex a b, o.connex x y)

  instance unfoldable pub list_ord : Ord (List A)
  unfolding list_lt
  list_ord = record {
    lt = list_lt;
    asym = list_lt_asym;
    trans = list_lt_trans;
    connex = list_lt_connex;
  }

-- The order of values by a key that tells them apart.
unfoldable pub ord_by {ℓ κ} :
    {A : Type ℓ} {K : Type κ} ⦃o : Ord K⦄ (key : A → K)
    → ((a b : A) → key a ≡ key b → a ≡ b)
    → Ord A
ord_by ⦃o = o⦄ key same = record {
  lt = λ a b. o.lt (key a) (key b);
  asym = λ a b. o.asym (key a) (key b);
  trans = λ a b c. o.trans (key a) (key b) (key c);
  connex = λ a b h k. same a b (o.connex (key a) (key b) h k);
}
