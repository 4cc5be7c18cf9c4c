-- ===== src/Checksum/Integrity.antt =====
-- hermeto/core/checksum.py: which value `from_sri` takes, and `from_hash` on what `__str__` writes.
use cachi.Base.{
  String, ◌<>◌, true, false, Option, none, some, List, [], ◌∷◌, ◌≡◌, refl, string_eq, nat_eq,
  string_ord, char_eq, Bool-cases, inl, inr, arith,
}
use Prim.Native.String.{[] as ε, ◌∷◌ as ◌▹◌}
use text.Mathlib.TextLemmas.{nil-append, cons-append}
use cachi.Base.Text.{cut, partition, has_char}
use cachi.Checksum.{
  ChecksumInfo, info_str, from_hash, Candidate, candidate_lt, candidate, better, best_of,
}

cut_first : (b : String) → cut ":" (":" <> b) ≡ some (ε, b)
unfolding cut char_eq
cut_first b = rw (cons-append ":" ε b, nil-append b) refl

cut_none : (a b : String) → has_char ":" a ≡ false → cut ":" (a <> (":" <> b)) ≡ some (a, b)
unfolding cut has_char
cut_none ε b h = rw (nil-append (":" <> b)) (cut_first b)
cut_none (c ▹ a) b h = rw (cons-append c a (":" <> b)) (ground (arith, cut_none a b))

-- What `__str__` writes, `from_hash` reads back, if the algorithm's name has no colon.
pub from_hash-info_str :
    (c : ChecksumInfo) → has_char ":" c.algorithm ≡ false → from_hash (info_str c) ≡ c
unfolding from_hash info_str partition
from_hash-info_str c h = ground (arith, cut_none c.algorithm c.hexdigest h)

-- No candidate of the parts is above the one that the loop ends with.
abbrev pub NotAbove : Option Candidate → Option Candidate → Type 0
NotAbove none best = Unit
NotAbove (some c) none = ⊥
NotAbove (some c) (some best) = candidate_lt best c ≡ false

abbrev pub IsUpperBound : Option Candidate → List String → Type 0
IsUpperBound best [] = Unit
IsUpperBound best (part ∷ parts) = NotAbove (candidate part) best × IsUpperBound best parts

lt_asym : (a b : Candidate) → candidate_lt a b ≡ true → candidate_lt b a ≡ false
unfolding candidate_lt
lt_asym (p, alg, val) (q, alg2, val2) h =
    ground (arith, string_ord.asym alg alg2, string_ord.asym val val2)

lt_trans :
    (a b c : Candidate)
    → candidate_lt a b ≡ true
    → candidate_lt b c ≡ true
    → candidate_lt a c ≡ true
unfolding candidate_lt
lt_trans (p, alg, val) (q, alg2, val2) (r, alg3, val3) h k = ground (
  arith,
  string_ord.trans alg alg2 alg3,
  string_ord.trans val val2 val3,
  string_ord.asym alg alg2,
  string_ord.asym alg2 alg3,
)

not_above :
    (a b c : Candidate)
    → candidate_lt a c ≡ false
    → candidate_lt a b ≡ true
    → candidate_lt b c ≡ false
not_above a b c h k = grind (arith, lt_trans)

NotAbove-better :
    (c best current : Option Candidate) → NotAbove c best → NotAbove c (better best current)
unfolding better
NotAbove-better none best current h = tt
NotAbove-better (some c) none current h = absurd h
NotAbove-better (some c) (some best) none h = h
NotAbove-better (some c) (some best) (some current) h =
    elim (Bool-cases (candidate_lt best current)) [
      | inl p ↦ rw (p, better) (not_above best current c h p)
      | inr p ↦ rw (p, better) h
    ]

NotAbove-current : (best current : Option Candidate) → NotAbove current (better best current)
unfolding better
NotAbove-current best none = tt
NotAbove-current none (some current) = grind (arith, lt_asym)
NotAbove-current (some best) (some current) = elim (Bool-cases (candidate_lt best current)) [
  | inl p ↦ rw (p, better) (grind (arith, lt_asym))
  | inr p ↦ rw (p, better) p
]

NotAbove-best_of :
    (c best : Option Candidate) (parts : List String)
    → NotAbove c best
    → NotAbove c (best_of best parts)
unfolding best_of
NotAbove-best_of c best [] h = h
NotAbove-best_of c best (part ∷ parts) h =
    NotAbove-best_of c (better best (candidate part)) parts
      (NotAbove-better c best (candidate part) h)

-- The integrity value that the loop ends with is not below that of any part: the order is by the
-- priority of the algorithm, then by its name, then by the value.
pub best_of-IsUpperBound :
    (best : Option Candidate) (parts : List String) → IsUpperBound (best_of best parts) parts
unfolding best_of
best_of-IsUpperBound best [] = tt
best_of-IsUpperBound best (part ∷ parts) = (
  NotAbove-best_of (candidate part) (better best (candidate part)) parts
      (NotAbove-current best (candidate part)),
  best_of-IsUpperBound (better best (candidate part)) parts,
)
