-- ===== src/Checksum.antt =====
-- hermeto/core/checksum.py: `ChecksumInfo`, the choice of an integrity value, and the verification
-- of a file, of which the model holds the bytes.
pub mod Integrity
pub mod Verify
pub mod Chunks
use mathlib.Core.List.{foldl}
use cachi.Base.{
  ℕ, zero, suc, ◌+◌, String, ◌<>◌, Char, Bool, true, false, not, ◌&&◌, ◌||◌, Option, none, some,
  List, [], ◌∷◌, ◌==◌, string_eq, nat_eq, string_ord, char_eq, if◌then◌else◌, contains, ltb,
}
use cachi.Base.Sets.{set_add}
use cachi.Base.Text.{cut, partition, split, strip, lower}
use cachi.Errors.{
  Result, ok, err, ◌>>=◌, missing_checksum, invalid_checksum, checksum_verification_failed,
}

pub record ChecksumInfo : Type 0 where
  pub algorithm : String
  pub hexdigest : String

-- `__str__`
unfoldable pub info_str : ChecksumInfo → String
info_str c = c.algorithm <> (":" <> c.hexdigest)

-- `from_hash`
unfoldable pub from_hash : String → ChecksumInfo
unfolding partition
from_hash h =
    let (algorithm, digest) = partition ":" h in
    record { algorithm = algorithm; hexdigest = digest }

-- `sri_hash_priorities.get(alg, 0)`
unfoldable pub priority : String → ℕ
priority alg =
    if alg == "sha512" then 3 else if alg == "sha384" then 2 else if alg == "sha256" then 1 else 0

-- A priority, an algorithm and a value.
abbrev pub Candidate : Type 0
Candidate = ℕ × String × String

-- `<` on the tuples.
unfoldable pub candidate_lt : Candidate → Candidate → Bool
candidate_lt (p, alg, val) (q, alg2, val2) =
    if p == q
    then (if alg == alg2 then string_ord.lt val val2 else string_ord.lt alg alg2)
    else ltb p q

-- What one part of the text gives, if the loop does not skip it.
unfoldable pub candidate : String → Option Candidate
unfolding cut strip lower priority
candidate part = elim (cut "-" (strip part)) [
  | none ↦ none
  | some (alg, val) ↦
      if lower alg == "" || strip val == ""
      then none
      else some (priority (lower alg), lower alg, strip val)
]

-- The end of the loop's body: the better one of `best` and `current`.
unfoldable pub better : Option Candidate → Option Candidate → Option Candidate
unfolding candidate_lt
better best none = best
better none (some current) = some current
better (some best) (some current) = if candidate_lt best current then some current else some best

unfoldable pub best_of : Option Candidate → List String → Option Candidate
unfolding better candidate
best_of best [] = best
best_of best (part ∷ parts) = best_of (better best (candidate part)) parts

-- What base64 does, each way: `decode` gives the hex digits, or `none` for a `binascii.Error`, and
-- `encode` is what `to_sri` puts behind the dash, for hex digits.
pub record Base64 : Type 0 where
  pub decode : String → Option String
  pub encode : String → String

module _ (base64 : Base64) where
  unfoldable pub to_sri : ChecksumInfo → String
  to_sri c = c.algorithm <> ("-" <> base64.encode c.hexdigest)

  unfoldable pub from_sri : String → Result ChecksumInfo
  unfolding best_of split
  from_sri sri = elim (best_of none (split sri)) [
    | none ↦ err missing_checksum
    | some (_, alg, val) ↦ elim (base64.decode val) [
      | none ↦ err invalid_checksum
      | some digest ↦ ok (record { algorithm = alg; hexdigest = digest })
    ]
  ]

-- `hashlib`, with the states of its hash objects. `hexdigest` may raise: a hash of variable length
-- wants the length as an argument.
pub record Hashlib (H : Type 0) : Type 0 where
  pub guaranteed : String → Bool
  pub new : String → H
  pub update : H → List Char → H
  pub hexdigest : H → Result String

abbrev pub count : List Char → ℕ
count [] = 0
count (b ∷ content) = 1 + count content

-- `f.read(n)` on what is left of the file, and what is left behind it.
unfoldable pub read : ℕ → List Char → List Char × List Char
read zero content = ([], content)
read (suc n) [] = ([], [])
read (suc n) (b ∷ content) = let (chunk, rest) = read n content in (b ∷ chunk, rest)

-- `_group_by_algorithm`: the dict in the order of its insertions.
unfoldable pub add_digest : List (String × List String) → ChecksumInfo → List (String × List String)
add_digest [] c = (c.algorithm, c.hexdigest ∷ []) ∷ []
add_digest ((algorithm, digests) ∷ groups) c =
    if algorithm == c.algorithm
    then (algorithm, set_add c.hexdigest digests) ∷ groups
    else (algorithm, digests) ∷ add_digest groups c

unfoldable pub group_by_algorithm : List ChecksumInfo → List (String × List String)
unfolding add_digest
group_by_algorithm checksums = foldl add_digest [] checksums

module _ {H : Type 0} (lib : Hashlib H) where
  -- The loop of `_get_hexdigest`, which ends at a chunk without bytes.
  unfoldable pub update_chunks : ℕ → ℕ → H → List Char → H
  unfolding read
  update_chunks zero size hasher content = hasher
  update_chunks (suc fuel) size hasher content = elim (read size content).0 [
    | [] ↦ hasher
    | b ∷ bs ↦ update_chunks fuel size (lib.update hasher (b ∷ bs)) (read size content).1
  ]

  -- A file of `n` bytes has at most `n` chunks that are not empty.
  unfoldable pub get_hexdigest : List Char → String → ℕ → Result String
  unfolding update_chunks
  get_hexdigest content algorithm size =
      lib.hexdigest (update_chunks (count content) size (lib.new algorithm) content)

  -- The loop of `must_match_any_checksum`, over the groups.
  unfoldable pub match_groups : List Char → ℕ → List (String × List String) → Result (Unit {0})
  unfolding get_hexdigest
  match_groups content size [] = err checksum_verification_failed
  match_groups content size ((algorithm, digests) ∷ groups) =
      let rest = match_groups content size groups in
      if lib.guaranteed algorithm
      then (get_hexdigest content algorithm size >>= λ digest.
          if contains digests digest then ok tt else rest)
      else rest

  unfoldable pub must_match_any_checksum : List Char → List ChecksumInfo → ℕ → Result (Unit {0})
  unfolding match_groups group_by_algorithm
  must_match_any_checksum content expected size =
      match_groups content size (group_by_algorithm expected)
