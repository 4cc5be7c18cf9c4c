-- ===== src/Checksum/Chunks.antt =====
-- hermeto/core/checksum.py: `_get_hexdigest` and the size of its chunks.
use cachi.Base.{
  ℕ, zero, suc, ◌≤◌, Char, List, [], ◌∷◌, ◌++◌, ◌≡◌, refl, sym, ap, ◌∙◌, arith, String,
}
use cachi.Checksum.{Hashlib, read, count, update_chunks, get_hexdigest}

read-append : (n : ℕ) (content : List Char) → (read n content).0 ++ (read n content).1 ≡ content
unfolding read
read-append zero content = refl
read-append (suc n) [] = refl
read-append (suc n) (b ∷ content) = ap (λ l. b ∷ l) (read-append n content)

count-read : (n : ℕ) (content : List Char) → count (read n content).1 ≤ count content
unfolding read
count-read zero content = omega arith
count-read (suc n) [] = omega arith
count-read (suc n) (b ∷ content) = (let below = count-read n content in omega arith)

module _ {H : Type 0} (lib : Hashlib H) where
  -- What `hashlib` documents: two calls of `update` are one with the bytes of both, and no bytes
  -- change nothing.
  pub record Streams : Type 0 where
    pub twice : (h : H) (a b : List Char) → lib.update (lib.update h a) b ≡ lib.update h (a ++ b)
    pub nothing : (h : H) → lib.update h [] ≡ h

  update_chunks-all :
      Streams
      → (fuel size : ℕ) (h : H) (content : List Char) → count content ≤ fuel
      → update_chunks lib fuel (suc size) h content ≡ lib.update h content
  unfolding update_chunks read
  update_chunks-all laws zero size h [] k = sym (laws.nothing h)
  update_chunks-all laws zero size h (b ∷ content) k = absurd (omega arith)
  update_chunks-all laws (suc fuel) size h [] k = sym (laws.nothing h)
  update_chunks-all laws (suc fuel) size h (b ∷ content) k =
      let below = count-read size content in
      update_chunks-all laws fuel size _ (read size content).1 (omega arith)
      ∙ laws.twice h (b ∷ (read size content).0) (read size content).1
      ∙ ap (λ l. lib.update h (b ∷ l)) (read-append size content)

  -- For every size of the chunks but zero, the digest is that of one update with the whole file.
  pub get_hexdigest-whole :
      Streams
      → (content : List Char) (algorithm : String) (size : ℕ)
      → get_hexdigest lib content algorithm (suc size)
        ≡ lib.hexdigest (lib.update (lib.new algorithm) content)
  unfolding get_hexdigest
  get_hexdigest-whole laws content algorithm size =
      ap lib.hexdigest
        (update_chunks-all laws (count content) size (lib.new algorithm) content (omega arith))
