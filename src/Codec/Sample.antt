-- ===== src/Codec/Sample.antt =====
-- A codec that stores each value as a 32-bit word.
use ds2i.Base.{
  ℕ, zero, suc, ◌+◌, ◌*◌, ◌/◌, ◌%◌, ◌^◌, ◌≤◌, ◌<◌, ◌≡◌, refl, ◌⊎◌, Option, none, some, List, [],
  ◌∷◌, ◌++◌, length, arith, All, IsU8, ◌>>=◌,
}
use ds2i.BlockCodec.{bytes_of, unknown}
use ds2i.BlockCodec.Bytes.{bytes_of-IsU8}
use ds2i.BlockCodec.Sums.{sum}
use ds2i.Codec.{Codec}

abbrev read_words : ℕ → List ℕ → Option (List ℕ × List ℕ)
read_words zero bytes = some ([], bytes)
read_words (suc k) (a ∷ b ∷ c ∷ d ∷ bytes) = do
  (words, rest) ← read_words k bytes
  some ((a + 2 ^ 8 * b + 2 ^ 16 * c + 2 ^ 24 * d) ∷ words, rest)
read_words (suc k) _ = none

read_words-bytes_of :
    (ws rest : List ℕ)
    → sum ws < 2 ^ 32
    → read_words (length ws) (bytes_of ws ++ rest) ≡ some (ws, rest)
unfolding bytes_of
read_words-bytes_of [] rest small = refl
read_words-bytes_of (w ∷ ws) rest small =
    let word : w % 2 ^ 8
          + 2 ^ 8 * (w / 2 ^ 8 % 2 ^ 8)
          + 2 ^ 16 * (w / 2 ^ 16 % 2 ^ 8)
          + 2 ^ 24 * (w / 2 ^ 24 % 2 ^ 8)
        ≡ w =
      omega arith in
    rw (read_words-bytes_of ws rest (omega arith), word) refl

pub round_trip :
    (x sum_of_values : ℕ) (xs before : List ℕ)
    → length (x ∷ xs) ≤ 2
    → sum (x ∷ xs) + 1 < 2 ^ 32
    → (sum_of_values ≡ sum (x ∷ xs)) ⊎ (sum_of_values ≡ unknown)
    → (bytes : List ℕ) × (some (before ++ bytes_of (x ∷ xs)) ≡ some (before ++ bytes))
      × All IsU8 bytes
      × ((rest out : List ℕ)
          → All IsU8 rest
          → 0 ≤ length rest
          → length out ≡ length (x ∷ xs)
          → read_words (length (x ∷ xs)) (bytes ++ rest) ≡ some (x ∷ xs, rest))
round_trip x s xs before few small known = (
  bytes_of (x ∷ xs),
  refl,
  bytes_of-IsU8 (x ∷ xs),
  λ rest out us long l. read_words-bytes_of (x ∷ xs) rest (omega (arith, small)),
)

abbrev pub word_codec : Codec
word_codec = record {
  block_size = 2;
  slack = 0;
  encode = λ xs s out. some (out ++ bytes_of xs);
  decode = λ bytes out s k. read_words k bytes;
  block_size_pos = omega arith;
  round_trip = round_trip;
}
