-- ===== src/Codec.antt =====
-- What block_posting_list asks of its template parameter `BlockCodec`.
pub mod Interpolative
pub mod Sample
use ds2i.Base.{
  ℕ, ◌+◌, ◌^◌, ◌≤◌, ◌<◌, ◌≡◌, ◌⊎◌, Option, some, List, [], ◌∷◌, ◌++◌, length, All, IsU8,
}
use ds2i.BlockCodec.{unknown}
use ds2i.BlockCodec.Sums.{sum}

-- `encode` appends a block to the bytes before it. `decode` is given the memory from the block on,
-- the array that it fills, the sum of the values or `unknown`, and their number; `slack` bytes
-- must follow the block, which its reads may touch.
pub record Codec : Type 0 where
  pub block_size : ℕ
  pub slack : ℕ
  pub encode : List ℕ → ℕ → List ℕ → Option (List ℕ)
  pub decode : List ℕ → List ℕ → ℕ → ℕ → Option (List ℕ × List ℕ)
  pub block_size_pos : 0 < block_size
  pub round_trip :
      (x sum_of_values : ℕ) (xs before : List ℕ)
      → length (x ∷ xs) ≤ block_size
      → sum (x ∷ xs) + 1 < 2 ^ 32
      → (sum_of_values ≡ sum (x ∷ xs)) ⊎ (sum_of_values ≡ unknown)
      → (bytes : List ℕ) × (encode (x ∷ xs) sum_of_values before ≡ some (before ++ bytes))
        × All IsU8 bytes
        × ((rest out : List ℕ)
            → All IsU8 rest
            → slack ≤ length rest
            → length out ≡ length (x ∷ xs)
            → decode (bytes ++ rest) out sum_of_values (length (x ∷ xs)) ≡ some (x ∷ xs, rest))
