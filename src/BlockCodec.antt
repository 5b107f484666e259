-- ===== src/BlockCodec.antt =====
-- `interpolative_block` of block_codecs.hpp: a block of values as the interpolative code of its
-- prefix sums, cut to whole bytes. Memory is a list of bytes from the pointer on.
pub mod Bytes
pub mod Sums
mod Buffers
pub mod RoundTrip
mod Tests
use ds2i.Base.{
  ℕ, zero, suc, ◌+◌, ◌-◌, ◌*◌, ◌/◌, ◌%◌, ◌^◌, Option, none, some, List, [], ◌∷◌, ◌++◌, ◌==◌, leb,
  if◌then◌else◌, ◌>>=◌, length, get_or, set, take, drop,
}
use ds2i.Succinct.{Broadword, Util}
use ds2i.Varbyte
use ds2i.Interpolative.{
  BitWriter, bit_writer, BitReader, bit_reader, write_interpolative, read_interpolative, sub32,
}

-- The words of a buffer as bytes, lowest byte first.
unfoldable pub bytes_of : List ℕ → List ℕ
bytes_of [] = []
bytes_of (x ∷ xs) =
    (x % 2 ^ 8) ∷ (x / 2 ^ 8 % 2 ^ 8) ∷ (x / 2 ^ 16 % 2 ^ 8) ∷ (x / 2 ^ 24 % 2 ^ 8) ∷ bytes_of xs

-- The bytes read as words; a word that is not whole cannot be read.
pub words_of : List ℕ → List ℕ
words_of (a ∷ b ∷ c ∷ d ∷ rest) = (a + 2 ^ 8 * b + 2 ^ 16 * c + 2 ^ 24 * d) ∷ words_of rest
words_of _ = []

-- `inbuf[i] = inbuf[i - 1] + in[i]`, from the sum of the values before.
pub prefix_sums : ℕ → List ℕ → List ℕ
prefix_sums acc [] = []
prefix_sums acc (x ∷ xs) = let s = (acc + x) % 2 ^ 32 in s ∷ prefix_sums s xs

-- `for (size_t i = n - 1; i > 0; --i) out[i] -= out[i - 1];` with `i` rounds left.
pub subtract_loop : ℕ → List ℕ → List ℕ
subtract_loop zero out = out
subtract_loop (suc i) out =
    subtract_loop i (set out (suc i) (sub32 (get_or out (suc i) 0) (get_or out i 0)))

abbrev pub block_size : ℕ
block_size = 128

-- `uint32_t(-1)` stands for a sum that is not known.
abbrev pub unknown : ℕ
unknown = 2 ^ 32 - 1

module _ (broadword : Broadword) (util : Util) where
  open util use {ceil_div}

  -- `n` is the length of `input`. `none` is an access behind a buffer, a call with `n` 0, or one with
  -- more values than a block has, which an assertion refuses and for which `inbuf` has no place.
  pub encode : List ℕ → ℕ → List ℕ → Option (List ℕ)
  encode [] sum_of_values out = none
  encode (x ∷ xs) sum_of_values out =
      let input = x ∷ xs in
      let n = length input in
      let inbuf = prefix_sums 0 input in
      let last = get_or inbuf (n - 1) 0 in
      let sum = if sum_of_values == unknown then last else sum_of_values in
      let out' = if sum_of_values == unknown then Varbyte.encode_single last out else out in
      let written = do
        bw ← write_interpolative broadword (n - 1) bit_writer inbuf (n - 1) 0 sum
        some (out' ++ take (ceil_div bw.size 8) (bytes_of bw.buf))
      in if leb n block_size then written else none

  -- The part of `decode` behind the sum: the array and the pointer returned.
  pub decode_gaps : List ℕ → List ℕ → ℕ → ℕ → Option (List ℕ × List ℕ)
  decode_gaps inbuf out sum n =
      let out' = set out (n - 1) sum in
      let rest = do
        (sums, br) ←
            read_interpolative broadword (n - 1) (bit_reader (words_of inbuf)) out' 0 (n - 1) 0 sum
        some (subtract_loop (n - 1) sums, drop (ceil_div br.pos 8) inbuf)
      in if n == 1 then some (out', inbuf) else rest

  -- `none` is an access behind a buffer, a call with `n` 0, which writes before the array, or one with
  -- more values than a block has, which an assertion refuses.
  pub decode : List ℕ → List ℕ → ℕ → ℕ → Option (List ℕ × List ℕ)
  decode input out sum_of_values zero = none
  decode input out sum_of_values (suc n) =
      let read_sum = do
        (sums, inbuf) ← Varbyte.decode input 1
        decode_gaps inbuf out (get_or sums 0 0) (suc n)
      in if leb (suc n) block_size
        then (if sum_of_values == unknown
            then read_sum
            else decode_gaps input out sum_of_values (suc n))
        else none
