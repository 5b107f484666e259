-- ===== src/Varbyte.antt =====
-- `TightVariableByte` of block_codecs.hpp: 32-bit values in one to five bytes, seven bits a byte,
-- lowest group first, with the top bit set on the last byte of a value.
-- A byte buffer is a list of numbers below 256; a pointer into it is the list that starts there.
pub mod RoundTrip
mod Tests
use ds2i.Base.{
  ℕ, zero, suc, ◌+◌, ◌-◌, ◌*◌, ◌/◌, ◌%◌, ◌^◌, ◌≤◌, ◌<◌, bit_and, bit_or, Bool, Option, none, some,
  List, [], ◌∷◌, ◌++◌, ltb, leb, ◌==◌, if◌then◌else◌, ◌>>=◌,
}

-- `static_cast<uint8_t>((val >> (7 * i)) & ((1U << 7) - 1))`
extract7bits : ℕ → ℕ → ℕ
extract7bits i val = bit_and (val / 2 ^ (7 * i)) (2 ^ 7 - 1) % 2 ^ 8

extract7bitsmaskless : ℕ → ℕ → ℕ
extract7bitsmaskless i val = val / 2 ^ (7 * i) % 2 ^ 8

-- The body of the loop of `encode`: the bytes written for one value.
encode_value : ℕ → List ℕ
encode_value val =
    if ltb val (2 ^ 7)
    then bit_or val (2 ^ 7) % 2 ^ 8 ∷ []
    else if ltb val (2 ^ 14)
    then extract7bits 0 val ∷ bit_or (extract7bitsmaskless 1 val) (2 ^ 7) % 2 ^ 8 ∷ []
    else if ltb val (2 ^ 21)
    then extract7bits 0 val
      ∷ extract7bits 1 val
      ∷ bit_or (extract7bitsmaskless 2 val) (2 ^ 7) % 2 ^ 8
      ∷ []
    else if ltb val (2 ^ 28)
    then extract7bits 0 val
      ∷ extract7bits 1 val
      ∷ extract7bits 2 val
      ∷ bit_or (extract7bitsmaskless 3 val) (2 ^ 7) % 2 ^ 8
      ∷ []
    else extract7bits 0 val
      ∷ extract7bits 1 val
      ∷ extract7bits 2 val
      ∷ extract7bits 3 val
      ∷ bit_or (extract7bitsmaskless 4 val) (2 ^ 7) % 2 ^ 8
      ∷ []

-- The bytes written to `out`; `nvalue` is their number.
unfoldable pub encode : List ℕ → List ℕ
unfolding encode_value extract7bits extract7bitsmaskless
encode [] = []
encode (val ∷ rest) = encode_value val ++ encode rest

-- `out.insert(out.end(), ...)` of the encoding of one value.
unfoldable pub encode_single : ℕ → List ℕ → List ℕ
unfolding encode
encode_single val out = out ++ encode (val ∷ [])

-- The inner loop of `decode`. `none` is a read behind the buffer, or a shift by 32 or more, which
-- the language leaves undefined.
decode_value : List ℕ → ℕ → ℕ → Option (ℕ × List ℕ)
decode_value [] v shift = none
decode_value (c ∷ inbyte) v shift =
    let v' = (v + bit_and c 127 * 2 ^ shift % 2 ^ 32) % 2 ^ 32 in
    let more = decode_value inbyte v' (shift + 7) in
    if leb 32 shift then none else if bit_and c 128 == 0 then more else some (v', inbyte)

-- The values written to `out`, and the pointer returned.
pub decode : List ℕ → ℕ → Option (List ℕ × List ℕ)
unfolding decode_value
decode inbyte zero = some ([], inbyte)
decode inbyte (suc n) = do
  (v, inbyte') ← decode_value inbyte 0 0
  (vs, rest) ← decode inbyte' n
  some (v ∷ vs, rest)
