-- ===== src/Interpolative/RoundTrip.antt =====
-- The writer and the reader together.
use ds2i.Base.{
  ℕ, ◌+◌, ◌-◌, ◌*◌, ◌^◌, ◌≤◌, ◌<◌, ◌≡◌, ap, sym, subst, ◌∙◌, List, [], ◌∷◌, ◌++◌, length,
  length-append, some, arith, append-nil, All, All-append, IsU32, ◌==◌, false,
}
use ds2i.Base.Bits.{two-pow-add}
use ds2i.Succinct.{Broadword}
use ds2i.Interpolative.{
  BitWriter, bit_writer, BitReader, bit_reader, write_interpolative, read_interpolative,
}
use ds2i.Interpolative.Words.{value, value-append}
use ds2i.Interpolative.Code.{Code, ◌⊕◌, nothing, Interpolates, empty, middle, nothing-⊕}
use ds2i.Interpolative.Write.{Holds, bit_writer-Holds}
use ds2i.Interpolative.Read.{Follows, bit_reader-Follows}
use ds2i.Interpolative.Ints.{length-int_code}
use ds2i.Interpolative.Sorted.{Ascends, Ascends-Interpolates, length-middle}
use ds2i.Interpolative.Arrays.{write_interpolative-Holds}
use ds2i.Interpolative.Decode.{read_part-Follows, read_part}

-- A reader over words that begin with the string.
reader_at :
    (input : List ℕ) (c : Code) (above : ℕ)
    → All IsU32 input
    → value input ≡ c.bits + above * 2 ^ c.len
    → c.len ≤ 32 * length input
    → Follows (bit_reader input) (c ⊕ record { bits = above; len = 32 * length input - c.len })
reader_at input c above us e enough = bit_reader-Follows input _ us (sym e) (omega arith)

-- The words of a writer, and any words behind them.
words_above :
    (w : BitWriter) (c : Code) (more : List ℕ)
    → Holds w c
    → value (w.buf ++ more) ≡ c.bits + 2 ^ (32 * length w.buf - c.len) * value more * 2 ^ c.len
words_above w c more h =
    let k = 32 * length w.buf - c.len in
    let width : 2 ^ (32 * length w.buf) ≡ 2 ^ c.len * 2 ^ k =
      ap (λ (t : ℕ). 2 ^ t) (omega (arith, h.enough, h.size_eq)) ∙ two-pow-add c.len k in
    omega (arith, value-append w.buf more, h.value_eq, ap (λ (t : ℕ). t * value more) width)

module _ (broadword : Broadword) where
  length-Interpolates :
      {xs : List ℕ} {low high : ℕ} {c : Code}
      → Interpolates broadword xs low high c
      → c.len ≤ 32 * length xs
  length-Interpolates empty = omega arith
  length-Interpolates
        (middle {low = low} {high = high} {val = val} {front = front} {back = back} {xs = xs} parts
          half lo hi small p q e) =
      omega (
        arith,
        length-middle xs front back val parts,
        length-Interpolates p,
        length-Interpolates q,
        ap (λ (t : Code). t.len) e,
        length-int_code broadword (val - low) (high - low + 1) (omega arith) (omega arith),
      )

  -- `read_interpolative` over words that begin with a code, at the front of an array.
  pub decode_at :
      (input mid post xs : List ℕ) (low high above : ℕ) (c : Code)
      → Interpolates broadword xs low high c
      → 0 < length xs
      → length mid ≡ length xs
      → All IsU32 input
      → value input ≡ c.bits + above * 2 ^ c.len
      → c.len ≤ 32 * length input
      → (r : BitReader) × (read_interpolative broadword
            (length xs)
            (bit_reader input)
            (mid ++ post)
            0
            (length xs)
            low
            high
          ≡ some (xs ++ post, r))
        × (r.pos ≡ c.len)
  unfolding bit_reader
  decode_at input mid post xs low high above c p pos same us e enough =
      let f = reader_at input c above us e enough in
      let (r, e', f', q) =
        read_part-Follows broadword (length xs) p (omega arith) _ _ [] mid post same f in
      (r, from_part r e', omega (arith, q))
    where
      test : (length xs == 0) ≡ false
      test = ground arith

      from_part :
          (r : BitReader)
          → read_part broadword (length xs) (bit_reader input) (mid ++ post) 0 (length xs) low high
            ≡ some (xs ++ post, r)
          → read_interpolative broadword
              (length xs)
              (bit_reader input)
              (mid ++ post)
              0
              (length xs)
              low
              high
            ≡ some (xs ++ post, r)
      from_part r e = rw test at e

  -- `write_interpolative` succeeds on the first `n` elements of an array, where `n` is not 0 and
  -- they ascend between `low` and `high < 2 ^ 32 - 1`, with fuel `n`; it writes at most 32 bits for each; and
  -- `read_interpolative`, started on the words of the buffer with any words behind them, fills an
  -- array of `n` elements with just these, and reads as many bits as were written.
  pub interpolative_round_trip :
      (xs post out more : List ℕ) (low high : ℕ)
      → 0 < length xs
      → Ascends low xs high
      → high + 1 < 2 ^ 32
      → length out ≡ length xs
      → All IsU32 more
      → (w : BitWriter) × (r : BitReader) × (write_interpolative broadword
            (length xs)
            bit_writer
            (xs ++ post)
            (length xs)
            low
            high
          ≡ some w)
        × (read_interpolative broadword
              (length xs)
              (bit_reader (w.buf ++ more))
              out
              0
              (length xs)
              low
              high
            ≡ some (xs, r))
        × (r.pos ≡ w.size)
        × (w.size ≤ 32 * length xs)
  interpolative_round_trip [] post out more low high pos asc small same us = absurd (omega arith)
  interpolative_round_trip (x ∷ xs) post out more low high pos asc small same us =
      let (c, p) = Ascends-Interpolates broadword (x ∷ xs) low high asc small in
      let (w, e, h) =
        write_interpolative-Holds broadword (length (x ∷ xs)) p (omega arith) bit_writer nothing
          post bit_writer-Holds in
      let h' : Holds w c = subst (Holds w) (nothing-⊕ c) h in
      let enough : c.len ≤ 32 * length (w.buf ++ more) =
        omega (arith, length-append w.buf more, h'.enough, h'.size_eq) in
      let (r, e', q) =
        decode_at (w.buf ++ more) out [] (x ∷ xs) low high _ c p pos same
          (All-append IsU32 w.buf more h'.words us) (words_above w c more h') enough in
      (
        w,
        r,
        e,
        rw (append-nil out, append-nil xs) at e',
        q ∙ sym h'.size_eq,
        omega (arith, length-Interpolates p, h'.size_eq),
      )
