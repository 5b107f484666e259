-- ===== src/BlockCodec/RoundTrip.antt =====
-- `interpolative_block::decode` after `encode`.
use ds2i.Base.{
  ℕ, suc, ◌+◌, ◌-◌, ◌^◌, ◌≤◌, ◌<◌, ◌≡◌, ap, sym, subst, ◌∙◌, refl, List, [], ◌∷◌, ◌++◌, length,
  get_or, set, take, drop, some, arith, append_assoc, All, All-append, IsU8, ◌==◌, leb, true, false,
  ◌⊎◌, inl, inr,
}
use ds2i.Succinct.{Broadword, Util}
use ds2i.Varbyte
use ds2i.Varbyte.RoundTrip.{decode-encode, encode_bounds, encode_single_lem}
use ds2i.Interpolative.{
  BitWriter, bit_writer, BitReader, bit_reader, write_interpolative, read_interpolative,
}
use ds2i.Interpolative.Code.{Code, nothing, nothing-⊕, Interpolates, empty}
use ds2i.Interpolative.Write.{Holds, bit_writer-Holds}
use ds2i.Interpolative.Sorted.{Ascends, Ascends-split, Ascends-Interpolates}
use ds2i.Interpolative.Arrays.{write_interpolative-Holds}
use ds2i.Interpolative.RoundTrip.{decode_at}
use ds2i.BlockCodec.{
  bytes_of, words_of, prefix_sums, subtract_loop, unknown, block_size, encode, decode_gaps, decode,
}
use ds2i.BlockCodec.Sums.{sum, prefix_sums-Ascends, subtract_loop-prefix_sums}
use ds2i.BlockCodec.Bytes.{take-IsU8, bytes_of-IsU8}
use ds2i.BlockCodec.Buffers.{
  LastSum-of, sum-IsU32, get_or-last, set-last, drop-append, words-begin, bytes, length-bytes,
}

module _ (broadword : Broadword) (util : Util) where
  open util use {ceil_div, ceil_div_bounds}

  -- Behind the sum: what is written for the sums before the last, and what is read back.
  record Gaps (x : ℕ) (xs rest out : List ℕ) : Type 0 where
    writer : BitWriter
    written :
        write_interpolative broadword
          (length xs)
          bit_writer
          (prefix_sums 0 (x ∷ xs))
          (length xs)
          0
          (sum (x ∷ xs))
        ≡ some writer
    read_back :
        decode_gaps broadword util
          (take (ceil_div writer.size 8) (bytes_of writer.buf) ++ rest)
          out
          (sum (x ∷ xs))
          (suc (length xs))
        ≡ some (x ∷ xs, rest)

  one_value :
      (x : ℕ) (rest out : List ℕ)
      → length out ≡ 1
      → decode_gaps broadword util rest out x 1 ≡ some (x ∷ [], rest)
  unfolding decode_gaps
  one_value x rest [] one = absurd (omega arith)
  one_value x rest (y ∷ []) one = refl
  one_value x rest (y ∷ z ∷ out) one = absurd (omega arith)

  -- A block of one value has no sums before the last.
  decode_one :
      (x : ℕ) (w : BitWriter) (rest out : List ℕ)
      → Holds w nothing
      → length out ≡ 1
      → decode_gaps broadword util
          (take (ceil_div w.size 8) (bytes_of w.buf) ++ rest)
          out
          (sum (x ∷ []))
          1
        ≡ some (x ∷ [], rest)
  decode_one x w rest out h one =
      let (lo, hi) = ceil_div_bounds w.size 8 (omega arith) in
      let none_left : ceil_div w.size 8 ≡ 0 = omega (arith, h.size_eq) in
      let whole : x + 0 ≡ x = omega arith in rw (none_left, whole) (one_value x rest out one)

  gaps_step :
      (inbuf out out' sums vals rest : List ℕ) (s m : ℕ) (br : BitReader)
      → set out (suc m) s ≡ out'
      → read_interpolative broadword (suc m) (bit_reader (words_of inbuf)) out' 0 (suc m) 0 s
        ≡ some (sums, br)
      → subtract_loop (suc m) sums ≡ vals
      → drop (ceil_div br.pos 8) inbuf ≡ rest
      → decode_gaps broadword util inbuf out s (suc (suc m)) ≡ some (vals, rest)
  unfolding decode_gaps
  gaps_step inbuf out out' sums vals rest s m br placed read loop skip =
      let pred_eq : suc (suc m) - 1 ≡ suc m = omega arith in
      let test : (suc (suc m) == 1) ≡ false = ground arith in
      rw (pred_eq, test, placed, read, loop, skip)

  decode_many :
      (x y : ℕ) (xs front rest out : List ℕ) (w : BitWriter) (c : Code)
      → sum (x ∷ y ∷ xs) + 1 < 2 ^ 32
      → prefix_sums 0 (x ∷ y ∷ xs) ≡ front ++ (sum (x ∷ y ∷ xs) ∷ [])
      → length front ≡ suc (length xs)
      → Interpolates broadword front 0 (sum (x ∷ y ∷ xs)) c
      → Holds w c
      → All IsU8 rest
      → 3 ≤ length rest
      → length out ≡ suc (suc (length xs))
      → decode_gaps broadword util
          (take (ceil_div w.size 8) (bytes_of w.buf) ++ rest)
          out
          (sum (x ∷ y ∷ xs))
          (suc (suc (length xs)))
        ≡ some (x ∷ y ∷ xs, rest)
  decode_many x y xs front rest out w c small parts len p h us long same =
      let (lo, hi) = ceil_div_bounds w.size 8 (omega arith) in
      let k = ceil_div w.size 8 in
      let (ws, enough, (above, v)) = words-begin w c k rest h lo hi us long in
      let (mid, placed, l) = set-last out (sum (x ∷ y ∷ xs)) (suc (length xs)) same in
      let (r, e, q) =
        decode_at broadword (words_of (bytes w c k rest h lo hi us ++ rest)) mid
          (sum (x ∷ y ∷ xs) ∷ []) front 0 (sum (x ∷ y ∷ xs)) above c p (omega (arith, len))
          (l ∙ sym len) ws v enough in
      gaps_step _ out _ _ _ rest (sum (x ∷ y ∷ xs)) (length xs) r placed
        (subst
          (λ n.
            read_interpolative broadword n
              (bit_reader (words_of (bytes w c k rest h lo hi us ++ rest)))
              (mid ++ (sum (x ∷ y ∷ xs) ∷ [])) 0 n 0 (sum (x ∷ y ∷ xs))
            ≡ some (front ++ (sum (x ∷ y ∷ xs) ∷ []), r))
          len e)
        (ap (subtract_loop (suc (length xs))) (sym parts)
          ∙ subtract_loop-prefix_sums x (y ∷ xs) (sum-IsU32 (x ∷ y ∷ xs) (omega arith)))
        (drop-append (bytes w c k rest h lo hi us) rest _
          (length-bytes w c k rest h lo hi us ∙ ap (λ t. ceil_div t 8) (h.size_eq ∙ sym q)))

  at_length :
      (vals front : List ℕ) (total n : ℕ) (w : BitWriter)
      → prefix_sums 0 vals ≡ front ++ (total ∷ [])
      → length front ≡ n
      → write_interpolative broadword
          (length front)
          bit_writer
          (front ++ (total ∷ []))
          (length front)
          0
          total
        ≡ some w
      → write_interpolative broadword n bit_writer (prefix_sums 0 vals) n 0 total ≡ some w
  at_length vals front total n w parts len e = rw (parts, ← len) e

  Gaps-of :
      (x : ℕ) (xs rest out : List ℕ)
      → sum (x ∷ xs) + 1 < 2 ^ 32
      → All IsU8 rest
      → 3 ≤ length rest
      → length out ≡ suc (length xs)
      → Gaps x xs rest out
  Gaps-of x [] rest out small us long same =
      let (w, e, h) =
        write_interpolative-Holds broadword 0 empty (omega arith) bit_writer nothing
          (prefix_sums 0 (x ∷ [])) bit_writer-Holds in
      record {
        writer = w;
        written = e;
        read_back = decode_one x w rest out (subst (Holds w) (nothing-⊕ nothing) h) same;
      }
  Gaps-of x (y ∷ xs) rest out small us long same =
      let s = LastSum-of x (y ∷ xs) (omega arith) in
      let total = sum (x ∷ y ∷ xs) in
      let asc : Ascends 0 (s.front ++ (total ∷ [])) (0 + total) =
        subst (λ t. Ascends 0 t (0 + total)) s.parts
          (prefix_sums-Ascends 0 (x ∷ y ∷ xs) (omega arith)) in
      let (below, _) = Ascends-split 0 (0 + total) total s.front [] asc in
      let (c, p) = Ascends-Interpolates broadword s.front 0 total below small in
      let (w, e, h) =
        write_interpolative-Holds broadword (length s.front) p (omega arith) bit_writer nothing
          (total ∷ []) bit_writer-Holds in
      let h' = subst (Holds w) (nothing-⊕ c) h in
      record {
        writer = w;
        written = at_length (x ∷ y ∷ xs) s.front total (suc (length xs)) w s.parts s.length_eq e;
        read_back =
            decode_many x y xs s.front rest out w c small s.parts s.length_eq p h' us long same;
      }

  last_value :
      (x : ℕ) (xs : List ℕ)
      → sum (x ∷ xs) < 2 ^ 32
      → get_or (prefix_sums 0 (x ∷ xs)) (length xs) 0 ≡ sum (x ∷ xs)
  last_value x xs small =
      let s = LastSum-of x xs small in
      rw s.parts (get_or-last s.front (sum (x ∷ xs)) (length xs) s.length_eq)

  encode_step :
      (x total : ℕ) (xs before : List ℕ) (w : BitWriter)
      → suc (length xs) ≤ block_size
      → get_or (prefix_sums 0 (x ∷ xs)) (length xs) 0 ≡ total
      → write_interpolative broadword
          (length xs)
          bit_writer
          (prefix_sums 0 (x ∷ xs))
          (length xs)
          0
          total
        ≡ some w
      → (let bytes = take (ceil_div w.size 8) (bytes_of w.buf) in
          ((total == unknown) ≡ false
            → encode broadword util (x ∷ xs) total before ≡ some (before ++ bytes))
          × (encode broadword util (x ∷ xs) unknown before
              ≡ some (before ++ (Varbyte.encode (total ∷ []) ++ bytes))))
  unfolding encode
  encode_step x total xs before w few last written =
      let pred_eq : suc (length xs) - 1 ≡ length xs = omega arith in
      let fits : leb (suc (length xs)) 128 ≡ true = ground (arith, few) in
      (
        λ known. rw (fits, known, pred_eq, written),
        rw (
          fits,
          pred_eq,
          last,
          written,
          encode_single_lem total before,
          append_assoc before (Varbyte.encode (total ∷ [])),
        ),
      )

  -- A block of n values, n at most 128, whose sum is below 2 ^ 32 - 1, encoded with the sum given or with
  -- `uint32_t(-1)` for a sum that is not known, is appended as bytes to those before it; and `decode`,
  -- with the same second argument, fills an array of n elements with the values and returns the
  -- pointer behind the block, where at least three bytes follow the block.
  pub block_round_trip :
      (x sum_of_values : ℕ) (xs before rest out : List ℕ)
      → length (x ∷ xs) ≤ block_size
      → sum (x ∷ xs) + 1 < 2 ^ 32
      → (sum_of_values ≡ sum (x ∷ xs)) ⊎ (sum_of_values ≡ unknown)
      → All IsU8 rest
      → 3 ≤ length rest
      → length out ≡ suc (length xs)
      → (bytes : List ℕ) × (encode broadword util (x ∷ xs) sum_of_values before
          ≡ some (before ++ bytes))
        × (decode broadword util (bytes ++ rest) out sum_of_values (suc (length xs))
            ≡ some (x ∷ xs, rest))
        × All IsU8 bytes
  unfolding decode
  block_round_trip x sov xs before rest out few small (inl known) us long same =
      let fits : leb (suc (length xs)) 128 ≡ true = ground (arith, few) in
      let g = Gaps-of x xs rest out small us long same in
      let total = sum (x ∷ xs) in
      let test : (total == unknown) ≡ false = ground arith in
      let last = last_value x xs (omega arith) in
      let e = (encode_step x total xs before g.writer few last g.written).0 test in
      (
        take (ceil_div g.writer.size 8) (bytes_of g.writer.buf),
        rw known e,
        rw (fits, known, test) g.read_back,
        take-IsU8 (ceil_div g.writer.size 8) (bytes_of g.writer.buf) (bytes_of-IsU8 g.writer.buf),
      )
  block_round_trip x sov xs before rest out few small (inr sentinel) us long same =
      let fits : leb (suc (length xs)) 128 ≡ true = ground (arith, few) in
      let g = Gaps-of x xs rest out small us long same in
      let total = sum (x ∷ xs) in
      let last = last_value x xs (omega arith) in
      let bytes = take (ceil_div g.writer.size 8) (bytes_of g.writer.buf) in
      let e = (encode_step x total xs before g.writer few last g.written).1 in
      let front = Varbyte.encode (total ∷ []) in
      let d = decode-encode (total ∷ []) (bytes ++ rest) (omega arith) in
      (
        front ++ bytes,
        rw sentinel e,
        rw (fits, sentinel, append_assoc front bytes rest, d) g.read_back,
        All-append IsU8 front bytes (encode_bounds (total ∷ []) (omega arith)).0 (
            take-IsU8 (ceil_div g.writer.size 8) (bytes_of g.writer.buf)
              (bytes_of-IsU8 g.writer.buf)),
      )
