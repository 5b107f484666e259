-- ===== src/RankedBitvector/Stored.antt =====
-- `write` on values that increase, and its exceptions on others.
use ds2i.Base.{
  ℕ, zero, suc, ◌+◌, ◌-◌, ◌≤◌, ◌<◌, ◌≡◌, ◌⊎◌, inl, inr, ap, refl, Bool-cases, ltb, ◌==◌, ◌&&◌, not,
  if◌then◌else◌, true, false, tabulate, arith,
}
use ds2i.Succinct.{Broadword, Util}
use ds2i.BitArray.{BitArray}
use ds2i.BitArray.Fields.{Touches-refl}
use ds2i.Sequence.{Increasing}
use ds2i.RankedBitvector.{
  Params, Offsets, offsets, Wrote, wrote, duplicate_element, not_sorted, write_value, write_loop,
  write,
}
use ds2i.RankedBitvector.Layout.{Layout, offsets-Layout}
use ds2i.RankedBitvector.Writing.{Written, write_loop-Written}

module _ (broadword : Broadword) (util : Util) (bit_array : BitArray) where
  open bit_array use {Bits, size, get, zero_extend}

  -- The exception for a value that is not above the one before it.
  abbrev refused : ℕ → ℕ → Wrote Bits
  refused v last = if v == last then duplicate_element else not_sorted

  write_loop-refused :
      (of : Offsets) (v : ℕ → ℕ) (p m i last : ℕ) (b : Bits)
      → v (suc p) ≤ v p
      → ((j : ℕ) → j < p → v j < v (suc j))
      → ((i ≤ p) × (0 < i → last < v i)) ⊎ ((i ≡ suc p) × (last ≡ v p))
      → ((j : ℕ) → j ≤ p → v j < of.universe)
      → suc p < i + m
      → write_loop broadword util bit_array of i last (tabulate v i m) b ≡ refused (v (suc p)) (v p)
  unfolding write_loop
  write_loop-refused of v p zero i last b le rising at below inside = elim at [
    | inl before ↦ absurd (omega (arith, before.0, inside))
    | inr here ↦ absurd (omega (arith, here.0, inside))
  ]
  write_loop-refused of v p (suc m) i last b le rising (inr (here, last_eq)) below inside =
      let some_i : (i == 0) ≡ false = ground (arith, here) in
      elim (Bool-cases (v (suc p) == v p)) [
        | inl same ↦
            let stops : (v i == last) ≡ true = rw (ap v here, last_eq) same in
            rw (some_i, stops, same) refl
        | inr other ↦
            let differs : (v i == last) ≡ false = rw (ap v here, last_eq) other in
            let below : ltb (v i) last ≡ true =
              rw (ap v here, last_eq) (ground (arith, other, le)) in
            rw (some_i, differs, below, other) refl
      ]
  write_loop-refused of v p (suc m) i last b le rising (inl (before, above)) below inside =
      let rest =
        write_loop-refused of v p m (suc i) (v i)
          (write_value broadword util bit_array of i (v i) last b) le rising
          (elim (Bool-cases (i == p)) [
            | inl same ↦ let e : i ≡ p = ground (arith, same) in inr (ap suc e, ap v e)
            | inr other ↦
                let less : i < p = ground (arith, other, before) in inl (less, λ pos. rising i less)
          ])
          below (omega (arith, inside)) in
      let differs : (not (i == 0) && (v i == last)) ≡ false = elim (Bool-cases (i == 0)) [
        | inl first ↦ rw first refl
        | inr other ↦ let lt = above (ground (arith, other)) in ground (arith, other, lt)
      ] in
      let in_order : (not (i == 0) && ltb (v i) last) ≡ false = elim (Bool-cases (i == 0)) [
        | inl first ↦ rw first refl
        | inr other ↦ let lt = above (ground (arith, other)) in ground (arith, other, lt)
      ] in
      let in_universe : ltb (v i) of.universe ≡ true = ground (arith, below i before) in
      rw (differs, in_order, in_universe) rest

  module _ (params : Params) (v : ℕ → ℕ) (universe n : ℕ) where
    -- The layout behind the bits that stand before.
    abbrev pub layout_behind :
        (b : Bits)
        → Increasing v universe n
        → Layout (offsets broadword (size b) universe n params) v universe n
    layout_behind b inc = offsets-Layout broadword (size b) universe n params v inc

    pub offsets-base :
        (b : Bits) → (offsets broadword (size b) universe n params).rank1_samples_offset ≡ size b
    unfolding offsets
    offsets-base b = refl

    -- Increasing values are written.
    pub write-Written :
        (b : Bits) (inc : Increasing v universe n)
        → let of = offsets broadword (size b) universe n params in
          let start = zero_extend (of.end_offset - size b) b in
          (b' : Bits) × (write broadword util bit_array params b (tabulate v 0 n) universe n
            ≡ wrote b')
          × (size start ≡ of.end_offset)
          × Written broadword util bit_array (layout_behind b inc) start n b'
    unfolding write
    write-Written b inc =
        let of = offsets broadword (size b) universe n params in
        let layout = layout_behind b inc in
        let start = zero_extend (of.end_offset - size b) b in
        let base_eq = offsets-base b in
        let size_eq : size start ≡ of.end_offset = omega (
          arith,
          bit_array.size-zero_extend (of.end_offset - size b) b,
          base_eq,
          layout.pointers1_start,
          layout.bits_start,
          layout.end_eq,
        ) in
        let (b', eq, w) =
          write_loop-Written broadword util bit_array layout n 0 0 start start (omega arith)
            (omega (arith, size_eq)) (λ pos less. absurd (omega arith))
            (record {
              kept = Touches-refl bit_array of.rank1_samples_offset of.end_offset start;
              ones = λ x less.
                  bit_array.zero_extend_new (of.end_offset - size b) (of.bits_offset + x) b
                    (omega (arith, base_eq, layout.pointers1_start, layout.bits_start))
                    (omega (arith, less, layout.universe_eq, layout.end_eq));
              pointers = λ k pos less. absurd (omega (arith, less));
            }) in
        (b', eq, size_eq, w)

    -- The first value that is not above the one before it is refused: as a duplicate when they are
    -- equal, and as not sorted when it is below, where the values before it are below the universe.
    pub write-refused :
        (p : ℕ) (b : Bits)
        → suc p < n
        → v (suc p) ≤ v p
        → ((j : ℕ) → j < p → v j < v (suc j))
        → ((j : ℕ) → j ≤ p → v j < universe)
        → write broadword util bit_array params b (tabulate v 0 n) universe n
          ≡ (if v (suc p) == v p then duplicate_element else not_sorted)
    unfolding write offsets
    write-refused p b inside le rising below =
        let of = offsets broadword (size b) universe n params in
        let start = zero_extend (of.end_offset - size b) b in
        write_loop-refused of v p n 0 0 start le rising
          (inl (omega arith, λ pos. absurd (omega arith))) below (omega (arith, inside))
