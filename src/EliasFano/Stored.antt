-- ===== src/EliasFano/Stored.antt =====
-- `write` on sequences that are sorted and on those that are not.
use ds2i.Base.{
  ℕ, zero, suc, ◌+◌, ◌-◌, ◌/◌, ◌^◌, ◌≤◌, ◌<◌, ◌≡◌, ◌⊎◌, inl, inr, ap, subst, refl, Bool-cases, ltb,
  ◌==◌, ◌&&◌, not, true, false, tabulate, arith,
}
use ds2i.Succinct.{Broadword, Util}
use ds2i.BitArray.{BitArray}
use ds2i.BitArray.Fields.{Touches-refl}
use ds2i.Sequence.{NonDecreasing}
use ds2i.EliasFano.{
  Params, Offsets, offsets, set_ptr0s, write_value, write_loop, write, finish, wrote, not_sorted,
}
use ds2i.EliasFano.Layout.{Layout, offsets-Layout}
use ds2i.EliasFano.Writing.{Written, write_value-Written, set_ptr0s-Written}

module _ (broadword : Broadword) (util : Util) (bit_array : BitArray) where
  open bit_array use {Bits, size, get, zero_extend}

  module _ {of : Offsets} {v : ℕ → ℕ} {universe n : ℕ} (layout : Layout of v universe n)
      (sorted : NonDecreasing v universe n) where
    write_loop-Written :
        (m i last last_high : ℕ) (start b : Bits)
        → i + m ≡ n
        → of.end_offset ≤ size start
        → (0 < i → i < n → last ≤ v i)
        → Written broadword util bit_array layout start i b
        → (b' : Bits) × (last_high' : ℕ) × (write_loop broadword util bit_array of i last last_high
              (tabulate v i m)
              b
            ≡ wrote (b', last_high'))
          × Written broadword util bit_array layout start n b'
    unfolding write_loop
    write_loop-Written zero i last last_high start b whole room above w =
        let e : i ≡ n = omega (arith, whole) in
        (
          b,
          last_high,
          refl,
          subst (λ (t : ℕ). Written broadword util bit_array layout start t b) e w,
        )
    write_loop-Written (suc m) i last last_high start b whole room above w =
        let inside : i < n = omega (arith, whole) in
        let high = v i / 2 ^ of.lower_bits + i + 1 in
        let (b', last_high', eq, written) =
          write_loop-Written m (suc i) (v i) high start
            (write_value broadword util bit_array of i (v i) last_high b) (omega (arith, whole))
            room (λ pos less. sorted.ordered i less)
            (write_value-Written broadword util bit_array layout start i last_high b inside room
              w) in
        let in_order : (not (i == 0) && ltb (v i) last) ≡ false = elim (Bool-cases (i == 0)) [
          | inl first ↦ rw first refl
          | inr other ↦ let le = above (ground (arith, other)) inside in ground (arith, other, le)
        ] in
        let in_universe : ltb (v i) of.universe ≡ true =
          ground (arith, sorted.below i inside, layout.universe_eq) in
        (b', last_high', rw (in_order, in_universe) eq, written)

  write_loop-unsorted :
      (of : Offsets) (v : ℕ → ℕ) (p m i last last_high : ℕ) (b : Bits)
      → v (suc p) < v p
      → ((j : ℕ) → j ≤ p → v j < of.universe)
      → (i ≤ p) ⊎ ((i ≡ suc p) × (last ≡ v p))
      → suc p < i + m
      → write_loop broadword util bit_array of i last last_high (tabulate v i m) b ≡ not_sorted
  unfolding write_loop
  write_loop-unsorted of v p zero i last last_high b less below at inside = elim at [
    | inl before ↦ absurd (omega (arith, before, inside))
    | inr here ↦ absurd (omega (arith, here.0, inside))
  ]
  write_loop-unsorted of v p (suc m) i last last_high b less below (inr (here, last_eq)) inside =
      let stops : (not (i == 0) && ltb (v i) last) ≡ true =
        let some_i : 0 < i = omega (arith, here) in
        let lt : v i < last = omega (arith, ap v here, last_eq, less) in
        ground (arith, some_i, lt) in
      rw stops refl
  write_loop-unsorted of v p (suc m) i last last_high b less below (inl before) inside =
      let high = v i / 2 ^ of.lower_bits + i + 1 in
      let rest =
        write_loop-unsorted of v p m (suc i) (v i) high
          (write_value broadword util bit_array of i (v i) last_high b) less below
          (elim (Bool-cases (i == p)) [
            | inl same ↦ let e : i ≡ p = ground (arith, same) in inr (ap suc e, ap v e)
            | inr other ↦ inl (ground (arith, other, before))
          ])
          (omega (arith, inside)) in
      elim (Bool-cases (not (i == 0) && ltb (v i) last)) [
        | inl stops ↦ rw stops refl
        | inr goes ↦
            let in_universe : ltb (v i) of.universe ≡ true = ground (arith, below i before) in
            rw (goes, in_universe) rest
      ]

  module _ (params : Params) (v : ℕ → ℕ) (universe n : ℕ) where
    -- The layout behind the bits that stand before.
    abbrev pub layout_behind :
        (b : Bits)
        → NonDecreasing v universe n
        → Layout (offsets broadword (size b) universe n params) v universe n
    layout_behind b sorted =
        offsets-Layout broadword (size b) universe n params v sorted.n_pos sorted.universe_small
          sorted.below sorted.ordered

    pub offsets-base :
        (b : Bits) → (offsets broadword (size b) universe n params).pointers0_offset ≡ size b
    unfolding offsets
    offsets-base b = refl

    start_Written :
        (b : Bits) (sorted : NonDecreasing v universe n)
        → let of = offsets broadword (size b) universe n params in
          let start = zero_extend (of.end_offset - size b) b in
          (size start ≡ of.end_offset)
          × Written broadword util bit_array (layout_behind b sorted) start 0 start
    start_Written b sorted =
        let of = offsets broadword (size b) universe n params in
        let layout = layout_behind b sorted in
        let start = zero_extend (of.end_offset - size b) b in
        let base_eq : of.pointers0_offset ≡ size b = offsets-base b in
        let size_eq : size start ≡ of.end_offset = omega (
          arith,
          bit_array.size-zero_extend (of.end_offset - size b) b,
          base_eq,
          layout.pointers1_start,
          layout.higher_bits_start,
          layout.lower_bits_start,
          layout.end_eq,
        ) in
        (
          size_eq,
          record {
            kept = Touches-refl bit_array of.pointers0_offset of.end_offset start;
            ones = λ x less.
                bit_array.zero_extend_new (of.end_offset - size b) (of.higher_bits_offset + x) b
                  (omega (arith, base_eq, layout.pointers1_start, layout.higher_bits_start))
                  (omega (arith, less, layout.lower_bits_start, layout.end_eq));
            lows = λ p less. absurd (omega (arith, less));
            pointers = λ k pos less. absurd (omega (arith, less));
          },
        )

    -- A sorted sequence is written.
    pub write-Written :
        (b : Bits) (sorted : NonDecreasing v universe n)
        → let of = offsets broadword (size b) universe n params in
          let start = zero_extend (of.end_offset - size b) b in
          (b' : Bits) × (write broadword util bit_array params b (tabulate v 0 n) universe n
            ≡ wrote b')
          × (size start ≡ of.end_offset)
          × Written broadword util bit_array (layout_behind b sorted) start n b'
    unfolding write finish offsets
    write-Written b sorted =
        let of = offsets broadword (size b) universe n params in
        let layout = layout_behind b sorted in
        let start = zero_extend (of.end_offset - size b) b in
        let (size_eq, w₀) = start_Written b sorted in
        let (b', last_high, eq, w) =
          write_loop-Written layout sorted n 0 0 0 start start (omega arith)
            (omega (arith, size_eq)) (λ pos less. omega arith) w₀ in
        let room : of.higher_bits_length - n + n ≤ of.higher_bits_length =
          omega (arith, layout.high_room 0 sorted.n_pos) in
        (
          set_ptr0s broadword util bit_array of (last_high + 1) of.higher_bits_length n b',
          rw eq refl,
          size_eq,
          set_ptr0s-Written broadword util bit_array layout start (last_high + 1)
              of.higher_bits_length n n b' room (omega arith) (omega (arith, size_eq)) w,
        )

    -- A sequence with a value below the one before it, where all before that value are below the
    -- universe, is refused with the exception for one that is not sorted.
    pub write-unsorted :
        (p : ℕ) (b : Bits)
        → suc p < n
        → v (suc p) < v p
        → ((j : ℕ) → j ≤ p → v j < universe)
        → write broadword util bit_array params b (tabulate v 0 n) universe n ≡ not_sorted
    unfolding write finish offsets
    write-unsorted p b inside less below =
        let of = offsets broadword (size b) universe n params in
        let start = zero_extend (of.end_offset - size b) b in
        rw
          (write_loop-unsorted of v p n 0 0 0 start less below (inl (omega arith))
            (omega (arith, inside)))
          refl
