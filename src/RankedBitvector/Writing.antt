-- ===== src/RankedBitvector/Writing.antt =====
-- What stands in the bit vector when the first `i` values are written, through the loop over them.
use native.Mathlib.Nat.{suc-mul, mul-le-mul_right, mul-le-mul_left, div-add-mod', mod-lt}
use ds2i.Base.{
  ℕ, zero, suc, ◌+◌, ◌-◌, ◌*◌, ◌^◌, ◌≤◌, ◌<◌, ◌≡◌, inl, inr, ap, subst, refl, Bool-cases, ltb,
  ltb→lt, ◌==◌, ◌&&◌, not, true, false, tabulate, arith,
}
use ds2i.Base.Bits.{two-pow-pos}
use ds2i.Succinct.{Broadword, Util}
use ds2i.BitArray.{BitArray}
use ds2i.BitArray.Fields.{
  Touches, Touches-refl, Touches-trans, Touches-wider, set_bits-Touches, set-Touches,
}
use ds2i.BitArray.Sampled.{
  Ones, Pointers, Ones-Touches, Pointers-Touches, set-Ones, with_pointer, with_pointer-Pointers,
  with_pointer-Touches,
}
use ds2i.RankedBitvector.Layout.{Layout, places}
use ds2i.RankedBitvector.{Offsets, wrote, samples_loop, set_rank1_samples, write_value, write_loop}

module _ (broadword : Broadword) (util : Util) (bit_array : BitArray) where
  open bit_array use {Bits, size, get, set, zero_extend}

  module _ {of : Offsets} {v : ℕ → ℕ} {universe n : ℕ} (layout : Layout of v universe n) where
    -- A sample stays in front of the pointers.
    sample_inside :
        (sample end : ℕ)
        → 0 < sample
        → sample * 2 ^ of.log_rank1_sampling < end
        → end ≤ universe
        → of.rank1_samples_offset + (sample - 1) * of.rank1_sample_size + of.rank1_sample_size
          ≤ of.pointers1_offset
    sample_inside sample end pos less le =
        let few : sample ≤ of.rank1_samples = at_most (omega (arith, less, le)) in
        let e : sample - 1 + 1 ≡ sample = omega arith in
        omega (
          arith,
          mul-le-mul_right of.rank1_sample_size few,
          suc-mul (sample - 1) of.rank1_sample_size,
          ap (λ (t : ℕ). t * of.rank1_sample_size) e,
          layout.pointers1_start,
        )
      where
        at_most : sample * 2 ^ of.log_rank1_sampling < universe → sample ≤ of.rank1_samples
        at_most less = elim (Bool-cases (ltb of.rank1_samples sample)) [
          | inr fine ↦ ground (arith, fine)
          | inl more ↦
              let step : suc of.rank1_samples ≤ sample = ltb→lt _ _ more in
              let q = 2 ^ of.log_rank1_sampling in
              absurd (
                omega (
                  arith,
                  mul-le-mul_right q step,
                  suc-mul of.rank1_samples q,
                  ap (λ (t : ℕ). t * q) layout.samples_eq,
                  div-add-mod' universe q,
                  mod-lt universe (two-pow-pos of.log_rank1_sampling),
                  less,
                ))
        ]

    samples_loop-Touches :
        (fuel sample end rank : ℕ) (b : Bits)
        → end ≤ universe
        → of.pointers1_offset ≤ size b
        → Touches bit_array of.rank1_samples_offset of.pointers1_offset b
            (samples_loop broadword util bit_array fuel of sample end rank b)
    unfolding samples_loop
    samples_loop-Touches zero sample end rank b le room =
        Touches-refl bit_array of.rank1_samples_offset of.pointers1_offset b
    samples_loop-Touches (suc fuel) sample end rank b le room =
        elim (Bool-cases (ltb (sample * 2 ^ of.log_rank1_sampling) end)) [
          | inr done ↦
              rw done (Touches-refl bit_array of.rank1_samples_offset of.pointers1_offset b)
          | inl more ↦ elim (Bool-cases (sample == 0)) [
            | inl first ↦
                rw (more, first) (samples_loop-Touches fuel (suc sample) end rank b le room)
            | inr other ↦
                let place = of.rank1_samples_offset + (sample - 1) * of.rank1_sample_size in
                let inside =
                  sample_inside sample end (ground (arith, other)) (ltb→lt _ _ more) le in
                let t =
                  set_bits-Touches bit_array of.rank1_samples_offset of.pointers1_offset place rank
                    of.rank1_sample_size b (omega (arith, inside, room)) (omega arith) inside in
                rw (more, other)
                  (Touches-trans bit_array of.rank1_samples_offset of.pointers1_offset b _ _ t (
                    samples_loop-Touches fuel (suc sample) end rank
                      (bit_array.set_bits place rank of.rank1_sample_size b) le
                      (omega (arith, t.size_eq, room))))
          ]
        ]

    -- The loop over the samples ends before the rounds do: more of them change nothing.
    pub samples_loop-enough :
        (k fuel sample end rank : ℕ) (b : Bits)
        → end ≤ sample + fuel
        → samples_loop broadword util bit_array (fuel + k) of sample end rank b
          ≡ samples_loop broadword util bit_array fuel of sample end rank b
    unfolding samples_loop
    samples_loop-enough zero zero sample end rank b le = refl
    samples_loop-enough (suc k) zero sample end rank b le =
        let e : 0 + suc k ≡ suc k = omega arith in
        let done : ltb (sample * 2 ^ of.log_rank1_sampling) end ≡ false =
          let far = mul-le-mul_left sample (two-pow-pos of.log_rank1_sampling) in
          ground (arith, le, far) in
        rw (e, done) refl
    samples_loop-enough k (suc fuel) sample end rank b le =
        let e : suc fuel + k ≡ suc (fuel + k) = omega arith in
        let rest = λ (b : Bits). samples_loop-enough k fuel (suc sample) end rank b (omega arith) in
        rw e (elim (Bool-cases (ltb (sample * 2 ^ of.log_rank1_sampling) end)) [
          | inr done ↦ rw done refl
          | inl more ↦ rw more (rest _)
        ])

    -- The first `i` values are written, and nothing but the new bits has changed.
    pub record Written (start : Bits) (i : ℕ) (b : Bits) : Type 0 where
      pub kept : Touches bit_array of.rank1_samples_offset of.end_offset start b
      pub ones : Ones bit_array (places layout) i b
      pub pointers : Pointers bit_array (places layout) i b

    set_rank1_samples-Written :
        (start : Bits) (begin end rank i : ℕ) (b : Bits)
        → end ≤ universe
        → i ≤ n
        → of.end_offset ≤ size start
        → Written start i b
        → Written start i (set_rank1_samples broadword util bit_array of begin end rank b)
    unfolding set_rank1_samples
    set_rank1_samples-Written start begin end rank i b le inside room w =
        let t =
          samples_loop-Touches end (util.ceil_div begin (2 ^ of.log_rank1_sampling)) end rank b le
            (omega (arith, w.kept.size_eq, room, layout.bits_start, layout.end_eq)) in
        record {
          kept = Touches-trans bit_array of.rank1_samples_offset of.end_offset start b _ w.kept (
              Touches-wider bit_array (omega arith)
                (omega (arith, layout.bits_start, layout.end_eq)) t);
          ones =
              Ones-Touches bit_array (places layout) i t (inl (omega (arith, layout.bits_start)))
                w.ones;
          pointers =
              Pointers-Touches bit_array (places layout) i inside t (inl (omega arith)) w.pointers;
        }

    -- One more value.
    write_value-Written :
        (start : Bits) (i last : ℕ) (b : Bits)
        → i < n
        → of.end_offset ≤ size start
        → Written start i b
        → Written start (suc i) (write_value broadword util bit_array of i (v i) last b)
    unfolding write_value
    write_value-Written start i last b inside room w =
        let below = layout.increasing.below i inside in
        let place = of.bits_offset + v i in
        let limit : of.end_offset ≤ size b = omega (arith, w.kept.size_eq, room) in
        let t₁ =
          set-Touches bit_array place (suc place) place b
            (omega (arith, below, layout.end_eq, limit)) (omega arith) (omega arith) in
        let b₁ = set place b in
        let room₁ : of.bits_offset ≤ size b₁ = omega (arith, t₁.size_eq, limit, layout.end_eq) in
        let t₂ = with_pointer-Touches bit_array (places layout) i b₁ inside room₁ in
        let b₂ = with_pointer bit_array (places layout) i b₁ in
        let ones₁ =
          set-Ones bit_array (places layout) i b inside
            (omega (arith, limit, layout.end_eq, layout.universe_eq)) w.ones in
        let pointers₁ =
          Pointers-Touches bit_array (places layout) i (omega (arith, inside)) t₁
            (inr (omega arith)) w.pointers in
        set_rank1_samples-Written start (last + 1) (v i + 1) i (suc i) b₂ (omega (arith, below))
          inside room
          (record {
            kept = Touches-trans bit_array of.rank1_samples_offset of.end_offset start b b₂ w.kept (
                Touches-trans bit_array of.rank1_samples_offset of.end_offset b b₁ b₂
                  (Touches-wider bit_array
                    (omega (arith, layout.pointers1_start, layout.bits_start))
                    (omega (arith, below, layout.end_eq)) t₁)
                  (Touches-wider bit_array (omega (arith, layout.pointers1_start))
                    (omega (arith, layout.end_eq)) t₂));
            ones = Ones-Touches bit_array (places layout) (suc i) t₂ (inl (omega arith)) ones₁;
            pointers = with_pointer-Pointers bit_array (places layout) i b₁ inside room₁ pointers₁;
          })

    pub write_loop-Written :
        (m i last : ℕ) (start b : Bits)
        → i + m ≡ n
        → of.end_offset ≤ size start
        → (0 < i → i < n → last < v i)
        → Written start i b
        → (b' : Bits) × (write_loop broadword util bit_array of i last (tabulate v i m) b
            ≡ wrote b')
          × Written start n b'
    unfolding write_loop
    write_loop-Written zero i last start b whole room above w =
        let e : i ≡ n = omega (arith, whole) in
        (
          set_rank1_samples broadword util bit_array of (last + 1) of.universe of.n b,
          refl,
          set_rank1_samples-Written start (last + 1) of.universe of.n n b
              (omega (arith, layout.universe_eq)) (omega arith) room
              (subst (λ (t : ℕ). Written start t b) e w),
        )
    write_loop-Written (suc m) i last start b whole room above w =
        let inside : i < n = omega (arith, whole) in
        let (b', eq, written) =
          write_loop-Written m (suc i) (v i) start
            (write_value broadword util bit_array of i (v i) last b) (omega (arith, whole)) room
            (λ pos less. layout.increasing.ordered i less)
            (write_value-Written start i last b inside room w) in
        let differs : (not (i == 0) && (v i == last)) ≡ false = elim (Bool-cases (i == 0)) [
          | inl first ↦ rw first refl
          | inr other ↦ let lt = above (ground (arith, other)) inside in ground (arith, other, lt)
        ] in
        let in_order : (not (i == 0) && ltb (v i) last) ≡ false = elim (Bool-cases (i == 0)) [
          | inl first ↦ rw first refl
          | inr other ↦ let lt = above (ground (arith, other)) inside in ground (arith, other, lt)
        ] in
        let in_universe : ltb (v i) of.universe ≡ true =
          ground (arith, layout.increasing.below i inside, layout.universe_eq) in
        (b', rw (differs, in_order, in_universe) eq, written)
