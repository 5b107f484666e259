-- ===== src/EliasFano/Writing.antt =====
-- Writing value after value, with the pointers to the zeros between them.
use native.Mathlib.Nat.{suc-mul, mul-le-mul_right, mul-le-mul_left, div-add-mod', mod-lt}
use ds2i.Base.{
  ℕ, zero, suc, ◌+◌, ◌-◌, ◌*◌, ◌%◌, ◌^◌, ◌≤◌, ◌<◌, ◌≡◌, inl, inr, ap, ◌∙◌, refl, Bool-cases, ltb,
  ltb→lt, ◌==◌, bit_and, false, arith,
}
use ds2i.Base.Bits.{two-pow-pos, bit_and_mask}
use ds2i.Succinct.{Broadword, Util}
use ds2i.BitArray.{BitArray}
use ds2i.BitArray.Fields.{
  Touches, Touches-refl, Touches-trans, Touches-wider, set_bits-Touches, set-Touches,
}
use ds2i.EliasFano.{Offsets, ptr0s_loop, set_ptr0s, write_value}
use ds2i.EliasFano.Layout.{Layout, high_of, places}
use ds2i.BitArray.Sampled.{
  Ones, Pointers, Ones-Touches, Pointers-Touches, set-Ones, with_pointer, with_pointer-Pointers,
  with_pointer-Touches,
}
use ds2i.EliasFano.Lows.{Lows, low_place, Lows-Touches, set_bits-Lows, low_inside}

module _ (broadword : Broadword) (util : Util) (bit_array : BitArray) {of : Offsets} {v : ℕ → ℕ}
    {universe n : ℕ} (layout : Layout of v universe n) where
  open bit_array use {Bits, size, get, set, set_bits}

  -- A pointer to a zero stays in front of the pointers to ones.
  pointer0_inside :
      (ptr0 count : ℕ)
      → 0 < ptr0
      → ptr0 * 2 ^ of.log_sampling0 < count
      → count + n ≤ of.higher_bits_length
      → of.pointers0_offset + (ptr0 - 1) * of.pointer_size + of.pointer_size ≤ of.pointers1_offset
  pointer0_inside ptr0 count pos less le =
      let few : ptr0 ≤ of.pointers0 = at_most (omega (arith, less, le)) in
      let e : ptr0 - 1 + 1 ≡ ptr0 = omega arith in
      omega (
        arith,
        mul-le-mul_right of.pointer_size few,
        suc-mul (ptr0 - 1) of.pointer_size,
        ap (λ (t : ℕ). t * of.pointer_size) e,
        layout.pointers1_start,
      )
    where
      at_most : ptr0 * 2 ^ of.log_sampling0 < of.higher_bits_length - n → ptr0 ≤ of.pointers0
      at_most less = elim (Bool-cases (ltb of.pointers0 ptr0)) [
        | inr fine ↦ ground (arith, fine)
        | inl more ↦
            let step : suc of.pointers0 ≤ ptr0 = ltb→lt _ _ more in
            let q = 2 ^ of.log_sampling0 in
            let all = of.higher_bits_length - n in
            absurd (
              omega (
                arith,
                mul-le-mul_right q step,
                suc-mul of.pointers0 q,
                ap (λ (t : ℕ). t * q) layout.pointers0_eq,
                div-add-mod' all q,
                mod-lt all (two-pow-pos of.log_sampling0),
                less,
              ))
      ]

  ptr0s_loop-Touches :
      (fuel ptr0 end_zeros rank_end : ℕ) (b : Bits)
      → end_zeros + n ≤ of.higher_bits_length
      → of.pointers1_offset ≤ size b
      → Touches bit_array of.pointers0_offset of.pointers1_offset b
          (ptr0s_loop broadword util bit_array fuel of ptr0 end_zeros rank_end b)
  unfolding ptr0s_loop
  ptr0s_loop-Touches zero ptr0 end_zeros rank_end b le room =
      Touches-refl bit_array of.pointers0_offset of.pointers1_offset b
  ptr0s_loop-Touches (suc fuel) ptr0 end_zeros rank_end b le room =
      elim (Bool-cases (ltb (ptr0 * 2 ^ of.log_sampling0) end_zeros)) [
        | inr done ↦ rw done (Touches-refl bit_array of.pointers0_offset of.pointers1_offset b)
        | inl more ↦ elim (Bool-cases (ptr0 == 0)) [
          | inl first ↦
              rw (more, first) (ptr0s_loop-Touches fuel (suc ptr0) end_zeros rank_end b le room)
          | inr other ↦
              let x = ptr0 * 2 ^ of.log_sampling0 + rank_end in
              let place = of.pointers0_offset + (ptr0 - 1) * of.pointer_size in
              let inside =
                pointer0_inside ptr0 end_zeros (ground (arith, other)) (ltb→lt _ _ more) le in
              let t =
                set_bits-Touches bit_array of.pointers0_offset of.pointers1_offset place x
                  of.pointer_size b (omega (arith, inside, room)) (omega arith) inside in
              rw (more, other)
                (Touches-trans bit_array of.pointers0_offset of.pointers1_offset b _ _ t (
                  ptr0s_loop-Touches fuel (suc ptr0) end_zeros rank_end
                    (set_bits place x of.pointer_size b) le (omega (arith, t.size_eq, room))))
        ]
      ]

  pub set_ptr0s-Touches :
      (begin end rank_end : ℕ) (b : Bits)
      → end - rank_end + n ≤ of.higher_bits_length
      → of.pointers1_offset ≤ size b
      → Touches bit_array of.pointers0_offset of.pointers1_offset b
          (set_ptr0s broadword util bit_array of begin end rank_end b)
  unfolding set_ptr0s
  set_ptr0s-Touches begin end rank_end b le room =
      ptr0s_loop-Touches (end - rank_end) (util.ceil_div (begin - rank_end) (2 ^ of.log_sampling0))
        (end - rank_end) rank_end b le room

  -- The first `i` values are written, and nothing but the new bits has changed.
  pub record Written (start : Bits) (i : ℕ) (b : Bits) : Type 0 where
    pub kept : Touches bit_array of.pointers0_offset of.end_offset start b
    pub ones : Ones bit_array (places layout) i b
    pub lows : Lows bit_array layout i b
    pub pointers : Pointers bit_array (places layout) i b

  pub set_ptr0s-Written :
      (start : Bits) (begin end rank_end i : ℕ) (b : Bits)
      → end - rank_end + n ≤ of.higher_bits_length
      → i ≤ n
      → of.end_offset ≤ size start
      → Written start i b
      → Written start i (set_ptr0s broadword util bit_array of begin end rank_end b)
  set_ptr0s-Written start begin end rank_end i b le inside room w =
      let t = set_ptr0s-Touches begin end rank_end b le (
        omega (
          arith, w.kept.size_eq, room, layout.higher_bits_start, layout.lower_bits_start,
          layout.end_eq,
        )) in
      record {
        kept = Touches-trans bit_array of.pointers0_offset of.end_offset start b _ w.kept (
            Touches-wider bit_array (omega arith)
              (omega (arith, layout.higher_bits_start, layout.lower_bits_start, layout.end_eq)) t);
        ones =
            Ones-Touches bit_array (places layout) i t
              (inl (omega (arith, layout.higher_bits_start))) w.ones;
        lows =
            Lows-Touches bit_array layout i t
              (omega (arith, layout.higher_bits_start, layout.lower_bits_start)) w.lows;
        pointers =
            Pointers-Touches bit_array (places layout) i inside t (inl (omega arith)) w.pointers;
      }

  -- One more value.
  pub write_value-Written :
      (start : Bits) (i last_high : ℕ) (b : Bits)
      → i < n
      → of.end_offset ≤ size start
      → Written start i b
      → Written start (suc i) (write_value broadword util bit_array of i (v i) last_high b)
  unfolding write_value
  write_value-Written start i last_high b inside room w =
      let l = of.lower_bits in
      let place = of.higher_bits_offset + high_of of v i in
      let low_eq : bit_and (v i) of.mask ≡ v i % 2 ^ l =
        ap (bit_and (v i)) layout.mask_eq ∙ bit_and_mask l (v i) in
      let room_b : of.end_offset ≤ size b = omega (arith, w.kept.size_eq, room) in
      let one_inside : place < of.lower_bits_offset =
        omega (arith, layout.high_room i inside, layout.lower_bits_start, inside) in
      let t₁ =
        set-Touches bit_array place (suc place) place b
          (omega (arith, one_inside, layout.end_eq, room_b)) (omega arith) (omega arith) in
      let b₁ = set place b in
      let low_fits = low_inside bit_array layout n i inside in
      let t₂ =
        set_bits-Touches bit_array of.lower_bits_offset of.end_offset (low_place bit_array layout i)
          (v i % 2 ^ l) l b₁ (omega (arith, low_fits, layout.end_eq, t₁.size_eq, room_b))
          (omega arith) (omega (arith, low_fits, layout.end_eq)) in
      let b₂ = set_bits (low_place bit_array layout i) (v i % 2 ^ l) l b₁ in
      let room₂ : of.higher_bits_offset ≤ size b₂ =
        omega (arith, t₁.size_eq, t₂.size_eq, layout.lower_bits_start, layout.end_eq, room_b) in
      let t₃ = with_pointer-Touches bit_array (places layout) i b₂ inside room₂ in
      let b₃ = with_pointer bit_array (places layout) i b₂ in
      let order = layout.higher_bits_start in
      let lows₁ = Lows-Touches bit_array layout i t₁ (omega (arith, one_inside)) w.lows in
      let ones₁ =
        set-Ones bit_array (places layout) i b inside (omega (arith, layout.end_eq, room_b))
          w.ones in
      let pointers₁ =
        Pointers-Touches bit_array (places layout) i (omega (arith, inside)) t₁ (inr (omega arith))
          w.pointers in
      let lows₂ =
        set_bits-Lows bit_array layout i b₁ inside (omega (arith, t₁.size_eq, room_b)) lows₁ in
      let written : Written start (suc i) b₃ = record {
        kept = Touches-trans bit_array of.pointers0_offset of.end_offset start b b₃ w.kept (
            Touches-trans bit_array of.pointers0_offset of.end_offset b b₁ b₃
              (Touches-wider bit_array (omega (arith, layout.pointers1_start, order))
                (omega (arith, one_inside, layout.end_eq)) t₁)
              (Touches-trans bit_array of.pointers0_offset of.end_offset b₁ b₂ b₃
                (Touches-wider bit_array
                  (omega (arith, layout.pointers1_start, order, layout.lower_bits_start))
                  (omega arith) t₂)
                (Touches-wider bit_array (omega (arith, layout.pointers1_start))
                  (omega (arith, layout.lower_bits_start, layout.end_eq)) t₃)));
        ones =
            Ones-Touches bit_array (places layout) (suc i) t₃ (inl (omega arith))
              (Ones-Touches bit_array (places layout) (suc i) t₂ (inr (omega arith)) ones₁);
        lows =
            Lows-Touches bit_array layout (suc i) t₃ (omega (arith, layout.lower_bits_start)) lows₂;
        pointers = with_pointer-Pointers bit_array (places layout) i b₂ inside room₂ (
            Pointers-Touches bit_array (places layout) i (omega (arith, inside)) t₂
              (inr (omega (arith, layout.lower_bits_start))) pointers₁);
      } in
      rw low_eq (
        set_ptr0s-Written start (last_high + 1) (high_of of v i) i (suc i) b₃
          (omega (arith, layout.high_room i inside)) inside room written)

  -- The loop over the pointers ends before the rounds do: more of them change nothing.
  pub ptr0s_loop-enough :
      (k fuel ptr0 end_zeros rank_end : ℕ) (b : Bits)
      → end_zeros ≤ ptr0 + fuel
      → ptr0s_loop broadword util bit_array (fuel + k) of ptr0 end_zeros rank_end b
        ≡ ptr0s_loop broadword util bit_array fuel of ptr0 end_zeros rank_end b
  unfolding ptr0s_loop
  ptr0s_loop-enough zero zero ptr0 end_zeros rank_end b le = refl
  ptr0s_loop-enough (suc k) zero ptr0 end_zeros rank_end b le =
      let e : 0 + suc k ≡ suc k = omega arith in
      let done : ltb (ptr0 * 2 ^ of.log_sampling0) end_zeros ≡ false =
        let far = mul-le-mul_left ptr0 (two-pow-pos of.log_sampling0) in ground (arith, le, far) in
      rw (e, done) refl
  ptr0s_loop-enough k (suc fuel) ptr0 end_zeros rank_end b le =
      let e : suc fuel + k ≡ suc (fuel + k) = omega arith in
      let rest =
        λ (b : Bits). ptr0s_loop-enough k fuel (suc ptr0) end_zeros rank_end b (omega arith) in
      rw e (elim (Bool-cases (ltb (ptr0 * 2 ^ of.log_sampling0) end_zeros)) [
        | inr done ↦ rw done refl
        | inl more ↦ rw more (rest _)
      ])
