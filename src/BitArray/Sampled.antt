-- ===== src/BitArray/Sampled.antt =====
-- Ones at the places of a rising function in a region, with the places of every `2^log`-th of them
-- in an array of pointers before it: what the writers of compact_elias_fano and
-- compact_ranked_bitvector have in common.
use native.Mathlib.Nat.{suc-mul, mul-le-mul_right, div-add-mod', mod-lt, mul-mod_left}
use ds2i.Base.{
  ℕ, zero, suc, ◌+◌, ◌-◌, ◌*◌, ◌/◌, ◌%◌, ◌^◌, ◌≤◌, ◌<◌, ◌≡◌, ◌≢◌, ◌⊎◌, inl, inr, ap, sym, subst,
  ◌∙◌, refl, Bool-cases, ltb, ltb→lt, ◌==◌, ◌&&◌, not, if◌then◌else◌, bit_and, true, false, arith,
}
use ds2i.Base.Bits.{two-pow-pos, bit_and_mask}
use ds2i.BitArray.{BitArray}
use ds2i.BitArray.Fields.{
  Field, Touches, Touches-refl, set_bits-Touches, Field-Touches, set_bits-Field,
}
use ds2i.BitArray.Ones.{marked}

pub record Places (n : ℕ) : Type 0 where
  pub pointers : ℕ
  pub size : ℕ
  pub log : ℕ
  pub start : ℕ
  pub len : ℕ
  pub h : ℕ → ℕ
  pub order : pointers + n / 2 ^ log * size ≤ start
  pub short : size ≤ 56
  pub fits : (p : ℕ) → p < n → h p < 2 ^ size
  pub room : (p : ℕ) → p < n → h p < len
  pub step : (p : ℕ) → suc p < n → h p < h (suc p)

module _ (bit_array : BitArray) {n : ℕ} (places : Places n) where
  open bit_array use {Bits, size, get, set, set_bits}

  abbrev pub Ones : ℕ → Bits → Type 0
  Ones i b = (x : ℕ) → x < places.len → get b (places.start + x) ≡ marked (places.h) i x

  abbrev pub pointer_place : ℕ → ℕ
  pointer_place k = places.pointers + (k - 1) * places.size

  abbrev pub Pointers : ℕ → Bits → Type 0
  Pointers i b =
      (k : ℕ)
      → 0 < k
      → k * 2 ^ places.log < i
      → Field bit_array b (pointer_place k) places.size (places.h (k * 2 ^ places.log))

  pub Ones-Touches :
      {lo hi : ℕ} {b b' : Bits} (i : ℕ)
      → Touches bit_array lo hi b b'
      → (hi ≤ places.start) ⊎ ((places.start + places.len) ≤ lo)
      → Ones i b
      → Ones i b'
  Ones-Touches i t away ones x inside =
      t.outside (places.start + x) (elim away [
        | inl before ↦ inr (omega (arith, before))
        | inr behind ↦ inl (omega (arith, behind, inside))
      ])
      ∙ ones x inside

  pub pointer_inside :
      (i k : ℕ)
      → i ≤ n
      → 0 < k
      → k * 2 ^ places.log < i
      → pointer_place k + places.size ≤ places.start
  pointer_inside i k le pos less =
      let few : k ≤ (n / 2 ^ places.log) = pointer_few k (omega (arith, le, less)) in
      let e : k - 1 + 1 ≡ k = omega arith in
      omega (
        arith,
        mul-le-mul_right places.size few,
        suc-mul (k - 1) places.size,
        ap (λ (t : ℕ). t * places.size) e,
        places.order,
      )
    where
      pointer_few : (k : ℕ) → k * 2 ^ places.log < n → k ≤ (n / 2 ^ places.log)
      pointer_few k less = elim (Bool-cases (ltb (n / 2 ^ places.log) k)) [
        | inr fine ↦ ground (arith, fine)
        | inl more ↦
            let step : suc (n / 2 ^ places.log) ≤ k = ltb→lt _ _ more in
            let q = 2 ^ places.log in
            absurd (
              omega (
                arith,
                mul-le-mul_right q step,
                suc-mul (n / 2 ^ places.log) q,
                div-add-mod' n q,
                mod-lt n (two-pow-pos places.log),
                less,
              ))
      ]

  pub Pointers-Touches :
      {lo hi : ℕ} {b b' : Bits} (i : ℕ)
      → i ≤ n
      → Touches bit_array lo hi b b'
      → (hi ≤ places.pointers) ⊎ (places.start ≤ lo)
      → Pointers i b
      → Pointers i b'
  Pointers-Touches i le t away pointers k pos less =
      Field-Touches bit_array (pointer_place k) places.size (places.h (k * 2 ^ places.log)) t
        (elim away [
          | inl before ↦ inr (omega (arith, before))
          | inr behind ↦ inl (omega (arith, behind, pointer_inside i k le pos less))
        ])
        (pointers k pos less)

  -- The one of a value.
  pub set-Ones :
      (i : ℕ) (b : Bits)
      → i < n
      → (places.start + places.len) ≤ size b
      → Ones i b
      → Ones (suc i) (set (places.start + places.h i) b)
  set-Ones i b inside room ones x less =
      let h = places.h i in
      let fits : places.start + h < size b = omega (arith, places.room i inside, room) in
      elim (Bool-cases (h == x)) [
        | inl same ↦
            let e : h ≡ x = ground (arith, same) in
            rw same (
              ap (λ (t : ℕ). get (set (places.start + h) b) (places.start + t)) (sym e)
              ∙ bit_array.set_here (places.start + h) b fits)
        | inr other ↦ rw other (
            bit_array.set_other (places.start + h) (places.start + x) b fits
              (elim (Bool-cases (ltb x h)) [
                | inl before ↦ inl (omega (arith, ltb→lt _ _ before))
                | inr behind ↦ inr (ground (arith, behind, other))
              ])
            ∙ ones x less)
      ]

  -- The pointer to the one of a value.
  pub set_bits-Pointers :
      (k : ℕ) (b : Bits)
      → 0 < k
      → k * 2 ^ places.log < n
      → places.start ≤ size b
      → Pointers (k * 2 ^ places.log) b
      → Pointers
          (suc (k * 2 ^ places.log))
          (set_bits (pointer_place k) (places.h (k * 2 ^ places.log)) places.size b)
  set_bits-Pointers k b pos inside room pointers k' pos' less =
      let q = 2 ^ places.log in
      let h = places.h (k * q) in
      let fits : pointer_place k + places.size ≤ size b =
        omega (arith, pointer_inside n k (omega arith) pos inside, room) in
      let touched =
        set_bits-Touches bit_array (pointer_place k) (pointer_place k + places.size)
          (pointer_place k) h places.size b fits (omega arith) (omega arith) in
      elim (Bool-cases (k' == k)) [
        | inl same ↦
            let e : k' ≡ k = ground (arith, same) in
            rw e (
              set_bits-Field bit_array (pointer_place k) h places.size b fits
                (omega (arith, places.short)) (places.fits (k * q) inside))
        | inr other ↦
            let before : k' < k =
              smaller q k k' (two-pow-pos places.log) less (ground (arith, other)) in
            Field-Touches bit_array (pointer_place k') places.size (places.h (k' * q)) touched
              (inl (behind k k' pos' before))
              (pointers k' pos' (earlier q k k' (two-pow-pos places.log) before))
      ]
    where
      earlier : (q k k' : ℕ) → 1 ≤ q → k' < k → k' * q < k * q
      earlier q k k' pos less =
          let step : suc k' ≤ k = less in omega (arith, mul-le-mul_right q step, suc-mul k' q)

      smaller : (q k k' : ℕ) → 1 ≤ q → k' * q < suc (k * q) → (k' < k) ⊎ (k < k') → k' < k
      smaller q k k' pos less (inl before) = before
      smaller q k k' pos less (inr after) = absurd (omega (arith, earlier q k' k pos after))

      behind : (k k' : ℕ) → 0 < k' → k' < k → pointer_place k' + places.size ≤ pointer_place k
      behind k k' pos less =
          let step : suc (k' - 1) ≤ k - 1 = omega (arith, less, pos) in
          omega (arith, mul-le-mul_right places.size step, suc-mul (k' - 1) places.size)

  -- The pointer that is written at a sampled one, or none.
  abbrev pub with_pointer : ℕ → Bits → Bits
  with_pointer i b =
      if not (i == 0) && (bit_and i (2 ^ places.log - 1) == 0)
      then set_bits (pointer_place (i / 2 ^ places.log)) (places.h i) places.size b
      else b

  sampled_cases :
      (i : ℕ)
      → ((not (i == 0) && (bit_and i (2 ^ places.log - 1) == 0)) ≡ true)
          × (i / 2 ^ places.log * 2 ^ places.log ≡ i)
          × (0 < i / 2 ^ places.log)
        ⊎ ((not (i == 0) && (bit_and i (2 ^ places.log - 1) == 0)) ≡ false)
          × ((k : ℕ) → 0 < k → k * 2 ^ places.log ≢ i)
  sampled_cases i =
      let q = 2 ^ places.log in
      let split = div-add-mod' i q in
      elim (Bool-cases (i == 0)) [
        | inl first ↦ inr (
          rw first refl,
          λ k pos e. absurd (
              let z : i ≡ 0 = ground (arith, first) in
              omega (arith, z, e, mul-le-mul_right q (one_le k pos), two-pow-pos places.log)),
        )
        | inr other ↦ elim (Bool-cases (bit_and i (q - 1) == 0)) [
          | inl whole ↦
              let even : i % q ≡ 0 = sym (bit_and_mask places.log i) ∙ ground (arith, whole) in
              let exact : i / q * q ≡ i = omega (arith, split, even) in
              inl (
                rw (other, whole) refl,
                exact,
                quotient_pos (i / q) q i exact (ground (arith, other)),
              )
          | inr part ↦ inr (
            rw (other, part) refl,
            λ k pos e. absurd (
                let even : i % q ≡ 0 = ap (λ (t : ℕ). t % q) (sym e) ∙ mul-mod_left k q in
                let none : bit_and i (q - 1) ≡ 0 = bit_and_mask places.log i ∙ even in
                ground (arith, none, part)),
          )
        ]
      ]
    where
      one_le : (k : ℕ) → 0 < k → 1 ≤ k
      one_le k pos = pos

      quotient_pos : (k q i : ℕ) → k * q ≡ i → (i < 0) ⊎ (0 < i) → 0 < k
      quotient_pos zero q i e pos = omega (arith, e, pos)
      quotient_pos (suc k) q i e pos = omega arith

  pub with_pointer-Pointers :
      (i : ℕ) (b : Bits)
      → i < n
      → places.start ≤ size b
      → Pointers i b
      → Pointers (suc i) (with_pointer i b)
  with_pointer-Pointers i b inside room pointers = elim (sampled_cases i) [
    | inl taken ↦
        let q = 2 ^ places.log in
        let k = i / q in
        rw (taken.0) (
          subst
            (λ (t : ℕ). Pointers (suc t) (set_bits (pointer_place k) (places.h t) places.size b))
            (taken.1)
            (set_bits-Pointers k b (taken.2) (omega (arith, taken.1, inside)) room
              (subst (λ (t : ℕ). Pointers t b) (sym (taken.1)) pointers)))
    | inr skipped ↦
        rw (skipped.0) (λ k pos less. pointers k pos (omega (arith, less, skipped.1 k pos)))
  ]

  pub with_pointer-Touches :
      (i : ℕ) (b : Bits)
      → i < n
      → places.start ≤ size b
      → Touches bit_array places.pointers places.start b (with_pointer i b)
  with_pointer-Touches i b inside room = elim (sampled_cases i) [
    | inr skipped ↦ rw (skipped.0) (Touches-refl bit_array places.pointers places.start b)
    | inl taken ↦
        let k = i / 2 ^ places.log in
        let before = pointer_inside n k (omega arith) (taken.2) (omega (arith, taken.1, inside)) in
        rw (taken.0) (
          set_bits-Touches bit_array places.pointers places.start (pointer_place k) (places.h i)
            places.size b (omega (arith, before, room)) (omega arith) before)
  ]
