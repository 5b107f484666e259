-- ===== src/EliasFano/Layout.antt =====
-- The regions of an encoded sequence, and the sizes of its fields.
use native.Mathlib.Nat.{
  suc-mul, mul-le-mul_right, mul-le-mul_left, div-add-mod', div-le_self, lt-div-mul-add,
}
use ds2i.Base.{
  ℕ, suc, ◌+◌, ◌-◌, ◌*◌, ◌/◌, ◌^◌, ◌≤◌, ◌<◌, ◌≡◌, inl, inr, ap, refl, Bool-cases, ltb, ltb→lt, ◌==◌,
  arith,
}
use ds2i.Base.Bits.{two-pow-pos, two-pow_mono}
use ds2i.Succinct.{Broadword}
use ds2i.Sequence.{NonDecreasing}
use ds2i.BitArray.Sampled.{Places}
use ds2i.EliasFano.{Params, Offsets, offsets, bitsize, ceil_log2}

pub ceil_log2_bound : (broadword : Broadword) (x : ℕ) → x < 2 ^ 64 → x ≤ 2 ^ ceil_log2 broadword x
unfolding ceil_log2
ceil_log2_bound broadword x small = elim (Bool-cases (ltb 1 x)) [
  | inl more ↦ rw more (
      let b = broadword.msb_bounds (x - 1) (ground (arith, more)) (omega arith) in
      omega (arith, b.1))
  | inr few ↦ rw few (ground (arith, few))
]

-- The place of the highest one of a number below a power of two.
msb_short : (broadword : Broadword) (x k : ℕ) → 0 < x → k < 64 → x < 2 ^ k → broadword.msb x < k
msb_short broadword x k pos short small = elim (Bool-cases (ltb (broadword.msb x) k)) [
  | inl less ↦ ltb→lt _ _ less
  | inr big ↦
      let le : k ≤ broadword.msb x = ground (arith, big) in
      let b =
        broadword.msb_bounds x pos
          (omega (arith, small, two-pow_mono {a = k} {b = 64} (omega (arith, short)))) in
      absurd (omega (arith, two-pow_mono le, b.0, small))
]

pub ceil_log2_short :
    (broadword : Broadword) (x k : ℕ) → k < 64 → x ≤ 2 ^ k → ceil_log2 broadword x ≤ k
unfolding ceil_log2
ceil_log2_short broadword x k short small = elim (Bool-cases (ltb 1 x)) [
  | inr few ↦ rw few (omega arith)
  | inl more ↦ rw more (
      omega (
        arith,
        msb_short broadword (x - 1) k (ground (arith, more)) short (ground (arith, more, small)),
      ))
]

-- `high` is the place of the one of a value, from the offset of the high bits.
abbrev pub high_of : Offsets → (ℕ → ℕ) → ℕ → ℕ
high_of of v p = v p / 2 ^ of.lower_bits + p + 1

pub record Layout (of : Offsets) (v : ℕ → ℕ) (universe n : ℕ) : Type 0 where
  pub n_eq : of.n ≡ n
  pub universe_eq : of.universe ≡ universe
  pub pointers1_start : of.pointers0_offset + of.pointers0 * of.pointer_size ≡ of.pointers1_offset
  pub higher_bits_start :
      of.pointers1_offset + of.pointers1 * of.pointer_size ≡ of.higher_bits_offset
  pub lower_bits_start : of.higher_bits_offset + of.higher_bits_length ≡ of.lower_bits_offset
  pub end_eq : of.lower_bits_offset + n * of.lower_bits ≡ of.end_offset
  pub pointers0_eq : of.pointers0 ≡ (of.higher_bits_length - n) / 2 ^ of.log_sampling0
  pub pointers1_eq : of.pointers1 ≡ n / 2 ^ of.log_sampling1
  pub mask_eq : of.mask ≡ 2 ^ of.lower_bits - 1
  pub lower_short : of.lower_bits ≤ 56
  pub pointer_short : of.pointer_size ≤ 56
  pub pointer_fits : of.higher_bits_length ≤ 2 ^ of.pointer_size
  pub high_room : (p : ℕ) → p < n → v p / 2 ^ of.lower_bits + n + 2 ≤ of.higher_bits_length
  pub high_step : (p : ℕ) → suc p < n → v p / 2 ^ of.lower_bits ≤ v (suc p) / 2 ^ of.lower_bits

-- The ones of the values with the pointers to some of them.
abbrev pub places : {of : Offsets} {v : ℕ → ℕ} {universe n : ℕ} → Layout of v universe n → Places n
places {of} {v} {n} layout = record {
  pointers = of.pointers1_offset;
  size = of.pointer_size;
  log = of.log_sampling1;
  start = of.higher_bits_offset;
  len = of.higher_bits_length;
  h = high_of of v;
  order =
      omega
        (arith, layout.higher_bits_start, ap (λ (t : ℕ). t * of.pointer_size) layout.pointers1_eq);
  short = layout.pointer_short;
  fits = λ p less. omega (arith, layout.high_room p less, layout.pointer_fits, less);
  room = λ p less. omega (arith, layout.high_room p less, less);
  step = λ p less. omega (arith, layout.high_step p less);
}

pub div_mono : (a b k : ℕ) → a ≤ b → a / 2 ^ k ≤ b / 2 ^ k
div_mono a b k le = elim (Bool-cases (ltb (b / 2 ^ k) (a / 2 ^ k))) [
  | inr fine ↦ ground (arith, fine)
  | inl more ↦
      let step : suc (b / 2 ^ k) ≤ a / 2 ^ k = ltb→lt _ _ more in
      absurd (
        omega (
          arith,
          mul-le-mul_right (2 ^ k) step,
          suc-mul (b / 2 ^ k) (2 ^ k),
          lt-div-mul-add {a = b} (two-pow-pos k),
          div-add-mod' a (2 ^ k),
          le,
        ))
]

module _ (broadword : Broadword) (base universe n : ℕ) (params : Params) where
  abbrev of : Offsets
  of = offsets broadword base universe n params

  lower_short : 0 < n → universe + n + 2 ≤ 2 ^ 56 → of.lower_bits ≤ 56
  unfolding offsets
  lower_short pos small = elim (Bool-cases (ltb n universe)) [
    | inr few ↦ rw few (omega arith)
    | inl more ↦
        let some : 0 < universe / n = quotient_pos universe n pos (ltb→lt _ _ more) in
        rw more (
          omega (
            arith,
            msb_short broadword (universe / n) 56 some (omega arith)
                (omega (arith, div-le_self universe n, small)),
          ))
  ]
    where
      quotient_pos : (x y : ℕ) → 0 < y → y < x → 0 < x / y
      quotient_pos x y pos less = elim (Bool-cases (x / y == 0)) [
        | inr other ↦ ground (arith, other)
        | inl same ↦
            let e : x / y ≡ 0 = ground (arith, same) in
            absurd (omega (arith, lt-div-mul-add {a = x} pos, ap (λ (t : ℕ). t * y) e, less))
      ]

  pub offsets-Layout :
      (v : ℕ → ℕ)
      → 0 < n
      → universe + n + 2 ≤ 2 ^ 56
      → ((p : ℕ) → p < n → v p < universe)
      → ((p : ℕ) → suc p < n → v p ≤ v (suc p))
      → Layout of v universe n
  unfolding offsets
  offsets-Layout v pos small below ordered =
      let short : of.higher_bits_length ≤ 2 ^ 56 =
        omega (arith, div-le_self universe (2 ^ of.lower_bits), small) in
      record {
        n_eq = refl;
        universe_eq = refl;
        pointers1_start = refl;
        higher_bits_start = refl;
        lower_bits_start = refl;
        end_eq = refl;
        pointers0_eq = refl;
        pointers1_eq = refl;
        mask_eq = refl;
        lower_short = lower_short pos small;
        pointer_short = ceil_log2_short broadword of.higher_bits_length 56 (omega arith) short;
        pointer_fits = ceil_log2_bound broadword of.higher_bits_length (omega (arith, short));
        high_room = λ p inside.
            omega (arith, div_mono (v p) universe of.lower_bits (omega (arith, below p inside)));
        high_step = λ p inside. div_mono (v p) (v (suc p)) of.lower_bits (ordered p inside);
      }

  pub offsets-start : of.pointers0_offset ≡ base
  unfolding offsets
  offsets-start = refl

  pub end-bitsize : of.end_offset ≡ base + bitsize broadword params universe n
  unfolding offsets bitsize
  end-bitsize = omega arith

-- An encoded sequence takes less than 2^63 bits.
pub bitsize-small :
    (broadword : Broadword) (params : Params) (v : ℕ → ℕ) (universe n : ℕ)
    → NonDecreasing v universe n
    → bitsize broadword params universe n < 2 ^ 63
unfolding bitsize
bitsize-small broadword params v universe n sorted =
    let of = offsets broadword 0 universe n params in
    let layout =
      offsets-Layout broadword 0 universe n params v sorted.n_pos sorted.universe_small sorted.below
        sorted.ordered in
    let base = end-bitsize broadword 0 universe n params in
    let most0 = div-le_self (of.higher_bits_length - n) (2 ^ of.log_sampling0) in
    let most1 = div-le_self n (2 ^ of.log_sampling1) in
    omega (
      arith,
      mul-le-mul_left of.pointers0 layout.pointer_short,
      mul-le-mul_left of.pointers1 layout.pointer_short,
      mul-le-mul_left n layout.lower_short,
      most0,
      most1,
      layout.pointers0_eq,
      layout.pointers1_eq,
      layout.high_room 0 sorted.n_pos,
      layout.pointer_fits,
      two-pow_mono layout.pointer_short,
      layout.pointers1_start,
      layout.higher_bits_start,
      layout.lower_bits_start,
      layout.end_eq,
      sorted.universe_small,
      starts 0,
    )
  where
    starts : (base : ℕ) → (offsets broadword base universe n params).pointers0_offset ≡ base
    starts base = offsets-start broadword base universe n params
