-- ===== src/RankedBitvector/Layout.antt =====
-- The regions of an encoded bit vector.
use native.Mathlib.Nat.{mul-le-mul_left, div-le_self}
use ds2i.Base.{ℕ, ◌+◌, ◌*◌, ◌/◌, ◌^◌, ◌≤◌, ◌<◌, ◌≡◌, ap, refl, arith}
use ds2i.Succinct.{Broadword}
use ds2i.BitArray.Sampled.{Places}
use ds2i.Sequence.{Increasing}
use ds2i.EliasFano.{ceil_log2}
use ds2i.EliasFano.Layout.{ceil_log2_bound, ceil_log2_short}
use ds2i.RankedBitvector.{Params, Offsets, offsets, bitsize}

pub record Layout (of : Offsets) (v : ℕ → ℕ) (universe n : ℕ) : Type 0 where
  pub n_eq : of.n ≡ n
  pub universe_eq : of.universe ≡ universe
  pub pointers1_start :
      of.rank1_samples_offset + of.rank1_samples * of.rank1_sample_size ≡ of.pointers1_offset
  pub bits_start : of.pointers1_offset + of.pointers1 * of.pointer_size ≡ of.bits_offset
  pub end_eq : of.bits_offset + universe ≡ of.end_offset
  pub samples_eq : of.rank1_samples ≡ universe / 2 ^ of.log_rank1_sampling
  pub pointers1_eq : of.pointers1 ≡ n / 2 ^ of.log_sampling1
  pub pointer_short : of.pointer_size ≤ 56
  pub pointer_fits : universe ≤ 2 ^ of.pointer_size
  pub increasing : Increasing v universe n

pub offsets-Layout :
    (broadword : Broadword) (base universe n : ℕ) (params : Params) (v : ℕ → ℕ)
    → Increasing v universe n
    → Layout (offsets broadword base universe n params) v universe n
unfolding offsets
offsets-Layout broadword base universe n params v inc = record {
  n_eq = refl;
  universe_eq = refl;
  pointers1_start = refl;
  bits_start = refl;
  end_eq = refl;
  samples_eq = refl;
  pointers1_eq = refl;
  pointer_short =
      ceil_log2_short broadword universe 56 (omega arith) (omega (arith, inc.universe_small));
  pointer_fits = ceil_log2_bound broadword universe (omega (arith, inc.universe_small));
  increasing = inc;
}

-- The ones of the values with the pointers to some of them.
abbrev pub places : {of : Offsets} {v : ℕ → ℕ} {universe n : ℕ} → Layout of v universe n → Places n
places {of} {v} {n} layout = record {
  pointers = of.pointers1_offset;
  size = of.pointer_size;
  log = of.log_sampling1;
  start = of.bits_offset;
  len = of.universe;
  h = v;
  order = omega (arith, layout.bits_start, ap (λ (t : ℕ). t * of.pointer_size) layout.pointers1_eq);
  short = layout.pointer_short;
  fits = λ p less. omega (arith, layout.increasing.below p less, layout.pointer_fits);
  room = λ p less. omega (arith, layout.increasing.below p less, layout.universe_eq);
  step = λ p less. layout.increasing.ordered p less;
}

module _ (broadword : Broadword) (base universe n : ℕ) (params : Params) where
  abbrev of : Offsets
  of = offsets broadword base universe n params

  offsets-start : of.rank1_samples_offset ≡ base
  unfolding offsets
  offsets-start = refl

  sample_size_eq : of.rank1_sample_size ≡ ceil_log2 broadword (n + 1)
  unfolding offsets
  sample_size_eq = refl

  pub end-bitsize : of.end_offset ≡ base + bitsize broadword params universe n
  unfolding offsets bitsize
  end-bitsize = omega arith

-- An encoded bit vector takes less than 2^63 bits.
pub bitsize-small :
    (broadword : Broadword) (params : Params) (v : ℕ → ℕ) (universe n : ℕ)
    → Increasing v universe n
    → bitsize broadword params universe n < 2 ^ 63
unfolding bitsize
bitsize-small broadword params v universe n inc =
    let of = offsets broadword 0 universe n params in
    let layout = offsets-Layout broadword 0 universe n params v inc in
    let short : of.rank1_sample_size ≤ 56 = omega (
      arith,
      sample_size_eq broadword 0 universe n params,
      ceil_log2_short broadword (n + 1) 56 (omega arith) (omega (arith, inc.universe_small)),
    ) in
    omega (
      arith,
      mul-le-mul_left of.rank1_samples short,
      mul-le-mul_left of.pointers1 layout.pointer_short,
      div-le_self universe (2 ^ of.log_rank1_sampling),
      div-le_self n (2 ^ of.log_sampling1),
      layout.samples_eq,
      layout.pointers1_eq,
      layout.pointers1_start,
      layout.bits_start,
      layout.end_eq,
      inc.universe_small,
      offsets-start broadword 0 universe n params,
    )
