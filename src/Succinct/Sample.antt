-- ===== src/Succinct/Sample.antt =====
-- Functions with the behaviour that the parameters ask for.
use native.Mathlib.Nat.{div-add-mod', mod-lt, pow-suc}
use ds2i.Base.{
  ℕ, zero, suc, ◌+◌, ◌-◌, ◌*◌, ◌/◌, ◌%◌, ◌^◌, ◌≤◌, ◌<◌, ◌≡◌, ap, refl, ltb, ◌==◌, if◌then◌else◌,
  arith, Bool, true, false, Bool-cases, inl, inr, List, [], ◌∷◌, ◌++◌, replicate, length, drop,
}
use ds2i.Base.Bits.{two-pow-add}
use ds2i.Succinct.{Broadword, Util, BitVector, BitVectors, bits}

pub log2 : ℕ → ℕ → ℕ
log2 zero x = 0
log2 (suc fuel) x = let rest = suc (log2 fuel (x / 2)) in if ltb x 2 then 0 else rest

log2_bounds : (fuel x : ℕ) → x ≤ fuel → 0 < x → (2 ^ log2 fuel x ≤ x) × (x < 2 * 2 ^ log2 fuel x)
unfolding log2
log2_bounds zero x h pos = absurd (omega arith)
log2_bounds (suc fuel) x h pos =
    ground (arith, log2_bounds fuel (x / 2), pow-suc 2 (log2 fuel (x / 2)))

pub msb_bounds : (x : ℕ) → 0 < x → x < 2 ^ 64 → (2 ^ log2 x x ≤ x) × (x < 2 ^ (log2 x x + 1))
msb_bounds x pos small = omega (arith, log2_bounds x x, two-pow-add (log2 x x) 1)

abbrev pub sample_broadword : Broadword
sample_broadword = record { msb = λ x. log2 x x; msb_bounds = msb_bounds }

pub ceil_div_bounds :
    (a b : ℕ) → 0 < b → (a ≤ (a + (b - 1)) / b * b) × ((a + (b - 1)) / b * b < a + b)
ceil_div_bounds a b pos = omega (arith, div-add-mod' (a + (b - 1)) b, mod-lt (a + (b - 1)) pos)

abbrev pub sample_util : Util
sample_util = record { ceil_div = λ a b. (a + (b - 1)) / b; ceil_div_bounds = ceil_div_bounds }

pub read_bits : ℕ → List Bool → List Bool × ℕ
read_bits zero e = (e, 0)
read_bits (suc l) [] = ([], 0)
read_bits (suc l) (b ∷ e) =
    let (rest, low) = read_bits l e in (rest, (if b then 1 else 0) + 2 * low)

pub count_zeros : List Bool → List Bool × ℕ
count_zeros [] = ([], 0)
count_zeros (true ∷ e) = (e, 0)
count_zeros (false ∷ e) = let (rest, zeros) = count_zeros e in (rest, suc zeros)

pub read_bits-bits :
    (x l : ℕ) (rest : List Bool)
    → x < 2 ^ l
    → ((read_bits l (bits x l ++ rest)).1 ≡ x) × ((read_bits l (bits x l ++ rest)).0 ≡ rest)
unfolding read_bits
read_bits-bits x zero rest small = (omega arith, refl)
read_bits-bits x (suc l) rest small =
    let (value, behind) = read_bits-bits (x / 2) l rest (omega (arith, two-pow-add l 1)) in
    let e : 1 + l ≡ suc l = omega arith in
    elim (Bool-cases (x % 2 == 1)) [
      | inl odd ↦ rw odd (ground (arith, value, odd), behind)
      | inr even ↦ rw even (ground (arith, value, even), behind)
    ]

pub count_zeros-replicate :
    (k : ℕ) (rest : List Bool)
    → ((count_zeros (replicate k false ++ (true ∷ rest))).1 ≡ k)
      × ((count_zeros (replicate k false ++ (true ∷ rest))).0 ≡ rest)
unfolding count_zeros
count_zeros-replicate zero rest = (refl, refl)
count_zeros-replicate (suc k) rest =
    let (count, behind) = count_zeros-replicate k rest in (ap suc count, behind)

-- A list of bits.
abbrev pub sample_bit_vector : BitVector
sample_bit_vector = record {
  Builder = List Bool;
  Enumerator = List Bool;
  contents = λ b. b;
  ahead = λ e. e;
  append_bits = λ x l b. b ++ bits x l;
  take = read_bits;
  skip_zeros = count_zeros;
  append_bits_eq = λ x l b small short. refl;
  take_eq = λ x l rest e small short at. rw at (read_bits-bits x l rest small);
  skip_zeros_eq = λ k rest e at. rw at (count_zeros-replicate k rest);
}

pub sample_bit_vectors : BitVectors sample_bit_vector
sample_bit_vectors = record {
  empty = [];
  append = λ a b. a ++ b;
  size = length;
  enumerator = λ a k. drop k a;
  empty_eq = refl;
  append_eq = λ a b. refl;
  size_eq = λ a. refl;
  enumerator_eq = λ a k. refl;
}
