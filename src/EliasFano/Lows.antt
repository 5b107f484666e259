-- ===== src/EliasFano/Lows.antt =====
-- The low bits of the first `i` values, through the write of one more.
use native.Mathlib.Nat.{suc-mul, mul-le-mul_right, mod-lt}
use ds2i.Base.{ℕ, suc, ◌+◌, ◌*◌, ◌%◌, ◌^◌, ◌≤◌, ◌<◌, ◌≡◌, inl, inr, Bool-cases, ◌==◌, arith}
use ds2i.Base.Bits.{two-pow-pos}
use ds2i.BitArray.{BitArray}
use ds2i.BitArray.Fields.{Field, Touches, set_bits-Touches, Field-Touches, set_bits-Field}
use ds2i.EliasFano.{Offsets}
use ds2i.EliasFano.Layout.{Layout}

module _ (bit_array : BitArray) {of : Offsets} {v : ℕ → ℕ} {universe n : ℕ}
    (layout : Layout of v universe n) where
  open bit_array use {Bits, size, get, set, set_bits}

  abbrev pub low_place : ℕ → ℕ
  low_place p = of.lower_bits_offset + p * of.lower_bits

  abbrev pub Lows : ℕ → Bits → Type 0
  Lows i b =
      (p : ℕ) → p < i → Field bit_array b (low_place p) of.lower_bits (v p % 2 ^ of.lower_bits)

  pub Lows-Touches :
      {lo hi : ℕ} {b b' : Bits} (i : ℕ)
      → Touches bit_array lo hi b b'
      → hi ≤ of.lower_bits_offset
      → Lows i b
      → Lows i b'
  Lows-Touches i t before lows p inside =
      Field-Touches bit_array (low_place p) of.lower_bits (v p % 2 ^ of.lower_bits) t
        (inr (omega (arith, before))) (lows p inside)

  pub low_inside : (i p : ℕ) → p < i → low_place p + of.lower_bits ≤ low_place i
  low_inside i p less =
      let step : suc p ≤ i = less in
      omega (arith, mul-le-mul_right of.lower_bits step, suc-mul p of.lower_bits)

  -- The low bits of a value.
  pub set_bits-Lows :
      (i : ℕ) (b : Bits)
      → i < n
      → of.end_offset ≤ size b
      → Lows i b
      → Lows (suc i) (set_bits (low_place i) (v i % 2 ^ of.lower_bits) of.lower_bits b)
  set_bits-Lows i b inside room lows p less =
      let l = of.lower_bits in
      let fits : low_place i + l ≤ size b =
        omega (arith, low_inside n i inside, layout.end_eq, room) in
      elim (Bool-cases (p == i)) [
        | inl same ↦
            let e : p ≡ i = ground (arith, same) in
            rw e (
              set_bits-Field bit_array (low_place i) (v i % 2 ^ l) l b fits
                (omega (arith, layout.lower_short)) (mod-lt (v i) (two-pow-pos l)))
        | inr other ↦
            let before : p < i = ground (arith, other, less) in
            Field-Touches bit_array (low_place p) l (v p % 2 ^ l)
              (set_bits-Touches bit_array (low_place i) (low_place i + l) (low_place i)
                (v i % 2 ^ l) l b fits (omega arith) (omega arith))
              (inl (low_inside i p before)) (lows p before)
      ]
