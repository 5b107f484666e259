-- ===== src/Interpolative/Ints.antt =====
-- `write_int` and `read_int`: truncated binary codes of integers below a bound.
use ds2i.Base.{
  ℕ, ◌+◌, ◌-◌, ◌*◌, ◌/◌, ◌%◌, ◌^◌, ◌≤◌, ◌<◌, ◌≡◌, ap, arith, true, ltb, leb, bit_and, some,
  Bool-cases, inl, inr, ltb→lt, false, subst,
}
use ds2i.Base.Bits.{two-pow_mono, two-pow-add, bit_and_mask}
use ds2i.Succinct.{Broadword}
use ds2i.Interpolative.{BitWriter, BitReader, write_int, read_int, read_long, short_codes}
use ds2i.Interpolative.Code.{Code, ◌⊕◌, field, ⊕_assoc, int_code}
use ds2i.Interpolative.Write.{Holds, write-Holds}
use ds2i.Interpolative.Read.{Follows, read-Follows}
use native.Mathlib.Decide.{dec_lt}

exponent_lt : (a b : ℕ) → 2 ^ a < 2 ^ b → a < b
exponent_lt a b h = elim (dec_lt a b) [
  | yes p ↦ p
  | no p ↦ absurd (omega (arith, two-pow_mono {a = b} (ge p)))
]
  where
    ge : ¬ (a < b) → b ≤ a
    ge p = omega arith

module _ (broadword : Broadword) where
  open broadword use {msb, msb_bounds}

  -- The bounds on the widths, and the number of short codes without the wrap-around.
  record Widths (u : ℕ) : Type 0 where
    narrow : msb u < 32
    double : 2 ^ (msb u + 1) ≡ 2 * 2 ^ msb u
    above : 2 ^ msb u ≤ u
    below : u < 2 * 2 ^ msb u
    word : 2 ^ msb u ≤ 2 ^ 31
    short_eq : short_codes broadword u ≡ 2 * 2 ^ msb u - u

  widths : (u : ℕ) → 0 < u → u < 2 ^ 32 → Widths u
  widths u pos small =
      let (lo, hi) = msb_bounds u pos (omega arith) in
      let double : 2 ^ (msb u + 1) ≡ 2 * 2 ^ msb u = omega (arith, two-pow-add (msb u) 1) in
      let narrow = exponent_lt (msb u) 32 (omega (arith, lo)) in
      let word : 2 ^ msb u ≤ 2 ^ 31 = two-pow_mono {b = 31} (omega (arith, narrow)) in
      record {
        narrow = narrow;
        double = double;
        above = lo;
        below = omega (arith, hi, double);
        word = word;
        short_eq = omega (arith, double, lo, hi, word);
      }

  -- A value below the bound, shifted behind the short codes, fits one bit more.
  pub write_int-Holds :
      (w : BitWriter) (c : Code) (val u : ℕ)
      → Holds w c
      → val < u
      → u < 2 ^ 32
      → Holds (write_int broadword w val u) (c ⊕ int_code broadword val u)
  unfolding write_int int_code
  write_int-Holds w c val u h lt small =
      let f = widths u (omega arith) small in
      let m = 2 * 2 ^ msb u - u in
      elim (Bool-cases (ltb val m)) [
        | inl short ↦
            rw (f.short_eq, f.double, short)
              (write-Holds w c val (msb u) h (omega (arith, ltb→lt _ _ short, f.above))
                (omega (arith, f.narrow)))
        | inr long ↦
            let whole : (val + m) % 2 ^ 32 ≡ val + m = omega (arith, f.below, f.word) in
            let bit : bit_and (val + m) 1 ≡ (val + m) % 2 = bit_and_mask 1 (val + m) in
            rw (f.short_eq, f.double, long, whole, bit)
              (subst (Holds _) (⊕_assoc c (field ((val + m) / 2) (msb u)) (field ((val + m) % 2) 1))
                (write-Holds _ _ ((val + m) % 2) 1
                  (write-Holds w c ((val + m) / 2) (msb u) h (omega (arith, f.below))
                    (omega (arith, f.narrow)))
                  (omega arith) (omega arith)))
      ]

  read_long_lem :
      (r : BitReader) (x bit m : ℕ) (d : Code)
      → Follows r (field bit 1 ⊕ d)
      → bit < 2
      → x < 2 ^ 31
      → m ≤ 2 * x + bit
      → (r' : BitReader) × (read_long broadword r x m ≡ some (2 * x + bit - m, r'))
        × Follows r' d
        × (r'.pos ≡ r.pos + 1)
  unfolding read_long
  read_long_lem r x bit m d f b hx hm =
      let (r', e, f', p) = read-Follows r bit 1 d f b (omega arith) in
      let v : ((x * 2 % 2 ^ 32 + bit) % 2 ^ 32 + 2 ^ 64 - m) % 2 ^ 64 % 2 ^ 32 ≡ 2 * x + bit - m =
        omega arith in
      (r', rw e (ap (λ (t : ℕ). some (t, r')) v), f', p)

  read_int_short :
      (r : BitReader) (d : Code) (val u : ℕ)
      → Widths u
      → Follows r (field val (msb u) ⊕ d)
      → val < 2 * 2 ^ msb u - u
      → (r' : BitReader) × (read_int broadword r u ≡ some (val, r'))
        × Follows r' d
        × (r'.pos ≡ r.pos + msb u)
  unfolding read_int
  read_int_short r d val u w f short =
      let (r', e, f', p) =
        read-Follows r val (msb u) d f (omega (arith, w.above)) (omega (arith, w.narrow)) in
      let test : leb (2 * 2 ^ msb u - u) val ≡ false = ground arith in
      (r', rw (w.short_eq, e, test), f', p)

  read_int_long :
      (r : BitReader) (d : Code) (x bit u : ℕ)
      → Widths u
      → Follows r (field x (msb u) ⊕ (field bit 1 ⊕ d))
      → x < 2 ^ msb u
      → bit < 2
      → 2 * 2 ^ msb u - u ≤ x
      → (r' : BitReader) × (read_int broadword r u ≡ some (2 * x + bit - (2 * 2 ^ msb u - u), r'))
        × Follows r' d
        × (r'.pos ≡ r.pos + (msb u + 1))
  unfolding read_int
  read_int_long r d x bit u w f hx b long =
      let (r₁, e, f₁, p) = read-Follows r x (msb u) _ f hx (omega (arith, w.narrow)) in
      let (r', e', f', p') =
        read_long_lem r₁ x bit (2 * 2 ^ msb u - u) d f₁ b (omega (arith, w.word)) (omega arith) in
      let test : leb (2 * 2 ^ msb u - u) x ≡ true = ground arith in
      (r', rw (w.short_eq, e, test) e', f', omega (arith, p, p'))

  -- `read_int` gives back the value that the code stands for, and takes its bits off.
  pub read_int-Follows :
      (r : BitReader) (d : Code) (val u : ℕ)
      → Follows r (int_code broadword val u ⊕ d)
      → val < u
      → u < 2 ^ 32
      → (r' : BitReader) × (read_int broadword r u ≡ some (val, r'))
        × Follows r' d
        × (r'.pos ≡ r.pos + (int_code broadword val u).len)
  unfolding int_code
  read_int-Follows r d val u f lt small =
      let w = widths u (omega arith) small in
      let m = 2 * 2 ^ msb u - u in
      elim (Bool-cases (ltb val m)) [
        | inl short ↦
            rw (w.double, short)
              (read_int_short r d val u w (rw (w.double, short) at f) (ltb→lt _ _ short))
        | inr long ↦
            let x = (val + m) / 2 in
            let bit = (val + m) % 2 in
            let back : 2 * x + bit - m ≡ val = omega arith in
            let f' : Follows r (field x (msb u) ⊕ field bit 1 ⊕ d) = rw (w.double, long) at f in
            rw (w.double, long)
              (subst
                (λ t.
                  (r' : BitReader) × (read_int broadword r u ≡ some (t, r'))
                  × Follows r' d
                  × (r'.pos ≡ r.pos + (msb u + 1)))
                back
                (read_int_long r d x bit u w
                  (subst (Follows r) (⊕_assoc (field x (msb u)) (field bit 1) d) f')
                  (omega (arith, w.below)) (omega arith) (ground (arith, w.below))))
      ]

  -- A code takes one bit more than the most significant bit at most.
  pub length-int_code : (val u : ℕ) → 0 < u → u < 2 ^ 32 → (int_code broadword val u).len ≤ 32
  unfolding int_code
  length-int_code val u pos small = let w = widths u pos small in ground (arith, w.narrow)
