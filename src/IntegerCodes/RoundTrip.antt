-- ===== src/IntegerCodes/RoundTrip.antt =====
-- What the codes write is read back.
use ds2i.Base.{
  ℕ, zero, suc, ◌+◌, ◌-◌, ◌*◌, ◌/◌, ◌%◌, ◌^◌, ◌≤◌, ◌<◌, ◌≡◌, ap, ◌∙◌, refl, Bool, true, false, List,
  [], ◌∷◌, ◌++◌, append_assoc, replicate, bit_or, bit_xor, ◌==◌, arith, Bool-cases, inl, inr, ltb,
  ltb→lt,
}
use ds2i.Base.Bits.{bit_or_fields, bit_xor_high, two-pow-pos, two-pow-add, two-pow_mono}
use ds2i.Succinct.{Broadword, BitVector, bits}
use ds2i.Sequence.{sub64}
use ds2i.IntegerCodes.{
  write_gamma, write_gamma_nonzero, read_gamma, read_gamma_nonzero, write_delta, read_delta,
}

bits-high : (l : ℕ) → bits (2 ^ l) (l + 1) ≡ replicate l false ++ (true ∷ [])
bits-high zero = refl
bits-high (suc l) =
    let even : (2 ^ suc l % 2 == 1) ≡ false = ground (arith, two-pow-add l 1) in
    let half : 2 ^ suc l / 2 ≡ 2 ^ l = omega (arith, two-pow-add l 1) in
    let e : suc l + 1 ≡ suc (l + 1) = omega arith in
    rw (e, even, half) (ap (◌∷◌ false) (bits-high l))

module _ (broadword : Broadword) (bit_vector : BitVector) where
  open bit_vector use {Builder, Enumerator, contents, ahead}

  -- A code of a number: what is appended, and what is read.
  pub record Coded (n : ℕ) (write : Builder → Builder) (read : Enumerator → Enumerator × ℕ)
      : Type 0 where
    pub code : List Bool
    pub wrote : (b : Builder) → contents (write b) ≡ contents b ++ code
    pub reads :
        (e : Enumerator) (rest : List Bool)
        → ahead e ≡ code ++ rest
        → ((read e).1 ≡ n) × (ahead (read e).0 ≡ rest)

  -- The highest bit of a number, and the bits below it.
  record Split (n : ℕ) : Type 0 where
    l : ℕ
    low : ℕ
    msb_eq : broadword.msb ((n + 1) % 2 ^ 64) ≡ l
    l_small : l < 64
    fits : low < 2 ^ l
    high : 2 ^ l % 2 ^ 64 ≡ 2 ^ l
    taken_off : bit_xor ((n + 1) % 2 ^ 64) (2 ^ l % 2 ^ 64) ≡ low
    put_back : sub64 (bit_or low (2 ^ l % 2 ^ 64)) 1 ≡ n

  split : (n : ℕ) → n + 1 < 2 ^ 64 → Split n
  unfolding sub64
  split n small =
      let nn : (n + 1) % 2 ^ 64 ≡ n + 1 = omega arith in
      let l = broadword.msb (n + 1) in
      let (high, low) = broadword.msb_bounds (n + 1) (omega arith) small in
      let l_small : l < 64 = elim (Bool-cases (ltb l 64)) [
        | inl less ↦ ltb→lt _ _ less
        | inr more ↦
            let le : 64 ≤ l = ground (arith, more) in
            let big : 2 ^ 64 ≤ 2 ^ l = two-pow_mono le in absurd (omega (arith, big, high, small))
      ] in
      let hb : 2 ^ l % 2 ^ 64 ≡ 2 ^ l = omega (arith, high, small) in
      let once : 1 * 2 ^ l ≡ 2 ^ l = omega arith in
      let joined : bit_or (n + 1 - 2 ^ l) (2 ^ l) ≡ n + 1 - 2 ^ l + 2 ^ l =
        rw once at
          (bit_or_fields l 1 (n + 1 - 2 ^ l) (omega (arith, low, high, two-pow-add l 1))) in
      record {
        l = l;
        low = n + 1 - 2 ^ l;
        msb_eq = ap broadword.msb nn;
        l_small = l_small;
        fits = omega (arith, low, high, two-pow-add l 1);
        high = hb;
        taken_off = rw (nn, hb) (bit_xor_high l (n + 1) high low);
        put_back = rw (hb, joined) (omega (arith, high, small));
      }

  -- The bits below the highest, read behind its place.
  read_low :
      (n : ℕ) (s : Split n) (e : Enumerator) (l : ℕ) (rest : List Bool)
      → l ≡ s.l
      → ahead e ≡ bits s.low s.l ++ rest
      → (sub64 (bit_or (bit_vector.take l e).1 (2 ^ l % 2 ^ 64)) 1 ≡ n)
        × (ahead (bit_vector.take l e).0 ≡ rest)
  read_low n s e l rest l_eq at =
      let (value, behind) =
        bit_vector.take_eq s.low s.l rest e s.fits (omega (arith, s.l_small)) at in
      rw (l_eq, value) (s.put_back, behind)

  gamma_code : (n : ℕ) → Split n → List Bool
  gamma_code n s = bits (2 ^ s.l) (s.l + 1) ++ bits s.low s.l

  shape :
      (n : ℕ) (s : Split n) (b : Builder)
      → write_gamma broadword bit_vector n b
        ≡ bit_vector.append_bits s.low s.l (bit_vector.append_bits (2 ^ s.l) (s.l + 1) b)
  unfolding write_gamma
  shape n s b =
      ap
        (λ (m : ℕ).
          bit_vector.append_bits (bit_xor ((n + 1) % 2 ^ 64) (2 ^ m % 2 ^ 64)) m
            (bit_vector.append_bits (2 ^ m % 2 ^ 64) (m + 1) b))
        s.msb_eq
      ∙ (λ i.
          bit_vector.append_bits (s.taken_off i) s.l
            (bit_vector.append_bits (s.high i) (s.l + 1) b))

  delta_shape :
      (n : ℕ) (s : Split n) (b : Builder)
      → write_delta broadword bit_vector n b
        ≡ bit_vector.append_bits s.low s.l (write_gamma broadword bit_vector s.l b)
  unfolding write_delta
  delta_shape n s b =
      ap
        (λ (m : ℕ).
          bit_vector.append_bits (bit_xor ((n + 1) % 2 ^ 64) (2 ^ m % 2 ^ 64)) m
            (write_gamma broadword bit_vector m b))
        s.msb_eq
      ∙ (λ i. bit_vector.append_bits (s.taken_off i) s.l (write_gamma broadword bit_vector s.l b))

  write_gamma-contents :
      (n : ℕ) (s : Split n) (b : Builder)
      → contents (write_gamma broadword bit_vector n b) ≡ contents b ++ gamma_code n s
  unfolding gamma_code
  write_gamma-contents n s b =
      let top : 2 ^ s.l < 2 ^ (s.l + 1) = omega (arith, two-pow-add s.l 1, two-pow-pos s.l) in
      ap contents (shape n s b)
      ∙ (bit_vector.append_bits_eq s.low s.l (bit_vector.append_bits (2 ^ s.l) (s.l + 1) b) s.fits
            (omega (arith, s.l_small))
          ∙ ap (λ xs. xs ++ bits s.low s.l)
              (bit_vector.append_bits_eq (2 ^ s.l) (s.l + 1) b top (omega (arith, s.l_small)))
          ∙ append_assoc (contents b) (bits (2 ^ s.l) (s.l + 1)) (bits s.low s.l))

  read_gamma-reads :
      (n : ℕ) (s : Split n) (e : Enumerator) (rest : List Bool)
      → ahead e ≡ gamma_code n s ++ rest
      → ((read_gamma broadword bit_vector e).1 ≡ n)
        × (ahead (read_gamma broadword bit_vector e).0 ≡ rest)
  unfolding read_gamma gamma_code
  read_gamma-reads n s e rest at =
      let zeros : ahead e ≡ replicate s.l false ++ (true ∷ (bits s.low s.l ++ rest)) =
        at
        ∙ append_assoc (bits (2 ^ s.l) (s.l + 1)) (bits s.low s.l) rest
        ∙ ap (λ xs. xs ++ (bits s.low s.l ++ rest)) (bits-high s.l)
        ∙ append_assoc (replicate s.l false) (true ∷ []) (bits s.low s.l ++ rest) in
      let (count, behind) = bit_vector.skip_zeros_eq s.l (bits s.low s.l ++ rest) e zeros in
      read_low n s (bit_vector.skip_zeros e).0 (bit_vector.skip_zeros e).1 rest count behind

  -- `write_gamma` appends bits that depend on the number only, and `read_gamma` at these bits,
  -- whatever follows, returns the number and stands behind them: for any number below 2^64 - 1.
  pub write_gamma-Coded :
      (n : ℕ)
      → n + 1 < 2 ^ 64
      → Coded n (write_gamma broadword bit_vector n) (read_gamma broadword bit_vector)
  write_gamma-Coded n small =
      let s = split n small in
      record {
        code = gamma_code n s;
        wrote = write_gamma-contents n s;
        reads = read_gamma-reads n s;
      }

  -- The codes of positive numbers are read back in the same way for any number but zero.
  pub write_gamma_nonzero-Coded :
      (n : ℕ)
      → 0 < n
      → n < 2 ^ 64
      → Coded n
          (write_gamma_nonzero broadword bit_vector n)
          (read_gamma_nonzero broadword bit_vector)
  unfolding write_gamma_nonzero read_gamma_nonzero sub64
  write_gamma_nonzero-Coded n pos small =
      let less : (n + 2 ^ 64 - 1) % 2 ^ 64 ≡ n - 1 = omega arith in
      let c = write_gamma-Coded (n - 1) (omega arith) in
      record {
        code = c.code;
        wrote =
            λ b. ap (λ (m : ℕ). contents (write_gamma broadword bit_vector m b)) less ∙ c.wrote b;
        reads = λ e rest at.
            let (value, behind) = c.reads e rest at in
            (rw value (omega (arith, pos, small)), behind);
      }

  -- The delta code of a number below 2^64 - 1 is read back: `write_delta` appends bits that depend on the
  -- number alone, and `read_delta` before these bits, whatever follows them, gives the number
  -- and leaves the reader behind them.
  pub write_delta-Coded :
      (n : ℕ)
      → n + 1 < 2 ^ 64
      → Coded n (write_delta broadword bit_vector n) (read_delta broadword bit_vector)
  unfolding read_delta
  write_delta-Coded n small =
      let s = split n small in
      let c = write_gamma-Coded s.l (omega (arith, s.l_small)) in
      record {
        code = c.code ++ bits s.low s.l;
        wrote = λ b.
            ap contents (delta_shape n s b)
            ∙ (bit_vector.append_bits_eq s.low s.l (write_gamma broadword bit_vector s.l b) s.fits
                  (omega (arith, s.l_small))
                ∙ ap (λ xs. xs ++ bits s.low s.l) (c.wrote b)
                ∙ append_assoc (contents b) c.code (bits s.low s.l));
        reads = λ e rest at.
            let (value, behind) =
              c.reads e (bits s.low s.l ++ rest) (at ∙ append_assoc c.code (bits s.low s.l) rest) in
            read_low n s (read_gamma broadword bit_vector e).0 (read_gamma broadword bit_vector e).1
              rest value behind;
      }
