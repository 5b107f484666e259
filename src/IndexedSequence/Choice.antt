-- ===== src/IndexedSequence/Choice.antt =====
-- The representation that is chosen, with its type bit, and the sequence that is read back.
use ds2i.Base.{
  ℕ, zero, suc, ◌+◌, ◌-◌, ◌%◌, ◌^◌, ◌≤◌, ◌<◌, ◌≡◌, ◌⊎◌, inl, inr, subst, ◌∙◌, refl, Bool-cases, ltb,
  ◌==◌, if◌then◌else◌, bit_and, true, false, some, tabulate, arith,
}
use ds2i.BitArray.{BitArray, bit}
use ds2i.Sequence.{Increasing, value_before}
use ds2i.Sequence
use ds2i.Sequence.StrictEliasFano.{position_le, room_behind}
use ds2i.IndexedSequence.{
  Representation, type_number, type_bits, bitsize, best_type, write_as, write, Enumerator,
  ef_enumerator, rb_enumerator, ao_enumerator, unsupported, enumerator_as, enumerator, move, next,
  size, prev_value,
}

-- Increasing values that fill the universe are all the numbers.
all_numbers :
    {v : ℕ → ℕ} {universe n : ℕ}
    → Increasing v universe n
    → universe ≡ n
    → (p : ℕ) → p < n
    → v p ≡ p
all_numbers {n} inc full p less =
    omega (
      arith,
      position_le inc p less,
      room_behind inc (n - 1 - p) p (omega (arith, less)),
      full,
      less,
    )

one_is_bit : 1 < 2
one_is_bit = omega arith

zero_is_bit : 0 < 2
zero_is_bit = omega arith

module _ (bit_array : BitArray) where
  open bit_array use {Bits, get_word56, append_bits}

  -- A representation behind a type bit.
  record Typed (r : Representation bit_array) (v : ℕ → ℕ) (universe n x : ℕ) (b : Bits)
      : Type 0 where
    bits : Bits
    wrote : r.write (append_bits x type_bits b) (tabulate v 0 n) universe n ≡ some bits
    size_eq : bit_array.size bits ≡ bit_array.size b + (r.bitsize universe n + type_bits)
    kept : (j : ℕ) → j < bit_array.size b → bit_array.get bits j ≡ bit_array.get b j
    type_eq : bit_and (get_word56 bits (bit_array.size b)) (2 ^ type_bits - 1) ≡ x
    at : r.Stands v universe n n (r.enumerator bits (bit_array.size b + type_bits) universe n)

  typed :
      (r : Representation bit_array) (v : ℕ → ℕ) (universe n x : ℕ) (b : Bits)
      → Increasing v universe n
      → x < 2
      → Typed r v universe n x b
  typed r v universe n x b inc few =
      let b₀ = append_bits x type_bits b in
      let sized : bit_array.size b₀ ≡ bit_array.size b + 1 = bit_array.size-append_bits x 1 b in
      let (b', wrote, size_eq, kept, at) = r.write-Stands v universe n b₀ inc in
      let first : bit_array.get b' (bit_array.size b + 0) ≡ bit x 0 =
        kept (bit_array.size b + 0) (omega (arith, sized))
        ∙ bit_array.append_bits_new x 1 0 b (omega arith) (omega (arith, few)) (omega arith) in
      record {
        bits = b';
        wrote = wrote;
        size_eq = omega (arith, size_eq, sized);
        kept =
            λ j less. kept j (omega (arith, less, sized)) ∙ bit_array.append_bits_old x 1 j b less;
        type_eq =
            bit_array.get_word56_eq (bit_array.size b) x 1 b' (omega (arith, size_eq, sized))
              (omega arith) (omega (arith, few)) (type_bit first);
        at = subst (λ (t : ℕ). r.Stands v universe n n (r.enumerator b' t universe n)) sized at;
      }
    where
      type_bit :
          {b' : Bits}
          → bit_array.get b' (bit_array.size b + 0) ≡ bit x 0
          → (j : ℕ) → j < 1
          → bit_array.get b' (bit_array.size b + j) ≡ bit x j
      type_bit first zero less = first
      type_bit first (suc j) less = absurd (omega (arith, less))

  module _ (ef rb : Representation bit_array) where
    abbrev ef_cost : ℕ → ℕ → ℕ
    ef_cost universe n = ef.bitsize universe n + type_bits

    abbrev rb_cost : ℕ → ℕ → ℕ
    rb_cost universe n = rb.bitsize universe n + type_bits

    pub bitsize-least :
        (universe n : ℕ)
        → 0 < n
        → ef.bitsize universe n + 1 < 2 ^ 64
        → rb.bitsize universe n + 1 < 2 ^ 64
        → let size = bitsize bit_array ef rb universe n in
          (size ≤ Sequence.AllOnes.bitsize universe n)
          × (size ≤ ef.bitsize universe n + 1)
          × (size ≤ rb.bitsize universe n + 1)
          × ((size ≡ Sequence.AllOnes.bitsize universe n)
              ⊎ ((size ≡ ef.bitsize universe n + 1) ⊎ (size ≡ rb.bitsize universe n + 1)))
    unfolding bitsize
    bitsize-least universe n pos ef_small rb_small =
        let ao = Sequence.AllOnes.bitsize universe n in
        let e = ef_cost universe n in
        let r = rb_cost universe n in
        let ef_fits : (ef.bitsize universe n + 1) % 2 ^ 64 ≡ ef.bitsize universe n + 1 =
          omega (arith, ef_small) in
        let rb_fits : (rb.bitsize universe n + 1) % 2 ^ 64 ≡ rb.bitsize universe n + 1 =
          omega (arith, rb_small) in
        rw (ef_fits, rb_fits) (least ao e r)
      where
        least :
            (a e r : ℕ)
            → let m = if ltb e a then e else a in
              let size = if ltb r m then r else m in
              (size ≤ a) × (size ≤ e) × (size ≤ r) × ((size ≡ a) ⊎ ((size ≡ e) ⊎ (size ≡ r)))
        least a e r = elim (Bool-cases (ltb e a)) [
          | inl less ↦ rw less (elim (Bool-cases (ltb r e)) [
            | inl fewer ↦
                rw fewer
                  (ground (arith, less, fewer), ground (arith, fewer), omega arith, inr (inr refl))
            | inr more ↦
                rw more (ground (arith, less), omega arith, ground (arith, more), inr (inl refl))
          ])
          | inr more ↦ rw more (elim (Bool-cases (ltb r a)) [
            | inl fewer ↦
                rw fewer
                  (ground (arith, fewer), ground (arith, more, fewer), omega arith, inr (inr refl))
            | inr no_less ↦
                rw no_less (omega arith, ground (arith, more), ground (arith, no_less), inl refl)
          ])
        ]

    abbrev pub Stand : (ℕ → ℕ) → ℕ → ℕ → ℕ → Enumerator bit_array ef rb → Type 0
    Stand v universe n p (ef_enumerator e) = ef.Stands v universe n p e
    Stand v universe n p (rb_enumerator e) = rb.Stands v universe n p e
    Stand v universe n p (ao_enumerator e) = Sequence.AllOnes.Stands v universe n p e
    Stand v universe n p unsupported = ⊥

    -- The values behind the bits `b`, in `bits`.
    pub record Stored (v : ℕ → ℕ) (universe n : ℕ) (b : Bits) : Type 0 where
      pub bits : Bits
      pub wrote : write bit_array ef rb b (tabulate v 0 n) universe n ≡ some bits
      pub size_eq : bit_array.size bits ≡ bit_array.size b + bitsize bit_array ef rb universe n
      pub kept : (j : ℕ) → j < bit_array.size b → bit_array.get bits j ≡ bit_array.get b j
      pub at : Stand v universe n n (enumerator bit_array ef rb bits (bit_array.size b) universe n)

    all_ones-Stored :
        (v : ℕ → ℕ) (universe n : ℕ) (b : Bits)
        → Increasing v universe n
        → universe ≡ n
        → Stored v universe n b
    unfolding write write_as enumerator enumerator_as Sequence.AllOnes.bitsize
        Sequence.AllOnes.write Sequence.AllOnes.enumerator
    all_ones-Stored v universe n b inc full =
        let same : (universe == n) ≡ true = ground (arith, full) in
        let free : Sequence.AllOnes.bitsize universe n ≡ 0 = rw same refl in
        let none : bitsize bit_array ef rb universe n ≡ 0 = omega (
          arith,
          (bitsize-least universe n inc.n_pos (omega (arith, ef.bitsize_small v universe n inc))
              (omega (arith, rb.bitsize_small v universe n inc))).0,
          free,
        ) in
        record {
          bits = b;
          wrote = rw same refl;
          size_eq = omega (arith, none);
          kept = λ j less. refl;
          at = rw same (
              Sequence.AllOnes.write-Stands Bits bit_array.size v universe n b (record {
                universe_eq = full;
                small = omega (arith, inc.universe_small);
                values = all_numbers inc full;
              }));
        }

    -- What the choice of a representation is worth: its bits behind its number.
    chosen-Stored :
        (v : ℕ → ℕ) (universe n : ℕ) (b : Bits)
        → Increasing v universe n
        → (universe == n) ≡ false
        → Stored v universe n b
    unfolding write write_as bitsize best_type type_number enumerator enumerator_as
        Sequence.AllOnes.bitsize
    chosen-Stored v universe n b inc other =
        let small = ef.bitsize_small v universe n inc in
        let ef_fits : (ef.bitsize universe n + 1) % 2 ^ 64 ≡ ef.bitsize universe n + 1 =
          omega (arith, small) in
        let rb_fits : (rb.bitsize universe n + 1) % 2 ^ 64 ≡ rb.bitsize universe n + 1 =
          omega (arith, rb.bitsize_small v universe n inc) in
        let cheap : ltb (ef_cost universe n) (2 ^ 64 - 1) ≡ true = ground (arith, small) in
        elim (Bool-cases (ltb (rb_cost universe n) (ef_cost universe n))) [
          | inl fewer ↦
              let t = typed rb v universe n 1 b inc one_is_bit in
              record {
                bits = t.bits;
                wrote = rw (other, ef_fits, rb_fits, cheap, fewer) t.wrote;
                size_eq = rw (other, ef_fits, rb_fits, cheap, fewer) t.size_eq;
                kept = t.kept;
                at = rw (other, t.type_eq) t.at;
              }
          | inr more ↦
              let t = typed ef v universe n 0 b inc zero_is_bit in
              record {
                bits = t.bits;
                wrote = rw (other, ef_fits, rb_fits, cheap, more) t.wrote;
                size_eq = rw (other, ef_fits, rb_fits, cheap, more) t.size_eq;
                kept = t.kept;
                at = rw (other, t.type_eq) t.at;
              }
        ]

    pub write-Stored :
        (v : ℕ → ℕ) (universe n : ℕ) (b : Bits) → Increasing v universe n → Stored v universe n b
    write-Stored v universe n b inc = elim (Bool-cases (universe == n)) [
      | inl same ↦ all_ones-Stored v universe n b inc (ground (arith, same))
      | inr other ↦ chosen-Stored v universe n b inc other
    ]

    move-Stand :
        (v : ℕ → ℕ) (universe n p p' : ℕ) (e : Enumerator bit_array ef rb)
        → Stand v universe n p e
        → p' ≤ n
        → let (e', shown) = move bit_array ef rb p' e in
          Stand v universe n p' e' × (p' < n → shown ≡ (p', v p'))
    unfolding move
    move-Stand v universe n p p' (ef_enumerator e) s le = ef.move-Stands v universe n p p' e s le
    move-Stand v universe n p p' (rb_enumerator e) s le = rb.move-Stands v universe n p p' e s le
    move-Stand v universe n p p' (ao_enumerator e) s le =
        Sequence.AllOnes.move-Stands v universe n p p' e s le
    move-Stand v universe n p p' unsupported s le = elim s [ ]

    next-Stand :
        (v : ℕ → ℕ) (universe n p : ℕ) (e : Enumerator bit_array ef rb)
        → Stand v universe n p e
        → p < n
        → let (e', shown) = next bit_array ef rb e in
          Stand v universe n (suc p) e' × (suc p < n → shown ≡ (suc p, v (suc p)))
    unfolding next
    next-Stand v universe n p (ef_enumerator e) s less = ef.next-Stands v universe n p e s less
    next-Stand v universe n p (rb_enumerator e) s less = rb.next-Stands v universe n p e s less
    next-Stand v universe n p (ao_enumerator e) s less =
        Sequence.AllOnes.next-Stands v universe n p e s less
    next-Stand v universe n p unsupported s less = elim s [ ]

    prev_value_eq :
        (v : ℕ → ℕ) (universe n p : ℕ) (e : Enumerator bit_array ef rb)
        → Stand v universe n p e
        → p ≤ n
        → prev_value bit_array ef rb e ≡ value_before v p
    unfolding prev_value
    prev_value_eq v universe n p (ef_enumerator e) s le = ef.prev_value_eq v universe n p e s le
    prev_value_eq v universe n p (rb_enumerator e) s le = rb.prev_value_eq v universe n p e s le
    prev_value_eq v universe n p (ao_enumerator e) s le =
        Sequence.AllOnes.prev_value_eq v universe n p e s le
    prev_value_eq v universe n p unsupported s le = elim s [ ]

    size-Stand :
        (v : ℕ → ℕ) (universe n p : ℕ) (e : Enumerator bit_array ef rb)
        → Stand v universe n p e
        → size bit_array ef rb e ≡ n
    unfolding size
    size-Stand v universe n p (ef_enumerator e) s = ef.size_eq v universe n p e s
    size-Stand v universe n p (rb_enumerator e) s = rb.size_eq v universe n p e s
    size-Stand v universe n p (ao_enumerator e) s = s.universe_eq
    size-Stand v universe n p unsupported s = elim s [ ]

    -- Increasing values below a universe are written without an exception behind any bits, in as many
    -- bits as `bitsize` says, and the bits that stood before are kept. An enumerator that is
    -- opened there has the number of values as its size and shows, moved to any position below `n`, the
    -- value there, then the value before it as `prev_value` (zero at the start), and
    -- moved on by `next` or from there to any other position below `n`, the value of that position.
    -- The universe and the number of values are together below 2^56 - 1.
    pub reads-write :
        (v : ℕ → ℕ) (universe n : ℕ) (b : Bits) (p : ℕ)
        → Increasing v universe n
        → p < n
        → (b' : Bits) × (write bit_array ef rb b (tabulate v 0 n) universe n ≡ some b')
          × (bit_array.size b' ≡ bit_array.size b + bitsize bit_array ef rb universe n)
          × ((j : ℕ) → j < bit_array.size b → bit_array.get b' j ≡ bit_array.get b j)
          × (let (e, shown) =
                move bit_array ef rb p
                  (enumerator bit_array ef rb b' (bit_array.size b) universe n) in
              (shown ≡ (p, v p))
              × (size bit_array ef rb e ≡ n)
              × (prev_value bit_array ef rb e ≡ value_before v p)
              × (suc p < n → (next bit_array ef rb e).1 ≡ (suc p, v (suc p)))
              × ((p' : ℕ) → p' < n → (move bit_array ef rb p' e).1 ≡ (p', v p')))
    reads-write v universe n b p inc less =
        let stored = write-Stored v universe n b inc in
        let moved = move-Stand v universe n n p _ stored.at (omega (arith, less)) in
        (
          stored.bits,
          stored.wrote,
          stored.size_eq,
          stored.kept,
          (
            moved.1 less,
            size-Stand v universe n p _ moved.0,
            prev_value_eq v universe n p _ moved.0 (omega (arith, less)),
            λ more. (next-Stand v universe n p _ moved.0 less).1 more,
            λ p' less'. (move-Stand v universe n p p' _ moved.0 (omega (arith, less'))).1 less',
          ),
        )
