-- ===== src/BitArray/Fields.antt =====
-- Fields of a bit vector, and writes that leave the other bits as they are.
use ds2i.Base.{ℕ, ◌+◌, ◌^◌, ◌≤◌, ◌<◌, ◌≡◌, ◌⊎◌, inl, inr, ◌∙◌, refl, arith}
use ds2i.BitArray.{BitArray, bit}

module _ (bit_array : BitArray) where
  open bit_array use {Bits, size, get, set, set_bits}

  -- The `len` bits from `p` on are those of `x`.
  abbrev pub Field : Bits → ℕ → ℕ → ℕ → Type 0
  Field b p len x = (j : ℕ) → j < len → get b (p + j) ≡ bit x j

  -- Only bits from `lo` to `hi` may differ.
  pub record Touches (lo hi : ℕ) (b b' : Bits) : Type 0 where
    pub size_eq : size b' ≡ size b
    pub outside : (j : ℕ) → (j < lo) ⊎ (hi ≤ j) → get b' j ≡ get b j

  pub Touches-refl : (lo hi : ℕ) (b : Bits) → Touches lo hi b b
  Touches-refl lo hi b = record { size_eq = refl; outside = λ j h. refl }

  pub Touches-trans :
      (lo hi : ℕ) (a b c : Bits) → Touches lo hi a b → Touches lo hi b c → Touches lo hi a c
  Touches-trans lo hi a b c t t' = record {
    size_eq = t'.size_eq ∙ t.size_eq;
    outside = λ j h. t'.outside j h ∙ t.outside j h;
  }

  pub Touches-wider :
      {lo hi lo' hi' : ℕ} {b b' : Bits}
      → lo' ≤ lo
      → hi ≤ hi'
      → Touches lo hi b b'
      → Touches lo' hi' b b'
  Touches-wider low high t = record {
    size_eq = t.size_eq;
    outside = λ j away. t.outside j (elim away [
      | inl before ↦ inl (omega (arith, low, before))
      | inr behind ↦ inr (omega (arith, high, behind))
    ]);
  }

  pub set_bits-Touches :
      (lo hi p x len : ℕ) (b : Bits)
      → p + len ≤ size b
      → lo ≤ p
      → p + len ≤ hi
      → Touches lo hi b (set_bits p x len b)
  set_bits-Touches lo hi p x len b room low high = record {
    size_eq = bit_array.size-set_bits p x len b room;
    outside = λ j h. bit_array.set_bits_other p x len j b room (elim h [
      | inl less ↦ inl (omega (arith, less, low))
      | inr more ↦ inr (omega (arith, more, high))
    ]);
  }

  pub set-Touches :
      (lo hi p : ℕ) (b : Bits) → p < size b → lo ≤ p → p < hi → Touches lo hi b (set p b)
  set-Touches lo hi p b room low high = record {
    size_eq = bit_array.size-set p b room;
    outside = λ j h. bit_array.set_other p j b room (elim h [
      | inl less ↦ inl (omega (arith, less, low))
      | inr more ↦ inr (omega (arith, more, high))
    ]);
  }

  pub Field-Touches :
      {lo hi : ℕ} {b b' : Bits} (p len x : ℕ)
      → Touches lo hi b b'
      → (p + len ≤ lo) ⊎ (hi ≤ p)
      → Field b p len x
      → Field b' p len x
  Field-Touches p len x t away f j h =
      t.outside (p + j) (elim away [
        | inl before ↦ inl (omega (arith, before, h))
        | inr behind ↦ inr (omega (arith, behind))
      ])
      ∙ f j h

  -- A field that is kept, or the one that is written.
  pub set_bits-Field :
      (p x len : ℕ) (b : Bits)
      → p + len ≤ size b
      → len ≤ 64
      → x < 2 ^ len
      → Field (set_bits p x len b) p len x
  set_bits-Field p x len b room short fits j h =
      bit_array.set_bits_here p x len j b room short fits h
