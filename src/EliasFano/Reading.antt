-- ===== src/EliasFano/Reading.antt =====
-- The enumerator of a sequence that is written: where its unary enumerator stands, and what it
-- reads.
use native.Mathlib.Nat.{div-add-mod', mod-lt}
use ds2i.Base.{ℕ, suc, ◌+◌, ◌-◌, ◌*◌, ◌/◌, ◌%◌, ◌^◌, ◌≤◌, ◌<◌, ◌≡◌, ap, ◌∙◌, refl, bit_and, arith}
use ds2i.Base.Bits.{two-pow-pos, bit_or_high}
use ds2i.Succinct.{Broadword, Util}
use ds2i.BitArray.{BitArray}
use ds2i.BitArray.Ones.{Region, next-Before}
use ds2i.BitArray.Reached.{Reaches as bits_Reaches, region as bits_region}
use ds2i.EliasFano.{Offsets, Enumerator, low_at, assemble, read_next}
use ds2i.EliasFano.Layout.{Layout, high_of, places}
use ds2i.EliasFano.Lows.{low_inside}
use ds2i.EliasFano.Writing.{Written}

module _ (broadword : Broadword) (util : Util) (bit_array : BitArray) where
  open bit_array use {Bits, Unary, size, get, unary_position, unary_enumerator}

  -- What a sequence that is written leaves in the bits `bv`.
  pub record Encoded (of : Offsets) (v : ℕ → ℕ) (universe n : ℕ) (bv : Bits) : Type 0 where
    pub layout : Layout of v universe n
    pub room : of.end_offset ≤ size bv
    pub start : Bits
    pub written : Written broadword util bit_array layout start n bv

  module _ {of : Offsets} {v : ℕ → ℕ} {universe n : ℕ} {bv : Bits}
      (encoded : Encoded of v universe n bv) where
    abbrev pub place : ℕ → ℕ
    place p = of.higher_bits_offset + high_of of v p

    abbrev pub enumerator_at : ℕ → ℕ → Unary → Enumerator broadword util bit_array
    enumerator_at p x u = record { bv = bv; of = of; position = p; value = x; high_enumerator = u }

    pub room : of.higher_bits_offset + of.higher_bits_length ≤ size bv
    room = omega (arith, encoded.room, encoded.layout.end_eq, encoded.layout.lower_bits_start)

    abbrev pub region :
        Region bit_array place n of.higher_bits_offset
          (of.higher_bits_offset + of.higher_bits_length)
          bv
    region = bits_region bit_array (places encoded.layout) room encoded.written.ones

    low_at_eq :
        (p x q : ℕ) (u : Unary)
        → q < n
        → low_at broadword util bit_array (enumerator_at p x u) q ≡ v q % 2 ^ of.lower_bits
    unfolding low_at
    low_at_eq p x q u less =
        let l = of.lower_bits in
        let inside = low_inside bit_array encoded.layout n q less in
        ap (bit_and (bit_array.get_word56 bv (of.lower_bits_offset + q * l))) encoded.layout.mask_eq
        ∙ bit_array.get_word56_eq (of.lower_bits_offset + q * l) (v q % 2 ^ l) l bv
            (omega (arith, inside, encoded.layout.end_eq, encoded.room)) encoded.layout.lower_short
            (mod-lt (v q) (two-pow-pos l)) (encoded.written.lows q less)

    -- The value is put together from its two parts.
    pub assemble_eq :
        (p x q : ℕ) (u : Unary)
        → q < n
        → assemble broadword util bit_array (enumerator_at p x u) (place q) q ≡ v q
    unfolding assemble
    assemble_eq p x q u less =
        let l = of.lower_bits in
        let high_eq : place q - of.higher_bits_offset - q - 1 ≡ v q / 2 ^ l = omega arith in
        rw (high_eq, low_at_eq p x q u less)
          (bit_or_high l (v q / 2 ^ l) (v q % 2 ^ l) (mod-lt (v q) (two-pow-pos l))
            ∙ div-add-mod' (v q) (2 ^ l))

    abbrev pub Reaches : ℕ → Unary → Type 0
    Reaches p u = bits_Reaches bit_array (places encoded.layout) room encoded.written.ones p u

    -- What the enumerator at position `p` shows, and how far its unary enumerator is.
    pub record Stands (p : ℕ) (e : Enumerator broadword util bit_array) : Type 0 where
      pub value : ℕ
      pub high_enumerator : Unary
      pub is : e ≡ enumerator_at p value high_enumerator
      pub value_eq : p < n → value ≡ v p
      pub reaches : p < n → Reaches (suc p) high_enumerator
      pub stands : p < n → unary_position high_enumerator ≡ place p

    pub read_next-Stands :
        (p x : ℕ) (u : Unary)
        → p < n
        → Reaches p u
        → Stands p (read_next broadword util bit_array (enumerator_at p x u))
    unfolding read_next
    read_next-Stands p x u less at =
        let (shown, stands, behind) = next-Before bit_array region p u at less in
        record {
          value = assemble broadword util bit_array (enumerator_at p x u) (bit_array.next u).1 p;
          high_enumerator = (bit_array.next u).0;
          is = refl;
          value_eq = λ less.
              ap (λ (t : ℕ). assemble broadword util bit_array (enumerator_at p x u) t p) shown
              ∙ assemble_eq p x p u less;
          reaches = λ less. behind;
          stands = λ less. stands;
        }
