-- ===== src/RankedBitvector/Reading.antt =====
-- The enumerator of a bit vector that is written: where its unary enumerator stands, and what it
-- reads.
use ds2i.Base.{ℕ, suc, ◌+◌, ◌-◌, ◌≤◌, ◌<◌, ◌≡◌, ap, ◌∙◌, refl, arith}
use ds2i.Succinct.{Broadword, Util}
use ds2i.BitArray.{BitArray}
use ds2i.BitArray.Ones.{Region, next-Before}
use ds2i.BitArray.Reached.{Reaches as bits_Reaches, region as bits_region}
use ds2i.RankedBitvector.{Offsets, Enumerator, read_next}
use ds2i.RankedBitvector.Layout.{Layout, places}
use ds2i.RankedBitvector.Writing.{Written}

module _ (broadword : Broadword) (util : Util) (bit_array : BitArray) where
  open bit_array use {Bits, Unary, size, unary_position}

  -- What a sequence that is written leaves in the bits `bv`.
  pub record Encoded (of : Offsets) (v : ℕ → ℕ) (universe n : ℕ) (bv : Bits) : Type 0 where
    pub layout : Layout of v universe n
    pub room : of.end_offset ≤ size bv
    pub start : Bits
    pub written : Written broadword util bit_array layout start n bv

  module _ {of : Offsets} {v : ℕ → ℕ} {universe n : ℕ} {bv : Bits}
      (encoded : Encoded of v universe n bv) where
    abbrev pub place : ℕ → ℕ
    place p = of.bits_offset + v p

    abbrev pub enumerator_at : ℕ → ℕ → Unary → Enumerator broadword util bit_array
    enumerator_at p x u = record { bv = bv; of = of; position = p; value = x; unary = u }

    pub room : of.bits_offset + of.universe ≤ size bv
    room = omega (arith, encoded.room, encoded.layout.end_eq, encoded.layout.universe_eq)

    abbrev pub region : Region bit_array place n of.bits_offset (of.bits_offset + of.universe) bv
    region = bits_region bit_array (places encoded.layout) room encoded.written.ones

    -- The value is the place of its one.
    pub place-value : (p : ℕ) → place p - of.bits_offset ≡ v p
    place-value p = omega arith

    abbrev pub Reaches : ℕ → Unary → Type 0
    Reaches p u = bits_Reaches bit_array (places encoded.layout) room encoded.written.ones p u

    -- What the enumerator at position `p` shows, and how far its unary enumerator is.
    pub record Stands (p : ℕ) (e : Enumerator broadword util bit_array) : Type 0 where
      pub value : ℕ
      pub unary : Unary
      pub is : e ≡ enumerator_at p value unary
      pub value_eq : p < n → value ≡ v p
      pub reaches : p < n → Reaches (suc p) unary
      pub stands : p < n → unary_position unary ≡ place p

    pub read_next-Stands :
        (p x : ℕ) (u : Unary)
        → p < n
        → Reaches p u
        → Stands p (read_next broadword util bit_array (enumerator_at p x u))
    unfolding read_next
    read_next-Stands p x u less at =
        let (shown, stands, behind) = next-Before bit_array region p u at less in
        record {
          value = (bit_array.next u).1 - of.bits_offset;
          unary = (bit_array.next u).0;
          is = refl;
          value_eq = λ less. ap (λ (t : ℕ). t - of.bits_offset) shown ∙ place-value p;
          reaches = λ less. behind;
          stands = λ less. stands;
        }
