-- ===== src/EliasFano/Sequenced.antt =====
-- compact_elias_fano as one of the sequences that the collections and indexes store.
use ds2i.Base.{ℕ, suc, ◌+◌, ◌-◌, ◌<◌, inl, ◌≡◌, ap, sym, subst, ◌∙◌, refl, List, tabulate, arith}
use ds2i.Succinct.{Broadword, Util}
use ds2i.BitArray.{BitArray}
use ds2i.Sequence.{Sequence, NonDecreasing, value_before}
use ds2i.EliasFano.{
  Params, Offsets, bitsize, Enumerator, offsets, write, enumerator, move, next, prev_value, size,
  position, Wrote, wrote,
}
use ds2i.EliasFano.Layout.{end-bitsize}
use ds2i.EliasFano.Stored.{layout_behind, write-Written, offsets-base}
use ds2i.EliasFano.Reading.{Encoded, Stands}
use ds2i.EliasFano.Moves.{move-Stands, next-Stands, prev_value_eq}

module _ (broadword : Broadword) (util : Util) (bit_array : BitArray) (params : Params) where
  open bit_array use {Bits}

  -- With the exception for values that are not sorted, the bits are those before.
  or_before : Bits → Wrote Bits → Bits
  or_before b (wrote b') = b'
  or_before b _ = b

  write_bits : Bits → List ℕ → ℕ → ℕ → Bits
  write_bits b values universe n =
      or_before b (write broadword util bit_array params b values universe n)

  -- `e` enumerates the values that are encoded in its bits.
  pub record Enumerates (v : ℕ → ℕ) (universe n p : ℕ) (e : Enumerator broadword util bit_array)
      : Type 0 where
    pub of : Offsets
    pub bv : Bits
    pub encoded : Encoded broadword util bit_array of v universe n bv
    pub at : Stands broadword util bit_array encoded p e

  pub opened-Enumerates :
      (v : ℕ → ℕ) (universe n : ℕ) (b : Bits)
      → NonDecreasing v universe n
      → (b' : Bits) × (write broadword util bit_array params b (tabulate v 0 n) universe n
          ≡ wrote b')
        × Enumerates v universe n n
            (enumerator broadword util bit_array params b' (bit_array.size b) universe n)
        × ((j : ℕ) → j < bit_array.size b → bit_array.get b' j ≡ bit_array.get b j)
        × (bit_array.size b' ≡ bit_array.size b + bitsize broadword params universe n)
  unfolding enumerator
  opened-Enumerates v universe n b sorted =
      let of = offsets broadword (bit_array.size b) universe n params in
      let (b', stored, size_eq, written) =
        write-Written broadword util bit_array params v universe n b sorted in
      (
        b',
        stored,
        record {
          of = of;
          bv = b';
          encoded = record {
            layout = layout_behind broadword util bit_array params v universe n b sorted;
            room = omega (arith, written.kept.size_eq, size_eq);
            start = bit_array.zero_extend (of.end_offset - bit_array.size b) b;
            written = written;
          };
          at = record {
            value = universe;
            high_enumerator = bit_array.unary;
            is = refl;
            value_eq = λ less. absurd (omega arith);
            reaches = λ less. absurd (omega arith);
            stands = λ less. absurd (omega arith);
          };
        },
        λ j less.
            written.kept.outside j (
              inl
                (omega (arith, less, offsets-base broadword util bit_array params v universe n b)))
            ∙ bit_array.zero_extend_old (of.end_offset - bit_array.size b) j b less,
        omega (
          arith,
          written.kept.size_eq,
          size_eq,
          end-bitsize broadword (bit_array.size b) universe n params,
        ),
      )

  -- Values below a universe that do not decrease are written without the exception behind any bits,
  -- and an enumerator that is opened there shows, moved to any position below `n`, the value
  -- there, then the value before it as `prev_value` (zero at the start), and moved on by `next`
  -- or from there to any other position below `n`, the value of that position. The bits that stood
  -- before are kept. The universe and the number of values are together below 2^56 - 1.
  pub enumerator-write :
      (v : ℕ → ℕ) (universe n : ℕ) (b : Bits) (p : ℕ)
      → NonDecreasing v universe n
      → p < n
      → (b' : Bits) × (write broadword util bit_array params b (tabulate v 0 n) universe n
          ≡ wrote b')
        × (let (e, shown) =
              move broadword util bit_array p
                (enumerator broadword util bit_array params b' (bit_array.size b) universe n) in
            (shown ≡ (p, v p))
            × (prev_value broadword util bit_array e ≡ value_before v p)
            × (suc p < n → (next broadword util bit_array e).1 ≡ (suc p, v (suc p)))
            × ((p' : ℕ) → p' < n → (move broadword util bit_array p' e).1 ≡ (p', v p')))
        × ((j : ℕ) → j < bit_array.size b → bit_array.get b' j ≡ bit_array.get b j)
  enumerator-write v universe n b p sorted less =
      let (b', stored, opened, kept, grown) = opened-Enumerates v universe n b sorted in
      let moved =
        move-Stands broadword util bit_array opened.encoded n p _ opened.at (omega (arith, less)) in
      (
        b',
        stored,
        (
          moved.1 less,
          prev_value_eq broadword util bit_array opened.encoded p _ moved.0 (omega (arith, less)),
          λ more. (next-Stands broadword util bit_array opened.encoded p _ moved.0 less).1 more,
          λ p' less'.
              (move-Stands broadword util bit_array opened.encoded p p' _ moved.0
                  (omega (arith, less'))).1
                less',
        ),
        kept,
      )

  -- It is a sequence.
  unfoldable pub elias_fano : Sequence
  unfolding or_before write_bits write size position
  elias_fano = record {
    Bits = Bits;
    Enumerator = Enumerator broadword util bit_array;
    bit_size = bit_array.size;
    write = write_bits;
    enumerator = enumerator broadword util bit_array params;
    move = move broadword util bit_array;
    next = next broadword util bit_array;
    size = size broadword util bit_array;
    position = position broadword util bit_array;
    prev_value = prev_value broadword util bit_array;
    Writable = NonDecreasing;
    Stands = Enumerates;
    write-Stands = λ v universe n bits sorted.
        let (b', stored, opened, kept, grown) = opened-Enumerates v universe n bits sorted in
        subst
          (λ (t : Wrote Bits). Enumerates v universe n n (
            enumerator broadword util bit_array params (or_before bits t) (bit_array.size bits)
              universe n))
          (sym stored) opened;
    size_eq =
        λ v universe n p e s. ap (size broadword util bit_array) s.at.is ∙ s.encoded.layout.n_eq;
    position_eq = λ v universe n p e s. ap (position broadword util bit_array) s.at.is;
    prev_value_eq =
        λ v universe n p e s le. prev_value_eq broadword util bit_array s.encoded p e s.at le;
    move-Stands = λ v universe n p p' e s le.
        let moved = move-Stands broadword util bit_array s.encoded p p' e s.at le in
        (record { of = s.of; bv = s.bv; encoded = s.encoded; at = moved.0 }, moved.1);
    next-Stands = λ v universe n p e s less.
        let moved = next-Stands broadword util bit_array s.encoded p e s.at less in
        (record { of = s.of; bv = s.bv; encoded = s.encoded; at = moved.0 }, moved.1);
  }

  -- The bits of the sequence are those of the bit vector, and it stores any values that do not
  -- decrease.
  pub as_bits : Bits → elias_fano.Bits
  unfolding elias_fano
  as_bits b = b

  pub bit_size-as_bits : (b : Bits) → elias_fano.bit_size (as_bits b) ≡ bit_array.size b
  unfolding elias_fano as_bits
  bit_size-as_bits b = refl

  pub any_writable :
      (v : ℕ → ℕ) (universe n : ℕ) → NonDecreasing v universe n → elias_fano.Writable v universe n
  unfolding elias_fano
  any_writable v universe n sorted = sorted
