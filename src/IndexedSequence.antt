-- ===== src/IndexedSequence.antt =====
-- indexed_sequence.hpp, and strict_sequence.hpp, which is the same code over other classes: a sequence in
-- the smallest of three representations, behind a bit for its type where one is needed.
pub mod Choice
pub mod Classes
mod Tests
use ds2i.Base.{
  ℕ, zero, suc, ◌+◌, ◌-◌, ◌*◌, ◌%◌, ◌^◌, ◌≤◌, ◌<◌, ◌≡◌, Bool, true, false, Option, none, some, List,
  tabulate, ltb, ◌==◌, if◌then◌else◌, bit_and,
}
use ds2i.BitArray.{BitArray}
use ds2i.Sequence.{Increasing, value_before}
use ds2i.Sequence.AllOnes.{AllOnes}
use ds2i.Sequence

-- A class that stores increasing values in a bit vector. `none` is an exception of `write`.
pub record Representation (bit_array : BitArray) : Type 1 where
  pub Enumerator : Type 0
  pub bitsize : ℕ → ℕ → ℕ
  pub write : bit_array.Bits → List ℕ → ℕ → ℕ → Option bit_array.Bits
  pub enumerator : bit_array.Bits → ℕ → ℕ → ℕ → Enumerator
  pub move : ℕ → Enumerator → Enumerator × (ℕ × ℕ)
  pub next : Enumerator → Enumerator × (ℕ × ℕ)
  pub size_of : Enumerator → ℕ
  pub prev_value : Enumerator → ℕ
  pub Stands : (ℕ → ℕ) → ℕ → ℕ → ℕ → Enumerator → Type 0
  pub bitsize_small :
      (v : ℕ → ℕ) (universe n : ℕ) → Increasing v universe n → bitsize universe n < 2 ^ 63
  pub write-Stands :
      (v : ℕ → ℕ) (universe n : ℕ) (b : bit_array.Bits)
      → Increasing v universe n
      → (b' : bit_array.Bits) × (write b (tabulate v 0 n) universe n ≡ some b')
        × (bit_array.size b' ≡ bit_array.size b + bitsize universe n)
        × ((j : ℕ) → j < bit_array.size b → bit_array.get b' j ≡ bit_array.get b j)
        × Stands v universe n n (enumerator b' (bit_array.size b) universe n)
  pub size_eq :
      (v : ℕ → ℕ) (universe n p : ℕ) (e : Enumerator) → Stands v universe n p e → size_of e ≡ n
  pub prev_value_eq :
      (v : ℕ → ℕ) (universe n p : ℕ) (e : Enumerator)
      → Stands v universe n p e
      → p ≤ n
      → prev_value e ≡ value_before v p
  pub move-Stands :
      (v : ℕ → ℕ) (universe n p p' : ℕ) (e : Enumerator)
      → Stands v universe n p e
      → p' ≤ n
      → Stands v universe n p' (move p' e).0 × (p' < n → (move p' e).1 ≡ (p', v p'))
  pub next-Stands :
      (v : ℕ → ℕ) (universe n p : ℕ) (e : Enumerator)
      → Stands v universe n p e
      → p < n
      → Stands v universe n (suc p) (next e).0 × (suc p < n → (next e).1 ≡ (suc p, v (suc p)))

pub data IndexType : Type 0 where
  elias_fano : IndexType
  ranked_bitvector : IndexType
  all_ones : IndexType

abbrev pub type_bits : ℕ
type_bits = 1

-- `bvb.append_bits(best_type, type_bits)`
pub type_number : IndexType → ℕ
type_number elias_fano = 0
type_number ranked_bitvector = 1
type_number all_ones = 2

module _ (bit_array : BitArray) (ef rb : Representation bit_array) where
  open bit_array use {Bits, get_word56, append_bits}

  pub bitsize : ℕ → ℕ → ℕ
  bitsize universe n =
      let best_cost = Sequence.AllOnes.bitsize universe n in
      let ef_cost = (ef.bitsize universe n + type_bits) % 2 ^ 64 in
      let best_cost' = if ltb ef_cost best_cost then ef_cost else best_cost in
      let rb_cost = (rb.bitsize universe n + type_bits) % 2 ^ 64 in
      if ltb rb_cost best_cost' then rb_cost else best_cost'

  -- The choice of `write`, where all ones have a cost.
  pub best_type : ℕ → ℕ → IndexType
  best_type universe n =
      let best_cost = Sequence.AllOnes.bitsize universe n in
      let ef_cost = (ef.bitsize universe n + type_bits) % 2 ^ 64 in
      let best_cost' = if ltb ef_cost best_cost then ef_cost else best_cost in
      let best_type' = if ltb ef_cost best_cost then elias_fano else all_ones in
      let rb_cost = (rb.bitsize universe n + type_bits) % 2 ^ 64 in
      if ltb rb_cost best_cost' then ranked_bitvector else best_type'

  -- `switch (best_type)`
  pub write_as : IndexType → Bits → List ℕ → ℕ → ℕ → Option Bits
  write_as elias_fano bvb values universe n = ef.write bvb values universe n
  write_as ranked_bitvector bvb values universe n = rb.write bvb values universe n
  write_as all_ones bvb values universe n = some (Sequence.AllOnes.write bvb values universe n)

  pub write : Bits → List ℕ → ℕ → ℕ → Option Bits
  write bvb values universe n =
      if Sequence.AllOnes.bitsize universe n == 0
      then write_as all_ones bvb values universe n
      else (let best = best_type universe n in
          write_as best (append_bits (type_number best) type_bits bvb) values universe n)

  -- `unsupported` is the exception for another type.
  pub data Enumerator : Type 0 where
    ef_enumerator : ef.Enumerator → Enumerator
    rb_enumerator : rb.Enumerator → Enumerator
    ao_enumerator : AllOnes → Enumerator
    unsupported : Enumerator

  pub enumerator_as : ℕ → Bits → ℕ → ℕ → ℕ → Enumerator
  enumerator_as zero bv offset universe n =
      ef_enumerator (ef.enumerator bv (offset + type_bits) universe n)
  enumerator_as (suc zero) bv offset universe n =
      rb_enumerator (rb.enumerator bv (offset + type_bits) universe n)
  enumerator_as (suc (suc zero)) bv offset universe n =
      ao_enumerator (Sequence.AllOnes.enumerator bv (offset + type_bits) universe n)
  enumerator_as _ bv offset universe n = unsupported

  pub enumerator : Bits → ℕ → ℕ → ℕ → Enumerator
  enumerator bv offset universe n =
      let index_type =
        if Sequence.AllOnes.bitsize universe n == 0
        then 2
        else bit_and (get_word56 bv offset) (2 ^ type_bits - 1) in
      enumerator_as index_type bv offset universe n

  pub move : ℕ → Enumerator → Enumerator × (ℕ × ℕ)
  move position (ef_enumerator e) =
      let (e', shown) = ef.move position e in (ef_enumerator e', shown)
  move position (rb_enumerator e) =
      let (e', shown) = rb.move position e in (rb_enumerator e', shown)
  move position (ao_enumerator e) =
      let (e', shown) = Sequence.AllOnes.move position e in (ao_enumerator e', shown)
  move position unsupported = (unsupported, (0, 0))

  pub next : Enumerator → Enumerator × (ℕ × ℕ)
  next (ef_enumerator e) = let (e', shown) = ef.next e in (ef_enumerator e', shown)
  next (rb_enumerator e) = let (e', shown) = rb.next e in (rb_enumerator e', shown)
  next (ao_enumerator e) = let (e', shown) = Sequence.AllOnes.next e in (ao_enumerator e', shown)
  next unsupported = (unsupported, (0, 0))

  pub size : Enumerator → ℕ
  size (ef_enumerator e) = ef.size_of e
  size (rb_enumerator e) = rb.size_of e
  size (ao_enumerator e) = e.universe
  size unsupported = 0

  pub prev_value : Enumerator → ℕ
  prev_value (ef_enumerator e) = ef.prev_value e
  prev_value (rb_enumerator e) = rb.prev_value e
  prev_value (ao_enumerator e) = Sequence.AllOnes.prev_value e
  prev_value unsupported = 0
