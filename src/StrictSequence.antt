-- ===== src/StrictSequence.antt =====
-- strict_sequence.hpp: the code of indexed_sequence over strict_elias_fano, without the sampling of
-- zeros and ranks.
mod Tests
use ds2i.Base.{ℕ, zero, suc, ◌+◌, ◌≤◌, ◌<◌, ◌≡◌, Option, some, List, tabulate}
use ds2i.Succinct.{Broadword, Util}
use ds2i.BitArray.{BitArray}
use ds2i.Sequence.{Increasing, value_before}
use ds2i.IndexedSequence
use ds2i.IndexedSequence.{Representation}
use ds2i.IndexedSequence.Choice.{reads-write}
use ds2i.IndexedSequence.Classes.{
  GlobalParameters, strict_params, strict_elias_fano, compact_ranked_bitvector,
}

module _ (broadword : Broadword) (util : Util) (bit_array : BitArray)
    (params : GlobalParameters) where
  open bit_array use {Bits}

  abbrev ef : Representation bit_array
  ef = strict_elias_fano broadword util bit_array (strict_params params)

  abbrev rb : Representation bit_array
  rb = compact_ranked_bitvector broadword util bit_array (strict_params params)

  pub Enumerator : Type 0
  Enumerator = IndexedSequence.Enumerator bit_array ef rb

  pub bitsize : ℕ → ℕ → ℕ
  bitsize universe n = IndexedSequence.bitsize bit_array ef rb universe n

  pub write : Bits → List ℕ → ℕ → ℕ → Option Bits
  write bvb values universe n = IndexedSequence.write bit_array ef rb bvb values universe n

  pub enumerator : Bits → ℕ → ℕ → ℕ → Enumerator
  unfolding Enumerator
  enumerator bv offset universe n = IndexedSequence.enumerator bit_array ef rb bv offset universe n

  pub move : ℕ → Enumerator → Enumerator × (ℕ × ℕ)
  unfolding Enumerator
  move position e = IndexedSequence.move bit_array ef rb position e

  pub next : Enumerator → Enumerator × (ℕ × ℕ)
  unfolding Enumerator
  next e = IndexedSequence.next bit_array ef rb e

  pub size : Enumerator → ℕ
  unfolding Enumerator
  size e = IndexedSequence.size bit_array ef rb e

  pub prev_value : Enumerator → ℕ
  unfolding Enumerator
  prev_value e = IndexedSequence.prev_value bit_array ef rb e

  -- Increasing values below a universe are written without an exception behind any bits, in as many
  -- bits as `bitsize` says, and the bits that stood before are kept. An enumerator that is
  -- opened there has the number of values as its size and shows, moved to any position below `n`, the
  -- value there, then the value before it as `prev_value` (zero at the start), and
  -- moved on by `next` or from there to any other position below `n`, the value of that position.
  -- The universe and the number of values are together below 2^56 - 1.
  pub strict_reads-write :
      (v : ℕ → ℕ) (universe n : ℕ) (b : Bits) (p : ℕ)
      → Increasing v universe n
      → p < n
      → (b' : Bits) × (write b (tabulate v 0 n) universe n ≡ some b')
        × (bit_array.size b' ≡ bit_array.size b + bitsize universe n)
        × ((j : ℕ) → j < bit_array.size b → bit_array.get b' j ≡ bit_array.get b j)
        × (let (e, shown) = move p (enumerator b' (bit_array.size b) universe n) in
            (shown ≡ (p, v p))
            × (size e ≡ n)
            × (prev_value e ≡ value_before v p)
            × (suc p < n → (next e).1 ≡ (suc p, v (suc p)))
            × ((p' : ℕ) → p' < n → (move p' e).1 ≡ (p', v p')))
  unfolding Enumerator bitsize write enumerator move next size prev_value
  strict_reads-write v universe n b p inc less =
      reads-write bit_array ef rb v universe n b p inc less
