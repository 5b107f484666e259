-- ===== src/BitArray.antt =====
-- What compact_elias_fano and compact_ranked_bitvector use of the bit vectors of the `succinct`
-- library: a builder that is set bit by bit and field by field, and the enumerator of the ones.
pub mod Fields
pub mod Ones
pub mod Sample
pub mod Sampled
pub mod Reached
use ds2i.Base.{
  ℕ, zero, suc, ◌+◌, ◌-◌, ◌*◌, ◌/◌, ◌%◌, ◌^◌, ◌≤◌, ◌<◌, ◌≡◌, ◌⊎◌, Bool, true, false, ◌==◌, bit_and,
}

-- The bit of a number at a place.
abbrev pub bit : ℕ → ℕ → Bool
bit x j = x / 2 ^ j % 2 == 1

-- The next one from `from` on is at `q`.
pub record NextOne (get : ℕ → Bool) (size from q : ℕ) : Type 0 where
  pub reach : from ≤ q
  pub inside : q < size
  pub here : get q ≡ true
  pub none_before : (j : ℕ) → from ≤ j → j < q → get j ≡ false

-- `k` ones from `from` on are skipped, and the next is at `q`.
abbrev pub KthOne : (ℕ → Bool) → ℕ → ℕ → ℕ → ℕ → Type 0
KthOne get size from zero q = NextOne get size from q
KthOne get size from (suc k) q = (q' : ℕ) × NextOne get size from q' × KthOne get size (suc q') k q

-- `Reads u b from` says that `u` enumerates the ones of `b` from the position `from` on.
-- `get_word56` returns a word of which the low bits are those from a position on.
pub record BitArray : Type 1 where
  pub Bits : Type 0
  pub Unary : Type 0
  pub size : Bits → ℕ
  pub get : Bits → ℕ → Bool
  pub zero_extend : ℕ → Bits → Bits
  pub append_bits : ℕ → ℕ → Bits → Bits
  pub set : ℕ → Bits → Bits
  pub set_bits : ℕ → ℕ → ℕ → Bits → Bits
  pub get_word56 : Bits → ℕ → ℕ
  pub predecessor1 : Bits → ℕ → ℕ
  pub unary : Unary
  pub unary_enumerator : Bits → ℕ → Unary
  pub next : Unary → Unary × ℕ
  pub skip : ℕ → Unary → Unary
  pub unary_position : Unary → ℕ
  pub Reads : Unary → Bits → ℕ → Type 0
  pub size-zero_extend : (k : ℕ) (b : Bits) → size (zero_extend k b) ≡ size b + k
  pub zero_extend_old : (k j : ℕ) (b : Bits) → j < size b → get (zero_extend k b) j ≡ get b j
  pub zero_extend_new :
      (k j : ℕ) (b : Bits) → size b ≤ j → j < size b + k → get (zero_extend k b) j ≡ false
  pub size-append_bits : (x len : ℕ) (b : Bits) → size (append_bits x len b) ≡ size b + len
  pub append_bits_old :
      (x len j : ℕ) (b : Bits) → j < size b → get (append_bits x len b) j ≡ get b j
  pub append_bits_new :
      (x len j : ℕ) (b : Bits)
      → len ≤ 64
      → x < 2 ^ len
      → j < len
      → get (append_bits x len b) (size b + j) ≡ bit x j
  pub size-set : (p : ℕ) (b : Bits) → p < size b → size (set p b) ≡ size b
  pub set_here : (p : ℕ) (b : Bits) → p < size b → get (set p b) p ≡ true
  pub set_other : (p j : ℕ) (b : Bits) → p < size b → (j < p) ⊎ (p < j) → get (set p b) j ≡ get b j
  pub size-set_bits :
      (p x len : ℕ) (b : Bits) → p + len ≤ size b → size (set_bits p x len b) ≡ size b
  pub set_bits_here :
      (p x len j : ℕ) (b : Bits)
      → p + len ≤ size b
      → len ≤ 64
      → x < 2 ^ len
      → j < len
      → get (set_bits p x len b) (p + j) ≡ bit x j
  pub set_bits_other :
      (p x len j : ℕ) (b : Bits)
      → p + len ≤ size b
      → (j < p) ⊎ (p + len ≤ j)
      → get (set_bits p x len b) j ≡ get b j
  pub get_word56_eq :
      (p x len : ℕ) (b : Bits)
      → p + len ≤ size b
      → len ≤ 56
      → x < 2 ^ len
      → ((j : ℕ) → j < len → get b (p + j) ≡ bit x j)
      → bit_and (get_word56 b p) (2 ^ len - 1) ≡ x
  pub predecessor1_eq :
      (p q : ℕ) (b : Bits)
      → q ≤ p
      → p < size b
      → get b q ≡ true
      → ((j : ℕ) → q < j → j ≤ p → get b j ≡ false)
      → predecessor1 b p ≡ q
  pub unary_enumerator-Reads : (b : Bits) (p : ℕ) → p ≤ size b → Reads (unary_enumerator b p) b p
  pub next-Reads :
      (u : Unary) (b : Bits) (from q : ℕ)
      → Reads u b from
      → NextOne (get b) (size b) from q
      → ((next u).1 ≡ q) × (unary_position (next u).0 ≡ q) × Reads (next u).0 b (suc q)
  pub skip-Reads :
      (u : Unary) (b : Bits) (from k q : ℕ)
      → Reads u b from
      → KthOne (get b) (size b) from k q
      → Reads (skip k u) b q

module _ (bit_array : BitArray) where
  -- `he.next()`, `k` times.
  pub next_times : ℕ → bit_array.Unary → bit_array.Unary
  next_times zero he = he
  next_times (suc k) he = next_times k (bit_array.next he).0
