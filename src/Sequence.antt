-- ===== src/Sequence.antt =====
-- What positive_sequence and strict_elias_fano ask of the sequence that they stand on: it is
-- written to a bit vector, and its enumerator shows positions with their values.
pub mod AllOnes
pub mod StrictEliasFano
pub mod Positive
pub mod Sample
mod Tests
use ds2i.Base.{ℕ, zero, suc, ◌+◌, ◌-◌, ◌%◌, ◌^◌, ◌≤◌, ◌<◌, ◌≡◌, List, tabulate}

unfoldable pub sub64 : ℕ → ℕ → ℕ
sub64 a b = (a + 2 ^ 64 - b) % 2 ^ 64

-- The values of a sequence are given by position.
pub record NonDecreasing (v : ℕ → ℕ) (universe n : ℕ) : Type 0 where
  pub below : (p : ℕ) → p < n → v p < universe
  pub ordered : (p : ℕ) → suc p < n → v p ≤ v (suc p)
  pub n_pos : 0 < n
  pub universe_small : universe + n + 2 ≤ 2 ^ 56

pub record Increasing (v : ℕ → ℕ) (universe n : ℕ) : Type 0 where
  pub below : (p : ℕ) → p < n → v p < universe
  pub ordered : (p : ℕ) → suc p < n → v p < v (suc p)
  pub n_pos : 0 < n
  pub universe_small : universe + n + 2 ≤ 2 ^ 56

-- The value before a position.
abbrev pub value_before : (ℕ → ℕ) → ℕ → ℕ
value_before v zero = 0
value_before v (suc p) = v p

-- `Writable` says which sequences may be written, and `Stands v universe n p e` that `e`
-- enumerates the sequence and is at position `p`, which is `n` behind the last value.
pub record Sequence : Type 1 where
  pub Bits : Type 0
  pub Enumerator : Type 0
  pub bit_size : Bits → ℕ
  pub write : Bits → List ℕ → ℕ → ℕ → Bits
  pub enumerator : Bits → ℕ → ℕ → ℕ → Enumerator
  pub move : ℕ → Enumerator → Enumerator × (ℕ × ℕ)
  pub next : Enumerator → Enumerator × (ℕ × ℕ)
  pub size : Enumerator → ℕ
  pub position : Enumerator → ℕ
  pub prev_value : Enumerator → ℕ
  pub Writable : (ℕ → ℕ) → ℕ → ℕ → Type 0
  pub Stands : (ℕ → ℕ) → ℕ → ℕ → ℕ → Enumerator → Type 0
  pub write-Stands :
      (v : ℕ → ℕ) (universe n : ℕ) (bits : Bits)
      → Writable v universe n
      → Stands v universe n n
          (enumerator (write bits (tabulate v 0 n) universe n) (bit_size bits) universe n)
  pub size_eq :
      (v : ℕ → ℕ) (universe n p : ℕ) (e : Enumerator) → Stands v universe n p e → size e ≡ n
  pub position_eq :
      (v : ℕ → ℕ) (universe n p : ℕ) (e : Enumerator) → Stands v universe n p e → position e ≡ p
  pub prev_value_eq :
      (v : ℕ → ℕ) (universe n p : ℕ) (e : Enumerator)
      → Stands v universe n p e
      → p ≤ n
      → prev_value e ≡ value_before v p
  pub move-Stands :
      (v : ℕ → ℕ) (universe n p p' : ℕ) (e : Enumerator)
      → Stands v universe n p e
      → p' ≤ n
      → Stands v universe n p' (move p' e).0 × (p' < n → (move p' e).1 ≡ (p', v p'))
  pub next-Stands :
      (v : ℕ → ℕ) (universe n p : ℕ) (e : Enumerator)
      → Stands v universe n p e
      → p < n
      → Stands v universe n (suc p) (next e).0 × (suc p < n → (next e).1 ≡ (suc p, v (suc p)))
