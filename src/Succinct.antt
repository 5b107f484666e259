-- ===== src/Succinct.antt =====
-- What the code uses of the `succinct` library, whose sources are a submodule: parameters with
-- the documented behaviour that the code relies on.
pub mod Sample
use ds2i.Base.{
  ℕ, zero, suc, ◌+◌, ◌*◌, ◌/◌, ◌%◌, ◌^◌, ◌≤◌, ◌<◌, ◌≡◌, Bool, true, false, List, [], ◌∷◌, ◌++◌,
  ◌==◌, replicate, length, drop,
}

-- `succinct::broadword`: the position of the most significant bit of a non-zero 64-bit word.
pub record Broadword : Type 0 where
  pub msb : ℕ → ℕ
  pub msb_bounds : (x : ℕ) → 0 < x → x < 2 ^ 64 → (2 ^ msb x ≤ x) × (x < 2 ^ (msb x + 1))

-- `succinct::util`: division rounded up.
pub record Util : Type 0 where
  pub ceil_div : ℕ → ℕ → ℕ
  pub ceil_div_bounds : (a b : ℕ) → 0 < b → (a ≤ ceil_div a b * b) × (ceil_div a b * b < a + b)

-- The bits of a number, lowest first.
abbrev pub bits : ℕ → ℕ → List Bool
bits x zero = []
bits x (suc l) = (x % 2 == 1) ∷ bits (x / 2) l

-- `succinct::bit_vector_builder` and `bit_vector::enumerator`: `contents` are the bits that were
-- appended, and `ahead` those from the position of the enumerator on. `skip_zeros` goes behind
-- the next one and returns the number of zeros before it.
pub record BitVector : Type 1 where
  pub Builder : Type 0
  pub Enumerator : Type 0
  pub contents : Builder → List Bool
  pub ahead : Enumerator → List Bool
  pub append_bits : ℕ → ℕ → Builder → Builder
  pub take : ℕ → Enumerator → Enumerator × ℕ
  pub skip_zeros : Enumerator → Enumerator × ℕ
  pub append_bits_eq :
      (x l : ℕ) (b : Builder)
      → x < 2 ^ l
      → l ≤ 64
      → contents (append_bits x l b) ≡ contents b ++ bits x l
  pub take_eq :
      (x l : ℕ) (rest : List Bool) (e : Enumerator)
      → x < 2 ^ l
      → l ≤ 64
      → ahead e ≡ bits x l ++ rest
      → ((take l e).1 ≡ x) × (ahead (take l e).0 ≡ rest)
  pub skip_zeros_eq :
      (k : ℕ) (rest : List Bool) (e : Enumerator)
      → ahead e ≡ replicate k false ++ (true ∷ rest)
      → ((skip_zeros e).1 ≡ k) × (ahead (skip_zeros e).0 ≡ rest)

-- Bit vectors that are appended to each other and opened at a position.
pub record BitVectors (bit_vector : BitVector) : Type 0 where
  pub empty : bit_vector.Builder
  pub append : bit_vector.Builder → bit_vector.Builder → bit_vector.Builder
  pub size : bit_vector.Builder → ℕ
  pub enumerator : bit_vector.Builder → ℕ → bit_vector.Enumerator
  pub empty_eq : bit_vector.contents empty ≡ []
  pub append_eq :
      (a b : bit_vector.Builder)
      → bit_vector.contents (append a b) ≡ bit_vector.contents a ++ bit_vector.contents b
  pub size_eq : (a : bit_vector.Builder) → size a ≡ length (bit_vector.contents a)
  pub enumerator_eq :
      (a : bit_vector.Builder) (k : ℕ)
      → bit_vector.ahead (enumerator a k) ≡ drop k (bit_vector.contents a)
