-- ===== src/Interpolative/Code.antt =====
-- Bit strings as numbers, lowest bit first, and the strings that interpolative coding stands for.
use ds2i.Base.{
  ℕ, ◌+◌, ◌-◌, ◌*◌, ◌/◌, ◌%◌, ◌^◌, ◌≤◌, ◌<◌, ◌≡◌, ap, List, [], ◌∷◌, ◌++◌, length, arith, ltb,
  if◌then◌else◌,
}
use ds2i.Base.Bits.{two-pow-add}
use ds2i.Succinct.{Broadword}
use ds2i.Interpolative.Words.{field_lt}

pub record Code : Type 0 where
  pub bits : ℕ
  pub len : ℕ

-- The second string behind the first.
infixl 60 ◌⊕◌
abbrev pub ◌⊕◌ : Code → Code → Code
c ⊕ d = record { bits = c.bits + d.bits * 2 ^ c.len; len = c.len + d.len }

abbrev pub nothing : Code
nothing = record { bits = 0; len = 0 }

abbrev pub field : ℕ → ℕ → Code
field bits len = record { bits = bits; len = len }

abbrev pub Fits : Code → Type 0
Fits c = c.bits < 2 ^ c.len

pub ⊕_assoc : (c d e : Code) → c ⊕ d ⊕ e ≡ c ⊕ (d ⊕ e)
⊕_assoc c d e =
    ground (arith, two-pow-add c.len d.len, ap (λ (t : ℕ). e.bits * t) (two-pow-add c.len d.len))

pub ⊕-nothing : (c : Code) → c ⊕ nothing ≡ c
⊕-nothing c = ground arith

pub nothing-⊕ : (c : Code) → nothing ⊕ c ≡ c
nothing-⊕ c = ground arith

pub ⊕-Fits : (c d : Code) → Fits c → Fits d → Fits (c ⊕ d)
⊕-Fits c d p q = field_lt c.len d.len c.bits d.bits p q

module _ (broadword : Broadword) where
  open broadword use {msb, msb_bounds}

  -- Truncated binary: the first `2 ^ (b + 1) - u` values take `b` bits, and the others one more.
  unfoldable pub int_code : ℕ → ℕ → Code
  int_code val u =
      let short = 2 ^ (msb u + 1) - u in
      if ltb val short
      then field val (msb u)
      else field ((val + short) / 2) (msb u) ⊕ field ((val + short) % 2) 1

  -- The string of a sorted list between two bounds: its middle element, then the parts.
  pub data Interpolates : List ℕ → ℕ → ℕ → Code → Type 0 where
    empty : {low high : ℕ} → Interpolates [] low high nothing
    middle :
        {low high val : ℕ} {front back : List ℕ} {xs : List ℕ} {c d e : Code}
        → xs ≡ front ++ (val ∷ back)
        → length xs / 2 ≡ length front
        → low ≤ val
        → val ≤ high
        → high + 1 < 2 ^ 32
        → Interpolates front low val c
        → Interpolates back val high d
        → e ≡ int_code (val - low) (high - low + 1) ⊕ c ⊕ d
        → Interpolates xs low high e
