-- ===== src/Sequence/AllOnes.antt =====
-- all_ones_sequence.hpp: the sequence of all numbers below the universe, which takes no bits.
use ds2i.Base.{
  ℕ, zero, suc, ◌+◌, ◌-◌, ◌%◌, ◌^◌, ◌≤◌, ◌<◌, false, ◌≡◌, ◌==◌, if◌then◌else◌, ap, sym, refl, List,
  tabulate, arith,
}
use ds2i.Sequence.{Sequence, value_before}

-- `write` of a builder `bits` appends nothing.
unfoldable pub bitsize : ℕ → ℕ → ℕ
bitsize universe n = if universe == n then 0 else 2 ^ 64 - 1

unfoldable pub write : {Bits : Type 0} → Bits → List ℕ → ℕ → ℕ → Bits
write bits values universe n = bits

pub record AllOnes : Type 0 where
  pub universe : ℕ
  pub position : ℕ

unfoldable pub enumerator : {Bits : Type 0} → Bits → ℕ → ℕ → ℕ → AllOnes
enumerator bits offset universe n = record { universe = universe; position = universe }

pub move : ℕ → AllOnes → AllOnes × (ℕ × ℕ)
move position e = (record e { position = position }, (position, position))

pub next_geq : ℕ → AllOnes → AllOnes × (ℕ × ℕ)
next_geq lower_bound e = (record e { position = lower_bound }, (lower_bound, lower_bound))

pub next : AllOnes → AllOnes × (ℕ × ℕ)
next e = let p = (e.position + 1) % 2 ^ 64 in (record e { position = p }, (p, p))

pub prev_value : AllOnes → ℕ
prev_value e = if e.position == 0 then 0 else e.position - 1

-- The first position whose value is the bound or more.
pub next_geq-first :
    (v : ℕ → ℕ) (lower_bound : ℕ) (e : AllOnes)
    → lower_bound < e.universe
    → ((p : ℕ) → p < e.universe → v p ≡ p)
    → let (e', (p, value)) = next_geq lower_bound e in
      (e'.position ≡ p)
      × (value ≡ v p)
      × (lower_bound ≤ v p)
      × ((j : ℕ) → j < p → v j < lower_bound)
unfolding next_geq
next_geq-first v lower_bound e h same = (
  refl,
  sym (same lower_bound h),
  omega (arith, same lower_bound h),
  λ j less. omega (arith, less, h, same j (omega (arith, less, h))),
)

-- It enumerates the numbers below `n`, and is at position `p`.
pub record Stands (v : ℕ → ℕ) (universe n p : ℕ) (e : AllOnes) : Type 0 where
  pub universe_eq : e.universe ≡ n
  pub position_eq : e.position ≡ p
  pub small : n < 2 ^ 63
  pub inside : p ≤ n
  pub values : (j : ℕ) → j < n → v j ≡ j

pub record AllNumbers (v : ℕ → ℕ) (universe n : ℕ) : Type 0 where
  pub universe_eq : universe ≡ n
  pub small : n < 2 ^ 63
  pub values : (j : ℕ) → j < n → v j ≡ j

pub prev_value_eq :
    (v : ℕ → ℕ) (universe n p : ℕ) (e : AllOnes)
    → Stands v universe n p e
    → p ≤ n
    → prev_value e ≡ value_before v p
unfolding prev_value
prev_value_eq v universe n zero e s le = rw s.position_eq refl
prev_value_eq v universe n (suc p) e s le =
    let some_before : (suc p == 0) ≡ false = ground arith in
    rw (s.position_eq, some_before) (omega (arith, s.values p le))

pub move-Stands :
    (v : ℕ → ℕ) (universe n p p' : ℕ) (e : AllOnes)
    → Stands v universe n p e
    → p' ≤ n
    → Stands v universe n p' (move p' e).0 × (p' < n → (move p' e).1 ≡ (p', v p'))
unfolding move
move-Stands v universe n p p' e s le = (
  record {
    universe_eq = s.universe_eq;
    position_eq = refl;
    small = s.small;
    inside = le;
    values = s.values;
  },
  λ less. ap (λ (t : ℕ). (p', t)) (sym (s.values p' less)),
)

pub next-Stands :
    (v : ℕ → ℕ) (universe n p : ℕ) (e : AllOnes)
    → Stands v universe n p e
    → p < n
    → Stands v universe n (suc p) (next e).0 × (suc p < n → (next e).1 ≡ (suc p, v (suc p)))
unfolding next
next-Stands v universe n p e s less =
    let at : (e.position + 1) % 2 ^ 64 ≡ suc p = omega (arith, s.position_eq, s.small, less) in
    (
      record {
        universe_eq = s.universe_eq;
        position_eq = at;
        small = s.small;
        inside = less;
        values = s.values;
      },
      λ more. rw at (ap (λ (t : ℕ). (suc p, t)) (sym (s.values (suc p) more))),
    )

module _ (Bits : Type 0) (bit_size : Bits → ℕ) where
  pub write-Stands :
      (v : ℕ → ℕ) (universe n : ℕ) (bits : Bits)
      → AllNumbers v universe n
      → Stands v universe n n
          (enumerator (write bits (tabulate v 0 n) universe n) (bit_size bits) universe n)
  unfolding enumerator
  write-Stands v universe n bits w = record {
    universe_eq = w.universe_eq;
    position_eq = w.universe_eq;
    small = w.small;
    inside = omega arith;
    values = w.values;
  }

  -- It is a sequence.
  pub all_ones_sequence : Sequence
  all_ones_sequence = record {
    Bits = Bits;
    Enumerator = AllOnes;
    bit_size = bit_size;
    write = write;
    enumerator = enumerator;
    move = move;
    next = next;
    size = λ e. e.universe;
    position = λ e. e.position;
    prev_value = prev_value;
    Writable = AllNumbers;
    Stands = Stands;
    write-Stands = write-Stands;
    size_eq = λ v universe n p e s. s.universe_eq;
    position_eq = λ v universe n p e s. s.position_eq;
    prev_value_eq = prev_value_eq;
    move-Stands = move-Stands;
    next-Stands = next-Stands;
  }
