-- ===== src/Sequence/StrictEliasFano.antt =====
-- strict_elias_fano.hpp: increasing values, less their positions, in a sequence that need not be
-- strict (compact_elias_fano).
use ds2i.Base.{
  ℕ, zero, suc, ◌+◌, ◌-◌, ◌%◌, ◌^◌, ◌≤◌, ◌<◌, ◌≡◌, ◌==◌, false, if◌then◌else◌, ap, sym, subst, refl,
  List, [], ◌∷◌, tabulate, arith,
}
use ds2i.Sequence.{Sequence, Increasing, NonDecreasing, value_before, sub64}

-- `*state.second - state.first`, for the state that counts the positions.
pub less_positions : ℕ → List ℕ → List ℕ
less_positions i [] = []
less_positions i (x ∷ xs) = sub64 x i ∷ less_positions (i + 1) xs

-- The values that are stored.
abbrev pub reduced : (ℕ → ℕ) → ℕ → ℕ
reduced v p = v p - p

pub position_le : {v : ℕ → ℕ} {universe n : ℕ} → Increasing v universe n → (p : ℕ) → p < n → p ≤ v p
position_le inc zero h = omega arith
position_le inc (suc p) h = omega (arith, position_le inc p (omega arith), inc.ordered p h)

-- The values from a position on leave room for those behind it.
pub room_behind :
    {v : ℕ → ℕ} {universe n : ℕ}
    → Increasing v universe n
    → (k p : ℕ) → p + suc k ≡ n
    → v p + suc k ≤ universe
room_behind inc zero p h = omega (arith, inc.below p (omega (arith, h)))
room_behind inc (suc k) p h =
    omega (arith, room_behind inc k (suc p) (omega (arith, h)), inc.ordered p (omega (arith, h)))

pub size_le : {v : ℕ → ℕ} {universe n : ℕ} → Increasing v universe n → n ≤ universe
size_le {n} inc = omega (arith, room_behind inc (n - 1) 0 (omega (arith, inc.n_pos)), inc.n_pos)

pub reduced-NonDecreasing :
    {v : ℕ → ℕ} {universe n : ℕ}
    → Increasing v universe n
    → NonDecreasing (reduced v) (universe - n + 1) n
reduced-NonDecreasing {n} inc = record {
  below = λ p h.
      omega (arith, room_behind inc (n - 1 - p) p (omega (arith, h)), h, position_le inc p h);
  ordered = λ p h. omega (arith, inc.ordered p h);
  n_pos = inc.n_pos;
  universe_small = omega (arith, inc.universe_small, inc.n_pos, size_le inc);
}

pub less_positions-tabulate :
    {v : ℕ → ℕ} {universe n : ℕ}
    → Increasing v universe n
    → (k p : ℕ) → p + k ≡ n
    → less_positions p (tabulate v p k) ≡ tabulate (reduced v) p k
unfolding less_positions sub64
less_positions-tabulate inc zero p h = refl
less_positions-tabulate {v} inc (suc k) p h =
    let small : (v p + 2 ^ 64 - p) % 2 ^ 64 ≡ v p - p = omega (
      arith,
      position_le inc p (omega (arith, h)),
      inc.below p (omega (arith, h)),
      inc.universe_small,
    ) in
    let next : p + 1 ≡ suc p = omega arith in
    rw (small, next) (ap (◌∷◌ (v p - p)) (less_positions-tabulate inc k (suc p) (omega (arith, h))))

pub new_universe :
    {v : ℕ → ℕ} {universe n : ℕ}
    → Increasing v universe n
    → (sub64 universe n + 1) % 2 ^ 64 ≡ universe - n + 1
unfolding sub64
new_universe inc = omega (arith, size_le inc, inc.universe_small)

module _ (base : Sequence) where
  open base use {Bits, Enumerator, bit_size}

  pub write : Bits → List ℕ → ℕ → ℕ → Bits
  write bits values universe n =
      base.write bits (less_positions 0 values) ((sub64 universe n + 1) % 2 ^ 64) n

  unfoldable pub enumerator : Bits → ℕ → ℕ → ℕ → Enumerator
  enumerator bits offset universe n =
      base.enumerator bits offset ((sub64 universe n + 1) % 2 ^ 64) n

  -- `value_type(val.first, val.second + val.first)`
  pub with_position : Enumerator × (ℕ × ℕ) → Enumerator × (ℕ × ℕ)
  with_position (e, (position, value)) = (e, (position, (value + position) % 2 ^ 64))

  pub move : ℕ → Enumerator → Enumerator × (ℕ × ℕ)
  move position e = with_position (base.move position e)

  pub next : Enumerator → Enumerator × (ℕ × ℕ)
  next e = with_position (base.next e)

  pub prev_value : Enumerator → ℕ
  prev_value e = if base.position e == 0 then 0 else sub64 (base.prev_value e + base.position e) 1

  module _
      (writable : (v : ℕ → ℕ) (universe n : ℕ)
        → NonDecreasing v universe n
        → base.Writable v universe n) where
    -- It enumerates increasing values when the other enumerates them less their positions.
    pub record Stands (v : ℕ → ℕ) (universe n p : ℕ) (e : Enumerator) : Type 0 where
      pub increasing : Increasing v universe n
      pub below : base.Stands (reduced v) (universe - n + 1) n p e

    pub write-Stands :
        (v : ℕ → ℕ) (universe n : ℕ) (bits : Bits)
        → Increasing v universe n
        → Stands v universe n n
            (enumerator (write bits (tabulate v 0 n) universe n) (bit_size bits) universe n)
    unfolding enumerator write
    write-Stands v universe n bits inc = record {
      increasing = inc;
      below =
          subst
            (λ (u : ℕ). base.Stands (reduced v) (universe - n + 1) n n (
              base.enumerator (base.write bits (less_positions 0 (tabulate v 0 n)) u n)
                (bit_size bits) u n))
            (sym (new_universe inc))
            (subst
              (λ (xs : List ℕ). base.Stands (reduced v) (universe - n + 1) n n (
                base.enumerator (base.write bits xs (universe - n + 1) n) (bit_size bits)
                  (universe - n + 1) n))
              (sym (less_positions-tabulate inc n 0 (omega arith)))
              (base.write-Stands (reduced v) (universe - n + 1) n bits
                (writable (reduced v) (universe - n + 1) n (reduced-NonDecreasing inc))));
    }

    pub prev_value_eq :
        (v : ℕ → ℕ) (universe n p : ℕ) (e : Enumerator)
        → Stands v universe n p e
        → p ≤ n
        → prev_value e ≡ value_before v p
    unfolding prev_value sub64
    prev_value_eq v universe n zero e s le =
        let at = base.position_eq (reduced v) (universe - n + 1) n 0 e s.below in rw at refl
    prev_value_eq v universe n (suc p) e s le =
        let at = base.position_eq (reduced v) (universe - n + 1) n (suc p) e s.below in
        let before = base.prev_value_eq (reduced v) (universe - n + 1) n (suc p) e s.below le in
        let some_before : (suc p == 0) ≡ false = ground arith in
        rw (at, before, some_before)
          (omega (
            arith,
            position_le s.increasing p le,
            s.increasing.below p le,
            s.increasing.universe_small,
          ))

    restored :
        (v : ℕ → ℕ) (universe n p : ℕ)
        → Increasing v universe n
        → p < n
        → (v p - p + p) % 2 ^ 64 ≡ v p
    restored v universe n p inc h =
        omega (arith, position_le inc p h, inc.below p h, inc.universe_small)

    pub move-Stands :
        (v : ℕ → ℕ) (universe n p p' : ℕ) (e : Enumerator)
        → Stands v universe n p e
        → p' ≤ n
        → Stands v universe n p' (move p' e).0 × (p' < n → (move p' e).1 ≡ (p', v p'))
    unfolding move with_position
    move-Stands v universe n p p' e s le =
        let (below, shown) = base.move-Stands (reduced v) (universe - n + 1) n p p' e s.below le in
        (
          record { increasing = s.increasing; below = below },
          λ less. rw (shown less, restored v universe n p' s.increasing less) refl,
        )

    pub next-Stands :
        (v : ℕ → ℕ) (universe n p : ℕ) (e : Enumerator)
        → Stands v universe n p e
        → p < n
        → Stands v universe n (suc p) (next e).0 × (suc p < n → (next e).1 ≡ (suc p, v (suc p)))
    unfolding next with_position
    next-Stands v universe n p e s less =
        let (below, shown) = base.next-Stands (reduced v) (universe - n + 1) n p e s.below less in
        (
          record { increasing = s.increasing; below = below },
          λ more. rw (shown more, restored v universe n (suc p) s.increasing more) refl,
        )

    -- Increasing values that are written are read back: an enumerator that is opened where they
    -- were written shows, moved to any position below `n`, the value there, then the value before
    -- it as `prev_value` (zero at the start), and after `next` the value behind it, if there is one.
    -- The sequence below may store any values that do not decrease. The universe and the number of
    -- values are together below 2^56 - 1.
    pub move-write :
        (v : ℕ → ℕ) (universe n : ℕ) (bits : Bits) (p : ℕ)
        → Increasing v universe n
        → p < n
        → let (e, shown) =
            move p
              (enumerator (write bits (tabulate v 0 n) universe n) (bit_size bits) universe n) in
          (shown ≡ (p, v p))
          × (prev_value e ≡ value_before v p)
          × (suc p < n → (next e).1 ≡ (suc p, v (suc p)))
    move-write v universe n bits p inc h =
        let opened = write-Stands v universe n bits inc in
        let (at, shown) = move-Stands v universe n n p _ opened (omega arith) in
        (
          shown h,
          prev_value_eq v universe n p _ at (omega arith),
          λ more. (next-Stands v universe n p _ at h).1 more,
        )

    -- It is a sequence.
    unfoldable pub strict_elias_fano : Sequence
    strict_elias_fano = record {
      Bits = Bits;
      Enumerator = Enumerator;
      bit_size = bit_size;
      write = write;
      enumerator = enumerator;
      move = move;
      next = next;
      size = base.size;
      position = base.position;
      prev_value = prev_value;
      Writable = Increasing;
      Stands = Stands;
      write-Stands = write-Stands;
      size_eq = λ v universe n p e s. base.size_eq (reduced v) (universe - n + 1) n p e s.below;
      position_eq =
          λ v universe n p e s. base.position_eq (reduced v) (universe - n + 1) n p e s.below;
      prev_value_eq = prev_value_eq;
      move-Stands = move-Stands;
      next-Stands = next-Stands;
    }
