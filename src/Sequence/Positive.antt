-- ===== src/Sequence/Positive.antt =====
-- positive_sequence.hpp: positive values, stored as their running sums in an increasing sequence.
use ds2i.Base.{
  ℕ, zero, suc, ◌+◌, ◌-◌, ◌%◌, ◌^◌, ◌≤◌, ◌<◌, ◌≡◌, ◌==◌, false, Bool-cases, inl, inr, if◌then◌else◌,
  ap, sym, subst, ◌∙◌, refl, List, [], ◌∷◌, map, All, tabulate, arith,
}
use ds2i.Sequence.{Sequence, sub64}

-- `state.first += *++state.second`
running : ℕ → List ℕ → List ℕ
running acc [] = []
running acc (x ∷ xs) = let acc' = (acc + x) % 2 ^ 64 in acc' ∷ running acc' xs

-- `cumulative_begin`
pub cumulative : List ℕ → List ℕ
cumulative [] = []
cumulative (x ∷ xs) = x ∷ running x xs

-- The sum of the values up to a position.
abbrev pub sum_to : (ℕ → ℕ) → ℕ → ℕ
sum_to v zero = v 0
sum_to v (suc p) = sum_to v p + v (suc p)

running-tabulate :
    (v : ℕ → ℕ) (n k p : ℕ)
    → ((q : ℕ) → q < n → sum_to v q < 2 ^ 64)
    → suc p + k ≤ n
    → running (sum_to v p) (tabulate v (suc p) k) ≡ tabulate (sum_to v) (suc p) k
unfolding running
running-tabulate v n zero p small h = refl
running-tabulate v n (suc k) p small h =
    let fits : (sum_to v p + v (suc p)) % 2 ^ 64 ≡ sum_to v p + v (suc p) =
      omega (arith, small (suc p) (omega arith)) in
    rw fits (ap (◌∷◌ (sum_to v p + v (suc p))) (running-tabulate v n k (suc p) small (omega arith)))

cumulative-tabulate :
    (v : ℕ → ℕ) (n : ℕ)
    → ((q : ℕ) → q < n → sum_to v q < 2 ^ 64)
    → cumulative (tabulate v 0 n) ≡ tabulate (sum_to v) 0 n
unfolding cumulative
cumulative-tabulate v zero small = refl
cumulative-tabulate v (suc n) small =
    ap (◌∷◌ (v 0)) (running-tabulate v (suc n) n 0 small (omega arith))

module _ (base : Sequence) where
  open base use {Bits, bit_size}

  pub record Positive : Type 0 where
    pub base_enum : base.Enumerator
    pub position : ℕ
    pub cur : ℕ

  pub write : Bits → List ℕ → ℕ → ℕ → Bits
  write bits values universe n = base.write bits (cumulative values) universe n

  -- The constructor leaves `m_cur` as it is in memory, `cur`.
  pub enumerator : ℕ → Bits → ℕ → ℕ → ℕ → Positive
  enumerator cur bits offset universe n =
      let e = base.enumerator bits offset universe n in
      record { base_enum = e; position = base.size e; cur = cur }

  -- The end of `move`, with the sum before the position.
  step_from : ℕ → ℕ → base.Enumerator → Positive × (ℕ × ℕ)
  step_from position prev e =
      let (e', (_, cur)) = base.next e in
      (record { base_enum = e'; position = position; cur = cur }, (position, sub64 cur prev))

  pub move : ℕ → Positive → Positive × (ℕ × ℕ)
  move position e =
      if position == (e.position + 1) % 2 ^ 64
      then step_from position e.cur e.base_enum
      else if position == 0
      then (let (e', (_, cur)) = base.move 0 e.base_enum in
          (record { base_enum = e'; position = 0; cur = cur }, (0, cur)))
      else (let (e', (_, prev)) = base.move (position - 1) e.base_enum in
          step_from position prev e')

  -- What is shown by moves to one position after the other.
  pub moves : List ℕ → Positive → List (ℕ × ℕ)
  moves [] e = []
  moves (p ∷ ps) e = let (e', shown) = move p e in shown ∷ moves ps e'

  module _ (v : ℕ → ℕ) (universe n : ℕ) (writable : base.Writable (sum_to v) universe n)
      (n_small : n < 2 ^ 63) (small : (p : ℕ) → p < n → sum_to v p < 2 ^ 64) where
    record Stands (p : ℕ) (e : Positive) : Type 0 where
      pub below : base.Stands (sum_to v) universe n p e.base_enum
      pub position_eq : e.position ≡ p
      pub inside : p ≤ n
      pub cur_eq : p < n → e.cur ≡ sum_to v p

    write-Stands :
        (cur : ℕ) (bits : Bits)
        → Stands n
            (enumerator cur (write bits (tabulate v 0 n) universe n) (bit_size bits) universe n)
    unfolding write enumerator
    write-Stands cur bits =
        let below =
          subst
            (λ (xs : List ℕ).
              base.Stands (sum_to v) universe n n
                (base.enumerator (base.write bits xs universe n) (bit_size bits) universe n))
            (sym (cumulative-tabulate v n small))
            (base.write-Stands (sum_to v) universe n bits writable) in
        record {
          below = below;
          position_eq = base.size_eq (sum_to v) universe n n _ below;
          inside = omega arith;
          cur_eq = λ h. absurd (omega arith);
        }

    step_from-Stands :
        (p prev : ℕ) (e : base.Enumerator)
        → suc p < n
        → base.Stands (sum_to v) universe n p e
        → prev ≡ sum_to v p
        → let (e', shown) = step_from (suc p) prev e in
          Stands (suc p) e' × (shown ≡ (suc p, v (suc p)))
    unfolding step_from sub64
    step_from-Stands p prev e h below prev_eq =
        let (behind, shown) = base.next-Stands (sum_to v) universe n p e below (omega arith) in
        let value = ap (λ (s : ℕ × ℕ). s.1) (shown h) in
        (
          record { below = behind; position_eq = refl; inside = omega arith; cur_eq = λ h'. value },
          ap (λ (t : ℕ). (suc p, t)) (omega (arith, value, prev_eq, small (suc p) h)),
        )

    move-Stands :
        (p p' : ℕ) (e : Positive)
        → Stands p e
        → p' < n
        → let (e', shown) = move p' e in Stands p' e' × (shown ≡ (p', v p'))
    unfolding move
    move-Stands p zero e s h =
        let other : (0 == (e.position + 1) % 2 ^ 64) ≡ false =
          ground (arith, s.position_eq, s.inside, n_small) in
        let (below, shown) =
          base.move-Stands (sum_to v) universe n p 0 e.base_enum s.below (omega arith) in
        let value = ap (λ (t : ℕ × ℕ). t.1) (shown h) in
        rw other (
          record { below = below; position_eq = refl; inside = omega arith; cur_eq = λ h'. value },
          ap (λ (t : ℕ). (0, t)) value,
        )
    move-Stands p (suc p') e s h = elim (Bool-cases (suc p' == (e.position + 1) % 2 ^ 64)) [
      | inl next ↦
          let at : p ≡ p' = ground (arith, next, s.position_eq, s.inside, n_small) in
          let below =
            subst (λ (q : ℕ). base.Stands (sum_to v) universe n q e.base_enum) at s.below in
          rw next (
            step_from-Stands p' e.cur e.base_enum h below
              (s.cur_eq (omega (arith, at)) ∙ ap (sum_to v) at))
      | inr other ↦
          let later : (suc p' == 0) ≡ false = ground arith in
          let before : suc p' - 1 ≡ p' = omega arith in
          let (below, shown) =
            base.move-Stands (sum_to v) universe n p p' e.base_enum s.below (omega arith) in
          rw (other, later, before)
            (step_from-Stands p' (base.move p' e.base_enum).1.1 (base.move p' e.base_enum).0 h below
              (ap (λ (t : ℕ × ℕ). t.1) (shown (omega arith))))
    ]

    moves-Stands :
        (ps : List ℕ) (p : ℕ) (e : Positive)
        → Stands p e
        → All (λ p. p < n) ps
        → moves ps e ≡ map (λ p. (p, v p)) ps
    unfolding moves
    moves-Stands [] p e s h = refl
    moves-Stands (p' ∷ ps) p e s (h, hs) =
        let (s', shown) = move-Stands p p' e s h in
        rw (shown, moves-Stands ps p' (move p' e).0 s' hs) refl

    -- What `write` stored is read back: an enumerator that is opened where a sequence was written,
    -- with anything in `m_cur`, shows at each of any positions below `n`, moved to in any order,
    -- the value there. The running sums fit 64 bits, and the sequence below may store them.
    pub moves-write :
        (cur : ℕ) (bits : Bits) (ps : List ℕ)
        → All (λ p. p < n) ps
        → moves ps
            (enumerator cur (write bits (tabulate v 0 n) universe n) (bit_size bits) universe n)
          ≡ map (λ p. (p, v p)) ps
    moves-write cur bits ps h = moves-Stands ps n _ (write-Stands cur bits) h
