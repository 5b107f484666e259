-- ===== src/Sequence/Tests.antt =====
-- The sequences at concrete inputs.
use ds2i.Base.{ℕ, suc, zero, ◌+◌, ◌*◌, ◌<◌, ◌≡◌, refl, [], ◌∷◌, tabulate, arith}
use ds2i.Sequence.{Increasing}
use ds2i.Sequence.Sample.{list_sequence}
use ds2i.Sequence.StrictEliasFano
use ds2i.Sequence.Positive

abbrev values : ℕ → ℕ
values p = 3 * p + 1

increasing : Increasing values 20 5
increasing = record {
  below = λ p h. omega arith;
  ordered = λ p h. omega arith;
  n_pos = omega arith;
  universe_small = omega arith;
}

move-write_example :
    let (e, shown) = StrictEliasFano.move list_sequence 2 (
      StrictEliasFano.enumerator list_sequence
        (StrictEliasFano.write list_sequence (7 ∷ []) (tabulate values 0 5) 20 5)
        1
        20
        5) in
    (shown ≡ (2, 7))
    × (StrictEliasFano.prev_value list_sequence e ≡ 4)
    × (3 < 5 → (StrictEliasFano.next list_sequence e).1 ≡ (3, 10))
move-write_example =
    StrictEliasFano.move-write list_sequence (λ v universe n w. tt) values 20 5 (7 ∷ []) 2
      increasing (omega arith)

abbrev freqs : ℕ → ℕ
freqs p = 2

sums : (p : ℕ) → Positive.sum_to freqs p ≡ 2 * p + 2
sums zero = refl
sums (suc p) = omega (arith, sums p)

moves-write_example :
    Positive.moves list_sequence (3 ∷ 0 ∷ 1 ∷ []) (
      Positive.enumerator list_sequence 99
        (Positive.write list_sequence (7 ∷ []) (tabulate freqs 0 5) 11 5)
        1
        11
        5)
    ≡ (3, 2) ∷ (0, 2) ∷ (1, 2) ∷ []
moves-write_example =
    Positive.moves-write list_sequence freqs 11 5 tt (omega arith) (λ p h. omega (arith, sums p)) 99
      (7 ∷ []) (3 ∷ 0 ∷ 1 ∷ []) (omega arith)
