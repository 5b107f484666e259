-- ===== src/RankedBitvector/Tests.antt =====
-- Bit vectors written to the sample bit vectors.
use ds2i.Base.{ℕ, ◌+◌, ◌-◌, ◌*◌, ◌<◌, ◌≡◌, true, min, tabulate, arith}
use ds2i.Succinct.Sample.{sample_broadword, sample_util}
use ds2i.BitArray.Sample.{Flags, sample_bit_array}
use ds2i.Sequence.{Increasing}
use ds2i.RankedBitvector.{Params, wrote, not_sorted, write, enumerator, move, next, prev_value}
use ds2i.RankedBitvector.Sequenced.{unary-write}
use ds2i.RankedBitvector.Stored.{write-refused}

abbrev params : Params
params = record { rb_log_rank1_sampling = 2; rb_log_sampling1 = 1 }

abbrev flags : Flags
flags = record { size = 3; get = λ j. true }

-- 0, 5, 10, 15, 20
abbrev fives : ℕ → ℕ
fives p = 5 * p

abbrev tent : ℕ → ℕ
tent p = min p (4 - p)

fives-Increasing : Increasing fives 40 5
fives-Increasing = record {
  below = λ p less. omega (arith, less);
  ordered = λ p less. omega arith;
  n_pos = omega arith;
  universe_small = omega arith;
}

unary-write_example :
    (b' : Flags) × (write sample_broadword sample_util sample_bit_array params flags
        (tabulate fives 0 5)
        40
        5
      ≡ wrote b')
    × (let (e, shown) =
          move sample_broadword sample_util sample_bit_array 3
            (enumerator sample_broadword sample_util sample_bit_array params b' 3 40 5) in
        (shown ≡ (3, 15))
        × (prev_value sample_broadword sample_util sample_bit_array e ≡ 10)
        × (3 + 1 < 5 → (next sample_broadword sample_util sample_bit_array e).1 ≡ (4, 20))
        × ((p' : ℕ)
            → p' < 5
            → (move sample_broadword sample_util sample_bit_array p' e).1 ≡ (p', 5 * p')))
    × ((j : ℕ) → j < 3 → b'.get j ≡ true)
unary-write_example =
    unary-write sample_broadword sample_util sample_bit_array params fives 40 5 flags 3
      fives-Increasing (omega arith)

write-refused_example :
    write sample_broadword sample_util sample_bit_array params flags (tabulate tent 0 4) 10 4
    ≡ not_sorted
write-refused_example =
    write-refused sample_broadword sample_util sample_bit_array params tent 10 4 2 flags
      (omega arith) (omega arith) (λ j less. ground (arith, less)) (λ j less. omega (arith, less))
