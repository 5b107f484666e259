-- ===== src/EliasFano/Tests.antt =====
-- Sequences written to the sample bit vectors.
use ds2i.Base.{ℕ, ◌+◌, ◌-◌, ◌*◌, ◌<◌, ◌≡◌, true, tabulate, arith}
use ds2i.Succinct.Sample.{sample_broadword, sample_util}
use ds2i.BitArray.Sample.{Flags, sample_bit_array}
use ds2i.Sequence.{NonDecreasing}
use ds2i.EliasFano.{Params, wrote, not_sorted, write, enumerator, move, next, prev_value}
use ds2i.EliasFano.Sequenced.{enumerator-write}
use ds2i.EliasFano.Stored.{write-unsorted}

abbrev params : Params
params = record { ef_log_sampling0 = 2; ef_log_sampling1 = 1 }

abbrev flags : Flags
flags = record { size = 3; get = λ j. true }

-- 0, 5, 10, 15, 20
abbrev fives : ℕ → ℕ
fives p = 5 * p

abbrev falling : ℕ → ℕ
falling p = 9 - p

fives-NonDecreasing : NonDecreasing fives 40 5
fives-NonDecreasing = record {
  below = λ p less. omega (arith, less);
  ordered = λ p less. omega arith;
  n_pos = omega arith;
  universe_small = omega arith;
}

enumerator-write_example :
    (b' : Flags) × (write sample_broadword sample_util sample_bit_array params flags
        (tabulate fives 0 5)
        40
        5
      ≡ wrote b')
    × (let (e, shown) =
          move sample_broadword sample_util sample_bit_array 3
            (enumerator sample_broadword sample_util sample_bit_array params b' 3 40 5) in
        (shown ≡ (3, 15))
        × (prev_value sample_broadword sample_util sample_bit_array e ≡ 10)
        × (3 + 1 < 5 → (next sample_broadword sample_util sample_bit_array e).1 ≡ (4, 20))
        × ((p' : ℕ)
            → p' < 5
            → (move sample_broadword sample_util sample_bit_array p' e).1 ≡ (p', 5 * p')))
    × ((j : ℕ) → j < 3 → b'.get j ≡ true)
enumerator-write_example =
    enumerator-write sample_broadword sample_util sample_bit_array params fives 40 5 flags 3
      fives-NonDecreasing (omega arith)

write-unsorted_example :
    write sample_broadword sample_util sample_bit_array params flags (tabulate falling 0 3) 10 3
    ≡ not_sorted
write-unsorted_example =
    write-unsorted sample_broadword sample_util sample_bit_array params falling 10 3 1 flags
      (omega arith) (omega arith) (λ j less. omega (arith, less))
