-- ===== src/StrictSequence/Tests.antt =====
-- A sequence written as a bit vector, on the sample bit vectors.
use ds2i.Base.{ℕ, ◌+◌, ◌*◌, ◌<◌, ◌≡◌, true, some, tabulate, arith}
use ds2i.Succinct.Sample.{sample_broadword, sample_util}
use ds2i.BitArray.Sample.{Flags, sample_bit_array}
use ds2i.Sequence.{Increasing}
use ds2i.IndexedSequence.Classes.{GlobalParameters}
use ds2i.StrictSequence.{
  write, bitsize, enumerator, move, next, size, prev_value, strict_reads-write,
}

abbrev params : GlobalParameters
params = record {
  ef_log_sampling0 = 9;
  ef_log_sampling1 = 8;
  rb_log_rank1_sampling = 9;
  rb_log_sampling1 = 8;
}

abbrev flags : Flags
flags = record { size = 3; get = λ j. true }

-- 1, 3, 5, 7, 9
abbrev odds : ℕ → ℕ
odds p = 2 * p + 1

odds-Increasing : Increasing odds 11 5
odds-Increasing = record {
  below = λ p less. omega (arith, less);
  ordered = λ p less. omega arith;
  n_pos = omega arith;
  universe_small = omega arith;
}

strict_reads-write_example :
    (b' : Flags) × (write sample_broadword sample_util sample_bit_array params flags
        (tabulate odds 0 5)
        11
        5
      ≡ some b')
    × (b'.size ≡ 3 + bitsize sample_broadword sample_util sample_bit_array params 11 5)
    × ((j : ℕ) → j < 3 → b'.get j ≡ true)
    × (let (e, shown) =
          move sample_broadword sample_util sample_bit_array params 3
            (enumerator sample_broadword sample_util sample_bit_array params b' 3 11 5) in
        (shown ≡ (3, 7))
        × (size sample_broadword sample_util sample_bit_array params e ≡ 5)
        × (prev_value sample_broadword sample_util sample_bit_array params e ≡ 5)
        × (3 + 1 < 5 → (next sample_broadword sample_util sample_bit_array params e).1 ≡ (4, 9))
        × ((p' : ℕ)
            → p' < 5
            → (move sample_broadword sample_util sample_bit_array params p' e).1
              ≡ (p', 2 * p' + 1)))
strict_reads-write_example =
    strict_reads-write sample_broadword sample_util sample_bit_array params odds 11 5 flags 3
      odds-Increasing (omega arith)
