-- ===== src/IndexedSequence/Tests.antt =====
-- The choice between the classes on the sample bit vectors.
use ds2i.Base.{ℕ, ◌+◌, ◌*◌, ◌<◌, ◌≡◌, true, some, tabulate, arith}
use ds2i.Succinct.Sample.{sample_broadword, sample_util}
use ds2i.BitArray.Sample.{Flags, sample_bit_array}
use ds2i.Sequence.{Increasing}
use ds2i.Sequence
use ds2i.IndexedSequence.{Representation, write, bitsize, enumerator, move, next, size, prev_value}
use ds2i.IndexedSequence.Classes.{GlobalParameters, compact_elias_fano, compact_ranked_bitvector}
use ds2i.IndexedSequence.Choice.{reads-write}

abbrev params : GlobalParameters
params = record {
  ef_log_sampling0 = 9;
  ef_log_sampling1 = 8;
  rb_log_rank1_sampling = 9;
  rb_log_sampling1 = 8;
}

abbrev ef : Representation sample_bit_array
ef = compact_elias_fano sample_broadword sample_util sample_bit_array params

abbrev rb : Representation sample_bit_array
rb = compact_ranked_bitvector sample_broadword sample_util sample_bit_array params

abbrev flags : Flags
flags = record { size = 2; get = λ j. true }

-- 0, 100, 200
abbrev hundreds : ℕ → ℕ
hundreds p = 100 * p

hundreds-Increasing : Increasing hundreds 300 3
hundreds-Increasing = record {
  below = λ p less. omega (arith, less);
  ordered = λ p less. omega arith;
  n_pos = omega arith;
  universe_small = omega arith;
}

reads-write_example :
    (b' : Flags) × (write sample_bit_array ef rb flags (tabulate hundreds 0 3) 300 3 ≡ some b')
    × (b'.size ≡ 2 + bitsize sample_bit_array ef rb 300 3)
    × ((j : ℕ) → j < 2 → b'.get j ≡ true)
    × (let (e, shown) =
          move sample_bit_array ef rb 1 (enumerator sample_bit_array ef rb b' 2 300 3) in
        (shown ≡ (1, 100))
        × (size sample_bit_array ef rb e ≡ 3)
        × (prev_value sample_bit_array ef rb e ≡ 0)
        × (1 + 1 < 3 → (next sample_bit_array ef rb e).1 ≡ (2, 200))
        × ((p' : ℕ) → p' < 3 → (move sample_bit_array ef rb p' e).1 ≡ (p', 100 * p')))
reads-write_example =
    reads-write sample_bit_array ef rb hundreds 300 3 flags 1 hundreds-Increasing (omega arith)
