-- ===== src/BlockFreqIndex/Tests.antt =====
-- An index of two lists.
use ds2i.Base.{
  ℕ, zero, suc, ◌+◌, ◌*◌, ◌^◌, ◌≤◌, ◌<◌, ◌≡◌, refl, false, some, List, [], ◌∷◌, length, get_elem?,
  tabulate, All, IsU8, arith,
}
use ds2i.Succinct.Sample.{sample_broadword, sample_util}
use ds2i.BitArray.Sample.{Flags, sample_bit_array}
use ds2i.Codec.Sample.{word_codec}
use ds2i.BlockCodec.Sums.{sum}
use ds2i.Sequence.{Sequence}
use ds2i.EliasFano.{Params}
use ds2i.EliasFano.Sequenced.{elias_fano, as_bits, bit_size-as_bits, any_writable}
use ds2i.BlockPostingList.{DocumentEnumerator}
use ds2i.BlockPostingList.Encoded.{base, less_one}
use ds2i.BlockPostingList.Enumerate.{At}
use ds2i.BlockFreqIndex.{
  Builder, builder, added, invalid_argument, add_posting_list, build, open_list,
}
use ds2i.BlockFreqIndex.Opening.{Term, add_all, open_list-build}

abbrev freqs : ℕ → ℕ
freqs p = 2

abbrev docs : ℕ → ℕ → ℕ
docs step p = step * p + 1

sum-twos : (k p : ℕ) → sum (tabulate (less_one freqs) p k) ≡ k
sum-twos zero p = refl
sum-twos (suc k) p = omega (arith, sum-twos k (suc p))

increases_by_three : (p : ℕ) → base (docs 3) p ≤ docs 3 p
increases_by_three zero = omega arith
increases_by_three (suc p) = omega arith

increases_by_one : (p : ℕ) → base (docs 1) p ≤ docs 1 p
increases_by_one zero = omega arith
increases_by_one (suc p) = omega arith

abbrev threes : Term word_codec sample_util 20
threes = record {
  n = 5;
  docs = docs 3;
  freqs = freqs;
  valid = record {
    n_small = omega arith;
    n_pos = omega arith;
    universe_small = omega arith;
    increases = λ p h. increases_by_three p;
    inside = λ p h. omega arith;
    freqs_pos = λ p h. omega arith;
    freqs_small = λ p k h. omega (arith, sum-twos k p);
  };
}

abbrev ones : Term word_codec sample_util 20
ones = record {
  n = 2;
  docs = docs 1;
  freqs = freqs;
  valid = record {
    n_small = omega arith;
    n_pos = omega arith;
    universe_small = omega arith;
    increases = λ p h. increases_by_one p;
    inside = λ p h. omega arith;
    freqs_pos = λ p h. omega arith;
    freqs_small = λ p k h. omega (arith, sum-twos k p);
  };
}

refused : add_posting_list word_codec sample_util 0 [] [] (builder 20) ≡ invalid_argument
unfolding add_posting_list
refused = refl

abbrev params : Params
params = record { ef_log_sampling0 = 9; ef_log_sampling1 = 8 }

abbrev empty_flags : Flags
empty_flags = record { size = 0; get = λ j. false }

-- The endpoints are stored by compact_elias_fano.
abbrev stored : Sequence
stored = elias_fano sample_broadword sample_util sample_bit_array params

abbrev none_yet : stored.Bits
none_yet = as_bits sample_broadword sample_util sample_bit_array params empty_flags

open_list-build_example :
    (b : Builder) × (add_all word_codec sample_util 20 (threes ∷ ones ∷ []) (builder 20) ≡ added b)
    × ((build word_codec sample_util stored none_yet b).size ≡ 2)
    × (length b.lists < 2 ^ 32
        → (behind : List ℕ) (i : ℕ) (t : Term word_codec sample_util 20) → All IsU8 behind
        → 0 ≤ length behind
        → get_elem? (threes ∷ ones ∷ []) i ≡ some t
        → (e : DocumentEnumerator) × (open_list word_codec sample_util stored behind
              (build word_codec sample_util stored none_yet b)
              i
            ≡ some e)
          × At word_codec t.n 20 t.docs t.freqs 0 e)
open_list-build_example =
    open_list-build word_codec sample_util 20 stored none_yet
      (bit_size-as_bits sample_broadword sample_util sample_bit_array params empty_flags)
      (any_writable sample_broadword sample_util sample_bit_array params) threes (ones ∷ [])
