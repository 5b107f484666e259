-- ===== src/BitvectorCollection/Tests.antt =====
-- A collection of two bit vectors.
use ds2i.Base.{ℕ, ◌<◌, ◌≡◌, true, false, Bool, List, [], ◌∷◌, arith}
use ds2i.Succinct.Sample.{sample_broadword, sample_util, sample_bit_vector, sample_bit_vectors}
use ds2i.BitArray.Sample.{Flags, sample_bit_array}
use ds2i.Sequence.{Sequence, NonDecreasing}
use ds2i.EliasFano.{Params}
use ds2i.EliasFano.Sequenced.{elias_fano, as_bits, bit_size-as_bits, any_writable}
use ds2i.BitvectorCollection.{get}
use ds2i.BitvectorCollection.Opening.{collection, from_chunk, get-build}

abbrev two : List (List Bool)
two = (true ∷ false ∷ []) ∷ (true ∷ []) ∷ []

abbrev params : Params
params = record { ef_log_sampling0 = 9; ef_log_sampling1 = 8 }

-- The endpoints are stored by compact_elias_fano.
abbrev stored : Sequence
stored = elias_fano sample_broadword sample_util sample_bit_array params

abbrev empty_flags : Flags
empty_flags = record { size = 0; get = λ j. false }

abbrev none_yet : stored.Bits
none_yet = as_bits sample_broadword sample_util sample_bit_array params empty_flags

none_yet_size : stored.bit_size none_yet ≡ 0
none_yet_size = bit_size-as_bits sample_broadword sample_util sample_bit_array params empty_flags

abbrev writable :
    (v : ℕ → ℕ) (universe n : ℕ) → NonDecreasing v universe n → stored.Writable v universe n
writable = any_writable sample_broadword sample_util sample_bit_array params

get-build_example :
    ((collection sample_bit_vector sample_bit_vectors stored none_yet none_yet_size writable
        two).size
      ≡ 2)
    × ((i : ℕ)
        → i < 2
        → sample_bit_vector.ahead (
            get sample_bit_vector sample_bit_vectors stored
              (collection sample_bit_vector sample_bit_vectors stored none_yet none_yet_size
                writable two)
              i)
          ≡ from_chunk two i)
get-build_example =
    get-build sample_bit_vector sample_bit_vectors stored none_yet none_yet_size writable two
      (omega arith) (omega arith) (omega arith)
