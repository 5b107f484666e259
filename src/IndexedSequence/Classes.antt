-- ===== src/IndexedSequence/Classes.antt =====
-- The classes that indexed_sequence and strict_sequence choose from.
use ds2i.Base.{
  ℕ, ◌+◌, ◌-◌, ◌%◌, ◌^◌, ◌<◌, ◌≡◌, ap, sym, subst, ◌∙◌, Option, some, none, List, tabulate, arith,
}
use ds2i.Succinct.{Broadword, Util}
use ds2i.BitArray.{BitArray}
use ds2i.Sequence.{Sequence, Increasing, NonDecreasing, sub64}
use ds2i.Sequence
use ds2i.Sequence.StrictEliasFano.{
  less_positions, reduced, reduced-NonDecreasing, less_positions-tabulate, new_universe, size_le,
}
use ds2i.EliasFano
use ds2i.EliasFano.Sequenced.{elias_fano}
use ds2i.RankedBitvector.{Wrote, wrote, duplicate_element, not_sorted, undefined}
use ds2i.RankedBitvector
use ds2i.IndexedSequence.{Representation}

-- `global_parameters`, for the classes of sequences.
pub record GlobalParameters : Type 0 where
  pub ef_log_sampling0 : ℕ
  pub ef_log_sampling1 : ℕ
  pub rb_log_rank1_sampling : ℕ
  pub rb_log_sampling1 : ℕ

-- The sampling of zeros and ranks is turned off.
pub strict_params : GlobalParameters → GlobalParameters
strict_params params = record params { ef_log_sampling0 = 63; rb_log_rank1_sampling = 63 }

Increasing-NonDecreasing :
    {v : ℕ → ℕ} {universe n : ℕ} → Increasing v universe n → NonDecreasing v universe n
Increasing-NonDecreasing inc = record {
  below = inc.below;
  ordered = λ p less. omega (arith, inc.ordered p less);
  n_pos = inc.n_pos;
  universe_small = inc.universe_small;
}

module _ (broadword : Broadword) (util : Util) (bit_array : BitArray)
    (params : GlobalParameters) where
  open bit_array use {Bits}

  ef_params : EliasFano.Params
  ef_params = record {
    ef_log_sampling0 = params.ef_log_sampling0;
    ef_log_sampling1 = params.ef_log_sampling1;
  }

  rb_params : RankedBitvector.Params
  rb_params = record {
    rb_log_rank1_sampling = params.rb_log_rank1_sampling;
    rb_log_sampling1 = params.rb_log_sampling1;
  }

  -- Either exception.
  or_none : Wrote Bits → Option Bits
  or_none (wrote b) = some b
  or_none duplicate_element = none
  or_none not_sorted = none
  or_none undefined = none

  ef_or_none : EliasFano.Wrote Bits → Option Bits
  ef_or_none (EliasFano.wrote b) = some b
  ef_or_none EliasFano.not_sorted = none
  ef_or_none EliasFano.undefined = none

  pub compact_elias_fano : Representation bit_array
  unfolding elias_fano ef_or_none
  compact_elias_fano =
      let base = elias_fano broadword util bit_array ef_params in
      record {
        Enumerator = EliasFano.Enumerator broadword util bit_array;
        bitsize = EliasFano.bitsize broadword ef_params;
        write = λ b values universe n.
            ef_or_none (EliasFano.write broadword util bit_array ef_params b values universe n);
        enumerator = EliasFano.enumerator broadword util bit_array ef_params;
        move = EliasFano.move broadword util bit_array;
        next = EliasFano.next broadword util bit_array;
        size_of = EliasFano.size broadword util bit_array;
        prev_value = EliasFano.prev_value broadword util bit_array;
        Stands = EliasFano.Sequenced.Enumerates broadword util bit_array ef_params;
        bitsize_small = λ v universe n inc.
            EliasFano.Layout.bitsize-small broadword ef_params v universe n
              (Increasing-NonDecreasing inc);
        write-Stands = λ v universe n b inc.
            let (b', written, opened, kept, grown) =
              EliasFano.Sequenced.opened-Enumerates broadword util bit_array ef_params v universe n
                b (Increasing-NonDecreasing inc) in
            (b', ap ef_or_none written, grown, kept, opened);
        size_eq = base.size_eq;
        prev_value_eq = base.prev_value_eq;
        move-Stands = base.move-Stands;
        next-Stands = base.next-Stands;
      }

  pub compact_ranked_bitvector : Representation bit_array
  unfolding or_none RankedBitvector.Sequenced.ranked_bitvector
  compact_ranked_bitvector =
      let base = RankedBitvector.Sequenced.ranked_bitvector broadword util bit_array rb_params in
      record {
        Enumerator = RankedBitvector.Enumerator broadword util bit_array;
        bitsize = RankedBitvector.bitsize broadword rb_params;
        write = λ b values universe n.
            or_none (RankedBitvector.write broadword util bit_array rb_params b values universe n);
        enumerator = RankedBitvector.enumerator broadword util bit_array rb_params;
        move = RankedBitvector.move broadword util bit_array;
        next = RankedBitvector.next broadword util bit_array;
        size_of = RankedBitvector.size broadword util bit_array;
        prev_value = RankedBitvector.prev_value broadword util bit_array;
        Stands = RankedBitvector.Sequenced.Enumerates broadword util bit_array rb_params;
        bitsize_small = λ v universe n inc.
            RankedBitvector.Layout.bitsize-small broadword rb_params v universe n inc;
        write-Stands = λ v universe n b inc.
            let (b', written, opened, kept, grown) =
              RankedBitvector.Sequenced.opened-Enumerates broadword util bit_array rb_params v
                universe n b inc in
            (b', ap or_none written, grown, kept, opened);
        size_eq = base.size_eq;
        prev_value_eq = base.prev_value_eq;
        move-Stands = base.move-Stands;
        next-Stands = base.next-Stands;
      }

  abbrev writable :
      (v : ℕ → ℕ) (universe n : ℕ)
      → NonDecreasing v universe n
      → (elias_fano broadword util bit_array ef_params).Writable v universe n
  writable = EliasFano.Sequenced.any_writable broadword util bit_array ef_params

  -- `universe - n + 1`
  reduced_universe : ℕ → ℕ → ℕ
  reduced_universe universe n = (sub64 universe n + 1) % 2 ^ 64

  pub strict_bitsize : ℕ → ℕ → ℕ
  strict_bitsize universe n = EliasFano.bitsize broadword ef_params (reduced_universe universe n) n

  pub strict_write : Bits → List ℕ → ℕ → ℕ → Option Bits
  strict_write b values universe n = ef_or_none (
      EliasFano.write broadword util bit_array ef_params b (less_positions 0 values)
        (reduced_universe universe n) n)

  -- What is written is the reduced values over the reduced universe.
  strict_written :
      (v : ℕ → ℕ) (universe n : ℕ) (b : Bits)
      → Increasing v universe n
      → strict_write b (tabulate v 0 n) universe n
        ≡ ef_or_none (
            EliasFano.write broadword util bit_array ef_params b
              (tabulate (reduced v) 0 n)
              (universe - n + 1)
              n)
  unfolding strict_write reduced_universe
  strict_written v universe n b inc = λ j. ef_or_none (
      EliasFano.write broadword util bit_array ef_params b
        (less_positions-tabulate inc n 0 (omega arith) j) (new_universe inc j) n)

  strict_bitsize_eq :
      (v : ℕ → ℕ) (universe n : ℕ)
      → Increasing v universe n
      → strict_bitsize universe n ≡ EliasFano.bitsize broadword ef_params (universe - n + 1) n
  unfolding strict_bitsize reduced_universe
  strict_bitsize_eq v universe n inc =
      ap (λ (u : ℕ). EliasFano.bitsize broadword ef_params u n) (new_universe inc)

  abbrev strict : Sequence
  strict =
      Sequence.StrictEliasFano.strict_elias_fano (elias_fano broadword util bit_array ef_params)
        writable

  pub strict_elias_fano : Representation bit_array
  unfolding elias_fano ef_or_none Sequence.StrictEliasFano.strict_elias_fano
      Sequence.StrictEliasFano.enumerator
  strict_elias_fano = record {
    Enumerator = EliasFano.Enumerator broadword util bit_array;
    bitsize = strict_bitsize;
    write = strict_write;
    enumerator =
        Sequence.StrictEliasFano.enumerator (elias_fano broadword util bit_array ef_params);
    move = Sequence.StrictEliasFano.move (elias_fano broadword util bit_array ef_params);
    next = Sequence.StrictEliasFano.next (elias_fano broadword util bit_array ef_params);
    size_of = EliasFano.size broadword util bit_array;
    prev_value =
        Sequence.StrictEliasFano.prev_value (elias_fano broadword util bit_array ef_params);
    Stands =
        Sequence.StrictEliasFano.Stands (elias_fano broadword util bit_array ef_params) writable;
    bitsize_small = λ v universe n inc.
        subst (λ (t : ℕ). t < 2 ^ 63) (sym (strict_bitsize_eq v universe n inc))
          (EliasFano.Layout.bitsize-small broadword ef_params (reduced v) (universe - n + 1) n
            (reduced-NonDecreasing inc));
    write-Stands = λ v universe n b inc.
        let (b', written, opened, kept, grown) =
          EliasFano.Sequenced.opened-Enumerates broadword util bit_array ef_params (reduced v)
            (universe - n + 1) n b (reduced-NonDecreasing inc) in
        (
          b',
          strict_written v universe n b inc ∙ ap ef_or_none written,
          omega (arith, grown, strict_bitsize_eq v universe n inc),
          kept,
          record {
            increasing = inc;
            below =
                subst
                  (λ (u : ℕ).
                    EliasFano.Sequenced.Enumerates broadword util bit_array ef_params (reduced v)
                      (universe - n + 1) n n
                      (EliasFano.enumerator broadword util bit_array ef_params b' (bit_array.size b)
                        u n))
                  (sym (new_universe inc)) opened;
          },
        );
    size_eq = strict.size_eq;
    prev_value_eq = strict.prev_value_eq;
    move-Stands = strict.move-Stands;
    next-Stands = strict.next-Stands;
  }
