-- ===== src/RankedBitvector.antt =====
-- compact_ranked_bitvector.hpp: increasing values as the ones of a bit vector, with the ranks at some
-- of its positions and pointers to some of the ones.
-- Positions in a bit vector do not wrap: its size is below 2^64.
pub mod Layout
pub mod Writing
pub mod Stored
pub mod Reading
pub mod Moves
pub mod Sequenced
mod Tests
use ds2i.Base.{
  ℕ, zero, suc, ◌+◌, ◌-◌, ◌*◌, ◌/◌, ◌^◌, Bool, true, false, ◌&&◌, ◌||◌, not, List, [], ◌∷◌, ltb,
  leb, ◌==◌, if◌then◌else◌, bit_and,
}
use ds2i.Succinct.{Broadword, Util}
use ds2i.BitArray.{BitArray, next_times}
use ds2i.EliasFano.{ceil_log2}

-- The part of `global_parameters` that is used.
pub record Params : Type 0 where
  pub rb_log_rank1_sampling : ℕ
  pub rb_log_sampling1 : ℕ

pub record Offsets : Type 0 where
  pub universe : ℕ
  pub n : ℕ
  pub log_rank1_sampling : ℕ
  pub log_sampling1 : ℕ
  pub rank1_sample_size : ℕ
  pub pointer_size : ℕ
  pub rank1_samples : ℕ
  pub pointers1 : ℕ
  pub rank1_samples_offset : ℕ
  pub pointers1_offset : ℕ
  pub bits_offset : ℕ
  pub end_offset : ℕ

-- The builder after `write`, or one of its exceptions, or `undefined` for a value that is not below
-- the universe. The assertion of the code lets the universe itself pass, whose bit is behind the vector.
pub data Wrote (Bits : Type 0) : Type 0 where
  wrote : Bits → Wrote Bits
  duplicate_element : Wrote Bits
  not_sorted : Wrote Bits
  undefined : Wrote Bits

abbrev pub linear_scan_threshold : ℕ
linear_scan_threshold = 8

module _ (broadword : Broadword) where
  pub offsets : ℕ → ℕ → ℕ → Params → Offsets
  offsets base_offset universe n params =
      let rank1_sample_size = ceil_log2 broadword (n + 1) in
      let pointer_size = ceil_log2 broadword universe in
      let rank1_samples = universe / 2 ^ params.rb_log_rank1_sampling in
      let pointers1 = n / 2 ^ params.rb_log_sampling1 in
      let pointers1_offset = base_offset + rank1_samples * rank1_sample_size in
      let bits_offset = pointers1_offset + pointers1 * pointer_size in
      record {
        universe = universe;
        n = n;
        log_rank1_sampling = params.rb_log_rank1_sampling;
        log_sampling1 = params.rb_log_sampling1;
        rank1_sample_size = rank1_sample_size;
        pointer_size = pointer_size;
        rank1_samples = rank1_samples;
        pointers1 = pointers1;
        rank1_samples_offset = base_offset;
        pointers1_offset = pointers1_offset;
        bits_offset = bits_offset;
        end_offset = bits_offset + universe;
      }

  pub bitsize : Params → ℕ → ℕ → ℕ
  bitsize params universe n = (offsets 0 universe n params).end_offset

  module _ (util : Util) (bit_array : BitArray) where
    open bit_array use {Bits, Unary, get_word56}

    -- The loop of `set_rank1_samples` from `sample` on.
    pub samples_loop : ℕ → Offsets → ℕ → ℕ → ℕ → Bits → Bits
    samples_loop zero of sample end rank bvb = bvb
    samples_loop (suc fuel) of sample end rank bvb =
        let offset = of.rank1_samples_offset + (sample - 1) * of.rank1_sample_size in
        let bvb' =
          if sample == 0 then bvb else bit_array.set_bits offset rank of.rank1_sample_size bvb in
        let rest = samples_loop fuel of (suc sample) end rank bvb' in
        if ltb (sample * 2 ^ of.log_rank1_sampling) end then rest else bvb

    -- As many rounds as there are bits are enough.
    pub set_rank1_samples : Offsets → ℕ → ℕ → ℕ → Bits → Bits
    set_rank1_samples of begin end rank bvb =
        samples_loop end of (util.ceil_div begin (2 ^ of.log_rank1_sampling)) end rank bvb

    -- The bits of the `i`-th value `v`.
    pub write_value : Offsets → ℕ → ℕ → ℕ → Bits → Bits
    write_value of i v last bvb =
        let sample1_mask = 2 ^ of.log_sampling1 - 1 in
        let bvb₁ = bit_array.set (of.bits_offset + v) bvb in
        let ptr1 = i / 2 ^ of.log_sampling1 in
        let bvb₂ =
          if not (i == 0) && (bit_and i sample1_mask == 0)
          then bit_array.set_bits (of.pointers1_offset + (ptr1 - 1) * of.pointer_size) v
              of.pointer_size bvb₁
          else bvb₁ in
        set_rank1_samples of (last + 1) (v + 1) i bvb₂

    -- The loop over the values, and the samples behind the last of them.
    pub write_loop : Offsets → ℕ → ℕ → List ℕ → Bits → Wrote Bits
    write_loop of i last [] bvb = wrote (set_rank1_samples of (last + 1) of.universe of.n bvb)
    write_loop of i last (v ∷ vs) bvb =
        let rest = write_loop of (suc i) v vs (write_value of i v last bvb) in
        if not (i == 0) && (v == last)
        then duplicate_element
        else if not (i == 0) && ltb v last
        then not_sorted
        else if ltb v of.universe
        then rest
        else undefined

    pub write : Params → Bits → List ℕ → ℕ → ℕ → Wrote Bits
    write params bvb values universe n =
        let base_offset = bit_array.size bvb in
        let of = offsets base_offset universe n params in
        write_loop of 0 0 values (bit_array.zero_extend (of.end_offset - base_offset) bvb)

    pub record Enumerator : Type 0 where
      pub bv : Bits
      pub of : Offsets
      pub position : ℕ
      pub value : ℕ
      pub unary : Unary

    pub enumerator : Params → Bits → ℕ → ℕ → ℕ → Enumerator
    enumerator params bv offset universe n = record {
      bv = bv;
      of = offsets offset universe n params;
      position = n;
      value = universe;
      unary = bit_array.unary;
    }

    pub shown : Enumerator → Enumerator × (ℕ × ℕ)
    shown e = (e, (e.position, e.value))

    -- `m_value = read_next();`
    pub read_next : Enumerator → Enumerator
    read_next e =
        let (u, high) = bit_array.next e.unary in
        record e { unary = u; value = high - e.of.bits_offset }

    pub at_end : Enumerator → Enumerator
    at_end e = record e { position = e.of.n; value = e.of.universe }

    pub pointer : Enumerator → ℕ → ℕ → ℕ → ℕ
    pointer e offset i size =
        if i == 0 then 0 else bit_and (get_word56 e.bv (offset + (i - 1) * size)) (2 ^ size - 1)

    pub pointer1 : Enumerator → ℕ → ℕ
    pointer1 e i = pointer e e.of.pointers1_offset i e.of.pointer_size

    pub slow_move : ℕ → Enumerator → Enumerator × (ℕ × ℕ)
    slow_move position e =
        let skip = position - e.position in
        let ptr = position / 2 ^ e.of.log_sampling1 in
        let sampled = bit_array.unary_enumerator e.bv (e.of.bits_offset + pointer1 e ptr) in
        let u =
          if ltb e.position position && (skip / 2 ^ e.of.log_sampling1 == 0)
          then bit_array.skip (skip - 1) e.unary
          else bit_array.skip (position - ptr * 2 ^ e.of.log_sampling1) sampled in
        if position == e.of.n
        then shown (at_end e)
        else shown (read_next (record e { unary = u; position = position }))

    pub move : ℕ → Enumerator → Enumerator × (ℕ × ℕ)
    move position e =
        let skip = position - e.position in
        let u = next_times bit_array skip e.unary in
        let near = if position == e.of.n then at_end e else record e {
          position = position;
          unary = u;
          value = bit_array.unary_position u - e.of.bits_offset;
        } in
        if position == e.position
        then shown e
        else if ltb e.position position && leb skip linear_scan_threshold
        then shown near
        else slow_move position e

    pub next : Enumerator → Enumerator × (ℕ × ℕ)
    next e =
        let position = e.position + 1 in
        if ltb position e.of.n
        then shown (read_next (record e { position = position }))
        else shown (record e { position = position; value = e.of.universe })

    pub size : Enumerator → ℕ
    size e = e.of.n

    pub prev_value : Enumerator → ℕ
    prev_value e =
        let pos =
          if ltb e.position e.of.n
          then bit_array.predecessor1 e.bv (bit_array.unary_position e.unary - 1)
          else bit_array.predecessor1 e.bv (e.of.end_offset - 1) in
        if e.position == 0 then 0 else pos - e.of.bits_offset
