-- ===== src/EliasFano.antt =====
-- compact_elias_fano.hpp: values that do not decrease, of each the low bits in an array and the high
-- bits in unary, with pointers to some of the ones and of the zeros.
-- Positions in a bit vector do not wrap: its size is below 2^64.
pub mod Layout
pub mod Lows
pub mod Writing
pub mod Stored
pub mod Reading
pub mod Moves
pub mod Sequenced
mod Tests
use ds2i.Base.{
  ℕ, zero, suc, ◌+◌, ◌-◌, ◌*◌, ◌/◌, ◌^◌, Bool, true, false, ◌&&◌, not, Option, none, some, List, [],
  ◌∷◌, ltb, leb, ◌==◌, if◌then◌else◌, ◌>>=◌, bit_and, bit_or,
}
use ds2i.Succinct.{Broadword, Util}
use ds2i.BitArray.{BitArray, next_times}

-- The part of `global_parameters` that is used.
pub record Params : Type 0 where
  pub ef_log_sampling0 : ℕ
  pub ef_log_sampling1 : ℕ

pub record Offsets : Type 0 where
  pub universe : ℕ
  pub n : ℕ
  pub log_sampling0 : ℕ
  pub log_sampling1 : ℕ
  pub lower_bits : ℕ
  pub mask : ℕ
  pub higher_bits_length : ℕ
  pub pointer_size : ℕ
  pub pointers0 : ℕ
  pub pointers1 : ℕ
  pub pointers0_offset : ℕ
  pub pointers1_offset : ℕ
  pub higher_bits_offset : ℕ
  pub lower_bits_offset : ℕ
  pub end_offset : ℕ

-- What `write` gives: the vector, the exception for a sequence that is not sorted, or `undefined` for
-- a value that is not below the universe, which an assertion refuses.
pub data Wrote (A : Type 0) : Type 0 where
  wrote : A → Wrote A
  not_sorted : Wrote A
  undefined : Wrote A

abbrev pub linear_scan_threshold : ℕ
linear_scan_threshold = 8

module _ (broadword : Broadword) where
  -- `ceil_log2` of util.hpp.
  unfoldable pub ceil_log2 : ℕ → ℕ
  ceil_log2 x = if ltb 1 x then broadword.msb (x - 1) + 1 else 0

  pub offsets : ℕ → ℕ → ℕ → Params → Offsets
  offsets base_offset universe n params =
      let lower_bits = if ltb n universe then broadword.msb (universe / n) else 0 in
      let higher_bits_length = n + universe / 2 ^ lower_bits + 2 in
      let pointer_size = ceil_log2 higher_bits_length in
      let pointers0 = (higher_bits_length - n) / 2 ^ params.ef_log_sampling0 in
      let pointers1 = n / 2 ^ params.ef_log_sampling1 in
      let pointers1_offset = base_offset + pointers0 * pointer_size in
      let higher_bits_offset = pointers1_offset + pointers1 * pointer_size in
      let lower_bits_offset = higher_bits_offset + higher_bits_length in
      record {
        universe = universe;
        n = n;
        log_sampling0 = params.ef_log_sampling0;
        log_sampling1 = params.ef_log_sampling1;
        lower_bits = lower_bits;
        mask = 2 ^ lower_bits - 1;
        higher_bits_length = higher_bits_length;
        pointer_size = pointer_size;
        pointers0 = pointers0;
        pointers1 = pointers1;
        pointers0_offset = base_offset;
        pointers1_offset = pointers1_offset;
        higher_bits_offset = higher_bits_offset;
        lower_bits_offset = lower_bits_offset;
        end_offset = lower_bits_offset + n * lower_bits;
      }

  pub bitsize : Params → ℕ → ℕ → ℕ
  bitsize params universe n = (offsets 0 universe n params).end_offset

  module _ (util : Util) (bit_array : BitArray) where
    open bit_array use {Bits, Unary, get_word56}

    -- The loop of `set_ptr0s` from `ptr0` on.
    pub ptr0s_loop : ℕ → Offsets → ℕ → ℕ → ℕ → Bits → Bits
    ptr0s_loop zero of ptr0 end_zeros rank_end bvb = bvb
    ptr0s_loop (suc fuel) of ptr0 end_zeros rank_end bvb =
        let offset = of.pointers0_offset + (ptr0 - 1) * of.pointer_size in
        let bvb' =
          if ptr0 == 0
          then bvb
          else bit_array.set_bits offset (ptr0 * 2 ^ of.log_sampling0 + rank_end) of.pointer_size
              bvb in
        let rest = ptr0s_loop fuel of (suc ptr0) end_zeros rank_end bvb' in
        if ltb (ptr0 * 2 ^ of.log_sampling0) end_zeros then rest else bvb

    -- As many rounds as there are zeros are enough.
    pub set_ptr0s : Offsets → ℕ → ℕ → ℕ → Bits → Bits
    set_ptr0s of begin end rank_end bvb =
        let begin_zeros = begin - rank_end in
        let end_zeros = end - rank_end in
        ptr0s_loop end_zeros of (util.ceil_div begin_zeros (2 ^ of.log_sampling0)) end_zeros
          rank_end bvb

    -- The bits of the `i`-th value `v`.
    pub write_value : Offsets → ℕ → ℕ → ℕ → Bits → Bits
    write_value of i v last_high bvb =
        let sample1_mask = 2 ^ of.log_sampling1 - 1 in
        let high = v / 2 ^ of.lower_bits + i + 1 in
        let low = bit_and v of.mask in
        let bvb₁ = bit_array.set (of.higher_bits_offset + high) bvb in
        let bvb₂ =
          bit_array.set_bits (of.lower_bits_offset + i * of.lower_bits) low of.lower_bits bvb₁ in
        let ptr1 = i / 2 ^ of.log_sampling1 in
        let bvb₃ =
          if not (i == 0) && (bit_and i sample1_mask == 0)
          then bit_array.set_bits (of.pointers1_offset + (ptr1 - 1) * of.pointer_size) high
              of.pointer_size bvb₂
          else bvb₂ in
        set_ptr0s of (last_high + 1) high i bvb₃

    -- The loop over the values, with the last value and where its high bits ended.
    pub write_loop : Offsets → ℕ → ℕ → ℕ → List ℕ → Bits → Wrote (Bits × ℕ)
    write_loop of i last last_high [] bvb = wrote (bvb, last_high)
    write_loop of i last last_high (v ∷ vs) bvb =
        let rest =
          write_loop of (suc i) v (v / 2 ^ of.lower_bits + i + 1) vs
            (write_value of i v last_high bvb) in
        if not (i == 0) && ltb v last
        then not_sorted
        else if ltb v of.universe
        then rest
        else undefined

    -- The pointers to the zeros behind the last value.
    pub finish : Offsets → Wrote (Bits × ℕ) → Wrote Bits
    finish of (wrote (bvb, last_high)) =
        wrote (set_ptr0s of (last_high + 1) of.higher_bits_length of.n bvb)
    finish of not_sorted = not_sorted
    finish of undefined = undefined

    pub write : Params → Bits → List ℕ → ℕ → ℕ → Wrote Bits
    write params bvb values universe n =
        let base_offset = bit_array.size bvb in
        let of = offsets base_offset universe n params in
        let bvb' = bit_array.zero_extend (of.end_offset - base_offset) bvb in
        finish of (write_loop of 0 0 0 values bvb')

    pub record Enumerator : Type 0 where
      pub bv : Bits
      pub of : Offsets
      pub position : ℕ
      pub value : ℕ
      pub high_enumerator : Unary

    pub enumerator : Params → Bits → ℕ → ℕ → ℕ → Enumerator
    enumerator params bv offset universe n = record {
      bv = bv;
      of = offsets offset universe n params;
      position = n;
      value = universe;
      high_enumerator = bit_array.unary;
    }

    pub shown : Enumerator → Enumerator × (ℕ × ℕ)
    shown e = (e, (e.position, e.value))

    -- `read_low` at a position.
    pub low_at : Enumerator → ℕ → ℕ
    low_at e position =
        bit_and (get_word56 e.bv (e.of.lower_bits_offset + position * e.of.lower_bits)) e.of.mask

    -- `((high - position - 1) << lower_bits) | low`
    pub assemble : Enumerator → ℕ → ℕ → ℕ
    assemble e high position =
        bit_or ((high - e.of.higher_bits_offset - position - 1) * 2 ^ e.of.lower_bits)
          (low_at e position)

    -- `m_value = read_next();`
    pub read_next : Enumerator → Enumerator
    read_next e =
        let (he, high) = bit_array.next e.high_enumerator in
        record e { high_enumerator = he; value = assemble e high e.position }

    pub at_end : Enumerator → Enumerator
    at_end e = record e { position = e.of.n; value = e.of.universe }

    pub pointer : Enumerator → ℕ → ℕ → ℕ
    pointer e offset i =
        if i == 0
        then 0
        else bit_and (get_word56 e.bv (offset + (i - 1) * e.of.pointer_size))
            (2 ^ e.of.pointer_size - 1)

    pub pointer1 : Enumerator → ℕ → ℕ
    pointer1 e i = pointer e e.of.pointers1_offset i

    pub slow_move : ℕ → Enumerator → Enumerator × (ℕ × ℕ)
    slow_move position e =
        let skip = position - e.position in
        let ptr = position / 2 ^ e.of.log_sampling1 in
        let sampled = bit_array.unary_enumerator e.bv (e.of.higher_bits_offset + pointer1 e ptr) in
        let he =
          if ltb e.position position && (skip / 2 ^ e.of.log_sampling1 == 0)
          then bit_array.skip (skip - 1) e.high_enumerator
          else bit_array.skip (position - ptr * 2 ^ e.of.log_sampling1) sampled in
        if position == e.of.n
        then shown (at_end e)
        else shown (read_next (record e { high_enumerator = he; position = position }))

    pub move : ℕ → Enumerator → Enumerator × (ℕ × ℕ)
    move position e =
        let skip = position - e.position in
        let he = next_times bit_array skip e.high_enumerator in
        let near = if position == e.of.n then at_end e else record e {
          position = position;
          high_enumerator = he;
          value = assemble e (bit_array.unary_position he) position;
        } in
        if position == e.position
        then shown e
        else if ltb e.position position && leb skip linear_scan_threshold
        then shown near
        else slow_move position e

    pub next : Enumerator → Enumerator × (ℕ × ℕ)
    next e =
        let position = e.position + 1 in
        if ltb position e.of.n
        then shown (read_next (record e { position = position }))
        else shown (record e { position = position; value = e.of.universe })

    pub size : Enumerator → ℕ
    size e = e.of.n

    pub position : Enumerator → ℕ
    position e = e.position

    pub prev_value : Enumerator → ℕ
    prev_value e =
        let prev_high =
          if ltb e.position e.of.n
          then bit_array.predecessor1 e.bv (bit_array.unary_position e.high_enumerator - 1)
          else bit_array.predecessor1 e.bv (e.of.lower_bits_offset - 1) in
        if e.position == 0 then 0 else assemble e prev_high (e.position - 1)
