-- ===== src/IntegerCodes.antt =====
-- integer_codes.hpp: the gamma and delta codes of Elias in a bit vector.
pub mod RoundTrip
mod Tests
use ds2i.Base.{ℕ, ◌+◌, ◌-◌, ◌%◌, ◌^◌, bit_or, bit_xor}
use ds2i.Succinct.{Broadword, BitVector}
use ds2i.Sequence.{sub64}

module _ (broadword : Broadword) (bit_vector : BitVector) where
  open broadword use {msb}
  open bit_vector use {Builder, Enumerator, append_bits, take, skip_zeros}

  pub write_gamma : ℕ → Builder → Builder
  write_gamma n bvb =
      let nn = (n + 1) % 2 ^ 64 in
      let l = msb nn in
      let hb = 2 ^ l % 2 ^ 64 in append_bits (bit_xor nn hb) l (append_bits hb (l + 1) bvb)

  pub write_gamma_nonzero : ℕ → Builder → Builder
  write_gamma_nonzero n bvb = write_gamma (sub64 n 1) bvb

  pub read_gamma : Enumerator → Enumerator × ℕ
  read_gamma it =
      let (it', l) = skip_zeros it in
      let (it'', low) = take l it' in (it'', sub64 (bit_or low (2 ^ l % 2 ^ 64)) 1)

  pub read_gamma_nonzero : Enumerator → Enumerator × ℕ
  read_gamma_nonzero it = let (it', n) = read_gamma it in (it', (n + 1) % 2 ^ 64)

  pub write_delta : ℕ → Builder → Builder
  write_delta n bvb =
      let nn = (n + 1) % 2 ^ 64 in
      let l = msb nn in let hb = 2 ^ l % 2 ^ 64 in append_bits (bit_xor nn hb) l (write_gamma l bvb)

  pub read_delta : Enumerator → Enumerator × ℕ
  read_delta it =
      let (it', l) = read_gamma it in
      let (it'', low) = take l it' in (it'', sub64 (bit_or low (2 ^ l % 2 ^ 64)) 1)
