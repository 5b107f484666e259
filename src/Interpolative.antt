-- ===== src/Interpolative.antt =====
-- interpolative_coding.hpp: a writer and a reader of bit fields over 32-bit words, and binary
-- interpolative coding of a sorted array on top of them.
pub mod Words
pub mod Code
pub mod Write
pub mod Read
pub mod Ints
pub mod Sorted
pub mod Arrays
pub mod Decode
pub mod RoundTrip
mod Tests
use ds2i.Base.{
  ℕ, zero, suc, ◌+◌, ◌-◌, ◌*◌, ◌/◌, ◌%◌, ◌^◌, bit_and, bit_or, Option, none, some, List, [], ◌∷◌,
  ◌++◌, ltb, leb, ◌==◌, if◌then◌else◌, ◌>>=◌, get_elem?, set, drop,
}
use ds2i.Succinct.{Broadword}

-- `m_cur_word` is left out: after a call it is `&m_buf.back()`, and it is read only then.
pub record BitWriter : Type 0 where
  pub buf : List ℕ
  pub size : ℕ

-- The constructor, which clears the buffer.
pub bit_writer : BitWriter
bit_writer = record { buf = []; size = 0 }

-- `*m_cur_word |= bits`
or_back : List ℕ → ℕ → List ℕ
or_back [] bits = []
or_back (x ∷ []) bits = bit_or x bits ∷ []
or_back (x ∷ y ∷ ys) bits = x ∷ or_back (y ∷ ys) bits

pub write : BitWriter → ℕ → ℕ → BitWriter
write w bits len =
    let pos_in_word = w.size % 32 in
    let filled = or_back w.buf (bits * 2 ^ pos_in_word % 2 ^ 32) in
    let size' = w.size + len in
    if len == 0
    then w
    else if pos_in_word == 0
    then record { buf = w.buf ++ (bits ∷ []); size = size' }
    else if ltb (32 - pos_in_word) len
    then record { buf = filled ++ (bits / 2 ^ (32 - pos_in_word) ∷ []); size = size' }
    else record { buf = filled; size = size' }

-- uint32_t subtraction.
abbrev pub sub32 : ℕ → ℕ → ℕ
sub32 a b = (a + 2 ^ 32 - b) % 2 ^ 32

-- `m_in` is the list of the words that it points to; there are `m_avail` unread bits in `m_buf`.
pub record BitReader : Type 0 where
  pub input : List ℕ
  pub avail : ℕ
  pub buf : ℕ
  pub pos : ℕ

pub bit_reader : List ℕ → BitReader
bit_reader input = record { input = input; avail = 0; buf = 0; pos = 0 }

-- The next word joins the buffer; `none` is a read behind the words.
load_word : BitReader → Option BitReader
load_word r = elim r.input [
  | [] ↦ none
  | word ∷ rest ↦ some (record r {
    input = rest;
    avail = (r.avail + 32) % 2 ^ 32;
    buf = bit_or r.buf (word * 2 ^ r.avail % 2 ^ 64);
  })
]

refill : BitReader → ℕ → Option BitReader
refill r len = if ltb r.avail len then load_word r else some r

-- The low `len` bits leave the buffer.
consume : BitReader → ℕ → ℕ × BitReader
consume r len = (
  bit_and r.buf (2 ^ len - 1) % 2 ^ 32,
  record r { avail = sub32 r.avail len; buf = r.buf / 2 ^ len; pos = r.pos + len },
)

pub read : BitReader → ℕ → Option (ℕ × BitReader)
read r len = if len == 0 then some (0, r) else do r' ← refill r len; some (consume r' len)

module _ (broadword : Broadword) where
  open broadword use {msb}

  -- `uint64_t m = (uint64_t(1) << (b + 1)) - u`
  abbrev pub short_codes : ℕ → ℕ
  short_codes u = (2 ^ (msb u + 1) + 2 ^ 64 - u) % 2 ^ 64

  pub write_int : BitWriter → ℕ → ℕ → BitWriter
  write_int w val u =
      let m = short_codes u in
      let val' = (val + m) % 2 ^ 32 in
      if ltb val m
      then write w val (msb u)
      else write (write w (val' / 2) (msb u)) (bit_and val' 1) 1

  -- The body of `if (val >= m)`: one more bit, for the longer codes.
  read_long : BitReader → ℕ → ℕ → Option (ℕ × BitReader)
  read_long r val m = do
    (bit, r') ← read r 1
    some (((val * 2 % 2 ^ 32 + bit) % 2 ^ 32 + 2 ^ 64 - m) % 2 ^ 64 % 2 ^ 32, r')

  pub read_int : BitReader → ℕ → Option (ℕ × BitReader)
  read_int r u = do
    (val, r') ← read r (msb u)
    if leb (short_codes u) val then read_long r' val (short_codes u) else some (val, r')

  -- `in` is the array from the pointer on. `none` is a read behind it; the fuel is enough if it
  -- is `n` or more.
  pub write_interpolative : ℕ → BitWriter → List ℕ → ℕ → ℕ → ℕ → Option BitWriter
  write_interpolative zero w input n low high = if n == 0 then some w else none
  write_interpolative (suc fuel) w input n low high =
      let h = n / 2 in
      let rest = do
        val ← get_elem? input h
        w' ←
            write_interpolative fuel (write_int w (sub32 val low) ((sub32 high low + 1) % 2 ^ 32))
              input h low val
        write_interpolative fuel w' (drop (h + 1) input) (n - h - 1) val high
      in if n == 0 then some w else rest

  -- `out` is the whole array and `off` the index that the pointer stands for.
  pub read_interpolative : ℕ → BitReader → List ℕ → ℕ → ℕ → ℕ → ℕ → Option (List ℕ × BitReader)
  read_interpolative zero r out off n low high = none
  read_interpolative (suc fuel) r out off n low high =
      let h = n / 2 in
      do
        (delta, r₀) ← read_int r ((sub32 high low + 1) % 2 ^ 32)
        let val = (low + delta) % 2 ^ 32
        let out₀ = set out (off + h) val
        let left = if h == 0 then some (out₀, r₀) else read_interpolative fuel r₀ out₀ off h low val
        let right = λ (p : List ℕ × BitReader).
            if n - h - 1 == 0
            then some p
            else read_interpolative fuel p.1 p.0 (off + h + 1) (n - h - 1) val high
        if n == 1 then some (out₀, r₀) else (left >>= right)
