-- ===== src/Interpolative/Read.antt =====
-- `bit_reader`: what a call takes off the front of the bits that are still to be read.
use native.Mathlib.Nat.{
  add-mul-mod_self_right, mod-eq_of_lt, eq_of_mul-eq-mul_right, div-add-mod', mod-lt,
  div-lt_iff_lt-mul,
}
use ds2i.Base.{
  ℕ, zero, suc, ◌+◌, ◌-◌, ◌*◌, ◌/◌, ◌%◌, ◌^◌, ◌≤◌, ◌<◌, ◌≡◌, ap, sym, ◌∙◌, refl, List, [], ◌∷◌,
  length, arith, ltb, bit_or, All, IsU32, some, Bool-cases, inl, inr, ltb→lt, suc_nonzero,
}
use ds2i.Base.Bits.{two-pow-add, two-pow_mono, two-pow-pos, bit_or_fields, bit_and_mask}
use ds2i.Interpolative.{BitReader, bit_reader, load_word, refill, consume, read, sub32}
use ds2i.Interpolative.Words.{value, field_lt}
use ds2i.Interpolative.Code.{Code, ◌⊕◌, field}

-- The string is what is left: the bits in the buffer, and then the words of the input.
pub record Unread (r : BitReader) (c : Code) : Type 0 where
  pub words : All IsU32 r.input
  pub small : r.buf < 2 ^ r.avail
  pub bits_eq : c.bits ≡ r.buf + 2 ^ r.avail * value r.input
  pub len_eq : c.len ≡ r.avail + 32 * length r.input

-- Between two calls at most 31 bits are in the buffer.
pub record Follows (r : BitReader) (c : Code) : Type 0 where
  pub unread : Unread r c
  pub few : r.avail < 32

pub bit_reader-Follows :
    (input : List ℕ) (c : Code)
    → All IsU32 input
    → c.bits ≡ value input
    → c.len ≡ 32 * length input
    → Follows (bit_reader input) c
unfolding bit_reader
bit_reader-Follows input c us b l = record {
  unread = record {
    words = us;
    small = omega arith;
    bits_eq = omega (arith, b);
    len_eq = omega (arith, l);
  };
  few = omega arith;
}

-- A field and what stands above it are determined by their sum.
fields_unique : (p x y a b : ℕ) → x < p → y < p → x + a * p ≡ y + b * p → (x ≡ y) × (a ≡ b)
fields_unique p x y a b hx hy e =
    let low : x ≡ y =
      sym (mod-eq_of_lt hx)
      ∙ sym (add-mul-mod_self_right x a p)
      ∙ ap (λ (t : ℕ). t % p) e
      ∙ add-mul-mod_self_right y b p
      ∙ mod-eq_of_lt hy in
    (low, eq_of_mul-eq-mul_right p (omega arith) a b (omega (arith, low, e)))

-- The word joins the buffer without loss.
loaded :
    (avail buf word : ℕ)
    → avail < 32
    → buf < 2 ^ avail
    → IsU32 word
    → bit_or buf (word * 2 ^ avail % 2 ^ 64) ≡ buf + word * 2 ^ avail
loaded avail buf word few small w32 =
    let avail_small : avail + 32 ≤ 64 = omega arith in
    let whole : word * 2 ^ avail % 2 ^ 64 ≡ word * 2 ^ avail = omega (
      arith,
      field_lt avail 32 0 word (two-pow-pos avail) w32,
      two-pow_mono {b = 64} (avail_small),
    ) in
    rw whole (bit_or_fields avail word buf small)

load_word_lem :
    (input : List ℕ) (avail buf pos : ℕ) (c : Code)
    → Follows (record { input = input; avail = avail; buf = buf; pos = pos }) c
    → avail < c.len
    → (r' : BitReader) × (load_word (record { input = input; avail = avail; buf = buf; pos = pos })
        ≡ some r')
      × Unread r' c
      × (r'.avail ≡ avail + 32)
      × (r'.pos ≡ pos)
unfolding load_word
load_word_lem [] avail buf pos c f more = absurd (omega (arith, f.unread.len_eq))
load_word_lem (word ∷ rest) avail buf pos c f more =
    let wide : (avail + 32) % 2 ^ 32 ≡ avail + 32 = omega (arith, f.few) in
    let buf' = buf + word * 2 ^ avail in
    (
      record { input = rest; avail = avail + 32; buf = buf'; pos = pos },
      rw (wide, loaded avail buf word f.few f.unread.small f.unread.words.0),
      record {
        words = f.unread.words.1;
        small = field_lt avail 32 buf word f.unread.small f.unread.words.0;
        bits_eq =
            omega (arith, f.unread.bits_eq, ap (λ (t : ℕ). t * value rest) (two-pow-add avail 32));
        len_eq = omega (arith, f.unread.len_eq);
      },
      refl,
      refl,
    )

consume_lem :
    (r : BitReader) (x len : ℕ) (d : Code)
    → Unread r (field x len ⊕ d)
    → x < 2 ^ len
    → len ≤ 32
    → len ≤ r.avail
    → r.avail < len + 32
    → ((consume r len).0 ≡ x) × Follows (consume r len).1 d × ((consume r len).1.pos ≡ r.pos + len)
unfolding consume
consume_lem r x len d h fits short enough few =
    let k = r.avail - len in
    let v = value r.input in
    let width : 2 ^ r.avail ≡ 2 ^ len * 2 ^ k =
      ap (λ (t : ℕ). 2 ^ t) (omega arith) ∙ two-pow-add len k in
    let low = mod-lt r.buf (two-pow-pos len) in
    let (x_eq, d_eq) =
      fields_unique (2 ^ len) x (r.buf % 2 ^ len) d.bits (r.buf / 2 ^ len + 2 ^ k * v) fits low
        (omega (arith, h.bits_eq, div-add-mod' r.buf (2 ^ len), ap (λ (t : ℕ). t * v) width)) in
    let left : sub32 r.avail len ≡ k = omega arith in
    (
      omega (arith, bit_and_mask len r.buf, x_eq, two-pow_mono short),
      rw left (record {
        unread = record {
          words = h.words;
          small = (div-lt_iff_lt-mul (two-pow-pos len)).1 (omega (arith, h.small, width));
          bits_eq = d_eq;
          len_eq = omega (arith, h.len_eq);
        };
        few = omega arith;
      }),
      refl,
    )

-- `refill` makes the bits of the next call available.
refill_lem :
    (r : BitReader) (c : Code) (len : ℕ)
    → Follows r c
    → len ≤ c.len
    → len ≤ 32
    → (r' : BitReader) × (refill r len ≡ some r')
      × Unread r' c
      × (len ≤ r'.avail)
      × (r'.avail < len + 32)
      × (r'.pos ≡ r.pos)
unfolding refill
refill_lem r c len f enough short = elim (Bool-cases (ltb r.avail len)) [
  | inl more ↦
      let (r', e, h, a, p) =
        load_word_lem r.input r.avail r.buf r.pos c f (omega (arith, ltb→lt _ _ more)) in
      (r', rw more e, h, omega (arith, a), omega (arith, a, ltb→lt _ _ more), p)
  | inr fine ↦ (r, rw fine, f.unread, ground arith, omega (arith, f.few), refl)
]

-- Where the bits before a reader begin with a field of at most 32 bits, whose value fits in it,
-- `read` of that many bits returns the value; the bits behind the field stay to be read, and the
-- position grows by the length of the field.
pub read-Follows :
    (r : BitReader) (x len : ℕ) (d : Code)
    → Follows r (field x len ⊕ d)
    → x < 2 ^ len
    → len ≤ 32
    → (r' : BitReader) × (read r len ≡ some (x, r')) × Follows r' d × (r'.pos ≡ r.pos + len)
unfolding read
read-Follows r x zero d f fits short =
    let e : x ≡ 0 = omega arith in
    let unread : Unread r d = record {
      words = f.unread.words;
      small = f.unread.small;
      bits_eq = omega (arith, f.unread.bits_eq);
      len_eq = omega (arith, f.unread.len_eq);
    } in
    (r, rw e, record { unread = unread; few = f.few }, omega arith)
read-Follows r x (suc len) d f fits short =
    let (r₁, e₁, u, a, b, p) =
      refill_lem r (field x (suc len) ⊕ d) (suc len) f (omega arith) short in
    let (v, f', q) = consume_lem r₁ x (suc len) d u fits short a b in
    (
      (consume r₁ (suc len)).1,
      rw (suc_nonzero len, e₁) (ap (λ (t : ℕ). some (t, (consume r₁ (suc len)).1)) v),
      f',
      q ∙ ap (λ (t : ℕ). t + suc len) p,
    )
