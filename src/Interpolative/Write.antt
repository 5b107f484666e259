-- ===== src/Interpolative/Write.antt =====
-- `bit_writer`: what a call appends to the bits that the buffer holds.
use ds2i.Base.{
  ℕ, zero, suc, ◌+◌, ◌-◌, ◌*◌, ◌/◌, ◌%◌, ◌^◌, ◌≤◌, ◌<◌, ◌≡◌, ◌≢◌, ap, ◌∙◌, List, [], ◌∷◌, ◌++◌,
  length, arith, ltb, All, All-append, IsU32, length-append, ◌==◌, ==_iff, true, suc_nonzero,
  Bool-cases, inl, inr, ltb→lt,
}
use native.Mathlib.Nat.{mul-le-mul_right, suc-mul, div-le_self}
use ds2i.Base.Bits.{two-pow-add, two-pow_mono, two-pow-pos, bit_or_fields}
use ds2i.Interpolative.{BitWriter, bit_writer, or_back, write}
use ds2i.Interpolative.Words.{value, value-append, pow_words, pow_words_zero, shift_splits}
use ds2i.Interpolative.Code.{Code, ◌⊕◌, nothing, field, Fits, ⊕-Fits, ⊕-nothing}

-- The buffer of 32-bit words holds the string, with no word more than it needs.
pub record Holds (w : BitWriter) (c : Code) : Type 0 where
  pub words : All IsU32 w.buf
  pub value_eq : value w.buf ≡ c.bits
  pub fits : Fits c
  pub size_eq : w.size ≡ c.len
  pub enough : w.size ≤ 32 * length w.buf
  pub tight : 32 * length w.buf < w.size + 32

pub bit_writer-Holds : Holds bit_writer nothing
unfolding bit_writer
bit_writer-Holds = omega arith

-- A field of the last word above the bits in use.
or_back_lem :
    (pos q x : ℕ) (xs : List ℕ)
    → value (x ∷ xs) < 2 ^ (pos + 32 * length xs)
    → q * 2 ^ pos + 2 ^ pos ≤ 2 ^ 32
    → All IsU32 (x ∷ xs)
    → (value (or_back (x ∷ xs) (q * 2 ^ pos)) ≡ value (x ∷ xs) + q * 2 ^ pos * 2 ^ (32 * length xs))
      × All IsU32 (or_back (x ∷ xs) (q * 2 ^ pos))
      × (length (or_back (x ∷ xs) (q * 2 ^ pos)) ≡ suc (length xs))
unfolding or_back
or_back_lem pos q x [] small fits us =
    let same : 2 ^ (pos + 32 * length {A = ℕ} []) ≡ 2 ^ pos = ap (λ (t : ℕ). 2 ^ t) (omega arith) in
    let small' : x < 2 ^ pos = omega (arith, same) in
    (
      omega (arith, bit_or_fields pos q x small'),
      omega (arith, bit_or_fields pos q x small'),
      omega arith,
    )
or_back_lem pos q x (y ∷ ys) small fits us =
    let rest = or_back_lem pos q y ys (omega (arith, pow_words pos (length ys))) fits us.1 in
    (
      rw (pow_words_zero (length ys))
          (omega (arith, rest.0, ap (λ (t : ℕ). q * 2 ^ pos * t) (pow_words_zero (length ys)))),
      (us.0, rest.1),
      omega (arith, rest.2),
    )

-- The size in terms of the words before the last and the bits in use in the last.
at_boundary : (w : BitWriter) {c : Code} → Holds w c → w.size % 32 ≡ 0 → w.size ≡ 32 * length w.buf
at_boundary w h e = omega (arith, h.enough, h.tight)

last_word :
    (size x : ℕ) (xs : List ℕ)
    → size ≤ 32 * length (x ∷ xs)
    → 32 * length (x ∷ xs) < size + 32
    → size % 32 ≢ 0
    → size ≡ size % 32 + 32 * length xs
last_word size x xs enough tight inside = omega arith

-- A write at a word boundary.
push-Holds :
    (w : BitWriter) (c : Code) (bits len : ℕ)
    → Holds w c
    → bits < 2 ^ len
    → len ≤ 32
    → 0 < len
    → w.size % 32 ≡ 0
    → Holds (record { buf = w.buf ++ (bits ∷ []); size = w.size + len }) (c ⊕ field bits len)
push-Holds w c bits len h small short pos e =
    let size = at_boundary w h e in
    let same : 2 ^ (32 * length w.buf) ≡ 2 ^ c.len =
      ap (λ (t : ℕ). 2 ^ t) (omega (arith, size, h.size_eq)) in
    record {
      words = All-append IsU32 w.buf (bits ∷ []) h.words (omega (arith, two-pow_mono short));
      value_eq =
          omega (arith, value-append w.buf (bits ∷ []), h.value_eq, ap (λ (t : ℕ). t * bits) same);
      fits = ⊕-Fits c (field bits len) h.fits small;
      size_eq = omega (arith, h.size_eq);
      enough = omega (arith, length-append w.buf (bits ∷ []), size);
      tight = omega (arith, length-append w.buf (bits ∷ []), size);
    }

-- A field in the free bits of the last word, cut at the end of the word.
filled_lem :
    (size bits x : ℕ) (xs : List ℕ) (c : Code)
    → Holds (record { buf = x ∷ xs; size = size }) c
    → size % 32 ≢ 0
    → (let kept = bits * 2 ^ (size % 32) % 2 ^ 32 in
        (value (or_back (x ∷ xs) kept) ≡ c.bits + kept * 2 ^ (32 * length xs))
        × All IsU32 (or_back (x ∷ xs) kept)
        × (length (or_back (x ∷ xs) kept) ≡ suc (length xs))
        × (2 ^ c.len ≡ 2 ^ (size % 32) * 2 ^ (32 * length xs)))
filled_lem size bits x xs c h inside =
    let pos = size % 32 in
    let (keeps, _, room) = shift_splits pos bits (omega arith) in
    let place = last_word size x xs h.enough h.tight inside in
    let width : 2 ^ c.len ≡ 2 ^ (pos + 32 * length xs) =
      ap (λ (t : ℕ). 2 ^ t) (omega (arith, place, h.size_eq)) in
    let (v, us, l) =
      or_back_lem pos (bits % 2 ^ (32 - pos)) x xs (omega (arith, h.value_eq, h.fits, width)) room
        h.words in
    rw keeps (omega (arith, v, h.value_eq), us, l, width ∙ two-pow-add pos (32 * length xs))

-- A field that fits the free bits of the word is not cut.
no_cut :
    (pos bits len : ℕ) → bits < 2 ^ len → len + pos ≤ 32 → bits * 2 ^ pos % 2 ^ 32 ≡ bits * 2 ^ pos
no_cut pos bits len small fits = omega (
  arith,
  mul-le-mul_right (2 ^ pos) small,
  suc-mul bits (2 ^ pos),
  two-pow-pos pos,
  two-pow-add len pos,
  two-pow_mono fits,
)

-- What the next word gets.
cut_rest :
    (pos bits : ℕ)
    → pos ≤ 32
    → bits * 2 ^ pos ≡ bits * 2 ^ pos % 2 ^ 32 + 2 ^ 32 * (bits / 2 ^ (32 - pos))
cut_rest pos bits h = omega (arith, (shift_splits pos bits h).1)

module _ (size bits len x : ℕ) (xs : List ℕ) (c : Code)
    (h : Holds (record { buf = x ∷ xs; size = size }) c) (small : bits < 2 ^ len) (short : len ≤ 32)
    (inside : size % 32 ≢ 0) where
  filled : List ℕ
  filled = or_back (x ∷ xs) (bits * 2 ^ (size % 32) % 2 ^ 32)

  fill-Holds :
      len ≤ 32 - size % 32 → Holds (record { buf = filled; size = size + len }) (c ⊕ field bits len)
  unfolding filled
  fill-Holds fits =
      let (v, us, l, width) = filled_lem size bits x xs c h inside in
      record {
        words = us;
        value_eq = omega (
          arith,
          v,
          ap (λ (t : ℕ). t * 2 ^ (32 * length xs))
              (no_cut (size % 32) bits len small (omega arith)),
          ap (λ (t : ℕ). bits * t) width,
        );
        fits = ⊕-Fits c (field bits len) h.fits small;
        size_eq = omega (arith, h.size_eq);
        enough = omega (arith, l, h.enough, h.tight);
        tight = omega (arith, l, h.tight);
      }

  split-Holds :
      32 - size % 32 < len
      → Holds
          (record { buf = filled ++ (bits / 2 ^ (32 - size % 32) ∷ []); size = size + len })
          (c ⊕ field bits len)
  unfolding filled
  split-Holds over =
      let (v, us, l, width) = filled_lem size bits x xs c h inside in
      let hi = bits / 2 ^ (32 - size % 32) in
      record {
        words =
            All-append IsU32 _ (hi ∷ []) us
              (omega (arith, div-le_self bits (2 ^ (32 - size % 32)), two-pow_mono short));
        value_eq = omega (
          arith,
          v,
          value-append filled (hi ∷ []),
          ap (λ (t : ℕ). 2 ^ (32 * t) * hi) l,
          ap (λ (t : ℕ). t * hi) (pow_words_zero (length xs)),
          ap (λ (t : ℕ). t * 2 ^ (32 * length xs)) (cut_rest (size % 32) bits (omega arith)),
          ap (λ (t : ℕ). bits * t) width,
        );
        fits = ⊕-Fits c (field bits len) h.fits small;
        size_eq = omega (arith, h.size_eq);
        enough = omega (arith, length-append filled (hi ∷ []), l, h.enough, h.tight);
        tight = omega (arith, length-append filled (hi ∷ []), l, h.tight);
      }

write_buf-Holds :
    (size bits len : ℕ) (buf : List ℕ) (c : Code)
    → Holds (record { buf = buf; size = size }) c
    → bits < 2 ^ len
    → len ≤ 32
    → Holds (write (record { buf = buf; size = size }) bits len) (c ⊕ field bits len)
unfolding write filled
write_buf-Holds size bits zero buf c h small short =
    let e : bits ≡ 0 = omega arith in rw (e, ⊕-nothing c) h
write_buf-Holds size bits (suc len) [] c h small short =
    let e : (size % 32 == 0) ≡ true = (==_iff _ 0).1 (omega (arith, h.enough)) in
    rw (suc_nonzero len, e)
      (push-Holds _ c bits (suc len) h small short (omega arith) (omega (arith, h.enough)))
write_buf-Holds size bits (suc len) (x ∷ xs) c h small short = elim (Bool-cases (size % 32 == 0)) [
  | inl e ↦
      rw (suc_nonzero len, e)
        (push-Holds _ c bits (suc len) h small short (omega arith) ((==_iff _ 0).0 e))
  | inr n ↦
      let inside : size % 32 ≢ 0 = ground arith in
      elim (Bool-cases (ltb (32 - size % 32) (suc len))) [
        | inl over ↦
            rw (suc_nonzero len, n, over)
              (split-Holds size bits (suc len) x xs c h small short inside (ltb→lt _ _ over))
        | inr fits ↦
            rw (suc_nonzero len, n, fits)
              (fill-Holds size bits (suc len) x xs c h small short inside (ground arith))
      ]
]

-- On a buffer that holds a bit string, `write` of a field of at most 32 bits, whose value fits in
-- it, appends the field to the string.
pub write-Holds :
    (w : BitWriter) (c : Code) (bits len : ℕ)
    → Holds w c
    → bits < 2 ^ len
    → len ≤ 32
    → Holds (write w bits len) (c ⊕ field bits len)
write-Holds w c bits len h = write_buf-Holds w.size bits len w.buf c h
