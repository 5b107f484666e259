-- ===== src/Interpolative/Words.antt =====
-- The number that a list of 32-bit words stands for, lowest word first.
use ds2i.Base.{
  ℕ, suc, ◌+◌, ◌-◌, ◌*◌, ◌/◌, ◌%◌, ◌^◌, ◌≤◌, ◌<◌, ◌≡◌, ap, sym, ◌∙◌, List, [], ◌∷◌, ◌++◌, length,
  arith,
}
use native.Mathlib.Nat.{div-add-mod', mod-lt, mul-le-mul_left}
use ds2i.Base.Bits.{two-pow-add, two-pow-pos}

abbrev pub value : List ℕ → ℕ
value [] = 0
value (x ∷ xs) = x + 2 ^ 32 * value xs

pub pow_words : (p l : ℕ) → 2 ^ (p + 32 * suc l) ≡ 2 ^ 32 * 2 ^ (p + 32 * l)
pow_words p l =
    let e : p + 32 * suc l ≡ p + 32 * l + 32 = omega arith in
    ap (λ (t : ℕ). 2 ^ t) e ∙ omega (arith, two-pow-add (p + 32 * l) 32)

pub pow_words_zero : (l : ℕ) → 2 ^ (32 * suc l) ≡ 2 ^ 32 * 2 ^ (32 * l)
pow_words_zero l =
    let e : 32 * suc l ≡ 32 * l + 32 = omega arith in
    ap (λ (t : ℕ). 2 ^ t) e ∙ omega (arith, two-pow-add (32 * l) 32)

pub value-append : (xs ys : List ℕ) → value (xs ++ ys) ≡ value xs + 2 ^ (32 * length xs) * value ys
value-append [] ys = omega arith
value-append (x ∷ xs) ys = rw (pow_words_zero (length xs)) (omega (arith, value-append xs ys))

-- A field above the `k` low bits.
pub field_lt : (k len v bits : ℕ) → v < 2 ^ k → bits < 2 ^ len → v + bits * 2 ^ k < 2 ^ (k + len)
field_lt k len v bits hv hb = rw (two-pow-add k len) (grind arith)

pow_split : (pos : ℕ) → pos ≤ 32 → 2 ^ pos * 2 ^ (32 - pos) ≡ 2 ^ 32
pow_split pos h =
    let e : pos + (32 - pos) ≡ 32 = omega arith in
    sym (two-pow-add pos (32 - pos)) ∙ ap (λ (t : ℕ). 2 ^ t) e

-- A field shifted by `pos` splits into the part that stays in the word and the part that goes
-- into the next one.
pub shift_splits :
    (pos bits : ℕ)
    → pos ≤ 32
    → (bits * 2 ^ pos % 2 ^ 32 ≡ bits % 2 ^ (32 - pos) * 2 ^ pos)
      × (bits * 2 ^ pos / 2 ^ 32 ≡ bits / 2 ^ (32 - pos))
      × (bits % 2 ^ (32 - pos) * 2 ^ pos + 2 ^ pos ≤ 2 ^ 32)
shift_splits pos bits h =
    let c = 2 ^ (32 - pos) in
    let low = bits % c in
    let high = bits / c in
    let whole : bits * 2 ^ pos ≡ high * 2 ^ 32 + low * 2 ^ pos =
      parts low high c (pow_split pos h) (div-add-mod' bits c) in
    let fits : low * 2 ^ pos + 2 ^ pos ≤ 2 ^ 32 =
      below low c (pow_split pos h) (mod-lt bits (two-pow-pos (32 - pos))) in
    (omega (arith, two-pow-pos pos), omega (arith, two-pow-pos pos), fits)
  where
    parts :
        (low high c : ℕ)
        → 2 ^ pos * c ≡ 2 ^ 32
        → high * c + low ≡ bits
        → bits * 2 ^ pos ≡ high * 2 ^ 32 + low * 2 ^ pos
    parts low high c e d = omega (arith, ap (λ (t : ℕ). t * 2 ^ pos) d, ap (λ (t : ℕ). high * t) e)

    below : (low c : ℕ) → 2 ^ pos * c ≡ 2 ^ 32 → low < c → low * 2 ^ pos + 2 ^ pos ≤ 2 ^ 32
    below low c e l = omega (arith, mul-le-mul_left (2 ^ pos) l)
