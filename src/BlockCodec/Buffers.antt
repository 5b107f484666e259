-- ===== src/BlockCodec/Buffers.antt =====
-- The buffers of `interpolative_block`: whole bytes read as words, and the sums at their ends.
use native.Mathlib.Nat.{div-add-mod', add-mul-mod_self_left, mod-eq_of_lt}
use ds2i.Base.{
  ℕ, zero, suc, ◌+◌, ◌-◌, ◌*◌, ◌/◌, ◌%◌, ◌^◌, ◌≤◌, ◌<◌, ◌≡◌, ap, sym, ◌∙◌, refl, List, [], ◌∷◌,
  ◌++◌, length, length-append, get_or, set, take, drop, length-take, arith, All, All-append, IsU8,
  IsU32,
}
use ds2i.Base.Bits.{two-pow-add, two-pow_mono}
use ds2i.Interpolative.{BitWriter}
use ds2i.Interpolative.Words.{value}
use ds2i.Interpolative.Code.{Code}
use ds2i.Interpolative.Write.{Holds}
use ds2i.BlockCodec.{bytes_of, words_of, prefix_sums}
use ds2i.BlockCodec.Bytes.{
  byte_value, byte_value-append, byte_value-bytes_of, length-bytes_of, bytes_of-IsU8, take-IsU8,
  byte_value-take, words_of_lem,
}
use ds2i.BlockCodec.Sums.{sum}

-- The low part of a number, read off any number that agrees with it below `p`.
low_part : (p c v x y : ℕ) → c < p → c + p * x ≡ v + p * y → v ≡ c + v / p * p
low_part p c v x y small e =
    let low : v % p ≡ c =
      sym (add-mul-mod_self_left v p y)
      ∙ ap (λ (t : ℕ). t % p) (sym e)
      ∙ add-mul-mod_self_left c p x
      ∙ mod-eq_of_lt small in
    omega (arith, div-add-mod' v p, low)

widen : (a b : ℕ) → a ≤ b → 2 ^ b ≡ 2 ^ a * 2 ^ (b - a)
widen a b h = ap (λ (t : ℕ). 2 ^ t) (omega arith) ∙ two-pow-add a (b - a)

-- The whole bytes of a string, with three bytes or more behind them, begin with it when they are
-- read as words.
module _ (w : BitWriter) (c : Code) (k : ℕ) (rest : List ℕ) (h : Holds w c) (up : w.size ≤ k * 8)
    (near : k * 8 < w.size + 8) (us : All IsU8 rest) where
  abbrev pub bytes : List ℕ
  bytes = take k (bytes_of w.buf)

  pub length-bytes : length bytes ≡ k
  length-bytes = omega (arith, length-take k (bytes_of w.buf), length-bytes_of w.buf, h.enough)

  All-IsU8 : All IsU8 (bytes ++ rest)
  All-IsU8 = All-append IsU8 bytes rest (take-IsU8 k (bytes_of w.buf) (bytes_of-IsU8 w.buf)) us

  fits : byte_value (bytes_of w.buf) < 2 ^ (8 * k)
  fits = omega (
    arith,
    byte_value-bytes_of w.buf h.words,
    h.value_eq,
    h.fits,
    two-pow_mono {a = c.len} {b = 8 * k} (omega (arith, h.size_eq)),
  )

  bytes_eq : byte_value bytes ≡ c.bits
  bytes_eq =
      byte_value-take k (bytes_of w.buf) fits (bytes_of-IsU8 w.buf)
      ∙ byte_value-bytes_of w.buf h.words
      ∙ h.value_eq

  pub words-begin :
      3 ≤ length rest
      → All IsU32 (words_of (bytes ++ rest))
        × (c.len ≤ 32 * length (words_of (bytes ++ rest)))
        × ((above : ℕ) × (value (words_of (bytes ++ rest)) ≡ c.bits + above * 2 ^ c.len))
  words-begin long =
      let (ws, l, (a, e)) = words_of_lem (bytes ++ rest) All-IsU8 in
      let enough : c.len ≤ 32 * length (words_of (bytes ++ rest)) =
        omega (arith, l, length-append bytes rest, length-bytes, h.size_eq) in
      (
        ws,
        enough,
        (
          value (words_of (bytes ++ rest)) / 2 ^ c.len,
          low_part (2 ^ c.len) c.bits _ (2 ^ (8 * length bytes - c.len) * byte_value rest)
              (a * 2 ^ (32 * length (words_of (bytes ++ rest)) - c.len)) h.fits
              (omega (
                arith,
                e,
                bytes_eq,
                byte_value-append bytes rest,
                ap (λ (t : ℕ). t * byte_value rest)
                    (widen c.len (8 * length bytes) (omega (arith, length-bytes, h.size_eq))),
                ap (λ (t : ℕ). a * t) (widen c.len (32 * length (words_of (bytes ++ rest))) enough),
              )),
        ),
      )

-- Without a wrap-around the last prefix sum is the sum of all.
pub record LastSum (x : ℕ) (xs : List ℕ) : Type 0 where
  pub front : List ℕ
  pub parts : prefix_sums 0 (x ∷ xs) ≡ front ++ (sum (x ∷ xs) ∷ [])
  pub length_eq : length front ≡ length xs

prefix_step :
    (acc x : ℕ) (xs : List ℕ)
    → acc + x < 2 ^ 32
    → prefix_sums acc (x ∷ xs) ≡ (acc + x) ∷ prefix_sums (acc + x) xs
unfolding prefix_sums
prefix_step acc x xs small = let e : (acc + x) % 2 ^ 32 ≡ acc + x = omega arith in rw e

last_sum :
    (acc x : ℕ) (xs : List ℕ)
    → acc + sum (x ∷ xs) < 2 ^ 32
    → (front : List ℕ) × (prefix_sums acc (x ∷ xs) ≡ front ++ ((acc + sum (x ∷ xs)) ∷ []))
      × (length front ≡ length xs)
last_sum acc x [] small =
    let whole : acc + (x + 0) ≡ acc + x = omega arith in
    ([], prefix_step acc x [] (omega arith) ∙ rw whole (unfold prefix_sums in refl), refl)
last_sum acc x (y ∷ ys) small =
    let whole : acc + x + (y + sum ys) ≡ acc + (x + (y + sum ys)) = omega arith in
    let (front, p, l) = last_sum (acc + x) y ys (omega arith) in
    (
      (acc + x) ∷ front,
      prefix_step acc x (y ∷ ys) (omega arith)
          ∙ ap (◌∷◌ (acc + x)) p
          ∙ ap (λ t. (acc + x) ∷ (front ++ (t ∷ []))) whole,
      ap suc l,
    )

pub LastSum-of : (x : ℕ) (xs : List ℕ) → sum (x ∷ xs) < 2 ^ 32 → LastSum x xs
LastSum-of x xs small =
    let (front, p, l) = last_sum 0 x xs (omega arith) in
    let zero_add : 0 + sum (x ∷ xs) ≡ sum (x ∷ xs) = omega arith in
    record { front = front; parts = rw zero_add at p; length_eq = l }

pub sum-IsU32 : (xs : List ℕ) → sum xs < 2 ^ 32 → All IsU32 xs
sum-IsU32 [] small = omega arith
sum-IsU32 (x ∷ xs) small = (omega arith, sum-IsU32 xs (omega arith))

pub get_or-last : (front : List ℕ) (v n : ℕ) → length front ≡ n → get_or (front ++ (v ∷ [])) n 0 ≡ v
get_or-last [] v n e = rw (← e)
get_or-last (x ∷ front) v n e = rw (← e) (get_or-last front v (length front) refl)

pub set-last :
    (out : List ℕ) (v n : ℕ)
    → length out ≡ suc n
    → (mid : List ℕ) × (set out n v ≡ mid ++ (v ∷ [])) × (length mid ≡ n)
set-last [] v n e = absurd (omega arith)
set-last (y ∷ []) v n e = let z : n ≡ 0 = omega arith in ([], rw z, sym z)
set-last (y ∷ y' ∷ out) v zero e = absurd (omega arith)
set-last (y ∷ y' ∷ out) v (suc n) e =
    let (mid, p, l) = set-last (y' ∷ out) v n (omega arith) in (y ∷ mid, ap (◌∷◌ y) p, ap suc l)

pub drop-append : (xs ys : List ℕ) (n : ℕ) → length xs ≡ n → drop n (xs ++ ys) ≡ ys
drop-append [] ys n e = rw (← e)
drop-append (x ∷ xs) ys n e = rw (← e) (drop-append xs ys (length xs) refl)
