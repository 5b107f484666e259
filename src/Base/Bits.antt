-- ===== src/Base/Bits.antt =====
-- `|` of disjoint fields and `&` with a low mask as arithmetic, at every width, and powers of two.
-- Both are read off `digits`, which the native operations stand for, by induction on its count of
-- the digits to go.
use Prim.Native.Nat.{
  ℕ, zero, suc, ◌+◌, ◌-◌, ◌*◌, ◌/◌, ◌%◌, ◌^◌, ◌≤◌, ◌<◌, min, max, bit_and, bit_or, bit_xor, digits,
  differ, bit_and-bitwise, bit_or-bitwise, bit_xor-bitwise,
}
use mathlib.Core.Path.{◌≡◌, refl, sym, ap, ◌∙◌}
use native.Mathlib.Nat.{
  add-mul-mod_self_left, mod-eq_of_lt, mod-lt, div-add-mod, pow-suc, one-le-pow, pow-le-pow_right,
}
use native.Mathlib.Omega.{arith}

-- One more digit in a field is a factor of two.
wider_field : (q k : ℕ) → q * 2 ^ suc k ≡ q * 2 ^ k * 2
wider_field q k = omega (arith, ap (◌*◌ q) (pow-suc 2 k))

digits-max-fields :
    (n k q r : ℕ) → r ≤ n → r < 2 ^ k → digits (λ b. b) max n r (q * 2 ^ k) ≡ q * 2 ^ k + r
digits-max-fields zero k q r below fits = omega arith
digits-max-fields (suc n) k q zero below fits = omega arith
digits-max-fields (suc n) zero q (suc r) below fits = absurd (omega arith)
digits-max-fields (suc n) (suc k) q (suc r) below fits =
    let upper : q * 2 ^ suc k / 2 ≡ q * 2 ^ k = omega (arith, wider_field q k) in
    let lower : q * 2 ^ suc k % 2 ≡ 0 = omega (arith, wider_field q k) in
    let half : suc r / 2 < 2 ^ k = omega (arith, pow-suc 2 k) in
    rw (upper, lower, digits-max-fields n k q (suc r / 2) (omega arith) half)
      (omega (arith, wider_field q k))

-- `r | (q << k)` is a sum when `r` fits `k` bits.
pub bit_or_fields : (k q r : ℕ) → r < 2 ^ k → bit_or r (q * 2 ^ k) ≡ r + q * 2 ^ k
bit_or_fields k q r fits =
    simp bit_or-bitwise (omega (arith, digits-max-fields r k q r (omega arith) fits))

digits-max-zero : (n a : ℕ) → a ≤ n → digits (λ b. b) max n a 0 ≡ a
digits-max-zero zero a below = omega arith
digits-max-zero (suc n) zero below = refl
digits-max-zero (suc n) (suc a) below =
    rw (digits-max-zero n (suc a / 2) (omega arith)) (omega arith)

digits-max-high :
    (n k q a r : ℕ) → a ≡ q * 2 ^ k → a ≤ n → r < 2 ^ k → digits (λ b. b) max n a r ≡ q * 2 ^ k + r
digits-max-high zero k q a r e below fits = omega (arith, e, below)
digits-max-high (suc n) k q zero r e below fits = omega (arith, e)
digits-max-high (suc n) zero q (suc a) r e below fits =
    let none : r ≡ 0 = omega arith in
    rw none (omega (arith, digits-max-zero (suc n) (suc a) below, e))
digits-max-high (suc n) (suc k) q (suc a) r e below fits =
    let upper : suc a / 2 ≡ q * 2 ^ k = omega (arith, wider_field q k, e) in
    let lower : suc a % 2 ≡ 0 = omega (arith, wider_field q k, e) in
    let half : r / 2 < 2 ^ k = omega (arith, pow-suc 2 k) in
    rw (lower, digits-max-high n k q (suc a / 2) (r / 2) upper (omega arith) half)
      (omega (arith, wider_field q k))

-- `(q << k) | r` likewise.
pub bit_or_high : (k q r : ℕ) → r < 2 ^ k → bit_or (q * 2 ^ k) r ≡ q * 2 ^ k + r
bit_or_high k q r fits =
    simp bit_or-bitwise (digits-max-high (q * 2 ^ k) k q (q * 2 ^ k) r refl (omega arith) fits)

digits-min-zero : (n a : ℕ) → digits (λ b. 0) min n a 0 ≡ 0
digits-min-zero zero a = refl
digits-min-zero (suc n) zero = refl
digits-min-zero (suc n) (suc a) = omega (arith, digits-min-zero n (suc a / 2))

pub mod_twice : (a p : ℕ) → 0 < p → a % (p * 2) ≡ a / 2 % p * 2 + a % 2
mod_twice a p pos =
    let whole : a ≡ a / 2 % p * 2 + a % 2 + p * 2 * (a / 2 / p) =
      omega (arith, div-add-mod (a / 2) p) in
    let small : a / 2 % p * 2 + a % 2 < p * 2 = omega (arith, mod-lt (a / 2) pos) in
    ap (λ (t : ℕ). t % (p * 2)) whole
    ∙ add-mul-mod_self_left (a / 2 % p * 2 + a % 2) (p * 2) (a / 2 / p)
    ∙ mod-eq_of_lt small

digits-min-mask : (n k a : ℕ) → a ≤ n → digits (λ b. 0) min n a (2 ^ k - 1) ≡ a % 2 ^ k
digits-min-mask n zero a below = digits-min-zero n a ∙ omega arith
digits-min-mask zero (suc k) a below =
    let none_left : a ≡ 0 = omega arith in
    rw none_left (sym (mod-eq_of_lt (one-le-pow (suc k) 2 (omega arith))))
digits-min-mask (suc n) (suc k) zero below = sym (mod-eq_of_lt (one-le-pow (suc k) 2 (omega arith)))
digits-min-mask (suc n) (suc k) (suc a) below =
    let some_bit : 1 ≤ 2 ^ k = one-le-pow k 2 (omega arith) in
    let upper : (2 ^ suc k - 1) / 2 ≡ 2 ^ k - 1 = omega (arith, pow-suc 2 k) in
    let lower : (2 ^ suc k - 1) % 2 ≡ 1 = omega (arith, pow-suc 2 k) in
    let twice : 2 ^ suc k ≡ 2 ^ k * 2 = omega (arith, pow-suc 2 k) in
    rw (upper, lower, digits-min-mask n k (suc a / 2) (omega arith))
      (omega (arith, mod_twice (suc a) (2 ^ k) some_bit, ap (λ (t : ℕ). suc a % t) twice))

-- A mask of `k` low bits is the remainder by `2 ^ k`.
pub bit_and_mask : (k a : ℕ) → bit_and a (2 ^ k - 1) ≡ a % 2 ^ k
bit_and_mask k a = simp bit_and-bitwise (digits-min-mask a k a (omega arith))

pub two-pow-pos : (k : ℕ) → 1 ≤ 2 ^ k
two-pow-pos k = one-le-pow k 2 (omega arith)

pub two-pow-add : (a b : ℕ) → 2 ^ (a + b) ≡ 2 ^ a * 2 ^ b
two-pow-add a zero = ground arith
two-pow-add a (suc b) =
    let e : a + suc b ≡ suc (a + b) = omega arith in
    rw e (
      omega (
        arith,
        pow-suc 2 (a + b),
        pow-suc 2 b,
        two-pow-add a b,
        ap (λ (t : ℕ). 2 ^ a * t) (pow-suc 2 b),
      ))

pub two-pow_mono : {a b : ℕ} → a ≤ b → 2 ^ a ≤ 2 ^ b
two-pow_mono h = pow-le-pow_right (omega arith) h

digits-differ-zero : (n b : ℕ) → digits (λ b. b) differ n 0 b ≡ b
digits-differ-zero zero b = refl
digits-differ-zero (suc n) b = refl

differ-zero : (x : ℕ) → differ x 0 ≡ x
differ-zero zero = refl
differ-zero (suc x) = refl

digits-differ-high :
    (n k a : ℕ) → a ≤ n → 2 ^ k ≤ a → a < 2 ^ suc k → digits (λ b. b) differ n a (2 ^ k) ≡ a - 2 ^ k
digits-differ-high zero k a below high low = absurd (omega (arith, two-pow-pos k))
digits-differ-high (suc n) k zero below high low = absurd (omega (arith, two-pow-pos k))
digits-differ-high (suc n) zero (suc a) below high low =
    let one : a ≡ 0 = omega arith in rw (one, digits-differ-zero n 0) refl
digits-differ-high (suc n) (suc k) (suc a) below high low =
    let upper : 2 ^ suc k / 2 ≡ 2 ^ k = omega (arith, pow-suc 2 k) in
    let lower : 2 ^ suc k % 2 ≡ 0 = omega (arith, pow-suc 2 k) in
    let half_high : 2 ^ k ≤ suc a / 2 = omega (arith, pow-suc 2 k) in
    let half_low : suc a / 2 < 2 ^ suc k = omega (arith, pow-suc 2 (suc k)) in
    rw
      (
        upper,
        lower,
        digits-differ-high n k (suc a / 2) (omega arith) half_high half_low,
        differ-zero (suc a % 2),
      )
      (omega (arith, pow-suc 2 k))

-- `^` with the highest bit takes it off.
pub bit_xor_high : (k a : ℕ) → 2 ^ k ≤ a → a < 2 ^ (k + 1) → bit_xor a (2 ^ k) ≡ a - 2 ^ k
bit_xor_high k a high low =
    let e : k + 1 ≡ suc k = omega arith in
    simp bit_xor-bitwise (digits-differ-high a k a (omega arith) high (rw e at low))
