-- ===== src/BlockCodec/Sums.antt =====
-- The prefix sums of a block, and the loop that takes them back.
use ds2i.Base.{
  ℕ, zero, suc, ◌+◌, ◌%◌, ◌^◌, ◌<◌, ◌≡◌, ap, ◌∙◌, refl, List, [], ◌∷◌, length, get_or, set, arith,
  All, IsU32,
}
use ds2i.Interpolative.{sub32}
use ds2i.Interpolative.Sorted.{Ascends}
use ds2i.BlockCodec.{prefix_sums, subtract_loop}

abbrev pub sum : List ℕ → ℕ
sum [] = 0
sum (x ∷ xs) = x + sum xs

-- Without a wrap-around the prefix sums ascend to the sum of all.
pub prefix_sums-Ascends :
    (acc : ℕ) (xs : List ℕ)
    → acc + sum xs < 2 ^ 32
    → Ascends acc (prefix_sums acc xs) (acc + sum xs)
unfolding prefix_sums
prefix_sums-Ascends acc [] fits = omega arith
prefix_sums-Ascends acc (x ∷ xs) fits =
    let e : (acc + x) % 2 ^ 32 ≡ acc + x = omega arith in
    let whole : acc + (x + sum xs) ≡ acc + x + sum xs = omega arith in
    rw (e, whole) (omega arith, prefix_sums-Ascends (acc + x) xs (omega arith))

length-prefix_sums : (acc : ℕ) (xs : List ℕ) → length (prefix_sums acc xs) ≡ length xs
unfolding prefix_sums
length-prefix_sums acc [] = refl
length-prefix_sums acc (x ∷ xs) = ap suc (length-prefix_sums ((acc + x) % 2 ^ 32) xs)

differences : ℕ → List ℕ → List ℕ
differences acc [] = []
differences acc (x ∷ xs) = sub32 x acc ∷ differences x xs

-- The differences of the prefix sums are the values, with wrap-around too.
differences-prefix_sums :
    (acc : ℕ) (xs : List ℕ)
    → acc < 2 ^ 32
    → All IsU32 xs
    → differences acc (prefix_sums acc xs) ≡ xs
unfolding differences prefix_sums
differences-prefix_sums acc [] small us = refl
differences-prefix_sums acc (x ∷ xs) small (u, us) =
    let back : sub32 ((acc + x) % 2 ^ 32) acc ≡ x = omega arith in
    rw (back, differences-prefix_sums ((acc + x) % 2 ^ 32) xs (omega arith) us)

-- The last round works on the first two elements.
last_round : List ℕ → List ℕ
last_round out = set out 1 (sub32 (get_or out 1 0) (get_or out 0 0))

subtract_loop-shift :
    (i y : ℕ) (zs : List ℕ) → subtract_loop (suc i) (y ∷ zs) ≡ last_round (y ∷ subtract_loop i zs)
unfolding subtract_loop last_round
subtract_loop-shift zero y zs = refl
subtract_loop-shift (suc i) y zs =
    subtract_loop-shift i y (set zs (suc i) (sub32 (get_or zs (suc i) 0) (get_or zs i 0)))

subtract_loop-differences :
    (z : ℕ) (rest : List ℕ) → subtract_loop (length rest) (z ∷ rest) ≡ z ∷ differences z rest
unfolding last_round differences
subtract_loop-differences z [] = unfold subtract_loop in refl
subtract_loop-differences z (y ∷ rest) =
    subtract_loop-shift (length rest) z (y ∷ rest)
    ∙ ap (λ t. last_round (z ∷ t)) (subtract_loop-differences y rest)

-- The loop takes prefix sums back to the values.
pub subtract_loop-prefix_sums :
    (x : ℕ) (xs : List ℕ)
    → All IsU32 (x ∷ xs)
    → subtract_loop (length xs) (prefix_sums 0 (x ∷ xs)) ≡ x ∷ xs
unfolding prefix_sums
subtract_loop-prefix_sums x xs (u, us) =
    let first : (0 + x) % 2 ^ 32 ≡ x = omega arith in
    let n = length-prefix_sums x xs in
    rw (
      first,
      ← n,
      subtract_loop-differences x (prefix_sums x xs),
      differences-prefix_sums x xs u us,
    )
