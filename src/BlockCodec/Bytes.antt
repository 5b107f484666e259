-- ===== src/BlockCodec/Bytes.antt =====
-- The number that a list of bytes stands for, and the words in it.
use ds2i.Base.{
  ℕ, zero, suc, ◌+◌, ◌*◌, ◌^◌, ◌<◌, ◌≡◌, ap, ◌∙◌, List, [], ◌∷◌, ◌++◌, length, take, arith, All,
  IsU8, IsU32,
}
use ds2i.Base.Bits.{two-pow-add}
use ds2i.Interpolative.Words.{value, pow_words_zero}
use ds2i.BlockCodec.{bytes_of, words_of}

abbrev pub byte_value : List ℕ → ℕ
byte_value [] = 0
byte_value (b ∷ bs) = b + 2 ^ 8 * byte_value bs

pow_bytes : (l : ℕ) → 2 ^ (8 * suc l) ≡ 2 ^ 8 * 2 ^ (8 * l)
pow_bytes l =
    let e : 8 * suc l ≡ 8 * l + 8 = omega arith in
    ap (λ (t : ℕ). 2 ^ t) e ∙ omega (arith, two-pow-add (8 * l) 8)

pub byte_value-append :
    (xs ys : List ℕ) → byte_value (xs ++ ys) ≡ byte_value xs + 2 ^ (8 * length xs) * byte_value ys
byte_value-append [] ys = omega arith
byte_value-append (x ∷ xs) ys = rw (pow_bytes (length xs)) (omega (arith, byte_value-append xs ys))

pub byte_value-bytes_of : (ws : List ℕ) → All IsU32 ws → byte_value (bytes_of ws) ≡ value ws
unfolding bytes_of
byte_value-bytes_of [] us = omega arith
byte_value-bytes_of (w ∷ ws) (u, us) = omega (arith, byte_value-bytes_of ws us)

pub length-bytes_of : (ws : List ℕ) → length (bytes_of ws) ≡ 4 * length ws
unfolding bytes_of
length-bytes_of [] = omega arith
length-bytes_of (w ∷ ws) = omega (arith, length-bytes_of ws)

pub bytes_of-IsU8 : (ws : List ℕ) → All IsU8 (bytes_of ws)
unfolding bytes_of
bytes_of-IsU8 [] = omega arith
bytes_of-IsU8 (w ∷ ws) =
    (omega arith, (omega arith, (omega arith, (omega arith, bytes_of-IsU8 ws))))

pub take-IsU8 : (k : ℕ) (bs : List ℕ) → All IsU8 bs → All IsU8 (take k bs)
take-IsU8 zero bs us = omega arith
take-IsU8 (suc k) [] us = omega arith
take-IsU8 (suc k) (b ∷ bs) (u, us) = (u, take-IsU8 k bs us)

-- A prefix keeps the value, if the value fits it.
pub byte_value-take :
    (k : ℕ) (bs : List ℕ)
    → byte_value bs < 2 ^ (8 * k)
    → All IsU8 bs
    → byte_value (take k bs) ≡ byte_value bs
byte_value-take zero bs fits us = omega arith
byte_value-take (suc k) [] fits us = omega arith
byte_value-take (suc k) (b ∷ bs) fits (u, us) =
    omega (arith, byte_value-take k bs (omega (arith, pow_bytes k)) us)

-- The whole words are the low part of the value, and at most three bytes are left over.
pub words_of_lem :
    (bs : List ℕ)
    → All IsU8 bs
    → All IsU32 (words_of bs)
      × (length bs < 4 * length (words_of bs) + 4)
      × ((above : ℕ) × (byte_value bs
            ≡ value (words_of bs) + above * 2 ^ (32 * length (words_of bs))))
unfolding words_of
words_of_lem [] us = (omega arith, omega arith, (0, omega arith))
words_of_lem (a ∷ []) us = (omega arith, omega arith, (a, omega arith))
words_of_lem (a ∷ b ∷ []) us = (omega arith, omega arith, (byte_value (a ∷ b ∷ []), omega arith))
words_of_lem (a ∷ b ∷ c ∷ []) us =
    (omega arith, omega arith, (byte_value (a ∷ b ∷ c ∷ []), omega arith))
words_of_lem (a ∷ b ∷ c ∷ d ∷ rest) us =
    let (ws, l, (above, e)) = words_of_lem rest us.1.1.1.1 in
    (
      (omega arith, ws),
      omega (arith, l),
      (
        above,
        rw (pow_words_zero (length (words_of rest)))
            (omega (arith, e, ap (λ (t : ℕ). above * t) (pow_words_zero (length (words_of rest))))),
      ),
    )
