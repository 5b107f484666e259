-- ===== src/Memory.antt =====
-- 32-bit words in a buffer of bytes, lowest byte first: `*((uint32_t*)&out[k])`.
use ds2i.Base.{
  ℕ, zero, suc, ◌+◌, ◌-◌, ◌*◌, ◌^◌, ◌≤◌, ◌≡◌, ap, sym, ◌∙◌, refl, Option, none, some, List, [], ◌∷◌,
  ◌++◌, length, length-append, length-take, length-drop, take, drop, arith, All, All-append, IsU8,
  IsU32, leb, if◌then◌else◌, true, ◌⊎◌, inl, inr,
}
use ds2i.BlockCodec.{bytes_of}
use ds2i.BlockCodec.Bytes.{take-IsU8, bytes_of-IsU8, length-bytes_of}

-- `none` is an access behind the buffer.
abbrev pub first_word : List ℕ → Option ℕ
first_word (a ∷ b ∷ c ∷ d ∷ rest) = some (a + 2 ^ 8 * b + 2 ^ 16 * c + 2 ^ 24 * d)
first_word _ = none

abbrev pub load32 : List ℕ → ℕ → Option ℕ
load32 bytes k = first_word (drop k bytes)

unfoldable pub store32 : List ℕ → ℕ → ℕ → Option (List ℕ)
store32 bytes k v =
    if leb (k + 4) (length bytes)
    then some (take k bytes ++ (bytes_of (v ∷ []) ++ drop (k + 4) bytes))
    else none

pub drop-append :
    {A : Type 0} (xs ys : List A) (j : ℕ) → drop (length xs + j) (xs ++ ys) ≡ drop j ys
drop-append [] ys j = ap (λ (t : ℕ). drop t ys) (omega arith)
drop-append (x ∷ xs) ys j =
    let e : suc (length xs) + j ≡ suc (length xs + j) = omega arith in rw e (drop-append xs ys j)

pub take-append_early : (xs ys : List ℕ) (j : ℕ) → j ≤ length xs → take j (xs ++ ys) ≡ take j xs
take-append_early xs ys zero h = refl
take-append_early [] ys (suc j) h = absurd (omega arith)
take-append_early (x ∷ xs) ys (suc j) h = ap (◌∷◌ x) (take-append_early xs ys j (omega arith))

pub drop-append_early :
    (xs ys : List ℕ) (j : ℕ) → j ≤ length xs → drop j (xs ++ ys) ≡ drop j xs ++ ys
drop-append_early xs ys zero h = refl
drop-append_early [] ys (suc j) h = absurd (omega arith)
drop-append_early (x ∷ xs) ys (suc j) h = drop-append_early xs ys j (omega arith)

drop-nil : (k : ℕ) → drop {A = ℕ} k [] ≡ []
drop-nil zero = refl
drop-nil (suc k) = refl

pub drop-drop : (i j : ℕ) (xs : List ℕ) → drop i (drop j xs) ≡ drop (j + i) xs
drop-drop i zero xs = ap (λ (t : ℕ). drop t xs) (omega arith)
drop-drop i (suc j) [] = drop-nil i ∙ sym (drop-nil (suc j + i))
drop-drop i (suc j) (x ∷ xs) =
    let e : suc j + i ≡ suc (j + i) = omega arith in rw e (drop-drop i j xs)

first_word-append : (xs ys : List ℕ) → 4 ≤ length xs → first_word (xs ++ ys) ≡ first_word xs
first_word-append (a ∷ b ∷ c ∷ d ∷ xs) ys h = refl
first_word-append [] ys h = absurd (omega arith)
first_word-append (a ∷ []) ys h = absurd (omega arith)
first_word-append (a ∷ b ∷ []) ys h = absurd (omega arith)
first_word-append (a ∷ b ∷ c ∷ []) ys h = absurd (omega arith)

pub drop-IsU8 : (k : ℕ) (bs : List ℕ) → All IsU8 bs → All IsU8 (drop k bs)
drop-IsU8 zero bs us = us
drop-IsU8 (suc k) [] us = us
drop-IsU8 (suc k) (b ∷ bs) (u, us) = drop-IsU8 k bs us

pub take-append-drop : (n : ℕ) (xs : List ℕ) → take n xs ++ drop n xs ≡ xs
take-append-drop zero xs = refl
take-append-drop (suc n) [] = refl
take-append-drop (suc n) (x ∷ xs) = ap (◌∷◌ x) (take-append-drop n xs)

-- A word within a prefix is read from the prefix.
pub load32-append : (xs ys : List ℕ) (j : ℕ) → j + 4 ≤ length xs → load32 (xs ++ ys) j ≡ load32 xs j
load32-append xs ys j h =
    ap first_word (drop-append_early xs ys j (omega arith))
    ∙ first_word-append (drop j xs) ys (omega (arith, length-drop j xs))

first_word-bytes_of :
    (v : ℕ) (rest : List ℕ) → IsU32 v → first_word (bytes_of (v ∷ []) ++ rest) ≡ some v
unfolding bytes_of
first_word-bytes_of v rest u = ap some (omega arith)

-- What a store in bounds gives.
pub record Stored (bytes : List ℕ) (k v : ℕ) : Type 0 where
  pub result : List ℕ
  pub ran : store32 bytes k v ≡ some result
  pub length_eq : length result ≡ length bytes
  pub here : load32 result k ≡ some v
  pub before : (j : ℕ) → j + 4 ≤ k → load32 result j ≡ load32 bytes j
  pub behind : (j : ℕ) → k + 4 ≤ j → drop j result ≡ drop j bytes
  pub early : (j : ℕ) → j ≤ k → take j result ≡ take j bytes
  pub are_bytes : All IsU8 bytes → All IsU8 result

pub store32-Stored : (bytes : List ℕ) (k v : ℕ) → k + 4 ≤ length bytes → IsU32 v → Stored bytes k v
unfolding store32
store32-Stored bytes k v inside u =
    let front = take k bytes in
    let word = bytes_of (v ∷ []) in
    let rest = drop (k + 4) bytes in
    let l : length front ≡ k = omega (arith, length-take k bytes) in
    let lw : length word ≡ 4 = omega (arith, length-bytes_of (v ∷ [])) in
    let test : leb (k + 4) (length bytes) ≡ true = ground arith in
    let at : drop k (front ++ (word ++ rest)) ≡ word ++ rest =
      ap (λ (t : ℕ). drop t (front ++ (word ++ rest))) (omega (arith, l))
      ∙ drop-append front (word ++ rest) 0 in
    record {
      result = front ++ (word ++ rest);
      ran = rw test;
      length_eq = omega (
        arith,
        length-append front (word ++ rest),
        length-append word rest,
        length-drop (k + 4) bytes,
        l,
        lw,
      );
      here = ap first_word at ∙ first_word-bytes_of v rest u;
      before = λ j h.
          load32-append front (word ++ rest) j (omega (arith, l))
          ∙ sym (load32-append front (drop k bytes) j (omega (arith, l)))
          ∙ ap (λ bs. load32 bs j) (take-append-drop k bytes);
      behind = λ j h.
          ap (λ (t : ℕ). drop t (front ++ (word ++ rest))) (omega (arith, l))
          ∙ drop-append front (word ++ rest) (j - k)
          ∙ ap (λ (t : ℕ). drop t (word ++ rest)) (omega (arith, lw))
          ∙ drop-append word rest (j - k - 4)
          ∙ drop-drop (j - k - 4) (k + 4) bytes
          ∙ ap (λ (t : ℕ). drop t bytes) (omega arith);
      early = λ j h.
          take-append_early front (word ++ rest) j (omega (arith, l))
          ∙ sym (take-append_early front (drop k bytes) j (omega (arith, l)))
          ∙ ap (take j) (take-append-drop k bytes);
      are_bytes = λ us.
          All-append IsU8 front (word ++ rest) (take-IsU8 k bytes us)
            (All-append IsU8 word rest (bytes_of-IsU8 (v ∷ [])) (drop-IsU8 (k + 4) bytes us));
    }

-- Another word is kept.
pub load32-Stored :
    {bytes : List ℕ} {k v : ℕ} (s : Stored bytes k v) (j : ℕ)
    → (j + 4 ≤ k) ⊎ (k + 4 ≤ j)
    → load32 s.result j ≡ load32 bytes j
load32-Stored s j (inl h) = s.before j h
load32-Stored s j (inr h) = ap first_word (s.behind j h)
