-- ===== src/Chunks.antt =====
-- Where chunks of bytes start, one behind the other.
pub mod Endpoints
use ds2i.Base.{
  ℕ, zero, suc, ◌+◌, ◌≤◌, ◌<◌, ◌≡◌, ap, sym, ◌∙◌, refl, List, [], ◌∷◌, ◌++◌, length, length-append,
  take, tabulate, All, arith,
}

module _ {A : Type 0} where
  abbrev pub concat : List (List A) → List A
  concat [] = []
  concat (c ∷ cs) = c ++ concat cs

  abbrev pub offset : List (List A) → ℕ → ℕ
  offset cs zero = 0
  offset [] (suc i) = 0
  offset (c ∷ cs) (suc i) = length c + offset cs i

  -- Where the chunks end, from a place on.
  abbrev pub ends : ℕ → List (List A) → List ℕ
  ends from [] = []
  ends from (c ∷ cs) = (from + length c) ∷ ends (from + length c) cs

  pub length-ends : (from : ℕ) (cs : List (List A)) → length (ends from cs) ≡ length cs
  length-ends from [] = refl
  length-ends from (c ∷ cs) = ap suc (length-ends (from + length c) cs)

  take-ends :
      (f : ℕ → ℕ) (i from : ℕ) (cs : List (List A))
      → ((j : ℕ) → j < length cs → f (i + j) ≡ from + offset cs j)
      → take (length cs) (from ∷ ends from cs) ≡ tabulate f i (length cs)
  take-ends f i from [] h = refl
  take-ends f i from (c ∷ cs) h =
      let here : f i ≡ from = ap f (omega arith) ∙ h 0 (omega arith) ∙ omega arith in
      let rest =
        take-ends f (suc i) (from + length c) cs
          (λ j less. ap f (omega arith) ∙ h (suc j) (omega arith) ∙ omega arith) in
      rw here (ap (◌∷◌ from) rest)

  pub starts :
      (cs : List (List A)) → take (length cs) (0 ∷ ends 0 cs) ≡ tabulate (offset cs) 0 (length cs)
  starts cs = take-ends (offset cs) 0 0 cs (λ j less.
      let whole : 0 + offset cs j ≡ offset cs j = omega arith in
      let at : 0 + j ≡ j = omega arith in ap (offset cs) at ∙ sym whole)

  pub offset-ordered :
      (cs : List (List A)) (i : ℕ) → suc i < length cs → offset cs i ≤ offset cs (suc i)
  offset-ordered [] i h = absurd (omega arith)
  offset-ordered (c ∷ cs) zero h = omega arith
  offset-ordered (c ∷ cs) (suc i) h = omega (arith, offset-ordered cs i (omega arith))

  pub offset-inside :
      (cs : List (List A)) (i : ℕ)
      → All (λ c. 0 < length c) cs
      → i < length cs
      → offset cs i < length (concat cs)
  offset-inside [] i pos h = absurd (omega arith)
  offset-inside (c ∷ cs) zero (pos, _) h = omega (arith, length-append c (concat cs), pos)
  offset-inside (c ∷ cs) (suc i) (_, pos) h =
      omega (arith, length-append c (concat cs), offset-inside cs i pos (omega arith))
