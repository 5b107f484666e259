-- ===== src/Interpolative/Sorted.antt =====
-- Sorted arrays between two bounds have a code, of at most 32 bits for each element.
use ds2i.Base.{
  ℕ, zero, suc, ◌+◌, ◌-◌, ◌/◌, ◌^◌, ◌≤◌, ◌<◌, ◌≡◌, ap, subst, refl, List, [], ◌∷◌, ◌++◌, length,
  length-append, get_elem?, some, drop, arith,
}
use ds2i.Succinct.{Broadword}
use ds2i.Interpolative.Code.{Code, ◌⊕◌, nothing, int_code, Interpolates, empty, middle}

-- Nothing is below `low`, nothing above `high`, and no element is below the one before it.
abbrev pub Ascends : ℕ → List ℕ → ℕ → Type 0
Ascends low [] high = low ≤ high
Ascends low (x ∷ xs) high = (low ≤ x) × Ascends x xs high

pub Ascends-split :
    (low high v : ℕ) (front back : List ℕ)
    → Ascends low (front ++ (v ∷ back)) high
    → Ascends low front v × Ascends v back high
Ascends-split low high v [] back h = h
Ascends-split low high v (x ∷ front) back h =
    let (p, q) = Ascends-split x high v front back h.1 in ((h.0, p), q)

Ascends-le : (low high : ℕ) (xs : List ℕ) → Ascends low xs high → low ≤ high
Ascends-le low high [] h = h
Ascends-le low high (x ∷ xs) h = omega (arith, Ascends-le x high xs h.1)

-- A list taken apart at an index.
module _ {ℓ} {A : Type ℓ} where
  pub record SplitAt (xs : List A) (h : ℕ) : Type ℓ where
    pub front : List A
    pub val : A
    pub back : List A
    pub parts : xs ≡ front ++ (val ∷ back)
    pub length_eq : h ≡ length front

  pub split_at : (xs : List A) (h : ℕ) → h < length xs → SplitAt xs h
  split_at [] h lt = absurd (omega arith)
  split_at (x ∷ xs) zero lt = record {
    front = [];
    val = x;
    back = xs;
    parts = refl;
    length_eq = refl;
  }
  split_at (x ∷ xs) (suc h) lt =
      let s = split_at xs h (omega arith) in
      record {
        front = x ∷ s.front;
        val = s.val;
        back = s.back;
        parts = ap (◌∷◌ x) s.parts;
        length_eq = ap suc s.length_eq;
      }

  pub get_elem?-middle :
      (front back : List A) (v : A) → get_elem? (front ++ (v ∷ back)) (length front) ≡ some v
  get_elem?-middle [] back v = refl
  get_elem?-middle (x ∷ front) back v = get_elem?-middle front back v

  pub drop-middle :
      (front back : List A) (v : A) → drop (suc (length front)) (front ++ (v ∷ back)) ≡ back
  drop-middle [] back v = refl
  drop-middle (x ∷ front) back v = drop-middle front back v

pub length-middle :
    (xs front back : List ℕ) (v : ℕ)
    → xs ≡ front ++ (v ∷ back)
    → length xs ≡ length front + suc (length back)
length-middle xs front back v e =
    omega (arith, ap (length {A = ℕ}) e, length-append front (v ∷ back))

module _ (broadword : Broadword) where
  code_exists :
      (fuel : ℕ) (xs : List ℕ) (low high : ℕ)
      → length xs ≤ fuel
      → Ascends low xs high
      → high + 1 < 2 ^ 32
      → (c : Code) × Interpolates broadword xs low high c
  code_exists fuel [] low high short asc small = (nothing, empty)
  code_exists zero (x ∷ xs) low high short asc small = absurd (omega arith)
  code_exists (suc fuel) (x ∷ xs) low high short asc small =
      let s = split_at (x ∷ xs) (length (x ∷ xs) / 2) (omega arith) in
      let (l, r) =
        Ascends-split low high s.val s.front s.back
          (subst (λ ys. Ascends low ys high) s.parts asc) in
      let n = length-middle (x ∷ xs) s.front s.back s.val s.parts in
      let lo = Ascends-le low s.val s.front l in
      let hi = Ascends-le s.val high s.back r in
      let (c, p) = code_exists fuel s.front low s.val (omega (arith, n)) l (omega (arith, hi)) in
      let (d, q) = code_exists fuel s.back s.val high (omega (arith, n)) r small in
      (
        int_code broadword (s.val - low) (high - low + 1) ⊕ c ⊕ d,
        middle s.parts s.length_eq lo hi small p q refl,
      )

  -- Every sorted array has a code.
  pub Ascends-Interpolates :
      (xs : List ℕ) (low high : ℕ)
      → Ascends low xs high
      → high + 1 < 2 ^ 32
      → (c : Code) × Interpolates broadword xs low high c
  Ascends-Interpolates xs low high = code_exists (length xs) xs low high (omega arith)
