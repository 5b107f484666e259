-- ===== src/Interpolative/Decode.antt =====
-- `read_interpolative` against the code of a sorted array.
use ds2i.Base.{
  ℕ, zero, suc, ◌+◌, ◌-◌, ◌/◌, ◌%◌, ◌^◌, ◌≤◌, ◌<◌, ◌≡◌, ap, subst, refl, ◌∙◌, List, [], ◌∷◌, ◌++◌,
  length, length-append, set, some, Option, arith, append_assoc, ◌==◌, if◌then◌else◌, true, false,
  Bool-cases, inl, inr,
}
use ds2i.Succinct.{Broadword}
use ds2i.Interpolative.{BitReader, read_int, read_interpolative}
use ds2i.Interpolative.Code.{Code, ◌⊕◌, int_code, Interpolates, empty, middle, ⊕_assoc, nothing-⊕}
use ds2i.Interpolative.Read.{Follows}
use ds2i.Interpolative.Ints.{read_int-Follows}
use ds2i.Interpolative.Sorted.{length-middle, SplitAt, split_at}
use ds2i.Interpolative.Arrays.{span_eq, ⊕_regroup}

-- Where the middle element and the two parts stand in the array.
open_left :
    (pre front mid back post : List ℕ) (y : ℕ)
    → mid ≡ front ++ (y ∷ back)
    → pre ++ (mid ++ post) ≡ (pre ++ front) ++ (y ∷ (back ++ post))
open_left pre front mid back post y e = rw e (simp append_assoc)

open_right :
    (pre front post : List ℕ) (v : ℕ)
    → pre ++ (front ++ (v ∷ post)) ≡ (pre ++ (front ++ (v ∷ []))) ++ post
open_right pre front post v = simp append_assoc

length_before :
    (pre front : List ℕ) (v : ℕ)
    → length (pre ++ (front ++ (v ∷ []))) ≡ length pre + length front + 1
length_before pre front v =
    omega (arith, length-append pre (front ++ (v ∷ [])), length-append front (v ∷ []))

set-middle : (a b : List ℕ) (y v k : ℕ) → k ≡ length a → set (a ++ (y ∷ b)) k v ≡ a ++ (v ∷ b)
set-middle [] b y v k e = rw e
set-middle (x ∷ a) b y v k e = rw e (ap (◌∷◌ x) (set-middle a b y v (length a) refl))

placed_eq : (low val : ℕ) → low ≤ val → val < 2 ^ 32 → (low + (val - low)) % 2 ^ 32 ≡ val
placed_eq low val le small = omega arith

not_empty : (xs front back : List ℕ) (v : ℕ) → xs ≡ front ++ (v ∷ back) → (length xs == 0) ≡ false
not_empty xs front back v e = ground (arith, length-middle xs front back v e)

module _ (broadword : Broadword) where
  -- A part is read only if it is not empty.
  abbrev pub read_part : ℕ → BitReader → List ℕ → ℕ → ℕ → ℕ → ℕ → Option (List ℕ × BitReader)
  read_part fuel r out off n low high =
      if n == 0 then some (out, r) else read_interpolative broadword fuel r out off n low high

  -- One level of the recursion, from the outcome of each call.
  read_step :
      (fuel n h off low high val : ℕ) (out out₁ out₂ : List ℕ) (r r₀ r₁ r₂ : BitReader)
      → n / 2 ≡ h
      → 0 < n
      → low ≤ val
      → val ≤ high
      → high + 1 < 2 ^ 32
      → read_int broadword r (high - low + 1) ≡ some (val - low, r₀)
      → read_part fuel r₀ (set out (off + h) val) off h low val ≡ some (out₁, r₁)
      → read_part fuel r₁ out₁ (off + h + 1) (n - h - 1) val high ≡ some (out₂, r₂)
      → read_interpolative broadword (suc fuel) r out off n low high ≡ some (out₂, r₂)
  unfolding read_interpolative
  read_step fuel n h off low high val out out₁ out₂ r r₀ r₁ r₂ half pos lo hi small int left right =
      elim (Bool-cases (n == 1)) [
        | inl one ↦
            let none_left : (h == 0) ≡ true = ground arith in
            let none_right : (n - h - 1 == 0) ≡ true = ground arith in
            rw
              (
                half,
                span_eq low high (omega arith) small,
                int,
                placed_eq low val lo (omega arith),
                one,
              )
              ((rw none_left at left) ∙ (rw none_right at right))
        | inr many ↦
            rw
              (
                half,
                span_eq low high (omega arith) small,
                int,
                placed_eq low val lo (omega arith),
                many,
                left,
              )
              right
      ]

  read_middle :
      (fuel low high val : ℕ) (xs front back pre mid post : List ℕ) (m : SplitAt mid (length front))
      (r r₀ r₁ r₂ : BitReader)
      → xs ≡ front ++ (val ∷ back)
      → length xs / 2 ≡ length front
      → low ≤ val
      → val ≤ high
      → high + 1 < 2 ^ 32
      → read_int broadword r (high - low + 1) ≡ some (val - low, r₀)
      → read_part fuel r₀
          (pre ++ (m.front ++ (val ∷ (m.back ++ post))))
          (length pre)
          (length front)
          low
          val
        ≡ some (pre ++ (front ++ (val ∷ (m.back ++ post))), r₁)
      → read_part fuel r₁
          ((pre ++ (front ++ (val ∷ []))) ++ (m.back ++ post))
          (length (pre ++ (front ++ (val ∷ []))))
          (length back)
          val
          high
        ≡ some ((pre ++ (front ++ (val ∷ []))) ++ (back ++ post), r₂)
      → read_interpolative broadword
          (suc fuel)
          r
          (pre ++ (mid ++ post))
          (length pre)
          (length xs)
          low
          high
        ≡ some (pre ++ (xs ++ post), r₂)
  read_middle fuel low high val xs front back pre mid post m r r₀ r₁ r₂ parts half lo hi small int
        left right =
      read_step fuel (length xs) (length front) (length pre) low high val _ _ _ r r₀ r₁ r₂ half
        (omega (arith, n)) lo hi small int (rw placed left) right'
    where
      n : length xs ≡ length front + suc (length back)
      n = length-middle xs front back val parts

      rest : length xs - length front - 1 ≡ length back
      rest = omega (arith, n)

      placed :
          set (pre ++ (mid ++ post)) (length pre + length front) val
          ≡ pre ++ (m.front ++ (val ∷ (m.back ++ post)))
      placed = rw (open_left pre m.front mid m.back post m.val m.parts) (
          set-middle (pre ++ m.front) (m.back ++ post) m.val val _
            (omega (arith, length-append pre m.front, m.length_eq))
          ∙ append_assoc pre m.front (val ∷ (m.back ++ post)))

      final : (pre ++ (front ++ (val ∷ []))) ++ (back ++ post) ≡ pre ++ (xs ++ post)
      final = rw parts (simp append_assoc)

      right' :
          read_part fuel r₁
            (pre ++ (front ++ (val ∷ (m.back ++ post))))
            (length pre + length front + 1)
            (length xs - length front - 1)
            val
            high
          ≡ some (pre ++ (xs ++ post), r₂)
      right' =
          rw
            (
              rest,
              open_right pre front (m.back ++ post) val,
              ← length_before pre front val,
              ← final,
            )
            right

  -- `read_interpolative` puts the elements that the code stands for into its part of the array,
  -- leaves the rest of the array alone, and takes the bits of the code off.
  pub read_part-Follows :
      (fuel : ℕ) {xs : List ℕ} {low high : ℕ} {c : Code}
      → Interpolates broadword xs low high c
      → length xs ≤ fuel
      → (r : BitReader) (d : Code) (pre mid post : List ℕ) → length mid ≡ length xs
      → Follows r (c ⊕ d)
      → (r' : BitReader) × (read_part fuel r
            (pre ++ (mid ++ post))
            (length pre)
            (length xs)
            low
            high
          ≡ some (pre ++ (xs ++ post), r'))
        × Follows r' d
        × (r'.pos ≡ r.pos + c.len)
  read_part-Follows fuel empty short r d pre [] post same f =
      (r, refl, subst (Follows r) (nothing-⊕ d) f, omega arith)
  read_part-Follows fuel empty short r d pre (y ∷ mid) post same f = absurd (omega arith)
  read_part-Follows zero
        (middle {val = val} {front = front} {back = back} {xs = xs} parts half lo hi small p q e)
        short r d pre mid post same f =
      absurd (omega (arith, length-middle xs front back val parts))
  read_part-Follows (suc fuel)
        (middle {low = low} {high = high} {val = val} {front = front} {back = back} {xs = xs}
          {c = c} {d = c'} parts half lo hi small p q e)
        short r d pre mid post same f =
      let n = length-middle xs front back val parts in
      let m = split_at mid (length front) (omega (arith, n)) in
      let k = length-middle mid m.front m.back m.val m.parts in
      let code = int_code broadword (val - low) (high - low + 1) in
      let f' : Follows r (code ⊕ (c ⊕ (c' ⊕ d))) =
        subst (Follows r)
          (ap (λ t. t ⊕ d) e ∙ ⊕_regroup code c c' d ∙ ap (◌⊕◌ code) (⊕_assoc c c' d)) f in
      let (r₀, e₀, f₀, p₀) =
        read_int-Follows broadword r (c ⊕ (c' ⊕ d)) (val - low) (high - low + 1) f' (omega arith)
          (omega arith) in
      let (r₁, e₁, f₁, p₁) =
        read_part-Follows fuel p (omega (arith, n)) r₀ (c' ⊕ d) pre m.front (val ∷ (m.back ++ post))
          (omega (arith, m.length_eq)) f₀ in
      let (r₂, e₂, f₂, p₂) =
        read_part-Follows fuel q (omega (arith, n)) r₁ d (pre ++ (front ++ (val ∷ []))) m.back post
          (omega (arith, n, k, m.length_eq)) f₁ in
      (
        r₂,
        rw (not_empty xs front back val parts) (
            read_middle fuel low high val xs front back pre mid post m r r₀ r₁ r₂ parts half lo hi
              small e₀ e₁ e₂),
        f₂,
        omega (arith, p₀, p₁, p₂, ap (λ (t : Code). t.len) e),
      )
