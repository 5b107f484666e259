-- ===== src/Interpolative/Arrays.antt =====
-- `write_interpolative` and `read_interpolative` against the code of a sorted array.
use ds2i.Base.{
  ℕ, zero, suc, ◌+◌, ◌-◌, ◌/◌, ◌%◌, ◌^◌, ◌≤◌, ◌<◌, ◌≡◌, ap, sym, subst, refl, ◌∙◌, List, ◌∷◌, ◌++◌,
  length, some, drop, arith, append_assoc, ◌==◌, false,
}
use ds2i.Succinct.{Broadword}
use ds2i.Interpolative.{BitWriter, write_int, write_interpolative, sub32}
use ds2i.Interpolative.Code.{Code, ◌⊕◌, int_code, Interpolates, empty, middle, ⊕_assoc, ⊕-nothing}
use ds2i.Interpolative.Write.{Holds}
use ds2i.Interpolative.Ints.{write_int-Holds}
use ds2i.Interpolative.Sorted.{get_elem?-middle, drop-middle, length-middle}

-- The arguments that the code computes with uint32_t arithmetic.
pub span_eq :
    (low high : ℕ) → low ≤ high → high + 1 < 2 ^ 32 → (sub32 high low + 1) % 2 ^ 32 ≡ high - low + 1
span_eq low high le small = omega arith

delta_eq : (low val : ℕ) → low ≤ val → val < 2 ^ 32 → sub32 val low ≡ val - low
delta_eq low val le small = omega arith

drop-middle_one :
    (front back : List ℕ) (v : ℕ) → drop (length front + 1) (front ++ (v ∷ back)) ≡ back
drop-middle_one front back v =
    let e : length front + 1 ≡ suc (length front) = omega arith in rw e (drop-middle front back v)

pub ⊕_regroup : (a b c d : Code) → a ⊕ b ⊕ c ⊕ d ≡ a ⊕ (b ⊕ c ⊕ d)
⊕_regroup a b c d = ap (λ k. k ⊕ d) (⊕_assoc a b c) ∙ ⊕_assoc a (b ⊕ c) d

module _ (broadword : Broadword) where
  -- One level of the recursion, from the outcome of the two calls.
  write_step :
      (fuel low high val : ℕ) (xs front back post : List ℕ) (w w₁ w₂ : BitWriter)
      → xs ≡ front ++ (val ∷ back)
      → length xs / 2 ≡ length front
      → low ≤ val
      → val ≤ high
      → high + 1 < 2 ^ 32
      → write_interpolative broadword fuel
          (write_int broadword w (val - low) (high - low + 1))
          (front ++ (val ∷ (back ++ post)))
          (length front)
          low
          val
        ≡ some w₁
      → write_interpolative broadword fuel w₁ (back ++ post) (length back) val high ≡ some w₂
      → write_interpolative broadword (suc fuel) w (xs ++ post) (length xs) low high ≡ some w₂
  unfolding write_interpolative
  write_step fuel low high val xs front back post w w₁ w₂ parts half lo hi small left right =
      let n = length-middle xs front back val parts in
      let test : (length xs == 0) ≡ false = ground arith in
      let rest : length xs - length front - 1 ≡ length back = omega arith in
      rw (
        whole,
        test,
        half,
        rest,
        get_elem?-middle front (back ++ post) val,
        delta_eq low val lo (omega arith),
        span_eq low high (omega arith) small,
        left,
        drop-middle_one front (back ++ post) val,
        right,
      )
    where
      whole : xs ++ post ≡ front ++ (val ∷ (back ++ post))
      whole = ap (λ ys. ys ++ post) parts ∙ append_assoc front (val ∷ back) post

  -- `write_interpolative` appends the code, and looks at the first `n` elements only.
  pub write_interpolative-Holds :
      (fuel : ℕ) {xs : List ℕ} {low high : ℕ} {c : Code}
      → Interpolates broadword xs low high c
      → length xs ≤ fuel
      → (w : BitWriter) (c₀ : Code) (post : List ℕ) → Holds w c₀
      → (w' : BitWriter) × (write_interpolative broadword fuel w (xs ++ post) (length xs) low high
          ≡ some w')
        × Holds w' (c₀ ⊕ c)
  write_interpolative-Holds zero empty short w c₀ post h =
      (w, unfold write_interpolative in refl, subst (Holds w) (sym (⊕-nothing c₀)) h)
  write_interpolative-Holds (suc fuel) empty short w c₀ post h =
      (w, unfold write_interpolative in refl, subst (Holds w) (sym (⊕-nothing c₀)) h)
  write_interpolative-Holds zero
        (middle {val = val} {front = front} {back = back} {xs = xs} parts half lo hi small p q e)
        short w c₀ post h =
      absurd (omega (arith, length-middle xs front back val parts))
  write_interpolative-Holds (suc fuel)
        (middle {low = low} {high = high} {val = val} {front = front} {back = back} {xs = xs}
          {c = c} {d = d} parts half lo hi small p q e)
        short w c₀ post h =
      let n = length-middle xs front back val parts in
      let h₀ =
        write_int-Holds broadword w c₀ (val - low) (high - low + 1) h (omega arith) (omega arith) in
      let (w₁, e₁, h₁) =
        write_interpolative-Holds fuel p (omega (arith, n)) _ _ (val ∷ (back ++ post)) h₀ in
      let (w₂, e₂, h₂) = write_interpolative-Holds fuel q (omega (arith, n)) w₁ _ post h₁ in
      (
        w₂,
        write_step fuel low high val xs front back post w w₁ w₂ parts half lo hi small e₁ e₂,
        subst (Holds w₂)
            (⊕_regroup c₀ (int_code broadword (val - low) (high - low + 1)) c d
              ∙ ap (◌⊕◌ c₀) (sym e))
            h₂,
      )
