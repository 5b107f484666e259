-- ===== src/RankedQueries/Collect.antt =====
-- What a range of documents with a property gives, in order.
use ds2i.Base.{
  ℕ, zero, suc, ◌+◌, ◌-◌, ◌≤◌, ◌<◌, ◌≡◌, sym, refl, List, [], ◌∷◌, Bool, true, false, if◌then◌else◌,
  arith,
}

module _ {A : Type 0} where
  -- `f` of those of the `n` numbers from `lo` on that have the property.
  abbrev pub collect : (ℕ → Bool) → (ℕ → A) → ℕ → ℕ → List A
  collect p f lo zero = []
  collect p f lo (suc n) = if p lo then f lo ∷ collect p f (suc lo) n else collect p f (suc lo) n

  pub collect-skip :
      (p : ℕ → Bool) (f : ℕ → A) (k n lo : ℕ)
      → ((d : ℕ) → lo ≤ d → d < lo + k → p d ≡ false)
      → collect p f lo (k + n) ≡ collect p f (lo + k) n
  collect-skip p f zero n lo none_here =
      let e : lo + 0 ≡ lo = omega arith in let e' : 0 + n ≡ n = omega arith in rw (e, e')
  collect-skip p f (suc k) n lo none_here =
      let e : lo + suc k ≡ suc lo + k = omega arith in
      let e' : suc k + n ≡ suc (k + n) = omega arith in
      rw (e, e', none_here lo (omega arith) (omega arith))
        (collect-skip p f k n (suc lo) (λ d h h'. none_here d (omega arith) (omega arith)))

  pub collect-agree :
      (p q : ℕ → Bool) (f g : ℕ → A) (n lo : ℕ)
      → ((d : ℕ) → lo ≤ d → p d ≡ q d)
      → ((d : ℕ) → lo ≤ d → f d ≡ g d)
      → collect p f lo n ≡ collect q g lo n
  collect-agree p q f g zero lo same same_f = refl
  collect-agree p q f g (suc n) lo same same_f = rw (
    same lo (omega arith),
    same_f lo (omega arith),
    collect-agree p q f g n (suc lo) (λ d h. same d (omega arith)) (λ d h. same_f d (omega arith)),
  )

  pub collect-none :
      (p : ℕ → Bool) (f : ℕ → A) (n lo : ℕ) → ((d : ℕ) → p d ≡ false) → collect p f lo n ≡ []
  collect-none p f zero lo none_has = refl
  collect-none p f (suc n) lo none_has = rw (none_has lo) (collect-none p f n (suc lo) none_has)

  -- The first of them, and what the others give.
  pub collect-next :
      (num_docs cur last : ℕ) (p q : ℕ → Bool) (f g : ℕ → A)
      → p cur ≡ true
      → cur < last
      → last ≤ num_docs
      → ((d : ℕ) → cur < d → q d ≡ p d)
      → ((d : ℕ) → cur < d → g d ≡ f d)
      → ((d : ℕ) → d < last → q d ≡ false)
      → collect p f cur (num_docs - cur) ≡ f cur ∷ collect q g last (num_docs - last)
  collect-next num_docs cur last p q f g here behind at_most same same_f none_between =
      let k = last - suc cur in
      let n = num_docs - last in
      let e : num_docs - cur ≡ suc (k + n) = omega arith in
      let e' : suc cur + k ≡ last = omega arith in
      let agree =
        collect-agree p q f g (k + n) (suc cur) (λ d h. sym (same d (omega arith)))
          (λ d h. sym (same_f d (omega arith))) in
      let skip = collect-skip q g k n (suc cur) (λ d h h'. none_between d (omega (arith, e'))) in
      rw (e, here, agree, skip, e')

  -- Documents without the property are left out at the front.
  pub collect-later :
      (num_docs cur last : ℕ) (p : ℕ → Bool) (f : ℕ → A)
      → cur ≤ last
      → last ≤ num_docs
      → ((d : ℕ) → cur ≤ d → d < last → p d ≡ false)
      → collect p f cur (num_docs - cur) ≡ collect p f last (num_docs - last)
  collect-later num_docs cur last p f behind at_most none_between =
      let k = last - cur in
      let n = num_docs - last in
      let e : num_docs - cur ≡ k + n = omega arith in
      let e' : cur + k ≡ last = omega arith in
      let skip = collect-skip p f k n cur (λ d h h'. none_between d h (omega (arith, e'))) in
      rw (e, skip, e') refl
