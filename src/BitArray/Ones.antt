-- ===== src/BitArray/Ones.antt =====
-- A region of a bit vector whose ones stand at increasing places `h 0`, `h 1`, ..., and the
-- enumerator in it.
use ds2i.Base.{
  ℕ, zero, suc, ◌+◌, ◌≤◌, ◌<◌, ◌≡◌, ◌⊎◌, inl, inr, ap, ◌∙◌, refl, Bool, true, false, ◌||◌, ◌==◌,
  Bool-cases, ltb, ltb→lt, arith,
}
use ds2i.BitArray.{BitArray, NextOne, KthOne}

-- Some of the first `n` places is `x`.
abbrev pub marked : (ℕ → ℕ) → ℕ → ℕ → Bool
marked h zero x = false
marked h (suc n) x = (h n == x) || marked h n x

pub marked-here : (h : ℕ → ℕ) (n p : ℕ) → p < n → marked h n (h p) ≡ true
marked-here h zero p less = absurd (omega arith)
marked-here h (suc n) p less = elim (Bool-cases (p == n)) [
  | inl last ↦ ground arith
  | inr before ↦
      let rest = marked-here h n p (ground arith) in
      elim (Bool-cases (h n == h p)) [ inl same ↦ rw same refl | inr other ↦ rw (other, rest) refl ]
]

pub marked-none :
    (h : ℕ → ℕ) (n x : ℕ) → ((p : ℕ) → p < n → (h p < x) ⊎ (x < h p)) → marked h n x ≡ false
marked-none h zero x away = refl
marked-none h (suc n) x away =
    let other : (h n == x) ≡ false = elim (away n (omega arith)) [
      | inl less ↦ ground arith
      | inr more ↦ ground arith
    ] in
    rw (other, marked-none h n x (λ p less. away p (omega arith))) refl

pub record Rises (h : ℕ → ℕ) (n : ℕ) : Type 0 where
  pub step : (p : ℕ) → suc p < n → h p < h (suc p)

pub rises : {h : ℕ → ℕ} {n : ℕ} → Rises h n → (p q : ℕ) → p < q → q < n → h p < h q
rises r p zero less inside = absurd (omega arith)
rises r p (suc q) less inside = elim (Bool-cases (p == q)) [
  | inl last ↦ let s = r.step q inside in ground arith
  | inr before ↦
      let s = r.step q inside in let b = rises r p q (ground arith) (omega arith) in omega arith
]

module _ (bit_array : BitArray) where
  open bit_array use {Bits, Unary, size, get, Reads, next, skip, unary_position}

  -- The bits from `lo` to `hi`, with the ones among them.
  pub record Region (h : ℕ → ℕ) (n lo hi : ℕ) (b : Bits) : Type 0 where
    pub rising : Rises h n
    pub low : (p : ℕ) → p < n → lo ≤ h p
    pub high : (p : ℕ) → p < n → h p < hi
    pub inside : hi ≤ size b
    pub bits_eq : (x : ℕ) → lo ≤ x → x < hi → get b x ≡ marked h n x

  module _ {h : ℕ → ℕ} {n lo hi : ℕ} {b : Bits} (region : Region h n lo hi b) where
    -- The enumerator is behind the ones before the `p`-th.
    pub record Before (p : ℕ) (u : Unary) : Type 0 where
      pub from : ℕ
      pub reads : Reads u b from
      pub from_low : lo ≤ from
      pub reach : p < n → from ≤ h p
      pub passed : (q : ℕ) → q < p → q < n → h q < from

    one_at :
        (p from : ℕ)
        → p < n
        → lo ≤ from
        → from ≤ h p
        → ((q : ℕ) → q < p → q < n → h q < from)
        → NextOne (get b) (size b) from (h p)
    one_at p from less low reach passed = record {
      reach = reach;
      inside = omega (arith, region.high p less, region.inside);
      here = region.bits_eq (h p) (region.low p less) (region.high p less) ∙ marked-here h n p less;
      none_before = λ j from_le before.
          region.bits_eq j (omega (arith, low, from_le)) (omega (arith, before, region.high p less))
          ∙ marked-none h n j (λ q inside. elim (Bool-cases (ltb q p)) [
            | inl early ↦ inl (omega (arith, passed q (ltb→lt _ _ early) inside, from_le))
            | inr late ↦ elim (Bool-cases (q == p)) [
              | inl same ↦
                  let e : q ≡ p = ground (arith, same) in inr (omega (arith, before, ap h e))
              | inr more ↦ inr (
                  omega
                    (arith, before, rises region.rising p q (ground (arith, late, more)) inside))
            ]
          ]);
    }

    pub next-Before :
        (p : ℕ) (u : Unary)
        → Before p u
        → p < n
        → ((next u).1 ≡ h p) × (unary_position (next u).0 ≡ h p) × Before (suc p) (next u).0
    next-Before p u at less =
        let (shown, stands, reads) =
          bit_array.next-Reads u b at.from (h p) at.reads
            (one_at p at.from less at.from_low (at.reach less) at.passed) in
        (
          shown,
          stands,
          record {
            from = suc (h p);
            reads = reads;
            from_low = omega (arith, region.low p less);
            reach = λ more. region.rising.step p more;
            passed = λ q before inside. elim (Bool-cases (q == p)) [
              | inl same ↦ let e : q ≡ p = ground (arith, same) in omega (arith, ap h e)
              | inr other ↦
                  omega (arith, rises region.rising q p (ground (arith, other, before)) less)
            ];
          },
        )

    kth_one :
        (k p from : ℕ)
        → p + k < n
        → lo ≤ from
        → from ≤ h p
        → ((q : ℕ) → q < p → q < n → h q < from)
        → KthOne (get b) (size b) from k (h (p + k))
    kth_one zero p from less low reach passed =
        let e : p + 0 ≡ p = omega arith in
        rw e (one_at p from (omega (arith, less)) low reach passed)
    kth_one (suc k) p from less low reach passed =
        let e : p + suc k ≡ suc p + k = omega arith in
        let here = one_at p from (omega (arith, less)) low reach passed in
        (
          h p,
          here,
          rw e (
              kth_one k (suc p) (suc (h p)) (omega (arith, less)) (omega (arith, low, reach))
                (region.rising.step p (omega (arith, less)))
                (λ q before inside. elim (Bool-cases (q == p)) [
                  | inl same ↦ let e : q ≡ p = ground (arith, same) in omega (arith, ap h e)
                  | inr other ↦ omega (
                    arith,
                    rises region.rising q p (ground (arith, other, before)) (omega (arith, less)),
                  )
                ])),
        )

    pub skip-Before : (k p : ℕ) (u : Unary) → Before p u → p + k < n → Before (p + k) (skip k u)
    skip-Before k p u at less =
        let q = p + k in
        record {
          from = h q;
          reads =
              bit_array.skip-Reads u b at.from k (h q) at.reads
                (kth_one k p at.from less at.from_low (at.reach (omega (arith, less))) at.passed);
          from_low = region.low q less;
          reach = λ inside. omega arith;
          passed = λ i before inside. rises region.rising i q before less;
        }

    -- Opened at a one, or in front of all.
    pub open-Before : (p : ℕ) → p < n → Before p (bit_array.unary_enumerator b (h p))
    open-Before p less = record {
      from = h p;
      reads =
          bit_array.unary_enumerator-Reads b (h p)
            (omega (arith, region.high p less, region.inside));
      from_low = region.low p less;
      reach = λ inside. omega arith;
      passed = λ i before inside. rises region.rising i p before less;
    }

    pub open-Before_first : lo ≤ hi → Before 0 (bit_array.unary_enumerator b lo)
    open-Before_first order = record {
      from = lo;
      reads = bit_array.unary_enumerator-Reads b lo (omega (arith, region.inside, order));
      from_low = omega arith;
      reach = λ less. region.low 0 less;
      passed = λ q before inside. absurd (omega arith);
    }

    -- The last one up to a place.
    pub predecessor1-Region :
        (p x : ℕ)
        → p < n
        → h p ≤ x
        → x < hi
        → (suc p < n → x < h (suc p))
        → bit_array.predecessor1 b x ≡ h p
    predecessor1-Region p x less reach inside before =
        bit_array.predecessor1_eq x (h p) b reach (omega (arith, inside, region.inside))
          (region.bits_eq (h p) (region.low p less) (region.high p less) ∙ marked-here h n p less)
          (λ j past le.
            region.bits_eq j (omega (arith, past, region.low p less)) (omega (arith, le, inside))
            ∙ marked-none h n j (λ q q_inside. elim (Bool-cases (ltb p q)) [
              | inl more ↦
                  let later = after p q x less (ltb→lt _ _ more) q_inside before in
                  inr (omega (arith, le, later))
              | inr early ↦ elim (Bool-cases (q == p)) [
                | inl same ↦
                    let e : q ≡ p = ground (arith, same) in inl (omega (arith, past, ap h e))
                | inr other ↦ inl (
                    omega
                      (arith, past, rises region.rising q p (ground (arith, early, other)) less))
              ]
            ]))
      where
        after : (p q x : ℕ) → p < n → p < q → q < n → (suc p < n → x < h (suc p)) → x < h q
        after p q x less more q_inside before = elim (Bool-cases (suc p == q)) [
          | inl same ↦
              let e : suc p ≡ q = ground (arith, same) in
              omega (arith, before (omega (arith, more, q_inside)), ap h e)
          | inr other ↦ omega (
            arith,
            before (omega (arith, more, q_inside)),
            rises region.rising (suc p) q (ground (arith, more, other)) q_inside,
          )
        ]

pub marked-shift : (h : ℕ → ℕ) (k n x : ℕ) → marked (λ p. k + h p) n (k + x) ≡ marked h n x
marked-shift h k zero x = refl
marked-shift h k (suc n) x =
    let same : ((k + h n) == (k + x)) ≡ (h n == x) = elim (Bool-cases (h n == x)) [
      | inl equal ↦ rw equal (ground (arith, equal))
      | inr other ↦ rw other (ground (arith, other))
    ] in
    rw (same, marked-shift h k n x) refl
