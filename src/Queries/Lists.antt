-- ===== src/Queries/Lists.antt =====
-- Increasing lists of documents, and the first document of several.
use ds2i.Base.{
  ℕ, suc, ◌+◌, ◌-◌, ◌≤◌, ◌<◌, ◌≡◌, inl, inr, sym, subst, refl, ◌∙◌, List, [], ◌∷◌, Bool, Bool-cases,
  true, false, ◌||◌, ◌==◌, ltb, ltb→lt, arith, min,
}
use mathlib.Core.Bool.{true≢false}
use ds2i.Enumerator.{first, Increases}
use ds2i.Queries.Counts.{count, count-skip, count-agree, contains, contains-below, any}

pub raise :
    (universe lo m : ℕ) (ds : List ℕ)
    → m ≤ universe
    → m ≤ first universe ds
    → Increases universe lo ds
    → Increases universe m ds
raise universe lo m [] small h inc = small
raise universe lo m (d ∷ ds) small h inc = (h, inc.1)

pub or_false : (a b : Bool) → a ≡ false → b ≡ false → (a || b) ≡ false
or_false a b ea eb = rw (ea, eb)

pub or_true : (a b : Bool) → b ≡ true → (a || b) ≡ true
or_true true b e = refl
or_true false b e = e

pub first_later :
    (universe lo : ℕ) (ds : List ℕ) → Increases universe lo ds → lo ≤ first universe ds
first_later universe lo [] inc = inc
first_later universe lo (d ∷ ds) inc = inc.0

pub first-contained :
    (universe : ℕ) (ds : List ℕ)
    → first universe ds < universe
    → contains (first universe ds) ds ≡ true
first-contained universe [] h = absurd (omega arith)
first-contained universe (d ∷ ds) h = let here : (d == d) ≡ true = ground arith in rw here

pub or_true_left : (a b : Bool) → a ≡ true → (a || b) ≡ true
or_true_left a b e = rw e

pub or_false_left : (a b : Bool) → (a || b) ≡ false → a ≡ false
or_false_left true b e = e
or_false_left false b e = refl

pub or_false_right : (a b : Bool) → (a || b) ≡ false → b ≡ false
or_false_right true b e = absurd (true≢false e)
or_false_right false b e = e

pub le_first :
    (universe m : ℕ) (ds : List ℕ)
    → m ≤ universe
    → ((d : ℕ) → d < m → contains d ds ≡ false)
    → m ≤ first universe ds
le_first universe m ds small none_before = elim (Bool-cases (ltb (first universe ds) m)) [
  | inl less ↦
      let h = ltb→lt _ _ less in
      absurd (
        true≢false (
          sym (first-contained universe ds (omega (arith, h))) ∙ none_before (first universe ds) h))
  | inr more ↦ ground (arith, more)
]

-- Some list holds the document.
abbrev pub held : List (List ℕ) → ℕ → Bool
held lists d = any (contains d) lists

-- The first document of all lists, or the universe.
abbrev pub First : ℕ → ℕ → List (List ℕ) → Type 0
First universe m lists =
    (m ≤ universe) × ((d : ℕ) → d < m → held lists d ≡ false) × (m < universe → held lists m ≡ true)

pub first_inside :
    (universe lo : ℕ) (ds : List ℕ) → Increases universe lo ds → first universe ds ≤ universe
first_inside universe lo [] inc = omega arith
first_inside universe lo (d ∷ ds) inc =
    omega (arith, first_inside universe (d + 1) ds inc.1, first_later universe (d + 1) ds inc.1)

pub First-cons :
    (universe m : ℕ) (ds : List ℕ) (lists : List (List ℕ))
    → Increases universe 0 ds
    → First universe m lists
    → First universe (min (first universe ds) m) (ds ∷ lists)
First-cons universe m ds lists inc (small, none_before, here) = (
  omega arith,
  λ d h.
      or_false _ _ (contains-below universe 0 d ds inc (omega arith)) (none_before d (omega arith)),
  λ h. elim (Bool-cases (ltb m (first universe ds))) [
    | inl less ↦
        let e : min (first universe ds) m ≡ m = omega (arith, ltb→lt _ _ less) in
        subst Held (sym e) (or_true (contains m ds) (held lists m) (here (omega (arith, e, h))))
    | inr more ↦
        let e : min (first universe ds) m ≡ first universe ds = ground (arith, more) in
        subst Held (sym e) (
          or_true_left (contains (first universe ds) ds) (held lists (first universe ds))
            (first-contained universe ds (omega (arith, e, h))))
  ],
)
  where
    Held : ℕ → Type 0
    Held d = held (ds ∷ lists) d ≡ true

pub count-next :
    (num_docs cur last : ℕ) (p q : ℕ → Bool)
    → p cur ≡ true
    → cur < last
    → last ≤ num_docs
    → ((d : ℕ) → cur < d → q d ≡ p d)
    → ((d : ℕ) → cur < d → d < last → q d ≡ false)
    → count p cur (num_docs - cur) ≡ suc (count q last (num_docs - last))
count-next num_docs cur last p q here behind at_most same none_between =
    let k = last - suc cur in
    let n = num_docs - last in
    let e : num_docs - cur ≡ suc (k + n) = omega arith in
    let e' : suc cur + k ≡ last = omega arith in
    let agree = count-agree p q (k + n) (suc cur) (λ d h. sym (same d (omega arith))) in
    let skip =
      count-skip q k n (suc cur) (λ d h h'. none_between d (omega arith) (omega (arith, e'))) in
    rw (e, here, agree, skip, e')

-- Numbers without the property are left out at the front.
pub count-later :
    (num_docs cur last : ℕ) (p : ℕ → Bool)
    → cur ≤ last
    → last ≤ num_docs
    → ((d : ℕ) → cur ≤ d → d < last → p d ≡ false)
    → count p cur (num_docs - cur) ≡ count p last (num_docs - last)
count-later num_docs cur last p behind at_most none_between =
    let k = last - cur in
    let n = num_docs - last in
    let e : num_docs - cur ≡ k + n = omega arith in
    let e' : cur + k ≡ last = omega arith in
    let skip = count-skip p k n cur (λ d h h'. none_between d h (omega (arith, e'))) in
    rw (e, skip, e')
