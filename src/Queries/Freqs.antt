-- ===== src/Queries/Freqs.antt =====
-- `query_freqs` gives each term once, with its number of occurrences.
use ds2i.Base.{
  ℕ, ◌+◌, ◌≤◌, ◌≡◌, ap, subst, refl, ◌∙◌, List, [], ◌∷◌, ◌++◌, append_assoc, Bool, Bool-cases, inl,
  inr, true, false, ◌==◌, leb, if◌then◌else◌, arith,
}
use ds2i.Queries.{insert_sorted, sort, bump_back, freqs_loop, count_terms, query_freqs}

-- One for an equal term.
abbrev pub one_if : Bool → ℕ
one_if true = 1
one_if false = 0

abbrev pub occurrences : ℕ → List ℕ → ℕ
occurrences t [] = 0
occurrences t (x ∷ xs) = one_if (t == x) + occurrences t xs

-- What the pairs of a term give together.
abbrev pub freq_of : ℕ → List (ℕ × ℕ) → ℕ
freq_of t [] = 0
freq_of t (p ∷ ps) = (if t == p.0 then p.1 else 0) + freq_of t ps

-- The terms of the pairs increase strictly, from `lo` on.
abbrev pub TermsIncrease : ℕ → List (ℕ × ℕ) → Type 0
TermsIncrease lo [] = Unit
TermsIncrease lo (p ∷ ps) = (lo ≤ p.0) × TermsIncrease (p.0 + 1) ps

abbrev Ascending : ℕ → List ℕ → Type 0
Ascending lo [] = Unit
Ascending lo (x ∷ xs) = (lo ≤ x) × Ascending x xs

insert_sorted-Ascending :
    (lo x : ℕ) (ys : List ℕ) → lo ≤ x → Ascending lo ys → Ascending lo (insert_sorted x ys)
unfolding insert_sorted
insert_sorted-Ascending lo x [] h a = (h, tt)
insert_sorted-Ascending lo x (y ∷ ys) h a = elim (Bool-cases (leb x y)) [
  | inl le ↦ rw le (h, (ground (arith, le), a.1))
  | inr gt ↦ rw gt (a.0, insert_sorted-Ascending y x ys (ground (arith, gt)) a.1)
]

sort-Ascending : (xs : List ℕ) → Ascending 0 (sort xs)
unfolding sort
sort-Ascending [] = tt
sort-Ascending (x ∷ xs) = insert_sorted-Ascending 0 x (sort xs) (omega arith) (sort-Ascending xs)

occurrences-insert_sorted :
    (t x : ℕ) (ys : List ℕ)
    → occurrences t (insert_sorted x ys) ≡ one_if (t == x) + occurrences t ys
unfolding insert_sorted
occurrences-insert_sorted t x [] = refl
occurrences-insert_sorted t x (y ∷ ys) = elim (Bool-cases (leb x y)) [
  | inl le ↦ rw le
  | inr gt ↦ rw gt (omega (arith, occurrences-insert_sorted t x ys))
]

occurrences-sort : (t : ℕ) (xs : List ℕ) → occurrences t (sort xs) ≡ occurrences t xs
unfolding sort
occurrences-sort t [] = refl
occurrences-sort t (x ∷ xs) =
    omega (arith, occurrences-insert_sorted t x (sort xs), occurrences-sort t xs)

-- The runs of equal terms, where `n` of the first have been seen.
runs : ℕ → ℕ → List ℕ → List (ℕ × ℕ)
runs last n [] = (last, n) ∷ []
runs last n (t ∷ ts) =
    let same = runs last (n + 1) ts in
    let other = runs t 1 ts in if t == last then same else (last, n) ∷ other

bump_back-append :
    (freqs : List (ℕ × ℕ)) (p : ℕ × ℕ)
    → bump_back (freqs ++ (p ∷ [])) ≡ freqs ++ ((p.0, p.1 + 1) ∷ [])
unfolding bump_back
bump_back-append [] p = refl
bump_back-append (q ∷ []) p = refl
bump_back-append (q ∷ q' ∷ freqs) p = ap (◌∷◌ q) (bump_back-append (q' ∷ freqs) p)

freqs_loop-runs :
    (freqs : List (ℕ × ℕ)) (last n : ℕ) (ts : List ℕ)
    → freqs_loop (freqs ++ ((last, n) ∷ [])) last ts ≡ freqs ++ runs last n ts
unfolding freqs_loop runs
freqs_loop-runs freqs last n [] = refl
freqs_loop-runs freqs last n (t ∷ ts) = elim (Bool-cases (t == last)) [
  | inl same ↦
      let e : t ≡ last = ground (arith, same) in
      rw (same, bump_back-append freqs (last, n), e) (freqs_loop-runs freqs last (n + 1) ts)
  | inr other ↦
      rw (other, freqs_loop-runs (freqs ++ ((last, n) ∷ [])) t 1 ts)
        (append_assoc freqs ((last, n) ∷ []) (runs t 1 ts))
]

one_more : (b : Bool) (n : ℕ) → (if b then n + 1 else 0) ≡ (if b then n else 0) + one_if b
one_more true n = refl
one_more false n = refl

one_seen : (b : Bool) → (if b then 1 else 0) ≡ one_if b
one_seen true = refl
one_seen false = refl

freq_of-runs :
    (t last n : ℕ) (ts : List ℕ)
    → freq_of t (runs last n ts) ≡ (if t == last then n else 0) + occurrences t ts
unfolding runs
freq_of-runs t last n [] = refl
freq_of-runs t last n (x ∷ ts) = elim (Bool-cases (x == last)) [
  | inl same ↦
      let e : x ≡ last = ground (arith, same) in
      rw (same, freq_of-runs t last (n + 1) ts, one_more (t == last) n, e) (omega arith)
  | inr other ↦ rw (other, freq_of-runs t x 1 ts, one_seen (t == x))
]

runs-TermsIncrease :
    (lo last n : ℕ) (ts : List ℕ)
    → lo ≤ last
    → Ascending last ts
    → TermsIncrease lo (runs last n ts)
unfolding runs
runs-TermsIncrease lo last n [] h a = (h, tt)
runs-TermsIncrease lo last n (t ∷ ts) h a = elim (Bool-cases (t == last)) [
  | inl same ↦
      let e : t ≡ last = ground (arith, same) in
      rw same (runs-TermsIncrease lo last (n + 1) ts h (subst (λ (x : ℕ). Ascending x ts) e a.1))
  | inr other ↦ rw other (h, runs-TermsIncrease (last + 1) t 1 ts (ground (arith, other, a.0)) a.1)
]

count_terms-runs :
    (ts : List ℕ)
    → Ascending 0 ts
    → TermsIncrease 0 (count_terms ts) × ((t : ℕ) → freq_of t (count_terms ts) ≡ occurrences t ts)
unfolding count_terms
count_terms-runs [] a = (tt, λ t. refl)
count_terms-runs (x ∷ ts) a =
    let e = freqs_loop-runs [] x 1 ts in
    (
      rw e (runs-TermsIncrease 0 x 1 ts (omega arith) a.1),
      λ t. rw (e, freq_of-runs t x 1 ts, one_seen (t == x)),
    )

-- The pairs of `query_freqs` have strictly increasing terms, so that each occurs once, and a
-- term's pair, if it has one, gives the number of its occurrences; a term with no pair has none.
pub query_freqs-occurrences :
    (terms : List ℕ)
    → TermsIncrease 0 (query_freqs terms)
      × ((t : ℕ) → freq_of t (query_freqs terms) ≡ occurrences t terms)
unfolding query_freqs
query_freqs-occurrences terms =
    let (increase, freqs) = count_terms-runs (sort terms) (sort-Ascending terms) in
    (increase, λ t. freqs t ∙ occurrences-sort t terms)
