-- ===== src/Queries/Terms.antt =====
-- `remove_duplicate_terms` keeps the terms that occur.
use ds2i.Base.{
  ℕ, ◌≡◌, ap, refl, ◌∙◌, List, [], ◌∷◌, Bool, Bool-cases, inl, inr, true, false, ◌||◌, ◌==◌, leb,
  length, ◌<◌, if◌then◌else◌, arith,
}
use ds2i.Queries.{insert_sorted, sort, unique_after, unique, remove_duplicate_terms}
use ds2i.Queries.Counts.{any}

module _ (p : ℕ → Bool) where
  or_swap : (a b c : Bool) → (a || (b || c)) ≡ (b || (a || c))
  or_swap true true c = refl
  or_swap true false c = refl
  or_swap false true c = refl
  or_swap false false c = refl

  or_twice : (a b : Bool) → (a || (a || b)) ≡ (a || b)
  or_twice true b = refl
  or_twice false b = refl

  any-insert_sorted : (x : ℕ) (ys : List ℕ) → any p (insert_sorted x ys) ≡ (p x || any p ys)
  unfolding insert_sorted
  any-insert_sorted x [] = refl
  any-insert_sorted x (y ∷ ys) = by_order (leb x y) (any-insert_sorted x ys)
    where
      by_order :
          (b : Bool)
          → any p (insert_sorted x ys) ≡ (p x || any p ys)
          → any p (if b then x ∷ y ∷ ys else y ∷ insert_sorted x ys) ≡ (p x || (p y || any p ys))
      by_order true ih = refl
      by_order false ih = rw ih (or_swap (p y) (p x) (any p ys))

  any-sort : (xs : List ℕ) → any p (sort xs) ≡ any p xs
  unfolding sort
  any-sort [] = refl
  any-sort (x ∷ xs) = any-insert_sorted x (sort xs) ∙ ap (◌||◌ (p x)) (any-sort xs)

  any-unique_after : (x : ℕ) (ys : List ℕ) → (p x || any p (unique_after x ys)) ≡ (p x || any p ys)
  unfolding unique_after
  any-unique_after x [] = refl
  any-unique_after x (y ∷ ys) = elim (Bool-cases (x == y)) [
    | inl same ↦
        let e : x ≡ y = ground arith in
        rw (same, ← e, or_twice (p x) (any p ys)) (any-unique_after x ys)
    | inr other ↦ rw (other, any-unique_after y ys)
  ]

  any-unique : (xs : List ℕ) → any p (unique xs) ≡ any p xs
  unfolding unique
  any-unique [] = refl
  any-unique (x ∷ xs) = any-unique_after x xs

  pub any-remove_duplicate_terms :
      (terms : List ℕ) → any p (remove_duplicate_terms terms) ≡ any p terms
  unfolding remove_duplicate_terms
  any-remove_duplicate_terms terms = any-unique (sort terms) ∙ any-sort terms

some_inserted : (x : ℕ) (ys : List ℕ) → 0 < length (insert_sorted x ys)
unfolding insert_sorted
some_inserted x [] = omega arith
some_inserted x (y ∷ ys) = by_order (leb x y)
  where
    by_order : (b : Bool) → 0 < length (if b then x ∷ y ∷ ys else y ∷ insert_sorted x ys)
    by_order true = omega arith
    by_order false = omega arith

some_unique : (xs : List ℕ) → 0 < length xs → 0 < length (unique xs)
unfolding unique
some_unique [] h = h
some_unique (x ∷ xs) h = omega arith

pub some_term : (t : ℕ) (ts : List ℕ) → 0 < length (remove_duplicate_terms (t ∷ ts))
unfolding remove_duplicate_terms sort
some_term t ts = some_unique (insert_sorted t (sort ts)) (some_inserted t (sort ts))
