-- ===== src/TopkQueue/Best.antt =====
-- The queue holds the k greatest of the scores that were inserted.
use ds2i.Base.{
  ℕ, zero, suc, ◌≤◌, ◌<◌, ◌≡◌, ap, sym, subst, refl, ◌∙◌, List, [], ◌∷◌, Bool, Bool-cases, inl, inr,
  true, false, ◌||◌, ltb, ltb→lt, if◌then◌else◌, arith, length, length-take, take,
}
use ds2i.TopkQueue.{
  Scores, TopkQueue, topk_queue, push_heap, pop_heap, above_front, insert, would_enter, topk,
  insert_all,
}

ltb-false : {a b : ℕ} → ltb a b ≡ false → b ≤ a
ltb-false h = ground arith

module _ (scores : Scores) where
  open scores use {Score, gtb, gtb_asym, gtb_trans_false}

  -- All scores from the greatest to the least, equal ones in the order they came.
  abbrev pub ranked : List Score → List Score → List Score
  ranked [] seen = seen
  ranked (x ∷ xs) seen = ranked xs (push_heap scores x seen)

  -- No score is greater than one before it.
  abbrev Descends : List Score → Type 0
  Descends [] = Unit
  Descends (x ∷ []) = Unit
  Descends (x ∷ y ∷ ys) = (gtb y x ≡ false) × Descends (y ∷ ys)

  take-all : (k : ℕ) (ys : List Score) → length ys ≤ k → take k ys ≡ ys
  take-all zero [] h = refl
  take-all zero (y ∷ ys) h = absurd (omega arith)
  take-all (suc k) [] h = refl
  take-all (suc k) (y ∷ ys) h = ap (◌∷◌ y) (take-all k ys (omega arith))

  take-take-suc : (k : ℕ) (ys : List Score) → take k (take (suc k) ys) ≡ take k ys
  take-take-suc zero ys = refl
  take-take-suc (suc k) [] = refl
  take-take-suc (suc k) (y ∷ ys) = ap (◌∷◌ y) (take-take-suc k ys)

  take-cons : (k : ℕ) (y : Score) (ys : List Score) → take k (y ∷ take k ys) ≡ take k (y ∷ ys)
  take-cons zero y ys = refl
  take-cons (suc k) y ys = ap (◌∷◌ y) (take-take-suc k ys)

  take-push_heap :
      (k : ℕ) (x : Score) (ys : List Score)
      → take k (push_heap scores x (take k ys)) ≡ take k (push_heap scores x ys)
  unfolding push_heap
  take-push_heap zero x ys = refl
  take-push_heap (suc k) x [] = refl
  take-push_heap (suc k) x (y ∷ ys) = elim (Bool-cases (gtb x y)) [
    | inl above ↦ rw above (ap (◌∷◌ x) (take-cons k y ys))
    | inr below ↦ rw below (ap (◌∷◌ y) (take-push_heap k x ys))
  ]

  length-push_heap :
      (x : Score) (ys : List Score) → length (push_heap scores x ys) ≡ suc (length ys)
  unfolding push_heap
  length-push_heap x [] = refl
  length-push_heap x (y ∷ ys) = elim (Bool-cases (gtb x y)) [
    | inl above ↦ rw above
    | inr below ↦ rw below (ap suc (length-push_heap x ys))
  ]

  pop_heap-take :
      (y : Score) (ys : List Score) → pop_heap scores (y ∷ ys) ≡ take (length ys) (y ∷ ys)
  unfolding pop_heap
  pop_heap-take y [] = refl
  pop_heap-take y (y' ∷ ys) = ap (◌∷◌ y) (pop_heap-take y' ys)

  pop-push :
      (x : Score) (ys : List Score)
      → 0 < length ys
      → above_front scores x ys ≡ true
      → push_heap scores x (pop_heap scores ys) ≡ take (length ys) (push_heap scores x ys)
  unfolding push_heap pop_heap above_front
  pop-push x [] pos h = absurd (omega (arith, pos))
  pop-push x (y ∷ []) pos h = rw h
  pop-push x (y ∷ y' ∷ ys) pos h = elim (Bool-cases (gtb x y)) [
    | inl above ↦ rw above (ap (λ zs. x ∷ y ∷ zs) (pop_heap-take y' ys))
    | inr below ↦ rw below (ap (◌∷◌ y) (pop-push x (y' ∷ ys) (omega arith) h))
  ]

  below_first :
      (x y : Score) (ys : List Score)
      → Descends (y ∷ ys)
      → above_front scores x (y ∷ ys) ≡ false
      → gtb x y ≡ false
  unfolding above_front
  below_first x y [] d h = h
  below_first x y (y' ∷ ys) d h = gtb_trans_false x y' y (below_first x y' ys d.1 h) d.0

  stays :
      (x : Score) (ys : List Score)
      → Descends ys
      → above_front scores x ys ≡ false
      → take (length ys) (push_heap scores x ys) ≡ ys
  unfolding push_heap above_front
  stays x [] d h = refl
  stays x (y ∷ []) d h = rw h
  stays x (y ∷ y' ∷ ys) d h =
      rw (below_first x y (y' ∷ ys) d h) (ap (◌∷◌ y) (stays x (y' ∷ ys) d.1 h))

  push_heap-Descends :
      (x : Score) (ys : List Score) → Descends ys → Descends (push_heap scores x ys)
  unfolding push_heap
  push_heap-Descends x [] d = tt
  push_heap-Descends x (y ∷ []) d = elim (Bool-cases (gtb x y)) [
    | inl above ↦ rw above (gtb_asym x y above, tt)
    | inr below ↦ rw below (below, tt)
  ]
  push_heap-Descends x (y ∷ y' ∷ ys) d = elim (Bool-cases (gtb x y)) [
    | inl above ↦ rw above (gtb_asym x y above, d)
    | inr below ↦
        let ih = push_heap-Descends x (y' ∷ ys) d.1 in
        rw below (elim (Bool-cases (gtb x y')) [
          | inl above ↦ rw above (below, (gtb_asym x y' above, d.1))
          | inr lower ↦ rw lower (d.0, rw lower at ih)
        ])
  ]

  take-Descends : (k : ℕ) (ys : List Score) → Descends ys → Descends (take k ys)
  take-Descends zero ys d = tt
  take-Descends (suc k) [] d = tt
  take-Descends (suc zero) (y ∷ ys) d = tt
  take-Descends (suc (suc k)) (y ∷ []) d = tt
  take-Descends (suc (suc k)) (y ∷ y' ∷ ys) d = (d.0, take-Descends (suc k) (y' ∷ ys) d.1)

  -- One call keeps the first `k` of what was seen.
  insert-take :
      (x : Score) (t : TopkQueue scores) (seen : List Score)
      → 0 < t.k
      → Descends seen
      → t.q ≡ take t.k seen
      → ((insert scores x t).0.q ≡ take t.k (push_heap scores x seen))
        × ((insert scores x t).0.k ≡ t.k)
  unfolding insert
  insert-take x t seen pos d e = by_room (ltb (length t.q) t.k) refl
    where
      Kept : TopkQueue scores × Bool → Type 0
      Kept r = (r.0.q ≡ take t.k (push_heap scores x seen)) × (r.0.k ≡ t.k)

      kept : take t.k (push_heap scores x t.q) ≡ take t.k (push_heap scores x seen)
      kept = rw e (take-push_heap t.k x seen)

      full : ltb (length t.q) t.k ≡ false → length t.q ≡ t.k
      full more = omega (arith, ap length e, length-take t.k seen, ltb-false more)

      by_front :
          (b : Bool)
          → above_front scores x t.q ≡ b
          → length t.q ≡ t.k
          → Kept (
              if b
              then (record t { q = push_heap scores x (pop_heap scores t.q) }, true)
              else (t, false))
      by_front true h l = (
        pop-push x t.q (omega (arith, l, pos)) h
            ∙ ap (λ (n : ℕ). take n (push_heap scores x t.q)) l
            ∙ kept,
        refl,
      )
      by_front false h l = (
        sym (
              ap (λ (n : ℕ). take n (push_heap scores x t.q)) (sym l)
              ∙ stays x t.q (subst Descends (sym e) (take-Descends t.k seen d)) h)
            ∙ kept,
        refl,
      )

      by_room :
          (b : Bool)
          → ltb (length t.q) t.k ≡ b
          → Kept (
              if b
              then (record t { q = push_heap scores x t.q }, true)
              else if above_front scores x t.q
              then (record t { q = push_heap scores x (pop_heap scores t.q) }, true)
              else (t, false))
      by_room true less = (
        sym (
              take-all t.k (push_heap scores x t.q)
                (omega (arith, length-push_heap x t.q, ltb→lt _ _ less)))
            ∙ kept,
        refl,
      )
      by_room false more = by_front (above_front scores x t.q) refl (full more)

  insert_all-take :
      (xs : List Score) (t : TopkQueue scores) (seen : List Score)
      → 0 < t.k
      → Descends seen
      → t.q ≡ take t.k seen
      → (insert_all scores xs t).q ≡ take t.k (ranked xs seen)
  unfolding insert_all
  insert_all-take [] t seen pos d e = e
  insert_all-take (x ∷ xs) t seen pos d e =
      let (kept, same) = insert-take x t seen pos d e in
      insert_all-take xs (insert scores x t).0 (push_heap scores x seen) (omega (arith, same, pos))
        (push_heap-Descends x seen d) (rw same kept)
      ∙ ap (λ (n : ℕ). take n (ranked xs (push_heap scores x seen))) same

  -- After any scores are inserted into a queue for `k` of them, where `k` is not 0, `topk` gives
  -- the first `k` of all the scores ranked from the greatest to the least.
  pub topk-ranked :
      (k : ℕ) (xs : List Score)
      → 0 < k
      → topk scores (insert_all scores xs (topk_queue scores k)) ≡ take k (ranked xs [])
  unfolding topk topk_queue
  topk-ranked k xs some_place =
      insert_all-take xs (topk_queue scores k) [] some_place tt (sym (take-all k [] (omega arith)))

  -- For a queue of `k` scores, where `k` is not 0, `would_enter` tells what `insert` of the same score
  -- returns.
  pub would_enter-insert :
      (x : Score) (t : TopkQueue scores) → 0 < t.k → would_enter scores x t ≡ (insert scores x t).1
  unfolding would_enter insert
  would_enter-insert x t some_place = by_tests (ltb (length t.q) t.k) (above_front scores x t.q)
    where
      answer : TopkQueue scores × Bool → Bool
      answer r = r.1

      by_tests :
          (b c : Bool)
          → (b || c)
            ≡ answer (
                if b
                then (record t { q = push_heap scores x t.q }, true)
                else if c
                then (record t { q = push_heap scores x (pop_heap scores t.q) }, true)
                else (t, false))
      by_tests true c = refl
      by_tests false true = refl
      by_tests false false = refl
