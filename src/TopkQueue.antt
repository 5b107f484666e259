-- ===== src/TopkQueue.antt =====
-- `topk_queue` of queries.hpp: the k best scores in a heap of the standard library, whose front is
-- the least. The order inside the heap is not seen before `finalize`, which sorts it: the model
-- keeps the elements from the greatest to the least.
pub mod Best
mod Tests
use ds2i.Base.{
  ℕ, zero, suc, ◌≡◌, Bool, true, false, List, [], ◌∷◌, ◌||◌, ltb, ◌==◌, if◌then◌else◌, length,
}

-- `float`, compared by `>`; the laws hold without NaN. `empty_front` is what a read of the front of an
-- empty vector gives, of which nothing is known: the language leaves it undefined.
pub record Scores : Type 1 where
  pub Score : Type 0
  pub gtb : Score → Score → Bool
  pub empty_front : Score
  pub gtb_asym : (x y : Score) → gtb x y ≡ true → gtb y x ≡ false
  pub gtb_trans_false : (x y z : Score) → gtb x y ≡ false → gtb y z ≡ false → gtb x z ≡ false

module _ (scores : Scores) where
  open scores use {Score, gtb, empty_front}

  pub record TopkQueue : Type 0 where
    pub k : ℕ
    pub q : List Score

  unfoldable pub topk_queue : ℕ → TopkQueue
  topk_queue k = record { k = k; q = [] }

  -- `push_back` and `push_heap`.
  pub push_heap : Score → List Score → List Score
  push_heap x [] = x ∷ []
  push_heap x (y ∷ ys) = let rest = push_heap x ys in if gtb x y then x ∷ y ∷ ys else y ∷ rest

  -- `pop_heap`, and the removal of the place that it leaves.
  pub pop_heap : List Score → List Score
  pop_heap [] = []
  pop_heap (x ∷ []) = []
  pop_heap (x ∷ y ∷ ys) = x ∷ pop_heap (y ∷ ys)

  -- `score > m_q.front()`
  pub above_front : Score → List Score → Bool
  above_front score [] = gtb score empty_front
  above_front score (x ∷ []) = gtb score x
  above_front score (x ∷ y ∷ ys) = above_front score (y ∷ ys)

  -- The queue after the call, and what it returns.
  pub insert : Score → TopkQueue → TopkQueue × Bool
  insert score t =
      if ltb (length t.q) t.k
      then (record t { q = push_heap score t.q }, true)
      else if above_front score t.q
      then (record t { q = push_heap score (pop_heap t.q) }, true)
      else (t, false)

  pub would_enter : Score → TopkQueue → Bool
  would_enter score t = ltb (length t.q) t.k || above_front score t.q

  pub is_full : TopkQueue → Bool
  is_full t = length t.q == t.k

  unfoldable pub clear : TopkQueue → TopkQueue
  clear t = record t { q = [] }

  -- `finalize`, which sorts, and `topk`.
  pub topk : TopkQueue → List Score
  topk t = t.q

  -- A sequence of calls of `insert`.
  unfoldable pub insert_all : List Score → TopkQueue → TopkQueue
  insert_all [] t = t
  insert_all (x ∷ xs) t = insert_all xs (insert x t).0
