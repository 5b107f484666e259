-- ===== src/TopkQueue/Tests.antt =====
-- Queues of numbers.
use ds2i.Base.{ℕ, ◌≡◌, refl, [], ◌∷◌, true, false, ltb, take, arith}
use ds2i.TopkQueue.{
  Scores, topk_queue, push_heap, pop_heap, above_front, insert, would_enter, topk, insert_all,
  clear, is_full,
}
use ds2i.TopkQueue.Best.{ranked, topk-ranked, would_enter-insert}

less-asym : (x y : ℕ) → ltb y x ≡ true → ltb x y ≡ false
less-asym x y h = ground arith

not_less_trans : (x y z : ℕ) → ltb y x ≡ false → ltb z y ≡ false → ltb z x ≡ false
not_less_trans x y z h h' = ground arith

abbrev numbers : Scores
numbers = record {
  Score = ℕ;
  gtb = λ x y. ltb y x;
  empty_front = 0;
  gtb_asym = less-asym;
  gtb_trans_false = not_less_trans;
}

best_two :
    topk numbers (insert_all numbers (3 ∷ 7 ∷ 5 ∷ 1 ∷ []) (topk_queue numbers 2)) ≡ 7 ∷ 5 ∷ []
unfolding topk insert_all insert topk_queue push_heap pop_heap above_front
best_two = refl

cleared :
    is_full numbers (clear numbers (insert_all numbers (3 ∷ []) (topk_queue numbers 1))) ≡ false
unfolding is_full clear insert_all insert topk_queue push_heap pop_heap above_front
cleared = refl

topk-ranked_example :
    topk numbers (insert_all numbers (3 ∷ 7 ∷ 5 ∷ 1 ∷ []) (topk_queue numbers 2))
    ≡ take 2 (ranked numbers (3 ∷ 7 ∷ 5 ∷ 1 ∷ []) [])
topk-ranked_example = topk-ranked numbers 2 (3 ∷ 7 ∷ 5 ∷ 1 ∷ []) (omega arith)

would_enter-insert_example :
    would_enter numbers 4 (topk_queue numbers 2) ≡ (insert numbers 4 (topk_queue numbers 2)).1
unfolding topk_queue
would_enter-insert_example = would_enter-insert numbers 4 (topk_queue numbers 2) (omega arith)
