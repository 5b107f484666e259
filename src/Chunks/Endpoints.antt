-- ===== src/Chunks/Endpoints.antt =====
-- Where chunks start, stored in a sequence as the collections and the indexes do.
use ds2i.Base.{ℕ, ◌^◌, ◌≤◌, ◌<◌, ◌≡◌, List, [], ◌∷◌, length, length-append, take, All, arith}
use ds2i.Sequence.{Sequence, NonDecreasing}
use ds2i.Chunks.{concat, offset, ends, starts, offset-ordered, offset-inside}

module _ {A : Type 0} (elias_fano : Sequence) (empty : elias_fano.Bits)
    (empty_size : elias_fano.bit_size empty ≡ 0)
    (writable : (v : ℕ → ℕ) (universe n : ℕ)
      → NonDecreasing v universe n
      → elias_fano.Writable v universe n) where
  -- Chunks that are not empty are no more than their elements.
  count-le : (cs : List (List A)) → All (λ c. 0 < length c) cs → length cs ≤ length (concat cs)
  count-le [] pos = omega arith
  count-le (c ∷ cs) pos = omega (arith, length-append c (concat cs), count-le cs pos.1, pos.0)

  -- The endpoint of a chunk is the place where it starts.
  pub endpoint_eq :
      (cs : List (List A)) (i : ℕ)
      → i < length cs
      → All (λ c. 0 < length c) cs
      → length (concat cs) < 2 ^ 55
      → let n = length cs in
        let universe = length (concat cs) in
        (elias_fano.move i (
          elias_fano.enumerator
            (elias_fano.write empty (take n (0 ∷ ends 0 cs)) universe n)
            0
            universe
            n)).1
        ≡ (i, offset cs i)
  endpoint_eq cs i inside pos small =
      let n = length cs in
      let universe = length (concat cs) in
      let stored : NonDecreasing (offset cs) universe n = record {
        below = λ p h. offset-inside cs p pos h;
        ordered = λ p h. offset-ordered cs p h;
        n_pos = omega (arith, inside);
        universe_small = omega (arith, small, count-le cs pos);
      } in
      let stands =
        elias_fano.write-Stands (offset cs) universe n empty
          (writable (offset cs) universe n stored) in
      let shown =
        (elias_fano.move-Stands (offset cs) universe n n i _ stands (omega (arith, inside))).1
          inside in
      rw (starts cs) (rw empty_size at shown)
