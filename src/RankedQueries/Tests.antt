-- ===== src/RankedQueries/Tests.antt =====
-- The queries with scores over lists in memory, with numbers as scores.
use ds2i.Base.{ℕ, zero, suc, ◌+◌, ◌≡◌, ap, sym, ◌∙◌, refl, List, [], ◌∷◌, map, length, take, arith}
use ds2i.Enumerator.{first, Increases}
use ds2i.Enumerator.Sample.{list_enumerator}
use ds2i.Bm25.Sample.{numbers, number_floats}
use ds2i.TopkQueue.{TopkQueue, topk}
use ds2i.TopkQueue.Best.{ranked}
use ds2i.Queries.{query_freqs}
use ds2i.Queries.Lists.{held}
use mathlib.Core.List.{Permᴰ}
use ds2i.RankedQueries.Sorting.{stable_sort}
use ds2i.RankedQueries.{InOrder, Frequencies, ranked_and_query, ranked_or_query}
use ds2i.RankedQueries.Collect.{collect}
use ds2i.Queries.Seek.{held_by_all}
use ds2i.RankedQueries.And.{sizes, ranked_and_query-greatest}
use ds2i.RankedQueries.Rounds.{matched_by}
use ds2i.RankedQueries.Or.{score_by, weighted, ranked_or_query-greatest}

-- Each document has a frequency of one more than its number.
abbrev above : ℕ → ℕ
above d = d + 1

abbrev frequencies : Frequencies (list_enumerator 10)
frequencies = record {
  freq = λ c. (above (first 10 c), c);
  freq-Shows = λ c d ds f shows has. shows;
  freq-HasFreqs = λ c d ds f shows has. has;
  freq-IsFresh = λ c d ds f shows has fresh. fresh;
  HasFreqs = λ c f. (d : ℕ) → f d ≡ above d;
  freq_eq = λ c d ds f shows has. ap (λ c. above (first 10 c)) shows ∙ sym (has d);
  next-HasFreqs = λ c d ds f shows has. has;
  next_geq-HasFreqs = λ bound c ds f shows placed has. has;
}

-- Ten documents; the terms from two on occur in none.
abbrev docs : ℕ → List ℕ
docs zero = 1 ∷ 4 ∷ 9 ∷ []
docs (suc zero) = 0 ∷ 4 ∷ []
docs (suc (suc t)) = []

docs-Increases : (t : ℕ) → Increases 10 0 (docs t)
docs-Increases zero = omega arith
docs-Increases (suc zero) = omega arith
docs-Increases (suc (suc t)) = omega arith

abbrev two_best : TopkQueue numbers
two_best = record { k = 2; q = 5 ∷ [] }

abbrev asked : List ℕ
asked = 1 ∷ 0 ∷ []

ranked_or_query-greatest_example :
    let (t', count) =
      ranked_or_query number_floats (list_enumerator 10) frequencies above docs asked two_best in
    let lists = map (λ p. docs p.0) (query_freqs asked) in
    let all =
      collect
        (held lists)
        (score_by number_floats
          (list_enumerator 10)
          frequencies
          above
          (weighted number_floats
            (list_enumerator 10)
            frequencies
            docs
            (λ t. above)
            (query_freqs asked))
          lists)
        0
        10 in
    (topk numbers t' ≡ take 2 (ranked numbers all [])) × (count ≡ length (topk numbers t'))
ranked_or_query-greatest_example =
    ranked_or_query-greatest number_floats (list_enumerator 10) frequencies above docs docs
      (λ t. above) asked two_best (omega arith) (λ t. refl) docs-Increases (λ t d. refl)

ranked_and_query-greatest_example :
    (sorted : List (ℕ × ℕ)) × Permᴰ sorted (query_freqs asked)
    × InOrder (sizes number_floats (list_enumerator 10) frequencies docs sorted)
    × (let (t', count) =
          ranked_and_query number_floats
            (list_enumerator 10)
            frequencies
            stable_sort
            above
            docs
            asked
            two_best in
        let lists = map (λ p. docs p.0) sorted in
        let all =
          collect
            (held_by_all lists)
            (matched_by number_floats
              (list_enumerator 10)
              frequencies
              above
              (weighted number_floats (list_enumerator 10) frequencies docs (λ t. above) sorted))
            0
            10 in
        (topk numbers t' ≡ take 2 (ranked numbers all [])) × (count ≡ length (topk numbers t')))
ranked_and_query-greatest_example =
    ranked_and_query-greatest number_floats (list_enumerator 10) frequencies stable_sort above docs
      docs (λ t. above) 1 (0 ∷ []) two_best (omega arith) (λ t. refl) (λ t. tt) docs-Increases
      (λ t d. refl)
