-- ===== src/Queries/Tests.antt =====
-- The queries over lists in memory.
use ds2i.Base.{ℕ, zero, suc, ◌≡◌, refl, List, [], ◌∷◌, arith}
use ds2i.Enumerator.{Increases}
use ds2i.Enumerator.Sample.{list_enumerator}
use ds2i.Queries.{
  insert_sorted, sort, unique_after, unique, remove_duplicate_terms, min_docid, advance, or_loop,
  or_enums, or_query, insert_by_size, sort_by_size, seek, seek_from, advance_first, and_loop,
  and_enums, and_query, query_freqs, count_terms, freqs_loop, bump_back,
}
use ds2i.Queries.Or.{or_query-count}
use ds2i.Queries.And.{and_query-count}
use ds2i.Queries.Freqs.{query_freqs-occurrences, freq_of, occurrences, TermsIncrease}

-- Ten documents; the terms from three on occur in none.
abbrev docs : ℕ → List ℕ
docs zero = 1 ∷ 4 ∷ 9 ∷ []
docs (suc zero) = 0 ∷ 4 ∷ []
docs (suc (suc zero)) = 9 ∷ []
docs (suc (suc (suc t))) = []

docs-Increases : (t : ℕ) → Increases 10 0 (docs t)
docs-Increases zero = omega arith
docs-Increases (suc zero) = omega arith
docs-Increases (suc (suc zero)) = omega arith
docs-Increases (suc (suc (suc t))) = omega arith

sorted_terms : remove_duplicate_terms (2 ∷ 0 ∷ 2 ∷ 1 ∷ 0 ∷ []) ≡ 0 ∷ 1 ∷ 2 ∷ []
unfolding remove_duplicate_terms sort insert_sorted unique unique_after
sorted_terms = refl

counted : or_query (list_enumerator 10) docs (2 ∷ 0 ∷ 1 ∷ 0 ∷ []) ≡ 4
unfolding or_query or_enums or_loop advance min_docid remove_duplicate_terms sort insert_sorted
    unique unique_after
counted = refl

or_query-count_example : or_query (list_enumerator 10) docs (2 ∷ 0 ∷ 1 ∷ 0 ∷ []) ≡ 4
or_query-count_example =
    or_query-count (list_enumerator 10) docs docs (2 ∷ 0 ∷ 1 ∷ 0 ∷ []) (λ t. refl) docs-Increases

and_counted : and_query (list_enumerator 10) docs (1 ∷ 0 ∷ 1 ∷ []) ≡ 1
unfolding and_query and_enums and_loop advance_first seek_from seek sort_by_size insert_by_size
    remove_duplicate_terms sort insert_sorted unique unique_after
and_counted = refl

and_query-count_example : and_query (list_enumerator 10) docs (1 ∷ 0 ∷ 1 ∷ []) ≡ 1
and_query-count_example =
    and_query-count (list_enumerator 10) docs docs 1 (0 ∷ 1 ∷ []) (λ t. refl) (λ t. tt)
      docs-Increases

freqs : query_freqs (7 ∷ 2 ∷ 7 ∷ []) ≡ (2, 1) ∷ (7, 2) ∷ []
unfolding query_freqs count_terms freqs_loop bump_back sort insert_sorted
freqs = refl

query_freqs-occurrences_example :
    TermsIncrease 0 (query_freqs (7 ∷ 2 ∷ 7 ∷ []))
    × ((t : ℕ) → freq_of t (query_freqs (7 ∷ 2 ∷ 7 ∷ [])) ≡ occurrences t (7 ∷ 2 ∷ 7 ∷ []))
query_freqs-occurrences_example = query_freqs-occurrences (7 ∷ 2 ∷ 7 ∷ [])
