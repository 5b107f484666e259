-- ===== src/RankedQueries/And.antt =====
-- `ranked_and_query` hands the score of every document of the intersection to the queue, in their
-- order.
use ds2i.Base.{
  ℕ, suc, ◌-◌, ◌≤◌, ◌<◌, ◌≡◌, inl, inr, ap, sym, subst, refl, ◌∙◌, List, [], ◌∷◌, ◌++◌, map, length,
  length-append, take, Bool-cases, true, ◌==◌, leb, arith,
}
use ds2i.Enumerator.{Enumerator, Increases}
use ds2i.Bm25.{Floats}
use ds2i.TopkQueue.{TopkQueue, topk_queue, insert_all, clear, topk}
use ds2i.TopkQueue.Best.{ranked, topk-ranked}
use ds2i.Queries.{query_freqs, count_terms, freqs_loop, bump_back, sort, insert_sorted}
use ds2i.Queries.Counts.{contains-below}
use ds2i.Queries.Lists.{first_inside}
use ds2i.Queries.Seek.{held_by_all, and_false_left, Placed}
use ds2i.RankedQueries.{
  Frequencies, Score, scored_enum, sort_by_size, ranked_and_enums, ranked_and_query,
}
use ds2i.RankedQueries.Collect.{collect, collect-later}
use mathlib.Core.List.{Permᴰ}
use ds2i.Enumerator.Tracked.{Tracked, tracked}
use ds2i.RankedQueries.{InOrder, Sort}
use ds2i.RankedQueries.Sorting.{Permᴰ-map, Permᴰ-length}
use ds2i.RankedQueries.Or.{Term, Scored, Carries, weighted, in_memory}
use ds2i.RankedQueries.Rounds.{matched_by, ranked_and_loop-Inserts}

length-bump_back : (ps : List (ℕ × ℕ)) → length (bump_back ps) ≡ length ps
unfolding bump_back
length-bump_back [] = refl
length-bump_back (p ∷ []) = refl
length-bump_back (p ∷ q ∷ ps) = ap suc (length-bump_back (q ∷ ps))

length-freqs_loop :
    (ps : List (ℕ × ℕ)) (last : ℕ) (ts : List ℕ) → length ps ≤ length (freqs_loop ps last ts)
unfolding freqs_loop
length-freqs_loop ps last [] = omega arith
length-freqs_loop ps last (t ∷ ts) = elim (Bool-cases (t == last)) [
  | inl same ↦ rw same (omega (arith, length-bump_back ps, length-freqs_loop (bump_back ps) t ts))
  | inr other ↦
      rw other (
        omega (arith, length-append ps ((t, 1) ∷ []), length-freqs_loop (ps ++ ((t, 1) ∷ [])) t ts))
]

length-count_terms : (t : ℕ) (ts : List ℕ) → 0 < length (count_terms (t ∷ ts))
unfolding count_terms
length-count_terms t ts = omega (arith, length-freqs_loop ((t, 1) ∷ []) t ts)

length-insert_sorted : (t : ℕ) (ts : List ℕ) → 0 < length (count_terms (insert_sorted t ts))
unfolding insert_sorted
length-insert_sorted t [] = length-count_terms t []
length-insert_sorted t (u ∷ us) = elim (Bool-cases (leb t u)) [
  | inl small ↦ rw small (length-count_terms t (u ∷ us))
  | inr large ↦ rw large (length-count_terms u (insert_sorted t us))
]

-- A query of one term or more has terms with frequencies.
length-query_freqs : (t : ℕ) (ts : List ℕ) → 0 < length (query_freqs (t ∷ ts))
unfolding query_freqs sort
length-query_freqs t ts = length-insert_sorted t (sort ts)

module _ (floats : Floats) {num_docs : ℕ} (enumerator : Enumerator num_docs)
    (frequencies : Frequencies enumerator) where
  open floats use {scores, float_zero}
  open enumerator use {Cursor, docid, size, Shows, IsFresh, docid_eq}
  open frequencies use {HasFreqs}

  abbrev S : Type 0
  S = Score floats enumerator frequencies

  abbrev Enums : Type 0
  Enums = List (Scored floats enumerator frequencies)

  abbrev Terms : Type 0
  Terms = List (Term floats enumerator frequencies)

  abbrev memory : Enumerator num_docs
  memory = tracked num_docs

  abbrev Carry : Enums → List Tracked → Terms → Type 0
  Carry es cs terms = Carries floats enumerator frequencies es cs terms

  abbrev opened : (ℕ → Cursor) → List (ℕ × ℕ) → Enums
  opened index ps = map (scored_enum floats enumerator frequencies index) ps

  abbrev fresh_lists : (ℕ → List ℕ) → List (ℕ × ℕ) → List Tracked
  fresh_lists docs ps = in_memory floats enumerator frequencies true docs ps

  abbrev pub sizes : (ℕ → Cursor) → List (ℕ × ℕ) → List ℕ
  sizes index ps = map (λ p. size (index p.0)) ps

  sizes-opened :
      (index : ℕ → Cursor) (ps : List (ℕ × ℕ))
      → map (λ e. size e.docs_enum) (opened index ps) ≡ sizes index ps
  unfolding scored_enum
  sizes-opened index [] = refl
  sizes-opened index (p ∷ ps) = ap (◌∷◌ (size (index p.0))) (sizes-opened index ps)

  -- The enumerators sorted are those of the terms in some order of the sizes.
  sort_by_size-opened :
      (sort : Sort) (index : ℕ → Cursor) (ps : List (ℕ × ℕ))
      → (qs : List (ℕ × ℕ)) × Permᴰ qs ps
        × InOrder (sizes index qs)
        × (sort_by_size floats enumerator frequencies sort (opened index ps) ≡ opened index qs)
  unfolding sort_by_size
  sort_by_size-opened sort index ps =
      let key = λ (e : Scored floats enumerator frequencies). size e.docs_enum in
      let es = sort.sort_by key (opened index ps) in
      let (qs, order, eq) =
        Permᴰ-map (scored_enum floats enumerator frequencies index) es (opened index ps) ps
          (sort.sort_by-Permᴰ key (opened index ps)) refl in
      let ordered =
        subst (λ xs. InOrder (map key xs)) eq (sort.sort_by-InOrder key (opened index ps)) in
      (qs, order, subst InOrder (sizes-opened index qs) ordered, eq)

  opened-Placed :
      (index : ℕ → Cursor) (docs : ℕ → List ℕ) (freqs : ℕ → ℕ → ℕ) (c : ℕ) (ps : List (ℕ × ℕ))
      → ((t : ℕ) → Shows (index t) (docs t))
      → ((t : ℕ) → IsFresh (index t))
      → ((t : ℕ) → Increases num_docs 0 (docs t))
      → ((t : ℕ) → HasFreqs (index t) (freqs t))
      → Placed memory c (fresh_lists docs ps) (map (λ p. docs p.0) ps)
        × Carry
            (opened index ps)
            (fresh_lists docs ps)
            (weighted floats enumerator frequencies index freqs ps)
  unfolding scored_enum
  opened-Placed index docs freqs c [] shows fresh increases has = (tt, tt)
  opened-Placed index docs freqs c (p ∷ ps) shows fresh increases has =
      let (placed, carries) = opened-Placed index docs freqs c ps shows fresh increases has in
      (
        (refl, increases p.0, inr refl, placed),
        (refl, record { shows = shows p.0; fresh = λ h. fresh p.0; has = has p.0 }, carries),
      )

  ranked_and_enums-insert_all :
      (norm_len : ℕ → S) (index : ℕ → Cursor) (docs : ℕ → List ℕ) (freqs : ℕ → ℕ → ℕ)
      (ps : List (ℕ × ℕ)) (t : TopkQueue scores)
      → 0 < length ps
      → ((t : ℕ) → Shows (index t) (docs t))
      → ((t : ℕ) → IsFresh (index t))
      → ((t : ℕ) → Increases num_docs 0 (docs t))
      → ((t : ℕ) → HasFreqs (index t) (freqs t))
      → ranked_and_enums floats enumerator frequencies norm_len (opened index ps) t
        ≡ insert_all scores
            (collect
              (held_by_all (map (λ p. docs p.0) ps))
              (matched_by floats enumerator frequencies norm_len
                (weighted floats enumerator frequencies index freqs ps))
              0
              num_docs)
            t
  unfolding ranked_and_enums scored_enum
  ranked_and_enums-insert_all norm_len index docs freqs [] t some_term shows fresh increases has =
      absurd (omega (arith, some_term))
  ranked_and_enums-insert_all norm_len index docs freqs (p ∷ ps) t some_term shows fresh increases
        has =
      let c = docid (index p.0) in
      let lists = map (λ p. docs p.0) (p ∷ ps) in
      let terms = weighted floats enumerator frequencies index freqs (p ∷ ps) in
      let (placed, carries) = opened-Placed index docs freqs c (p ∷ ps) shows fresh increases has in
      let shown = docid_eq (index p.0) (docs p.0) (shows p.0) in
      let inside : c ≤ num_docs =
        omega (arith, shown, first_inside num_docs 0 (docs p.0) (increases p.0)) in
      let whole : num_docs - 0 ≡ num_docs = omega arith in
      let f = matched_by floats enumerator frequencies norm_len terms in
      ranked_and_loop-Inserts floats enumerator frequencies norm_len num_docs true c
        (opened index (p ∷ ps)) (fresh_lists docs (p ∷ ps)) lists terms t inside (omega arith)
        (omega arith) placed carries (λ e. sym shown)
      ∙ ap (λ xs. insert_all scores xs t)
          (sym (
              collect-later num_docs 0 c (held_by_all lists) f (omega arith) inside (λ d h h'.
                and_false_left _ _ (
                  contains-below num_docs 0 d (docs p.0) (increases p.0)
                    (omega (arith, shown, h')))))
            ∙ ap (collect (held_by_all lists) f 0) whole)

  -- Over an index whose cursor of each term is fresh and stands before its documents, which increase and
  -- are below `num_docs`, with its frequencies, `ranked_and_query` of one term or more, with a queue for
  -- `k` scores, `k` not zero, returns the number of scores in the queue, which are the `k` greatest, in order,
  -- of the scores of all documents that every term has. The score of a document adds, from zero on, for
  -- each term its weight in the query times that in the document, with the terms in an order in which the
  -- sizes of their lists do not decrease; which, where sizes are equal, is left to the sort.
  pub ranked_and_query-greatest :
      (sort : Sort) (norm_len : ℕ → S) (index : ℕ → Cursor) (docs : ℕ → List ℕ) (freqs : ℕ → ℕ → ℕ)
      (asked : ℕ) (others : List ℕ) (t : TopkQueue scores)
      → 0 < t.k
      → ((t : ℕ) → Shows (index t) (docs t))
      → ((t : ℕ) → IsFresh (index t))
      → ((t : ℕ) → Increases num_docs 0 (docs t))
      → ((t : ℕ) → HasFreqs (index t) (freqs t))
      → (sorted : List (ℕ × ℕ)) × Permᴰ sorted (query_freqs (asked ∷ others))
        × InOrder (sizes index sorted)
        × (let (t', count) =
              ranked_and_query floats enumerator frequencies sort norm_len index
                (asked ∷ others)
                t in
            let lists = map (λ p. docs p.0) sorted in
            let all =
              collect
                (held_by_all lists)
                (matched_by floats enumerator frequencies norm_len
                  (weighted floats enumerator frequencies index freqs sorted))
                0
                num_docs in
            (topk scores t' ≡ take t.k (ranked scores all [])) × (count ≡ length (topk scores t')))
  unfolding ranked_and_query clear topk_queue
  ranked_and_query-greatest sort norm_len index docs freqs asked others t pos shows fresh increases
        has =
      let ps = query_freqs (asked ∷ others) in
      let (sorted, order, ordered, eq) = sort_by_size-opened sort index ps in
      let some_sorted : 0 < length sorted =
        omega (arith, Permᴰ-length sorted ps order, length-query_freqs asked others) in
      let lists = map (λ p. docs p.0) sorted in
      let all =
        collect (held_by_all lists)
          (matched_by floats enumerator frequencies norm_len
            (weighted floats enumerator frequencies index freqs sorted))
          0 num_docs in
      (
        sorted,
        order,
        ordered,
        (
          ap
                (λ es.
                  topk scores
                    (ranked_and_enums floats enumerator frequencies norm_len es (clear scores t)))
                eq
              ∙ ap (topk scores) (
                  ranked_and_enums-insert_all norm_len index docs freqs sorted (clear scores t)
                    some_sorted shows fresh increases has)
              ∙ topk-ranked scores t.k all pos,
          refl,
        ),
      )
