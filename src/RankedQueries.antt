-- ===== src/RankedQueries.antt =====
-- queries.hpp: the queries with scores. The scores of the documents go to topk_queue.
pub mod Collect
pub mod Or
mod Match
mod Rounds
pub mod And
pub mod Sorting
mod Tests
use ds2i.Base.{
  ℕ, zero, suc, ◌≤◌, ◌≡◌, ◌⊎◌, Option, none, some, leb, Bool, true, false, List, [], ◌∷◌, map, ltb,
  ◌==◌, if◌then◌else◌, length,
}
use mathlib.Core.List.{Permᴰ}
use ds2i.Enumerator.{Enumerator}
use ds2i.Bm25.{Floats, doc_term_weight, query_term_weight}
use ds2i.TopkQueue.{TopkQueue, insert, clear, topk}
use ds2i.Queries.{min_docid, query_freqs}

-- The frequencies of `Index::document_enumerator`: `freq` gives the frequency at the cursor and the cursor
-- behind the call, and `HasFreqs c f` says that the frequencies are `f` of the document, for the list
-- that `c` is a cursor of.
pub record Frequencies {num_docs : ℕ} (enumerator : Enumerator num_docs) : Type 1 where
  pub freq : enumerator.Cursor → ℕ × enumerator.Cursor
  pub HasFreqs : enumerator.Cursor → (ℕ → ℕ) → Type 0
  pub freq_eq :
      (c : enumerator.Cursor) (d : ℕ) (ds : List ℕ) (f : ℕ → ℕ)
      → enumerator.Shows c (d ∷ ds)
      → HasFreqs c f
      → (freq c).0 ≡ f d
  pub freq-Shows :
      (c : enumerator.Cursor) (d : ℕ) (ds : List ℕ) (f : ℕ → ℕ)
      → enumerator.Shows c (d ∷ ds)
      → HasFreqs c f
      → enumerator.Shows (freq c).1 (d ∷ ds)
  pub freq-HasFreqs :
      (c : enumerator.Cursor) (d : ℕ) (ds : List ℕ) (f : ℕ → ℕ)
      → enumerator.Shows c (d ∷ ds)
      → HasFreqs c f
      → HasFreqs (freq c).1 f
  pub freq-IsFresh :
      (c : enumerator.Cursor) (d : ℕ) (ds : List ℕ) (f : ℕ → ℕ)
      → enumerator.Shows c (d ∷ ds)
      → HasFreqs c f
      → enumerator.IsFresh c
      → enumerator.IsFresh (freq c).1
  pub next-HasFreqs :
      (c : enumerator.Cursor) (d : ℕ) (ds : List ℕ) (f : ℕ → ℕ)
      → enumerator.Shows c (d ∷ ds)
      → HasFreqs c f
      → HasFreqs (enumerator.next c) f
  pub next_geq-HasFreqs :
      (bound : ℕ) (c : enumerator.Cursor) (ds : List ℕ) (f : ℕ → ℕ)
      → enumerator.Shows c ds
      → (enumerator.docid c ≤ bound) ⊎ enumerator.IsFresh c
      → HasFreqs c f
      → HasFreqs (enumerator.next_geq bound c) f

abbrev pub InOrder : List ℕ → Type 0
InOrder [] = Unit
InOrder (x ∷ []) = Unit
InOrder (x ∷ y ∷ ys) = (x ≤ y) × InOrder (y ∷ ys)

-- `std::sort` by a key: the same elements with keys that do not decrease. Nothing is known of the order of
-- elements of the same key.
pub record Sort : Type 1 where
  pub sort_by : {A : Type 0} → (A → ℕ) → List A → List A
  pub sort_by-Permᴰ : {A : Type 0} (key : A → ℕ) (xs : List A) → Permᴰ (sort_by key xs) xs
  pub sort_by-InOrder :
      {A : Type 0} (key : A → ℕ) (xs : List A) → InOrder (map key (sort_by key xs))

module _ (floats : Floats) {num_docs : ℕ} (enumerator : Enumerator num_docs)
    (frequencies : Frequencies enumerator) where
  open floats use {scores, add, mul, float_zero}
  open enumerator use {Cursor, docid, next, next_geq, size}

  abbrev pub Score : Type 0
  Score = floats.scores.Score

  pub record ScoredEnum : Type 0 where
    pub docs_enum : Cursor
    pub q_weight : Score

  abbrev pub cursors : List ScoredEnum → List Cursor
  cursors es = map (λ e. e.docs_enum) es

  pub scored_enum : (ℕ → Cursor) → ℕ × ℕ → ScoredEnum
  scored_enum index (term, freq) =
      let list = index term in
      record { docs_enum = list; q_weight = query_term_weight floats freq (size list) num_docs }

  -- The inner loop of `ranked_or_query`: the enumerators behind it, the score and `next_doc`.
  pub score_round : Score → ℕ → Score → ℕ → List ScoredEnum → List ScoredEnum × Score × ℕ
  score_round norm_len cur_doc score next_doc [] = ([], score, next_doc)
  score_round norm_len cur_doc score next_doc (e ∷ es) =
      let here = docid e.docs_enum == cur_doc in
      let (f, read) = frequencies.freq e.docs_enum in
      let weight = doc_term_weight floats f norm_len in
      let score' = if here then add score (mul e.q_weight weight) else score in
      let c = if here then next read else e.docs_enum in
      let next_doc' = if ltb (docid c) next_doc then docid c else next_doc in
      let (es', last_score, last) = score_round norm_len cur_doc score' next_doc' es in
      (record e { docs_enum = c } ∷ es', last_score, last)

  -- The outer loop; `num_docs` rounds are enough.
  pub ranked_or_loop : (ℕ → Score) → ℕ → ℕ → List ScoredEnum → TopkQueue scores → TopkQueue scores
  ranked_or_loop norm_len zero cur_doc es t = t
  ranked_or_loop norm_len (suc fuel) cur_doc es t =
      let (es', score, next_doc) = score_round (norm_len cur_doc) cur_doc float_zero num_docs es in
      let rest = ranked_or_loop norm_len fuel next_doc es' (insert scores score t).0 in
      if ltb cur_doc num_docs then rest else t

  pub ranked_or_enums : (ℕ → Score) → List ScoredEnum → TopkQueue scores → TopkQueue scores
  ranked_or_enums norm_len [] t = t
  ranked_or_enums norm_len (e ∷ es) t =
      ranked_or_loop norm_len num_docs (min_docid enumerator e.docs_enum (cursors es)) (e ∷ es) t

  -- `norm_len` is that of the data of the query; the queue behind the query and what it returns.
  pub ranked_or_query :
      (ℕ → Score) → (ℕ → Cursor) → List ℕ → TopkQueue scores → TopkQueue scores × ℕ
  ranked_or_query norm_len index terms t =
      let t' =
        ranked_or_enums norm_len (map (scored_enum index) (query_freqs terms)) (clear scores t) in
      (t', length (topk scores t'))

  -- `std::sort` of the enumerators by size.
  pub sort_by_size : Sort → List ScoredEnum → List ScoredEnum
  sort_by_size sort es = sort.sort_by (λ e. size e.docs_enum) es

  -- The for loop of `ranked_and_query` from an index on, as that of `and_query`.
  pub scored_seek : ℕ → List ScoredEnum → List ScoredEnum × Option ℕ
  scored_seek candidate [] = ([], none)
  scored_seek candidate (e ∷ es) =
      let c = next_geq candidate e.docs_enum in
      let (es', broken) = scored_seek candidate es in
      if docid c == candidate
      then (record e { docs_enum = c } ∷ es', broken)
      else (record e { docs_enum = c } ∷ es, some (docid c))

  -- The for loop with `i` 1 if `later` and 0 if not.
  pub scored_seek_from : Bool → ℕ → List ScoredEnum → List ScoredEnum × Option ℕ
  scored_seek_from later candidate [] = ([], none)
  scored_seek_from true candidate (e ∷ es) =
      let (es', broken) = scored_seek candidate es in (e ∷ es', broken)
  scored_seek_from false candidate (e ∷ es) = scored_seek candidate (e ∷ es)

  -- The score of a match, which adds all enumerators, and the enumerators behind the calls of `freq`.
  pub score_match : Score → Score → List ScoredEnum → Score × List ScoredEnum
  score_match norm_len score [] = (score, [])
  score_match norm_len score (e ∷ es) =
      let (f, read) = frequencies.freq e.docs_enum in
      let weight = doc_term_weight floats f norm_len in
      let (total, es') = score_match norm_len (add score (mul e.q_weight weight)) es in
      (total, record e { docs_enum = read } ∷ es')

  -- `enums[0].docs_enum.next()` and the candidate that it gives.
  pub scored_advance_first : List ScoredEnum → List ScoredEnum × ℕ
  scored_advance_first [] = ([], num_docs)
  scored_advance_first (e ∷ es) =
      let c = next e.docs_enum in (record e { docs_enum = c } ∷ es, docid c)

  -- The outer loop; `num_docs` rounds are enough.
  pub ranked_and_loop :
      (ℕ → Score) → ℕ → Bool → ℕ → List ScoredEnum → TopkQueue scores → TopkQueue scores
  ranked_and_loop norm_len zero later candidate es t = t
  ranked_and_loop norm_len (suc fuel) later candidate es t =
      let (es', broken) = scored_seek_from later candidate es in
      let (score, scored) = score_match (norm_len candidate) float_zero es' in
      let (es'', next_candidate) = scored_advance_first scored in
      let matched =
        ranked_and_loop norm_len fuel true next_candidate es'' (insert scores score t).0 in
      if ltb candidate num_docs
      then elim broken [
        | none ↦ matched
        | some candidate' ↦ ranked_and_loop norm_len fuel false candidate' es' t
      ]
      else t

  pub ranked_and_enums : (ℕ → Score) → List ScoredEnum → TopkQueue scores → TopkQueue scores
  ranked_and_enums norm_len [] t = t
  ranked_and_enums norm_len (e ∷ es) t =
      ranked_and_loop norm_len num_docs true (docid e.docs_enum) (e ∷ es) t

  pub ranked_and_query :
      Sort → (ℕ → Score) → (ℕ → Cursor) → List ℕ → TopkQueue scores → TopkQueue scores × ℕ
  ranked_and_query sort norm_len index terms t =
      let es = sort_by_size sort (map (scored_enum index) (query_freqs terms)) in
      let t' = ranked_and_enums norm_len es (clear scores t) in (t', length (topk scores t'))
