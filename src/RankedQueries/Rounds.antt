-- ===== src/RankedQueries/Rounds.antt =====
-- The outer loop of `ranked_and_query`.
use mathlib.Core.Bool.{true≢false}
use ds2i.Base.{
  ℕ, zero, suc, ◌+◌, ◌-◌, ◌≤◌, ◌<◌, ◌≡◌, inl, inr, ap, sym, subst, refl, ◌∙◌, List, length, Bool,
  Bool-cases, true, false, ltb, ltb→lt, Option, none, some, arith,
}
use ds2i.Enumerator.{Enumerator}
use ds2i.Bm25.{Floats}
use ds2i.TopkQueue.{TopkQueue, insert, insert_all}
use ds2i.Queries.{seek_from, advance_first}
use ds2i.Queries.Seek.{held_by_all, Placed, At, Sought}
use ds2i.Queries.Rounds.{seek_from-Sought, match-first}
use ds2i.RankedQueries.{
  Frequencies, Score, scored_seek_from, score_match, scored_advance_first, ranked_and_loop,
}
use ds2i.RankedQueries.Collect.{collect, collect-agree, collect-next, collect-later}
use ds2i.Enumerator.Tracked.{Tracked, tracked}
use ds2i.RankedQueries.Or.{Term, Scored, Carries}
use ds2i.RankedQueries.Match.{
  AllAt, scored_seek_from-SeekRun, score_all, score_match-score_all, scored_advance_first-Carries,
}

module _ (floats : Floats) {num_docs : ℕ} (enumerator : Enumerator num_docs)
    (frequencies : Frequencies enumerator) where
  open floats use {scores, float_zero}
  open enumerator use {Cursor, docid, size, Shows, IsFresh, docid_eq}
  open frequencies use {HasFreqs}

  abbrev S : Type 0
  S = Score floats enumerator frequencies

  abbrev Enums : Type 0
  Enums = List (Scored floats enumerator frequencies)

  abbrev Terms : Type 0
  Terms = List (Term floats enumerator frequencies)

  abbrev memory : Enumerator num_docs
  memory = tracked num_docs

  abbrev Carry : Enums → List Tracked → Terms → Type 0
  Carry es cs terms = Carries floats enumerator frequencies es cs terms

  -- The score of a document that all terms have.
  abbrev pub matched_by : (ℕ → S) → Terms → ℕ → S
  matched_by norm_len terms d =
      score_all floats enumerator frequencies (norm_len d) float_zero terms d

  -- The scores of the documents from `c` on that all lists hold.
  abbrev scores_from : (ℕ → S) → Terms → List (List ℕ) → ℕ → List S
  scores_from norm_len terms lists c =
      collect (held_by_all lists) (matched_by norm_len terms) c (num_docs - c)

  -- What is shown of the outer loop with `fuel` rounds.
  abbrev Inserts : (ℕ → S) → ℕ → Type 0
  Inserts norm_len fuel =
      (later : Bool) (c : ℕ) (es : Enums) (cs : List Tracked) (lists : List (List ℕ))
      (terms : Terms) (t : TopkQueue scores)
      → c ≤ num_docs
      → num_docs ≤ c + fuel
      → 0 < length lists
      → Placed memory c cs lists
      → Carry es cs terms
      → (later ≡ true → At memory c cs)
      → ranked_and_loop floats enumerator frequencies norm_len fuel later c es t
        ≡ insert_all scores (scores_from norm_len terms lists c) t

  -- One round, whose for loop left `es` and `broken`.
  round-insert_all :
      (norm_len : ℕ → S) (fuel c : ℕ) (es : Enums) (cs : List Tracked) (broken : Option ℕ)
      (lists : List (List ℕ)) (terms : Terms) (t : TopkQueue scores)
      → Inserts norm_len fuel
      → c < num_docs
      → num_docs ≤ c + suc fuel
      → 0 < length lists
      → Sought memory c lists cs broken
      → Carry es cs terms
      → (broken ≡ none → AllAt floats enumerator frequencies c cs)
      → (elim broken [
        | none ↦
            ranked_and_loop floats enumerator frequencies norm_len fuel true
              (scored_advance_first floats enumerator frequencies
                (score_match floats enumerator frequencies (norm_len c) float_zero es).1).1
              (scored_advance_first floats enumerator frequencies
                (score_match floats enumerator frequencies (norm_len c) float_zero es).1).0
              (insert scores
                (score_match floats enumerator frequencies (norm_len c) float_zero es).0
                t).0
        | some c' ↦ ranked_and_loop floats enumerator frequencies norm_len fuel false c' es t
      ])
        ≡ insert_all scores (scores_from norm_len terms lists c) t
  unfolding insert_all
  round-insert_all norm_len fuel c es cs none lists terms t ih below enough some_list a carries
        all_at =
      let (placed, held, at) = a.outcome in
      let m =
        match-first memory c cs a.left below (omega (arith, a.size_eq, some_list)) placed held at in
      let plain = advance_first memory cs in
      let (score_eq, follow) =
        score_match-score_all floats enumerator frequencies (norm_len c) float_zero c es cs terms
          below (all_at refl) carries in
      let (score, scored) = score_match floats enumerator frequencies (norm_len c) float_zero es in
      let moved = scored_advance_first floats enumerator frequencies scored in
      let (next_eq, still) =
        scored_advance_first-Carries floats enumerator frequencies c scored cs terms below at
          follow in
      let t' = (insert scores score t).0 in
      let rest =
        ih true plain.1 moved.0 plain.0 m.left terms t' m.inside (omega (arith, m.past, enough))
          (omega (arith, m.size_eq, a.size_eq, some_list)) m.placed still (λ e. m.at) in
      let f = matched_by norm_len terms in
      let next_scores =
        collect-next num_docs c plain.1 (held_by_all a.left) (held_by_all m.left) f f held m.past
          m.inside m.same_behind (λ d h. refl) m.none_between in
      let same =
        collect-agree (held_by_all a.left) (held_by_all lists) f f (num_docs - c) c a.same
          (λ d h. refl) in
      ap (λ (k : ℕ). ranked_and_loop floats enumerator frequencies norm_len fuel true k moved.0 t')
        next_eq
      ∙ rest
      ∙ ap
          (λ x. insert_all scores (scores_from norm_len terms m.left plain.1) (insert scores x t).0)
          score_eq
      ∙ ap (λ xs. insert_all scores xs t) (sym next_scores ∙ same)
  round-insert_all norm_len fuel c es cs (some c') lists terms t ih below enough some_list a carries
        all_at =
      let (placed, past, inside, none_between) = a.outcome in
      let f = matched_by norm_len terms in
      ih false c' es cs a.left terms t inside (omega (arith, past, enough))
        (omega (arith, a.size_eq, some_list)) placed carries (λ e. absurd (true≢false (sym e)))
      ∙ ap (λ xs. insert_all scores xs t)
          (sym (
              collect-later num_docs c c' (held_by_all a.left) f (omega (arith, past)) inside
                none_between)
            ∙ collect-agree (held_by_all a.left) (held_by_all lists) f f (num_docs - c) c a.same
                (λ d h. refl))

  pub ranked_and_loop-Inserts : (norm_len : ℕ → S) (fuel : ℕ) → Inserts norm_len fuel
  unfolding ranked_and_loop insert_all
  ranked_and_loop-Inserts norm_len zero later c es cs lists terms t small enough some_list placed
        carries at =
      let e : num_docs - c ≡ 0 = omega arith in rw e refl
  ranked_and_loop-Inserts norm_len (suc fuel) later c es cs lists terms t small enough some_list
        placed carries at =
      elim (Bool-cases (ltb c num_docs)) [
        | inr over ↦ let e : num_docs - c ≡ 0 = ground (arith, over) in rw (over, e) refl
        | inl more ↦
            let below : c < num_docs = ltb→lt _ _ more in
            let result = scored_seek_from floats enumerator frequencies later c es in
            let plain = seek_from memory later c cs in
            let r =
              scored_seek_from-SeekRun floats enumerator frequencies later c es cs lists terms
                placed carries at in
            let a = seek_from-Sought memory later c cs lists below placed at in
            let a' = subst (λ b. Sought memory c lists plain.0 b) (sym r.broken_eq) a in
            rw more (
              round-insert_all norm_len fuel c result.0 plain.0 result.1 lists terms t
                (ranked_and_loop-Inserts norm_len fuel) below enough some_list a' r.carries
                r.all_at)
      ]
