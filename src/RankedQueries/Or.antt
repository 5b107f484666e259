-- ===== src/RankedQueries/Or.antt =====
-- `ranked_or_query` hands the score of every document of the union to the queue, in their order.
use mathlib.Core.Bool.{true≢false}
use ds2i.Base.{
  ℕ, zero, suc, ◌+◌, ◌-◌, ◌≤◌, ◌<◌, ◌≡◌, inl, inr, ap, sym, subst, refl, ◌∙◌, List, [], ◌∷◌, map,
  length, take, Bool, Bool-cases, true, false, ◌==◌, ltb, ltb→lt, if◌then◌else◌, arith,
}
use ds2i.Enumerator.{Enumerator, Increases}
use ds2i.Enumerator.Tracked.{Tracked, tracked}
use ds2i.Bm25.{Floats, doc_term_weight, query_term_weight}
use ds2i.TopkQueue.{TopkQueue, topk_queue, insert, insert_all, clear, topk}
use ds2i.TopkQueue.Best.{ranked, topk-ranked}
use ds2i.Queries.{min_docid, advance, query_freqs}
use ds2i.Queries.Counts.{contains, contains-below}
use ds2i.Queries.Lists.{held}
use ds2i.Queries.Advance.{Posted, advance-Advanced}
use ds2i.Queries.Or.{raise-Posted, raise_all, min_docid-First}
use ds2i.RankedQueries.{
  Frequencies, Score, ScoredEnum, cursors, scored_enum, score_round, ranked_or_loop,
  ranked_or_enums, ranked_or_query,
}
use ds2i.RankedQueries.Collect.{collect, collect-skip, collect-none, collect-next}

module _ (floats : Floats) {num_docs : ℕ} (enumerator : Enumerator num_docs)
    (frequencies : Frequencies enumerator) where
  open floats use {scores, add, mul, float_zero}
  open enumerator use {Cursor, docid, next, size, Shows, IsFresh, docid_eq, next-Shows}
  open frequencies use {freq, HasFreqs}

  -- A term is its weight in the query with its frequencies by document.
  abbrev pub Term : Type 0
  Term = Score floats enumerator frequencies × (ℕ → ℕ)

  -- The score of the document `d` from `score` on; each term is with whether it has the document.
  abbrev pub score_of :
      Score floats enumerator frequencies
      → Score floats enumerator frequencies
      → List Term
      → List Bool
      → ℕ
      → Score floats enumerator frequencies
  score_of norm_len score [] bs d = score
  score_of norm_len score (t ∷ ts) [] d = score
  score_of norm_len score (t ∷ ts) (b ∷ bs) d =
      score_of norm_len
        (if b then add score (mul t.0 (doc_term_weight floats (t.1 d) norm_len)) else score) ts bs d

  -- The lists in memory, to compare with.
  abbrev pub memory : Enumerator num_docs
  memory = tracked num_docs

  abbrev pub Scored : Type 0
  Scored = ScoredEnum floats enumerator frequencies

  -- The list in memory that a cursor follows, with whether it has moved.
  pub record Follows (e : Cursor) (c : Tracked) (f : ℕ → ℕ) : Type 0 where
    pub shows : Shows e c.0
    pub fresh : c.1 ≡ true → IsFresh e
    pub has : HasFreqs e f

  abbrev pub Carries : List Scored → List Tracked → List Term → Type 0
  Carries [] [] [] = Unit
  Carries (e ∷ es) (c ∷ cs) (t ∷ ts) =
      (e.q_weight ≡ t.0) × Follows e.docs_enum c t.1 × Carries es cs ts
  Carries _ _ _ = ⊥

  -- What the body of the inner loop does to one enumerator.
  record Read (cur : ℕ) (e : Cursor) (c : Tracked) (f : ℕ → ℕ) : Type 0 where
    here_eq : (docid e == cur) ≡ contains cur c.0
    freq_here : contains cur c.0 ≡ true → (freq e).0 ≡ f cur
    still :
        Follows
          (if docid e == cur then next (freq e).1 else e)
          (if memory.docid c == cur then memory.next c else c)
          f

  read :
      (cur : ℕ) (e : Cursor) (ds : List ℕ) (b : Bool) (f : ℕ → ℕ)
      → cur < num_docs
      → Increases num_docs cur ds
      → Follows e (ds, b) f
      → Read cur e (ds, b) f
  read cur e [] b f below inc x =
      let other : (docid e == cur) ≡ false = ground (arith, docid_eq e [] x.shows) in
      let other' : (num_docs == cur) ≡ false = ground (arith, below) in
      record {
        here_eq = other;
        freq_here = λ h. absurd (true≢false (sym h));
        still = rw (other, other') x;
      }
  read cur e (d ∷ ds) b f below inc x = elim (Bool-cases (d == cur)) [
    | inl here ↦
        let e_eq : d ≡ cur = ground (arith, here) in
        let same : (cur == d) ≡ true = ground (arith, e_eq) in
        let here' : (docid e == cur) ≡ true = ground (arith, docid_eq e (d ∷ ds) x.shows, e_eq) in
        let shown = frequencies.freq-Shows e d ds f x.shows x.has in
        record {
          here_eq = rw (here', same) refl;
          freq_here = λ h. frequencies.freq_eq e d ds f x.shows x.has ∙ ap f e_eq;
          still =
              rw (here', here)
                (record {
                  shows = next-Shows (freq e).1 d ds shown;
                  fresh = λ h. absurd (true≢false (sym h));
                  has =
                      frequencies.next-HasFreqs (freq e).1 d ds f shown
                        (frequencies.freq-HasFreqs e d ds f x.shows x.has);
                });
        }
    | inr past ↦
        let later : cur < d = ground (arith, past, inc.0) in
        let past' : (docid e == cur) ≡ false = ground (arith, docid_eq e (d ∷ ds) x.shows, later) in
        let absent : contains cur (d ∷ ds) ≡ false =
          contains-below num_docs d cur (d ∷ ds) (omega arith, inc.1) later in
        record {
          here_eq = past' ∙ sym absent;
          freq_here = λ h. absurd (true≢false (sym h ∙ absent));
          still = rw (past', past) x;
        }
  ]

  -- The inner loop moves the cursors as that of `or_query` moves the lists that they follow.
  record Rounded (norm_len : Score floats enumerator frequencies) (cur next_doc : ℕ)
      (score : Score floats enumerator frequencies) (cs : List Tracked) (lists : List (List ℕ))
      (terms : List Term) (result : List Scored × Score floats enumerator frequencies × ℕ)
      : Type 0 where
    last_eq : result.2 ≡ (advance memory cur next_doc cs).1
    carries : Carries result.0 (advance memory cur next_doc cs).0 terms
    score_eq : result.1 ≡ score_of norm_len score terms (map (contains cur) lists) cur

  score_round-Rounded :
      (norm_len : Score floats enumerator frequencies) (cur next_doc : ℕ)
      (score : Score floats enumerator frequencies) (es : List Scored) (cs : List Tracked)
      (lists : List (List ℕ)) (terms : List Term)
      → cur < num_docs
      → Posted memory cur cs lists
      → Carries es cs terms
      → Rounded norm_len cur next_doc score cs lists terms
          (score_round floats enumerator frequencies norm_len cur score next_doc es)
  unfolding score_round advance
  score_round-Rounded norm_len cur next_doc score [] [] [] [] below posted carries = record {
    last_eq = refl;
    carries = tt;
    score_eq = refl;
  }
  score_round-Rounded norm_len cur next_doc score [] [] (ds ∷ lists) ts below posted carries =
      elim posted [ ]
  score_round-Rounded norm_len cur next_doc score [] [] [] (t ∷ ts) below posted carries =
      elim carries [ ]
  score_round-Rounded norm_len cur next_doc score [] (c ∷ cs) lists ts below posted carries =
      elim carries [ ]
  score_round-Rounded norm_len cur next_doc score (e ∷ es) [] lists ts below posted carries =
      elim carries [ ]
  score_round-Rounded norm_len cur next_doc score (e ∷ es) (c ∷ cs) lists [] below posted carries =
      elim carries [ ]
  score_round-Rounded norm_len cur next_doc score (e ∷ es) (c ∷ cs) [] (t ∷ ts) below posted
        carries =
      elim posted [ ]
  score_round-Rounded norm_len cur next_doc score (e ∷ es) ((xs, b) ∷ cs) (ds ∷ lists) (t ∷ ts)
        below posted carries =
      let inc : Increases num_docs cur xs =
        subst (Increases num_docs cur) (sym posted.0) posted.1 in
      let k = e.docs_enum in
      let r = read cur k xs b t.1 below inc carries.1 in
      let here = docid k == cur in
      let score' =
        if here
        then add score (mul e.q_weight (doc_term_weight floats (freq k).0 norm_len))
        else score in
      let k' = if here then next (freq k).1 else k in
      let c : Tracked = (xs, b) in
      let c' = if memory.docid c == cur then memory.next c else c in
      let next_doc' = if ltb (docid k') next_doc then docid k' else next_doc in
      let shown : docid k' ≡ memory.docid c' = docid_eq k' c'.0 r.still.shows in
      let same_next : next_doc'
          ≡ (if ltb (memory.docid c') next_doc then memory.docid c' else next_doc) =
        ap (λ (d : ℕ). if ltb d next_doc then d else next_doc) shown in
      let rest =
        subst
          (λ (m : ℕ).
            Rounded norm_len cur m score' cs lists ts
              (score_round floats enumerator frequencies norm_len cur score' next_doc' es))
          same_next
          (score_round-Rounded norm_len cur next_doc' score' es cs lists ts below posted.2
            carries.2) in
      let held_eq : here ≡ contains cur ds = r.here_eq ∙ ap (contains cur) posted.0 in
      let weighed : score' ≡ (
          if contains cur ds
          then add score (mul t.0 (doc_term_weight floats (t.1 cur) norm_len))
          else score) =
        elim (Bool-cases (contains cur ds)) [
          | inl has ↦
              rw (held_eq, has)
                (λ j. add score (
                  mul (carries.0 j) (
                    doc_term_weight floats (r.freq_here (ap (contains cur) posted.0 ∙ has) j)
                      norm_len)))
          | inr none ↦ rw (held_eq, none) refl
        ] in
      record {
        last_eq = rest.last_eq;
        carries = (carries.0, r.still, rest.carries);
        score_eq =
            rest.score_eq ∙ ap (λ s. score_of norm_len s ts (map (contains cur) lists) cur) weighed;
      }

  -- The score of a document by the lists and the terms.
  abbrev pub score_by :
      (ℕ → Score floats enumerator frequencies)
      → List Term
      → List (List ℕ)
      → ℕ
      → Score floats enumerator frequencies
  score_by norm_len terms lists d =
      score_of (norm_len d) float_zero terms (map (contains d) lists) d

  -- With `cur` the first document that is left, or `num_docs`, and a round for each number up to
  -- `num_docs`, the outer loop inserts the scores of the documents that are left.
  ranked_or_loop-collect :
      (norm_len : ℕ → Score floats enumerator frequencies) (fuel cur : ℕ) (es : List Scored)
      (cs : List Tracked) (lists : List (List ℕ)) (terms : List Term) (t : TopkQueue scores)
      → cur ≤ num_docs
      → num_docs ≤ cur + fuel
      → Posted memory cur cs lists
      → Carries es cs terms
      → (cur < num_docs → held lists cur ≡ true)
      → ranked_or_loop floats enumerator frequencies norm_len fuel cur es t
        ≡ insert_all scores
            (collect (held lists) (score_by norm_len terms lists) cur (num_docs - cur))
            t
  unfolding ranked_or_loop insert_all
  ranked_or_loop-collect norm_len zero cur es cs lists terms t small enough posted carries here =
      let e : num_docs - cur ≡ 0 = omega arith in rw e refl
  ranked_or_loop-collect norm_len (suc fuel) cur es cs lists terms t small enough posted carries
        here =
      elim (Bool-cases (ltb cur num_docs)) [
        | inr over ↦ let e : num_docs - cur ≡ 0 = ground arith in rw (over, e) refl
        | inl more ↦
            let below : cur < num_docs = ltb→lt _ _ more in
            let a = advance-Advanced memory cur num_docs cs lists below (omega arith) posted in
            let result =
              score_round floats enumerator frequencies (norm_len cur) cur float_zero num_docs es in
            let r =
              score_round-Rounded (norm_len cur) cur num_docs float_zero es cs lists terms below
                posted carries in
            let last = (advance memory cur num_docs cs).1 in
            let next_here : last < num_docs → held a.left last ≡ true =
              λ h. elim a.found [ inl e ↦ absurd (omega (arith, e, h)) | inr e ↦ e ] in
            let posted' = raise_all memory cur last _ a in
            let t' = (insert scores result.1 t).0 in
            let ih =
              ranked_or_loop-collect norm_len fuel last result.0 (advance memory cur num_docs cs).0
                a.left terms t' a.at_most (omega (arith, a.behind)) posted' r.carries next_here in
            let next_eq =
              collect-next num_docs cur last (held lists) (held a.left)
                (score_by norm_len terms lists) (score_by norm_len terms a.left) (here below)
                a.behind a.at_most a.same
                (λ d h. ap (λ bs. score_of (norm_len d) float_zero terms bs d) (a.same_each d h))
                a.none_between in
            rw more (
              ap
                (λ (m : ℕ).
                  ranked_or_loop floats enumerator frequencies norm_len fuel m result.0 t')
                r.last_eq
              ∙ ih
              ∙ ap
                  (λ x.
                    insert_all scores
                      (collect (held a.left) (score_by norm_len terms a.left) last
                        (num_docs - last))
                      (insert scores x t).0)
                  r.score_eq
              ∙ ap (λ xs. insert_all scores xs t) (sym next_eq))
      ]

  ranked_or_enums-collect :
      (norm_len : ℕ → Score floats enumerator frequencies) (es : List Scored) (cs : List Tracked)
      (lists : List (List ℕ)) (terms : List Term) (t : TopkQueue scores)
      → Posted enumerator 0 (cursors floats enumerator frequencies es) lists
      → Posted memory 0 cs lists
      → Carries es cs terms
      → ranked_or_enums floats enumerator frequencies norm_len es t
        ≡ insert_all scores (collect (held lists) (score_by norm_len terms lists) 0 num_docs) t
  unfolding ranked_or_enums insert_all
  ranked_or_enums-collect norm_len [] cs [] terms t posted in_memory carries =
      ap (λ xs. insert_all scores xs t)
        (sym (collect-none (λ d. false) (score_by norm_len terms []) num_docs 0 (λ d. refl)))
  ranked_or_enums-collect norm_len [] cs (ds ∷ lists) terms t posted in_memory carries =
      elim posted [ ]
  ranked_or_enums-collect norm_len (e ∷ es) cs lists terms t posted in_memory carries =
      let actual = cursors floats enumerator frequencies es in
      let m = min_docid enumerator e.docs_enum actual in
      let (small, none_before, here) = min_docid-First enumerator e.docs_enum actual lists posted in
      let all : num_docs ≡ m + (num_docs - m) = omega arith in
      let scored = score_by norm_len terms lists in
      let from : 0 + m ≡ m = omega arith in
      let skipped : collect (held lists) scored 0 num_docs
          ≡ collect (held lists) scored m (num_docs - m) =
        ap (collect (held lists) scored 0) all
        ∙ collect-skip (held lists) scored m (num_docs - m) 0
            (λ d h h'. none_before d (omega (arith, h', from)))
        ∙ ap (λ (k : ℕ). collect (held lists) scored k (num_docs - m)) from in
      ranked_or_loop-collect norm_len num_docs m (e ∷ es) cs lists terms t small (omega arith)
        (raise-Posted memory 0 m cs lists small none_before in_memory) carries here
      ∙ ap (λ xs. insert_all scores xs t) (sym skipped)

  -- The terms of a query with their weights, over the lists that the cursors show.
  abbrev pub weighted : (ℕ → Cursor) → (ℕ → ℕ → ℕ) → List (ℕ × ℕ) → List Term
  weighted index freqs terms =
      map (λ p. (query_term_weight floats p.1 (size (index p.0)) num_docs, freqs p.0)) terms

  -- The lists of the terms in memory.
  abbrev pub in_memory : Bool → (ℕ → List ℕ) → List (ℕ × ℕ) → List Tracked
  in_memory fresh docs terms = map (λ p. (docs p.0, fresh)) terms

  opened :
      (index : ℕ → Cursor) (docs : ℕ → List ℕ) (freqs : ℕ → ℕ → ℕ) (terms : List (ℕ × ℕ))
      → ((t : ℕ) → Shows (index t) (docs t))
      → ((t : ℕ) → Increases num_docs 0 (docs t))
      → ((t : ℕ) → HasFreqs (index t) (freqs t))
      → let es = map (scored_enum floats enumerator frequencies index) terms in
        let lists = map (λ p. docs p.0) terms in
        Posted enumerator 0 (cursors floats enumerator frequencies es) lists
        × Posted memory 0 (in_memory false docs terms) lists
        × Carries es (in_memory false docs terms) (weighted index freqs terms)
  unfolding scored_enum
  opened index docs freqs [] shows increases has = (tt, tt, tt)
  opened index docs freqs (p ∷ ps) shows increases has =
      let (posted, posted', carries) = opened index docs freqs ps shows increases has in
      (
        (shows p.0, increases p.0, posted),
        (refl, increases p.0, posted'),
        (
          refl,
          record { shows = shows p.0; fresh = λ h. absurd (true≢false (sym h)); has = has p.0 },
          carries,
        ),
      )

  -- Over an index whose cursor of each term stands before its documents, which increase and are
  -- below `num_docs`, with its frequencies, `ranked_or_query` with a queue for `k` scores, `k` not zero,
  -- returns with any terms the number of scores in the queue, which are the `k` greatest, in order, of the
  -- scores of all documents that a term has. The score of a document adds, from zero on and in the order of
  -- `query_freqs`, for each term that has it the weight of the term in the query times that in the document.
  pub ranked_or_query-greatest :
      (norm_len : ℕ → Score floats enumerator frequencies) (index : ℕ → Cursor) (docs : ℕ → List ℕ)
      (freqs : ℕ → ℕ → ℕ) (terms : List ℕ) (t : TopkQueue scores)
      → 0 < t.k
      → ((t : ℕ) → Shows (index t) (docs t))
      → ((t : ℕ) → Increases num_docs 0 (docs t))
      → ((t : ℕ) → HasFreqs (index t) (freqs t))
      → let (t', count) = ranked_or_query floats enumerator frequencies norm_len index terms t in
        let lists = map (λ p. docs p.0) (query_freqs terms) in
        let all =
          collect
            (held lists)
            (score_by norm_len (weighted index freqs (query_freqs terms)) lists)
            0
            num_docs in
        (topk scores t' ≡ take t.k (ranked scores all [])) × (count ≡ length (topk scores t'))
  unfolding ranked_or_query clear topk_queue
  ranked_or_query-greatest norm_len index docs freqs terms t pos shows increases has =
      let asked = query_freqs terms in
      let lists = map (λ p. docs p.0) asked in
      let (posted, posted', carries) = opened index docs freqs asked shows increases has in
      let es = map (scored_enum floats enumerator frequencies index) asked in
      let all =
        collect (held lists) (score_by norm_len (weighted index freqs asked) lists) 0 num_docs in
      (
        ap (topk scores) (
              ranked_or_enums-collect norm_len es (in_memory false docs asked) lists
                (weighted index freqs asked) (clear scores t) posted posted' carries)
            ∙ topk-ranked scores t.k all pos,
        refl,
      )
