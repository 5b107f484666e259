-- ===== src/BlockPostingList/Cursor/Ranked.antt =====
-- The queries with scores over posting lists that `write` wrote.
use ds2i.Base.{
  ℕ, suc, ◌-◌, ◌≤◌, ◌<◌, ◌≡◌, inl, inr, ◌⊎◌, ap, sym, subst, ◌∙◌, refl, Option, none, some, List,
  [], ◌∷◌, map, take, tabulate, arith, ◌>>=◌,
}
use ds2i.Codec.{Codec}
use ds2i.RankedQueries.{Frequencies, ranked_or_query}
use ds2i.Bm25.{Floats}
use ds2i.TopkQueue.{TopkQueue, topk}
use ds2i.TopkQueue.Best.{ranked}
use ds2i.Queries.{query_freqs}
use ds2i.Queries.Lists.{held}
use ds2i.RankedQueries.Collect.{collect}
use ds2i.RankedQueries.Or.{score_by, weighted, ranked_or_query-greatest}
use ds2i.Succinct.{Util}
use ds2i.BlockPostingList.Cursor.Queried.{
  TermList, documents, open_list, open_list-At, open_list-Shows,
}
use mathlib.Core.Option.{some-injective}
use ds2i.BlockPostingList.{DocumentEnumerator, position, next, next_geq, freq}
use ds2i.BlockPostingList.Encoded.{Postings}
use ds2i.BlockPostingList.Enumerate.{At}
use ds2i.BlockPostingList.Moves.{Ended, next-At, At-max_inside}
use ds2i.BlockPostingList.Search.{next_geq-At, next_geq-Ended}
use ds2i.BlockPostingList.Freqs.{freq-At}
use ds2i.BlockPostingList.Cursor.{
  Shows, docid, docid_eq, next_cursor, next_geq_cursor, posting_enumerator, IsFresh, allowed_at,
  cons_nonempty, tabulate-Increases,
}

module _ (codec : Codec) (universe : ℕ) where
  read_freq : Option (DocumentEnumerator × ℕ) → ℕ × Option DocumentEnumerator
  read_freq none = (0, none)
  read_freq (some (e, f)) = (f, some e)

  -- The frequency, and the enumerator whose frequencies are decoded now.
  pub freq_cursor : Option DocumentEnumerator → ℕ × Option DocumentEnumerator
  freq_cursor none = (0, none)
  freq_cursor (some e) = read_freq (freq codec e)

  -- An enumerator of some posting list whose frequencies are `f` of the documents.
  pub record HasFreqs (c : Option DocumentEnumerator) (f : ℕ → ℕ) : Type 0 where
    pub here : DocumentEnumerator
    pub here_eq : c ≡ some here
    pub n : ℕ
    pub docs : ℕ → ℕ
    pub freqs : ℕ → ℕ
    pub valid : Postings n universe docs freqs
    pub p : ℕ
    pub stands :
        At codec n universe docs freqs p here
        ⊎ ((p ≡ n) × Ended codec n universe docs freqs valid here)
    pub agree : (q : ℕ) → q < n → f (docs q) ≡ freqs q

  docid_inside :
      (c : Option DocumentEnumerator) (d : ℕ) (ds : List ℕ)
      → Shows codec universe c (d ∷ ds)
      → docid codec universe c < universe
  docid_inside c d ds s = elim s.stands [
    | inl a ↦
        let inside = (At-max_inside codec s.n universe s.docs s.freqs s.valid s.p s.here a).1 in
        rw (s.here_eq) (omega (arith, a.docid_eq, s.valid.inside s.p inside))
    | inr (at_end, ended) ↦
        let left : s.n - s.p ≡ 0 = omega (arith, at_end) in
        absurd (cons_nonempty d ds (s.docs_eq ∙ ap (tabulate s.docs s.p) left))
  ]

  -- Before a document the list has not ended.
  at_document :
      (c : Option DocumentEnumerator) (d : ℕ) (ds : List ℕ) (f : ℕ → ℕ)
      → Shows codec universe c (d ∷ ds)
      → (h : HasFreqs c f) → At codec h.n universe h.docs h.freqs h.p h.here
  at_document c d ds f s h = elim h.stands [
    | inl a ↦ a
    | inr (at_end, ended) ↦
        let shown : docid codec universe c ≡ universe =
          ap (docid codec universe) h.here_eq ∙ ended.docid_eq in
        absurd (omega (arith, shown, docid_inside c d ds s))
  ]

  -- What `freq` makes of a cursor before a document.
  record ReadFreq (c : Option DocumentEnumerator) (h : DocumentEnumerator → Type 0) (f : ℕ)
      : Type 0 where
    there : DocumentEnumerator
    ran : freq_cursor c ≡ (f, some there)
    at : h there

  read_at :
      (n : ℕ) (docs freqs : ℕ → ℕ) (valid : Postings n universe docs freqs) (p : ℕ)
      (c : Option DocumentEnumerator) (e : DocumentEnumerator)
      → c ≡ some e
      → At codec n universe docs freqs p e
      → ReadFreq c (At codec n universe docs freqs p) (freqs p)
  unfolding freq_cursor read_freq
  read_at n docs freqs valid p c e is a =
      let (e', ran, at, decoded) = freq-At codec n universe docs freqs valid p e a in
      record { there = e'; ran = ap freq_cursor is ∙ ap read_freq ran; at = at }

  pub freq_eq :
      (c : Option DocumentEnumerator) (d : ℕ) (ds : List ℕ) (f : ℕ → ℕ)
      → Shows codec universe c (d ∷ ds)
      → HasFreqs c f
      → (freq_cursor c).0 ≡ f d
  freq_eq c d ds f s h =
      let a = at_document c d ds f s h in
      let inside = (At-max_inside codec h.n universe h.docs h.freqs h.valid h.p h.here a).1 in
      let r = read_at h.n h.docs h.freqs h.valid h.p c h.here h.here_eq a in
      let d_eq : h.docs h.p ≡ d =
        sym a.docid_eq
        ∙ ap (docid codec universe) (sym h.here_eq)
        ∙ docid_eq codec universe c (d ∷ ds) s in
      ap (λ (x : ℕ × Option DocumentEnumerator). x.0) r.ran ∙ sym (h.agree h.p inside) ∙ ap f d_eq

  -- A cursor before a document stands at a posting of the list that it shows.
  shown_at :
      (c : Option DocumentEnumerator) (d : ℕ) (ds : List ℕ)
      → (s : Shows codec universe c (d ∷ ds)) → At codec s.n universe s.docs s.freqs s.p s.here
  shown_at c d ds s = elim s.stands [
    | inl a ↦ a
    | inr (at_end, ended) ↦
        let shown : docid codec universe c ≡ universe =
          ap (docid codec universe) s.here_eq ∙ ended.docid_eq in
        absurd (omega (arith, shown, docid_inside c d ds s))
  ]

  pub freq-Shows :
      (c : Option DocumentEnumerator) (d : ℕ) (ds : List ℕ) (f : ℕ → ℕ)
      → Shows codec universe c (d ∷ ds)
      → HasFreqs c f
      → Shows codec universe (freq_cursor c).1 (d ∷ ds)
  freq-Shows c d ds f s h =
      let r = read_at s.n s.docs s.freqs s.valid s.p c s.here s.here_eq (shown_at c d ds s) in
      record {
        here = r.there;
        here_eq = ap (λ (x : ℕ × Option DocumentEnumerator). x.1) r.ran;
        n = s.n;
        docs = s.docs;
        freqs = s.freqs;
        valid = s.valid;
        p = s.p;
        docs_eq = s.docs_eq;
        stands = inl r.at;
      }

  pub freq-HasFreqs :
      (c : Option DocumentEnumerator) (d : ℕ) (ds : List ℕ) (f : ℕ → ℕ)
      → Shows codec universe c (d ∷ ds)
      → HasFreqs c f
      → HasFreqs (freq_cursor c).1 f
  freq-HasFreqs c d ds f s h =
      let r =
        read_at h.n h.docs h.freqs h.valid h.p c h.here h.here_eq (at_document c d ds f s h) in
      record {
        here = r.there;
        here_eq = ap (λ (x : ℕ × Option DocumentEnumerator). x.1) r.ran;
        n = h.n;
        docs = h.docs;
        freqs = h.freqs;
        valid = h.valid;
        p = h.p;
        stands = inl r.at;
        agree = h.agree;
      }

  pub freq-IsFresh :
      (c : Option DocumentEnumerator) (d : ℕ) (ds : List ℕ) (f : ℕ → ℕ)
      → Shows codec universe c (d ∷ ds)
      → HasFreqs c f
      → IsFresh codec universe c
      → IsFresh codec universe (freq_cursor c).1
  unfolding position
  freq-IsFresh c d ds f s h (inside, (e, is, start)) =
      let a = shown_at c d ds s in
      let r = read_at s.n s.docs s.freqs s.valid s.p c s.here s.here_eq a in
      let there_eq : (freq_cursor c).1 ≡ some r.there =
        ap (λ (x : ℕ × Option DocumentEnumerator). x.1) r.ran in
      let same : e ≡ s.here = some-injective e s.here (sym is ∙ s.here_eq) in
      let below : s.here.cur_docid < universe =
        subst (λ x. docid codec universe x < universe) s.here_eq inside in
      let below' : docid codec universe (some r.there) < universe =
        omega (arith, below, a.docid_eq, r.at.docid_eq) in
      (
        subst (λ x. docid codec universe x < universe) (sym there_eq) below',
        (r.there, there_eq, sym r.at.p_eq ∙ a.p_eq ∙ ap (position codec) (sym same) ∙ start),
      )

  pub next-HasFreqs :
      (c : Option DocumentEnumerator) (d : ℕ) (ds : List ℕ) (f : ℕ → ℕ)
      → Shows codec universe c (d ∷ ds)
      → HasFreqs c f
      → HasFreqs (next_cursor codec universe c) f
  unfolding next_cursor
  next-HasFreqs c d ds f s h =
      let a = at_document c d ds f s h in
      let (e', ran, stands) = next-At codec h.n universe h.docs h.freqs h.valid h.p h.here a in
      record {
        here = e';
        here_eq = ap (λ x. x >>= next codec) h.here_eq ∙ ran;
        n = h.n;
        docs = h.docs;
        freqs = h.freqs;
        valid = h.valid;
        p = suc h.p;
        stands = elim stands [ inl (_, at) ↦ inl at | inr (at_end, ended) ↦ inr (at_end, ended) ];
        agree = h.agree;
      }

  pub next_geq-HasFreqs :
      (bound : ℕ) (c : Option DocumentEnumerator) (ds : List ℕ) (f : ℕ → ℕ)
      → Shows codec universe c ds
      → (docid codec universe c ≤ bound) ⊎ IsFresh codec universe c
      → HasFreqs c f
      → HasFreqs (next_geq_cursor codec universe bound c) f
  unfolding next_geq_cursor
  next_geq-HasFreqs bound c ds f s placed h = elim h.stands [
    | inl a ↦
        elim (next_geq-At codec h.n universe h.docs h.freqs h.valid bound h.p h.here a (
          allowed_at codec universe h.docs bound c h.p h.here h.here_eq a.docid_eq a.p_eq placed)) [
            | inl found ↦ moved found.found found.q found.ran (inl found.at)
            | inr m ↦ moved m.found h.n m.ran (inr (refl, m.ended))
          ]
    | inr (at_end, ended) ↦
        let shown : docid codec universe c ≡ universe =
          ap (docid codec universe) h.here_eq ∙ ended.docid_eq in
        let (e', ran, still) =
          next_geq-Ended codec h.n universe h.docs h.freqs h.valid bound h.here ended (elim placed [
            | inl le ↦ omega (arith, le, shown)
            | inr fresh ↦ absurd (omega (arith, fresh.0, shown))
          ]) in
        moved e' h.p ran (inr (at_end, still))
  ]
    where
      moved :
          (e' : DocumentEnumerator) (q : ℕ)
          → next_geq codec bound h.here ≡ some e'
          → At codec h.n universe h.docs h.freqs q e'
            ⊎ ((q ≡ h.n) × Ended codec h.n universe h.docs h.freqs h.valid e')
          → HasFreqs (c >>= next_geq codec bound) f
      moved e' q ran stands = record {
        here = e';
        here_eq = ap (λ x. x >>= next_geq codec bound) h.here_eq ∙ ran;
        n = h.n;
        docs = h.docs;
        freqs = h.freqs;
        valid = h.valid;
        p = q;
        stands = stands;
        agree = h.agree;
      }

  -- The frequencies of the queries with scores, implemented.
  abbrev pub posting_frequencies : Frequencies (posting_enumerator codec universe)
  posting_frequencies = record {
    freq = freq_cursor;
    HasFreqs = HasFreqs;
    freq_eq = freq_eq;
    freq-Shows = freq-Shows;
    freq-HasFreqs = freq-HasFreqs;
    freq-IsFresh = freq-IsFresh;
    next-HasFreqs = next-HasFreqs;
    next_geq-HasFreqs = next_geq-HasFreqs;
  }

  module _ (util : Util) where
    open_list-HasFreqs :
        (t : TermList codec util universe) (by_doc : ℕ → ℕ)
        → ((q : ℕ) → q < t.n → by_doc (t.docs q) ≡ t.freqs q)
        → HasFreqs (open_list codec util universe t) by_doc
    open_list-HasFreqs t by_doc agree =
        let (e, opened, at) = open_list-At codec util universe t in
        record {
          here = e;
          here_eq = opened;
          n = t.n;
          docs = t.docs;
          freqs = t.freqs;
          valid = t.valid;
          p = 0;
          stands = inl at;
          agree = agree;
        }

    -- Over an index of posting lists as `write` wrote them, of less than 2^32 bytes each and with
    -- enough bytes behind each of them, `ranked_or_query` with the enumerators of block_posting_list
    -- and a queue for `k` scores, `k` not zero, leaves in the queue the `k` greatest, in order, of the scores of
    -- all documents that are in the list of a term, with the frequencies that were written, which
    -- `by_doc` gives by document.
    pub ranked_or_query-write :
        (floats : Floats) (norm_len : ℕ → floats.scores.Score)
        (index : ℕ → TermList codec util universe) (by_doc : ℕ → ℕ → ℕ) (terms : List ℕ)
        (queue : TopkQueue floats.scores)
        → 0 < queue.k
        → ((t q : ℕ) → q < (index t).n → by_doc t ((index t).docs q) ≡ (index t).freqs q)
        → let opened = λ (t : ℕ). open_list codec util universe (index t) in
          let lists = map (λ p. documents codec util universe (index p.0)) (query_freqs terms) in
          let weights =
            weighted floats
              (posting_enumerator codec universe)
              posting_frequencies
              opened
              by_doc
              (query_freqs terms) in
          let all =
            collect
              (held lists)
              (score_by floats
                (posting_enumerator codec universe)
                posting_frequencies
                norm_len
                weights
                lists)
              0
              universe in
          topk floats.scores
            (ranked_or_query floats
              (posting_enumerator codec universe)
              posting_frequencies
              norm_len
              opened
              terms
              queue).0
          ≡ take queue.k (ranked floats.scores all [])
    ranked_or_query-write floats norm_len index by_doc terms queue pos agree =
        (ranked_or_query-greatest floats (posting_enumerator codec universe) posting_frequencies
          norm_len (λ t. open_list codec util universe (index t))
          (λ t. documents codec util universe (index t)) by_doc terms queue pos
          (λ t. open_list-Shows codec util universe (index t))
          (λ t. tabulate-Increases (index t).valid)
          (λ t. open_list-HasFreqs (index t) (by_doc t) (agree t))).0
