-- ===== src/RankedQueries/Match.antt =====
-- What the for loop of `ranked_and_query` does to the enumerators, and the score of a match.
use mathlib.Core.Bool.{true≢false}
use mathlib.Core.Option.{none-ne-some}
use ds2i.Base.{
  ℕ, ◌≤◌, ◌<◌, ◌≡◌, ◌⊎◌, inl, inr, ap, sym, refl, ◌∙◌, List, [], ◌∷◌, Bool, Bool-cases, true, false,
  ◌==◌, Option, none, some, arith,
}
use ds2i.Enumerator.{Enumerator}
use ds2i.Bm25.{Floats, doc_term_weight}
use ds2i.Queries.{seek, seek_from, advance_first}
use ds2i.Queries.Seek.{Placed, At}
use ds2i.RankedQueries.{
  Frequencies, Score, scored_seek, scored_seek_from, score_match, scored_advance_first,
}
use ds2i.Enumerator.Tracked.{Tracked, tracked}
use ds2i.RankedQueries.Or.{Term, Scored, Follows, Carries}

module _ (floats : Floats) {num_docs : ℕ} (enumerator : Enumerator num_docs)
    (frequencies : Frequencies enumerator) where
  open floats use {scores, add, mul}
  open enumerator use {
    Cursor, docid, next, next_geq, Shows, IsFresh, docid_eq, next-Shows, next_geq-Shows,
  }
  open frequencies use {freq, HasFreqs}

  abbrev S : Type 0
  S = Score floats enumerator frequencies

  abbrev Enums : Type 0
  Enums = List (Scored floats enumerator frequencies)

  abbrev Terms : Type 0
  Terms = List (Term floats enumerator frequencies)

  abbrev memory : Enumerator num_docs
  memory = tracked num_docs

  abbrev Carry : Enums → List Tracked → Terms → Type 0
  Carry es cs terms = Carries floats enumerator frequencies es cs terms

  abbrev pub AllAt : ℕ → List Tracked → Type 0
  AllAt c [] = Unit
  AllAt c (k ∷ ks) = (memory.docid k ≡ c) × AllAt c ks

  -- The loop moves the cursors as that of `and_query` moves the lists that they follow, and ends with all
  -- at the candidate or breaks.
  pub record SeekRun (c : ℕ) (sought : List Tracked × Option ℕ) (terms : Terms)
      (result : Enums × Option ℕ) : Type 0 where
    pub broken_eq : result.1 ≡ sought.1
    pub carries : Carry result.0 sought.0 terms
    pub all_at : result.1 ≡ none → AllAt c sought.0

  follow_next_geq :
      (c : ℕ) (e : Cursor) (k : Tracked) (f : ℕ → ℕ)
      → ((memory.docid k ≤ c) ⊎ memory.IsFresh k)
      → Follows floats enumerator frequencies e k f
      → Follows floats enumerator frequencies (next_geq c e) (memory.next_geq c k) f
  follow_next_geq c e k f placed x =
      let allowed : (docid e ≤ c) ⊎ IsFresh e = elim placed [
        | inl le ↦ inl (omega (arith, le, docid_eq e k.0 x.shows))
        | inr start ↦ inr (x.fresh start)
      ] in
      record {
        shows = next_geq-Shows c e k.0 x.shows allowed;
        fresh = λ h. absurd (true≢false (sym h));
        has = frequencies.next_geq-HasFreqs c e k.0 f x.shows allowed x.has;
      }

  scored_seek-SeekRun :
      (c : ℕ) (es : Enums) (cs : List Tracked) (lists : List (List ℕ)) (terms : Terms)
      → Placed memory c cs lists
      → Carry es cs terms
      → SeekRun c (seek memory c cs) terms (scored_seek floats enumerator frequencies c es)
  unfolding scored_seek seek
  scored_seek-SeekRun c [] [] lists [] placed carries = record {
    broken_eq = refl;
    carries = tt;
    all_at = λ e. tt;
  }
  scored_seek-SeekRun c [] [] lists (t ∷ ts) placed carries = elim carries [ ]
  scored_seek-SeekRun c [] (k ∷ ks) lists ts placed carries = elim carries [ ]
  scored_seek-SeekRun c (e ∷ es) [] lists ts placed carries = elim carries [ ]
  scored_seek-SeekRun c (e ∷ es) (k ∷ ks) lists [] placed carries = elim carries [ ]
  scored_seek-SeekRun c (e ∷ es) (k ∷ ks) [] (t ∷ ts) placed carries = elim placed [ ]
  scored_seek-SeekRun c (e ∷ es) (k ∷ ks) (ds ∷ lists) (t ∷ ts) placed carries =
      let e' = next_geq c e.docs_enum in
      let k' = memory.next_geq c k in
      let x = follow_next_geq c e.docs_enum k t.1 placed.2 carries.1 in
      let shown : docid e' ≡ memory.docid k' = docid_eq e' k'.0 x.shows in
      let rest = scored_seek-SeekRun c es ks lists ts placed.3 carries.2 in
      elim (Bool-cases (memory.docid k' == c)) [
        | inl here ↦
            let here' : (docid e' == c) ≡ true = rw shown here in
            rw (here', here)
              (record {
                broken_eq = rest.broken_eq;
                carries = (carries.0, x, rest.carries);
                all_at = λ through. (ground (arith, here), rest.all_at through);
              })
        | inr past ↦
            let past' : (docid e' == c) ≡ false = rw shown past in
            rw (past', past)
              (record {
                broken_eq = ap some shown;
                carries = (carries.0, x, carries.2);
                all_at = λ through. absurd (none-ne-some (docid e') (sym through));
              })
      ]

  pub scored_seek_from-SeekRun :
      (later : Bool) (c : ℕ) (es : Enums) (cs : List Tracked) (lists : List (List ℕ))
      (terms : Terms)
      → Placed memory c cs lists
      → Carry es cs terms
      → (later ≡ true → At memory c cs)
      → SeekRun c
          (seek_from memory later c cs)
          terms
          (scored_seek_from floats enumerator frequencies later c es)
  unfolding scored_seek_from seek_from
  scored_seek_from-SeekRun later c [] [] lists [] placed carries at = record {
    broken_eq = refl;
    carries = tt;
    all_at = λ e. tt;
  }
  scored_seek_from-SeekRun later c [] [] lists (t ∷ ts) placed carries at = elim carries [ ]
  scored_seek_from-SeekRun later c [] (k ∷ ks) lists ts placed carries at = elim carries [ ]
  scored_seek_from-SeekRun later c (e ∷ es) [] lists ts placed carries at = elim carries [ ]
  scored_seek_from-SeekRun later c (e ∷ es) (k ∷ ks) lists [] placed carries at = elim carries [ ]
  scored_seek_from-SeekRun later c (e ∷ es) (k ∷ ks) [] (t ∷ ts) placed carries at = elim placed [ ]
  scored_seek_from-SeekRun true c (e ∷ es) (k ∷ ks) (ds ∷ lists) (t ∷ ts) placed carries at =
      let rest = scored_seek-SeekRun c es ks lists ts placed.3 carries.2 in
      record {
        broken_eq = rest.broken_eq;
        carries = (carries.0, carries.1, rest.carries);
        all_at = λ through. (at refl, rest.all_at through);
      }
  scored_seek_from-SeekRun false c (e ∷ es) (k ∷ ks) (ds ∷ lists) (t ∷ ts) placed carries at =
      scored_seek-SeekRun c (e ∷ es) (k ∷ ks) (ds ∷ lists) (t ∷ ts) placed carries

  -- The score of a document that all terms have, from `score` on.
  abbrev pub score_all : S → S → Terms → ℕ → S
  score_all norm_len score [] d = score
  score_all norm_len score (t ∷ ts) d =
      score_all norm_len (add score (mul t.0 (doc_term_weight floats (t.1 d) norm_len))) ts d

  -- The score of a match, after which the enumerators follow the same lists.
  pub score_match-score_all :
      (norm_len score : S) (c : ℕ) (es : Enums) (cs : List Tracked) (terms : Terms)
      → c < num_docs
      → AllAt c cs
      → Carry es cs terms
      → let (total, scored) = score_match floats enumerator frequencies norm_len score es in
        (total ≡ score_all norm_len score terms c) × Carry scored cs terms
  unfolding score_match
  score_match-score_all norm_len score c [] [] [] below at carries = (refl, tt)
  score_match-score_all norm_len score c [] [] (t ∷ ts) below at carries = elim carries [ ]
  score_match-score_all norm_len score c [] (k ∷ ks) ts below at carries = elim carries [ ]
  score_match-score_all norm_len score c (e ∷ es) [] ts below at carries = elim carries [ ]
  score_match-score_all norm_len score c (e ∷ es) (k ∷ ks) [] below at carries = elim carries [ ]
  score_match-score_all norm_len score c (e ∷ es) (([], b) ∷ ks) (t ∷ ts) below at carries =
      absurd (omega (arith, at.0, below))
  score_match-score_all norm_len score c (e ∷ es) ((x ∷ xs, b) ∷ ks) (t ∷ ts) below at carries =
      let y = carries.1 in
      let freq_eq = frequencies.freq_eq e.docs_enum x xs t.1 y.shows y.has ∙ ap t.1 at.0 in
      let (total_eq, rest) =
        score_match-score_all norm_len
          (add score (mul e.q_weight (doc_term_weight floats (freq e.docs_enum).0 norm_len))) c es
          ks ts below at.1 carries.2 in
      (
        total_eq ∙ (λ j.
            score_all norm_len
              (add score (mul (carries.0 j) (doc_term_weight floats (freq_eq j) norm_len))) ts c),
        (
          carries.0,
          record {
            shows = frequencies.freq-Shows e.docs_enum x xs t.1 y.shows y.has;
            fresh = λ start.
                frequencies.freq-IsFresh e.docs_enum x xs t.1 y.shows y.has (y.fresh start);
            has = frequencies.freq-HasFreqs e.docs_enum x xs t.1 y.shows y.has;
          },
          rest,
        ),
      )

  -- The first cursor goes on.
  pub scored_advance_first-Carries :
      (c : ℕ) (es : Enums) (cs : List Tracked) (terms : Terms)
      → c < num_docs
      → At memory c cs
      → Carry es cs terms
      → let result = scored_advance_first floats enumerator frequencies es in
        let plain = advance_first memory cs in (result.1 ≡ plain.1) × Carry result.0 plain.0 terms
  unfolding scored_advance_first advance_first
  scored_advance_first-Carries c [] [] [] below at carries = (refl, tt)
  scored_advance_first-Carries c [] [] (t ∷ ts) below at carries = elim carries [ ]
  scored_advance_first-Carries c [] (k ∷ ks) ts below at carries = elim carries [ ]
  scored_advance_first-Carries c (e ∷ es) [] ts below at carries = elim carries [ ]
  scored_advance_first-Carries c (e ∷ es) (k ∷ ks) [] below at carries = elim carries [ ]
  scored_advance_first-Carries c (e ∷ es) (([], b) ∷ ks) (t ∷ ts) below at carries =
      absurd (omega (arith, at, below))
  scored_advance_first-Carries c (e ∷ es) ((x ∷ xs, b) ∷ ks) (t ∷ ts) below at carries =
      let y = carries.1 in
      let shown = next-Shows e.docs_enum x xs y.shows in
      (
        docid_eq (next e.docs_enum) xs shown,
        (
          carries.0,
          record {
            shows = shown;
            fresh = λ h. absurd (true≢false (sym h));
            has = frequencies.next-HasFreqs e.docs_enum x xs t.1 y.shows y.has;
          },
          carries.2,
        ),
      )
