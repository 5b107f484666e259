-- ===== src/Queries/Or.antt =====
-- `or_query` counts the documents that some list holds.
use ds2i.Base.{
  ℕ, zero, suc, ◌+◌, ◌-◌, ◌≤◌, ◌<◌, ◌≡◌, inl, inr, ap, sym, subst, refl, ◌∙◌, List, [], ◌∷◌, map,
  Bool-cases, true, false, ◌||◌, ltb, ltb→lt, arith, min,
}
use ds2i.Enumerator.{Enumerator, first, Increases}
use ds2i.Queries.{min_docid, advance, or_loop, or_enums, or_query, remove_duplicate_terms}
use ds2i.Queries.Counts.{count, count-skip, count-agree, count-none, contains, any}
use ds2i.Queries.Terms.{any-remove_duplicate_terms}
use ds2i.Queries.Lists.{
  raise, or_false_left, or_false_right, le_first, held, First, first_inside, First-cons, count-next,
}
use ds2i.Queries.Advance.{Posted, Advanced, advance-Advanced}

module _ {num_docs : ℕ} (enumerator : Enumerator num_docs) where
  open enumerator use {Cursor, docid, next, Shows, docid_eq, next-Shows}

  pub raise-Posted :
      (lo m : ℕ) (es : List Cursor) (lists : List (List ℕ))
      → m ≤ num_docs
      → ((d : ℕ) → d < m → held lists d ≡ false)
      → Posted enumerator lo es lists
      → Posted enumerator m es lists
  raise-Posted lo m [] [] small none_before posted = posted
  raise-Posted lo m [] (ds ∷ lists) small none_before posted = elim posted [ ]
  raise-Posted lo m (e ∷ es) [] small none_before posted = elim posted [ ]
  raise-Posted lo m (e ∷ es) (ds ∷ lists) small none_before posted =
      let none_first = le_first num_docs m ds small (λ d h. or_false_left _ _ (none_before d h)) in
      (
        posted.0,
        raise num_docs lo m ds small none_first posted.1,
        raise-Posted lo m es lists small (λ d h. or_false_right _ _ (none_before d h)) posted.2,
      )

  pub raise_all :
      (cur last : ℕ) (es : List Cursor) {lists : List (List ℕ)}
      (a : Advanced enumerator cur num_docs lists es last)
      → Posted enumerator last es a.left
  raise_all cur last es a = raise-Posted (cur + 1) last es a.left a.at_most a.none_between a.posted

  -- With `cur` the first document that is left, or `num_docs`, and a round for each number up to
  -- `num_docs`, the outer loop counts the documents that are left.
  or_loop-count :
      (fuel cur : ℕ) (es : List Cursor) (lists : List (List ℕ))
      → cur ≤ num_docs
      → num_docs ≤ cur + fuel
      → Posted enumerator cur es lists
      → (cur < num_docs → held lists cur ≡ true)
      → or_loop enumerator fuel cur es ≡ count (held lists) cur (num_docs - cur)
  unfolding or_loop
  or_loop-count zero cur es lists small enough posted here =
      let e : num_docs - cur ≡ 0 = omega arith in rw e
  or_loop-count (suc fuel) cur es lists small enough posted here =
      elim (Bool-cases (ltb cur num_docs)) [
        | inl more ↦
            let below : cur < num_docs = ltb→lt _ _ more in
            let a = advance-Advanced enumerator cur num_docs es lists below (omega arith) posted in
            let next_doc = (advance enumerator cur num_docs es).1 in
            let next_here : next_doc < num_docs → held a.left next_doc ≡ true =
              λ h. elim a.found [ inl e ↦ absurd (omega (arith, e, h)) | inr e ↦ e ] in
            let ih =
              or_loop-count fuel next_doc _ a.left a.at_most (omega (arith, a.behind))
                (raise_all cur next_doc _ a) next_here in
            rw more (
              ap suc ih
              ∙ sym (
                  count-next num_docs cur next_doc (held lists) (held a.left) (here below) a.behind
                    a.at_most a.same (λ d h h'. a.none_between d h')))
        | inr over ↦ let e : num_docs - cur ≡ 0 = ground arith in rw (over, e)
      ]

  -- `std::min_element` finds the first document of all.
  pub min_docid-First :
      (e : Cursor) (es : List Cursor) (lists : List (List ℕ))
      → Posted enumerator 0 (e ∷ es) lists
      → First num_docs (min_docid enumerator e es) lists
  unfolding min_docid
  min_docid-First e es [] posted = elim posted [ ]
  min_docid-First e [] (ds ∷ []) posted =
      let only : min (first num_docs ds) num_docs ≡ docid e =
        omega (arith, docid_eq e ds posted.0, first_inside num_docs 0 ds posted.1) in
      subst (λ (m : ℕ). First num_docs m (ds ∷ [])) only
        (First-cons num_docs num_docs ds [] posted.1
          (omega arith, λ d h. refl, λ h. absurd (omega arith)))
  min_docid-First e [] (ds ∷ ds' ∷ lists) posted = elim posted.2 [ ]
  min_docid-First e (e' ∷ es) (ds ∷ lists) posted =
      subst (λ (d : ℕ). First num_docs (min d (min_docid enumerator e' es)) (ds ∷ lists))
        (sym (docid_eq e ds posted.0))
        (First-cons num_docs (min_docid enumerator e' es) ds lists posted.1
          (min_docid-First e' es lists posted.2))

  or_enums-count :
      (es : List Cursor) (lists : List (List ℕ))
      → Posted enumerator 0 es lists
      → or_enums enumerator es ≡ count (held lists) 0 num_docs
  unfolding or_enums
  or_enums-count [] [] posted = sym (count-none (λ d. false) num_docs 0 (λ d. refl))
  or_enums-count [] (ds ∷ lists) posted = elim posted [ ]
  or_enums-count (e ∷ es) lists posted =
      let m = min_docid enumerator e es in
      let (small, none_before, here) = min_docid-First e es lists posted in
      let all : m + (num_docs - m) ≡ num_docs = omega arith in
      let skipped : count (held lists) 0 num_docs ≡ count (held lists) m (num_docs - m) =
        ap (count (held lists) 0) (sym all)
        ∙ count-skip (held lists) m (num_docs - m) 0 (λ d h h'. none_before d (omega arith))
        ∙ ap (λ (t : ℕ). count (held lists) t (num_docs - m)) (omega arith) in
      or_loop-count num_docs m (e ∷ es) lists small (omega arith)
        (raise-Posted 0 m (e ∷ es) lists small none_before posted) here
      ∙ sym skipped

  Posted-lists :
      (index : ℕ → Cursor) (docs : ℕ → List ℕ) (terms : List ℕ)
      → ((t : ℕ) → Shows (index t) (docs t))
      → ((t : ℕ) → Increases num_docs 0 (docs t))
      → Posted enumerator 0 (map index terms) (map docs terms)
  Posted-lists index docs [] shows increases = tt
  Posted-lists index docs (t ∷ ts) shows increases =
      (shows t, increases t, Posted-lists index docs ts shows increases)

  held_terms :
      (docs : ℕ → List ℕ) (terms : List ℕ) (d : ℕ)
      → held (map docs terms) d ≡ any (λ t. contains d (docs t)) terms
  held_terms docs [] d = refl
  held_terms docs (t ∷ ts) d = ap (◌||◌ (contains d (docs t))) (held_terms docs ts d)

  -- Over an index whose cursor of each term stands before its documents, which increase and are
  -- below `num_docs`, `or_query` of any terms, in any order and with repetitions, returns the number of documents that
  -- one of the terms has at least.
  pub or_query-count :
      (index : ℕ → Cursor) (docs : ℕ → List ℕ) (terms : List ℕ)
      → ((t : ℕ) → Shows (index t) (docs t))
      → ((t : ℕ) → Increases num_docs 0 (docs t))
      → or_query enumerator index terms
        ≡ count (λ d. any (λ t. contains d (docs t)) terms) 0 num_docs
  unfolding or_query
  or_query-count index docs [] shows increases =
      sym (count-none (λ d. false) num_docs 0 (λ d. refl))
  or_query-count index docs (t ∷ ts) shows increases =
      let terms = remove_duplicate_terms (t ∷ ts) in
      or_enums-count (map index terms) (map docs terms)
        (Posted-lists index docs terms shows increases)
      ∙ count-agree (held (map docs terms)) (λ d. any (λ t. contains d (docs t)) (t ∷ ts)) num_docs
          0
          (λ d h.
            held_terms docs terms d
            ∙ any-remove_duplicate_terms (λ t. contains d (docs t)) (t ∷ ts))
