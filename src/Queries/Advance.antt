-- ===== src/Queries/Advance.antt =====
-- What the inner loop of `or_query` does to the cursors.
use ds2i.Base.{
  ℕ, ◌+◌, ◌≤◌, ◌<◌, ◌≡◌, ◌⊎◌, inl, inr, refl, ◌∙◌, List, [], ◌∷◌, map, Bool-cases, true, false,
  ◌==◌, ltb, ltb→lt, if◌then◌else◌, arith,
}
use ds2i.Enumerator.{Enumerator, first, Increases}
use ds2i.Queries.{advance}
use ds2i.Queries.Counts.{contains, contains-below, any}
use ds2i.Queries.Lists.{or_false, or_true, first_later, first-contained, or_true_left, held}

module _ {num_docs : ℕ} (enumerator : Enumerator num_docs) where
  open enumerator use {Cursor, docid, next, Shows, docid_eq, next-Shows}

  -- Each cursor stands before documents from `lo` on.
  abbrev pub Posted : ℕ → List Cursor → List (List ℕ) → Type 0
  Posted lo [] [] = Unit
  Posted lo (e ∷ es) (ds ∷ lists) = Shows e ds × Increases num_docs lo ds × Posted lo es lists
  Posted lo _ _ = ⊥

  -- What the body of the inner loop does to one cursor.
  record Stepped (cur : ℕ) (e : Cursor) (ds : List ℕ) : Type 0 where
    left : List ℕ
    shows : Shows e left
    increases : Increases num_docs (cur + 1) left
    same : (d : ℕ) → cur < d → contains d left ≡ contains d ds

  step :
      (cur : ℕ) (e : Cursor) (ds : List ℕ)
      → cur < num_docs
      → Shows e ds
      → Increases num_docs cur ds
      → Stepped cur (if docid e == cur then next e else e) ds
  step cur e [] below s inc =
      let other : (docid e == cur) ≡ false = ground (arith, docid_eq e [] s) in
      rw other (record { left = []; shows = s; increases = omega arith; same = λ d h. refl })
  step cur e (x ∷ xs) below s inc = elim (Bool-cases (docid e == cur)) [
    | inl here ↦
        let e_eq : x ≡ cur = ground (arith, docid_eq e (x ∷ xs) s, here) in
        rw here (record {
          left = xs;
          shows = next-Shows e x xs s;
          increases = rw (← e_eq) inc.1;
          same = λ d h. let other : (d == x) ≡ false = ground (arith, e_eq, h) in rw other;
        })
    | inr past ↦
        let ne : cur + 1 ≤ x = ground (arith, docid_eq e (x ∷ xs) s, past, inc.0) in
        rw past (record { left = x ∷ xs; shows = s; increases = (ne, inc.1); same = λ d h. refl })
  ]

  -- What the whole inner loop leaves: the documents behind `cur`, and the first of them.
  pub record Advanced (cur next_doc : ℕ) (lists : List (List ℕ)) (es : List Cursor) (last : ℕ)
      : Type 0 where
    pub left : List (List ℕ)
    pub posted : Posted (cur + 1) es left
    pub same : (d : ℕ) → cur < d → held left d ≡ held lists d
    pub same_each : (d : ℕ) → cur < d → map (contains d) left ≡ map (contains d) lists
    pub none_between : (d : ℕ) → d < last → held left d ≡ false
    pub at_most : last ≤ next_doc
    pub behind : cur < last
    pub found : (last ≡ next_doc) ⊎ (held left last ≡ true)

  -- One cursor before the others.
  join :
      (cur next_doc last : ℕ) (e : Cursor) (es : List Cursor) (ds : List ℕ) (lists : List (List ℕ))
      → cur < next_doc
      → next_doc ≤ num_docs
      → Stepped cur e ds
      → Advanced cur (if ltb (docid e) next_doc then docid e else next_doc) lists es last
      → Advanced cur next_doc (ds ∷ lists) (e ∷ es) last
  join cur next_doc last e es ds lists past inside s a =
      let shown = docid_eq e s.left s.shows in
      record {
        left = s.left ∷ a.left;
        posted = (s.shows, s.increases, a.posted);
        same = λ d h. rw (s.same d h, a.same d h);
        same_each = λ d h. rw (s.same d h, a.same_each d h);
        none_between = λ d h.
            or_false _ _
              (contains-below num_docs (cur + 1) d s.left s.increases
                (ground (arith, shown, a.at_most, h)))
              (a.none_between d h);
        at_most = ground (arith, a.at_most);
        behind = a.behind;
        found = by_found a.found (Bool-cases (ltb (docid e) next_doc));
      }
    where
      Found : Type 0
      Found = (last ≡ next_doc) ⊎ (held (s.left ∷ a.left) last ≡ true)

      at_first : last ≡ docid e → docid e < next_doc → Found
      at_first e_last small =
          let at : last ≡ first num_docs s.left = e_last ∙ docid_eq e s.left s.shows in
          let here = first-contained num_docs s.left (omega (arith, at, e_last, small, inside)) in
          inr (or_true_left (contains last s.left) (any (contains last) a.left) (rw at here))

      by_found :
          (last ≡ (if ltb (docid e) next_doc then docid e else next_doc))
            ⊎ (held a.left last ≡ true)
          → (ltb (docid e) next_doc ≡ true) ⊎ (ltb (docid e) next_doc ≡ false)
          → Found
      by_found (inr later) c = inr (or_true _ _ later)
      by_found (inl here) (inl less) = at_first (rw less at here) (ltb→lt _ _ less)
      by_found (inl here) (inr more) = inl (rw more at here)

  pub advance-Advanced :
      (cur next_doc : ℕ) (es : List Cursor) (lists : List (List ℕ))
      → cur < next_doc
      → next_doc ≤ num_docs
      → Posted cur es lists
      → Advanced cur next_doc lists
          (advance enumerator cur next_doc es).0
          (advance enumerator cur next_doc es).1
  unfolding advance
  advance-Advanced cur next_doc [] [] past inside posted = record {
    left = [];
    posted = posted;
    same = λ d h. refl;
    same_each = λ d h. refl;
    none_between = λ d h. refl;
    at_most = omega arith;
    behind = past;
    found = inl refl;
  }
  advance-Advanced cur next_doc [] (ds ∷ lists) past inside posted = elim posted [ ]
  advance-Advanced cur next_doc (e ∷ es) [] past inside posted = elim posted [ ]
  advance-Advanced cur next_doc (e ∷ es) (ds ∷ lists) past inside posted =
      let s = step cur e ds (omega arith) posted.0 posted.1 in
      let e' = if docid e == cur then next e else e in
      let next_doc' = if ltb (docid e') next_doc then docid e' else next_doc in
      let behind : cur < docid e' =
        omega
          (arith, docid_eq e' s.left s.shows, first_later num_docs (cur + 1) s.left s.increases) in
      join cur next_doc _ e' _ ds lists past inside s
        (advance-Advanced cur next_doc' es lists (ground (arith, behind)) (ground arith) posted.2)
