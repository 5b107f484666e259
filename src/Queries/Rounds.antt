-- ===== src/Queries/Rounds.antt =====
-- The outer loop of `and_query`.
use mathlib.Core.Bool.{true≢false}
use ds2i.Base.{
  ℕ, zero, suc, ◌+◌, ◌-◌, ◌≤◌, ◌<◌, ◌≡◌, inl, ap, sym, refl, ◌∙◌, List, [], ◌∷◌, length, Bool, true,
  false, ◌==◌, ltb, ltb→lt, if◌then◌else◌, arith, Option, none, some,
}
use ds2i.Enumerator.{Enumerator}
use ds2i.Queries.{seek_from, advance_first, and_loop}
use ds2i.Queries.Counts.{count, count-agree, contains-below}
use ds2i.Queries.Lists.{first_later, first_inside, count-next, count-later}
use ds2i.Queries.Seek.{
  held_by_all, and_false_left, lower, Placed, raise-Placed, At, Sought, Moved, join, seek-Sought,
}

module _ {num_docs : ℕ} (enumerator : Enumerator num_docs) where
  open enumerator use {Cursor, docid, next, size, next_geq, Shows, IsFresh, docid_eq, next-Shows}

  pub seek_from-Sought :
      (later : Bool) (c : ℕ) (es : List Cursor) (lists : List (List ℕ))
      → c < num_docs
      → Placed enumerator c es lists
      → (later ≡ true → At enumerator c es)
      → Sought enumerator c lists
          (seek_from enumerator later c es).0
          (seek_from enumerator later c es).1
  unfolding seek_from
  seek_from-Sought later c [] [] below p at = record {
    left = [];
    same = λ d h. refl;
    size_eq = refl;
    outcome = (p, refl, tt);
  }
  seek_from-Sought later c [] (ds ∷ lists) below p at = elim p [ ]
  seek_from-Sought later c (e ∷ es) [] below p at = elim p [ ]
  seek_from-Sought true c (e ∷ es) (ds ∷ lists) below p at =
      let m : Moved enumerator c e ds = record {
        front = ds;
        shows = p.0;
        increases = p.1;
        reached = omega (arith, at refl);
        same_front = λ d h. refl;
      } in
      join enumerator c e _ ds lists _ below m (at refl)
        (seek-Sought enumerator c es lists below p.3)
  seek_from-Sought false c (e ∷ es) (ds ∷ lists) below p at =
      seek-Sought enumerator c (e ∷ es) (ds ∷ lists) below p

  -- A match is counted, and the first cursor goes on to the next candidate.
  pub record Matched (c : ℕ) (lists : List (List ℕ)) (es : List Cursor) (c' : ℕ) : Type 0 where
    pub left : List (List ℕ)
    pub placed : Placed enumerator c' es left
    pub at : At enumerator c' es
    pub past : c < c'
    pub inside : c' ≤ num_docs
    pub size_eq : length left ≡ length lists
    pub counted :
        count (held_by_all lists) c (num_docs - c)
        ≡ suc (count (held_by_all left) c' (num_docs - c'))
    pub same_behind : (d : ℕ) → c < d → held_by_all left d ≡ held_by_all lists d
    pub none_between : (d : ℕ) → d < c' → held_by_all left d ≡ false

  pub match-first :
      (c : ℕ) (es : List Cursor) (lists : List (List ℕ))
      → c < num_docs
      → 0 < length lists
      → Placed enumerator c es lists
      → held_by_all lists c ≡ true
      → At enumerator c es
      → Matched c lists (advance_first enumerator es).0 (advance_first enumerator es).1
  unfolding advance_first
  match-first c es [] below some_list p held at = absurd (omega arith)
  match-first c [] (ds ∷ lists) below some_list p held at = elim p [ ]
  match-first c (e ∷ es) ([] ∷ lists) below some_list p held at =
      absurd (omega (arith, docid_eq e [] p.0, at))
  match-first c (e ∷ es) ((x ∷ xs) ∷ lists) below some_list p held at =
      let x_eq : x ≡ c = omega (arith, docid_eq e (x ∷ xs) p.0, at) in
      let s = next-Shows e x xs p.0 in
      let c' = docid (next e) in
      let shown = docid_eq (next e) xs s in
      let past : c < c' = omega (arith, shown, x_eq, first_later num_docs (x + 1) xs p.1.1) in
      let inside : c' ≤ num_docs = omega (arith, shown, first_inside num_docs (x + 1) xs p.1.1) in
      record {
        left = xs ∷ lists;
        placed = (
          s,
          lower num_docs 0 (x + 1) xs (omega arith) p.1.1,
          inl (omega arith),
          raise-Placed enumerator c c' es lists (omega (arith, past)) p.3,
        );
        at = refl;
        past = past;
        inside = inside;
        size_eq = refl;
        counted =
            count-next num_docs c c' (held_by_all ((x ∷ xs) ∷ lists)) (held_by_all (xs ∷ lists))
              held past inside
              (λ d h. let other : (d == x) ≡ false = ground (arith, x_eq, h) in rw other)
              (λ d h h'.
                and_false_left _ _
                  (contains-below num_docs (x + 1) d xs p.1.1 (omega (arith, shown, h'))));
        same_behind =
            λ d h. let other : (d == x) ≡ false = ground (arith, x_eq, h) in rw other refl;
        none_between = λ d h'.
            and_false_left _ _
              (contains-below num_docs (x + 1) d xs p.1.1 (omega (arith, shown, h')));
      }

  -- The claim on the outer loop, with `fuel` rounds.
  abbrev pub Counts : ℕ → Type 0
  Counts fuel =
      (later : Bool) (c : ℕ) (es : List Cursor) (lists : List (List ℕ))
      → c ≤ num_docs
      → num_docs ≤ c + fuel
      → 0 < length lists
      → Placed enumerator c es lists
      → (later ≡ true → At enumerator c es)
      → and_loop enumerator fuel later c es ≡ count (held_by_all lists) c (num_docs - c)

  -- One round, whose for loop left `es` and `broken`.
  round-count :
      (fuel c : ℕ) (es : List Cursor) (broken : Option ℕ) (lists : List (List ℕ))
      → Counts fuel
      → c < num_docs
      → num_docs ≤ c + suc fuel
      → 0 < length lists
      → Sought enumerator c lists es broken
      → (elim broken [
        | none ↦ suc (
            and_loop enumerator fuel true
              (advance_first enumerator es).1
              (advance_first enumerator es).0)
        | some c' ↦ and_loop enumerator fuel false c' es
      ])
        ≡ count (held_by_all lists) c (num_docs - c)
  round-count fuel c es none lists ih below enough some_list a =
      let m =
        match-first c es a.left below (omega (arith, a.size_eq)) a.outcome.0 a.outcome.1
          a.outcome.2 in
      let next_c = (advance_first enumerator es).1 in
      let rest =
        ih true next_c _ m.left m.inside (omega (arith, m.past))
          (omega (arith, m.size_eq, a.size_eq)) m.placed (λ e. m.at) in
      ap suc rest
      ∙ sym m.counted
      ∙ count-agree (held_by_all a.left) (held_by_all lists) (num_docs - c) c a.same
  round-count fuel c es (some c') lists ih below enough some_list a =
      let (placed, past, inside, none_between) = a.outcome in
      ih false c' es a.left inside (omega (arith, past)) (omega (arith, a.size_eq)) placed
        (λ e. absurd (true≢false (sym e)))
      ∙ sym
          (count-later num_docs c c' (held_by_all a.left) (omega (arith, past)) inside none_between)
      ∙ count-agree (held_by_all a.left) (held_by_all lists) (num_docs - c) c a.same

  pub and_loop-count : (fuel : ℕ) → Counts fuel
  unfolding and_loop
  and_loop-count zero later c es lists small enough some_list p at =
      let e : num_docs - c ≡ 0 = omega arith in rw e
  and_loop-count (suc fuel) later c es lists small enough some_list p at =
      by_test (ltb c num_docs) refl (and_loop-count fuel)
    where
      es' : List Cursor
      es' = (seek_from enumerator later c es).0

      broken : Option ℕ
      broken = (seek_from enumerator later c es).1

      by_test :
          (b : Bool)
          → ltb c num_docs ≡ b
          → Counts fuel
          → (if b
              then elim broken [
                | none ↦ suc (
                    and_loop enumerator fuel true
                      (advance_first enumerator es').1
                      (advance_first enumerator es').0)
                | some c' ↦ and_loop enumerator fuel false c' es'
              ]
              else 0)
            ≡ count (held_by_all lists) c (num_docs - c)
      by_test true e ih =
          let below = ltb→lt _ _ e in
          round-count fuel c es' broken lists ih below enough some_list
            (seek_from-Sought later c es lists below p at)
      by_test false e ih = let over : num_docs - c ≡ 0 = ground (arith, e) in rw over
