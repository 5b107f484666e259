-- ===== src/Queries/Seek.antt =====
-- What the for loop of `and_query` does to the cursors.
use ds2i.Base.{
  ℕ, suc, ◌+◌, ◌≤◌, ◌<◌, ◌≡◌, ◌≢◌, ◌⊎◌, inl, inr, ap, sym, subst, refl, ◌∙◌, List, [], ◌∷◌, length,
  Bool, Bool-cases, true, false, ◌&&◌, ◌==◌, ltb, arith, Option, none, some,
}
use ds2i.Enumerator.{Enumerator, first, Increases, drop_below}
use ds2i.Queries.{seek}
use ds2i.Queries.Counts.{contains, contains-below}
use ds2i.Queries.Lists.{first_inside, first-contained}

-- All lists hold the document.
abbrev pub held_by_all : List (List ℕ) → ℕ → Bool
held_by_all [] d = true
held_by_all (ds ∷ lists) d = contains d ds && held_by_all lists d

and_false : (a b : Bool) → b ≡ false → (a && b) ≡ false
and_false true b e = e
and_false false b e = refl

pub and_false_left : (a b : Bool) → a ≡ false → (a && b) ≡ false
and_false_left a b e = rw e

pub lower :
    (universe lo m : ℕ) (ds : List ℕ) → lo ≤ m → Increases universe m ds → Increases universe lo ds
lower universe lo m [] h inc = omega arith
lower universe lo m (d ∷ ds) h inc = (omega (arith, inc.0), inc.1)

first-drop_below :
    (universe bound lo : ℕ) (ds : List ℕ)
    → bound ≤ universe
    → Increases universe lo ds
    → Increases universe lo (drop_below bound ds) × (bound ≤ first universe (drop_below bound ds))
first-drop_below universe bound lo [] small inc = (inc, small)
first-drop_below universe bound lo (d ∷ ds) small inc = elim (Bool-cases (ltb d bound)) [
  | inl less ↦
      let h = first-drop_below universe bound (d + 1) ds small inc.1 in
      rw less (lower universe lo (d + 1) _ (omega (arith, inc.0)) h.0, h.1)
  | inr more ↦ rw more (inc, ground (arith, more))
]

contains-drop_below :
    (bound d : ℕ) (ds : List ℕ) → bound ≤ d → contains d (drop_below bound ds) ≡ contains d ds
contains-drop_below bound d [] h = refl
contains-drop_below bound d (x ∷ xs) h = elim (Bool-cases (ltb x bound)) [
  | inl less ↦
      let other : (d == x) ≡ false = ground (arith, less, h) in
      rw (less, other) (contains-drop_below bound d xs h)
  | inr more ↦ rw more
]

module _ {num_docs : ℕ} (enumerator : Enumerator num_docs) where
  open enumerator use {Cursor, docid, next_geq, Shows, IsFresh, docid_eq, next_geq-Shows}

  -- Each cursor stands before increasing documents, and not behind the candidate if it moved.
  abbrev pub Placed : ℕ → List Cursor → List (List ℕ) → Type 0
  Placed candidate [] [] = Unit
  Placed candidate (e ∷ es) (ds ∷ lists) =
      Shows e ds
      × Increases num_docs 0 ds
      × ((docid e ≤ candidate) ⊎ IsFresh e)
      × Placed candidate es lists
  Placed candidate _ _ = ⊥

  pub raise-Placed :
      (c c' : ℕ) (es : List Cursor) (lists : List (List ℕ))
      → c ≤ c'
      → Placed c es lists
      → Placed c' es lists
  raise-Placed c c' [] [] h p = p
  raise-Placed c c' [] (ds ∷ lists) h p = elim p [ ]
  raise-Placed c c' (e ∷ es) [] h p = elim p [ ]
  raise-Placed c c' (e ∷ es) (ds ∷ lists) h p = (
    p.0,
    p.1,
    elim p.2 [ inl le ↦ inl (omega arith) | inr fresh ↦ inr fresh ],
    raise-Placed c c' es lists h p.3,
  )

  -- The first cursor stands at the candidate.
  abbrev pub At : ℕ → List Cursor → Type 0
  At c [] = Unit
  At c (e ∷ es) = docid e ≡ c

  -- The candidate after the loop, and what the lists say of it.
  abbrev pub Outcome : ℕ → List (List ℕ) → List Cursor → Option ℕ → Type 0
  Outcome c left es none = Placed c es left × (held_by_all left c ≡ true) × At c es
  Outcome c left es (some c') =
      Placed c' es left
      × (c < c')
      × (c' ≤ num_docs)
      × ((d : ℕ) → c ≤ d → d < c' → held_by_all left d ≡ false)

  pub record Sought (c : ℕ) (lists : List (List ℕ)) (es : List Cursor) (broken : Option ℕ)
      : Type 0 where
    pub left : List (List ℕ)
    pub same : (d : ℕ) → c ≤ d → held_by_all left d ≡ held_by_all lists d
    pub size_eq : length left ≡ length lists
    pub outcome : Outcome c left es broken

  -- A cursor after `next_geq`.
  pub record Moved (c : ℕ) (e : Cursor) (ds : List ℕ) : Type 0 where
    pub front : List ℕ
    pub shows : Shows e front
    pub increases : Increases num_docs 0 front
    pub reached : c ≤ docid e
    pub same_front : (d : ℕ) → c ≤ d → contains d front ≡ contains d ds

  moved :
      (c : ℕ) (e : Cursor) (ds : List ℕ)
      → c < num_docs
      → Shows e ds
      → Increases num_docs 0 ds
      → (docid e ≤ c) ⊎ IsFresh e
      → Moved c (next_geq c e) ds
  moved c e ds below s inc placed =
      let (inc', reached) = first-drop_below num_docs c 0 ds (omega arith) inc in
      let s' = next_geq-Shows c e ds s placed in
      record {
        front = drop_below c ds;
        shows = s';
        increases = inc';
        reached = omega (arith, docid_eq (next_geq c e) (drop_below c ds) s', reached);
        same_front = λ d h. contains-drop_below c d ds h;
      }

  join-Outcome :
      (c : ℕ) (e : Cursor) (es : List Cursor) (front : List ℕ) (left : List (List ℕ))
      (broken : Option ℕ)
      → c < num_docs
      → Shows e front
      → Increases num_docs 0 front
      → docid e ≡ c
      → Outcome c left es broken
      → Outcome c (front ∷ left) (e ∷ es) broken
  join-Outcome c e es front left none below s inc here (placed, held, at_first) =
      let at : first num_docs front ≡ c = sym (docid_eq e front s) ∙ here in
      let has : contains c front ≡ true =
        subst (λ (d : ℕ). contains d front ≡ true) at
          (first-contained num_docs front (omega (arith, at, below))) in
      ((s, inc, inl (omega (arith, here)), placed), rw (has, held), here)
  join-Outcome c e es front left (some c') below s inc here (placed, past, inside, none_between) = (
    (s, inc, inl (omega (arith, here, past)), placed),
    past,
    inside,
    λ d h h'. and_false _ _ (none_between d h h'),
  )

  pub join :
      (c : ℕ) (e : Cursor) (es : List Cursor) (ds : List ℕ) (lists : List (List ℕ))
      (broken : Option ℕ)
      → c < num_docs
      → Moved c e ds
      → docid e ≡ c
      → Sought c lists es broken
      → Sought c (ds ∷ lists) (e ∷ es) broken
  join c e es ds lists broken below m here a = record {
    left = m.front ∷ a.left;
    same = λ d h. rw (m.same_front d h, a.same d h);
    size_eq = ap suc a.size_eq;
    outcome = join-Outcome c e es m.front a.left broken below m.shows m.increases here a.outcome;
  }

  broken_off :
      (c : ℕ) (e : Cursor) (es : List Cursor) (ds : List ℕ) (lists : List (List ℕ))
      → c < num_docs
      → Moved c e ds
      → docid e ≢ c
      → Placed c es lists
      → Sought c (ds ∷ lists) (e ∷ es) (some (docid e))
  broken_off c e es ds lists below m other placed =
      let past : c < docid e = omega (arith, m.reached, other) in
      let shown = docid_eq e m.front m.shows in
      record {
        left = m.front ∷ lists;
        same = λ d h. rw (m.same_front d h);
        size_eq = refl;
        outcome = (
          (
            m.shows,
            m.increases,
            inl (omega arith),
            raise-Placed c (docid e) es lists (omega (arith, past)) placed,
          ),
          past,
          omega (arith, shown, first_inside num_docs 0 m.front m.increases),
          λ d h h'.
              and_false_left _ _
                (contains-below num_docs 0 d m.front m.increases (omega (arith, shown, h'))),
        );
      }

  pub seek-Sought :
      (c : ℕ) (es : List Cursor) (lists : List (List ℕ))
      → c < num_docs
      → Placed c es lists
      → Sought c lists (seek enumerator c es).0 (seek enumerator c es).1
  unfolding seek
  seek-Sought c [] [] below p = record {
    left = [];
    same = λ d h. refl;
    size_eq = refl;
    outcome = (p, refl, tt);
  }
  seek-Sought c [] (ds ∷ lists) below p = elim p [ ]
  seek-Sought c (e ∷ es) [] below p = elim p [ ]
  seek-Sought c (e ∷ es) (ds ∷ lists) below p =
      let m = moved c e ds below p.0 p.1 p.2 in
      elim (Bool-cases (docid (next_geq c e) == c)) [
        | inl here ↦ rw here (
            join c _ es' ds lists broken' below m (ground (arith, here))
              (seek-Sought c es lists below p.3))
        | inr past ↦
            rw past (broken_off c (next_geq c e) es ds lists below m (ground (arith, past)) p.3)
      ]
    where
      es' : List Cursor
      es' = (seek enumerator c es).0

      broken' : Option ℕ
      broken' = (seek enumerator c es).1
