-- ===== src/BlockPostingList/Cursor.antt =====
-- The enumerator of a posting list as the queries use it. A step that fails gives no enumerator,
-- and for a cursor before its documents none does.
pub mod Queried
pub mod Ranked
use ds2i.Base.{
  ℕ, zero, suc, ◌+◌, ◌-◌, ◌*◌, ◌^◌, ◌≤◌, ◌<◌, ◌≡◌, ◌≢◌, length, ◌⊎◌, inl, inr, ap, sym, subst, ◌∙◌,
  refl, Bool-cases, Option, none, some, List, [], ◌∷◌, tabulate, arith, ltb, if◌then◌else◌, true,
  false, ◌>>=◌,
}
use mathlib.Core.Option.{some-injective}
use ds2i.Codec.{Codec}
use ds2i.Enumerator.{Enumerator, first, Increases, drop_below}
use ds2i.BlockPostingList.{DocumentEnumerator, next, position, next_geq}
use ds2i.BlockPostingList.Encoded.{base, Postings}
use ds2i.BlockPostingList.Enumerate.{At}
use ds2i.BlockPostingList.Moves.{Ended, next-At, At-max_inside}
use ds2i.BlockPostingList.Scan.{Found}
use ds2i.BlockPostingList.Search.{Missed, next_geq-At, next_geq-Ended}

tabulate-Increases_from :
    {n universe : ℕ} {docs freqs : ℕ → ℕ}
    → Postings n universe docs freqs
    → (k p : ℕ) → p + k ≡ n
    → base docs p ≤ universe
    → Increases universe (base docs p) (tabulate docs p k)
tabulate-Increases_from valid zero p h small = small
tabulate-Increases_from valid (suc k) p h small = (
  valid.increases p (omega (arith, h)),
  tabulate-Increases_from valid k (suc p) (omega (arith, h))
      (omega (arith, valid.inside p (omega (arith, h)))),
)

pub cons_nonempty : (d : ℕ) (ds : List ℕ) → d ∷ ds ≢ []
cons_nonempty d ds e = let l : suc (length ds) ≡ 0 = ap length e in absurd (omega (arith, l))

-- The documents of a posting list are increasing numbers below the universe.
pub tabulate-Increases :
    {n universe : ℕ} {docs freqs : ℕ → ℕ}
    → Postings n universe docs freqs
    → Increases universe 0 (tabulate docs 0 n)
tabulate-Increases {n} valid = tabulate-Increases_from valid n 0 (omega arith) (omega arith)

drop_below-tabulate :
    (docs : ℕ → ℕ) (bound k p q : ℕ)
    → ((j : ℕ) → p ≤ j → j < q → docs j < bound)
    → p ≤ q
    → q ≤ p + k
    → (q < p + k → bound ≤ docs q)
    → drop_below bound (tabulate docs p k) ≡ tabulate docs q (p + k - q)
drop_below-tabulate docs bound zero p q passed le inside reached =
    let none_left : p + 0 - q ≡ 0 = omega (arith, le) in rw none_left refl
drop_below-tabulate docs bound (suc k) p q passed le inside reached = elim (Bool-cases (ltb p q)) [
  | inl before ↦
      let h : p < q = ground (arith, before) in
      let small : ltb (docs p) bound ≡ true = ground (arith, passed p (omega arith) h) in
      let left : p + suc k ≡ suc p + k = omega arith in
      rw (small, left)
        (drop_below-tabulate docs bound k (suc p) q
          (λ j j_le less. passed j (omega (arith, j_le)) less) (omega (arith, h))
          (omega (arith, inside)) (λ less. reached (omega (arith, less))))
  | inr there ↦
      let e : q ≡ p = ground (arith, there, le) in
      let here : bound ≤ docs p =
        subst (λ (t : ℕ). bound ≤ docs t) e (reached (omega (arith, e))) in
      let not_below : ltb (docs p) bound ≡ false = ground (arith, here) in
      let left : p + suc k - p ≡ suc k = omega arith in rw (e, not_below, left) refl
]

module _ (codec : Codec) (universe : ℕ) where
  -- An enumerator of some posting list, before its documents `ds`.
  pub record Shows (c : Option DocumentEnumerator) (ds : List ℕ) : Type 0 where
    pub here : DocumentEnumerator
    pub here_eq : c ≡ some here
    pub n : ℕ
    pub docs : ℕ → ℕ
    pub freqs : ℕ → ℕ
    pub valid : Postings n universe docs freqs
    pub p : ℕ
    pub docs_eq : ds ≡ tabulate docs p (n - p)
    pub stands :
        At codec n universe docs freqs p here
        ⊎ ((p ≡ n) × Ended codec n universe docs freqs valid here)

  abbrev pub docid : Option DocumentEnumerator → ℕ
  docid none = universe
  docid (some e) = e.cur_docid

  abbrev pub size : Option DocumentEnumerator → ℕ
  size none = 0
  size (some e) = e.n

  pub docid_eq :
      (c : Option DocumentEnumerator) (ds : List ℕ) → Shows c ds → docid c ≡ first universe ds
  docid_eq c ds s =
      rw (s.here_eq, s.docs_eq)
        (elim s.stands [
          | inl a ↦
              let inside =
                (At-max_inside codec s.n universe s.docs s.freqs s.valid s.p s.here a).1 in
              let left : s.n - s.p ≡ suc (s.n - s.p - 1) = omega (arith, inside) in
              rw left a.docid_eq
          | inr (at_end, ended) ↦
              let left : s.n - s.p ≡ 0 = omega (arith, at_end) in rw left ended.docid_eq
        ])

  pub next_cursor : Option DocumentEnumerator → Option DocumentEnumerator
  next_cursor c = c >>= next codec

  pub next_geq_cursor : ℕ → Option DocumentEnumerator → Option DocumentEnumerator
  next_geq_cursor bound c = c >>= next_geq codec bound

  pub next-Shows :
      (c : Option DocumentEnumerator) (d : ℕ) (ds : List ℕ)
      → Shows c (d ∷ ds)
      → Shows (next_cursor c) ds
  unfolding next_cursor
  next-Shows c d ds s = elim s.stands [
    | inr (at_end, ended) ↦
        let left : s.n - s.p ≡ 0 = omega (arith, at_end) in
        absurd (cons_nonempty d ds (s.docs_eq ∙ ap (tabulate s.docs s.p) left))
    | inl a ↦
        let inside = (At-max_inside codec s.n universe s.docs s.freqs s.valid s.p s.here a).1 in
        let left : s.n - s.p ≡ suc (s.n - suc s.p) = omega (arith, inside) in
        let behind : ds ≡ tabulate s.docs (suc s.p) (s.n - suc s.p) =
          ap rest (s.docs_eq ∙ ap (tabulate s.docs s.p) left) in
        let (e', ran, stands) = next-At codec s.n universe s.docs s.freqs s.valid s.p s.here a in
        record {
          here = e';
          here_eq = ap (λ x. x >>= next codec) s.here_eq ∙ ran;
          n = s.n;
          docs = s.docs;
          freqs = s.freqs;
          valid = s.valid;
          p = suc s.p;
          docs_eq = behind;
          stands = elim stands [ inl (_, at) ↦ inl at | inr (at_end, ended) ↦ inr (at_end, ended) ];
        }
  ]
    where
      rest : List ℕ → List ℕ
      rest [] = []
      rest (x ∷ xs) = xs

  -- A cursor at position 0 of a list that has not ended.
  abbrev pub IsFresh : Option DocumentEnumerator → Type 0
  IsFresh c =
      (docid c < universe) × ((e : DocumentEnumerator) × (c ≡ some e) × (position codec e ≡ 0))

  -- The assertion of `next_geq` holds.
  pub allowed_at :
      (documents : ℕ → ℕ) (bound : ℕ) (c : Option DocumentEnumerator) (p : ℕ)
      (e : DocumentEnumerator)
      → c ≡ some e
      → e.cur_docid ≡ documents p
      → p ≡ e.cur_block * codec.block_size + e.pos_in_block
      → (docid c ≤ bound) ⊎ IsFresh c
      → (documents p ≤ bound) ⊎ (p ≡ 0)
  unfolding position
  allowed_at documents bound c p e is at p_eq (inl le) = inl (omega (arith, le, at, ap docid is))
  allowed_at documents bound c p e is at p_eq (inr (inside, (e', is', start))) =
      let same : e' ≡ e = some-injective e' e (sym is' ∙ is) in
      inr (p_eq ∙ ap (position codec) (sym same) ∙ start)

  pub next_geq-Shows :
      (bound : ℕ) (c : Option DocumentEnumerator) (ds : List ℕ)
      → Shows c ds
      → (docid c ≤ bound) ⊎ IsFresh c
      → Shows (next_geq_cursor bound c) (drop_below bound ds)
  unfolding next_geq_cursor
  next_geq-Shows bound c ds s h = elim s.stands [
    | inl a ↦
        elim (next_geq-At codec s.n universe s.docs s.freqs s.valid bound s.p s.here a
          (allowed_at s.docs bound c s.p s.here s.here_eq a.docid_eq a.p_eq h)) [
            | inl f ↦
                let inside =
                  (At-max_inside codec s.n universe s.docs s.freqs s.valid f.q f.found f.at).1 in
                moved f.found f.q f.ran f.passed f.not_before (omega (arith, inside))
                  (λ less. f.reached) (inl f.at)
            | inr m ↦
                let inside =
                  (At-max_inside codec s.n universe s.docs s.freqs s.valid s.p s.here a).1 in
                moved m.found s.n m.ran m.passed (omega (arith, inside)) (omega arith)
                  (λ less. absurd (omega (arith, less))) (inr (refl, m.ended))
          ]
    | inr (at_end, ended) ↦
        let shown : docid c ≡ universe = ap docid s.here_eq ∙ ended.docid_eq in
        let (e', ran, still) =
          next_geq-Ended codec s.n universe s.docs s.freqs s.valid bound s.here ended (elim h [
            | inl le ↦ omega (arith, le, shown)
            | inr fresh ↦ absurd (omega (arith, fresh.0, shown))
          ]) in
        moved e' s.p ran (λ j le less. absurd (omega (arith, le, less))) (omega arith)
          (omega (arith, at_end)) (λ less. absurd (omega (arith, less, at_end)))
          (inr (at_end, still))
  ]
    where
      moved :
          (e' : DocumentEnumerator) (q : ℕ)
          → next_geq codec bound s.here ≡ some e'
          → ((j : ℕ) → s.p ≤ j → j < q → s.docs j < bound)
          → s.p ≤ q
          → q ≤ s.n
          → (q < s.n → bound ≤ s.docs q)
          → At codec s.n universe s.docs s.freqs q e'
            ⊎ ((q ≡ s.n) × Ended codec s.n universe s.docs s.freqs s.valid e')
          → Shows (c >>= next_geq codec bound) (drop_below bound ds)
      moved e' q ran passed le inside reached stands =
          let whole : s.p + (s.n - s.p) ≡ s.n = omega (arith, le, inside) in
          record {
            here = e';
            here_eq = ap (λ x. x >>= next_geq codec bound) s.here_eq ∙ ran;
            n = s.n;
            docs = s.docs;
            freqs = s.freqs;
            valid = s.valid;
            p = q;
            docs_eq =
                ap (drop_below bound) s.docs_eq
                ∙ drop_below-tabulate s.docs bound (s.n - s.p) s.p q passed le
                    (omega (arith, inside, whole)) (λ less. reached (omega (arith, less, whole)))
                ∙ ap (λ (t : ℕ). tabulate s.docs q (t - q)) whole;
            stands = stands;
          }

  -- The interface of the queries, implemented.
  abbrev pub posting_enumerator : Enumerator universe
  posting_enumerator = record {
    Cursor = Option DocumentEnumerator;
    docid = docid;
    size = size;
    next = next_cursor;
    next_geq = next_geq_cursor;
    Shows = Shows;
    IsFresh = IsFresh;
    docid_eq = docid_eq;
    next-Shows = next-Shows;
    next_geq-Shows = next_geq-Shows;
  }
