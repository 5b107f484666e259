-- ===== src/Queries/And.antt =====
-- `and_query` counts the documents that every list holds.
use ds2i.Base.{
  ℕ, suc, ◌-◌, ◌≤◌, ◌<◌, ◌≡◌, inr, ap, sym, refl, ◌∙◌, List, [], ◌∷◌, map, length, Bool, true,
  false, ◌&&◌, ◌||◌, not, leb, if◌then◌else◌, arith, length-map,
}
use ds2i.Enumerator.{Enumerator, Increases}
use ds2i.Queries.{and_enums, insert_by_size, sort_by_size, and_query, remove_duplicate_terms}
use ds2i.Queries.Counts.{count, count-agree, contains, contains-below, any}
use ds2i.Queries.Lists.{first_inside, count-later}
use ds2i.Queries.Seek.{held_by_all, and_false_left, Placed}
use ds2i.Queries.Terms.{any-remove_duplicate_terms, some_term}
use ds2i.Queries.Rounds.{and_loop-count}

and_swap : (a b c : Bool) → (a && (b && c)) ≡ (b && (a && c))
and_swap true true c = refl
and_swap true false c = refl
and_swap false true c = refl
and_swap false false c = refl

-- Every term has the property.
abbrev pub all : (ℕ → Bool) → List ℕ → Bool
all p [] = true
all p (x ∷ xs) = p x && all p xs

all-any : (p : ℕ → Bool) (xs : List ℕ) → all p xs ≡ not (any (λ x. not (p x)) xs)
all-any p [] = refl
all-any p (x ∷ xs) = rw (all-any p xs) (de_morgan (p x) (any (λ x. not (p x)) xs))
  where
    de_morgan : (a b : Bool) → (a && not b) ≡ not (not a || b)
    de_morgan true b = refl
    de_morgan false b = refl

all-remove_duplicate_terms :
    (p : ℕ → Bool) (terms : List ℕ) → all p (remove_duplicate_terms terms) ≡ all p terms
all-remove_duplicate_terms p terms =
    all-any p (remove_duplicate_terms terms)
    ∙ ap not (any-remove_duplicate_terms (λ x. not (p x)) terms)
    ∙ sym (all-any p terms)

module _ {num_docs : ℕ} (enumerator : Enumerator num_docs) where
  open enumerator use {Cursor, docid, size, Shows, IsFresh, docid_eq}

  -- Cursors that have not moved, each before increasing documents.
  abbrev AllFresh : List Cursor → List (List ℕ) → Type 0
  AllFresh [] [] = Unit
  AllFresh (e ∷ es) (ds ∷ lists) =
      Shows e ds × Increases num_docs 0 ds × IsFresh e × AllFresh es lists
  AllFresh _ _ = ⊥

  -- Fresh cursors in some order, and what they hold together.
  record Fresh (es : List Cursor) (held : ℕ → Bool) (n : ℕ) : Type 0 where
    lists : List (List ℕ)
    placed : AllFresh es lists
    held_eq : (d : ℕ) → held_by_all lists d ≡ held d
    size_eq : length lists ≡ n

  insert_by_size-Fresh :
      (e : Cursor) (es : List Cursor) (ds : List ℕ) (lists : List (List ℕ))
      → AllFresh (e ∷ es) (ds ∷ lists)
      → Fresh (insert_by_size enumerator e es) (held_by_all (ds ∷ lists)) (suc (length lists))
  unfolding insert_by_size
  insert_by_size-Fresh e [] ds lists p = record {
    lists = ds ∷ lists;
    placed = p;
    held_eq = λ d. refl;
    size_eq = refl;
  }
  insert_by_size-Fresh e (e' ∷ es) ds [] p = elim p.3 [ ]
  insert_by_size-Fresh e (e' ∷ es) ds (ds' ∷ lists) p =
      by_order (leb (size e) (size e')) (insert_by_size-Fresh e es ds lists (p.0, p.1, p.2, p.3.3))
    where
      by_order :
          (b : Bool)
          → Fresh (insert_by_size enumerator e es) (held_by_all (ds ∷ lists)) (suc (length lists))
          → Fresh
              (if b then e ∷ e' ∷ es else e' ∷ insert_by_size enumerator e es)
              (held_by_all (ds ∷ ds' ∷ lists))
              (suc (suc (length lists)))
      by_order true f = record {
        lists = ds ∷ ds' ∷ lists;
        placed = p;
        held_eq = λ d. refl;
        size_eq = refl;
      }
      by_order false f = record {
        lists = ds' ∷ f.lists;
        placed = (p.3.0, p.3.1, p.3.2, f.placed);
        held_eq =
            λ d. rw (f.held_eq d) (and_swap (contains d ds') (contains d ds) (held_by_all lists d));
        size_eq = ap suc f.size_eq;
      }

  sort_by_size-Fresh :
      (es : List Cursor) (lists : List (List ℕ))
      → AllFresh es lists
      → Fresh (sort_by_size enumerator es) (held_by_all lists) (length lists)
  unfolding sort_by_size
  sort_by_size-Fresh [] [] p = record {
    lists = [];
    placed = p;
    held_eq = λ d. refl;
    size_eq = refl;
  }
  sort_by_size-Fresh [] (ds ∷ lists) p = elim p [ ]
  sort_by_size-Fresh (e ∷ es) [] p = elim p [ ]
  sort_by_size-Fresh (e ∷ es) (ds ∷ lists) p =
      let f = sort_by_size-Fresh es lists p.3 in
      let g =
        insert_by_size-Fresh e (sort_by_size enumerator es) ds f.lists (p.0, p.1, p.2, f.placed) in
      record {
        lists = g.lists;
        placed = g.placed;
        held_eq = λ d. g.held_eq d ∙ ap (◌&&◌ (contains d ds)) (f.held_eq d);
        size_eq = g.size_eq ∙ ap suc f.size_eq;
      }

  AllFresh-Placed :
      (c : ℕ) (es : List Cursor) (lists : List (List ℕ))
      → AllFresh es lists
      → Placed enumerator c es lists
  AllFresh-Placed c [] [] p = p
  AllFresh-Placed c [] (ds ∷ lists) p = elim p [ ]
  AllFresh-Placed c (e ∷ es) [] p = elim p [ ]
  AllFresh-Placed c (e ∷ es) (ds ∷ lists) p = (p.0, p.1, inr p.2, AllFresh-Placed c es lists p.3)

  and_enums-count :
      (es : List Cursor) (lists : List (List ℕ))
      → 0 < length lists
      → AllFresh es lists
      → and_enums enumerator es ≡ count (held_by_all lists) 0 num_docs
  unfolding and_enums
  and_enums-count es [] some_list p = absurd (omega arith)
  and_enums-count [] (ds ∷ lists) some_list p = elim p [ ]
  and_enums-count (e ∷ es) (ds ∷ lists) some_list p =
      let c = docid e in
      let shown = docid_eq e ds p.0 in
      let inside : c ≤ num_docs = omega (arith, shown, first_inside num_docs 0 ds p.1) in
      let whole : num_docs - 0 ≡ num_docs = omega arith in
      and_loop-count enumerator num_docs true c (e ∷ es) (ds ∷ lists) inside (omega arith) some_list
        (AllFresh-Placed c (e ∷ es) (ds ∷ lists) p) (λ h. refl)
      ∙ sym (
          count-later num_docs 0 c (held_by_all (ds ∷ lists)) (omega arith) inside (λ d h h'.
            and_false_left _ _ (contains-below num_docs 0 d ds p.1 (omega (arith, shown, h')))))
      ∙ ap (count (held_by_all (ds ∷ lists)) 0) whole

  index-AllFresh :
      (index : ℕ → Cursor) (docs : ℕ → List ℕ) (terms : List ℕ)
      → ((t : ℕ) → Shows (index t) (docs t))
      → ((t : ℕ) → IsFresh (index t))
      → ((t : ℕ) → Increases num_docs 0 (docs t))
      → AllFresh (map index terms) (map docs terms)
  index-AllFresh index docs [] shows fresh increases = tt
  index-AllFresh index docs (t ∷ ts) shows fresh increases =
      (shows t, increases t, fresh t, index-AllFresh index docs ts shows fresh increases)

  held-all :
      (docs : ℕ → List ℕ) (terms : List ℕ) (d : ℕ)
      → held_by_all (map docs terms) d ≡ all (λ t. contains d (docs t)) terms
  held-all docs [] d = refl
  held-all docs (t ∷ ts) d = ap (◌&&◌ (contains d (docs t))) (held-all docs ts d)

  -- Over an index whose cursor of each term is fresh and stands before its documents, which
  -- increase and are below `num_docs`, `and_query` of one term or more, in any order and with
  -- repetitions, returns the number of documents that all of the terms have.
  pub and_query-count :
      (index : ℕ → Cursor) (docs : ℕ → List ℕ) (t : ℕ) (ts : List ℕ)
      → ((t : ℕ) → Shows (index t) (docs t))
      → ((t : ℕ) → IsFresh (index t))
      → ((t : ℕ) → Increases num_docs 0 (docs t))
      → and_query enumerator index (t ∷ ts)
        ≡ count (λ d. all (λ t. contains d (docs t)) (t ∷ ts)) 0 num_docs
  unfolding and_query
  and_query-count index docs t ts shows fresh increases =
      let terms = remove_duplicate_terms (t ∷ ts) in
      let f =
        sort_by_size-Fresh (map index terms) (map docs terms)
          (index-AllFresh index docs terms shows fresh increases) in
      and_enums-count (sort_by_size enumerator (map index terms)) f.lists
        (omega (arith, f.size_eq, length-map terms docs, some_term t ts)) f.placed
      ∙ count-agree (held_by_all f.lists) (λ d. all (λ t. contains d (docs t)) (t ∷ ts)) num_docs 0
          (λ d h.
            f.held_eq d
            ∙ held-all docs terms d
            ∙ all-remove_duplicate_terms (λ t. contains d (docs t)) (t ∷ ts))
