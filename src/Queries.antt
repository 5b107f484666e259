-- ===== src/Queries.antt =====
-- queries.hpp: the Boolean queries, without frequencies.
pub mod Counts
pub mod Terms
pub mod Lists
pub mod Advance
pub mod Or
pub mod Seek
pub mod Rounds
pub mod And
pub mod Freqs
mod Tests
use ds2i.Base.{
  ℕ, zero, suc, ◌+◌, min, Bool, true, false, Option, none, some, List, [], ◌∷◌, ◌++◌, map, ltb, leb,
  ◌==◌, if◌then◌else◌,
}
use ds2i.Enumerator.{Enumerator}

-- `std::sort` of numbers.
unfoldable pub insert_sorted : ℕ → List ℕ → List ℕ
insert_sorted x [] = x ∷ []
insert_sorted x (y ∷ ys) = let rest = insert_sorted x ys in if leb x y then x ∷ y ∷ ys else y ∷ rest

unfoldable pub sort : List ℕ → List ℕ
sort [] = []
sort (x ∷ xs) = insert_sorted x (sort xs)

-- `std::unique`: of neighbours that are equal the first stays.
unique_after : ℕ → List ℕ → List ℕ
unique_after x [] = []
unique_after x (y ∷ ys) =
    let rest = unique_after x ys in
    let others = unique_after y ys in if x == y then rest else y ∷ others

unique : List ℕ → List ℕ
unique [] = []
unique (x ∷ xs) = x ∷ unique_after x xs

pub remove_duplicate_terms : List ℕ → List ℕ
remove_duplicate_terms terms = unique (sort terms)

-- `query_term_freqs.back().second += 1;`
unfoldable pub bump_back : List (ℕ × ℕ) → List (ℕ × ℕ)
bump_back [] = []
bump_back (p ∷ []) = (p.0, p.1 + 1) ∷ []
bump_back (p ∷ q ∷ rest) = p ∷ bump_back (q ∷ rest)

-- The loop behind the first term; `last` is `terms[i - 1]`.
unfoldable pub freqs_loop : List (ℕ × ℕ) → ℕ → List ℕ → List (ℕ × ℕ)
freqs_loop freqs last [] = freqs
freqs_loop freqs last (t ∷ ts) =
    freqs_loop (if t == last then bump_back freqs else freqs ++ ((t, 1) ∷ [])) t ts

unfoldable pub count_terms : List ℕ → List (ℕ × ℕ)
count_terms [] = []
count_terms (t ∷ ts) = freqs_loop ((t, 1) ∷ []) t ts

unfoldable pub query_freqs : List ℕ → List (ℕ × ℕ)
query_freqs terms = count_terms (sort terms)

module _ {num_docs : ℕ} (enumerator : Enumerator num_docs) where
  open enumerator use {Cursor, docid, next, next_geq, size}

  -- The document of `std::min_element`, where there is one.
  pub min_docid : Cursor → List Cursor → ℕ
  min_docid e [] = docid e
  min_docid e (e' ∷ es) = min (docid e) (min_docid e' es)

  -- The inner loop: the enumerators behind it and `next_doc`.
  unfoldable pub advance : ℕ → ℕ → List Cursor → List Cursor × ℕ
  advance cur_doc next_doc [] = ([], next_doc)
  advance cur_doc next_doc (e ∷ es) =
      let e' = if docid e == cur_doc then next e else e in
      let next_doc' = if ltb (docid e') next_doc then docid e' else next_doc in
      let (es', last) = advance cur_doc next_doc' es in (e' ∷ es', last)

  -- The outer loop, which adds one for each document; `num_docs` rounds are enough.
  or_loop : ℕ → ℕ → List Cursor → ℕ
  or_loop zero cur_doc es = 0
  or_loop (suc fuel) cur_doc es =
      let (es', next_doc) = advance cur_doc num_docs es in
      let rest = or_loop fuel next_doc es' in if ltb cur_doc num_docs then suc rest else 0

  or_enums : List Cursor → ℕ
  or_enums [] = 0
  or_enums (e ∷ es) = or_loop num_docs (min_docid e es) (e ∷ es)

  pub or_query : (ℕ → Cursor) → List ℕ → ℕ
  or_query index [] = 0
  or_query index (t ∷ ts) = or_enums (map index (remove_duplicate_terms (t ∷ ts)))

  -- `std::sort` of the enumerators by size.
  pub insert_by_size : Cursor → List Cursor → List Cursor
  insert_by_size e [] = e ∷ []
  insert_by_size e (e' ∷ es) =
      let rest = insert_by_size e es in if leb (size e) (size e') then e ∷ e' ∷ es else e' ∷ rest

  sort_by_size : List Cursor → List Cursor
  sort_by_size [] = []
  sort_by_size (e ∷ es) = insert_by_size e (sort_by_size es)

  -- The for loop of `and_query` from an index on: the enumerators behind it, and the new candidate if it breaks.
  unfoldable pub seek : ℕ → List Cursor → List Cursor × Option ℕ
  seek candidate [] = ([], none)
  seek candidate (e ∷ es) =
      let e' = next_geq candidate e in
      let (es', broken) = seek candidate es in
      if docid e' == candidate then (e' ∷ es', broken) else (e' ∷ es, some (docid e'))

  -- The for loop with `i` 1 if `later` and 0 if not.
  unfoldable pub seek_from : Bool → ℕ → List Cursor → List Cursor × Option ℕ
  seek_from later candidate [] = ([], none)
  seek_from true candidate (e ∷ es) = let (es', broken) = seek candidate es in (e ∷ es', broken)
  seek_from false candidate (e ∷ es) = seek candidate (e ∷ es)

  -- `enums[0].next()` and the candidate that it gives.
  unfoldable pub advance_first : List Cursor → List Cursor × ℕ
  advance_first [] = ([], num_docs)
  advance_first (e ∷ es) = (next e ∷ es, docid (next e))

  -- The outer loop; `num_docs` rounds are enough.
  pub and_loop : ℕ → Bool → ℕ → List Cursor → ℕ
  and_loop zero later candidate es = 0
  and_loop (suc fuel) later candidate es =
      let (es', broken) = seek_from later candidate es in
      let (es'', next_candidate) = advance_first es' in
      let matched = suc (and_loop fuel true next_candidate es'') in
      if ltb candidate num_docs
      then elim broken [ none ↦ matched | some candidate' ↦ and_loop fuel false candidate' es' ]
      else 0

  and_enums : List Cursor → ℕ
  and_enums [] = 0
  and_enums (e ∷ es) = and_loop num_docs true (docid e) (e ∷ es)

  pub and_query : (ℕ → Cursor) → List ℕ → ℕ
  and_query index [] = 0
  and_query index (t ∷ ts) = and_enums (sort_by_size (map index (remove_duplicate_terms (t ∷ ts))))
