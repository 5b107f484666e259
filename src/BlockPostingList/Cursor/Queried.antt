-- ===== src/BlockPostingList/Cursor/Queried.antt =====
-- The Boolean queries over posting lists that `write` wrote.
use ds2i.Base.{
  ℕ, ◌^◌, ◌≤◌, ◌<◌, ◌≡◌, inl, ap, sym, subst, ◌∙◌, Option, some, List, [], ◌∷◌, ◌++◌, length,
  tabulate, arith, All, IsU8,
}
use mathlib.Core.Option.{some-injective}
use ds2i.Succinct.{Util}
use ds2i.Codec.{Codec}
use ds2i.Queries.{or_query, and_query}
use ds2i.Queries.Counts.{count, contains, any}
use ds2i.Queries.Or.{or_query-count}
use ds2i.Queries.And.{all, and_query-count}
use ds2i.BlockPostingList.{DocumentEnumerator, write, position, document_enumerator}
use ds2i.BlockPostingList.Encoded.{Postings}
use ds2i.BlockPostingList.Enumerate.{At}
use ds2i.BlockPostingList.RoundTrip.{document_enumerator-write}
use ds2i.BlockPostingList.Cursor.{Shows, posting_enumerator, tabulate-Increases}

module _ (codec : Codec) (util : Util) (universe : ℕ) where
  -- A posting list in memory: what `write` gave for it, and the bytes behind it.
  pub record TermList : Type 0 where
    pub n : ℕ
    pub docs : ℕ → ℕ
    pub freqs : ℕ → ℕ
    pub valid : Postings n universe docs freqs
    pub bytes : List ℕ
    pub wrote : write codec util [] n (tabulate docs 0 n) (tabulate freqs 0 n) ≡ some bytes
    pub small : length bytes < 2 ^ 32
    pub rest : List ℕ
    pub rest-IsU8 : All IsU8 rest
    pub long : codec.slack ≤ length rest

  abbrev pub documents : TermList → List ℕ
  documents t = tabulate t.docs 0 t.n

  -- The enumerator that the index gives for a term.
  abbrev pub open_list : TermList → Option DocumentEnumerator
  open_list t = document_enumerator codec util (t.bytes ++ t.rest) universe

  pub open_list-At :
      (t : TermList)
      → (e : DocumentEnumerator) × (open_list t ≡ some e) × At codec t.n universe t.docs t.freqs 0 e
  open_list-At t =
      let (bytes, wrote, _, _, opens) = document_enumerator-write codec util t.valid [] in
      let same : bytes ≡ t.bytes = some-injective bytes t.bytes (sym wrote ∙ t.wrote) in
      subst
        (λ (bs : List ℕ).
          length bs < 2 ^ 32
          → (e : DocumentEnumerator) × (document_enumerator codec util (bs ++ t.rest) universe
              ≡ some e)
            × At codec t.n universe t.docs t.freqs 0 e)
        same (λ small. opens small t.rest t.rest-IsU8 t.long) t.small

  pub open_list-Shows : (t : TermList) → Shows codec universe (open_list t) (documents t)
  open_list-Shows t =
      let (e, opened, at) = open_list-At t in
      record {
        here = e;
        here_eq = opened;
        n = t.n;
        docs = t.docs;
        freqs = t.freqs;
        valid = t.valid;
        p = 0;
        docs_eq = ap (tabulate t.docs 0) (omega arith);
        stands = inl at;
      }

  open_list-IsFresh : (t : TermList) → (posting_enumerator codec universe).IsFresh (open_list t)
  unfolding position
  open_list-IsFresh t =
      let (e, opened, at) = open_list-At t in
      let inside : e.cur_docid < universe =
        omega (arith, at.docid_eq, t.valid.inside 0 t.valid.n_pos) in
      (rw opened inside, (e, opened, sym at.p_eq))

  -- Over an index of posting lists as `write` wrote them, of less than 2^32 bytes each and with
  -- enough bytes behind each of them, `or_query` with the enumerators of block_posting_list
  -- returns the number of documents that are in the list of one of the terms at least.
  pub or_query-write :
      (index : ℕ → TermList) (terms : List ℕ)
      → or_query (posting_enumerator codec universe) (λ t. open_list (index t)) terms
        ≡ count (λ d. any (λ t. contains d (documents (index t))) terms) 0 universe
  or_query-write index terms =
      or_query-count (posting_enumerator codec universe) (λ t. open_list (index t))
        (λ t. documents (index t)) terms (λ t. open_list-Shows (index t))
        (λ t. tabulate-Increases (index t).valid)

  -- Over the same index `and_query` of one term or more returns the number of documents that are
  -- in the lists of all of the terms.
  pub and_query-write :
      (index : ℕ → TermList) (t : ℕ) (ts : List ℕ)
      → and_query (posting_enumerator codec universe) (λ t. open_list (index t)) (t ∷ ts)
        ≡ count (λ d. all (λ t. contains d (documents (index t))) (t ∷ ts)) 0 universe
  and_query-write index t ts =
      and_query-count (posting_enumerator codec universe) (λ t. open_list (index t))
        (λ t. documents (index t)) t ts (λ t. open_list-Shows (index t))
        (λ t. open_list-IsFresh (index t)) (λ t. tabulate-Increases (index t).valid)
