-- ===== src/BlockFreqIndex/Opening.antt =====
-- The lists of an index are opened where they were written.
use mathlib.Core.Option.{some-injective, none-ne-some}
use ds2i.Base.{
  ℕ, zero, suc, ◌+◌, ◌-◌, ◌^◌, ◌≤◌, ◌<◌, ◌≡◌, ap, sym, subst, ◌∙◌, refl, false, some, List, [], ◌∷◌,
  ◌++◌, append_assoc, append-nil, ◌==◌, length, length-append, get_elem?, drop, tabulate, All,
  All-append, IsU8, arith,
}
use ds2i.Succinct.{Util}
use ds2i.Codec.{Codec}
use ds2i.Memory.{drop-append}
use ds2i.Sequence.{Sequence, NonDecreasing}
use ds2i.BlockPostingList.{DocumentEnumerator, write, document_enumerator}
use ds2i.BlockPostingList.Encoded.{Postings}
use ds2i.BlockPostingList.Enumerate.{At}
use ds2i.BlockPostingList.RoundTrip.{document_enumerator-write}
use ds2i.BlockFreqIndex.{
  Builder, builder, Added, added, invalid_argument, undefined, push_endpoint, add_posting_list,
  build, open_list,
}
use ds2i.Chunks.Endpoints.{endpoint_eq}
use ds2i.Chunks.{concat, offset, ends, length-ends}

All-behind : (xs ys : List ℕ) → All IsU8 (xs ++ ys) → All IsU8 ys
All-behind [] ys us = us
All-behind (x ∷ xs) ys us = All-behind xs ys us.1

module _ (codec : Codec) (util : Util) (num_docs : ℕ) where
  pub record Term : Type 0 where
    pub n : ℕ
    pub docs : ℕ → ℕ
    pub freqs : ℕ → ℕ
    pub valid : Postings n num_docs docs freqs

  and_then : Added → (Builder → Added) → Added
  and_then (added b) f = f b
  and_then invalid_argument f = invalid_argument
  and_then undefined f = undefined

  -- Calls of `add_posting_list`, in order.
  pub add_all : List Term → Builder → Added
  add_all [] b = added b
  add_all (t ∷ ts) b =
      and_then (add_posting_list codec util t.n (tabulate t.docs 0 t.n) (tabulate t.freqs 0 t.n) b)
        (add_all ts)

  -- The enumerator at the bytes `c`, whatever is behind them, is at the first posting of the term.
  abbrev Opens : Term → List ℕ → Type 0
  Opens t c =
      length c < 2 ^ 32
      → (rest : List ℕ) → All IsU8 rest
      → codec.slack ≤ length rest
      → (e : DocumentEnumerator) × (document_enumerator codec util (c ++ rest) num_docs ≡ some e)
        × At codec t.n num_docs t.docs t.freqs 0 e

  abbrev AllOpen : List Term → List (List ℕ) → Type 0
  AllOpen [] [] = Unit
  AllOpen (t ∷ ts) (c ∷ cs) = Opens t c × AllOpen ts cs
  AllOpen _ _ = ⊥

  add_posting_list-added :
      (n : ℕ) (docs freqs lists : List ℕ) (b : Builder)
      → 0 < n
      → write codec util b.lists n docs freqs ≡ some lists
      → add_posting_list codec util n docs freqs b ≡ added (push_endpoint lists b)
  unfolding add_posting_list
  add_posting_list-added n docs freqs lists b pos wrote =
      let some_posting : (n == 0) ≡ false = ground arith in rw (some_posting, wrote) refl

  -- A chunk of bytes for each term is appended.
  record AddedAll (ts : List Term) (b : Builder) (result : Added) : Type 0 where
    built : Builder
    ran : result ≡ added built
    chunks : List (List ℕ)
    size_eq : length chunks ≡ length ts
    lists_eq : built.lists ≡ b.lists ++ concat chunks
    endpoints_eq : built.endpoints ≡ b.endpoints ++ ends (length b.lists) chunks
    num_docs_eq : built.num_docs ≡ b.num_docs
    positive : All (λ c. 0 < length c) chunks
    are_bytes : All IsU8 b.lists → All IsU8 (concat chunks)
    all_open : AllOpen ts chunks

  add_all-AddedAll : (ts : List Term) (b : Builder) → AddedAll ts b (add_all ts b)
  unfolding add_all and_then push_endpoint
  add_all-AddedAll [] b = record {
    built = b;
    ran = refl;
    chunks = [];
    size_eq = refl;
    lists_eq = sym (append-nil b.lists);
    endpoints_eq = sym (append-nil b.endpoints);
    num_docs_eq = refl;
    positive = tt;
    are_bytes = λ us. tt;
    all_open = tt;
  }
  add_all-AddedAll (t ∷ ts) b =
      let (bytes, wrote, us, pos, opens) = document_enumerator-write codec util t.valid b.lists in
      let b' = push_endpoint (b.lists ++ bytes) b in
      let r = add_all-AddedAll ts b' in
      let l : length (b.lists ++ bytes) ≡ length b.lists + length bytes =
        length-append b.lists bytes in
      rw
        (add_posting_list-added t.n (tabulate t.docs 0 t.n) (tabulate t.freqs 0 t.n)
          (b.lists ++ bytes) b t.valid.n_pos wrote)
        (record {
          built = r.built;
          ran = r.ran;
          chunks = bytes ∷ r.chunks;
          size_eq = ap suc r.size_eq;
          lists_eq = r.lists_eq ∙ append_assoc b.lists bytes (concat r.chunks);
          endpoints_eq =
              r.endpoints_eq
              ∙ append_assoc b.endpoints (length (b.lists ++ bytes) ∷ [])
                  (ends (length (b.lists ++ bytes)) r.chunks)
              ∙ ap (λ (m : ℕ). b.endpoints ++ (m ∷ ends m r.chunks)) l;
          num_docs_eq = r.num_docs_eq;
          positive = (pos, r.positive);
          are_bytes = λ bs.
              All-append IsU8 bytes (concat r.chunks) (us bs)
                (r.are_bytes (All-append IsU8 b.lists bytes bs (us bs)));
          all_open = (opens, r.all_open);
        })

  -- The chunk of a term starts at its offset.
  open_chunk :
      (ts : List Term) (cs : List (List ℕ)) (behind : List ℕ) (i : ℕ) (t : Term)
      → AllOpen ts cs
      → All IsU8 (concat cs)
      → length (concat cs) < 2 ^ 32
      → All IsU8 behind
      → codec.slack ≤ length behind
      → get_elem? ts i ≡ some t
      → (e : DocumentEnumerator) × (document_enumerator codec util
            (drop (offset cs i) (concat cs ++ behind))
            num_docs
          ≡ some e)
        × At codec t.n num_docs t.docs t.freqs 0 e
  open_chunk [] cs behind i t opens us small behind_us long at = absurd (none-ne-some t at)
  open_chunk (t' ∷ ts) [] behind i t opens us small behind_us long at = elim opens [ ]
  open_chunk (t' ∷ ts) (c ∷ cs) behind zero t opens us small behind_us long at =
      let rest_us : All IsU8 (concat cs) = All-behind c (concat cs) us in
      subst
        (λ (t : Term).
          (e : DocumentEnumerator) × (document_enumerator codec util ((c ++ concat cs) ++ behind)
              num_docs
            ≡ some e)
          × At codec t.n num_docs t.docs t.freqs 0 e)
        (some-injective t' t at)
        (rw (append_assoc c (concat cs) behind) (
          opens.0 (omega (arith, small, length-append c (concat cs))) (concat cs ++ behind)
            (All-append IsU8 (concat cs) behind rest_us behind_us)
            (omega (arith, long, length-append (concat cs) behind))))
  open_chunk (t' ∷ ts) (c ∷ cs) behind (suc i) t opens us small behind_us long at =
      let rest_us : All IsU8 (concat cs) = All-behind c (concat cs) us in
      let address : drop (length c + offset cs i) ((c ++ concat cs) ++ behind)
          ≡ drop (offset cs i) (concat cs ++ behind) =
        ap (drop (length c + offset cs i)) (append_assoc c (concat cs) behind)
        ∙ drop-append c (concat cs ++ behind) (offset cs i) in
      rw address (
        open_chunk ts cs behind i t opens.1 rest_us
          (omega (arith, small, length-append c (concat cs))) behind_us long at)

  get_elem?-inside : (ts : List Term) (i : ℕ) (t : Term) → get_elem? ts i ≡ some t → i < length ts
  get_elem?-inside [] i t at = absurd (none-ne-some t at)
  get_elem?-inside (t' ∷ ts) zero t at = omega arith
  get_elem?-inside (t' ∷ ts) (suc i) t at = omega (arith, get_elem?-inside ts i t at)

  -- The builder with the chunks in its buffer.
  abbrev filled : List (List ℕ) → Builder
  filled cs = record { num_docs = num_docs; endpoints = 0 ∷ ends 0 cs; lists = concat cs }

  module _ (elias_fano : Sequence) (empty : elias_fano.Bits)
      (empty_size : elias_fano.bit_size empty ≡ 0)
      (writable : (v : ℕ → ℕ) (universe n : ℕ)
        → NonDecreasing v universe n
        → elias_fano.Writable v universe n) where
    open_filled :
        (ts : List Term) (cs : List (List ℕ)) (behind : List ℕ) (i : ℕ) (t : Term)
        → length cs ≡ length ts
        → AllOpen ts cs
        → All (λ c. 0 < length c) cs
        → All IsU8 (concat cs)
        → length (concat cs) < 2 ^ 32
        → All IsU8 behind
        → codec.slack ≤ length behind
        → get_elem? ts i ≡ some t
        → (e : DocumentEnumerator) × (open_list codec util elias_fano behind
              (build codec util elias_fano empty (filled cs))
              i
            ≡ some e)
          × At codec t.n num_docs t.docs t.freqs 0 e
    unfolding build open_list
    open_filled ts cs behind i t size_eq opens pos cs_us small us long at =
        let count : suc (length (ends 0 cs)) - 1 ≡ length cs = omega (arith, length-ends 0 cs) in
        let shown =
          endpoint_eq elias_fano empty empty_size writable cs i
            (omega (arith, size_eq, get_elem?-inside ts i t at)) pos (omega (arith, small)) in
        let (e, opened, stands) = open_chunk ts cs behind i t opens cs_us small us long at in
        (e, rw (count, shown) opened, stands)

    size-build :
        (cs : List (List ℕ)) → (build codec util elias_fano empty (filled cs)).size ≡ length cs
    unfolding build
    size-build cs = omega (arith, length-ends 0 cs)

    -- From one term on, with valid postings below `num_docs` each, all calls of `add_posting_list`
    -- succeed, and the index that `build` makes of them has their number as its size. When the lists
    -- have less than 2^32 bytes together, and enough bytes are in memory behind them,
    -- `operator[]` of any term gives an enumerator at the first posting of its list, whose
    -- documents and frequencies are those that were added. The sequence of the endpoints
    -- stores any values that do not decrease.
    pub open_list-build :
        (t : Term) (ts : List Term)
        → (b : Builder) × (add_all (t ∷ ts) (builder num_docs) ≡ added b)
          × ((build codec util elias_fano empty b).size ≡ length (t ∷ ts))
          × (length b.lists < 2 ^ 32
              → (behind : List ℕ) (i : ℕ) (t' : Term) → All IsU8 behind
              → codec.slack ≤ length behind
              → get_elem? (t ∷ ts) i ≡ some t'
              → (e : DocumentEnumerator) × (open_list codec util elias_fano behind
                    (build codec util elias_fano empty b)
                    i
                  ≡ some e)
                × At codec t'.n num_docs t'.docs t'.freqs 0 e)
    unfolding builder
    open_list-build t ts =
        let r = add_all-AddedAll (t ∷ ts) (builder num_docs) in
        let whole : r.built ≡ filled r.chunks = λ j. record {
          num_docs = r.num_docs_eq j;
          endpoints = r.endpoints_eq j;
          lists = r.lists_eq j;
        } in
        (
          filled r.chunks,
          r.ran ∙ ap added whole,
          size-build r.chunks ∙ r.size_eq,
          λ small behind i t' us long at.
              open_filled (t ∷ ts) r.chunks behind i t' r.size_eq r.all_open r.positive
                (r.are_bytes tt) small us long at,
        )
