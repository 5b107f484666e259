-- ===== src/BlockPostingList/Tests.antt =====
-- A posting list in three blocks of two.
use ds2i.Base.{
  ℕ, zero, suc, ◌+◌, ◌*◌, ◌^◌, ◌≤◌, ◌<◌, ◌≡◌, refl, List, [], ◌∷◌, ◌++◌, some, arith, tabulate,
  length, All, IsU8, ◌⊎◌, inl, true, map, take,
}
use ds2i.Succinct.Sample.{sample_util}
use ds2i.Varbyte
use ds2i.Codec.Sample.{word_codec}
use ds2i.BlockCodec.{bytes_of}
use ds2i.BlockCodec.Sums.{sum}
use ds2i.Memory.{store32}
use ds2i.Bm25.Sample.{number_floats}
use ds2i.TopkQueue.{topk}
use ds2i.TopkQueue.Best.{ranked}
use ds2i.Queries.{or_query, and_query, query_freqs}
use ds2i.Queries.Lists.{held}
use ds2i.RankedQueries.{ranked_or_query}
use ds2i.RankedQueries.Collect.{collect}
use ds2i.RankedQueries.Or.{score_by, weighted}
use ds2i.BlockPostingList.{
  DocumentEnumerator, document_enumerator, next, next_geq, freq, move, write, write_loop,
  write_block, fill_block, size_of_block,
}
use ds2i.BlockPostingList.Enumerate.{At}
use ds2i.BlockPostingList.Moves.{Ended, next-At}
use ds2i.BlockPostingList.Scan.{Found}
use ds2i.BlockPostingList.Search.{Missed, next_geq-At}
use ds2i.BlockPostingList.Freqs.{freq-At, move-At}
use ds2i.BlockPostingList.RoundTrip.{document_enumerator-write}
use ds2i.BlockPostingList.Cursor.{posting_enumerator}
use ds2i.BlockPostingList.Cursor.Ranked.{posting_frequencies, ranked_or_query-write}
use ds2i.BlockPostingList.Cursor.Queried.{
  documents, TermList, open_list, open_list-At, or_query-write, and_query-write,
}
use ds2i.BlockPostingList.Encoded.{base, Postings, less_one}

abbrev docs : ℕ → ℕ
docs p = 3 * p + 1

abbrev freqs : ℕ → ℕ
freqs p = 2

sum-twos : (k p : ℕ) → sum (tabulate (less_one freqs) p k) ≡ k
sum-twos zero p = refl
sum-twos (suc k) p = omega (arith, sum-twos k (suc p))

increases : (p : ℕ) → p < 5 → base docs p ≤ docs p
increases zero h = omega arith
increases (suc p) h = omega arith

valid : Postings 5 20 docs freqs
valid = record {
  n_small = omega arith;
  n_pos = omega arith;
  universe_small = omega arith;
  increases = increases;
  inside = λ p h. omega arith;
  freqs_pos = λ p h. omega arith;
  freqs_small = λ p k h. omega (arith, sum-twos k p);
}

abbrev bytes : List ℕ
bytes =
    133 ∷ 4 ∷ 0 ∷ 0 ∷ 0 ∷ 10 ∷ 0 ∷ 0 ∷ 0 ∷ 13 ∷ 0 ∷ 0 ∷ 0 ∷ 16 ∷ 0 ∷ 0 ∷ 0 ∷ 32 ∷ 0 ∷ 0 ∷ 0 ∷ 1 ∷ 0
    ∷ 0 ∷ 0 ∷ 2 ∷ 0 ∷ 0 ∷ 0 ∷ 1 ∷ 0 ∷ 0 ∷ 0 ∷ 1 ∷ 0 ∷ 0 ∷ 0 ∷ 2 ∷ 0 ∷ 0 ∷ 0 ∷ 2 ∷ 0 ∷ 0 ∷ 0 ∷ 1 ∷ 0
    ∷ 0 ∷ 0 ∷ 1 ∷ 0 ∷ 0 ∷ 0 ∷ 2 ∷ 0 ∷ 0 ∷ 0 ∷ 1 ∷ 0 ∷ 0 ∷ 0 ∷ []

written : write word_codec sample_util [] 5 (tabulate docs 0 5) (tabulate freqs 0 5) ≡ some bytes
unfolding write write_loop write_block fill_block size_of_block store32 bytes_of
    Varbyte.encode_single Varbyte.encode
written = refl

abbrev sample : TermList word_codec sample_util 20
sample = record {
  n = 5;
  docs = docs;
  freqs = freqs;
  valid = valid;
  bytes = bytes;
  wrote = written;
  small = omega arith;
  rest = 9 ∷ [];
  rest-IsU8 = omega arith;
  long = omega arith;
}

document_enumerator-write_example :
    (bytes : List ℕ) × (write word_codec sample_util
        (7 ∷ [])
        5
        (tabulate docs 0 5)
        (tabulate freqs 0 5)
      ≡ some ((7 ∷ []) ++ bytes))
    × (All IsU8 (7 ∷ []) → All IsU8 bytes)
    × (0 < length bytes)
    × (length bytes < 2 ^ 32
        → (rest : List ℕ) → All IsU8 rest
        → 0 ≤ length rest
        → (e : DocumentEnumerator) × (document_enumerator word_codec sample_util (bytes ++ rest) 20
            ≡ some e)
          × At word_codec 5 20 docs freqs 0 e)
document_enumerator-write_example = document_enumerator-write word_codec sample_util valid (7 ∷ [])

-- The enumerator of the sample, just opened.
abbrev opened : DocumentEnumerator
opened = (open_list-At word_codec sample_util 20 sample).0

opened-At : At word_codec 5 20 docs freqs 0 opened
opened-At = (open_list-At word_codec sample_util 20 sample).2

next-At_example :
    (e : DocumentEnumerator) × (next word_codec opened ≡ some e)
    × (((1 < 5) × At word_codec 5 20 docs freqs 1 e)
        ⊎ ((◌≡◌ {A = ℕ} 1 5) × Ended word_codec 5 20 docs freqs valid e))
next-At_example = next-At word_codec 5 20 docs freqs valid 0 opened opened-At

next_geq-At_example :
    Found word_codec 5 20 docs freqs valid 0 8 (next_geq word_codec 8 opened)
    ⊎ Missed word_codec 5 20 docs freqs valid 0 8 (next_geq word_codec 8 opened)
next_geq-At_example =
    next_geq-At word_codec 5 20 docs freqs valid 8 0 opened opened-At (inl (omega arith))

freq-At_example :
    (e : DocumentEnumerator) × (freq word_codec opened ≡ some (e, 2))
    × At word_codec 5 20 docs freqs 0 e
    × (e.freqs_decoded ≡ true)
freq-At_example = freq-At word_codec 5 20 docs freqs valid 0 opened opened-At

move-At_example :
    (e : DocumentEnumerator) × (move word_codec 4 opened ≡ some e)
    × At word_codec 5 20 docs freqs 4 e
move-At_example =
    move-At word_codec 5 20 docs freqs valid 0 4 opened opened-At (omega arith) (omega arith)

or_query-write_example :
    or_query
      (posting_enumerator word_codec 20)
      (λ t. open_list word_codec sample_util 20 sample)
      (1 ∷ 0 ∷ [])
    ≡ 5
or_query-write_example = or_query-write word_codec sample_util 20 (λ t. sample) (1 ∷ 0 ∷ [])

and_query-write_example :
    and_query
      (posting_enumerator word_codec 20)
      (λ t. open_list word_codec sample_util 20 sample)
      (1 ∷ 0 ∷ [])
    ≡ 5
and_query-write_example = and_query-write word_codec sample_util 20 (λ t. sample) 1 (0 ∷ [])

ranked_or_query-write_example :
    let enumerator = posting_enumerator word_codec 20 in
    let frequencies = posting_frequencies word_codec 20 in
    let index = λ (t : ℕ). open_list word_codec sample_util 20 sample in
    let lists = map (λ p. documents word_codec sample_util 20 sample) (query_freqs (1 ∷ 0 ∷ [])) in
    let weights =
      weighted number_floats enumerator frequencies index (λ t d. 2) (query_freqs (1 ∷ 0 ∷ [])) in
    let all =
      collect
        (held lists)
        (score_by number_floats enumerator frequencies (λ d. d) weights lists)
        0
        20 in
    topk number_floats.scores
      (ranked_or_query number_floats enumerator frequencies
        (λ d. d)
        index
        (1 ∷ 0 ∷ [])
        (record { k = 2; q = [] })).0
    ≡ take 2 (ranked number_floats.scores all [])
ranked_or_query-write_example =
    ranked_or_query-write word_codec 20 sample_util number_floats (λ d. d) (λ t. sample) (λ t d. 2)
      (1 ∷ 0 ∷ []) (record { k = 2; q = [] }) (omega arith) (λ t q h. refl)
