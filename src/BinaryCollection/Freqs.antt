-- ===== src/BinaryCollection/Freqs.antt =====
-- The iterators of binary_freq_collection over files of the same number of sequences.
use ds2i.Base.{
  ℕ, suc, ◌+◌, ◌-◌, ◌≡◌, ap, ◌∙◌, refl, true, Option, none, some, List, [], ◌∷◌, ◌++◌, map, ◌==◌,
  ◌>>=◌, length, length-append, arith,
}
use ds2i.BinaryCollection.{
  Iterator, read, iterator, begin, is_end, opened, binary_freq_collection, FreqIterator,
  freq_iterator, freq_begin, freq_increment, freq_loop, freq_sequences,
}
use ds2i.BinaryCollection.Stored.{
  Entry, values, entry, stored, before, read-entry, increment-entry, is_end-entry, stored_size,
}

abbrev Pairs : Type 0
Pairs = List (List ℕ × List ℕ)

-- Both files are read, and then the loop runs.
abbrev freq_from : ℕ → Iterator → Iterator → Option Pairs
freq_from fuel docs_it freqs_it =
    read docs_it >>= (λ d. read freqs_it >>= (λ f. freq_loop fuel (freq_iterator d f)))

regroup :
    (m k : Option Iterator) (go : FreqIterator → Option Pairs) (g : Pairs → Option Pairs)
    → ((m >>= (λ d. k >>= (λ f. some (freq_iterator d f)))) >>= (λ it. go it >>= g))
      ≡ ((m >>= (λ d. k >>= (λ f. go (freq_iterator d f)))) >>= g)
regroup none k go g = refl
regroup (some d) none go g = refl
regroup (some d) (some f) go g = refl

both_read :
    (m k : Option Iterator) (go : FreqIterator → Option Pairs)
    → ((m >>= (λ d. k >>= (λ f. some (freq_iterator d f)))) >>= go)
      ≡ (m >>= (λ d. k >>= (λ f. go (freq_iterator d f))))
both_read none k go = refl
both_read (some d) none go = refl
both_read (some d) (some f) go = refl

freq_from-entry :
    (fuel : ℕ) (docs freqs docs_rest freqs_rest : List ℕ) (s t : Entry) (next_pos next_pos' : ℕ)
    (cur cur' : List ℕ)
    → freq_from
        (suc fuel)
        (before docs (entry s ++ docs_rest) next_pos cur)
        (before freqs (entry t ++ freqs_rest) next_pos' cur')
      ≡ (freq_from fuel
            (before (docs ++ entry s) docs_rest (length (docs ++ entry s)) (values s))
            (before (freqs ++ entry t) freqs_rest (length (freqs ++ entry t)) (values t))
          >>= (λ seqs. some ((values s, values t) ∷ seqs)))
unfolding freq_loop freq_increment freq_iterator
freq_from-entry fuel docs freqs docs_rest freqs_rest s t next_pos next_pos' cur cur' =
    rw
      (
        read-entry docs docs_rest s next_pos cur,
        read-entry freqs freqs_rest t next_pos' cur',
        is_end-entry docs docs_rest s,
        increment-entry docs docs_rest s,
        increment-entry freqs freqs_rest t,
      )
      (regroup (read (before (docs ++ entry s) docs_rest (length (docs ++ entry s)) (values s)))
        (read (before (freqs ++ entry t) freqs_rest (length (freqs ++ entry t)) (values t)))
        (freq_loop fuel) (λ seqs. some ((values s, values t) ∷ seqs)))

read-nothing :
    (front : List ℕ) (next_pos : ℕ) (cur : List ℕ)
    → read (before front [] next_pos cur) ≡ some (before front [] next_pos cur)
unfolding read
read-nothing front next_pos cur =
    let at_end : (length front == length (front ++ [])) ≡ true =
      ground (arith, length-append front []) in
    rw at_end refl

freq_from-end :
    (fuel : ℕ) (docs freqs : List ℕ) (next_pos next_pos' : ℕ) (cur cur' : List ℕ)
    → freq_from (suc fuel) (before docs [] next_pos cur) (before freqs [] next_pos' cur') ≡ some []
unfolding freq_loop freq_iterator is_end
freq_from-end fuel docs freqs next_pos next_pos' cur cur' =
    let at_end : (length docs == length (docs ++ [])) ≡ true =
      ground (arith, length-append docs []) in
    rw (read-nothing docs next_pos cur, read-nothing freqs next_pos' cur', at_end) refl

abbrev pub docs_of : List (Entry × Entry) → List ℕ
docs_of ps = stored (map (λ p. p.0) ps)

abbrev pub freqs_of : List (Entry × Entry) → List ℕ
freqs_of ps = stored (map (λ p. p.1) ps)

freq_from-stored :
    (ps : List (Entry × Entry)) (fuel : ℕ) (docs freqs : List ℕ) (next_pos next_pos' : ℕ)
    (cur cur' : List ℕ)
    → freq_from
        (length ps + suc fuel)
        (before docs (docs_of ps) next_pos cur)
        (before freqs (freqs_of ps) next_pos' cur')
      ≡ some (map (λ p. (values p.0, values p.1)) ps)
freq_from-stored [] fuel docs freqs next_pos next_pos' cur cur' =
    let e : 0 + suc fuel ≡ suc fuel = omega arith in
    rw e (freq_from-end fuel docs freqs next_pos next_pos' cur cur')
freq_from-stored (p ∷ ps) fuel docs freqs next_pos next_pos' cur cur' =
    let e : suc (length ps) + suc fuel ≡ suc (length ps + suc fuel) = omega arith in
    rw e (
      freq_from-entry (length ps + suc fuel) docs freqs (docs_of ps) (freqs_of ps) p.0 p.1 next_pos
        next_pos' cur cur'
      ∙ ap (λ m. m >>= (λ seqs. some ((values p.0, values p.1) ∷ seqs)))
          (freq_from-stored ps fuel (docs ++ entry p.0) (freqs ++ entry p.1)
            (length (docs ++ entry p.0)) (length (freqs ++ entry p.1)) (values p.0) (values p.1)))

pairs_size : (ps : List (Entry × Entry)) → length (map (λ p. p.0) ps) ≡ length ps
pairs_size [] = refl
pairs_size (p ∷ ps) = ap suc (pairs_size ps)

-- The first sequence of the documents, which has the number of documents.
abbrev pub header : ℕ → ℕ → Entry
header zeros num_docs = record { zeros = zeros; head = num_docs; tail = [] }

-- A pair of files, of which the first starts with the sequence of the number of documents alone and
-- goes on with as many sequences as the second has, is opened with that number, and its
-- iterator goes through the pairs of documents and frequencies, in order. Empty sequences
-- may stand before each sequence, in both files.
pub freq_sequences-stored :
    (zeros num_docs : ℕ) (ps : List (Entry × Entry))
    → let docs = entry (header zeros num_docs) ++ docs_of ps in
      (binary_freq_collection docs ≡ some (opened num_docs))
      × (freq_sequences docs (freqs_of ps) ≡ some (map (λ p. (values p.0, values p.1)) ps))
unfolding binary_freq_collection freq_sequences freq_begin begin iterator
freq_sequences-stored zeros num_docs ps =
    let h = header zeros num_docs in
    let docs = entry h ++ docs_of ps in
    let e : length docs + 1 ≡ length ps + suc (length docs - length ps) = omega (
      arith,
      length-append (entry h) (docs_of ps),
      stored_size (map (λ p. p.0) ps),
      pairs_size ps,
    ) in
    (
      rw (read-entry [] (docs_of ps) h 0 []) refl,
      rw (read-entry [] (docs_of ps) h 0 [], increment-entry [] (docs_of ps) h, e)
          (both_read (read (before (entry h) (docs_of ps) (length (entry h)) (values h)))
              (read (before [] (freqs_of ps) 0 []))
              (freq_loop (length ps + suc (length docs - length ps)))
            ∙ freq_from-stored ps (length docs - length ps) (entry h) [] (length (entry h)) 0
                (values h) []),
    )
