-- ===== src/BinaryCollection.antt =====
-- binary_collection.hpp and binary_freq_collection.hpp: sequences of 32-bit numbers in a file, each
-- behind its length, and the iterators over them. The words of the file are a list.
pub mod Stored
pub mod Freqs
mod Tests
use ds2i.Base.{
  ℕ, zero, suc, ◌+◌, ◌-◌, min, Bool, not, Option, none, some, List, [], ◌∷◌, ◌==◌, if◌then◌else◌,
  ◌>>=◌, length, take, drop, get_or,
}

-- The iterator of a collection whose words are `data`.
pub record Iterator : Type 0 where
  pub data_words : List ℕ
  pub pos : ℕ
  pub next_pos : ℕ
  pub cur_seq : List ℕ

-- `while (!(n = m_data[pos++]));` on the words from `pos` on. `none` is a read behind the data.
pub skip_empty : List ℕ → ℕ → Option (ℕ × ℕ)
skip_empty [] pos = none
skip_empty (zero ∷ words) pos = skip_empty words (pos + 1)
skip_empty (suc n ∷ words) pos = some (suc n, pos + 1)

pub read : Iterator → Option Iterator
read it = if it.pos == length it.data_words then some it else (do
  (n, pos) ← skip_empty (drop it.pos it.data_words) it.pos
  let n' = min n (length it.data_words - pos)
  some (record it { next_pos = pos + n'; cur_seq = take n' (drop pos it.data_words) }))

-- The constructor; `m_next_pos` is not set where there is nothing to read.
pub iterator : List ℕ → ℕ → Option Iterator
iterator words pos = read (record { data_words = words; pos = pos; next_pos = pos; cur_seq = [] })

pub begin : List ℕ → Option Iterator
begin words = iterator words 0

pub is_end : Iterator → Bool
is_end it = it.pos == length it.data_words

-- `operator++`
pub increment : Iterator → Option Iterator
increment it = read (record it { pos = it.next_pos })

-- What a range-based for loop goes through.
pub loop : ℕ → Iterator → Option (List (List ℕ))
loop zero it = none
loop (suc fuel) it =
    let rest = (do it' ← increment it; seqs ← loop fuel it'; some (it.cur_seq ∷ seqs)) in
    if is_end it then some [] else rest

pub sequences : List ℕ → Option (List (List ℕ))
sequences words = do it ← begin words; loop (length words + 1) it

-- The result of the constructor of a binary_freq_collection.
pub data Opened : Type 0 where
  opened : ℕ → Opened
  invalid_argument : Opened

pub binary_freq_collection : List ℕ → Option Opened
binary_freq_collection docs = do
  it ← begin docs
  some (if length it.cur_seq == 1 then opened (get_or it.cur_seq 0 0) else invalid_argument)

pub record FreqIterator : Type 0 where
  pub docs_it : Iterator
  pub freqs_it : Iterator
  pub cur_docs : List ℕ
  pub cur_freqs : List ℕ

pub freq_iterator : Iterator → Iterator → FreqIterator
freq_iterator docs_it freqs_it = record {
  docs_it = docs_it;
  freqs_it = freqs_it;
  cur_docs = docs_it.cur_seq;
  cur_freqs = freqs_it.cur_seq;
}

pub freq_begin : List ℕ → List ℕ → Option FreqIterator
freq_begin docs freqs = do
  first ← begin docs
  docs_it ← increment first
  freqs_it ← begin freqs
  some (freq_iterator docs_it freqs_it)

pub freq_increment : FreqIterator → Option FreqIterator
freq_increment it = do
  docs_it ← increment it.docs_it
  freqs_it ← increment it.freqs_it
  some (freq_iterator docs_it freqs_it)

-- The loop ends with the documents.
pub freq_loop : ℕ → FreqIterator → Option (List (List ℕ × List ℕ))
freq_loop zero it = none
freq_loop (suc fuel) it =
    let rest = (do
      it' ← freq_increment it
      seqs ← freq_loop fuel it'
      some ((it.cur_docs, it.cur_freqs) ∷ seqs)) in
    if is_end it.docs_it then some [] else rest

pub freq_sequences : List ℕ → List ℕ → Option (List (List ℕ × List ℕ))
freq_sequences docs freqs = do it ← freq_begin docs freqs; freq_loop (length docs + 1) it
