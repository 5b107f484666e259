-- ===== src/BinaryCollection/Tests.antt =====
-- Small files.
use ds2i.Base.{◌≡◌, ◌++◌, refl, none, some, [], ◌∷◌}
use ds2i.BinaryCollection.{
  sequences, freq_sequences, binary_freq_collection, opened, invalid_argument, begin, iterator,
  read, skip_empty, loop, increment, is_end,
}
use ds2i.BinaryCollection.Stored.{Entry, stored, sequences-stored, sequences-trailing}
use ds2i.BinaryCollection.Freqs.{freq_sequences-stored}

abbrev first : Entry
first = record { zeros = 0; head = 4; tail = 9 ∷ [] }

abbrev second : Entry
second = record { zeros = 2; head = 5; tail = [] }

words : sequences (2 ∷ 4 ∷ 9 ∷ 0 ∷ 0 ∷ 1 ∷ 5 ∷ []) ≡ some ((4 ∷ 9 ∷ []) ∷ (5 ∷ []) ∷ [])
unfolding sequences begin iterator read skip_empty loop increment is_end
words = refl

two_numbers : binary_freq_collection (2 ∷ 4 ∷ 9 ∷ []) ≡ some invalid_argument
unfolding binary_freq_collection begin iterator read skip_empty
two_numbers = refl

sequences-stored_example :
    sequences (stored (first ∷ second ∷ [])) ≡ some ((4 ∷ 9 ∷ []) ∷ (5 ∷ []) ∷ [])
sequences-stored_example = sequences-stored (first ∷ second ∷ [])

sequences-trailing_example : sequences (stored (first ∷ []) ++ (0 ∷ 0 ∷ [])) ≡ none
sequences-trailing_example = sequences-trailing (first ∷ []) 1

freq_sequences-stored_example :
    (binary_freq_collection (1 ∷ 10 ∷ 2 ∷ 4 ∷ 9 ∷ []) ≡ some (opened 10))
    × (freq_sequences (1 ∷ 10 ∷ 2 ∷ 4 ∷ 9 ∷ []) (0 ∷ 0 ∷ 1 ∷ 5 ∷ [])
        ≡ some ((4 ∷ 9 ∷ [], 5 ∷ []) ∷ []))
freq_sequences-stored_example = freq_sequences-stored 0 10 ((first, second) ∷ [])
