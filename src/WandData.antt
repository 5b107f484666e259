-- ===== src/WandData.antt =====
-- wand_data.hpp: the lengths of the documents by their average, and the greatest score of each list, over
-- arithmetic of `float` and `double` that is not interpreted. What is logged is left out.
pub mod Greatest
mod Tests
use ds2i.Base.{
  ℕ, zero, suc, Option, none, some, List, [], ◌∷◌, map, ◌>>=◌, get_elem?, if◌then◌else◌,
}
use ds2i.Bm25.{Floats, Score}
use ds2i.BinaryCollection.{freq_sequences}

-- The operations of `double` that the code uses, and the conversion to `float`.
pub record Doubles (floats : Floats) : Type 1 where
  pub Double : Type 0
  pub double_zero : Double
  pub double_from : ℕ → Double
  pub add_float : Double → Score floats → Double
  pub div_double : Double → Double → Double
  pub to_float : Double → Score floats

module _ (floats : Floats) where
  open floats use {from_integer, div, float_zero}

  pub record WandData : Type 0 where
    pub norm_lens : List (Score floats)
    pub max_term_weights : List (Score floats)

  -- `std::max`
  pub max_of_two : Score floats → Score floats → Score floats
  max_of_two x y = if floats.scores.gtb y x then y else x

  -- The loop over the positions of a list, which reads the documents and uses the frequencies.
  pub max_score : List ℕ → List ℕ → Score floats → Option (Score floats)
  max_score [] freqs max_score_so_far = some max_score_so_far
  max_score (docid ∷ docs) [] max_score_so_far = none
  max_score (docid ∷ docs) (freq ∷ freqs) max_score_so_far =
      max_score docs freqs (max_of_two max_score_so_far (from_integer freq))

  pub max_weights : List (List ℕ × List ℕ) → Option (List (Score floats))
  max_weights [] = some []
  max_weights ((docs, freqs) ∷ seqs) = do
    weight ← max_score docs freqs float_zero
    weights ← max_weights seqs
    some (weight ∷ weights)

  pub norm_len : WandData → ℕ → Option (Score floats)
  norm_len w doc_id = get_elem? w.norm_lens doc_id

  pub max_term_weight : WandData → ℕ → Option (Score floats)
  max_term_weight w term_id = get_elem? w.max_term_weights term_id

  module _ (doubles : Doubles floats) where
    open doubles use {Double, double_zero, double_from, add_float, div_double, to_float}

    -- The loop that reads `n` sizes, with their sum so far; `none` where there are fewer.
    pub read_sizes : ℕ → List ℕ → Double → Option (List (Score floats) × Double)
    read_sizes zero sizes lens_sum = some ([], lens_sum)
    read_sizes (suc n) [] lens_sum = none
    read_sizes (suc n) (size ∷ sizes) lens_sum = do
      let len = from_integer size
      (norm_lens, total) ← read_sizes n sizes (add_float lens_sum len)
      some (len ∷ norm_lens, total)

    -- The constructor, of a binary_freq_collection over two files.
    pub wand_data : List ℕ → ℕ → List ℕ → List ℕ → Option WandData
    wand_data sizes num_docs docs freqs = do
      (lens, lens_sum) ← read_sizes num_docs sizes double_zero
      let avg_len = to_float (div_double lens_sum (double_from num_docs))
      seqs ← freq_sequences docs freqs
      weights ← max_weights seqs
      some (record { norm_lens = map (λ len. div len avg_len) lens; max_term_weights = weights })
