-- ===== src/Bm25.antt =====
-- bm25.hpp: the weights of a term in a document and in a query, over arithmetic of `float` that is not
-- interpreted.
pub mod Sample
use ds2i.Base.{ℕ}
use ds2i.TopkQueue.{Scores}

-- The operations and the constants of `float` that the code uses.
pub record Floats : Type 1 where
  pub scores : Scores
  open scores use {Score}
  pub from_integer : ℕ → Score
  pub add : Score → Score → Score
  pub sub : Score → Score → Score
  pub mul : Score → Score → Score
  pub div : Score → Score → Score
  pub max_of : Score → Score → Score
  pub log : Score → Score
  pub float_zero : Score
  pub half : Score
  pub one : Score
  pub b : Score
  pub k1 : Score
  pub epsilon_score : Score

module _ (floats : Floats) where
  open floats use {from_integer, add, sub, mul, div, max_of, log, half, one, b, k1, epsilon_score}

  abbrev pub Score : Type 0
  Score = floats.scores.Score

  pub doc_term_weight : ℕ → Score → Score
  doc_term_weight freq norm_len =
      let f = from_integer freq in div f (add f (mul k1 (add (sub one b) (mul b norm_len))))

  pub query_term_weight : ℕ → ℕ → ℕ → Score
  query_term_weight freq df num_docs =
      let f = from_integer freq in
      let fdf = from_integer df in
      let idf = log (div (add (sub (from_integer num_docs) fdf) half) (add fdf half)) in
      mul (mul f (max_of epsilon_score idf)) (add one k1)
