-- ===== src/TimePrediction.antt =====
-- dec_time_prediction.hpp: the names of the features, feature_vector and predictor, over arithmetic of
-- `float` that is not interpreted.
pub mod Names
pub mod Values
pub mod Given
mod Tests
use Prim.Native.String.{String}
use text.Mathlib.Text.{◌==◌}
use ds2i.Base.{
  ℕ, zero, suc, Bool, true, false, Option, none, some, List, [], ◌∷◌, ◌>>=◌, get_elem?, set,
  replicate, if◌then◌else◌,
}
use ds2i.Bm25.{Floats, Score}

pub data FeatureType : Type 0 where
  n : FeatureType
  size : FeatureType
  sum_of_logs : FeatureType
  entropy : FeatureType
  nonzeros : FeatureType
  max_b : FeatureType
  pfor_b : FeatureType
  pfor_exceptions : FeatureType
  end : FeatureType

abbrev pub num_features : ℕ
num_features = 8

-- `(size_t)f`
pub feature_index : FeatureType → ℕ
feature_index n = 0
feature_index size = 1
feature_index sum_of_logs = 2
feature_index entropy = 3
feature_index nonzeros = 4
feature_index max_b = 5
feature_index pfor_b = 6
feature_index pfor_exceptions = 7
feature_index end = 8

-- `none` is the exception for a name of no feature.
pub parse_feature_type : String → Option FeatureType
parse_feature_type name =
    if name == "n"
    then some n
    else if name == "size"
    then some size
    else if name == "sum_of_logs"
    then some sum_of_logs
    else if name == "entropy"
    then some entropy
    else if name == "nonzeros"
    then some nonzeros
    else if name == "max_b"
    then some max_b
    else if name == "pfor_b"
    then some pfor_b
    else if name == "pfor_exceptions"
    then some pfor_exceptions
    else none

-- `none` is the exception for `end`.
pub feature_name : FeatureType → Option String
feature_name n = some "n"
feature_name size = some "size"
feature_name sum_of_logs = some "sum_of_logs"
feature_name entropy = some "entropy"
feature_name nonzeros = some "nonzeros"
feature_name max_b = some "max_b"
feature_name pfor_b = some "pfor_b"
feature_name pfor_exceptions = some "pfor_exceptions"
feature_name end = none

module _ (floats : Floats) where
  open floats use {float_zero, add, mul}

  -- A bias of `none` is a member that was not set.
  pub record Predictor : Type 0 where
    pub features : List (Score floats)
    pub bias : Option (Score floats)

  -- What the constructor of a predictor gives.
  pub data Made : Type 0 where
    made : Predictor → Made
    invalid_feature_name : String → Made

  -- The constructor of feature_vector.
  pub feature_vector : List (Score floats)
  feature_vector = replicate num_features float_zero

  pub predictor_default : Predictor
  predictor_default = record { features = feature_vector; bias = some float_zero }

  pub set_feature : String → Score floats → Option FeatureType → Predictor → Made
  set_feature name value none p = invalid_feature_name name
  set_feature name value (some f) p =
      made (record p { features = set p.features (feature_index f) value })

  pub assign : String → Score floats → Predictor → Made
  assign name value p =
      if name == "bias"
      then made (record p { bias = some value })
      else set_feature name value (parse_feature_type name) p

  pub and_then : Made → (Predictor → Made) → Made
  and_then (made p) go = go p
  and_then (invalid_feature_name name) go = invalid_feature_name name

  pub assign_all : List (String × Score floats) → Predictor → Made
  assign_all [] p = made p
  assign_all ((name, value) ∷ values) p = and_then (assign name value p) (assign_all values)

  -- The constructor from names and values, which sets the bias only where it is among them.
  pub predictor : List (String × Score floats) → Made
  predictor values = assign_all values (record { features = feature_vector; bias = none })

  pub predict_loop :
      ℕ → ℕ → List (Score floats) → List (Score floats) → Score floats → Option (Score floats)
  predict_loop zero i weights f result = some result
  predict_loop (suc k) i weights f result = do
    weight ← get_elem? weights i
    feature ← get_elem? f i
    predict_loop k (suc i) weights f (add result (mul weight feature))

  -- `operator()`; `none` is a read of a bias that was not set.
  pub predict : Predictor → List (Score floats) → Option (Score floats)
  predict p f = do result ← p.bias; predict_loop num_features 0 p.features f result
