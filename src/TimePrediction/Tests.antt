-- ===== src/TimePrediction/Tests.antt =====
-- A predictor from three values, two under one name.
use Prim.Native.String.{String}
use ds2i.Base.{ℕ, ◌≡◌, inr, refl, none, some, List, [], ◌∷◌, get_elem?}
use ds2i.Bm25.Sample.{number_floats}
use ds2i.TimePrediction.{
  FeatureType, n, entropy, feature_index, feature_name, Predictor, made, predictor, predict,
}
use ds2i.TimePrediction.Values.{last_given, or_else}
use ds2i.TimePrediction.Given.{AllKnown, predictor-last}

abbrev given : List (String × ℕ)
given = ("n", 3) ∷ ("entropy", 7) ∷ ("n", 5) ∷ []

known : AllKnown number_floats given
unfolding feature_name
known = (inr (n, refl), (inr (entropy, refl), (inr (n, refl), tt)))

predictor-last_example :
    (p : Predictor number_floats) × (predictor number_floats given ≡ made p)
    × ((f : FeatureType) (name : String)
        → feature_name f ≡ some name
        → get_elem? p.features (feature_index f)
          ≡ or_else number_floats (last_given number_floats name given) (some 0))
    × (p.bias ≡ last_given number_floats "bias" given)
    × (last_given number_floats "bias" given ≡ none
        → (features : List ℕ) → predict number_floats p features ≡ none)
predictor-last_example = predictor-last number_floats given known
