-- ===== src/TimePrediction/Given.antt =====
-- All names and values that the constructor of a predictor is given.
use Prim.Native.String.{String}
use text.Mathlib.Text.{◌==◌}
use ds2i.Base.{
  ℕ, zero, suc, ◌≡◌, ◌<◌, inl, inr, ap, sym, ◌∙◌, refl, true, false, Option, none, some, List, [],
  ◌∷◌, ◌++◌, get_elem?, length, replicate, All, if◌then◌else◌, arith,
}
use ds2i.Bm25.{Floats, Score}
use ds2i.TimePrediction.{
  FeatureType, feature_index, num_features, parse_feature_type, feature_name, Predictor, made,
  invalid_feature_name, feature_vector, set_feature, assign, and_then, assign_all, predictor,
  predict,
}
use ds2i.TimePrediction.Names.{IsKnown, other_name, parse_feature_type-name, index-named}
use ds2i.TimePrediction.Values.{
  Values, last_given, last_given-cons, or_else, or_else_assoc, Changed, one-Changed,
}

module _ (floats : Floats) where
  open floats use {float_zero}

  last_given-one :
      (key name : String) (value : Score floats) (values : Values floats)
      (start : Option (Score floats))
      → or_else floats
          (last_given floats key values)
          (or_else floats (last_given floats key ((name, value) ∷ [])) start)
        ≡ or_else floats (last_given floats key ((name, value) ∷ values)) start
  unfolding last_given
  last_given-one key name value values start =
      let one = if key == name then some value else none in
      or_else_assoc floats (last_given floats key values) one start
      ∙ ap (λ x. or_else floats x start) (sym (last_given-cons floats key name value values))

  Changed-cons :
      (name : String) (value : Score floats) (values : Values floats) (q m p : Predictor floats)
      → Changed floats ((name, value) ∷ []) q m
      → Changed floats values m p
      → Changed floats ((name, value) ∷ values) q p
  Changed-cons name value values q m p one others = record {
    size_eq = others.size_eq ∙ one.size_eq;
    bias_eq =
        others.bias_eq
        ∙ ap (or_else floats (last_given floats "bias" values)) one.bias_eq
        ∙ last_given-one "bias" name value values q.bias;
    weight_eq = λ f key named.
        others.weight_eq f key named
        ∙ ap (or_else floats (last_given floats key values)) (one.weight_eq f key named)
        ∙ last_given-one key name value values (get_elem? q.features (feature_index f));
  }

  abbrev pub AllKnown : Values floats → Type 0
  AllKnown values = All (λ v. IsKnown v.0) values

  all-Changed :
      (values : Values floats) (q : Predictor floats)
      → length q.features ≡ num_features
      → AllKnown values
      → (p : Predictor floats) × (assign_all floats values q ≡ made p) × Changed floats values q p
  unfolding assign_all and_then last_given
  all-Changed [] q full known =
      (q, refl, record { size_eq = refl; bias_eq = refl; weight_eq = λ f name named. refl })
  all-Changed ((name, value) ∷ values) q full (first, others) =
      let (m, ran, one) = one-Changed floats name value q full first in
      let (p, ran', rest) = all-Changed values m (one.size_eq ∙ full) others in
      (p, rw ran ran', Changed-cons name value values q m p one rest)

  get_elem?-replicate : (k i : ℕ) (x : Score floats) → i < k → get_elem? (replicate k x) i ≡ some x
  get_elem?-replicate zero i x h = absurd (omega (arith, h))
  get_elem?-replicate (suc k) zero x h = refl
  get_elem?-replicate (suc k) (suc i) x h = get_elem?-replicate k i x (omega (arith, h))

  or_else-none : (x : Option (Score floats)) → or_else floats x none ≡ x
  or_else-none none = refl
  or_else-none (some x) = refl

  -- From names that are all "bias" or the name of a feature, the constructor makes a predictor whose
  -- weight of a feature is the last value under its name, or zero where there is none, and
  -- whose bias is the last value under "bias". Where there is none the bias is not set, and
  -- `operator()` reads it all the same, at any features.
  pub predictor-last :
      (values : Values floats)
      → AllKnown values
      → (p : Predictor floats) × (predictor floats values ≡ made p)
        × ((f : FeatureType) (name : String)
            → feature_name f ≡ some name
            → get_elem? p.features (feature_index f)
              ≡ or_else floats (last_given floats name values) (some float_zero))
        × (p.bias ≡ last_given floats "bias" values)
        × (last_given floats "bias" values ≡ none
            → (features : List (Score floats)) → predict floats p features ≡ none)
  unfolding predictor feature_vector predict
  predictor-last values known =
      let start : Predictor floats = record { features = feature_vector floats; bias = none } in
      let (p, ran, changed) = all-Changed values start refl known in
      let bias : p.bias ≡ last_given floats "bias" values =
        changed.bias_eq ∙ or_else-none (last_given floats "bias" values) in
      (
        p,
        ran,
        λ f name named.
            changed.weight_eq f name named
            ∙ ap (or_else floats (last_given floats name values)) (
                get_elem?-replicate num_features (feature_index f) float_zero
                  (index-named f name named)),
        bias,
        λ not_given features. rw (bias ∙ not_given) refl,
      )

  -- Names that are all "bias" or the name of a feature may stand before the first name that is neither:
  -- the constructor throws for that name, whatever follows.
  pub predictor-refused :
      (front : Values floats) (name : String) (value : Score floats) (rest : Values floats)
      → AllKnown front
      → (IsKnown name → true ≡ false)
      → predictor floats (front ++ ((name, value) ∷ rest)) ≡ invalid_feature_name name
  unfolding predictor feature_vector assign_all and_then assign set_feature
  predictor-refused front name value rest known unknown =
      from front (record { features = feature_vector floats; bias = none }) refl known
    where
      not_parsed :
          (x : Option FeatureType) → parse_feature_type name ≡ x → parse_feature_type name ≡ none
      not_parsed none e = e
      not_parsed (some f) e = absurd (cc (unknown (inr (f, (parse_feature_type-name name f).1 e))))

      from :
          (front : Values floats) (q : Predictor floats)
          → length q.features ≡ num_features
          → AllKnown front
          → assign_all floats (front ++ ((name, value) ∷ rest)) q ≡ invalid_feature_name name
      from [] q full known =
          let no = other_name name "bias" (λ e. unknown (inl e)) in
          let none_parsed = not_parsed (parse_feature_type name) refl in rw (no, none_parsed) refl
      from ((other, v) ∷ front) q full (first, others) =
          let (m, ran, one) = one-Changed floats other v q full first in
          rw ran (from front m (one.size_eq ∙ full) others)
