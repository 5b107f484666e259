-- ===== src/TimePrediction/Values.antt =====
-- What the constructor of a predictor makes of names and values.
use Prim.Native.String.{String}
use text.Mathlib.Text.{◌==◌}
use text.Mathlib.TextEquality.{eq_iff}
use ds2i.Base.{
  ℕ, zero, suc, ◌≡◌, ◌<◌, inl, inr, ap, sym, ◌∙◌, refl, Bool, true, false, Option, none, some, List,
  [], ◌∷◌, get_elem?, length, set, if◌then◌else◌, arith,
}
use ds2i.Bm25.{Floats, Score}
use ds2i.TimePrediction.{
  FeatureType, feature_index, num_features, parse_feature_type, feature_name, Predictor, made,
  set_feature, assign,
}
use ds2i.TimePrediction.Names.{
  IsKnown, same_name, other_name, bias-refused, parse_feature_type-name, feature_index-injective,
  index-named,
}

module _ (floats : Floats) where
  open floats use {float_zero}

  abbrev pub Values : Type 0
  Values = List (String × Score floats)

  -- The last value under a name.
  unfoldable pub last_given : String → Values → Option (Score floats)
  last_given name [] = none
  last_given name ((other, value) ∷ values) =
      let here = if name == other then some value else none in
      elim (last_given name values) [ none ↦ here | some v ↦ some v ]

  abbrev pub or_else : Option (Score floats) → Option (Score floats) → Option (Score floats)
  or_else none y = y
  or_else (some x) y = some x

  pub or_else_assoc :
      (x y z : Option (Score floats)) → or_else x (or_else y z) ≡ or_else (or_else x y) z
  or_else_assoc none y z = refl
  or_else_assoc (some x) y z = refl

  pub last_given-cons :
      (name other : String) (value : Score floats) (values : Values)
      → last_given name ((other, value) ∷ values)
        ≡ or_else (last_given name values) (if name == other then some value else none)
  unfolding last_given
  last_given-cons name other value values = by_rest (last_given name values)
    where
      by_rest :
          (x : Option (Score floats))
          → (elim x [ none ↦ if name == other then some value else none | some v ↦ some v ])
            ≡ or_else x (if name == other then some value else none)
      by_rest none = refl
      by_rest (some v) = refl

  -- A predictor `q` that `values` change to `p`.
  pub record Changed (values : Values) (q p : Predictor floats) : Type 0 where
    pub size_eq : length p.features ≡ length q.features
    pub bias_eq : p.bias ≡ or_else (last_given "bias" values) q.bias
    pub weight_eq :
        (f : FeatureType) (name : String)
        → feature_name f ≡ some name
        → get_elem? p.features (feature_index f)
          ≡ or_else (last_given name values) (get_elem? q.features (feature_index f))

  get_elem?-set_same :
      (xs : List (Score floats)) (i : ℕ) (v : Score floats)
      → i < length xs
      → get_elem? (set xs i v) i ≡ some v
  get_elem?-set_same [] i v h = absurd (omega (arith, h))
  get_elem?-set_same (x ∷ xs) zero v h = refl
  get_elem?-set_same (x ∷ xs) (suc i) v h = get_elem?-set_same xs i v (omega (arith, h))

  get_elem?-set_other :
      (xs : List (Score floats)) (i j : ℕ) (v : Score floats)
      → ((i ≡ j) → (true ≡ false))
      → get_elem? (set xs i v) j ≡ get_elem? xs j
  get_elem?-set_other [] i j v differ = refl
  get_elem?-set_other (x ∷ xs) zero zero v differ = absurd (cc (differ refl))
  get_elem?-set_other (x ∷ xs) zero (suc j) v differ = refl
  get_elem?-set_other (x ∷ xs) (suc i) zero v differ = refl
  get_elem?-set_other (x ∷ xs) (suc i) (suc j) v differ =
      get_elem?-set_other xs i j v (λ e. differ (ap suc e))

  length-set_lem :
      (xs : List (Score floats)) (i : ℕ) (v : Score floats) → length (set xs i v) ≡ length xs
  length-set_lem [] i v = refl
  length-set_lem (x ∷ xs) zero v = refl
  length-set_lem (x ∷ xs) (suc i) v = ap suc (length-set_lem xs i v)

  pub one-Changed :
      (name : String) (value : Score floats) (q : Predictor floats)
      → length q.features ≡ num_features
      → IsKnown name
      → (p : Predictor floats) × (assign floats name value q ≡ made p)
        × Changed ((name, value) ∷ []) q p
  unfolding assign set_feature last_given
  one-Changed name value q full (inl e) =
      let yes = same_name name "bias" e in
      let yes' = same_name "bias" name (sym e) in
      (
        record q { bias = some value },
        rw yes refl,
        record {
          size_eq = refl;
          bias_eq = rw yes' refl;
          weight_eq = λ f other named.
              let no = other_name other name (λ o. bias-refused f (named ∙ ap some (o ∙ e))) in
              rw no refl;
        },
      )
  one-Changed name value q full (inr (g, named)) =
      let no = other_name name "bias" (λ o. bias-refused g (named ∙ ap some o)) in
      let no' = other_name "bias" name (λ o. bias-refused g (named ∙ ap some (sym o))) in
      let read = (parse_feature_type-name name g).0 named in
      (
        record q { features = set q.features (feature_index g) value },
        rw (no, read) refl,
        record {
          size_eq = length-set_lem q.features (feature_index g) value;
          bias_eq = rw no' refl;
          weight_eq = λ f other named'. by_test f other named' (other == name) refl;
        },
      )
    where
      by_test :
          (f : FeatureType) (other : String)
          → feature_name f ≡ some other
          → (b : Bool) → (other == name) ≡ b
          → get_elem? (set q.features (feature_index g) value) (feature_index f)
            ≡ or_else
                (last_given other ((name, value) ∷ []))
                (get_elem? q.features (feature_index f))
      by_test f other named' true h =
          let same : other ≡ name = (eq_iff other name).0 h in
          let read : parse_feature_type name ≡ some g = (parse_feature_type-name name g).0 named in
          let read' : parse_feature_type name ≡ some f =
            (parse_feature_type-name name f).0 (named' ∙ ap some same) in
          let e : f ≡ g = cc (read, read') in
          let inside : feature_index g < length q.features =
            omega (arith, index-named g name named, full) in
          rw (h, e) (get_elem?-set_same q.features (feature_index g) value inside)
      by_test f other named' false h = rw h (
          get_elem?-set_other q.features (feature_index g) (feature_index f) value (λ e.
            let g_eq : g ≡ f = feature_index-injective g f e in
            let name_eq : other ≡ name = cc (named, named', ap feature_name g_eq) in
            sym (same_name other name name_eq) ∙ h))
