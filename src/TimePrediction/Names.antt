-- ===== src/TimePrediction/Names.antt =====
-- The features and their names.
use Prim.Native.String.{String}
use text.Mathlib.Text.{◌==◌}
use text.Mathlib.TextEquality.{eq_iff}
use ds2i.Base.{
  ℕ, ◌≡◌, ◌<◌, ◌⊎◌, ap, sym, subst, ◌∙◌, refl, Bool, true, false, Option, none, some, [], ◌∷◌,
  get_or, if◌then◌else◌, arith,
}
use ds2i.TimePrediction.{
  FeatureType, n, size, sum_of_logs, entropy, nonzeros, max_b, pfor_b, pfor_exceptions, end,
  feature_index, num_features, parse_feature_type, feature_name,
}

parse-name :
    (f : FeatureType) (name : String)
    → feature_name f ≡ some name
    → parse_feature_type name ≡ some f
unfolding feature_name parse_feature_type
parse-name n name e = let s : "n" ≡ name = cc e in subst (λ t. parse_feature_type t ≡ some n) s refl
parse-name size name e =
    let s : "size" ≡ name = cc e in subst (λ t. parse_feature_type t ≡ some size) s refl
parse-name sum_of_logs name e =
    let s : "sum_of_logs" ≡ name = cc e in
    subst (λ t. parse_feature_type t ≡ some sum_of_logs) s refl
parse-name entropy name e =
    let s : "entropy" ≡ name = cc e in subst (λ t. parse_feature_type t ≡ some entropy) s refl
parse-name nonzeros name e =
    let s : "nonzeros" ≡ name = cc e in subst (λ t. parse_feature_type t ≡ some nonzeros) s refl
parse-name max_b name e =
    let s : "max_b" ≡ name = cc e in subst (λ t. parse_feature_type t ≡ some max_b) s refl
parse-name pfor_b name e =
    let s : "pfor_b" ≡ name = cc e in subst (λ t. parse_feature_type t ≡ some pfor_b) s refl
parse-name pfor_exceptions name e =
    let s : "pfor_exceptions" ≡ name = cc e in
    subst (λ t. parse_feature_type t ≡ some pfor_exceptions) s refl
parse-name end name e = absurd (cc e)

-- What one test of `parse_feature_type` gives.
tested :
    (name literal : String) (f g : FeatureType) (rest : Option FeatureType)
    → feature_name f ≡ some literal
    → (if name == literal then some f else rest) ≡ some g
    → (rest ≡ some g → feature_name g ≡ some name)
    → feature_name g ≡ some name
tested name literal f g rest named e later = by_test (name == literal) refl
  where
    by_test : (t : Bool) → (name == literal) ≡ t → feature_name g ≡ some name
    by_test true h =
        let same : name ≡ literal = (eq_iff name literal).0 h in
        let found : (if name == literal then some f else rest) ≡ some f = rw h refl in
        let is_f : f ≡ g = cc (e, found) in
        subst (λ x. feature_name x ≡ some name) is_f (named ∙ ap some (sym same))
    by_test false h =
        let found : (if name == literal then some f else rest) ≡ rest = rw h refl in
        later (sym found ∙ e)

name-parse :
    (name : String) (f : FeatureType)
    → parse_feature_type name ≡ some f
    → feature_name f ≡ some name
unfolding parse_feature_type feature_name
name-parse name f e = tested name "n" n f _ refl e (λ e1. tested name "size" size f _ refl e1 (λ e2.
    tested name "sum_of_logs" sum_of_logs f _ refl e2 (λ e3.
      tested name "entropy" entropy f _ refl e3 (λ e4.
        tested name "nonzeros" nonzeros f _ refl e4 (λ e5.
          tested name "max_b" max_b f _ refl e5 (λ e6.
            tested name "pfor_b" pfor_b f _ refl e6 (λ e7.
              tested name "pfor_exceptions" pfor_exceptions f _ refl e7
                (λ e8. absurd (cc e8)))))))))

-- `parse_feature_type` gives a feature just for the name that `feature_name` gives it, so that every
-- feature but `end` is read back from its name, and all other names are refused.
pub parse_feature_type-name :
    (name : String) (f : FeatureType)
    → (feature_name f ≡ some name → parse_feature_type name ≡ some f)
      × (parse_feature_type name ≡ some f → feature_name f ≡ some name)
parse_feature_type-name name f = (parse-name f name, name-parse name f)

-- The feature of a place.
feature_at : ℕ → FeatureType
feature_at i =
    get_or (n ∷ size ∷ sum_of_logs ∷ entropy ∷ nonzeros ∷ max_b ∷ pfor_b ∷ pfor_exceptions ∷ []) i
      end

feature_at-index : (f : FeatureType) → feature_at (feature_index f) ≡ f
unfolding feature_at feature_index
feature_at-index n = refl
feature_at-index size = refl
feature_at-index sum_of_logs = refl
feature_at-index entropy = refl
feature_at-index nonzeros = refl
feature_at-index max_b = refl
feature_at-index pfor_b = refl
feature_at-index pfor_exceptions = refl
feature_at-index end = refl

pub feature_index-injective : (f g : FeatureType) → feature_index f ≡ feature_index g → f ≡ g
feature_index-injective f g e = sym (feature_at-index f) ∙ ap feature_at e ∙ feature_at-index g

pub index-named :
    (f : FeatureType) (name : String) → feature_name f ≡ some name → feature_index f < num_features
unfolding feature_index feature_name
index-named n name e = omega arith
index-named size name e = omega arith
index-named sum_of_logs name e = omega arith
index-named entropy name e = omega arith
index-named nonzeros name e = omega arith
index-named max_b name e = omega arith
index-named pfor_b name e = omega arith
index-named pfor_exceptions name e = omega arith
index-named end name e = absurd (cc e)

-- A name that the constructor knows.
abbrev pub IsKnown : String → Type 0
IsKnown name = (name ≡ "bias") ⊎ ((f : FeatureType) × (feature_name f ≡ some name))

pub same_name : (s t : String) → s ≡ t → (s == t) ≡ true
same_name s t e = (eq_iff s t).1 e

pub other_name : (s t : String) → ((s ≡ t) → (true ≡ false)) → (s == t) ≡ false
other_name s t differ = by_test (s == t) refl
  where
    by_test : (b : Bool) → (s == t) ≡ b → (s == t) ≡ false
    by_test true h = h ∙ differ ((eq_iff s t).0 h)
    by_test false h = h

pub bias-refused : (f : FeatureType) → feature_name f ≡ some "bias" → true ≡ false
unfolding parse_feature_type
bias-refused f e =
    let read : none ≡ some f = (parse_feature_type-name "bias" f).0 e in absurd (cc read)
