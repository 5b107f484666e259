-- ===== src/WandData/Greatest.antt =====
-- What wand_data holds of a collection in two files.
use ds2i.Base.{
  ℕ, zero, suc, ◌≡◌, ◌<◌, ◌≤◌, inl, inr, ◌⊎◌, ap, ◌∙◌, refl, subst, Bool, true, false, some, List,
  [], ◌∷◌, ◌++◌, map, length, take, get_elem?, All, if◌then◌else◌, arith,
}
use ds2i.Bm25.{Floats, Score}
use ds2i.BinaryCollection.Stored.{Entry, values, entry}
use ds2i.BinaryCollection.Freqs.{docs_of, freqs_of, header, freq_sequences-stored}
use ds2i.WandData.{
  Doubles, WandData, max_of_two, max_score, max_weights, norm_len, max_term_weight, read_sizes,
  wand_data,
}

module _ (floats : Floats) where
  open floats use {from_integer, div, float_zero}
  open floats.scores use {gtb, gtb_asym, gtb_trans_false}

  gtb_irreflexive : (x : Score floats) → gtb x x ≡ false
  gtb_irreflexive x = by_test (gtb x x) refl
    where
      by_test : (t : Bool) → gtb x x ≡ t → gtb x x ≡ false
      by_test true e = gtb_asym x x e
      by_test false e = e

  max_of_two-above :
      (x y : Score floats)
      → (gtb x (max_of_two floats x y) ≡ false)
        × (gtb y (max_of_two floats x y) ≡ false)
        × ((max_of_two floats x y ≡ x) ⊎ (max_of_two floats x y ≡ y))
  unfolding max_of_two
  max_of_two-above x y = by_test (gtb y x) refl
    where
      by_test :
          (t : Bool)
          → gtb y x ≡ t
          → let m = if gtb y x then y else x in
            (gtb x m ≡ false) × (gtb y m ≡ false) × ((m ≡ x) ⊎ (m ≡ y))
      by_test true e = rw e (gtb_asym y x e, gtb_irreflexive y, inr refl)
      by_test false e = rw e (gtb_irreflexive x, e, inl refl)

  -- No score of the list is above `m`, nor is the score to start from, and `m` is one of these.
  pub record IsGreatest (start : Score floats) (freqs : List ℕ) (m : Score floats) : Type 0 where
    pub above_start : gtb start m ≡ false
    pub above_all : All (λ freq. gtb (from_integer freq) m ≡ false) freqs
    pub attained :
        (m ≡ start) ⊎ ((k freq : ℕ) × (get_elem? freqs k ≡ some freq) × (m ≡ from_integer freq))

  pub max_score-IsGreatest :
      (docs freqs : List ℕ) (start : Score floats)
      → length docs ≡ length freqs
      → (m : Score floats) × (max_score floats docs freqs start ≡ some m) × IsGreatest start freqs m
  unfolding max_score
  max_score-IsGreatest [] [] start same = (
    start,
    refl,
    record { above_start = gtb_irreflexive start; above_all = tt; attained = inl refl },
  )
  max_score-IsGreatest [] (freq ∷ freqs) start same = absurd (omega (arith, same))
  max_score-IsGreatest (doc ∷ docs) [] start same = absurd (omega (arith, same))
  max_score-IsGreatest (doc ∷ docs) (freq ∷ freqs) start same =
      let next = max_of_two floats start (from_integer freq) in
      let (start_le, freq_le, either) = max_of_two-above start (from_integer freq) in
      let (m, ran, best) = max_score-IsGreatest docs freqs next (omega (arith, same)) in
      (
        m,
        ran,
        record {
          above_start = gtb_trans_false start next m start_le best.above_start;
          above_all =
              (gtb_trans_false (from_integer freq) next m freq_le best.above_start, best.above_all);
          attained = elim best.attained [
            | inl e ↦ elim either [ inl e' ↦ inl (e ∙ e') | inr e' ↦ inr (0, freq, refl, e ∙ e') ]
            | inr (k, f, found, e) ↦ inr (suc k, f, found, e)
          ];
        },
      )

  -- Each list has a frequency for each document.
  abbrev pub IsPaired : List (Entry × Entry) → Type 0
  IsPaired ps = All (λ p. length (values p.0) ≡ length (values p.1)) ps

  pub max_weights-IsGreatest :
      (ps : List (Entry × Entry))
      → IsPaired ps
      → (weights : List (Score floats)) × (max_weights floats
            (map (λ p. (values p.0, values p.1)) ps)
          ≡ some weights)
        × ((t : ℕ) (p : Entry × Entry)
            → get_elem? ps t ≡ some p
            → (m : Score floats) × (get_elem? weights t ≡ some m)
              × IsGreatest float_zero (values p.1) m)
  unfolding max_weights
  max_weights-IsGreatest [] paired = ([], refl, λ t p found. absurd (cc found))
  max_weights-IsGreatest (p ∷ ps) (same, paired) =
      let (m, ran, best) = max_score-IsGreatest (values p.0) (values p.1) float_zero same in
      let (weights, ran', greatest) = max_weights-IsGreatest ps paired in
      (m ∷ weights, rw (ran, ran') refl, at_term m weights best greatest)
    where
      Greatest : List (Score floats) → ℕ → Entry × Entry → Type 0
      Greatest weights t q =
          (m : Score floats) × (get_elem? weights t ≡ some m) × IsGreatest float_zero (values q.1) m

      at_term :
          (m : Score floats) (weights : List (Score floats))
          → IsGreatest float_zero (values p.1) m
          → ((t : ℕ) (q : Entry × Entry) → get_elem? ps t ≡ some q → Greatest weights t q)
          → (t : ℕ) (q : Entry × Entry) → get_elem? (p ∷ ps) t ≡ some q
          → Greatest (m ∷ weights) t q
      at_term m weights best greatest zero q found =
          let e : p ≡ q = cc found in
          (m, refl, subst (λ x. IsGreatest float_zero (values x.1) m) e best)
      at_term m weights best greatest (suc t) q found = greatest t q found

  module _ (doubles : Doubles floats) where
    open doubles use {Double, double_zero, double_from, add_float, div_double, to_float}

    pub sum_of : Double → List ℕ → Double
    sum_of total [] = total
    sum_of total (size ∷ sizes) = sum_of (add_float total (from_integer size)) sizes

    -- The average of the first `n` sizes, added up in order.
    abbrev average : List ℕ → ℕ → Score floats
    average sizes n = to_float (div_double (sum_of double_zero (take n sizes)) (double_from n))

    read_sizes-all :
        (n : ℕ) (sizes : List ℕ) (total : Double)
        → n ≤ length sizes
        → read_sizes floats doubles n sizes total
          ≡ some (map from_integer (take n sizes), sum_of total (take n sizes))
    unfolding read_sizes sum_of
    read_sizes-all zero sizes total h = refl
    read_sizes-all (suc n) [] total h = absurd (omega (arith, h))
    read_sizes-all (suc n) (size ∷ sizes) total h =
        rw (read_sizes-all n sizes (add_float total (from_integer size)) (omega (arith, h))) refl

    scaled-at :
        (avg : Score floats) (n i size : ℕ) (sizes : List ℕ)
        → i < n
        → get_elem? sizes i ≡ some size
        → get_elem? (map (λ len. div len avg) (map from_integer (take n sizes))) i
          ≡ some (div (from_integer size) avg)
    scaled-at avg zero i size sizes less found = absurd (omega (arith, less))
    scaled-at avg (suc n) i size [] less found = absurd (cc found)
    scaled-at avg (suc n) zero size (x ∷ sizes) less found =
        let e : x ≡ size = cc found in ap (λ (s : ℕ). some (div (from_integer s) avg)) e
    scaled-at avg (suc n) (suc i) size (x ∷ sizes) less found =
        scaled-at avg n i size sizes (omega (arith, less)) found

    -- Of a collection in two files as they are stored, with empty sequences anywhere between the
    -- others and as many frequencies as documents in each list, and of at least `num_docs` sizes,
    -- the constructor makes a wand_data. Its length of a document is the document's size by the
    -- average of the first `num_docs` sizes. Its weight of a term is the greatest frequency
    -- of the term's list: zero and the frequencies are not above it, and it is zero or one
    -- of them.
    pub wand_data-stored :
        (sizes : List ℕ) (zeros num_docs : ℕ) (ps : List (Entry × Entry))
        → num_docs ≤ length sizes
        → IsPaired ps
        → (w : WandData floats) × (wand_data floats doubles sizes num_docs
              (entry (header zeros num_docs) ++ docs_of ps)
              (freqs_of ps)
            ≡ some w)
          × ((doc_id size : ℕ)
              → doc_id < num_docs
              → get_elem? sizes doc_id ≡ some size
              → norm_len floats w doc_id ≡ some (div (from_integer size) (average sizes num_docs)))
          × ((term_id : ℕ) (p : Entry × Entry)
              → get_elem? ps term_id ≡ some p
              → (m : Score floats) × (max_term_weight floats w term_id ≡ some m)
                × IsGreatest float_zero (values p.1) m)
    unfolding wand_data norm_len max_term_weight
    wand_data-stored sizes zeros num_docs ps enough paired =
        let (weights, ran, greatest) = max_weights-IsGreatest ps paired in
        (
          record {
            norm_lens =
                map (λ len. div len (average sizes num_docs))
                  (map from_integer (take num_docs sizes));
            max_term_weights = weights;
          },
          rw
              (
                read_sizes-all num_docs sizes double_zero enough,
                (freq_sequences-stored zeros num_docs ps).1,
                ran,
              )
              refl,
          λ doc_id size less found.
              scaled-at (average sizes num_docs) num_docs doc_id size sizes less found,
          greatest,
        )
