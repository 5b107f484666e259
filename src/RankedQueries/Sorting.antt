-- ===== src/RankedQueries/Sorting.antt =====
-- Orders of mapped lists, and a sort.
use mathlib.Core.List.{Permᴰ}
use mathlib.Core.List.Permᴰ
use ds2i.Base.{
  ℕ, suc, ◌≡◌, inl, inr, ap, ◌∙◌, refl, Bool-cases, List, [], ◌∷◌, map, length, leb, if◌then◌else◌,
  arith,
}
use ds2i.RankedQueries.{InOrder, Sort}

module _ {A B : Type 0} where
  -- Another order of the images is that of the images of another order.
  pub Permᴰ-map :
      (f : A → B) (ys zs : List B) (ps : List A)
      → Permᴰ ys zs
      → zs ≡ map f ps
      → (qs : List A) × Permᴰ qs ps × (ys ≡ map f qs)
  Permᴰ-map f [] [] [] Permᴰ.nil e = ([], Permᴰ.nil, refl)
  Permᴰ-map f [] [] (p ∷ ps) Permᴰ.nil e = absurd (cc e)
  Permᴰ-map f (a ∷ ys) (b ∷ zs) [] (Permᴰ.cons same d) e = absurd (cc e)
  Permᴰ-map f (a ∷ ys) (b ∷ zs) (p ∷ ps) (Permᴰ.cons same d) e =
      let head : b ≡ f p = cc e in
      let tail : zs ≡ map f ps = cc e in
      let (qs, order, eq) = Permᴰ-map f ys zs ps d tail in
      (p ∷ qs, Permᴰ.cons refl order, (λ j. (same ∙ head) j ∷ eq j))
  Permᴰ-map f (a ∷ b ∷ ys) (a' ∷ b' ∷ zs) [] (Permᴰ.swap same same') e = absurd (cc e)
  Permᴰ-map f (a ∷ b ∷ ys) (a' ∷ b' ∷ zs) (p ∷ []) (Permᴰ.swap same same') e = absurd (cc e)
  Permᴰ-map f (a ∷ b ∷ ys) (a' ∷ b' ∷ zs) (p ∷ q ∷ ps) (Permᴰ.swap same same') e =
      let first : b ≡ f p = cc (e, same') in
      let second : a ≡ f q = cc (e, same) in
      let tail : ys ≡ map f ps = cc e in
      (q ∷ p ∷ ps, Permᴰ.swap refl refl, (λ j. second j ∷ first j ∷ tail j))
  Permᴰ-map f ys zs ps (Permᴰ.trans {l₂ = ws} d d') e =
      let (qs, order, eq) = Permᴰ-map f ws zs ps d' e in
      let (rs, order', eq') = Permᴰ-map f ys ws qs d eq in (rs, Permᴰ.trans order' order, eq')

module _ {A : Type 0} where
  pub Permᴰ-length : (xs ys : List A) → Permᴰ xs ys → length xs ≡ length ys
  Permᴰ-length [] [] Permᴰ.nil = refl
  Permᴰ-length (x ∷ xs) (y ∷ ys) (Permᴰ.cons same d) = ap suc (Permᴰ-length xs ys d)
  Permᴰ-length (a ∷ b ∷ xs) (c ∷ d ∷ ys) (Permᴰ.swap same same') = refl
  Permᴰ-length xs ys (Permᴰ.trans {l₂ = zs} d d') = Permᴰ-length xs zs d ∙ Permᴰ-length zs ys d'

-- A stable sort, one of those that the code may run with.
module _ {A : Type 0} (key : A → ℕ) where
  abbrev pub insert_by : A → List A → List A
  insert_by x [] = x ∷ []
  insert_by x (y ∷ ys) = if leb (key x) (key y) then x ∷ y ∷ ys else y ∷ insert_by x ys

  abbrev pub sorted_by : List A → List A
  sorted_by [] = []
  sorted_by (x ∷ xs) = insert_by x (sorted_by xs)

  insert_by-Permᴰ : (x : A) (ys : List A) → Permᴰ (insert_by x ys) (x ∷ ys)
  insert_by-Permᴰ x [] = Permᴰ.refl (x ∷ [])
  insert_by-Permᴰ x (y ∷ ys) = elim (Bool-cases (leb (key x) (key y))) [
    | inl small ↦ rw small (Permᴰ.refl (x ∷ y ∷ ys))
    | inr large ↦
        rw large (Permᴰ.trans (Permᴰ.cons refl (insert_by-Permᴰ x ys)) (Permᴰ.swap refl refl))
  ]

  pub sorted_by-Permᴰ : (xs : List A) → Permᴰ (sorted_by xs) xs
  sorted_by-Permᴰ [] = Permᴰ.nil
  sorted_by-Permᴰ (x ∷ xs) =
      Permᴰ.trans (insert_by-Permᴰ x (sorted_by xs)) (Permᴰ.cons refl (sorted_by-Permᴰ xs))

  insert_by-InOrder :
      (x : A) (ys : List A) → InOrder (map key ys) → InOrder (map key (insert_by x ys))
  insert_by-InOrder x [] ordered = tt
  insert_by-InOrder x (y ∷ []) ordered = elim (Bool-cases (leb (key x) (key y))) [
    | inl small ↦ rw small (ground (arith, small), tt)
    | inr large ↦ rw large (ground (arith, large), tt)
  ]
  insert_by-InOrder x (y ∷ z ∷ ys) ordered = elim (Bool-cases (leb (key x) (key y))) [
    | inl small ↦ rw small (ground (arith, small), ordered)
    | inr large ↦
        let ih = insert_by-InOrder x (z ∷ ys) ordered.1 in
        rw large (elim (Bool-cases (leb (key x) (key z))) [
          | inl less ↦ rw less (ground (arith, large), (ground (arith, less), ordered.1))
          | inr more ↦ rw more (ordered.0, rw more at ih)
        ])
  ]

  pub sorted_by-InOrder : (xs : List A) → InOrder (map key (sorted_by xs))
  sorted_by-InOrder [] = tt
  sorted_by-InOrder (x ∷ xs) = insert_by-InOrder x (sorted_by xs) (sorted_by-InOrder xs)

abbrev pub stable_sort : Sort
stable_sort = record {
  sort_by = λ key xs. sorted_by key xs;
  sort_by-Permᴰ = λ key xs. sorted_by-Permᴰ key xs;
  sort_by-InOrder = λ key xs. sorted_by-InOrder key xs;
}
