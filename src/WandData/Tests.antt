-- ===== src/WandData/Tests.antt =====
-- Two lists over three documents, with numbers as scores.
use ds2i.Base.{ℕ, ◌<◌, ◌≡◌, List, [], ◌∷◌, ◌++◌, ◌+◌, some, get_elem?, refl, arith}
use ds2i.Bm25.Sample.{number_floats}
use ds2i.BinaryCollection.Stored.{Entry, values, entry}
use ds2i.BinaryCollection.Freqs.{docs_of, freqs_of, header}
use ds2i.WandData.{Doubles, WandData, norm_len, max_term_weight, wand_data}
use ds2i.WandData.Greatest.{IsGreatest, wand_data-stored}

abbrev number_doubles : Doubles number_floats
number_doubles = record {
  Double = ℕ;
  double_zero = 0;
  double_from = λ x. x;
  add_float = λ x y. x + y;
  div_double = λ x y. x;
  to_float = λ x. x;
}

abbrev lists : List (Entry × Entry)
lists =
    (record { zeros = 0; head = 0; tail = 2 ∷ [] }, record { zeros = 1; head = 7; tail = 3 ∷ [] })
    ∷ (record { zeros = 2; head = 1; tail = [] }, record { zeros = 0; head = 4; tail = [] })
    ∷ []

wand_data-stored_example :
    (w : WandData number_floats) × (wand_data number_floats number_doubles
        (5 ∷ 6 ∷ 9 ∷ [])
        3
        (entry (header 0 3) ++ docs_of lists)
        (freqs_of lists)
      ≡ some w)
    × ((doc_id size : ℕ)
        → doc_id < 3
        → get_elem? (5 ∷ 6 ∷ 9 ∷ []) doc_id ≡ some size
        → norm_len number_floats w doc_id ≡ some size)
    × ((term_id : ℕ) (p : Entry × Entry)
        → get_elem? lists term_id ≡ some p
        → (m : ℕ) × (max_term_weight number_floats w term_id ≡ some m)
          × IsGreatest number_floats 0 (values p.1) m)
wand_data-stored_example =
    wand_data-stored number_floats number_doubles (5 ∷ 6 ∷ 9 ∷ []) 0 3 lists (omega arith)
      (refl, (refl, tt))
