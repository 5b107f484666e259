-- ===== src/BlockCodec/Tests.antt =====
-- `interpolative_block` at concrete inputs.
use ds2i.Base.{ℕ, ◌≡◌, refl, List, [], ◌∷◌, ◌++◌, some, arith, inr, All, IsU8}
use ds2i.Succinct.Sample.{sample_broadword, sample_util}
use ds2i.BlockCodec.{encode, decode, unknown}
use ds2i.BlockCodec.RoundTrip.{block_round_trip}

abbrev gaps : List ℕ
gaps = 3 ∷ 0 ∷ 7 ∷ 1 ∷ []

block_round_trip_example :
    (bytes : List ℕ) × (encode sample_broadword sample_util gaps unknown (1 ∷ [])
      ≡ some ((1 ∷ []) ++ bytes))
    × (decode sample_broadword sample_util
          (bytes ++ (0 ∷ 0 ∷ 0 ∷ []))
          (9 ∷ 9 ∷ 9 ∷ 9 ∷ [])
          unknown
          4
        ≡ some (gaps, 0 ∷ 0 ∷ 0 ∷ []))
    × All IsU8 bytes
block_round_trip_example =
    block_round_trip sample_broadword sample_util 3 unknown (0 ∷ 7 ∷ 1 ∷ []) (1 ∷ [])
      (0 ∷ 0 ∷ 0 ∷ []) (9 ∷ 9 ∷ 9 ∷ 9 ∷ []) (omega arith) (omega arith) (inr refl) (omega arith)
      (omega arith) refl
