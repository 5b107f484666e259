-- ===== src/Varbyte/Tests.antt =====
-- Runs of `TightVariableByte`, and its theorems at concrete inputs.
use ds2i.Base.{ℕ, ◌^◌, ◌<◌, ◌≤◌, ◌≡◌, refl, List, [], ◌∷◌, ◌++◌, length, some, none, arith}
use ds2i.Varbyte.{encode, decode}
use ds2i.Varbyte.RoundTrip.{decode-encode, Stops, encode-shortest}

abbrev sample : List ℕ
sample = 5 ∷ 300 ∷ 0xffff_ffff ∷ []

encode-sample : encode sample ≡ 133 ∷ 44 ∷ 130 ∷ 127 ∷ 127 ∷ 127 ∷ 127 ∷ 143 ∷ []
unfolding encode
encode-sample = refl

decode_cut : decode (44 ∷ []) 1 ≡ none
unfolding decode
decode_cut = refl

decode-encode_example :
    decode (encode sample ++ (9 ∷ 7 ∷ [])) (length sample) ≡ some (sample, 9 ∷ 7 ∷ [])
decode-encode_example = decode-encode sample (9 ∷ 7 ∷ []) (omega arith)

encode-shortest_example :
    (length (encode (300 ∷ [])) ≤ 2 → 300 < 128 ^ 2)
    × (300 < 128 ^ 2 → length (encode (300 ∷ [])) ≤ 2)
    × Stops (encode (300 ∷ []))
encode-shortest_example = encode-shortest 300 1 (omega arith)
