-- ===== src/Codec/Interpolative.antt =====
-- `interpolative_block` as a codec of posting lists.
use mathlib.Core.List.{append_cancel_left}
use mathlib.Core.Option.{some-injective}
use ds2i.Base.{
  ℕ, ◌+◌, ◌^◌, ◌≤◌, ◌<◌, ◌≡◌, sym, subst, ◌∙◌, ◌⊎◌, some, List, [], ◌∷◌, ◌++◌, length, replicate,
  length-replicate, All, IsU8, arith,
}
use ds2i.Succinct.{Broadword, Util}
use ds2i.BlockCodec.{encode, decode, unknown}
use ds2i.BlockCodec.Sums.{sum}
use ds2i.BlockCodec.RoundTrip.{block_round_trip}
use ds2i.Codec.{Codec}

module _ (broadword : Broadword) (util : Util) where
  -- The bytes of a block do not depend on what follows it.
  abbrev pub interpolative_codec : Codec
  interpolative_codec = record {
    block_size = 128;
    slack = 3;
    encode = encode broadword util;
    decode = decode broadword util;
    block_size_pos = omega arith;
    round_trip = any_rest;
  }
    where
      any_rest :
          (x sum_of_values : ℕ) (xs before : List ℕ)
          → length (x ∷ xs) ≤ 128
          → sum (x ∷ xs) + 1 < 2 ^ 32
          → (sum_of_values ≡ sum (x ∷ xs)) ⊎ (sum_of_values ≡ unknown)
          → (bytes : List ℕ) × (encode broadword util (x ∷ xs) sum_of_values before
              ≡ some (before ++ bytes))
            × All IsU8 bytes
            × ((rest out : List ℕ)
                → All IsU8 rest
                → 3 ≤ length rest
                → length out ≡ length (x ∷ xs)
                → decode broadword util (bytes ++ rest) out sum_of_values (length (x ∷ xs))
                  ≡ some (x ∷ xs, rest))
      any_rest x s xs before few small known =
          let (bytes, written, read, us) =
            block_round_trip broadword util x s xs before (0 ∷ 0 ∷ 0 ∷ [])
              (replicate (length (x ∷ xs)) 0) few small known (omega arith) (omega arith)
              (length-replicate (length (x ∷ xs)) 0) in
          (
            bytes,
            written,
            us,
            λ rest out rest_us long same.
                let (bytes', written', read', us') =
                  block_round_trip broadword util x s xs before rest out few small known rest_us
                    long same in
                let e : bytes' ≡ bytes =
                  append_cancel_left before bytes' bytes
                    (some-injective _ _ (sym written' ∙ written)) in
                subst
                  (λ bs.
                    decode broadword util (bs ++ rest) out s (length (x ∷ xs))
                    ≡ some (x ∷ xs, rest))
                  e read',
          )
