-- ===== src/BitvectorCollection/Opening.antt =====
-- A bit vector of a collection is opened where it was appended.
use ds2i.Base.{
  ℕ, zero, suc, ◌+◌, ◌-◌, ◌^◌, ◌<◌, ◌≡◌, ap, sym, ◌∙◌, refl, Bool, List, [], ◌∷◌, ◌++◌, map,
  append_assoc, append-nil, length, length-append, length-map, take, drop, All, arith,
}
use ds2i.Memory.{drop-append}
use ds2i.Succinct.{BitVector, BitVectors}
use ds2i.Sequence.{Sequence, NonDecreasing}
use ds2i.Chunks.Endpoints.{endpoint_eq}
use ds2i.Chunks.{concat, offset, ends, length-ends}
use ds2i.BitvectorCollection.{Builder, Collection, builder, append, build, get, append_all}

-- The chunk at a position and what is behind it.
abbrev pub from_chunk : List (List Bool) → ℕ → List Bool
from_chunk cs zero = concat cs
from_chunk [] (suc i) = []
from_chunk (c ∷ cs) (suc i) = from_chunk cs i

drop-offset :
    (cs : List (List Bool)) (i : ℕ)
    → i < length cs
    → drop (offset cs i) (concat cs) ≡ from_chunk cs i
drop-offset cs zero h = refl
drop-offset [] (suc i) h = absurd (omega arith)
drop-offset (c ∷ cs) (suc i) h =
    drop-append c (concat cs) (offset cs i) ∙ drop-offset cs i (omega arith)

module _ (bit_vector : BitVector) (bit_vectors : BitVectors bit_vector)
    (elias_fano : Sequence) where
  open bit_vector use {contents, ahead}

  append_all-chunks :
      (bvbs : List bit_vector.Builder) (b : Builder bit_vector bit_vectors elias_fano)
      → let b' = append_all bit_vector bit_vectors elias_fano bvbs b in
        let cs = map contents bvbs in
        (contents b'.bitvectors ≡ contents b.bitvectors ++ concat cs)
        × (b'.endpoints ≡ b.endpoints ++ ends (length (contents b.bitvectors)) cs)
  unfolding append_all append
  append_all-chunks [] b = (sym (append-nil (contents b.bitvectors)), sym (append-nil b.endpoints))
  append_all-chunks (bvb ∷ bvbs) b =
      let cs = map contents bvbs in
      let before = contents b.bitvectors in
      let joined = bit_vectors.append b.bitvectors bvb in
      let (bits_eq, endpoints_eq) =
        append_all-chunks bvbs (append bit_vector bit_vectors elias_fano bvb b) in
      let grown : contents joined ≡ before ++ contents bvb =
        bit_vectors.append_eq b.bitvectors bvb in
      let l : length (contents joined) ≡ length before + length (contents bvb) =
        ap length grown ∙ length-append before (contents bvb) in
      let sized : bit_vectors.size joined ≡ length before + length (contents bvb) =
        bit_vectors.size_eq joined ∙ l in
      (
        bits_eq ∙ ap (λ xs. xs ++ concat cs) grown ∙ append_assoc before (contents bvb) (concat cs),
        endpoints_eq
            ∙ append_assoc b.endpoints (bit_vectors.size joined ∷ [])
                (ends (length (contents joined)) cs)
            ∙ (λ i. b.endpoints ++ (sized i ∷ ends (l i) cs)),
      )

  module _ (empty : elias_fano.Bits) (empty_size : elias_fano.bit_size empty ≡ 0)
      (writable : (v : ℕ → ℕ) (universe n : ℕ)
        → NonDecreasing v universe n
        → elias_fano.Writable v universe n) where
    abbrev pub collection : List bit_vector.Builder → Collection bit_vector bit_vectors elias_fano
    collection bvbs = build bit_vector bit_vectors elias_fano empty (
        append_all bit_vector bit_vectors elias_fano bvbs
          (builder bit_vector bit_vectors elias_fano))

    -- The collection of one or more bit vectors, none of them empty and together of less than 2^55 bits, has
    -- their number as its size, and `get` of a position gives an enumerator before the bits
    -- of the vector there, which those of the later ones follow. The sequence of the endpoints stores
    -- any values that do not decrease.
    pub get-build :
        (bvbs : List bit_vector.Builder)
        → 0 < length bvbs
        → All (λ c. 0 < length c) (map contents bvbs)
        → length (concat (map contents bvbs)) < 2 ^ 55
        → ((collection bvbs).size ≡ length bvbs)
          × ((i : ℕ)
              → i < length bvbs
              → ahead (get bit_vector bit_vectors elias_fano (collection bvbs) i)
                ≡ from_chunk (map contents bvbs) i)
    unfolding build builder get
    get-build bvbs some_vector pos small =
        let b₀ = builder bit_vector bit_vectors elias_fano in
        let b = append_all bit_vector bit_vectors elias_fano bvbs b₀ in
        let cs = map contents bvbs in
        let none_before : contents bit_vectors.empty ≡ [] = bit_vectors.empty_eq in
        let (bits_from, endpoints_from) = append_all-chunks bvbs b₀ in
        let bits_eq : contents b.bitvectors ≡ concat cs =
          bits_from ∙ ap (λ xs. xs ++ concat cs) none_before in
        let endpoints_eq : b.endpoints ≡ 0 ∷ ends 0 cs =
          endpoints_from ∙ ap (λ xs. 0 ∷ ends (length xs) cs) none_before in
        let count : length b.endpoints - 1 ≡ length cs =
          omega (arith, ap length endpoints_eq, length-ends 0 cs) in
        let universe_eq : bit_vectors.size b.bitvectors ≡ length (concat cs) =
          bit_vectors.size_eq b.bitvectors ∙ ap length bits_eq in
        (
          count ∙ length-map bvbs contents,
          λ i h.
              let inside : i < length cs = omega (arith, h, length-map bvbs contents) in
              let shown = endpoint_eq elias_fano empty empty_size writable cs i inside pos small in
              let stored = λ (es : List ℕ) (s u : ℕ).
                (elias_fano.move i
                  (elias_fano.enumerator (elias_fano.write empty (take s es) u s) 0 u s)).1.1 in
              let at : stored b.endpoints (length b.endpoints - 1) (bit_vectors.size b.bitvectors)
                  ≡ offset cs i =
                (λ j. stored (endpoints_eq j) (count j) (universe_eq j))
                ∙ ap (λ (s : ℕ × ℕ). s.1) shown in
              bit_vectors.enumerator_eq b.bitvectors
                (stored b.endpoints (length b.endpoints - 1) (bit_vectors.size b.bitvectors))
              ∙ (λ j. drop (at j) (bits_eq j))
              ∙ drop-offset cs i inside,
        )
