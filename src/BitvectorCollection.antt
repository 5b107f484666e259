-- ===== src/BitvectorCollection.antt =====
-- bitvector_collection.hpp: bit vectors one behind the other, with the places where they start in a
-- sequence of Elias and Fano.
pub mod Opening
mod Tests
use ds2i.Base.{ℕ, ◌-◌, List, [], ◌∷◌, ◌++◌, length, take}
use ds2i.Succinct.{BitVector, BitVectors}
use ds2i.Sequence.{Sequence}

module _ (bit_vector : BitVector) (bit_vectors : BitVectors bit_vector)
    (elias_fano : Sequence) where
  pub record Builder : Type 0 where
    pub endpoints : List ℕ
    pub bitvectors : bit_vector.Builder

  pub record Collection : Type 0 where
    pub size : ℕ
    pub endpoints : elias_fano.Bits
    pub bitvectors : bit_vector.Builder

  pub builder : Builder
  builder = record { endpoints = 0 ∷ []; bitvectors = bit_vectors.empty }

  pub append : bit_vector.Builder → Builder → Builder
  append bvb b =
      let bitvectors = bit_vectors.append b.bitvectors bvb in
      record {
        endpoints = b.endpoints ++ (bit_vectors.size bitvectors ∷ []);
        bitvectors = bitvectors;
      }

  -- `bits` is the builder of the endpoints, just made.
  pub build : elias_fano.Bits → Builder → Collection
  build bits b =
      let size = length b.endpoints - 1 in
      record {
        size = size;
        endpoints =
            elias_fano.write bits (take size b.endpoints) (bit_vectors.size b.bitvectors) size;
        bitvectors = b.bitvectors;
      }

  pub get : Collection → ℕ → bit_vector.Enumerator
  get c i =
      let endpoints = elias_fano.enumerator c.endpoints 0 (bit_vectors.size c.bitvectors) c.size in
      let (_, (_, endpoint)) = elias_fano.move i endpoints in
      bit_vectors.enumerator c.bitvectors endpoint

  -- Calls of `append`, in order.
  pub append_all : List bit_vector.Builder → Builder → Builder
  append_all [] b = b
  append_all (bvb ∷ bvbs) b = append_all bvbs (append bvb b)
