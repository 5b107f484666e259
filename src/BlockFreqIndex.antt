-- ===== src/BlockFreqIndex.antt =====
-- block_freq_index.hpp: the posting lists of all terms in one buffer, with the places where they
-- start in a sequence of Elias and Fano.
pub mod Opening
mod Tests
use ds2i.Base.{
  ℕ, zero, suc, ◌+◌, ◌-◌, Option, none, some, List, [], ◌∷◌, ◌++◌, ◌==◌, if◌then◌else◌, ◌>>=◌,
  length, take, drop,
}
use ds2i.Succinct.{Util}
use ds2i.Codec.{Codec}
use ds2i.Sequence.{Sequence}
use ds2i.BlockPostingList.{DocumentEnumerator, write, document_enumerator}

pub record Builder : Type 0 where
  pub num_docs : ℕ
  pub endpoints : List ℕ
  pub lists : List ℕ

pub builder : ℕ → Builder
builder num_docs = record { num_docs = num_docs; endpoints = 0 ∷ []; lists = [] }

-- What a call of `add_posting_list` may end with; `undefined` stands for an access out of the
-- buffer in `write`.
pub data Added : Type 0 where
  added : Builder → Added
  invalid_argument : Added
  undefined : Added

-- `m_endpoints.push_back(m_lists.size())` behind the change of the buffer.
pub push_endpoint : List ℕ → Builder → Builder
push_endpoint lists b = record b { endpoints = b.endpoints ++ (length lists ∷ []); lists = lists }

-- The overload for a range of bytes.
pub add_bytes : List ℕ → Builder → Builder
add_bytes bytes b = push_endpoint (b.lists ++ bytes) b

module _ (codec : Codec) (util : Util) where
  pub add_posting_list : ℕ → List ℕ → List ℕ → Builder → Added
  add_posting_list n docs freqs b =
      if n == 0 then invalid_argument else elim (write codec util b.lists n docs freqs) [
        | none ↦ undefined
        | some lists ↦ added (push_endpoint lists b)
      ]

  module _ (elias_fano : Sequence) where
    pub record Index : Type 0 where
      pub size : ℕ
      pub num_docs : ℕ
      pub endpoints : elias_fano.Bits
      pub lists : List ℕ

    -- `bits` is the builder of the bit vector, just made. The sequence takes as many endpoints as
    -- there are lists, so that the last is left out.
    pub build : elias_fano.Bits → Builder → Index
    build bits b =
        let size = length b.endpoints - 1 in
        record {
          size = size;
          num_docs = b.num_docs;
          endpoints = elias_fano.write bits (take size b.endpoints) (length b.lists) size;
          lists = b.lists;
        }

    -- `operator[]`, where `behind` are the bytes in memory behind the buffer of the lists.
    pub open_list : List ℕ → Index → ℕ → Option DocumentEnumerator
    open_list behind index i =
        let endpoints = elias_fano.enumerator index.endpoints 0 (length index.lists) index.size in
        let (_, (_, endpoint)) = elias_fano.move i endpoints in
        document_enumerator codec util (drop endpoint (index.lists ++ behind)) index.num_docs
