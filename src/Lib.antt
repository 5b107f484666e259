-- ===== src/Lib.antt =====
-- ds2i: compressed inverted indexes.
--
-- The files are named for the parts of the program:
--   Base            the names, tests and lists that the others share
--   Succinct        what the code uses of the succinct submodule: parameters with their documented
--                   behaviour (broadword::msb, util::ceil_div, bit_vector_builder and
--                   bit_vector::enumerator), and samples of them
--   Varbyte         TightVariableByte of block_codecs.hpp
--   Interpolative   bit_writer and bit_reader of interpolative_coding.hpp
--   BlockCodec      interpolative_block of block_codecs.hpp, over Varbyte and Interpolative
--   Memory          32-bit words in a buffer of bytes, as the posting lists load and store them
--   Codec           what block_posting_list asks of its parameter BlockCodec; interpolative_block and
--                   a codec of plain words fill it
--   BlockPostingList  block_posting_list.hpp: write, and document_enumerator over it; its child Cursor
--                   makes it an enumerator of the queries,
--                   with scores or without
--   Sequence        the interface of a sequence in a bit vector; all_ones_sequence.hpp,
--                   strict_elias_fano.hpp and positive_sequence.hpp over it
--   BitArray        what these classes use of the bit vectors of succinct: parameters with their
--                   documented behaviour, and a sample
--   EliasFano       compact_elias_fano.hpp, which is such a sequence
--   RankedBitvector  compact_ranked_bitvector.hpp
--   IndexedSequence  indexed_sequence.hpp, over any two classes like those above; its child Classes makes
--                   them such classes
--   StrictSequence  strict_sequence.hpp
--   IntegerCodes    integer_codes.hpp
--   Chunks          chunks of a buffer one behind the other, and where they start
--   BitvectorCollection  bitvector_collection.hpp over a Sequence
--   BlockFreqIndex  block_freq_index.hpp over BlockPostingList and a Sequence
--   BinaryCollection  binary_collection.hpp and binary_freq_collection.hpp
--   SemiasyncQueue  semiasync_queue.hpp
--   Enumerator      the interface that the queries use of Index::document_enumerator, with a sample
--   Queries         queries.hpp: remove_duplicate_terms, and_query<false>, or_query<false>, query_freqs
--   Bm25            bm25.hpp, over arithmetic of float that is not interpreted
--   TimePrediction  dec_time_prediction.hpp: the names of the features, and the predictor
--   WandData        wand_data.hpp, over BinaryCollection and arithmetic of float and double that is not
--                   interpreted
--   RankedQueries   queries.hpp: ranked_and_query and ranked_or_query, over Bm25 and TopkQueue
--   TopkQueue       topk_queue of queries.hpp, over an abstract order of scores
--
-- A function of the code has the model function of its name. A buffer is a list of numbers, a
-- pointer into it the list that starts there, and `none` stands for an access out of a buffer, for
-- an assertion on the arguments of a call that fails, or for what the language leaves undefined.
-- Machine integers are natural numbers, with the wrap-around of their type written out. Recursion
-- of the code on a length runs on fuel: `n` rounds are enough for the interpolative code of `n`
-- values, which the round trip shows, and `complete` runs as many rounds as there are threads.
-- `std::sort` by size is, for the queries with scores, any function that orders by size, whatever
-- it does with equal sizes. The loops of the queries are given `num_docs` rounds, since each goes
-- on to a later document; their theorems are equations, so the fuel is enough.
--
-- A posting list gives its documents and frequencies by position. `write` of a list with no posting
-- gives `none`, since its second table would have a size below zero. The part of the buffer that
-- `decode` fills is what it is given, and the loops of `next_geq` and `move` are given a block's
-- size of rounds, or one for each block; their theorems give the result, so the fuel is enough. A
-- read of a word is lowest byte first.
--
-- A sequence is given by its values at the positions. The writers of compact_elias_fano and
-- compact_ranked_bitvector give their exceptions by name, and the loops over the pointers to zeros
-- and the samples of ranks have as many rounds as zeros or bits, which are enough. A position in a
-- bit vector does not wrap, since vectors have fewer than 2^64 bits. The class that
-- positive_sequence and strict_elias_fano stand on, and the bit vector, are parameters with the
-- laws of such a class; strict_elias_fano is again one. A file is the list of its words, and the
-- loop over it has as many rounds as words.
--
-- A job of the queue is a value, and what the code calls on it is logged. The steps of a running
-- thread are actions of their own, so that a list of actions is an interleaving of the owner's
-- calls with them.
--
-- Not modelled: the codecs of FastPFor and the bit vectors of succinct, which are other libraries, the
-- other queries with scores, write_blocks, the posting lists and sequences that are not named above, and the
-- programs that only read files, print or measure.
pub mod Base
pub mod Varbyte
pub mod WandData
pub mod Succinct
pub mod Interpolative
pub mod BlockCodec
pub mod Memory
pub mod Codec
pub mod BlockPostingList
pub mod Sequence
pub mod BinaryCollection
pub mod BitArray
pub mod EliasFano
pub mod RankedBitvector
pub mod IndexedSequence
pub mod StrictSequence
pub mod Chunks
pub mod BlockFreqIndex
pub mod IntegerCodes
pub mod BitvectorCollection
pub mod SemiasyncQueue
pub mod Enumerator
pub mod Queries
pub mod Bm25
pub mod RankedQueries
pub mod TimePrediction
pub mod TopkQueue
