-- ===== src/Interpolative/Tests.antt =====
-- Runs of the bit writer and reader, and the theorems at concrete inputs.
use ds2i.Base.{ℕ, ◌*◌, ◌≤◌, ◌≡◌, refl, List, [], ◌∷◌, ◌++◌, some, none, arith}
use ds2i.Succinct.Sample.{sample_broadword}
use ds2i.Interpolative.{
  BitWriter, BitReader, bit_writer, bit_reader, or_back, write, write_interpolative, load_word,
  refill, read, read_interpolative,
}
use ds2i.Interpolative.Code.{Code, ◌⊕◌, nothing, field}
use ds2i.Interpolative.Write.{Holds, bit_writer-Holds, write-Holds}
use ds2i.Interpolative.Read.{Follows, bit_reader-Follows}
use ds2i.Interpolative.RoundTrip.{interpolative_round_trip}

write_twice : write (write bit_writer 5 30) 13 4 ≡ record { buf = 0x4000_0005 ∷ 3 ∷ []; size = 34 }
unfolding write or_back bit_writer
write_twice = refl

-- A read behind the words is a fault.
read_behind : read (bit_reader []) 3 ≡ none
unfolding read refill load_word bit_reader
read_behind = refl

write-Holds_example : Holds (write bit_writer 5 30) (nothing ⊕ field 5 30)
write-Holds_example =
    write-Holds bit_writer nothing 5 30 bit_writer-Holds (omega arith) (omega arith)

abbrev tail : Code
tail = record { bits = 872_415_232; len = 60 }

follows : Follows (bit_reader (0x4000_0005 ∷ 3 ∷ [])) (field 5 4 ⊕ tail)
follows =
    bit_reader-Follows (0x4000_0005 ∷ 3 ∷ []) (field 5 4 ⊕ tail) (omega arith) (omega arith)
      (omega arith)

abbrev sums : List ℕ
sums = 2 ∷ 5 ∷ 5 ∷ 9 ∷ []

interpolative_round_trip_example :
    (w : BitWriter) × (r : BitReader) × (write_interpolative sample_broadword 4 bit_writer
        (sums ++ (7 ∷ []))
        4
        0
        12
      ≡ some w)
    × (read_interpolative sample_broadword 4
          (bit_reader (w.buf ++ (1 ∷ [])))
          (0 ∷ 0 ∷ 0 ∷ 0 ∷ [])
          0
          4
          0
          12
        ≡ some (sums, r))
    × (r.pos ≡ w.size)
    × (w.size ≤ 32 * 4)
interpolative_round_trip_example =
    interpolative_round_trip sample_broadword sums (7 ∷ []) (0 ∷ 0 ∷ 0 ∷ 0 ∷ []) (1 ∷ []) 0 12
      (omega arith) (omega arith) (omega arith) refl (omega arith)
