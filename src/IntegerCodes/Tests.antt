-- ===== src/IntegerCodes/Tests.antt =====
-- The codes of a number.
use ds2i.Base.{arith}
use ds2i.Succinct.Sample.{sample_broadword, sample_bit_vector}
use ds2i.IntegerCodes.{write_delta, read_delta}
use ds2i.IntegerCodes.RoundTrip.{Coded, write_delta-Coded}

write_delta-Coded_example :
    Coded sample_broadword sample_bit_vector 300
      (write_delta sample_broadword sample_bit_vector 300)
      (read_delta sample_broadword sample_bit_vector)
write_delta-Coded_example = write_delta-Coded sample_broadword sample_bit_vector 300 (omega arith)
