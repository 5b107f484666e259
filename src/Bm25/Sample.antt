-- ===== src/Bm25/Sample.antt =====
-- Arithmetic of float for the tests: numbers.
use ds2i.Base.{ℕ, true, false, ◌+◌, ◌-◌, ◌*◌, max, ltb, ◌≡◌, arith}
use ds2i.TopkQueue.{Scores}
use ds2i.Bm25.{Floats}

pub less-asym : (x y : ℕ) → ltb y x ≡ true → ltb x y ≡ false
less-asym x y h = ground arith

pub not_less_trans : (x y z : ℕ) → ltb y x ≡ false → ltb z y ≡ false → ltb z x ≡ false
not_less_trans x y z h h' = ground arith

abbrev pub numbers : Scores
numbers = record {
  Score = ℕ;
  gtb = λ x y. ltb y x;
  empty_front = 0;
  gtb_asym = less-asym;
  gtb_trans_false = not_less_trans;
}

abbrev pub number_floats : Floats
number_floats = record {
  scores = numbers;
  from_integer = λ x. x;
  add = λ x y. x + y;
  sub = λ x y. x - y;
  mul = λ x y. x * y;
  div = λ x y. x;
  max_of = max;
  log = λ x. x;
  float_zero = 0;
  half = 0;
  one = 1;
  b = 0;
  k1 = 1;
  epsilon_score = 0;
}
