-- ===== src/Enumerator/Sample.antt =====
-- A cursor over a list in memory.
use ds2i.Base.{ℕ, ◌≡◌, ap, List, [], ◌∷◌, length}
use ds2i.Enumerator.{first, drop_below, Enumerator}

abbrev tail : List ℕ → List ℕ
tail [] = []
tail (d ∷ ds) = ds

abbrev pub list_enumerator : (universe : ℕ) → Enumerator universe
list_enumerator universe = record {
  Cursor = List ℕ;
  docid = first universe;
  size = length;
  next = tail;
  next_geq = drop_below;
  IsFresh = λ c. Unit;
  Shows = λ c ds. c ≡ ds;
  docid_eq = λ c ds e. ap (first universe) e;
  next-Shows = λ c d ds e. ap tail e;
  next_geq-Shows = λ bound c ds e h. ap (drop_below bound) e;
}
