-- ===== src/Enumerator/Tracked.antt =====
-- A cursor over a list in memory that knows whether it has moved.
use ds2i.Base.{ℕ, ◌≡◌, ap, Bool, true, false, List, [], ◌∷◌, length}
use ds2i.Enumerator.{first, drop_below, Enumerator}

abbrev pub Tracked : Type 0
Tracked = List ℕ × Bool

abbrev pub tail : List ℕ → List ℕ
tail [] = []
tail (d ∷ ds) = ds

abbrev pub tracked : (universe : ℕ) → Enumerator universe
tracked universe = record {
  Cursor = Tracked;
  docid = λ c. first universe c.0;
  size = λ c. length c.0;
  next = λ c. (tail c.0, false);
  next_geq = λ bound c. (drop_below bound c.0, false);
  IsFresh = λ c. c.1 ≡ true;
  Shows = λ c ds. c.0 ≡ ds;
  docid_eq = λ c ds e. ap (first universe) e;
  next-Shows = λ c d ds e. ap tail e;
  next_geq-Shows = λ bound c ds e h. ap (drop_below bound) e;
}
