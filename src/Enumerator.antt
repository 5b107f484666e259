-- ===== src/Enumerator.antt =====
-- The interface that the queries use of `Index::document_enumerator`: `docid`, `next`,
-- `next_geq` and `size`.
pub mod Sample
pub mod Tracked
use ds2i.Base.{ℕ, ◌+◌, ◌≤◌, ◌<◌, ◌≡◌, List, [], ◌∷◌, ltb, if◌then◌else◌, ◌⊎◌}

-- The first document that is left, or the universe of the index behind the last.
abbrev pub first : ℕ → List ℕ → ℕ
first universe [] = universe
first universe (d ∷ ds) = d

-- Documents in strictly increasing order, from `lo` on and below the universe.
abbrev pub Increases : ℕ → ℕ → List ℕ → Type 0
Increases universe lo [] = lo ≤ universe
Increases universe lo (d ∷ ds) = (lo ≤ d) × Increases universe (d + 1) ds

-- The documents from `bound` on.
abbrev pub drop_below : ℕ → List ℕ → List ℕ
drop_below bound [] = []
drop_below bound (d ∷ ds) = let rest = drop_below bound ds in if ltb d bound then rest else d ∷ ds

-- `Shows c ds` says that `c` stands before the documents `ds`, and `IsFresh c` that it has
-- not moved. `next_geq` may be called for a bound that is not behind the cursor, or of a fresh one,
-- as the assertion of the code has it.
pub record Enumerator (universe : ℕ) : Type 1 where
  pub Cursor : Type 0
  pub docid : Cursor → ℕ
  pub size : Cursor → ℕ
  pub next : Cursor → Cursor
  pub next_geq : ℕ → Cursor → Cursor
  pub Shows : Cursor → List ℕ → Type 0
  pub IsFresh : Cursor → Type 0
  pub docid_eq : (c : Cursor) (ds : List ℕ) → Shows c ds → docid c ≡ first universe ds
  pub next-Shows : (c : Cursor) (d : ℕ) (ds : List ℕ) → Shows c (d ∷ ds) → Shows (next c) ds
  pub next_geq-Shows :
      (bound : ℕ) (c : Cursor) (ds : List ℕ)
      → Shows c ds
      → (docid c ≤ bound) ⊎ IsFresh c
      → Shows (next_geq bound c) (drop_below bound ds)
