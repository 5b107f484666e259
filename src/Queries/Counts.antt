-- ===== src/Queries/Counts.antt =====
-- Documents by membership: how many of a range have a property.
use ds2i.Base.{
  ℕ, zero, suc, ◌+◌, ◌≤◌, ◌<◌, ◌≡◌, refl, List, [], ◌∷◌, Bool, false, ◌||◌, ◌==◌, if◌then◌else◌,
  arith,
}
use ds2i.Enumerator.{first, Increases}

-- How many of the `n` numbers from `lo` on have the property.
abbrev pub count : (ℕ → Bool) → ℕ → ℕ → ℕ
count p lo zero = 0
count p lo (suc n) = if p lo then suc (count p (suc lo) n) else count p (suc lo) n

abbrev pub contains : ℕ → List ℕ → Bool
contains d [] = false
contains d (x ∷ xs) = d == x || contains d xs

abbrev pub any {ℓ} : {A : Type ℓ} → (A → Bool) → List A → Bool
any p [] = false
any p (x ∷ xs) = p x || any p xs

pub count-skip :
    (p : ℕ → Bool) (k n lo : ℕ)
    → ((d : ℕ) → lo ≤ d → d < lo + k → p d ≡ false)
    → count p lo (k + n) ≡ count p (lo + k) n
count-skip p zero n lo none_here =
    let e : lo + 0 ≡ lo = omega arith in let e' : 0 + n ≡ n = omega arith in rw (e, e')
count-skip p (suc k) n lo none_here =
    let e : lo + suc k ≡ suc lo + k = omega arith in
    let e' : suc k + n ≡ suc (k + n) = omega arith in
    rw (e, e', none_here lo (omega arith) (omega arith))
      (count-skip p k n (suc lo) (λ d h h'. none_here d (omega arith) (omega arith)))

pub count-agree :
    (p q : ℕ → Bool) (n lo : ℕ) → ((d : ℕ) → lo ≤ d → p d ≡ q d) → count p lo n ≡ count q lo n
count-agree p q zero lo same = refl
count-agree p q (suc n) lo same =
    rw (same lo (omega arith), count-agree p q n (suc lo) (λ d h. same d (omega arith)))

contains-past :
    (universe lo d : ℕ) (ds : List ℕ) → Increases universe lo ds → d < lo → contains d ds ≡ false
contains-past universe lo d [] inc h = refl
contains-past universe lo d (x ∷ xs) inc h =
    let other : (d == x) ≡ false = ground arith in
    rw other (contains-past universe (x + 1) d xs inc.1 (omega arith))

pub contains-below :
    (universe lo d : ℕ) (ds : List ℕ)
    → Increases universe lo ds
    → d < first universe ds
    → contains d ds ≡ false
contains-below universe lo d [] inc h = refl
contains-below universe lo d (x ∷ xs) inc h =
    let other : (d == x) ≡ false = ground arith in
    rw other (contains-past universe (x + 1) d xs inc.1 (omega arith))

pub count-none : (p : ℕ → Bool) (n lo : ℕ) → ((d : ℕ) → p d ≡ false) → count p lo n ≡ 0
count-none p zero lo none_has = refl
count-none p (suc n) lo none_has = rw (none_has lo) (count-none p n (suc lo) none_has)
