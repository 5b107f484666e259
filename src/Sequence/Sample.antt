-- ===== src/Sequence/Sample.antt =====
-- A sequence that is stored as it is.
use ds2i.Base.{
  ℕ, zero, suc, ◌≤◌, ◌<◌, ◌≡◌, ap, ◌∙◌, refl, List, ◌++◌, length, drop, get_or, get_or-tabulate,
  tabulate, arith,
}
use ds2i.Memory.{drop-append}
use ds2i.Sequence.{Sequence, value_before}

pub record Listed : Type 0 where
  pub values : List ℕ
  pub n : ℕ
  pub position : ℕ

pub record Stands (v : ℕ → ℕ) (universe n p : ℕ) (e : Listed) : Type 0 where
  pub values_eq : e.values ≡ tabulate v 0 n
  pub n_eq : e.n ≡ n
  pub position_eq : e.position ≡ p

abbrev pub prev_value : Listed → ℕ
prev_value e = value_before (λ p. get_or e.values p 0) e.position

abbrev pub move_to : ℕ → Listed → Listed × (ℕ × ℕ)
move_to p e = (record e { position = p }, (p, get_or e.values p 0))

value_at :
    (v : ℕ → ℕ) (universe n p : ℕ) (e : Listed) (q : ℕ)
    → Stands v universe n p e
    → q < n
    → get_or e.values q 0 ≡ v q
value_at v universe n p e q s h =
    ap (λ xs. get_or xs q 0) s.values_eq ∙ get_or-tabulate v 0 n q 0 h ∙ ap v (omega arith)

pub prev_value_eq :
    (v : ℕ → ℕ) (universe n p : ℕ) (e : Listed)
    → Stands v universe n p e
    → p ≤ n
    → prev_value e ≡ value_before v p
prev_value_eq v universe n zero e s le = ap (value_before (λ p. get_or e.values p 0)) s.position_eq
prev_value_eq v universe n (suc p) e s le =
    ap (value_before (λ p. get_or e.values p 0)) s.position_eq
    ∙ value_at v universe n (suc p) e p s le

pub moved :
    (v : ℕ → ℕ) (universe n p p' : ℕ) (e : Listed)
    → Stands v universe n p e
    → Stands v universe n p' (move_to p' e).0 × (p' < n → (move_to p' e).1 ≡ (p', v p'))
moved v universe n p p' e s = (
  record { values_eq = s.values_eq; n_eq = s.n_eq; position_eq = refl },
  λ h. ap (λ (t : ℕ). (p', t)) (value_at v universe n p e p' s h),
)

pub next-Stands :
    (v : ℕ → ℕ) (universe n p : ℕ) (e : Listed)
    → Stands v universe n p e
    → p < n
    → Stands v universe n (suc p) (move_to (suc e.position) e).0
      × (suc p < n → (move_to (suc e.position) e).1 ≡ (suc p, v (suc p)))
next-Stands v universe n p e s h = rw (s.position_eq) (moved v universe n p (suc p) e s)

abbrev pub list_sequence : Sequence
list_sequence = record {
  Bits = List ℕ;
  Enumerator = Listed;
  bit_size = length;
  write = λ bits xs universe n. bits ++ xs;
  enumerator = λ bits offset universe n. record { values = drop offset bits; n = n; position = n };
  move = move_to;
  next = λ e. move_to (suc e.position) e;
  size = λ e. e.n;
  position = λ e. e.position;
  prev_value = prev_value;
  Writable = λ v universe n. Unit;
  Stands = Stands;
  write-Stands = λ v universe n bits w. record {
    values_eq =
        ap (λ (t : ℕ). drop t (bits ++ tabulate v 0 n)) (omega arith)
        ∙ drop-append bits (tabulate v 0 n) 0;
    n_eq = refl;
    position_eq = refl;
  };
  size_eq = λ v universe n p e s. s.n_eq;
  position_eq = λ v universe n p e s. s.position_eq;
  prev_value_eq = prev_value_eq;
  move-Stands = λ v universe n p p' e s le. moved v universe n p p' e s;
  next-Stands = next-Stands;
}
