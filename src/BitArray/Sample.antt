-- ===== src/BitArray/Sample.antt =====
-- Bit vectors as functions.
use native.Mathlib.Nat.{pow-suc, div-div-eq-div-mul}
use ds2i.Base.{
  ℕ, zero, suc, ◌+◌, ◌-◌, ◌*◌, ◌/◌, ◌%◌, ◌^◌, ◌≤◌, ◌<◌, ◌≡◌, ◌⊎◌, inl, inr, ap, sym, ◌∙◌, refl,
  Bool, true, false, Bool-cases, ltb, ltb→lt, lt→ltb, ◌==◌, if◌then◌else◌, arith,
}
use ds2i.Base.Bits.{bit_and_mask, two-pow-pos, mod_twice}
use ds2i.BitArray.{BitArray, NextOne, KthOne, bit}

pub record Flags : Type 0 where
  pub size : ℕ
  pub get : ℕ → Bool

pub record Ones : Type 0 where
  pub flags : Flags
  pub from : ℕ
  pub position : ℕ

pub zero_extend : ℕ → Flags → Flags
zero_extend k b = record { size = b.size + k; get = λ j. if ltb j b.size then b.get j else false }

pub append_bits : ℕ → ℕ → Flags → Flags
append_bits x len b = record {
  size = b.size + len;
  get = λ j. if ltb j b.size then b.get j else bit x (j - b.size);
}

pub set : ℕ → Flags → Flags
set p b = record { size = b.size; get = λ j. if j == p then true else b.get j }

pub set_bits : ℕ → ℕ → ℕ → Flags → Flags
set_bits p x len b = record {
  size = b.size;
  get = λ j. if ltb j p then b.get j else if ltb j (p + len) then bit x (j - p) else b.get j;
}

pub word : ℕ → (ℕ → Bool) → ℕ
word zero f = 0
word (suc len) f = (if f 0 then 1 else 0) + 2 * word len (λ j. f (suc j))

pub last_one : (ℕ → Bool) → ℕ → ℕ
last_one get zero = 0
last_one get (suc p) = let rest = last_one get p in if get (suc p) then suc p else rest

pub next_one : ℕ → (ℕ → Bool) → ℕ → ℕ
next_one zero get from = from
next_one (suc fuel) get from =
    let rest = next_one fuel get (suc from) in if get from then from else rest

pub next : Ones → Ones × ℕ
next u =
    let q = next_one u.flags.size u.flags.get u.from in
    (record { flags = u.flags; from = suc q; position = q }, q)

pub skip : ℕ → Ones → Ones
skip zero u = u
skip (suc k) u = skip k (next u).0

-- No one stands between where the enumerator is and the position.
pub record Reads (u : Ones) (b : Flags) (from : ℕ) : Type 0 where
  pub flags_eq : u.flags ≡ b
  pub reached : u.from ≤ from
  pub none_between : (j : ℕ) → u.from ≤ j → j < from → b.get j ≡ false

pub word-mod :
    (m len x : ℕ) (f : ℕ → Bool)
    → len ≤ m
    → x < 2 ^ len
    → ((j : ℕ) → j < len → f j ≡ bit x j)
    → word m f % 2 ^ len ≡ x
unfolding word
word-mod m zero x f le small bits_eq = omega arith
word-mod zero (suc len) x f le small bits_eq = absurd (omega arith)
word-mod (suc m) (suc len) x f le small bits_eq =
    let half : x / 2 < 2 ^ len = omega (arith, pow-suc 2 len) in
    let upper =
      word-mod m len (x / 2) (λ j. f (suc j)) (omega arith) half
        (λ j less. bits_eq (suc j) (omega arith) ∙ shifted x j) in
    let first : f 0 ≡ (x % 2 == 1) =
      bits_eq 0 (omega arith) ∙ ap (λ (t : ℕ). t % 2 == 1) (omega arith) in
    let whole = twice (word m (λ j. f (suc j))) (2 ^ len) (two-pow-pos len) in
    elim (Bool-cases (x % 2 == 1)) [
      | inl odd ↦
          rw (first, odd)
            (ap (λ (t : ℕ). (1 + 2 * word m (λ j. f (suc j))) % t) (pow-suc 2 len)
              ∙ whole.1
              ∙ ground (arith, upper, odd))
      | inr even ↦
          rw (first, even)
            (ap (λ (t : ℕ). (0 + 2 * word m (λ j. f (suc j))) % t) (pow-suc 2 len)
              ∙ whole.0
              ∙ ground (arith, upper, even))
    ]
  where
    shifted : (x j : ℕ) → bit x (suc j) ≡ bit (x / 2) j
    shifted x j =
        ap (λ (t : ℕ). t % 2 == 1)
          (ap (λ (t : ℕ). x / t) (omega (arith, pow-suc 2 j))
            ∙ sym (div-div-eq-div-mul x 2 (2 ^ j)))

    halved : (a w r p : ℕ) → a / 2 ≡ w → a % 2 ≡ r → a / 2 % p * 2 + a % 2 ≡ r + 2 * (w % p)
    halved a w r p e e' = rw (e, e') (omega arith)

    twice :
        (w p : ℕ)
        → 1 ≤ p
        → ((0 + 2 * w) % (p * 2) ≡ 2 * (w % p)) × ((1 + 2 * w) % (p * 2) ≡ 1 + 2 * (w % p))
    twice w p pos = (
      mod_twice (0 + 2 * w) p pos
          ∙ halved (0 + 2 * w) w 0 p (omega arith) (omega arith)
          ∙ omega arith,
      mod_twice (1 + 2 * w) p pos ∙ halved (1 + 2 * w) w 1 p (omega arith) (omega arith),
    )

pub next_one_eq :
    (fuel : ℕ) (get : ℕ → Bool) (size from q : ℕ)
    → NextOne get size from q
    → q < from + fuel
    → next_one fuel get from ≡ q
unfolding next_one
next_one_eq zero get size from q one less = absurd (omega (arith, one.reach))
next_one_eq (suc fuel) get size from q one less = elim (Bool-cases (from == q)) [
  | inl same ↦ let e : from ≡ q = ground (arith, same) in rw e (rw (one.here) refl)
  | inr other ↦
      let before : from < q = ground (arith, other, one.reach) in
      rw (one.none_before from (omega arith) before) (
        next_one_eq fuel get size (suc from) q
          (record {
            reach = before;
            inside = one.inside;
            here = one.here;
            none_before = λ j le less. one.none_before j (omega arith) less;
          })
          (omega (arith, less)))
]

pub last_one_eq :
    (get : ℕ → Bool) (p q : ℕ)
    → q ≤ p
    → get q ≡ true
    → ((j : ℕ) → q < j → j ≤ p → get j ≡ false)
    → last_one get p ≡ q
unfolding last_one
last_one_eq get zero q le here none_behind = omega arith
last_one_eq get (suc p) q le here none_behind = elim (Bool-cases (q == suc p)) [
  | inl same ↦
      let e : q ≡ suc p = ground (arith, same) in rw (sym (ap get e) ∙ here) (omega (arith, e))
  | inr other ↦
      let before : q ≤ p = ground (arith, other, le) in
      rw (none_behind (suc p) (omega arith) (omega arith))
        (last_one_eq get p q before here (λ j less inside. none_behind j less (omega arith)))
]

-- From where the enumerator is.
pub from_here :
    (u : Ones) (b : Flags) (from q : ℕ)
    → Reads u b from
    → NextOne b.get b.size from q
    → NextOne b.get b.size u.from q
from_here u b from q reads one = record {
  reach = omega (arith, reads.reached, one.reach);
  inside = one.inside;
  here = one.here;
  none_before = λ j le less. elim (Bool-cases (ltb j from)) [
    | inl before ↦ reads.none_between j le (ltb→lt _ _ before)
    | inr behind ↦ one.none_before j (ground (arith, behind)) less
  ];
}

pub next-Reads :
    (u : Ones) (b : Flags) (from q : ℕ)
    → Reads u b from
    → NextOne b.get b.size from q
    → ((next u).1 ≡ q) × ((next u).0.position ≡ q) × Reads (next u).0 b (suc q)
unfolding next
next-Reads u b from q reads one =
    let found : next_one u.flags.size u.flags.get u.from ≡ q =
      ap (λ (f : Flags). next_one f.size f.get u.from) reads.flags_eq
      ∙ next_one_eq b.size b.get b.size u.from q (from_here u b from q reads one)
          (omega (arith, one.inside)) in
    (
      found,
      found,
      record {
        flags_eq = reads.flags_eq;
        reached = omega (arith, found);
        none_between = λ j le less. absurd (omega (arith, found));
      },
    )

pub skip-Reads :
    (u : Ones) (b : Flags) (from k q : ℕ)
    → Reads u b from
    → KthOne b.get b.size from k q
    → Reads (skip k u) b q
unfolding skip
skip-Reads u b from zero q reads one = record {
  flags_eq = reads.flags_eq;
  reached = omega (arith, reads.reached, one.reach);
  none_between = (from_here u b from q reads one).none_before;
}
skip-Reads u b from (suc k) q reads (q', one, more) =
    skip-Reads (next u).0 b (suc q') k q (next-Reads u b from q' reads one).2 more

pub zero_extend_old : (k j : ℕ) (b : Flags) → j < b.size → (zero_extend k b).get j ≡ b.get j
unfolding zero_extend
zero_extend_old k j b less = rw (lt→ltb j b.size less) refl

pub zero_extend_new : (k j : ℕ) (b : Flags) → b.size ≤ j → (zero_extend k b).get j ≡ false
unfolding zero_extend
zero_extend_new k j b le = let behind : ltb j b.size ≡ false = ground (arith, le) in rw behind refl

pub size-append_bits : (x len : ℕ) (b : Flags) → (append_bits x len b).size ≡ b.size + len
unfolding append_bits
size-append_bits x len b = refl

pub append_bits_old : (x len j : ℕ) (b : Flags) → j < b.size → (append_bits x len b).get j ≡ b.get j
unfolding append_bits
append_bits_old x len j b less = rw (lt→ltb j b.size less) refl

pub append_bits_new : (x len j : ℕ) (b : Flags) → (append_bits x len b).get (b.size + j) ≡ bit x j
unfolding append_bits
append_bits_new x len j b =
    let behind : ltb (b.size + j) b.size ≡ false = ground arith in
    let place : b.size + j - b.size ≡ j = omega arith in rw behind (ap (bit x) place)

pub set_here : (p : ℕ) (b : Flags) → (set p b).get p ≡ true
unfolding set
set_here p b = let same : (p == p) ≡ true = ground arith in rw same refl

pub set_other : (p j : ℕ) (b : Flags) → (j < p) ⊎ (p < j) → (set p b).get j ≡ b.get j
unfolding set
set_other p j b away =
    let other : (j == p) ≡ false = elim away [
      | inl less ↦ ground (arith, less)
      | inr more ↦ ground (arith, more)
    ] in
    rw other refl

pub set_bits_here :
    (p x len j : ℕ) (b : Flags) → j < len → (set_bits p x len b).get (p + j) ≡ bit x j
unfolding set_bits
set_bits_here p x len j b less =
    let behind : ltb (p + j) p ≡ false = ground arith in
    let inside : ltb (p + j) (p + len) ≡ true = ground (arith, less) in
    let place : p + j - p ≡ j = omega arith in rw (behind, inside) (ap (bit x) place)

pub set_bits_other :
    (p x len j : ℕ) (b : Flags) → (j < p) ⊎ (p + len ≤ j) → (set_bits p x len b).get j ≡ b.get j
unfolding set_bits
set_bits_other p x len j b (inl before) = rw (lt→ltb j p before) refl
set_bits_other p x len j b (inr behind) =
    let past : ltb j (p + len) ≡ false = ground (arith, behind) in
    elim (Bool-cases (ltb j p)) [ inl before ↦ rw before refl | inr after ↦ rw (after, past) refl ]

pub size-zero_extend : (k : ℕ) (b : Flags) → (zero_extend k b).size ≡ b.size + k
unfolding zero_extend
size-zero_extend k b = refl

pub size-set : (p : ℕ) (b : Flags) → (set p b).size ≡ b.size
unfolding set
size-set p b = refl

pub size-set_bits : (p x len : ℕ) (b : Flags) → (set_bits p x len b).size ≡ b.size
unfolding set_bits
size-set_bits p x len b = refl

abbrev pub sample_bit_array : BitArray
sample_bit_array = record {
  Bits = Flags;
  Unary = Ones;
  size = λ b. b.size;
  get = λ b. b.get;
  zero_extend = zero_extend;
  append_bits = append_bits;
  set = set;
  set_bits = set_bits;
  get_word56 = λ b p. word 56 (λ j. b.get (p + j));
  predecessor1 = λ b p. last_one b.get p;
  unary = record { flags = record { size = 0; get = λ j. false }; from = 0; position = 0 };
  unary_enumerator = λ b p. record { flags = b; from = p; position = p };
  next = next;
  skip = skip;
  unary_position = λ u. u.position;
  Reads = Reads;
  size-zero_extend = size-zero_extend;
  zero_extend_old = λ k j b less. zero_extend_old k j b less;
  zero_extend_new = λ k j b le less. zero_extend_new k j b le;
  size-append_bits = size-append_bits;
  append_bits_old = append_bits_old;
  append_bits_new = λ x len j b short fits less. append_bits_new x len j b;
  size-set = λ p b less. size-set p b;
  set_here = λ p b less. set_here p b;
  set_other = λ p j b less away. set_other p j b away;
  size-set_bits = λ p x len b room. size-set_bits p x len b;
  set_bits_here = λ p x len j b room short fits less. set_bits_here p x len j b less;
  set_bits_other = λ p x len j b room away. set_bits_other p x len j b away;
  get_word56_eq = λ p x len b room short small bits_eq.
      bit_and_mask len (word 56 (λ j. b.get (p + j)))
      ∙ word-mod 56 len x (λ j. b.get (p + j)) short small bits_eq;
  predecessor1_eq = λ p q b le inside here none_behind. last_one_eq b.get p q le here none_behind;
  unary_enumerator-Reads = λ b p le. record {
    flags_eq = refl;
    reached = omega arith;
    none_between = λ j le less. absurd (omega arith);
  };
  next-Reads = next-Reads;
  skip-Reads = skip-Reads;
}
