-- ===== src/Varbyte/RoundTrip.antt =====
-- What `TightVariableByte::encode` writes, and that `decode` reads it back.
use ds2i.Base.{
  ℕ, zero, suc, ◌+◌, ◌*◌, ◌/◌, ◌%◌, ◌^◌, ◌≤◌, ◌<◌, bit_or, ◌≡◌, refl, ap, some, List, [], ◌∷◌, ◌++◌,
  append_assoc, length, length-append, arith, ltb, ltb→lt, Bool-cases, inl, inr, append-nil, ◌∙◌,
  if◌then◌else◌, All, All-append, IsU8, IsU32,
}
use ds2i.Base.Bits.{bit_and_mask, two-pow-add}
use ds2i.Base.Tables.{low_bits, top_bit, set_top_bit}
use native.Mathlib.Nat.{div-add-mod}
use ds2i.Varbyte.{
  extract7bits, extract7bitsmaskless, encode_value, encode, encode_single, decode_value, decode,
}

-- One round of the inner loop: on a byte below 128 the loop goes on, and any other ends it.
decode_value_more :
    (c v shift : ℕ) (rest : List ℕ)
    → c < 128
    → shift < 32
    → v + c * 2 ^ shift < 2 ^ 32
    → decode_value (c ∷ rest) v shift ≡ decode_value rest (v + c * 2 ^ shift) (shift + 7)
unfolding decode_value
decode_value_more c v shift rest hc hs fits = ground (arith, low_bits c, top_bit c)

decode_value_last :
    (c v shift : ℕ) (rest : List ℕ)
    → c < 128
    → shift < 32
    → v + c * 2 ^ shift < 2 ^ 32
    → decode_value ((c + 128) ∷ rest) v shift ≡ some (v + c * 2 ^ shift, rest)
unfolding decode_value
decode_value_last c v shift rest hc hs fits = ground (arith, low_bits (c + 128), top_bit (c + 128))

-- The format in plain arithmetic: the groups of `val`, which has at most `k + 1` of them.
unfoldable pub groups : ℕ → ℕ → List ℕ
groups zero val = (val + 128) ∷ []
groups (suc k) val =
    let rest = groups k (val / 128) in if ltb val 128 then (val + 128) ∷ [] else (val % 128) ∷ rest

extract_group : (i val : ℕ) → extract7bits i val ≡ val / 2 ^ (7 * i) % 128
unfolding extract7bits
extract_group i val = omega (arith, bit_and_mask 7 (val / 2 ^ (7 * i)))

set_last : (g : ℕ) → g < 128 → bit_or (g % 256) 128 % 256 ≡ g + 128
set_last g h = let e : g % 256 ≡ g = omega arith in rw e (omega (arith, set_top_bit g h))

last_group :
    (i val : ℕ)
    → val / 2 ^ (7 * i) < 128
    → bit_or (extract7bitsmaskless i val) (2 ^ 7) % 2 ^ 8 ≡ val / 2 ^ (7 * i) + 128
unfolding extract7bitsmaskless
last_group i val h = set_last (val / 2 ^ (7 * i)) h

encode_value-groups : (val : ℕ) → IsU32 val → encode_value val ≡ groups 4 val
unfolding groups encode_value
encode_value-groups val h = ground (
  arith,
  set_top_bit val,
  extract_group 0 val,
  extract_group 1 val,
  extract_group 2 val,
  extract_group 3 val,
  last_group 1 val,
  last_group 2 val,
  last_group 3 val,
  last_group 4 val,
)

shift_seven : (s : ℕ) → 2 ^ (s + 7) ≡ 128 * 2 ^ s
shift_seven s = omega (arith, two-pow-add s 7)

-- The lowest group of `val` and the others, both shifted by `s`.
split_group : (val s : ℕ) → val * 2 ^ s ≡ val % 128 * 2 ^ s + val / 128 * 2 ^ (s + 7)
split_group val s = omega (
  arith,
  ap (λ (t : ℕ). t * 2 ^ s) (div-add-mod val 128),
  ap (λ (t : ℕ). val / 128 * t) (shift_seven s),
)

-- `v` is what the loop has read, and `val` what is still to come.
decode_value-groups :
    (k val v shift : ℕ) (rest : List ℕ)
    → shift + 7 * k < 32
    → val < 128 ^ suc k
    → v + val * 2 ^ shift < 2 ^ 32
    → decode_value (groups k val ++ rest) v shift ≡ some (v + val * 2 ^ shift, rest)
unfolding groups
decode_value-groups zero val v shift rest hs hv fits =
    decode_value_last val v shift rest hv (omega arith) fits
decode_value-groups (suc k) val v shift rest hs hv fits = ground (
  arith,
  decode_value_last val v shift rest,
  split_group val shift,
  decode_value_more (val % 128) v shift (groups k (val / 128) ++ rest),
  decode_value-groups k (val / 128) (v + val % 128 * 2 ^ shift) (shift + 7) rest (omega arith)
      (omega arith),
)

decode_value-encode_value :
    (val : ℕ) (rest : List ℕ)
    → IsU32 val
    → decode_value (encode_value val ++ rest) 0 0 ≡ some (val, rest)
decode_value-encode_value val rest h =
    rw (encode_value-groups val h) (ground (arith, decode_value-groups 4 val 0 0 rest))

-- `decode` reads back the 32-bit values that `encode` wrote, and returns the pointer behind them,
-- whatever follows.
pub decode-encode :
    (vals rest : List ℕ)
    → All IsU32 vals
    → decode (encode vals ++ rest) (length vals) ≡ some (vals, rest)
unfolding encode decode
decode-encode [] rest h = refl
decode-encode (val ∷ vals) rest (hv, hvs) =
    rw
      (
        append_assoc (encode_value val) (encode vals) rest,
        decode_value-encode_value val (encode vals ++ rest) hv,
        decode-encode vals rest hvs,
      )
      refl

groups-IsU8 : (k val : ℕ) → val < 128 ^ suc k → All IsU8 (groups k val)
unfolding groups
groups-IsU8 zero val h = omega arith
groups-IsU8 (suc k) val h = ground (arith, groups-IsU8 k (val / 128) (omega arith))

length-groups : (k val : ℕ) → (1 ≤ length (groups k val)) × (length (groups k val) ≤ k + 1)
unfolding groups
length-groups zero val = omega arith
length-groups (suc k) val = ground (arith, length-groups k (val / 128))

-- `encode` writes bytes only, at least one and at most five for each 32-bit value.
pub encode_bounds :
    (vals : List ℕ)
    → All IsU32 vals
    → All IsU8 (encode vals)
      × (length vals ≤ length (encode vals))
      × (length (encode vals) ≤ 5 * length vals)
unfolding encode
encode_bounds [] h = omega arith
encode_bounds (val ∷ vals) (hv, hvs) =
    let (bytes, lo, hi) = encode_bounds vals hvs in
    rw (encode_value-groups val hv) (
      All-append IsU8 _ _ (groups-IsU8 4 val (omega arith)) bytes,
      omega (arith, length-append (groups 4 val) (encode vals), length-groups 4 val),
      omega (arith, length-append (groups 4 val) (encode vals), length-groups 4 val),
    )

-- All bytes but the last are below 128, and the last has the stop bit.
abbrev pub Stops : List ℕ → Type 0
Stops [] = ⊥
Stops (b ∷ []) = 128 ≤ b
Stops (b ∷ c ∷ bs) = (b < 128) × Stops (c ∷ bs)

Stops-cons : (b : ℕ) (bs : List ℕ) → b < 128 → Stops bs → Stops (b ∷ bs)
Stops-cons b [] h stops = elim stops [ ]
Stops-cons b (c ∷ bs) h stops = (h, stops)

groups-Stops : (k val : ℕ) → Stops (groups k val)
unfolding groups
groups-Stops zero val = omega arith
groups-Stops (suc k) val = elim (Bool-cases (ltb val 128)) [
  | inl few ↦ rw few (omega arith)
  | inr more ↦
      rw more
        (Stops-cons (val % 128) (groups k (val / 128)) (omega arith) (groups-Stops k (val / 128)))
]

groups_shortest :
    (k size val : ℕ)
    → val < 128 ^ suc k
    → (length (groups k val) ≤ suc size → val < 128 ^ suc size)
      × (val < 128 ^ suc size → length (groups k val) ≤ suc size)
unfolding groups
groups_shortest zero size val h = (λ short. less_power size val h, λ small. omega arith)
  where
    less_power : (size val : ℕ) → val < 128 ^ 1 → val < 128 ^ suc size
    less_power zero val h = h
    less_power (suc size) val h = omega (arith, less_power size val h)
groups_shortest (suc k) zero val h = elim (Bool-cases (ltb val 128)) [
  | inl few ↦ rw few (λ short. ground (arith, few), λ small. omega arith)
  | inr more ↦ rw more (
    λ short. absurd (omega (arith, short, length-groups k (val / 128))),
    λ small. absurd (ground (arith, more, small)),
  )
]
groups_shortest (suc k) (suc size) val h =
    let ih = groups_shortest k size (val / 128) (omega (arith, h)) in
    elim (Bool-cases (ltb val 128)) [
      | inl few ↦
          rw few (λ short. omega (arith, ltb→lt _ _ few, ih.0, one_more size), λ small. omega arith)
      | inr more ↦ rw more (
        λ short. omega (arith, ih.0 (omega (arith, short))),
        λ small. omega (arith, ih.1 (omega (arith, small))),
      )
    ]
  where
    one_more : (size : ℕ) → 128 ≤ 128 ^ suc size
    one_more zero = omega arith
    one_more (suc size) = omega (arith, one_more size)

-- The encoding of a 32-bit value takes no more than `size + 1` bytes just when the value is below
-- 128 ^ (size + 1), so that it takes one to five bytes and never more than the value needs. All of
-- its bytes but the last are below 128, and the last has the stop bit.
pub encode-shortest :
    (val size : ℕ)
    → IsU32 val
    → (length (encode (val ∷ [])) ≤ suc size → val < 128 ^ suc size)
      × (val < 128 ^ suc size → length (encode (val ∷ [])) ≤ suc size)
      × Stops (encode (val ∷ []))
unfolding encode
encode-shortest val size h =
    let e : encode_value val ++ [] ≡ groups 4 val =
      append-nil (encode_value val) ∙ encode_value-groups val h in
    let (short, small) = groups_shortest 4 size val (omega (arith, h)) in
    rw e (short, small, groups-Stops 4 val)

-- `encode_single` puts the encoding of one value behind the bytes.
pub encode_single_lem : (val : ℕ) (out : List ℕ) → encode_single val out ≡ out ++ encode (val ∷ [])
unfolding encode_single
encode_single_lem val out = refl
