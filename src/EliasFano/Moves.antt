-- ===== src/EliasFano/Moves.antt =====
-- The operations of the enumerator on a sequence that is written.
use ds2i.Base.{
  ℕ, zero, suc, ◌+◌, ◌-◌, ◌/◌, ◌^◌, ◌≤◌, ◌<◌, ◌≡◌, inl, inr, ap, sym, subst, ◌∙◌, refl, Bool-cases,
  ltb, ltb→lt, leb, ◌==◌, ◌&&◌, if◌then◌else◌, false, arith,
}
use ds2i.Succinct.{Broadword, Util}
use ds2i.BitArray.{BitArray, next_times}
use ds2i.BitArray.Reached.{sampled-Reaches, next_times-Reaches}
use ds2i.BitArray.Ones.{skip-Before, predecessor1-Region}
use ds2i.Sequence.{value_before}
use ds2i.EliasFano.{
  Offsets, Enumerator, assemble, shown, at_end, read_next, slow_move, pointer, pointer1, move, next,
  prev_value, linear_scan_threshold,
}
use ds2i.EliasFano.Layout.{places}
use ds2i.EliasFano.Reading.{
  Encoded, Stands, place, region, enumerator_at, assemble_eq, Reaches, room, read_next-Stands,
}

module _ (broadword : Broadword) (util : Util) (bit_array : BitArray) {of : Offsets} {v : ℕ → ℕ}
    {universe n : ℕ} {bv : bit_array.Bits}
    (encoded : Encoded broadword util bit_array of v universe n bv) where
  open bit_array use {Bits, Unary, unary_position, unary_enumerator}

  abbrev E : Type 0
  E = Enumerator broadword util bit_array

  abbrev at : ℕ → ℕ → Unary → E
  at p x u = enumerator_at broadword util bit_array encoded p x u

  abbrev Stand : ℕ → E → Type 0
  Stand p e = Stands broadword util bit_array encoded p e

  -- An operation stops at a position and shows the value there.
  abbrev Arrives : ℕ → E × (ℕ × ℕ) → Type 0
  Arrives p r = Stand p r.0 × (p < n → r.1 ≡ (p, v p))

  shown-Arrives : (p : ℕ) (e : E) → Stand p e → Arrives p (shown broadword util bit_array e)
  unfolding shown
  shown-Arrives p e s = (
    s,
    λ less. ap (λ (e : E). (e.position, e.value)) s.is ∙ ap (λ (t : ℕ). (p, t)) (s.value_eq less),
  )

  at_end-Stands : (p x : ℕ) (u : Unary) → Stand n (at_end broadword util bit_array (at p x u))
  unfolding at_end
  at_end-Stands p x u = record {
    value = of.universe;
    high_enumerator = u;
    is = ap (λ (t : ℕ). at t of.universe u) encoded.layout.n_eq;
    value_eq = λ less. absurd (omega arith);
    reaches = λ less. absurd (omega arith);
    stands = λ less. absurd (omega arith);
  }

  -- `read_next` behind a choice of unary enumerators.
  abbrev read_at : ℕ → ℕ → Unary → E
  read_at p x u = read_next broadword util bit_array (at p x u)

  slow_move-Arrives :
      (p p' x : ℕ) (u : Unary)
      → (p < n → Reaches broadword util bit_array encoded (suc p) u)
      → p' ≤ n
      → Arrives p' (slow_move broadword util bit_array p' (at p x u))
  unfolding slow_move pointer pointer1
  slow_move-Arrives p p' x u reaches le =
      let q = 2 ^ of.log_sampling1 in
      elim (Bool-cases (p' == of.n)) [
        | inl last ↦
            let e : n ≡ p' =
              let e' : p' ≡ of.n = ground (arith, last) in sym (e' ∙ encoded.layout.n_eq) in
            rw last (
              subst
                (λ (t : ℕ).
                  Arrives t
                    (shown broadword util bit_array (at_end broadword util bit_array (at p x u))))
                e
                (shown-Arrives n (at_end broadword util bit_array (at p x u))
                  (at_end-Stands p x u)))
        | inr inner ↦
            let less : p' < n = ground (arith, inner, encoded.layout.n_eq, le) in
            elim (Bool-cases (ltb p p' && ((p' - p) / q == 0))) [
              | inl near ↦
                  let ahead : p < p' = ltb→lt p p' (ground (arith, near)) in
                  let k = p' - p - 1 in
                  let e : suc p + k ≡ p' = omega (arith, ahead) in
                  let u' = bit_array.skip k u in
                  let reached =
                    subst (λ (t : ℕ). Reaches broadword util bit_array encoded t u') e
                      (skip-Before bit_array (region broadword util bit_array encoded) k (suc p) u
                        (reaches (omega (arith, ahead, less))) (omega (arith, e, less))) in
                  rw (inner, near)
                    (shown-Arrives p' (read_at p' x u')
                      (read_next-Stands broadword util bit_array encoded p' x u' less reached))
              | inr far ↦
                  rw (inner, far)
                    (shown-Arrives p' (read_at p' x _) (
                      read_next-Stands broadword util bit_array encoded p' x _ less (
                        sampled-Reaches bit_array (places encoded.layout)
                          (room broadword util bit_array encoded) encoded.written.ones
                          encoded.written.pointers p' less)))
            ]
      ]

  -- The steps of `move` to a position not far behind.
  abbrev near_end : ℕ → ℕ → ℕ → Unary → E
  near_end p p' x u =
      if p' == of.n
      then at_end broadword util bit_array (at p x u)
      else at p'
          (assemble broadword util bit_array (at p x u)
            (unary_position (next_times bit_array (p' - p) u)) p')
          (next_times bit_array (p' - p) u)

  near_end-Stands :
      (p p' x : ℕ) (u : Unary)
      → p < p'
      → p' ≤ n
      → (p < n → Reaches broadword util bit_array encoded (suc p) u)
      → Stand p' (near_end p p' x u)
  near_end-Stands p p' x u ahead le reaches = elim (Bool-cases (p' == of.n)) [
    | inl last ↦
        let e : n ≡ p' =
          let e' : p' ≡ of.n = ground (arith, last) in sym (e' ∙ encoded.layout.n_eq) in
        rw last (
          subst (λ (t : ℕ). Stand t (at_end broadword util bit_array (at p x u))) e
            (at_end-Stands p x u))
    | inr inner ↦
        let less : p' < n = ground (arith, inner, encoded.layout.n_eq, le) in
        let k = p' - p - 1 in
        let steps : suc k ≡ p' - p = omega (arith, ahead) in
        let e : p + suc k ≡ p' = omega (arith, ahead) in
        let u' = next_times bit_array (p' - p) u in
        let there =
          next_times-Reaches bit_array (places encoded.layout)
            (room broadword util bit_array encoded) encoded.written.ones k p u
            (reaches (omega (arith, ahead, less))) (omega (arith, e, less)) in
        let (reached, stands) =
          subst
            (λ (t : ℕ).
              Reaches broadword util bit_array encoded (suc p') (next_times bit_array t u)
              × (unary_position (next_times bit_array t u)
                  ≡ place broadword util bit_array encoded p'))
            steps
            (subst
              (λ (t : ℕ).
                Reaches broadword util bit_array encoded (suc t) (next_times bit_array (suc k) u)
                × (unary_position (next_times bit_array (suc k) u)
                    ≡ place broadword util bit_array encoded t))
              e there) in
        rw inner (record {
          value = assemble broadword util bit_array (at p x u) (unary_position u') p';
          high_enumerator = u';
          is = refl;
          value_eq = λ less.
              ap (λ (t : ℕ). assemble broadword util bit_array (at p x u) t p') stands
              ∙ assemble_eq broadword util bit_array encoded p x p' u less;
          reaches = λ less. reached;
          stands = λ less. stands;
        })
  ]

  pub move-Stands :
      (p p' : ℕ) (e : E) → Stand p e → p' ≤ n → Arrives p' (move broadword util bit_array p' e)
  unfolding move
  move-Stands p p' e s le =
      let x = s.value in
      let u = s.high_enumerator in
      subst (λ (e : E). Arrives p' (move broadword util bit_array p' e)) (sym s.is)
        (elim (Bool-cases (p' == p)) [
          | inl stays ↦
              let same : p ≡ p' = ground (arith, stays) in
              rw stays (
                subst (λ (t : ℕ). Arrives t (shown broadword util bit_array (at p x u))) same
                  (shown-Arrives p (at p x u) (here p s)))
          | inr moves ↦ elim (Bool-cases (ltb p p' && leb (p' - p) linear_scan_threshold)) [
            | inl near ↦
                rw (moves, near)
                  (shown-Arrives p' (near_end p p' x u)
                    (near_end-Stands p p' x u (ltb→lt p p' (ground (arith, near))) le s.reaches))
            | inr far ↦ rw (moves, far) (slow_move-Arrives p p' x u s.reaches le)
          ]
        ])
    where
      here : (p : ℕ) {e : E} (s : Stand p e) → Stand p (at p s.value s.high_enumerator)
      here p s = record {
        value = s.value;
        high_enumerator = s.high_enumerator;
        is = refl;
        value_eq = s.value_eq;
        reaches = s.reaches;
        stands = s.stands;
      }

  pub next-Stands :
      (p : ℕ) (e : E) → Stand p e → p < n → Arrives (suc p) (next broadword util bit_array e)
  unfolding next
  next-Stands p e s less =
      let x = s.value in
      let u = s.high_enumerator in
      let behind : suc p ≡ p + 1 = omega arith in
      subst (λ (e : E). Arrives (suc p) (next broadword util bit_array e)) (sym s.is)
        (subst (λ (t : ℕ). Arrives t (next broadword util bit_array (at p x u))) (sym behind)
          (elim (Bool-cases (ltb (p + 1) of.n)) [
            | inl inner ↦
                let more : p + 1 < n = omega (arith, ltb→lt _ _ inner, encoded.layout.n_eq) in
                rw inner (
                  shown-Arrives (p + 1) (read_at (p + 1) x u) (
                    read_next-Stands broadword util bit_array encoded (p + 1) x u more (
                      subst (λ (t : ℕ). Reaches broadword util bit_array encoded t u) behind
                        (s.reaches less))))
            | inr last ↦
                let e : n ≡ p + 1 = ground (arith, last, encoded.layout.n_eq, less) in
                rw last (shown-Arrives (p + 1) (at (p + 1) of.universe u) (ended e u))
          ]))
    where
      ended : {p : ℕ} → n ≡ p → (u : Unary) → Stand p (at p of.universe u)
      ended {p} e u = record {
        value = of.universe;
        high_enumerator = u;
        is = refl;
        value_eq = λ less. absurd (omega (arith, e, less));
        reaches = λ less. absurd (omega (arith, e, less));
        stands = λ less. absurd (omega (arith, e, less));
      }

  -- The one before the enumerator is that of the value before.
  prev_one :
      (p : ℕ) (u : Unary)
      → suc p ≤ n
      → (suc p < n → unary_position u ≡ place broadword util bit_array encoded (suc p))
      → (if ltb (suc p) of.n
          then bit_array.predecessor1 bv (unary_position u - 1)
          else bit_array.predecessor1 bv (of.lower_bits_offset - 1))
        ≡ place broadword util bit_array encoded p
  prev_one p u le stands =
      let steps = encoded.layout.high_step p in
      let room = encoded.layout.high_room p le in
      let limit = encoded.layout.lower_bits_start in
      let before =
        λ (x : ℕ). predecessor1-Region bit_array (region broadword util bit_array encoded) p x le in
      elim (Bool-cases (ltb (suc p) of.n)) [
        | inl inner ↦
            let more : suc p < n = omega (arith, ltb→lt _ _ inner, encoded.layout.n_eq) in
            let step = steps more in
            let room' = encoded.layout.high_room (suc p) more in
            rw (inner, stands more)
              (before (place broadword util bit_array encoded (suc p) - 1) (omega (arith, step))
                (omega (arith, room', limit, more)) (λ less. omega arith))
        | inr last ↦
            let e : n ≡ suc p = ground (arith, last, encoded.layout.n_eq, le) in
            rw last (
              before (of.lower_bits_offset - 1) (omega (arith, room, limit, le))
                (omega (arith, room, limit)) (λ less. absurd (omega (arith, e, less))))
      ]

  pub prev_value_eq :
      (p : ℕ) (e : E) → Stand p e → p ≤ n → prev_value broadword util bit_array e ≡ value_before v p
  unfolding prev_value
  prev_value_eq zero e s le = ap (prev_value broadword util bit_array) s.is
  prev_value_eq (suc p) e s le =
      let some_before : (suc p == 0) ≡ false = ground arith in
      let back : suc p - 1 ≡ p = omega arith in
      ap (prev_value broadword util bit_array) s.is
      ∙ rw some_before (
          rw (back, prev_one p s.high_enumerator le s.stands)
            (assemble_eq broadword util bit_array encoded (suc p) s.value p s.high_enumerator le))
