-- ===== src/BitArray/Reached.antt =====
-- The unary enumerator over ones with pointers to some of them: opened at a pointer, and moved on.
use native.Mathlib.Nat.{div-add-mod'}
use ds2i.Base.{
  ℕ, zero, suc, ◌+◌, ◌-◌, ◌*◌, ◌/◌, ◌^◌, ◌≤◌, ◌<◌, ◌≡◌, inl, inr, ap, sym, subst, ◌∙◌, refl,
  Bool-cases, ◌==◌, if◌then◌else◌, bit_and, true, false, arith,
}
use ds2i.BitArray.{BitArray, next_times}
use ds2i.BitArray.Ones.{
  marked, marked-shift, Region, Before, next-Before, skip-Before, open-Before, open-Before_first,
}
use ds2i.BitArray.Sampled.{Places, Ones, Pointers, pointer_place, pointer_inside}

module _ (bit_array : BitArray) {n : ℕ} (places : Places n) where
  open bit_array use {Bits, Unary, size, get, get_word56, unary_position, unary_enumerator, skip}

  abbrev pub place : ℕ → ℕ
  place p = places.start + places.h p

  module _ {bv : bit_array.Bits} (room : places.start + places.len ≤ size bv)
      (ones : Ones bit_array places n bv) where
    pub region : Region bit_array place n places.start (places.start + places.len) bv
    region = record {
      rising = record { step = λ p less. omega (arith, places.step p less) };
      low = λ p less. omega arith;
      high = λ p less. omega (arith, places.room p less);
      inside = room;
      bits_eq = λ x low high.
          let y = x - places.start in
          let e : places.start + y ≡ x = omega (arith, low) in
          subst (λ (t : ℕ). get bv t ≡ marked place n t) e
            (ones y (omega (arith, low, high)) ∙ sym (marked-shift places.h places.start n y));
    }

    abbrev pub Reaches : ℕ → Unary → Type 0
    Reaches p u = Before bit_array region p u

    -- Some steps ahead.
    pub next_times-Reaches :
        (k p : ℕ) (u : Unary)
        → Reaches (suc p) u
        → p + suc k < n
        → let u' = next_times bit_array (suc k) u in
          Reaches (suc (p + suc k)) u' × (unary_position u' ≡ place (p + suc k))
    unfolding next_times
    next_times-Reaches zero p u at less =
        let (shown, stands, behind) =
          next-Before bit_array region (suc p) u at (omega (arith, less)) in
        let e : suc p ≡ p + 1 = omega arith in
        (subst (λ (t : ℕ). Reaches (suc t) (bit_array.next u).0) e behind, stands ∙ ap place e)
    next_times-Reaches (suc k) p u at less =
        let (shown, stands, behind) =
          next-Before bit_array region (suc p) u at (omega (arith, less)) in
        let rest = next_times-Reaches k (suc p) (bit_array.next u).0 behind (omega (arith, less)) in
        let e : suc p + suc k ≡ p + suc (suc k) = omega arith in
        subst
          (λ (t : ℕ).
            let u' = next_times bit_array (suc k) (bit_array.next u).0 in
            Reaches (suc t) u' × (unary_position u' ≡ place t))
          e rest

    module _ (pointers : Pointers bit_array places n bv) where
      -- A pointer as it is read, with the zeroth not stored.
      abbrev pub read_pointer : ℕ → ℕ
      read_pointer k =
          if k == 0
          then 0
          else bit_and (get_word56 bv (pointer_place bit_array places k)) (2 ^ places.size - 1)

      read_pointer-first : (k : ℕ) → (k == 0) ≡ true → read_pointer k ≡ 0
      read_pointer-first k first = rw first refl

      read_pointer-sampled :
          (k : ℕ)
          → (k == 0) ≡ false
          → k * 2 ^ places.log < n
          → read_pointer k ≡ places.h (k * 2 ^ places.log)
      read_pointer-sampled k other inside =
          let pos : 0 < k = ground (arith, other) in
          let before = pointer_inside bit_array places n k (omega arith) pos inside in
          rw other (
            bit_array.get_word56_eq (pointer_place bit_array places k)
              (places.h (k * 2 ^ places.log)) places.size bv (omega (arith, before, room))
              places.short (places.fits (k * 2 ^ places.log) inside) (pointers k pos inside))

      -- The enumerator opened at the last pointer, or in front of all, and moved on.
      pub sampled-Reaches :
          (q : ℕ)
          → q < n
          → let k = q / 2 ^ places.log in
            Reaches q
              (skip (q - k * 2 ^ places.log) (unary_enumerator bv (places.start + read_pointer k)))
      sampled-Reaches q less =
          let s = 2 ^ places.log in
          let k = q / s in
          let split = div-add-mod' q s in
          let back : k * s + (q - k * s) ≡ q = omega (arith, split) in
          let skipped = λ (steps from : ℕ). skip steps (unary_enumerator bv from) in
          elim (Bool-cases (k == 0)) [
            | inl first ↦
                let none : k ≡ 0 = ground (arith, first) in
                let all : q ≡ q - k * s = omega (arith, ap (λ (t : ℕ). t * s) none) in
                let from : places.start ≡ places.start + read_pointer k =
                  omega (arith, read_pointer-first k first) in
                let ahead : 0 + q ≡ q = omega arith in
                let opened = open-Before_first bit_array region (omega arith) in
                subst (λ (t : ℕ). Reaches q (skipped t (places.start + read_pointer k))) all
                  (subst (λ (t : ℕ). Reaches q (skipped q t)) from
                    (subst (λ (t : ℕ). Reaches t (skipped q places.start)) ahead
                      (skip-Before bit_array region q 0 (unary_enumerator bv places.start) opened
                        (omega (arith, less)))))
            | inr other ↦
                let inside : k * s < n = omega (arith, split, less) in
                let read : place (k * s) ≡ places.start + read_pointer k =
                  ap (λ (t : ℕ). places.start + t) (sym (read_pointer-sampled k other inside)) in
                let opened = open-Before bit_array region (k * s) inside in
                subst (λ (t : ℕ). Reaches q (skipped (q - k * s) t)) read
                  (subst (λ (t : ℕ). Reaches t (skipped (q - k * s) (place (k * s)))) back
                    (skip-Before bit_array region (q - k * s) (k * s)
                      (unary_enumerator bv (place (k * s))) opened (omega (arith, back, less))))
          ]
