-- ===== src/BlockPostingList/Freqs.antt =====
-- `freq` and `move` of the enumerator.
use native.Mathlib.Nat.{div-add-mod', mod-lt, mul-le-mul_right}
use ds2i.Base.{
  ℕ, zero, suc, ◌+◌, ◌*◌, ◌/◌, ◌%◌, ◌^◌, ◌≤◌, ◌<◌, ◌≡◌, inl, inr, ap, sym, subst, ◌∙◌, refl, true,
  Bool-cases, some, ◌++◌, length, length-append, length-take, length-drop, length-tabulate, drop,
  take, get_elem?, get_elem?-append, get_elem?-tabulate, tabulate, arith, ltb, ltb→lt, ◌==◌, ◌>>=◌,
}
use ds2i.Codec.{Codec}
use ds2i.BlockPostingList.{DocumentEnumerator, decode_freqs_block, freq, position, walk, move}
use ds2i.BlockPostingList.Encoded.{less_one, Postings, size, Blocks, block_end}
use ds2i.BlockPostingList.Enumerate.{At, decode_docs_block-At}
use ds2i.BlockPostingList.Moves.{advance-At}

module _ (codec : Codec) (n universe : ℕ) (docs freqs : ℕ → ℕ)
    (valid : Postings n universe docs freqs) where
  open codec use {block_size, block_size_pos}

  -- What is read where the frequencies of the block are in their buffer.
  read_freq :
      (p : ℕ) (e : DocumentEnumerator)
      → At codec n universe docs freqs p e
      → ((j : ℕ)
          → j < e.cur_block_size
          → get_elem? e.freqs_buf j ≡ some (less_one freqs (e.cur_block * block_size + j)))
      → ◌>>=◌ {B = DocumentEnumerator × ℕ}
          (get_elem? e.freqs_buf e.pos_in_block)
          (λ f. some (e, (f + 1) % 2 ^ 32))
        ≡ some (e, freqs p)
  read_freq p e a stored =
      let (pos, fits) = block_end codec a.opened.encoded.blocks_eq e.cur_block a.block_inside in
      let inside : p < n = omega (arith, a.p_eq, a.size_eq, a.pos_inside, fits) in
      let value : (less_one freqs p + 1) % 2 ^ 32 ≡ freqs p =
        omega (arith, valid.freqs_pos p inside, valid.freqs_small p 1 (omega (arith, inside))) in
      rw (stored e.pos_in_block a.pos_inside, sym a.p_eq, value) refl

  -- `freq` gives the frequency of the posting that the enumerator stands at, and leaves it there,
  -- with the frequencies of the block decoded, whether or not they were before.
  pub freq-At :
      (p : ℕ) (e : DocumentEnumerator)
      → At codec n universe docs freqs p e
      → (e' : DocumentEnumerator) × (freq codec e ≡ some (e', freqs p))
        × At codec n universe docs freqs p e'
        × (e'.freqs_decoded ≡ true)
  unfolding freq decode_freqs_block
  freq-At p e a = elim a.freqs_at [
    | inr (decoded, stored) ↦ (e, simp decoded (read_freq p e a stored), a, decoded)
    | inl (undecoded, behind, reads) ↦
        let k = e.cur_block_size in
        let values = tabulate (less_one freqs) (e.cur_block * block_size) k in
        let rest = drop k e.freqs_buf in
        let (pos, fits) = block_end codec a.opened.encoded.blocks_eq e.cur_block a.block_inside in
        let taken : length (take k e.freqs_buf) ≡ k =
          omega (arith, length-take k e.freqs_buf, a.opened.freqs_room, a.size_eq) in
        let l : length values ≡ k = length-tabulate (less_one freqs) (e.cur_block * block_size) k in
        let stored = λ (j : ℕ). λ (inside : j < k).
          get_elem?-append values rest j (omega (arith, l, inside))
          ∙ get_elem?-tabulate (less_one freqs) (e.cur_block * block_size) k j inside in
        let e' : DocumentEnumerator = record e {
          freqs_buf = values ++ rest;
          freqs_decoded = true;
        } in
        let a' : At codec n universe docs freqs p e' = record {
          opened = record {
            n_eq = a.opened.n_eq;
            universe_eq = a.opened.universe_eq;
            encoded = a.opened.encoded;
            docs_room = a.opened.docs_room;
            freqs_room = omega (
              arith,
              length-append values rest,
              l,
              length-drop k e.freqs_buf,
              a.opened.freqs_room,
              a.size_eq,
            );
          };
          block_inside = a.block_inside;
          size_eq = a.size_eq;
          pos_inside = a.pos_inside;
          p_eq = a.p_eq;
          max_eq = a.max_eq;
          docid_eq = a.docid_eq;
          gaps_eq = a.gaps_eq;
          freqs_at = inr (refl, stored);
        } in
        (e', rw (undecoded, reads (take k e.freqs_buf) taken) (read_freq p e' a' stored), a', refl)
  ]

  walk-At :
      (fuel p pos : ℕ) (e : DocumentEnumerator)
      → At codec n universe docs freqs p e
      → p ≤ pos
      → pos < e.cur_block * block_size + e.cur_block_size
      → pos < p + fuel
      → (e' : DocumentEnumerator) × (walk codec fuel pos e ≡ some e')
        × At codec n universe docs freqs pos e'
  unfolding walk position
  walk-At zero p pos e a le inside room = absurd (omega (arith, le, room))
  walk-At (suc fuel) p pos e a le inside room =
      elim (Bool-cases (ltb (e.cur_block * block_size + e.pos_in_block) pos)) [
        | inr there ↦
            let at : p ≡ pos = ground (arith, there, a.p_eq, le) in
            (e, rw there refl, subst (λ (q : ℕ). At codec n universe docs freqs q e) at a)
        | inl before ↦
            let less : p < pos = ground (arith, before, a.p_eq) in
            let (e', ran, a', b_eq, pos_eq, size_eq) =
              advance-At codec n universe docs freqs valid p e a
                (omega (arith, less, inside, a.p_eq)) in
            let still : pos < e'.cur_block * block_size + e'.cur_block_size =
              rw (b_eq, size_eq) inside in
            let (e'', rest_ran, a'') =
              walk-At fuel (suc p) pos e' a' (omega (arith, less)) still (omega (arith, room)) in
            (e'', rw (before, ran) rest_ran, a'')
      ]

  -- `move` to a position of the list, not before the one where the enumerator stands, goes there:
  -- the loop ends, and the document shown is that of the position.
  pub move-At :
      (p pos : ℕ) (e : DocumentEnumerator)
      → At codec n universe docs freqs p e
      → p ≤ pos
      → pos < n
      → (e' : DocumentEnumerator) × (move codec pos e ≡ some e')
        × At codec n universe docs freqs pos e'
  unfolding move
  move-At p pos e a le inside =
      let b = pos / block_size in
      let split : pos ≡ b * block_size + pos % block_size = sym (div-add-mod' pos block_size) in
      let low : pos % block_size < block_size = mod-lt pos block_size_pos in
      elim (Bool-cases (b == e.cur_block)) [
        | inl here ↦
            let same : e.cur_block ≡ b = ground (arith, here) in
            rw here (
              walk-At block_size p pos e a le
                (in_block b e.cur_block e.cur_block_size pos same a.size_eq split low inside)
                (omega (arith, split, low, ap (λ (t : ℕ). t * block_size) same, a.p_eq)))
        | inr other ↦
            let (e', ran, a', b_eq, _) =
              decode_docs_block-At codec n universe docs freqs valid b e a.opened
                (block_of b pos e split inside a.opened.encoded.blocks_eq) in
            let (e'', rest_ran, a'') =
              walk-At block_size (b * block_size) pos e' a' (omega (arith, split))
                (in_block b e'.cur_block e'.cur_block_size pos b_eq a'.size_eq split low inside)
                (omega (arith, split, low)) in
            (e'', rw (other, ran) rest_ran, a'')
      ]
    where
      in_block :
          (b c k pos : ℕ)
          → c ≡ b
          → k ≡ size codec n c
          → pos ≡ b * block_size + pos % block_size
          → pos % block_size < block_size
          → pos < n
          → pos < c * block_size + k
      in_block b c k pos c_eq k_eq split low inside =
          rw (k_eq, c_eq) (omega (arith, split, low, inside))

      block_of :
          (b pos : ℕ) (e : DocumentEnumerator)
          → pos ≡ b * block_size + pos % block_size
          → pos < n
          → Blocks codec n e.blocks
          → b < e.blocks
      block_of b pos e split inside geometry = elim (Bool-cases (ltb b e.blocks)) [
        | inl less ↦ ltb→lt _ _ less
        | inr more ↦
            let up : e.blocks * block_size ≤ b * block_size =
              mul-le-mul_right block_size (ground (arith, more)) in
            absurd (omega (arith, up, split, inside, geometry.reach))
      ]
