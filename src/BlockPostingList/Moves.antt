-- ===== src/BlockPostingList/Moves.antt =====
-- `next` and `next_geq` of the enumerator.
use native.Mathlib.Nat.{suc-mul}
use ds2i.Base.{
  ℕ, zero, suc, ◌+◌, ◌-◌, ◌*◌, ◌%◌, ◌^◌, ◌≤◌, ◌<◌, ◌≡◌, ◌⊎◌, inl, inr, ap, sym, subst, ◌∙◌, refl,
  true, Bool-cases, some, arith, ◌==◌,
}
use ds2i.Codec.{Codec}
use ds2i.BlockPostingList.{DocumentEnumerator, advance, next}
use ds2i.BlockPostingList.Encoded.{gap, Postings, full_block, block_end, last_block}
use ds2i.BlockPostingList.Enumerate.{Opened, Opened-moved, At, decode_docs_block-At}

-- Documents that increase.
pub ordered :
    {n universe : ℕ} {docs freqs : ℕ → ℕ} (valid : Postings n universe docs freqs) (k p : ℕ)
    → p + k < n
    → docs p ≤ docs (p + k)
ordered {docs} valid zero p h = let e : p + 0 ≡ p = omega arith in rw e (omega arith)
ordered {docs} valid (suc k) p h =
    let e : p + suc k ≡ suc (p + k) = omega arith in
    rw e
      (omega (arith, ordered valid k p (omega arith), valid.increases (suc (p + k)) (omega arith)))

module _ (codec : Codec) (n universe : ℕ) (docs freqs : ℕ → ℕ)
    (valid : Postings n universe docs freqs) where
  open codec use {block_size, decode, block_size_pos}

  pub advance-At :
      (p : ℕ) (e : DocumentEnumerator)
      → At codec n universe docs freqs p e
      → e.pos_in_block + 1 < e.cur_block_size
      → (e' : DocumentEnumerator) × (advance codec e ≡ some e')
        × At codec n universe docs freqs (suc p) e'
        × (e'.cur_block ≡ e.cur_block)
        × (e'.pos_in_block ≡ e.pos_in_block + 1)
        × (e'.cur_block_size ≡ e.cur_block_size)
  unfolding advance
  advance-At p e a h =
      let (pos, fits) = block_end codec a.opened.encoded.blocks_eq e.cur_block a.block_inside in
      let at : suc p ≡ e.cur_block * block_size + (e.pos_in_block + 1) = omega (arith, a.p_eq) in
      let inside : suc p < n = omega (arith, at, a.size_eq, h) in
      let step : (e.cur_docid + gap docs (e.cur_block * block_size + (e.pos_in_block + 1)) + 1)
            % 2 ^ 32
          ≡ docs (suc p) =
        ap (λ (t : ℕ). (e.cur_docid + gap docs t + 1) % 2 ^ 32) (sym at)
        ∙ omega (
          arith,
          a.docid_eq,
          valid.increases (suc p) inside,
          valid.inside (suc p) inside,
          valid.universe_small,
        ) in
      (
        record e { pos_in_block = e.pos_in_block + 1; cur_docid = docs (suc p) },
        rw (a.gaps_eq (e.pos_in_block + 1) (omega arith) h, step) refl,
        record {
          opened =
              Opened-moved codec n universe docs freqs e (e.pos_in_block + 1) (docs (suc p))
                a.opened;
          block_inside = a.block_inside;
          size_eq = a.size_eq;
          pos_inside = h;
          p_eq = at;
          max_eq = a.max_eq;
          docid_eq = refl;
          gaps_eq = a.gaps_eq;
          freqs_at = a.freqs_at;
        },
        refl,
        refl,
        refl,
      )

  -- It is behind the last posting.
  pub record Ended (e : DocumentEnumerator) : Type 0 where
    pub opened : Opened codec n universe docs freqs e
    pub blocks_pos : 0 < e.blocks
    pub max_inside : e.cur_block_max < universe
    pub docid_eq : e.cur_docid ≡ universe

  pub At-max_inside :
      (p : ℕ) (e : DocumentEnumerator)
      → At codec n universe docs freqs p e
      → (e.cur_block_max < universe) × (p < n)
  At-max_inside p e a =
      let (pos, fits) = block_end codec a.opened.encoded.blocks_eq e.cur_block a.block_inside in
      let last : e.cur_block * block_size + e.cur_block_size - 1 < n = omega (arith, a.size_eq) in
      omega (
        arith,
        a.max_eq,
        valid.inside (e.cur_block * block_size + e.cur_block_size - 1) last,
        a.p_eq,
        a.size_eq,
        a.pos_inside,
      )

  pub end_of :
      (p : ℕ) (e : DocumentEnumerator) (pos : ℕ)
      → At codec n universe docs freqs p e
      → Ended (record e { cur_docid = e.universe % 2 ^ 32; pos_in_block = pos })
  end_of p e pos a = record {
    opened = Opened-moved codec n universe docs freqs e pos (e.universe % 2 ^ 32) a.opened;
    blocks_pos = omega (arith, a.block_inside);
    max_inside = (At-max_inside p e a).0;
    docid_eq = omega (arith, a.opened.universe_eq, valid.universe_small);
  }

  -- `next` of an enumerator at position `p` succeeds: it goes on to position `p + 1`, into the next
  -- block where the block ends, with document, gaps and frequencies of the list there; behind the
  -- last posting it shows the universe.
  pub next-At :
      (p : ℕ) (e : DocumentEnumerator)
      → At codec n universe docs freqs p e
      → (e' : DocumentEnumerator) × (next codec e ≡ some e')
        × (((suc p < n) × At codec n universe docs freqs (suc p) e') ⊎ ((suc p ≡ n) × Ended e'))
  unfolding next
  next-At p e a = elim (Bool-cases (e.pos_in_block + 1 == e.cur_block_size)) [
    | inr within ↦
        let (e', ran, a', b_eq, pos_eq, size_eq) =
          advance-At p e a (ground (arith, within, a.pos_inside)) in
        (e', rw within ran, inl ((At-max_inside (suc p) e' a').1, a'))
    | inl at_end ↦ elim (Bool-cases (e.cur_block + 1 == e.blocks)) [
      | inl last ↦ (
        record e { pos_in_block = e.pos_in_block + 1; cur_docid = e.universe % 2 ^ 32 },
        rw (at_end, last) refl,
        inr (ended at_end last, end_of p e (e.pos_in_block + 1) a),
      )
      | inr more ↦
          let later : e.cur_block + 1 < e.blocks = ground (arith, more, a.block_inside) in
          let (e', ran, a', b_eq, bs_eq) =
            decode_docs_block-At codec n universe docs freqs valid (e.cur_block + 1) e a.opened
              later in
          let at = next_block at_end later in
          (
            e',
            rw (at_end, more) ran,
            inl (
              subst (λ (q : ℕ). q < n) at (At-max_inside ((e.cur_block + 1) * block_size) e' a').1,
              subst (λ (q : ℕ). At codec n universe docs freqs q e') at a',
            ),
          )
    ]
  ]
    where
      ended :
          (e.pos_in_block + 1 == e.cur_block_size) ≡ true
          → (e.cur_block + 1 == e.blocks) ≡ true
          → suc p ≡ n
      ended at_end last =
          let whole =
            last_block codec a.opened.encoded.blocks_eq e.cur_block (ground (arith, last)) in
          ground (arith, whole, a.p_eq, a.size_eq, at_end)

      next_block :
          (e.pos_in_block + 1 == e.cur_block_size) ≡ true
          → e.cur_block + 1 < e.blocks
          → (e.cur_block + 1) * block_size ≡ suc p
      next_block at_end later =
          let full = full_block codec a.opened.encoded.blocks_eq e.cur_block later in
          let step : (e.cur_block + 1) * block_size ≡ e.cur_block * block_size + block_size =
            ap (λ (t : ℕ). t * block_size) (omega arith) ∙ suc-mul e.cur_block block_size in
          ground (arith, full, step, a.p_eq, a.size_eq, at_end)
