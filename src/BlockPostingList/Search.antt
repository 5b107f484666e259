-- ===== src/BlockPostingList/Search.antt =====
-- `next_geq`, `move` and `freq` of the enumerator.
use native.Mathlib.Nat.{suc-mul, mul-le-mul_right}
use ds2i.Base.{
  ℕ, zero, suc, ◌+◌, ◌-◌, ◌*◌, ◌%◌, ◌^◌, ◌≤◌, ◌<◌, ◌≡◌, ◌⊎◌, inl, inr, ap, ◌∙◌, refl, true,
  Bool-cases, Option, some, arith, ltb, ltb→lt, leb, ◌||◌, ◌==◌,
}
use ds2i.Codec.{Codec}
use ds2i.BlockPostingList.{
  DocumentEnumerator, block_max, skip_blocks, scan, leap, position, next_geq,
}
use ds2i.BlockPostingList.Encoded.{Postings, size, Blocks, full_block, block_end, last_block}
use ds2i.BlockPostingList.Enumerate.{Opened, Opened-moved, At, decode_docs_block-At}
use ds2i.BlockPostingList.Moves.{ordered, Ended, end_of}
use ds2i.BlockPostingList.Scan.{Found, scan-Found, widen}

module _ (codec : Codec) (n universe : ℕ) (docs freqs : ℕ → ℕ)
    (valid : Postings n universe docs freqs) where
  open codec use {block_size, decode, block_size_pos}

  -- `skip_blocks` finds the block with the document.
  record Leapt (lower_bound b blocks : ℕ) (result : Option ℕ) : Type 0 where
    c : ℕ
    ran : result ≡ some c
    inside : c < blocks
    not_before : b ≤ c
    reached : lower_bound ≤ docs (c * block_size + size codec n c - 1)
    passed : (j : ℕ) → j < c * block_size → docs j < lower_bound

  skip_blocks-Leapt :
      (fuel lower_bound b : ℕ) (e : DocumentEnumerator)
      → Opened codec n universe docs freqs e
      → b < e.blocks
      → e.blocks ≤ b + fuel
      → lower_bound ≤ docs (n - 1)
      → ((j : ℕ) → j < b * block_size → docs j < lower_bound)
      → Leapt lower_bound b e.blocks (skip_blocks codec fuel lower_bound b e)
  unfolding skip_blocks block_max
  skip_blocks-Leapt zero lower_bound b e o inside enough last passed = absurd (omega arith)
  skip_blocks-Leapt (suc fuel) lower_bound b e o inside enough last passed =
      let (pos, fits) = block_end codec o.encoded.blocks_eq b inside in
      let step = suc-mul b block_size in
      rw (o.encoded.max_eq b inside)
        (elim (Bool-cases (ltb (docs (b * block_size + size codec n b - 1)) lower_bound)) [
          | inr here ↦ rw here (record {
            c = b;
            ran = refl;
            inside = inside;
            not_before = omega arith;
            reached = ground (arith, here);
            passed = passed;
          })
          | inl below ↦
              let small = ltb→lt _ _ below in
              let later = more small in
              let full = full_block codec o.encoded.blocks_eq b later in
              let l =
                skip_blocks-Leapt fuel lower_bound (suc b) e o (omega arith) (omega arith) last
                  (λ j h. in_block small fits j (omega (arith, full, step))) in
              rw below (record {
                c = l.c;
                ran = l.ran;
                inside = l.inside;
                not_before = omega (arith, l.not_before);
                reached = l.reached;
                passed = l.passed;
              })
        ])
    where
      more : docs (b * block_size + size codec n b - 1) < lower_bound → b + 1 < e.blocks
      more small = elim (Bool-cases (b + 1 == e.blocks)) [
        | inr within ↦ ground (arith, within, inside)
        | inl at_end ↦
            let whole = last_block codec o.encoded.blocks_eq b (ground (arith, at_end)) in
            absurd (omega (arith, last, rw whole at small))
      ]

      in_block :
          docs (b * block_size + size codec n b - 1) < lower_bound
          → b * block_size + size codec n b ≤ n
          → (j : ℕ) → j < b * block_size + size codec n b
          → docs j < lower_bound
      in_block small fits j h =
          let end = b * block_size + size codec n b - 1 in
          let whole : j + (end - j) ≡ end = omega arith in
          let le : docs j ≤ docs end = rw whole at (ordered valid (end - j) j (omega arith)) in
          omega (arith, le, small)

  -- Nothing from the bound on is left.
  pub record Missed (p lower_bound : ℕ) (result : Option DocumentEnumerator) : Type 0 where
    pub found : DocumentEnumerator
    pub ran : result ≡ some found
    pub ended : Ended codec n universe docs freqs valid found
    pub passed : (j : ℕ) → p ≤ j → j < n → docs j < lower_bound

  all_below : (lower_bound j : ℕ) → docs (n - 1) < lower_bound → j < n → docs j < lower_bound
  all_below lower_bound j small h =
      let whole : j + (n - 1 - j) ≡ n - 1 = omega (arith, h) in
      let le : docs j ≤ docs (n - 1) =
        rw whole at (ordered valid (n - 1 - j) j (omega (arith, h))) in
      omega (arith, le, small)

  last_max :
      (e : DocumentEnumerator)
      → Opened codec n universe docs freqs e
      → 0 < e.blocks
      → block_max codec e (e.blocks - 1) ≡ some (docs (n - 1))
  unfolding block_max
  last_max e o pos =
      let whole = last_block codec o.encoded.blocks_eq (e.blocks - 1) (omega arith) in
      o.encoded.max_eq (e.blocks - 1) (omega arith) ∙ ap (λ (t : ℕ). some (docs (t - 1))) whole

  last_of_block :
      (b c k : ℕ)
      → c ≡ b
      → k ≡ size codec n c
      → docs (b * block_size + size codec n b - 1) ≡ docs (c * block_size + k - 1)
  last_of_block b c k c_eq k_eq = rw (k_eq, c_eq) refl

  scan_block :
      (lower_bound b : ℕ) (e : DocumentEnumerator)
      → At codec n universe docs freqs (b * block_size) e
      → e.cur_block ≡ b
      → lower_bound ≤ docs (b * block_size + size codec n b - 1)
      → Found codec n universe docs freqs valid
          (b * block_size)
          lower_bound
          (scan codec block_size lower_bound e)
  scan_block lower_bound b e a b_eq reached =
      scan-Found codec n universe docs freqs valid block_size lower_bound (b * block_size) e a
        (omega (arith, a.size_eq))
        (rw (last_of_block b e.cur_block e.cur_block_size b_eq a.size_eq) at reached)

  leap-Found :
      (lower_bound p : ℕ) (e : DocumentEnumerator)
      → At codec n universe docs freqs p e
      → e.cur_block_max < lower_bound
      → lower_bound ≤ docs (n - 1)
      → Found codec n universe docs freqs valid p lower_bound (leap codec lower_bound e)
  unfolding leap
  leap-Found lower_bound p e a past last =
      let o = a.opened in
      let geometry = o.encoded.blocks_eq in
      let (pos, fits) = block_end codec geometry e.cur_block a.block_inside in
      let end = e.cur_block * block_size + e.cur_block_size in
      let behind : (j : ℕ) → j < end → docs j < lower_bound = λ j h.
        let whole : j + (end - 1 - j) ≡ end - 1 = omega (arith, h) in
        let le : docs j ≤ docs (end - 1) =
          rw whole at (ordered valid (end - 1 - j) j (omega (arith, h, a.size_eq))) in
        omega (arith, le, past, a.max_eq) in
      let later : e.cur_block + 1 < e.blocks = more geometry behind in
      let step : (e.cur_block + 1) * block_size ≡ end =
        ap (λ (t : ℕ). t * block_size) (omega arith)
        ∙ suc-mul e.cur_block block_size
        ∙ omega (arith, full_block codec geometry e.cur_block later, a.size_eq) in
      let l =
        skip_blocks-Leapt e.blocks lower_bound (e.cur_block + 1) e o later (omega arith) last
          (λ j h. behind j (rw step at h)) in
      let (e', ran, a', b_eq, bs_eq) =
        decode_docs_block-At codec n universe docs freqs valid l.c e o l.inside in
      let up : (e.cur_block + 1) * block_size ≤ l.c * block_size =
        mul-le-mul_right block_size l.not_before in
      let f = scan_block lower_bound l.c e' a' b_eq l.reached in
      rw (l.ran, ran)
        (widen codec n universe docs freqs valid p (l.c * block_size) lower_bound
          (scan codec block_size lower_bound e') (omega (arith, up, step, a.p_eq, a.pos_inside))
          l.passed f)
    where
      more :
          Blocks codec n e.blocks
          → ((j : ℕ) → j < e.cur_block * block_size + e.cur_block_size → docs j < lower_bound)
          → e.cur_block + 1 < e.blocks
      more geometry behind = elim (Bool-cases (e.cur_block + 1 == e.blocks)) [
        | inr within ↦ ground (arith, within, a.block_inside)
        | inl at_end ↦
            let whole = last_block codec geometry e.cur_block (ground (arith, at_end)) in
            absurd
              (omega (arith, behind (n - 1) (omega (arith, whole, a.size_eq, valid.n_pos)), last))
      ]

  -- `next_geq` of an enumerator at a position, for a bound that is not behind the document there,
  -- or for any bound at position 0, succeeds: its loops end, and it stands at the first posting from that position on whose document is the bound or more, or, where all
  -- are less than the bound, behind the last posting, where it shows the universe.
  pub next_geq-At :
      (lower_bound p : ℕ) (e : DocumentEnumerator)
      → At codec n universe docs freqs p e
      → (docs p ≤ lower_bound) ⊎ (p ≡ 0)
      → Found codec n universe docs freqs valid p lower_bound (next_geq codec lower_bound e)
        ⊎ Missed p lower_bound (next_geq codec lower_bound e)
  unfolding next_geq position
  next_geq-At lower_bound p e a allowed =
      rw (asserted allowed) (elim (Bool-cases (ltb e.cur_block_max lower_bound)) [
        | inr here ↦ rw here (
            inl (
              scan-Found codec n universe docs freqs valid block_size lower_bound p e a
                (omega (arith, a.size_eq)) (ground (arith, here, a.max_eq))))
        | inl past ↦
            let max_eq = last_max e a.opened (omega (arith, a.block_inside)) in
            elim (Bool-cases (ltb (docs (n - 1)) lower_bound)) [
              | inl none_left ↦
                  rw (past, max_eq, none_left)
                    (inr (record {
                      found = record e { cur_docid = e.universe % 2 ^ 32 };
                      ran = refl;
                      ended = end_of codec n universe docs freqs valid p e e.pos_in_block a;
                      passed = λ j h h'. all_below lower_bound j (ltb→lt _ _ none_left) h';
                    }))
              | inr some_left ↦
                  rw (past, max_eq, some_left)
                    (inl
                      (leap-Found lower_bound p e a (ltb→lt _ _ past) (ground (arith, some_left))))
            ]
      ])
    where
      asserted :
          (docs p ≤ lower_bound) ⊎ (p ≡ 0)
          → (leb e.cur_docid lower_bound || (e.cur_block * block_size + e.pos_in_block == 0)) ≡ true
      asserted (inl le) = ground (arith, le, a.docid_eq)
      asserted (inr start) = ground (arith, start, a.p_eq)

  -- Behind the last posting it stays there for any bound from the universe on.
  pub next_geq-Ended :
      (lower_bound : ℕ) (e : DocumentEnumerator)
      → Ended codec n universe docs freqs valid e
      → universe ≤ lower_bound
      → (e' : DocumentEnumerator) × (next_geq codec lower_bound e ≡ some e')
        × Ended codec n universe docs freqs valid e'
  unfolding next_geq position
  next_geq-Ended lower_bound e x h =
      let asserted : (leb e.cur_docid lower_bound
            || (e.cur_block * block_size + e.pos_in_block == 0))
          ≡ true =
        ground (arith, h, x.docid_eq) in
      let past : ltb e.cur_block_max lower_bound ≡ true = ground (arith, x.max_inside) in
      let none_left : ltb (docs (n - 1)) lower_bound ≡ true =
        ground (arith, valid.inside (n - 1) (omega (arith, valid.n_pos))) in
      (
        record e { cur_docid = e.universe % 2 ^ 32 },
        rw (asserted, past, last_max e x.opened x.blocks_pos, none_left) refl,
        record {
          opened =
              Opened-moved codec n universe docs freqs e e.pos_in_block (e.universe % 2 ^ 32)
                x.opened;
          blocks_pos = x.blocks_pos;
          max_inside = x.max_inside;
          docid_eq = omega (arith, x.opened.universe_eq, valid.universe_small);
        },
      )
