-- ===== src/BlockPostingList/Scan.antt =====
-- The search for a document in a block.
use ds2i.Base.{
  ℕ, zero, suc, ◌+◌, ◌-◌, ◌*◌, ◌≤◌, ◌<◌, ◌≡◌, inl, inr, refl, Bool-cases, Option, some, arith, ltb,
  ltb→lt, ◌==◌,
}
use ds2i.Codec.{Codec}
use ds2i.BlockPostingList.{DocumentEnumerator, scan}
use ds2i.BlockPostingList.Encoded.{Postings}
use ds2i.BlockPostingList.Enumerate.{At}
use ds2i.BlockPostingList.Moves.{advance-At}

module _ (codec : Codec) (n universe : ℕ) (docs freqs : ℕ → ℕ)
    (valid : Postings n universe docs freqs) where
  open codec use {block_size, decode, block_size_pos}

  -- The first posting from `p` on whose document is `lower_bound` or more.
  pub record Found (p lower_bound : ℕ) (result : Option DocumentEnumerator) : Type 0 where
    pub q : ℕ
    pub found : DocumentEnumerator
    pub ran : result ≡ some found
    pub at : At codec n universe docs freqs q found
    pub not_before : p ≤ q
    pub reached : lower_bound ≤ docs q
    pub passed : (j : ℕ) → p ≤ j → j < q → docs j < lower_bound

  step_back :
      (p lower_bound : ℕ) (result : Option DocumentEnumerator)
      → docs p < lower_bound
      → Found (suc p) lower_bound result
      → Found p lower_bound result
  step_back p lower_bound result small f = record {
    q = f.q;
    found = f.found;
    ran = f.ran;
    at = f.at;
    not_before = omega (arith, f.not_before);
    reached = f.reached;
    passed = λ j h h'. elim (Bool-cases (ltb p j)) [
      | inl past ↦ f.passed j (ltb→lt _ _ past) h'
      | inr here ↦ let e : j ≡ p = ground (arith, here, h) in rw e small
    ];
  }

  pub scan-Found :
      (fuel lower_bound p : ℕ) (e : DocumentEnumerator)
      → At codec n universe docs freqs p e
      → e.cur_block_size ≤ e.pos_in_block + fuel
      → lower_bound ≤ docs (e.cur_block * block_size + e.cur_block_size - 1)
      → Found p lower_bound (scan codec fuel lower_bound e)
  unfolding scan
  scan-Found zero lower_bound p e a enough last = absurd (omega (arith, a.pos_inside))
  scan-Found (suc fuel) lower_bound p e a enough last =
      elim (Bool-cases (ltb e.cur_docid lower_bound)) [
        | inr here ↦ record {
          q = p;
          found = e;
          ran = rw here refl;
          at = a;
          not_before = omega arith;
          reached = ground (arith, here, a.docid_eq);
          passed = λ j h h'. absurd (omega arith);
        }
        | inl below ↦
            let small : docs p < lower_bound = ground (arith, below, a.docid_eq) in
            let (e', ran, a', b_eq, pos_eq, size_eq) =
              advance-At codec n universe docs freqs valid p e a (more small) in
            let f =
              scan-Found fuel lower_bound (suc p) e' a' (omega (arith, pos_eq, size_eq))
                (rw (b_eq, size_eq) last) in
            rw (below, ran) (step_back p lower_bound _ small f)
      ]
    where
      more : docs p < lower_bound → e.pos_in_block + 1 < e.cur_block_size
      more small = elim (Bool-cases (e.pos_in_block + 1 == e.cur_block_size)) [
        | inr within ↦ ground (arith, within, a.pos_inside)
        | inl at_end ↦
            let here : e.cur_block * block_size + e.cur_block_size - 1 ≡ p =
              ground (arith, at_end, a.p_eq) in
            absurd (omega (arith, small, rw here at last))
      ]

  -- The search may start earlier, where all is below the bound.
  pub widen :
      (p p' lower_bound : ℕ) (result : Option DocumentEnumerator)
      → p ≤ p'
      → ((j : ℕ) → j < p' → docs j < lower_bound)
      → Found p' lower_bound result
      → Found p lower_bound result
  widen p p' lower_bound result h before f = record {
    q = f.q;
    found = f.found;
    ran = f.ran;
    at = f.at;
    not_before = omega (arith, f.not_before, h);
    reached = f.reached;
    passed = λ j h' h''. elim (Bool-cases (ltb j p')) [
      | inl early ↦ before j (ltb→lt _ _ early)
      | inr late ↦ f.passed j (ground (arith, late)) h''
    ];
  }
