-- ===== src/BlockPostingList/Fill.antt =====
-- The buffers that `write` fills for a block, and the codes of a block.
use ds2i.Base.{
  ℕ, zero, suc, ◌+◌, ◌-◌, ◌%◌, ◌^◌, ◌≤◌, ◌<◌, ◌≡◌, ◌⊎◌, ap, sym, subst, refl, some, List, ◌++◌,
  length, length-tabulate, tabulate, arith, All, IsU8,
}
use ds2i.Interpolative.{sub32}
use ds2i.Codec.{Codec}
use ds2i.BlockCodec.{unknown}
use ds2i.BlockCodec.Sums.{sum}
use ds2i.BlockPostingList.{fill_block}
use ds2i.BlockPostingList.Encoded.{base, gap, less_one, Postings}

-- The document before a position, as `last_doc` holds it.
abbrev pub doc_before : (ℕ → ℕ) → ℕ → ℕ
doc_before docs zero = 2 ^ 32 - 1
doc_before docs (suc p) = docs p

module _ {n universe : ℕ} {docs freqs : ℕ → ℕ} (valid : Postings n universe docs freqs) where
  gap_stored : (p : ℕ) → p < n → sub32 (sub32 (docs p) (doc_before docs p)) 1 ≡ gap docs p
  gap_stored zero h = omega (arith, valid.inside 0 h, valid.universe_small)
  gap_stored (suc p) h = omega (
    arith,
    valid.inside (suc p) h,
    valid.inside p (omega arith),
    valid.increases (suc p) h,
    valid.universe_small,
  )

  freq_stored : (p : ℕ) → p < n → sub32 (freqs p) 1 ≡ less_one freqs p
  freq_stored p h = omega (arith, valid.freqs_pos p h, valid.freqs_small p 1 (omega arith))

  pub base_stored : (p : ℕ) → p ≤ n → (doc_before docs p + 1) % 2 ^ 32 ≡ base docs p
  base_stored zero h = refl
  base_stored (suc p) h = omega (arith, valid.inside p h, valid.universe_small)

  -- The iterators stand `k` postings further on.
  fill_block-tabulate :
      (k m p : ℕ)
      → p + k ≤ n
      → fill_block k (doc_before docs p) (tabulate docs p (k + m)) (tabulate freqs p (k + m))
        ≡ some (record {
          docs_buf = tabulate (gap docs) p k;
          freqs_buf = tabulate (less_one freqs) p k;
          last_doc = doc_before docs (p + k);
          docs_it = tabulate docs (p + k) m;
          freqs_it = tabulate freqs (p + k) m;
        })
  unfolding fill_block
  fill_block-tabulate zero m p h =
      let e : p + 0 ≡ p = omega arith in let e' : 0 + m ≡ m = omega arith in rw (e, e') refl
  fill_block-tabulate (suc k) m p h =
      let e : p + suc k ≡ suc p + k = omega arith in
      let e' : suc k + m ≡ suc (k + m) = omega arith in
      rw
        (
          e,
          e',
          fill_block-tabulate k m (suc p) (omega arith),
          gap_stored p (omega arith),
          freq_stored p (omega arith),
        )
        refl

  pub doc_before_end : (p k : ℕ) → 0 < k → doc_before docs (p + k) ≡ docs (p + k - 1)
  doc_before_end p k pos = let e : p + k ≡ suc (p + k - 1) = omega arith in ap (doc_before docs) e

  pub fill_block-front :
      (k p : ℕ)
      → 0 < k
      → p + k ≤ n
      → fill_block k (doc_before docs p) (tabulate docs p (n - p)) (tabulate freqs p (n - p))
        ≡ some (record {
          docs_buf = tabulate (gap docs) p k;
          freqs_buf = tabulate (less_one freqs) p k;
          last_doc = docs (p + k - 1);
          docs_it = tabulate docs (p + k) (n - (p + k));
          freqs_it = tabulate freqs (p + k) (n - (p + k));
        })
  fill_block-front k p pos h =
      let left : n - p ≡ k + (n - (p + k)) = omega arith in
      rw (left, sym (doc_before_end p k pos)) (fill_block-tabulate k (n - (p + k)) p h)

-- The round trip of a codec for a block of tabulated values.
pub block_code :
    (codec : Codec) (f : ℕ → ℕ) (p k sum_of_values : ℕ) (before : List ℕ)
    → 0 < k
    → k ≤ codec.block_size
    → sum (tabulate f p k) + 1 < 2 ^ 32
    → (sum_of_values ≡ sum (tabulate f p k)) ⊎ (sum_of_values ≡ unknown)
    → (bytes : List ℕ) × (codec.encode (tabulate f p k) sum_of_values before
        ≡ some (before ++ bytes))
      × All IsU8 bytes
      × ((rest out : List ℕ)
          → All IsU8 rest
          → codec.slack ≤ length rest
          → length out ≡ k
          → codec.decode (bytes ++ rest) out sum_of_values k ≡ some (tabulate f p k, rest))
block_code codec f p zero s before pos fits small known = absurd (omega arith)
block_code codec f p (suc k) s before pos fits small known =
    subst
      (λ (l : ℕ).
        (bytes : List ℕ) × (codec.encode (tabulate f p (suc k)) s before ≡ some (before ++ bytes))
        × All IsU8 bytes
        × ((rest out : List ℕ)
            → All IsU8 rest
            → codec.slack ≤ length rest
            → length out ≡ suc l
            → codec.decode (bytes ++ rest) out s (suc l) ≡ some (tabulate f p (suc k), rest)))
      (length-tabulate f (suc p) k)
      (codec.round_trip (f p) s (tabulate f (suc p) k) before
        (omega (arith, length-tabulate f (suc p) k, fits)) small known)
