-- ===== src/BlockPostingList/Enumerate.antt =====
-- The blocks that the enumerator decodes.
use native.Mathlib.Nat.{suc-mul, mod-eq_of_lt}
use ds2i.Base.{
  ℕ, zero, suc, ◌+◌, ◌-◌, ◌*◌, ◌%◌, ◌^◌, ◌<◌, ◌≡◌, ◌⊎◌, inl, ap, sym, ◌∙◌, refl, true, false, some,
  List, ◌++◌, length, length-append, length-take, length-drop, length-tabulate, length-set, drop,
  take, set, get_or, get_elem?, get_or-tabulate, get_elem?-set_behind, get_elem?-append,
  get_elem?-tabulate, tabulate, arith, ◌==◌, if◌then◌else◌, suc_nonzero,
}
use ds2i.Codec.{Codec}
use ds2i.BlockCodec.{unknown}
use ds2i.Memory.{load32}
use ds2i.BlockPostingList.{DocumentEnumerator, size_of_block, block_max, decode_docs_block}
use ds2i.BlockPostingList.Encoded.{
  base, gap, less_one, Postings, size, Encoded, full_block, block_end, size_of_block_lem,
  base_behind, gaps_universe, base_fits,
}

module _ (codec : Codec) (n universe : ℕ) (docs freqs : ℕ → ℕ) where
  open codec use {block_size, decode, block_size_pos}

  -- The enumerator of an encoded posting list, wherever it stands.
  pub record Opened (e : DocumentEnumerator) : Type 0 where
    pub n_eq : e.n ≡ n
    pub universe_eq : e.universe ≡ universe
    pub encoded : Encoded codec n e.blocks docs freqs e.block_maxs e.block_endpoints e.blocks_data
    pub docs_room : length e.docs_buf ≡ block_size
    pub freqs_room : length e.freqs_buf ≡ block_size

  -- A move within a block keeps it.
  pub Opened-moved :
      (e : DocumentEnumerator) (pos docid : ℕ)
      → Opened e
      → Opened (record e { pos_in_block = pos; cur_docid = docid })
  Opened-moved e pos docid o = record {
    n_eq = o.n_eq;
    universe_eq = o.universe_eq;
    encoded = o.encoded;
    docs_room = o.docs_room;
    freqs_room = o.freqs_room;
  }

  -- The frequencies of a block, decoded or not.
  abbrev pub FreqsAt : DocumentEnumerator → Type 0
  FreqsAt e =
      ((e.freqs_decoded ≡ false)
        × (behind : List ℕ) × ((buf : List ℕ)
            → length buf ≡ e.cur_block_size
            → decode e.freqs_block_data buf unknown e.cur_block_size
              ≡ some
                  (tabulate (less_one freqs) (e.cur_block * block_size) e.cur_block_size, behind)))
      ⊎ ((e.freqs_decoded ≡ true)
          × ((j : ℕ)
              → j < e.cur_block_size
              → get_elem? e.freqs_buf j ≡ some (less_one freqs (e.cur_block * block_size + j))))

  -- It stands at position `p`, in a block whose gaps it has decoded.
  pub record At (p : ℕ) (e : DocumentEnumerator) : Type 0 where
    pub opened : Opened e
    pub block_inside : e.cur_block < e.blocks
    pub size_eq : e.cur_block_size ≡ size codec n e.cur_block
    pub pos_inside : e.pos_in_block < e.cur_block_size
    pub p_eq : p ≡ e.cur_block * block_size + e.pos_in_block
    pub max_eq : e.cur_block_max ≡ docs (e.cur_block * block_size + e.cur_block_size - 1)
    pub docid_eq : e.cur_docid ≡ docs p
    pub gaps_eq :
        (j : ℕ)
        → 0 < j
        → j < e.cur_block_size
        → get_elem? e.docs_buf j ≡ some (gap docs (e.cur_block * block_size + j))
    pub freqs_at : FreqsAt e

  module _ (valid : Postings n universe docs freqs) where
    endpoint_of :
        (b : ℕ) (e : DocumentEnumerator) (o : Opened e)
        → b < e.blocks
        → (if b == 0 then some 0 else load32 e.block_endpoints (4 * (b - 1)))
          ≡ some (o.encoded.start b)
    endpoint_of zero e o h = ap some (sym o.encoded.start_zero)
    endpoint_of (suc b) e o h =
        let pred : suc b - 1 ≡ b = omega arith in
        rw (suc_nonzero b, pred) (o.encoded.endpoint_eq b (omega arith))

    last_of :
        (b : ℕ) (e : DocumentEnumerator) (o : Opened e)
        → b < e.blocks
        → (last : ℕ) × ((if b == 0 then some (2 ^ 32 - 1) else block_max codec e (b - 1))
            ≡ some last)
          × ((last + 1) % 2 ^ 32 ≡ base docs (b * block_size))
    unfolding block_max
    last_of zero e o h =
        (2 ^ 32 - 1, refl, let z : 0 ≡ 0 * block_size = omega arith in ap (base docs) z)
    last_of (suc b) e o h =
        let pred : suc b - 1 ≡ b = omega arith in
        let geometry = o.encoded.blocks_eq in
        let k = size codec n b in
        let (pos, fits) = block_end codec geometry b (omega arith) in
        let behind = base_behind valid k (b * block_size) pos in
        let next : suc b * block_size ≡ b * block_size + k =
          omega (arith, suc-mul b block_size, full_block codec geometry b (omega arith)) in
        (
          docs (b * block_size + k - 1),
          rw (suc_nonzero b, pred) (o.encoded.max_eq b (omega arith)),
          ap (λ (t : ℕ). t % 2 ^ 32) (sym behind)
              ∙ mod-eq_of_lt (base_fits valid (b * block_size + k) fits)
              ∙ ap (base docs) (sym next),
        )

    -- What `decode_docs_block` makes of an enumerator.
    abbrev decoded_block : ℕ → ℕ → List ℕ → DocumentEnumerator → DocumentEnumerator
    decoded_block b k freqs_ptr e = record e {
      cur_block_size = k;
      cur_block_max = docs (b * block_size + k - 1);
      freqs_block_data = freqs_ptr;
      docs_buf =
          set (tabulate (gap docs) (b * block_size) k ++ drop k e.docs_buf) 0
            (docs (b * block_size));
      cur_block = b;
      pos_in_block = 0;
      cur_docid = docs (b * block_size);
      freqs_decoded = false;
    }

    decoded_block-At :
        (b : ℕ) (e : DocumentEnumerator) (o : Opened e) (h : b < e.blocks)
        → At (b * block_size) (decoded_block b (size codec n b) (o.encoded.coded b h).freqs_ptr e)
    decoded_block-At b e o h =
        let k = size codec n b in
        let gaps = tabulate (gap docs) (b * block_size) k in
        let rest = drop k e.docs_buf in
        let c = o.encoded.coded b h in
        let (pos, fits) = block_end codec o.encoded.blocks_eq b h in
        let l : length gaps ≡ k = length-tabulate (gap docs) (b * block_size) k in
        record {
          opened = record {
            n_eq = o.n_eq;
            universe_eq = o.universe_eq;
            encoded = o.encoded;
            docs_room = omega (
              arith,
              length-set (gaps ++ rest) 0 (docs (b * block_size)),
              length-append gaps rest,
              l,
              length-drop k e.docs_buf,
              o.docs_room,
            );
            freqs_room = o.freqs_room;
          };
          block_inside = h;
          size_eq = refl;
          pos_inside = pos;
          p_eq = omega arith;
          max_eq = refl;
          docid_eq = refl;
          gaps_eq = λ j past inside.
              get_elem?-set_behind (gaps ++ rest) j (docs (b * block_size)) past
              ∙ get_elem?-append gaps rest j (omega (arith, l, inside))
              ∙ get_elem?-tabulate (gap docs) (b * block_size) k j inside;
          freqs_at = inl (refl, c.behind, c.freqs_eq);
        }

    -- `decode_docs_block` succeeds for each block, and the enumerator stands at its first posting.
    pub decode_docs_block-At :
        (b : ℕ) (e : DocumentEnumerator)
        → Opened e
        → b < e.blocks
        → (e' : DocumentEnumerator) × (decode_docs_block codec b e ≡ some e')
          × At (b * block_size) e'
          × (e'.cur_block ≡ b)
          × (e'.blocks ≡ e.blocks)
    unfolding decode_docs_block block_max
    decode_docs_block-At b e o h =
        let geometry = o.encoded.blocks_eq in
        let k = size codec n b in
        let p = b * block_size in
        let (pos, fits) = block_end codec geometry b h in
        let (last, last_eq, base_eq) = last_of b e o h in
        let c = o.encoded.coded b h in
        let size_eq : size_of_block codec e.n b ≡ k =
          ap (λ (t : ℕ). size_of_block codec t b) o.n_eq ∙ size_of_block_lem codec geometry b h in
        let taken : length (take k e.docs_buf) ≡ k =
          omega (arith, length-take k e.docs_buf, o.docs_room) in
        let decoded = c.docs_eq (take k e.docs_buf) taken in
        let here : p + 0 ≡ p = omega arith in
        let first : (get_or (tabulate (gap docs) p k) 0 0 + base docs p) % 2 ^ 32 ≡ docs p =
          ap (λ (t : ℕ). (t + base docs p) % 2 ^ 32)
            (get_or-tabulate (gap docs) p k 0 0 pos ∙ ap (gap docs) here)
          ∙ omega (
            arith,
            valid.increases p (omega arith),
            valid.inside p (omega arith),
            valid.universe_small,
          ) in
        (
          decoded_block b k c.freqs_ptr e,
          rw
              (
                endpoint_of b e o h,
                size_eq,
                last_eq,
                o.encoded.max_eq b h,
                base_eq,
                gaps_universe valid k p pos fits,
                decoded,
                first,
              )
              refl,
          decoded_block-At b e o h,
          refl,
          refl,
        )
