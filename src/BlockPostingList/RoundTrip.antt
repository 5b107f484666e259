-- ===== src/BlockPostingList/RoundTrip.antt =====
-- The enumerator opened at what `write` wrote.
use ds2i.Base.{
  ℕ, zero, suc, ◌+◌, ◌-◌, ◌*◌, ◌^◌, ◌≤◌, ◌<◌, ◌≡◌, ap, sym, subst, ◌∙◌, refl, some, List, [], ◌∷◌,
  ◌++◌, append_assoc, length, length-append, length-replicate, drop, take, replicate, tabulate,
  arith, false, All, All-append, IsU8, ◌>>=◌,
}
use ds2i.Succinct.{Util}
use ds2i.Codec.{Codec}
use ds2i.Varbyte
use ds2i.Varbyte.RoundTrip.{decode-encode, encode_bounds}
use ds2i.Memory.{
  load32, load32-append, drop-drop, drop-append_early, take-append_early, take-append-drop,
  drop-IsU8, first_word,
}
use ds2i.BlockPostingList.{DocumentEnumerator, write, write_loop, reset, document_enumerator}
use ds2i.BlockPostingList.Encoded.{Postings, size, Blocks, Coded, Encoded}
use ds2i.BlockPostingList.Enumerate.{Opened, At, decode_docs_block-At}
use ds2i.BlockPostingList.Write.{endpoints, data_begin, state}
use ds2i.BlockPostingList.Written.{Written, write_loop-Written}

module _ (codec : Codec) {n universe : ℕ} {docs freqs : ℕ → ℕ}
    (valid : Postings n universe docs freqs) (blocks : ℕ) (geometry : Blocks codec n blocks)
    (maxs : ℕ) where
  open codec use {block_size, slack}

  -- The tables and the blocks, as the memory from the first table on holds them.
  Written-Encoded :
      (out result rest : List ℕ)
      → (w : Written codec valid blocks geometry maxs 0 out result)
      → length out ≡ data_begin codec valid blocks geometry maxs
      → length result - length out < 2 ^ 32
      → All IsU8 rest
      → slack ≤ length rest
      → let mem = drop maxs (result ++ rest) in
        Encoded codec n blocks docs freqs mem
          (drop (4 * blocks) mem)
          (drop (4 * (blocks - 1)) (drop (4 * blocks) mem))
  Written-Encoded out result rest w at_data small us long =
      let mem = result ++ rest in
      let table = λ (k j : ℕ). λ (inside : k + j + 4 ≤ length result).
        ap first_word (drop-drop j k mem) ∙ load32-append result rest (k + j) inside in
      record {
        blocks_eq = geometry;
        start = w.start;
        start_zero = omega (arith, w.start_eq, at_data);
        endpoint_eq = λ b more.
            ap (λ xs. load32 xs (4 * b)) (drop-drop (4 * blocks) maxs mem)
            ∙ table (maxs + 4 * blocks) (4 * b) (omega (arith, more, w.length_eq, at_data))
            ∙ w.endpoint_eq (omega (arith, small, at_data)) b (omega arith) more;
        max_eq = λ b inside.
            table maxs (4 * b) (omega (arith, inside, w.length_eq, at_data))
            ∙ w.max_eq b (omega arith) inside;
        coded = λ b inside.
            subst (Coded codec docs freqs (b * block_size) (size codec n b))
              (sym (
                ap (λ xs. drop (w.start b) (drop (4 * (blocks - 1)) xs))
                  (drop-drop (4 * blocks) maxs mem)
                ∙ ap (drop (w.start b)) (drop-drop (4 * (blocks - 1)) (maxs + 4 * blocks) mem)
                ∙ drop-drop (w.start b) (maxs + 4 * blocks + 4 * (blocks - 1)) mem))
              (w.coded rest us long b (omega arith) inside);
      }

factor_pos : (a b m : ℕ) → 0 < m → m ≤ a * b → 0 < a
factor_pos zero b m pos le = omega (arith, pos, le)
factor_pos (suc a) b m pos le = omega arith

take-all : (xs : List ℕ) → take (length xs) xs ≡ xs
take-all [] = refl
take-all (x ∷ xs) = ap (◌∷◌ x) (take-all xs)

zeros-IsU8 : (k : ℕ) → All IsU8 (replicate k 0)
zeros-IsU8 zero = tt
zeros-IsU8 (suc k) = (omega arith, zeros-IsU8 k)

module _ (codec : Codec) (util : Util) {n universe : ℕ} {docs freqs : ℕ → ℕ}
    (valid : Postings n universe docs freqs) where
  open codec use {block_size, slack}

  abbrev blocks : ℕ
  blocks = util.ceil_div n block_size

  geometry : Blocks codec n blocks
  geometry =
      let (reach, needed) = util.ceil_div_bounds n block_size codec.block_size_pos in
      record { reach = reach; needed = needed }

  write_suc :
      (m : ℕ) (out docs_it freqs_it : List ℕ)
      → 0 < m
      → let out' = Varbyte.encode_single m out in
        let blocks_of = util.ceil_div m block_size in
        let maxs = length out' in
        let from = maxs + 4 * blocks_of + 4 * (blocks_of - 1) in
        write codec util out m docs_it freqs_it ≡ (do
          w ← write_loop codec blocks_of m blocks_of maxs (maxs + 4 * blocks_of) from 0 (record {
            out = out' ++ replicate (from - maxs) 0;
            docs_it = docs_it;
            freqs_it = freqs_it;
            last_doc = 2 ^ 32 - 1;
            block_base = 0;
          })
          some w.out)
  unfolding write
  write_suc zero out docs_it freqs_it pos = absurd (omega arith)
  write_suc (suc m) out docs_it freqs_it pos = refl

  write-state :
      (out : List ℕ)
      → let out' = Varbyte.encode_single n out in
        let from = data_begin codec valid blocks geometry (length out') in
        write codec util out n (tabulate docs 0 n) (tabulate freqs 0 n) ≡ (do
          w ←
              write_loop codec blocks n blocks
                (length out')
                (endpoints codec valid blocks geometry (length out'))
                from
                0
                (state codec valid blocks geometry
                  (length out')
                  0
                  (out' ++ replicate (from - length out') 0))
          some w.out)
  write-state out =
      let whole : n - 0 ≡ n = omega arith in
      rw whole (write_suc n out (tabulate docs 0 n) (tabulate freqs 0 n) valid.n_pos)

  abbrev fresh : List ℕ → DocumentEnumerator
  fresh X = record {
    n = n;
    blocks = blocks;
    block_maxs = X;
    block_endpoints = drop (4 * blocks) X;
    blocks_data = drop (4 * (blocks - 1)) (drop (4 * blocks) X);
    universe = universe;
    cur_block = 0;
    pos_in_block = 0;
    cur_block_max = 0;
    cur_block_size = 0;
    cur_docid = 0;
    freqs_block_data = [];
    freqs_decoded = false;
    docs_buf = replicate block_size 0;
    freqs_buf = replicate block_size 0;
  }

  -- Opened at its bytes, the enumerator stands at the first posting.
  enumerator-At :
      (X : List ℕ)
      → Encoded codec n blocks docs freqs X
          (drop (4 * blocks) X)
          (drop (4 * (blocks - 1)) (drop (4 * blocks) X))
      → (e : DocumentEnumerator) × (document_enumerator codec util
            (Varbyte.encode (n ∷ []) ++ X)
            universe
          ≡ some e)
        × At codec n universe docs freqs 0 e
  unfolding document_enumerator reset
  enumerator-At X encoded =
      let e₀ = fresh X in
      let opened : Opened codec n universe docs freqs e₀ = record {
        n_eq = refl;
        universe_eq = refl;
        encoded = encoded;
        docs_room = length-replicate block_size 0;
        freqs_room = length-replicate block_size 0;
      } in
      let some_block : 0 < blocks =
        factor_pos blocks block_size n valid.n_pos
          (util.ceil_div_bounds n block_size codec.block_size_pos).0 in
      let (e, ran, at, _, _) =
        decode_docs_block-At codec n universe docs freqs valid 0 e₀ opened some_block in
      (
        e,
        rw (decode-encode (n ∷ []) X (valid.n_small, tt)) ran,
        subst (λ (p : ℕ). At codec n universe docs freqs p e) (omega arith) at,
      )

  -- `write` succeeds for any number of postings from 1 on, with documents that increase strictly
  -- below the universe and frequencies from 1 on whose sums fit 32 bits, and appends to the
  -- buffer, one byte at least. When less than 2^32 bytes are appended and enough bytes follow them, the constructor
  -- of the enumerator, given their address and the universe, succeeds and stands at the first
  -- posting: it shows document `docs 0`, and its tables, gaps and frequencies are those of the
  -- list. If the buffer held bytes, bytes are appended.
  pub document_enumerator-write :
      (out : List ℕ)
      → (bytes : List ℕ) × (write codec util out n (tabulate docs 0 n) (tabulate freqs 0 n)
          ≡ some (out ++ bytes))
        × (All IsU8 out → All IsU8 bytes)
        × (0 < length bytes)
        × (length bytes < 2 ^ 32
            → (rest : List ℕ) → All IsU8 rest
            → slack ≤ length rest
            → (e : DocumentEnumerator) × (document_enumerator codec util (bytes ++ rest) universe
                ≡ some e)
              × At codec n universe docs freqs 0 e)
  unfolding Varbyte.encode_single
  document_enumerator-write out =
      let out' = Varbyte.encode_single n out in
      let head = Varbyte.encode (n ∷ []) in
      let maxs = length out' in
      let from = data_begin codec valid blocks geometry maxs in
      let resized = out' ++ replicate (from - maxs) 0 in
      let l : length resized ≡ from = omega (
        arith,
        length-append out' (replicate (from - maxs) 0),
        length-replicate {A = ℕ} (from - maxs) 0,
      ) in
      let (w, ran, written) =
        write_loop-Written codec valid blocks geometry maxs blocks 0 0 resized (omega arith)
          (λ some_block. omega arith) (omega (arith, l)) in
      let result = w.out in
      let X = drop maxs result in
      let front : take maxs result ≡ out' =
        written.early
        ∙ take-append_early out' (replicate (from - maxs) 0) maxs (omega arith)
        ∙ take-all out' in
      let head_us = (encode_bounds (n ∷ []) (valid.n_small, tt)).0 in
      let split : result ≡ out ++ (head ++ X) =
        sym (take-append-drop maxs result) ∙ ap (λ xs. xs ++ X) front ∙ append_assoc out head X in
      (
        head ++ X,
        write-state out ∙ rw (ran, sym split) refl,
        λ us.
            let result_us = written.are_bytes (
              All-append IsU8 out' (replicate (from - maxs) 0) (All-append IsU8 out head us head_us)
                (zeros-IsU8 (from - maxs))) in
            All-append IsU8 head X head_us (drop-IsU8 maxs result result_us),
        omega (arith, length-append head X, (encode_bounds (n ∷ []) (valid.n_small, tt)).1),
        λ small rest rest_us long.
            let longer : length result - length resized < 2 ^ 32 = omega (
              arith,
              small,
              l,
              ap length split,
              length-append out (head ++ X),
              length-append out head,
            ) in
            let address : (head ++ X) ++ rest ≡ head ++ drop maxs (result ++ rest) =
              append_assoc head X rest
              ∙ ap (◌++◌ head) (
                  sym (drop-append_early result rest maxs (omega (arith, written.length_eq, l)))) in
            let (e, opened, at) = enumerator-At (drop maxs (result ++ rest)) (
              Written-Encoded codec valid blocks geometry maxs resized result rest written l longer
                rest_us long) in
            (e, rw address opened, at),
      )
