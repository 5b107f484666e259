-- ===== src/BlockPostingList/Write.antt =====
-- What one round of the loop of `write` does to the buffer.
use ds2i.Base.{
  ℕ, ◌+◌, ◌-◌, ◌*◌, ◌%◌, ◌^◌, ◌≤◌, ◌<◌, ◌≡◌, ◌≢◌, ◌⊎◌, inl, inr, ap, sym, ◌∙◌, refl, Bool-cases,
  Option, some, List, ◌++◌, append_assoc, length, length-append, tabulate, drop, take, arith, All,
  All-append, IsU8, ◌>>=◌, ◌==◌, ltb, ltb→lt, if◌then◌else◌,
}
use ds2i.Codec.{Codec}
use ds2i.BlockCodec.{unknown}
use ds2i.BlockCodec.Sums.{sum}
use ds2i.Memory.{
  load32, store32, Stored, store32-Stored, load32-Stored, load32-append, drop-append_early,
  take-append_early,
}
use ds2i.BlockPostingList.{Writing, write_block}
use ds2i.BlockPostingList.Encoded.{
  base, gap, less_one, Postings, size, Blocks, Coded, block_end, size_of_block_lem, gaps_sum,
  gaps_universe, base_fits,
}
use ds2i.BlockPostingList.Fill.{
  doc_before, doc_before_end, base_stored, fill_block-front, block_code,
}

-- Two entries of a table do not overlap.
apart : (k b c : ℕ) → c ≢ b → (k + 4 * c + 4 ≤ k + 4 * b) ⊎ (k + 4 * b + 4 ≤ k + 4 * c)
apart k b c ne = elim (Bool-cases (ltb c b)) [
  | inl less ↦ inl (omega (arith, ltb→lt _ _ less))
  | inr more ↦ inr (ground (arith, more, ne))
]

module _ (codec : Codec) {n universe : ℕ} {docs freqs : ℕ → ℕ}
    (valid : Postings n universe docs freqs) (blocks : ℕ) (geometry : Blocks codec n blocks)
    (maxs : ℕ) where
  open codec use {block_size, slack}

  abbrev pub endpoints : ℕ
  endpoints = maxs + 4 * blocks

  abbrev pub data_begin : ℕ
  data_begin = endpoints + 4 * (blocks - 1)

  -- The state in front of posting `p`, with a buffer `out`.
  abbrev pub state : ℕ → List ℕ → Writing
  state p out = record {
    out = out;
    docs_it = tabulate docs p (n - p);
    freqs_it = tabulate freqs p (n - p);
    last_doc = doc_before docs p;
    block_base = base docs p;
  }

  -- A block's bytes are appended, and its entries of the two tables are set.
  pub record BlockWritten (b : ℕ) (out result : List ℕ) : Type 0 where
    pub bytes : List ℕ
    pub bytes-IsU8 : All IsU8 bytes
    pub length_eq : length result ≡ length out + length bytes
    pub early : take maxs result ≡ take maxs out
    pub are_bytes : All IsU8 out → All IsU8 result
    pub data_eq : (j : ℕ) → data_begin ≤ j → j ≤ length out → drop j result ≡ drop j out ++ bytes
    pub maxs_kept :
        (c : ℕ) → c < blocks → c ≢ b → load32 result (maxs + 4 * c) ≡ load32 out (maxs + 4 * c)
    pub endpoints_kept :
        (c : ℕ)
        → c + 1 < blocks
        → c ≢ b
        → load32 result (endpoints + 4 * c) ≡ load32 out (endpoints + 4 * c)
    pub max_here : load32 result (maxs + 4 * b) ≡ some (docs (b * block_size + size codec n b - 1))
    pub coded :
        (rest : List ℕ)
        → All IsU8 rest
        → slack ≤ length rest
        → Coded codec docs freqs (b * block_size) (size codec n b) (bytes ++ rest)

  -- After the store of the last document the two codes are appended.
  append-BlockWritten :
      (b : ℕ) (out bytes : List ℕ)
      → b < blocks
      → data_begin ≤ length out
      → (s : Stored out (maxs + 4 * b) (docs (b * block_size + size codec n b - 1)))
      → All IsU8 bytes
      → ((rest : List ℕ)
          → All IsU8 rest
          → slack ≤ length rest
          → Coded codec docs freqs (b * block_size) (size codec n b) (bytes ++ rest))
      → BlockWritten b out (s.result ++ bytes)
  append-BlockWritten b out bytes h room s us coded = record {
    bytes = bytes;
    bytes-IsU8 = us;
    length_eq = omega (arith, length-append s.result bytes, s.length_eq);
    are_bytes = λ before_us. All-append IsU8 s.result bytes (s.are_bytes before_us) us;
    early =
        take-append_early s.result bytes maxs (omega (arith, s.length_eq, room))
        ∙ s.early maxs (omega arith);
    data_eq = λ j lo hi.
        drop-append_early s.result bytes j (omega (arith, s.length_eq, hi))
        ∙ ap (λ ys. ys ++ bytes) (s.behind j (omega (arith, lo, h)));
    maxs_kept = λ c inside ne.
        load32-append s.result bytes (maxs + 4 * c) (omega (arith, s.length_eq, room, inside))
        ∙ load32-Stored s (maxs + 4 * c) (apart maxs b c ne);
    endpoints_kept = λ c inside ne.
        load32-append s.result bytes (endpoints + 4 * c) (omega (arith, s.length_eq, room, inside))
        ∙ load32-Stored s (endpoints + 4 * c) (inr (omega (arith, h)));
    max_here =
        load32-append s.result bytes (maxs + 4 * b) (omega (arith, s.length_eq, room, h)) ∙ s.here;
    coded = coded;
  }

  -- The store of the block's end, which is not in the data and not in the other table.
  endpoint-BlockWritten :
      (b v : ℕ) (out mid : List ℕ)
      → b + 1 < blocks
      → data_begin ≤ length out
      → (s : Stored mid (endpoints + 4 * b) v) → BlockWritten b out mid
      → BlockWritten b out s.result
  endpoint-BlockWritten b v out mid more room s w = record {
    bytes = w.bytes;
    bytes-IsU8 = w.bytes-IsU8;
    length_eq = s.length_eq ∙ w.length_eq;
    early = s.early maxs (omega arith) ∙ w.early;
    are_bytes = λ us. s.are_bytes (w.are_bytes us);
    data_eq = λ j lo hi. s.behind j (omega (arith, lo, more)) ∙ w.data_eq j lo hi;
    maxs_kept = λ c inside ne.
        load32-Stored s (maxs + 4 * c) (inl (omega (arith, inside))) ∙ w.maxs_kept c inside ne;
    endpoints_kept = λ c inside ne.
        load32-Stored s (endpoints + 4 * c) (apart endpoints b c ne) ∙ w.endpoints_kept c inside ne;
    max_here = load32-Stored s (maxs + 4 * b) (inl (omega (arith, more))) ∙ w.max_here;
    coded = w.coded;
  }

  -- One round of the loop.
  pub record Round (b : ℕ) (out : List ℕ) (result : Option Writing) : Type 0 where
    pub out' : List ℕ
    pub ran : result ≡ some (state (b * block_size + size codec n b) out')
    pub written : BlockWritten b out out'
    pub endpoint_here :
        b + 1 < blocks
        → load32 out' (endpoints + 4 * b) ≡ some ((length out' - data_begin) % 2 ^ 32)

  finish :
      (b last_doc block_base : ℕ) (out out₃ : List ℕ)
      → b < blocks
      → data_begin ≤ length out
      → last_doc ≡ doc_before docs (b * block_size + size codec n b)
      → block_base ≡ base docs (b * block_size + size codec n b)
      → BlockWritten b out out₃
      → Round b out (
          (if b == blocks - 1
            then some out₃
            else store32 out₃ (endpoints + 4 * b) ((length out₃ - data_begin) % 2 ^ 32))
          >>= (λ out₄. some (record (state (b * block_size + size codec n b) out₄) {
            last_doc = last_doc;
            block_base = block_base;
          })))
  finish b last_doc block_base out out₃ h room last_eq base_eq w =
      elim (Bool-cases (b == blocks - 1)) [
        | inl last ↦ rw last (record {
          out' = out₃;
          ran = rw (last_eq, base_eq) refl;
          written = w;
          endpoint_here = λ more. absurd (ground (arith, last, more));
        })
        | inr other ↦
            let more : b + 1 < blocks = ground (arith, other, h) in
            let v = (length out₃ - data_begin) % 2 ^ 32 in
            let s =
              store32-Stored out₃ (endpoints + 4 * b) v (omega (arith, w.length_eq, room, more))
                (omega arith) in
            rw (other, s.ran)
              (record {
                out' = s.result;
                ran = rw (last_eq, base_eq) refl;
                written = endpoint-BlockWritten b v out out₃ more room s w;
                endpoint_here = λ more'.
                    s.here ∙ ap (λ (l : ℕ). some ((l - data_begin) % 2 ^ 32)) (sym s.length_eq);
              })
      ]

  pub write_block-Round :
      (b : ℕ) (out : List ℕ)
      → b < blocks
      → data_begin ≤ length out
      → Round b out
          (write_block codec n blocks maxs endpoints data_begin b (state (b * block_size) out))
  unfolding write_block
  write_block-Round b out h room =
      let p = b * block_size in
      let k = size codec n b in
      let (pos, fits) = block_end codec geometry b h in
      let end = doc_before_end valid p k pos in
      let last_fits : docs (p + k - 1) < 2 ^ 32 =
        omega (arith, valid.inside (p + k - 1) (omega (arith, pos, fits)), valid.universe_small) in
      let s =
        store32-Stored out (maxs + 4 * b) (docs (p + k - 1)) (omega (arith, room, h)) last_fits in
      let gaps = tabulate (gap docs) p k in
      let small : sum gaps + 1 < 2 ^ 32 =
        omega (arith, gaps_sum valid k p fits, base_fits valid (p + k) fits, pos) in
      let (docs_bytes, docs_ran, docs_us, docs_read) =
        block_code codec (gap docs) p k (sum gaps) s.result pos (omega arith) small (inl refl) in
      let (freqs_bytes, freqs_ran, freqs_us, freqs_read) =
        block_code codec (less_one freqs) p k unknown (s.result ++ docs_bytes) pos (omega arith)
          (valid.freqs_small p k fits) (inr refl) in
      let written =
        append-BlockWritten b out (docs_bytes ++ freqs_bytes) h room s
          (All-append IsU8 docs_bytes freqs_bytes docs_us freqs_us)
          (λ rest us long. record {
            freqs_ptr = freqs_bytes ++ rest;
            behind = rest;
            docs_eq = λ buf l. rw (append_assoc docs_bytes freqs_bytes rest) (
                docs_read (freqs_bytes ++ rest) buf (All-append IsU8 freqs_bytes rest freqs_us us)
                  (omega (arith, long, length-append freqs_bytes rest)) l);
            freqs_eq = λ buf l. freqs_read rest buf us long l;
          }) in
      rw
        (
          size_of_block_lem codec geometry b h,
          fill_block-front valid k p pos fits,
          s.ran,
          gaps_universe valid k p pos fits,
          docs_ran,
          freqs_ran,
        )
        (finish b (docs (p + k - 1)) ((docs (p + k - 1) + 1) % 2 ^ 32) out
          ((s.result ++ docs_bytes) ++ freqs_bytes) h room (sym end)
          (ap (λ (t : ℕ). (t + 1) % 2 ^ 32) (sym end) ∙ base_stored valid (p + k) fits)
          (rw (append_assoc s.result docs_bytes freqs_bytes) written))
