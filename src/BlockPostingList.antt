-- ===== src/BlockPostingList.antt =====
-- block_posting_list.hpp: the postings of a term in blocks, written with a table of the last
-- document and one of the end of each block, and the enumerator that reads them.
-- A pointer into the index is the list of the bytes from it on.
pub mod Encoded
pub mod Enumerate
pub mod Moves
pub mod Scan
pub mod Search
pub mod Fill
pub mod Write
pub mod Written
pub mod RoundTrip
pub mod Freqs
pub mod Cursor
mod Tests
use ds2i.Base.{
  ℕ, zero, suc, ◌+◌, ◌-◌, ◌*◌, ◌/◌, ◌%◌, ◌^◌, Bool, true, false, Option, none, some, List, [], ◌∷◌,
  ◌++◌, ltb, leb, ◌||◌, ◌==◌, if◌then◌else◌, ◌>>=◌, length, get_elem?, get_or, set, take, drop,
  replicate,
}
use ds2i.Succinct.{Util}
use ds2i.Varbyte
use ds2i.Interpolative.{sub32}
use ds2i.BlockCodec.{unknown}
use ds2i.Codec.{Codec}
use ds2i.Memory.{load32, store32}

-- The buffers of a block, and where `last_doc` and the iterators stand behind it.
pub record Filled : Type 0 where
  pub docs_buf : List ℕ
  pub freqs_buf : List ℕ
  pub last_doc : ℕ
  pub docs_it : List ℕ
  pub freqs_it : List ℕ

-- The loop over the postings of a block.
pub fill_block : ℕ → ℕ → List ℕ → List ℕ → Option Filled
fill_block zero last_doc docs freqs = some (record {
  docs_buf = [];
  freqs_buf = [];
  last_doc = last_doc;
  docs_it = docs;
  freqs_it = freqs;
})
fill_block (suc k) last_doc (doc ∷ docs) (freq ∷ freqs) = do
  rest ← fill_block k doc docs freqs
  some (record rest {
    docs_buf = sub32 (sub32 doc last_doc) 1 ∷ rest.docs_buf;
    freqs_buf = sub32 freq 1 ∷ rest.freqs_buf;
  })
fill_block (suc k) last_doc _ _ = none

-- What the loop over the blocks changes.
pub record Writing : Type 0 where
  pub out : List ℕ
  pub docs_it : List ℕ
  pub freqs_it : List ℕ
  pub last_doc : ℕ
  pub block_base : ℕ

pub record DocumentEnumerator : Type 0 where
  pub n : ℕ
  pub blocks : ℕ
  pub block_maxs : List ℕ
  pub block_endpoints : List ℕ
  pub blocks_data : List ℕ
  pub universe : ℕ
  pub cur_block : ℕ
  pub pos_in_block : ℕ
  pub cur_block_max : ℕ
  pub cur_block_size : ℕ
  pub cur_docid : ℕ
  pub freqs_block_data : List ℕ
  pub freqs_decoded : Bool
  pub docs_buf : List ℕ
  pub freqs_buf : List ℕ

module _ (codec : Codec) where
  open codec use {block_size, encode, decode}

  -- `((b + 1) * block_size <= n) ? block_size : (n % block_size)`
  pub size_of_block : ℕ → ℕ → ℕ
  size_of_block n b = if leb ((b + 1) * block_size) n then block_size else n % block_size

  -- The body of the loop over the blocks.
  pub write_block : ℕ → ℕ → ℕ → ℕ → ℕ → ℕ → Writing → Option Writing
  write_block n blocks begin_block_maxs begin_block_endpoints begin_blocks b w = do
    let size = size_of_block n b
    filled ← fill_block size w.last_doc w.docs_it w.freqs_it
    out₁ ← store32 w.out (begin_block_maxs + 4 * b) filled.last_doc
    out₂ ← encode filled.docs_buf (sub32 (sub32 filled.last_doc w.block_base) (sub32 size 1)) out₁
    out₃ ← encode filled.freqs_buf unknown out₂
    out₄ ←
        if b == blocks - 1
        then some out₃
        else store32 out₃ (begin_block_endpoints + 4 * b) ((length out₃ - begin_blocks) % 2 ^ 32)
    some (record {
      out = out₄;
      docs_it = filled.docs_it;
      freqs_it = filled.freqs_it;
      last_doc = filled.last_doc;
      block_base = (filled.last_doc + 1) % 2 ^ 32;
    })

  -- The loop over the blocks, from `b` on.
  pub write_loop : ℕ → ℕ → ℕ → ℕ → ℕ → ℕ → ℕ → Writing → Option Writing
  write_loop zero n blocks maxs endpoints data_begin b w = some w
  write_loop (suc rounds) n blocks maxs endpoints data_begin b w = do
    w' ← write_block n blocks maxs endpoints data_begin b w
    write_loop rounds n blocks maxs endpoints data_begin (suc b) w'

  module _ (util : Util) where
    open util use {ceil_div}

    -- The tables of a list with no posting would have a size below zero; the builder of the
    -- index refuses it, and here it gives `none`.
    pub write : List ℕ → ℕ → List ℕ → List ℕ → Option (List ℕ)
    write out zero docs freqs = none
    write out (suc m) docs freqs =
        let n = suc m in
        let out' = Varbyte.encode_single n out in
        let blocks = ceil_div n block_size in
        let begin_block_maxs = length out' in
        let begin_block_endpoints = begin_block_maxs + 4 * blocks in
        let begin_blocks = begin_block_endpoints + 4 * (blocks - 1) in
        let resized = out' ++ replicate (begin_blocks - length out') 0 in
        do
          w ←
              write_loop blocks n blocks begin_block_maxs begin_block_endpoints begin_blocks 0
                (record {
                  out = resized;
                  docs_it = docs;
                  freqs_it = freqs;
                  last_doc = 2 ^ 32 - 1;
                  block_base = 0;
                })
          some w.out

  -- `((uint32_t const*)m_block_maxs)[block]`
  pub block_max : DocumentEnumerator → ℕ → Option ℕ
  block_max e block = load32 e.block_maxs (4 * block)

  -- `decode` is given the part of the buffer that it fills.
  pub decode_docs_block : ℕ → DocumentEnumerator → Option DocumentEnumerator
  decode_docs_block block e = do
    endpoint ← if block == 0 then some 0 else load32 e.block_endpoints (4 * (block - 1))
    let size = size_of_block e.n block
    last ← if block == 0 then some (2 ^ 32 - 1) else block_max e (block - 1)
    let cur_base = (last + 1) % 2 ^ 32
    cur_max ← block_max e block
    (gaps, freqs_data) ←
        decode (drop endpoint e.blocks_data) (take size e.docs_buf)
          (sub32 (sub32 cur_max cur_base) (sub32 size 1)) size
    let first_doc = (get_or gaps 0 0 + cur_base) % 2 ^ 32
    some (record e {
      cur_block_size = size;
      cur_block_max = cur_max;
      freqs_block_data = freqs_data;
      docs_buf = set (gaps ++ drop size e.docs_buf) 0 first_doc;
      cur_block = block;
      pos_in_block = 0;
      cur_docid = first_doc;
      freqs_decoded = false;
    })

  pub decode_freqs_block : DocumentEnumerator → Option DocumentEnumerator
  decode_freqs_block e = do
    (freqs, next_block) ←
        decode e.freqs_block_data (take e.cur_block_size e.freqs_buf) unknown e.cur_block_size
    some (record e { freqs_buf = freqs ++ drop e.cur_block_size e.freqs_buf; freqs_decoded = true })

  pub reset : DocumentEnumerator → Option DocumentEnumerator
  reset e = decode_docs_block 0 e

  -- The constructor.
  pub document_enumerator : Util → List ℕ → ℕ → Option DocumentEnumerator
  document_enumerator util bytes universe = do
    (vals, base) ← Varbyte.decode bytes 1
    n ← get_elem? vals 0
    let blocks = util.ceil_div n block_size
    let endpoints = drop (4 * blocks) base
    reset (record {
      n = n;
      blocks = blocks;
      block_maxs = base;
      block_endpoints = endpoints;
      blocks_data = drop (4 * (blocks - 1)) endpoints;
      universe = universe;
      cur_block = 0;
      pos_in_block = 0;
      cur_block_max = 0;
      cur_block_size = 0;
      cur_docid = 0;
      freqs_block_data = [];
      freqs_decoded = false;
      docs_buf = replicate block_size 0;
      freqs_buf = replicate block_size 0;
    })

  -- `m_cur_docid += m_docs_buf[++m_pos_in_block] + 1;`
  pub advance : DocumentEnumerator → Option DocumentEnumerator
  advance e = do
    let pos = e.pos_in_block + 1
    gap ← get_elem? e.docs_buf pos
    some (record e { pos_in_block = pos; cur_docid = (e.cur_docid + gap + 1) % 2 ^ 32 })

  pub next : DocumentEnumerator → Option DocumentEnumerator
  next e =
      let pos = e.pos_in_block + 1 in
      if pos == e.cur_block_size
      then (if e.cur_block + 1 == e.blocks
          then some (record e { pos_in_block = pos; cur_docid = e.universe % 2 ^ 32 })
          else decode_docs_block (e.cur_block + 1) e)
      else advance e

  -- `while (block_max(block) < lower_bound) ++block;`
  pub skip_blocks : ℕ → ℕ → ℕ → DocumentEnumerator → Option ℕ
  skip_blocks zero lower_bound block e = none
  skip_blocks (suc fuel) lower_bound block e =
      let more = skip_blocks fuel lower_bound (suc block) e in
      do last ← block_max e block; if ltb last lower_bound then more else some block

  -- `while (docid() < lower_bound)`
  pub scan : ℕ → ℕ → DocumentEnumerator → Option DocumentEnumerator
  scan zero lower_bound e = none
  scan (suc fuel) lower_bound e =
      let more = (do e' ← advance e; scan fuel lower_bound e') in
      if ltb e.cur_docid lower_bound then more else some e

  -- The block is searched from the next on, and then the document in it.
  pub leap : ℕ → DocumentEnumerator → Option DocumentEnumerator
  leap lower_bound e = do
    block ← skip_blocks e.blocks lower_bound (e.cur_block + 1) e
    e' ← decode_docs_block block e
    scan block_size lower_bound e'

  pub position : DocumentEnumerator → ℕ
  position e = e.cur_block * block_size + e.pos_in_block

  -- `none` is also the assertion on a bound behind the document, but at position 0.
  pub next_geq : ℕ → DocumentEnumerator → Option DocumentEnumerator
  next_geq lower_bound e =
      let past_end = some (record e { cur_docid = e.universe % 2 ^ 32 }) in
      let later = (do
        last ← block_max e (e.blocks - 1)
        if ltb last lower_bound then past_end else leap lower_bound e) in
      let asserted =
        if ltb e.cur_block_max lower_bound then later else scan block_size lower_bound e in
      if leb e.cur_docid lower_bound || (position e == 0) then asserted else none

  -- `while (position() < pos)`
  pub walk : ℕ → ℕ → DocumentEnumerator → Option DocumentEnumerator
  walk zero pos e = none
  walk (suc fuel) pos e =
      let more = (do e' ← advance e; walk fuel pos e') in
      if ltb (position e) pos then more else some e

  pub move : ℕ → DocumentEnumerator → Option DocumentEnumerator
  move pos e = do
    let block = pos / block_size
    e' ← if block == e.cur_block then some e else decode_docs_block block e
    walk block_size pos e'

  -- The enumerator, whose frequencies may be decoded now, and the frequency.
  pub freq : DocumentEnumerator → Option (DocumentEnumerator × ℕ)
  freq e = do
    e' ← if e.freqs_decoded then some e else decode_freqs_block e
    f ← get_elem? e'.freqs_buf e'.pos_in_block
    some (e', (f + 1) % 2 ^ 32)
