-- ===== src/BlockPostingList/Written.antt =====
-- What the loop of `write` leaves in the buffer.
use native.Mathlib.Nat.{suc-mul}
use ds2i.Base.{
  ℕ, zero, suc, ◌+◌, ◌-◌, ◌*◌, ◌%◌, ◌^◌, ◌≤◌, ◌<◌, ◌≡◌, inl, inr, ap, sym, ◌∙◌, refl, Bool-cases,
  some, List, [], ◌∷◌, ◌++◌, append_assoc, append-nil, length, length-append, drop, take, arith,
  All, All-append, IsU8, ◌==◌, true, false, if◌then◌else◌,
}
use ds2i.Codec.{Codec}
use ds2i.Memory.{load32, drop-append_early}
use ds2i.BlockPostingList.{Writing, write_loop}
use ds2i.BlockPostingList.Encoded.{Postings, size, Blocks, Coded, full_block}
use ds2i.BlockPostingList.Write.{endpoints, data_begin, state, BlockWritten, write_block-Round}

drop-all : (xs : List ℕ) → drop (length xs) xs ≡ []
drop-all [] = refl
drop-all (x ∷ xs) = drop-all xs

-- Where the blocks start, with the first of them put in front.
abbrev starts : ℕ → ℕ → (ℕ → ℕ) → ℕ → ℕ
starts b first old c = if c == b then first else old c

starts-here : (b first : ℕ) (old : ℕ → ℕ) → starts b first old b ≡ first
starts-here b first old = let e : (b == b) ≡ true = ground arith in rw e

starts-past : (b c first : ℕ) (old : ℕ → ℕ) → b < c → starts b first old c ≡ old c
starts-past b c first old h = let e : (c == b) ≡ false = ground arith in rw e

module _ (codec : Codec) {n universe : ℕ} {docs freqs : ℕ → ℕ}
    (valid : Postings n universe docs freqs) (blocks : ℕ) (geometry : Blocks codec n blocks)
    (maxs : ℕ) where
  open codec use {block_size, slack}

  abbrev ends : ℕ
  ends = endpoints codec valid blocks geometry maxs

  abbrev from : ℕ
  from = data_begin codec valid blocks geometry maxs

  -- What is in the buffer behind the blocks from `b` on, of which none is in `out`.
  pub record Written (b : ℕ) (out result : List ℕ) : Type 0 where
    pub tail : List ℕ
    pub tail-IsU8 : All IsU8 tail
    pub length_eq : length result ≡ length out + length tail
    pub early : take maxs result ≡ take maxs out
    pub are_bytes : All IsU8 out → All IsU8 result
    pub data_eq : (j : ℕ) → from ≤ j → j ≤ length out → drop j result ≡ drop j out ++ tail
    pub maxs_kept :
        (c : ℕ) → c < blocks → c < b → load32 result (maxs + 4 * c) ≡ load32 out (maxs + 4 * c)
    pub endpoints_kept :
        (c : ℕ) → c + 1 < blocks → c < b → load32 result (ends + 4 * c) ≡ load32 out (ends + 4 * c)
    pub start : ℕ → ℕ
    pub start_eq : from + start b ≡ length out
    pub endpoint_eq :
        length result - from < 2 ^ 32
        → (c : ℕ) → b ≤ c
        → c + 1 < blocks
        → load32 result (ends + 4 * c) ≡ some (start (suc c))
    pub max_eq :
        (c : ℕ)
        → b ≤ c
        → c < blocks
        → load32 result (maxs + 4 * c) ≡ some (docs (c * block_size + size codec n c - 1))
    pub coded :
        (rest : List ℕ)
        → All IsU8 rest
        → slack ≤ length rest
        → (c : ℕ) → b ≤ c
        → c < blocks
        → Coded codec docs freqs
            (c * block_size)
            (size codec n c)
            (drop (from + start c) (result ++ rest))

  none_left : (out : List ℕ) → from ≤ length out → Written blocks out out
  none_left out room = record {
    tail = [];
    tail-IsU8 = tt;
    length_eq = omega arith;
    early = refl;
    are_bytes = λ us. us;
    data_eq = λ j lo hi. sym (append-nil (drop j out));
    maxs_kept = λ c inside less. refl;
    endpoints_kept = λ c inside less. refl;
    start = λ c. length out - from;
    start_eq = omega arith;
    endpoint_eq = λ small c le less. absurd (omega (arith, le, less));
    max_eq = λ c le less. absurd (omega (arith, le, less));
    coded = λ rest us long c le less. absurd (omega (arith, le, less));
  }

  one_more :
      (b : ℕ) (out mid result : List ℕ)
      → b < blocks
      → from ≤ length out
      → BlockWritten codec valid blocks geometry maxs b out mid
      → (b + 1 < blocks → load32 mid (ends + 4 * b) ≡ some ((length mid - from) % 2 ^ 32))
      → Written (suc b) mid result
      → Written b out result
  one_more b out mid result inside room w endpoint r = record {
    tail = w.bytes ++ r.tail;
    tail-IsU8 = All-append IsU8 w.bytes r.tail w.bytes-IsU8 r.tail-IsU8;
    length_eq = omega (arith, w.length_eq, r.length_eq, length-append w.bytes r.tail);
    early = r.early ∙ w.early;
    are_bytes = λ us. r.are_bytes (w.are_bytes us);
    data_eq = λ j lo hi.
        r.data_eq j lo (omega (arith, hi, w.length_eq))
        ∙ ap (λ ys. ys ++ r.tail) (w.data_eq j lo hi)
        ∙ append_assoc (drop j out) w.bytes r.tail;
    maxs_kept = λ c in_table less.
        r.maxs_kept c in_table (omega (arith, less)) ∙ w.maxs_kept c in_table (omega (arith, less));
    endpoints_kept = λ c in_table less.
        r.endpoints_kept c in_table (omega (arith, less))
        ∙ w.endpoints_kept c in_table (omega (arith, less));
    start = starts b first r.start;
    start_eq = rw (starts-here b first r.start) (omega (arith, room));
    endpoint_eq = λ small c le in_table.
        rw (starts-past b (suc c) first r.start (omega (arith, le))) (elim (Bool-cases (c == b)) [
          | inl here ↦
              let e : c ≡ b = ground (arith, here) in
              let kept =
                r.endpoints_kept b (omega (arith, e, in_table)) (omega arith)
                ∙ endpoint (omega (arith, e, in_table)) in
              rw e (kept ∙ ap some (omega (arith, small, r.length_eq, r.start_eq)))
          | inr past ↦ r.endpoint_eq small c (ground (arith, past, le)) in_table
        ]);
    max_eq = λ c le in_table. elim (Bool-cases (c == b)) [
      | inl here ↦
          let e : c ≡ b = ground (arith, here) in
          rw e (r.maxs_kept b inside (omega arith) ∙ w.max_here)
      | inr past ↦ r.max_eq c (ground (arith, past, le)) in_table
    ];
    coded = λ rest us long c le in_table. elim (Bool-cases (c == b)) [
      | inl here ↦
          let e : c ≡ b = ground (arith, here) in
          rw (e, starts-here b first r.start, at_first rest)
            (w.coded (r.tail ++ rest) (All-append IsU8 r.tail rest r.tail-IsU8 us)
              (omega (arith, long, length-append r.tail rest)))
      | inr past ↦
          let less : b < c = ground (arith, past, le) in
          rw (starts-past b c first r.start less) (r.coded rest us long c less in_table)
    ];
  }
    where
      first : ℕ
      first = length out - from

      at_first :
          (rest : List ℕ) → drop (from + first) (result ++ rest) ≡ w.bytes ++ (r.tail ++ rest)
      at_first rest =
          let e : from + first ≡ length out = omega (arith, room) in
          rw e (
            drop-append_early result rest (length out) (omega (arith, r.length_eq, w.length_eq))
            ∙ ap (λ ys. ys ++ rest)
                (r.data_eq (length out) room (omega (arith, w.length_eq))
                  ∙ ap (λ ys. ys ++ r.tail)
                      (w.data_eq (length out) room (omega arith)
                        ∙ ap (λ ys. ys ++ w.bytes) (drop-all out)))
            ∙ append_assoc w.bytes r.tail rest)

  -- The loop over the blocks from `b` on ends well.
  pub write_loop-Written :
      (rounds b p : ℕ) (out : List ℕ)
      → b + rounds ≡ blocks
      → (b < blocks → p ≡ b * block_size)
      → from ≤ length out
      → (w : Writing) × (write_loop codec rounds n blocks maxs ends from b
            (state codec valid blocks geometry maxs p out)
          ≡ some w)
        × Written b out w.out
  unfolding write_loop
  write_loop-Written zero b p out rounds_eq p_eq room =
      let e : b ≡ blocks = omega (arith, rounds_eq) in
      (state codec valid blocks geometry maxs p out, refl, rw e (none_left out room))
  write_loop-Written (suc rounds) b p out rounds_eq p_eq room =
      let inside : b < blocks = omega (arith, rounds_eq) in
      let here = p_eq inside in
      let record { out' = mid; ran = ran; written = w; endpoint_here = endpoint } =
        write_block-Round codec valid blocks geometry maxs b out inside room in
      let k = size codec n b in
      let next : b + 1 < blocks → b * block_size + k ≡ suc b * block_size =
        λ more. omega (arith, full_block codec geometry b more, suc-mul b block_size) in
      let (result, rest_ran, written) =
        write_loop-Written rounds (suc b) (b * block_size + k) mid (omega (arith, rounds_eq))
          (λ more. next (omega (arith, more))) (omega (arith, w.length_eq, room)) in
      (
        result,
        ap
              (λ (q : ℕ).
                write_loop codec (suc rounds) n blocks maxs ends from b
                  (state codec valid blocks geometry maxs q out))
              here
            ∙ rw ran rest_ran,
        one_more b out mid result.out inside room w endpoint written,
      )
