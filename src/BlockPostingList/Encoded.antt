-- ===== src/BlockPostingList/Encoded.antt =====
-- What the bytes of a posting list say, block by block, and where its documents and frequencies
-- stand: the document at position `p` is `docs p`, and its frequency `freqs p`.
use ds2i.Base.{
  ℕ, zero, suc, ◌+◌, ◌-◌, ◌*◌, ◌%◌, ◌^◌, ◌≤◌, ◌<◌, ◌≡◌, ap, ◌∙◌, some, List, length, drop, tabulate,
  min, arith, leb, leb→le, Bool-cases, inl, inr,
}
use native.Mathlib.Nat.{suc-mul, mul_comm, mul-le-mul_right, mod-eq_of_lt, add-mul-mod_self_left}
use ds2i.Interpolative.{sub32}
use ds2i.Codec.{Codec}
use ds2i.BlockCodec.{unknown}
use ds2i.BlockCodec.Sums.{sum}
use ds2i.Memory.{load32}
use ds2i.BlockPostingList.{size_of_block}

-- The least document that may stand at a position, and what is stored for the one that does.
abbrev pub base : (ℕ → ℕ) → ℕ → ℕ
base docs zero = 0
base docs (suc p) = docs p + 1

abbrev pub gap : (ℕ → ℕ) → ℕ → ℕ
gap docs p = docs p - base docs p

abbrev pub less_one : (ℕ → ℕ) → ℕ → ℕ
less_one freqs p = freqs p - 1

-- Documents that increase strictly and stay below the universe, and frequencies from 1 on.
pub record Postings (n universe : ℕ) (docs freqs : ℕ → ℕ) : Type 0 where
  pub n_small : n < 2 ^ 32
  pub n_pos : 0 < n
  pub universe_small : universe < 2 ^ 32
  pub increases : (p : ℕ) → p < n → base docs p ≤ docs p
  pub inside : (p : ℕ) → p < n → docs p < universe
  pub freqs_pos : (p : ℕ) → p < n → 0 < freqs p
  pub freqs_small : (p k : ℕ) → p + k ≤ n → sum (tabulate (less_one freqs) p k) + 1 < 2 ^ 32

module _ (codec : Codec) where
  open codec use {block_size, decode, block_size_pos}

  -- The number of postings in a block.
  abbrev pub size : ℕ → ℕ → ℕ
  size n b = min block_size (n - b * block_size)

  -- As many blocks as the postings need.
  pub record Blocks (n blocks : ℕ) : Type 0 where
    pub reach : n ≤ blocks * block_size
    pub needed : blocks * block_size < n + block_size

  -- The two codes of a block, one behind the other.
  pub record Coded (docs freqs : ℕ → ℕ) (p k : ℕ) (ptr : List ℕ) : Type 0 where
    pub freqs_ptr : List ℕ
    pub behind : List ℕ
    pub docs_eq :
        (buf : List ℕ)
        → length buf ≡ k
        → decode ptr buf (sum (tabulate (gap docs) p k)) k
          ≡ some (tabulate (gap docs) p k, freqs_ptr)
    pub freqs_eq :
        (buf : List ℕ)
        → length buf ≡ k
        → decode freqs_ptr buf unknown k ≡ some (tabulate (less_one freqs) p k, behind)

  pub record Encoded (n blocks : ℕ) (docs freqs : ℕ → ℕ) (maxs endpoints blocks_data : List ℕ)
      : Type 0 where
    pub blocks_eq : Blocks n blocks
    pub start : ℕ → ℕ
    pub start_zero : start 0 ≡ 0
    pub endpoint_eq : (b : ℕ) → b + 1 < blocks → load32 endpoints (4 * b) ≡ some (start (suc b))
    pub max_eq :
        (b : ℕ) → b < blocks → load32 maxs (4 * b) ≡ some (docs (b * block_size + size n b - 1))
    pub coded :
        (b : ℕ)
        → b < blocks
        → Coded docs freqs (b * block_size) (size n b) (drop (start b) blocks_data)

  module _ {n blocks : ℕ} (geometry : Blocks n blocks) where
    next_start : (b : ℕ) → suc b * block_size ≡ b * block_size + block_size
    next_start b = suc-mul b block_size

    -- A block ends where the next begins, or with the postings.
    pub full_block : (b : ℕ) → b + 1 < blocks → size n b ≡ block_size
    full_block b h =
        let up : suc (suc b) * block_size ≤ blocks * block_size =
          mul-le-mul_right block_size (omega arith) in
        omega (arith, up, next_start b, next_start (suc b), geometry.needed)

    pub block_end : (b : ℕ) → b < blocks → (0 < size n b) × (b * block_size + size n b ≤ n)
    block_end b h =
        let up : suc b * block_size ≤ blocks * block_size = mul-le-mul_right block_size h in
        omega (arith, up, next_start b, geometry.needed, block_size_pos)

    pub last_block : (b : ℕ) → b + 1 ≡ blocks → b * block_size + size n b ≡ n
    last_block b h =
        let whole : suc b * block_size ≡ blocks * block_size =
          ap (λ (t : ℕ). t * block_size) (omega arith) in
        omega (arith, whole, next_start b, block_end b (omega arith), geometry.reach)

    pub size_of_block_lem : (b : ℕ) → b < blocks → size_of_block codec n b ≡ size n b
    unfolding size_of_block
    size_of_block_lem b h =
        let plus : (b + 1) * block_size ≡ b * block_size + block_size =
          ap (λ (t : ℕ). t * block_size) (omega arith) ∙ next_start b in
        elim (Bool-cases (leb ((b + 1) * block_size) n)) [
          | inl room ↦ rw room (omega (arith, plus, leb→le _ _ room))
          | inr over ↦ rw over (rest plus (ground (arith, over)))
        ]
      where
        rest :
            (b + 1) * block_size ≡ b * block_size + block_size
            → n < (b + 1) * block_size
            → n % block_size ≡ size n b
        rest plus over =
            let (pos, fits) = block_end b h in
            let whole : n ≡ (n - b * block_size) + block_size * b =
              omega (arith, fits, mul_comm b block_size) in
            ap (λ (t : ℕ). t % block_size) whole
            ∙ add-mul-mod_self_left (n - b * block_size) block_size b
            ∙ mod-eq_of_lt (omega (arith, plus, over, block_size_pos))
            ∙ omega (arith, plus, over)

module _ {n universe : ℕ} {docs freqs : ℕ → ℕ} (valid : Postings n universe docs freqs) where
  -- The gaps of a block add up to the way from its base to the base behind it.
  pub gaps_sum :
      (k p : ℕ) → p + k ≤ n → base docs p + sum (tabulate (gap docs) p k) + k ≡ base docs (p + k)
  gaps_sum zero p h = let e : p + 0 ≡ p = omega arith in rw e (omega arith)
  gaps_sum (suc k) p h =
      let e : p + suc k ≡ suc p + k = omega arith in
      rw e (omega (arith, gaps_sum k (suc p) (omega arith), valid.increases p (omega arith)))

  pub base_behind : (k p : ℕ) → 0 < k → base docs (p + k) ≡ docs (p + k - 1) + 1
  base_behind k p h = let e : p + k ≡ suc (p + k - 1) = omega arith in ap (base docs) e

  -- The second argument of the code of a block's documents.
  pub gaps_universe :
      (k p : ℕ)
      → 0 < k
      → p + k ≤ n
      → sub32 (sub32 (docs (p + k - 1)) (base docs p)) (sub32 k 1) ≡ sum (tabulate (gap docs) p k)
  gaps_universe k p pos h = omega (
    arith,
    gaps_sum k p h,
    base_behind k p pos,
    valid.inside (p + k - 1) (omega arith),
    valid.universe_small,
    valid.n_small,
  )

  pub base_fits : (p : ℕ) → p ≤ n → base docs p < 2 ^ 32
  base_fits zero h = omega arith
  base_fits (suc p) h = omega (arith, valid.inside p h, valid.universe_small)
