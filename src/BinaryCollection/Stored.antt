-- ===== src/BinaryCollection/Stored.antt =====
-- What the iterators read of the files that hold given sequences.
use ds2i.Base.{
  ℕ, zero, suc, ◌+◌, ◌-◌, ◌*◌, ◌≤◌, ◌≡◌, min, ap, sym, ◌∙◌, refl, true, false, Option, none, some,
  List, [], ◌∷◌, ◌++◌, map, append_assoc, append-nil, ◌==◌, ◌>>=◌, length, length-append, take,
  drop, replicate, length-replicate, arith,
}
use ds2i.Memory.{drop-append, take-append_early}
use ds2i.BinaryCollection.{
  Iterator, skip_empty, read, iterator, begin, is_end, increment, loop, sequences,
}

-- A sequence that is not empty behind `zeros` empty ones, first with the word that gives its length.
pub record Entry : Type 0 where
  pub zeros : ℕ
  pub head : ℕ
  pub tail : List ℕ

abbrev pub values : Entry → List ℕ
values s = s.head ∷ s.tail

abbrev pub entry : Entry → List ℕ
entry s = replicate s.zeros 0 ++ (length (values s) ∷ values s)

abbrev pub stored : List Entry → List ℕ
stored [] = []
stored (s ∷ ss) = entry s ++ stored ss

skip_empty-zeros :
    (k n pos : ℕ) (rest : List ℕ)
    → skip_empty (replicate k 0 ++ (suc n ∷ rest)) pos ≡ some (suc n, pos + k + 1)
unfolding skip_empty
skip_empty-zeros zero n pos rest = ap (λ (t : ℕ). some (suc n, t)) (omega arith)
skip_empty-zeros (suc k) n pos rest =
    skip_empty-zeros k n (pos + 1) rest ∙ ap (λ (t : ℕ). some (suc n, t)) (omega arith)

skip_empty-none : (k pos : ℕ) → skip_empty (replicate k 0) pos ≡ none
unfolding skip_empty
skip_empty-none zero pos = refl
skip_empty-none (suc k) pos = skip_empty-none k (pos + 1)

-- An iterator in front of the words `rest` behind the words `front`.
abbrev pub before : List ℕ → List ℕ → ℕ → List ℕ → Iterator
before front rest next_pos cur = record {
  data_words = front ++ rest;
  pos = length front;
  next_pos = next_pos;
  cur_seq = cur;
}

-- The sequence read has the values in the file, though its length may say more.
read-cut :
    (front xs behind : List ℕ) (k n next_pos : ℕ) (cur : List ℕ)
    → min (suc n) (length (xs ++ behind)) ≡ length xs
    → read (before front (replicate k 0 ++ (suc n ∷ (xs ++ behind))) next_pos cur)
      ≡ some (
          before front
            (replicate k 0 ++ (suc n ∷ (xs ++ behind)))
            (length front + k + 1 + length xs)
            xs)
unfolding read
read-cut front xs behind k n next_pos cur cut =
    let zs : List ℕ = replicate k 0 in
    let rest : List ℕ = suc n ∷ (xs ++ behind) in
    let words : List ℕ = front ++ (zs ++ rest) in
    let pos = length front + k + 1 in
    let l : length words ≡ pos + length (xs ++ behind) = omega (
      arith,
      length-append front (zs ++ rest),
      length-append zs rest,
      length-replicate {A = ℕ} k 0,
    ) in
    let within : (length front == length words) ≡ false = ground (arith, l) in
    let at : drop (length front) words ≡ zs ++ rest =
      ap (λ (t : ℕ). drop t words) (omega arith) ∙ drop-append front (zs ++ rest) 0 in
    let left : min (suc n) (length words - pos) ≡ length xs =
      ap (min (suc n)) (omega (arith, l)) ∙ cut in
    let behind_front : drop pos words ≡ xs ++ behind =
      ap (λ (t : ℕ). drop t words) (omega arith)
      ∙ drop-append front (zs ++ rest) (k + 1)
      ∙ ap (λ (t : ℕ). drop t (zs ++ rest)) (omega (arith, length-replicate {A = ℕ} k 0))
      ∙ drop-append zs rest 1 in
    let taken : take (length xs) (xs ++ behind) ≡ xs =
      take-append_early xs behind (length xs) (omega arith) ∙ take-length xs in
    rw (within, at, skip_empty-zeros k n (length front) (xs ++ behind), left, behind_front, taken)
      refl
  where
    take-length : (xs : List ℕ) → take (length xs) xs ≡ xs
    take-length [] = refl
    take-length (x ∷ xs) = ap (◌∷◌ x) (take-length xs)

bind_assoc :
    {A B C : Type 0} (m : Option A) (f : A → Option B) (g : B → Option C)
    → ((m >>= f) >>= g) ≡ (m >>= (λ a. f a >>= g))
bind_assoc none f g = refl
bind_assoc (some a) f g = refl

bind_some : {A : Type 0} (m : Option A) → (m >>= some) ≡ m
bind_some none = refl
bind_some (some a) = refl

abbrev loop_from : ℕ → Iterator → Option (List (List ℕ))
loop_from fuel it = read it >>= loop fuel

-- The iterator that has read an entry.
abbrev pub at_entry : List ℕ → Entry → List ℕ → Iterator
at_entry front s rest = before front (entry s ++ rest) (length (front ++ entry s)) (values s)

pub read-entry :
    (front rest : List ℕ) (s : Entry) (next_pos : ℕ) (cur : List ℕ)
    → read (before front (entry s ++ rest) next_pos cur) ≡ some (at_entry front s rest)
read-entry front rest s next_pos cur =
    let xs = values s in
    let regroup : entry s ++ rest ≡ replicate s.zeros 0 ++ (length xs ∷ (xs ++ rest)) =
      append_assoc (replicate s.zeros 0) (length xs ∷ xs) rest in
    let ran =
      read-cut front xs rest s.zeros (length s.tail) next_pos cur
        (omega (arith, length-append xs rest)) in
    let len : length (front ++ entry s) ≡ length front + s.zeros + 1 + length xs = omega (
      arith,
      length-append front (entry s),
      length-append (replicate s.zeros 0) (length xs ∷ xs),
      length-replicate {A = ℕ} s.zeros 0,
    ) in
    rw (regroup, len) ran

pub increment-entry :
    (front rest : List ℕ) (s : Entry)
    → increment (at_entry front s rest)
      ≡ read (before (front ++ entry s) rest (length (front ++ entry s)) (values s))
unfolding increment
increment-entry front rest s =
    ap
      (λ words. read (record {
        data_words = words;
        pos = length (front ++ entry s);
        next_pos = length (front ++ entry s);
        cur_seq = values s;
      }))
      (sym (append_assoc front (entry s) rest))

pub is_end-entry : (front rest : List ℕ) (s : Entry) → is_end (at_entry front s rest) ≡ false
unfolding is_end
is_end-entry front rest s = ground (
  arith,
  length-append front (entry s ++ rest),
  length-append (entry s) rest,
  length-append (replicate s.zeros 0) (length (values s) ∷ values s),
)

loop_from-entry :
    (fuel : ℕ) (front rest : List ℕ) (s : Entry) (next_pos : ℕ) (cur : List ℕ)
    → loop_from (suc fuel) (before front (entry s ++ rest) next_pos cur) ≡ (
        loop_from fuel (before (front ++ entry s) rest (length (front ++ entry s)) (values s))
        >>= (λ seqs. some (values s ∷ seqs)))
unfolding loop
loop_from-entry fuel front rest s next_pos cur =
    rw
      (
        read-entry front rest s next_pos cur,
        is_end-entry front rest s,
        increment-entry front rest s,
      )
      (sym (
        bind_assoc (read (before (front ++ entry s) rest (length (front ++ entry s)) (values s)))
          (loop fuel) (λ seqs. some (values s ∷ seqs))))

loop_from-stored :
    (ss : List Entry) (fuel : ℕ) (front tail : List ℕ) (next_pos : ℕ) (cur : List ℕ)
    (result : Option (List (List ℕ)))
    → ((front : List ℕ) (next_pos : ℕ) (cur : List ℕ)
        → loop_from fuel (before front tail next_pos cur) ≡ result)
    → loop_from (length ss + fuel) (before front (stored ss ++ tail) next_pos cur)
      ≡ (result >>= (λ seqs. some (map values ss ++ seqs)))
loop_from-stored [] fuel front tail next_pos cur result at_tail =
    let e : 0 + fuel ≡ fuel = omega arith in
    rw e (at_tail front next_pos cur ∙ sym (bind_some result))
loop_from-stored (s ∷ ss) fuel front tail next_pos cur result at_tail =
    let e : suc (length ss) + fuel ≡ suc (length ss + fuel) = omega arith in
    rw (e, append_assoc (entry s) (stored ss) tail)
      (loop_from-entry (length ss + fuel) front (stored ss ++ tail) s next_pos cur
        ∙ ap (λ m. m >>= (λ seqs. some (values s ∷ seqs)))
            (loop_from-stored ss fuel (front ++ entry s) tail (length (front ++ entry s)) (values s)
              result at_tail)
        ∙ bind_assoc result (λ seqs. some (map values ss ++ seqs)) (λ seqs. some (values s ∷ seqs)))

loop_from-end :
    (fuel : ℕ) (front : List ℕ) (next_pos : ℕ) (cur : List ℕ)
    → loop_from (suc fuel) (before front [] next_pos cur) ≡ some []
unfolding read loop is_end
loop_from-end fuel front next_pos cur =
    let at_end : (length front == length (front ++ [])) ≡ true =
      ground (arith, length-append front []) in
    rw (at_end, at_end) refl

loop_from-trailing :
    (k fuel : ℕ) (front : List ℕ) (next_pos : ℕ) (cur : List ℕ)
    → loop_from fuel (before front (replicate (suc k) 0) next_pos cur) ≡ none
unfolding read
loop_from-trailing k fuel front next_pos cur =
    let zs : List ℕ = replicate (suc k) 0 in
    let within : (length front == length (front ++ zs)) ≡ false =
      ground (arith, length-append front zs) in
    let at : drop (length front) (front ++ zs) ≡ zs =
      ap (λ (t : ℕ). drop t (front ++ zs)) (omega arith) ∙ drop-append front zs 0 in
    rw (within, at, skip_empty-none (suc k) (length front)) refl

read-end :
    (words : List ℕ) (next_pos : ℕ) (cur : List ℕ)
    → read (record { data_words = words; pos = length words; next_pos = next_pos; cur_seq = cur })
      ≡ some (record { data_words = words; pos = length words; next_pos = next_pos; cur_seq = cur })
unfolding read
read-end words next_pos cur =
    let at_end : (length words == length words) ≡ true = ground arith in rw at_end refl

loop_from-cut :
    (n fuel : ℕ) (xs front : List ℕ) (next_pos : ℕ) (cur : List ℕ)
    → length xs ≤ suc n
    → loop_from (suc (suc fuel)) (before front (suc n ∷ xs) next_pos cur) ≡ some (xs ∷ [])
unfolding loop is_end increment
loop_from-cut n fuel xs front next_pos cur short =
    let whole : xs ++ [] ≡ xs = append-nil xs in
    let ran =
      rw whole at
        (read-cut front xs [] 0 n next_pos cur (omega (arith, length-append xs [], short))) in
    let words : List ℕ = front ++ (suc n ∷ xs) in
    let l : length words ≡ length front + 1 + length xs =
      omega (arith, length-append front (suc n ∷ xs)) in
    let e : length front + 0 + 1 + length xs ≡ length words = omega (arith, l) in
    let within : (length front == length words) ≡ false = ground (arith, l) in
    let at_end : (length words == length words) ≡ true = ground arith in
    rw (ran, within, e, read-end words (length words) xs, at_end) refl

pub stored_size : (ss : List Entry) → 2 * length ss ≤ length (stored ss)
stored_size [] = omega arith
stored_size (s ∷ ss) = omega (
  arith,
  stored_size ss,
  length-append (entry s) (stored ss),
  length-append (replicate s.zeros 0) (length (values s) ∷ values s),
)

from_begin :
    (ss : List Entry) (tail : List ℕ) (fuel : ℕ) (result : Option (List (List ℕ)))
    → length (stored ss ++ tail) + 1 ≡ length ss + fuel
    → ((front : List ℕ) (next_pos : ℕ) (cur : List ℕ)
        → loop_from fuel (before front tail next_pos cur) ≡ result)
    → sequences (stored ss ++ tail) ≡ (result >>= (λ seqs. some (map values ss ++ seqs)))
unfolding sequences begin iterator
from_begin ss tail fuel result e at_tail =
    rw e (loop_from-stored ss fuel [] tail 0 [] result at_tail)

-- The words of any sequences that are not empty, with any number of empty ones before each, are
-- read as these sequences, in order, without the empty ones.
pub sequences-stored : (ss : List Entry) → sequences (stored ss) ≡ some (map values ss)
sequences-stored ss =
    let fuel = length (stored ss) - length ss in
    let big = stored_size ss in
    let whole : stored ss ++ [] ≡ stored ss = append-nil (stored ss) in
    rw whole at
      (from_begin ss [] (suc fuel) (some []) (rw whole (omega (arith, big))) (loop_from-end fuel))
    ∙ ap some (append-nil (map values ss))

-- A file that ends before the last sequence does, whose length is `n + 1` and of which only `xs` is
-- there, is read with what is left of that sequence, which may be nothing.
pub sequences-cut :
    (ss : List Entry) (n : ℕ) (xs : List ℕ)
    → length xs ≤ suc n
    → sequences (stored ss ++ (suc n ∷ xs)) ≡ some (map values ss ++ (xs ∷ []))
sequences-cut ss n xs short =
    let fuel = length (stored ss) + length xs - length ss in
    from_begin ss (suc n ∷ xs) (suc (suc fuel)) (some (xs ∷ []))
      (omega (arith, stored_size ss, length-append (stored ss) (suc n ∷ xs)))
      (λ front next_pos cur. loop_from-cut n fuel xs front next_pos cur short)

-- With one empty sequence or more behind the last that is not empty, the iterator reads behind the
-- end of the file.
pub sequences-trailing :
    (ss : List Entry) (k : ℕ) → sequences (stored ss ++ replicate (suc k) 0) ≡ none
sequences-trailing ss k =
    let fuel = length (stored ss) + suc k + 1 - length ss in
    from_begin ss (replicate (suc k) 0) fuel none
      (omega (
        arith,
        stored_size ss,
        length-append (stored ss) (replicate (suc k) 0),
        length-replicate {A = ℕ} (suc k) 0,
      ))
      (loop_from-trailing k fuel)
