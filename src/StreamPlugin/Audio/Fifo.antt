-- ===== src/StreamPlugin/Audio/Fifo.antt =====
-- The audio ring of wiiu/stream-plugin/src/audio.cpp is a bounded FIFO.
use wii_sec_u.Base.{
  ℕ, zero, suc, ◌+◌, ◌-◌, ◌%◌, ◌^◌, ◌≤◌, ◌<◌, ◌≡◌, refl, ap, ◌∙◌, List, [], ◌∷◌, ◌++◌, length,
  get_or, set, take, map, ltb, arith, min, take-length, take_all, length-set, get_or-set_self,
  get_or-set_ne, length-take, inl, inr, Bool-cases, tests,
}
use mathlib.Core.List.{append-nil, append_assoc}
use wii_sec_u.Base.Int.{ℤ, pos, negsuc}
use wii_sec_u.Base.Word.{sub32, add32}
use wii_sec_u.StreamPlugin.Audio.{
  Ring, Pair, ring_pairs, clamp_sample, clamp_pair, write_pairs, mix, read_pairs, audio_read,
}

-- The array has its size, the indices are 32 bits wide and no more than the size apart.
pub record IsRing (r : Ring) : Type 0 where
  pub size : length r.cells ≡ ring_pairs
  pub head_fits : r.head < 2 ^ 32
  pub tail_fits : r.tail < 2 ^ 32
  pub bounded : sub32 r.head r.tail ≤ ring_pairs

-- What is in the ring, oldest first.
abbrev pub contents : Ring → List Pair
contents r = read_pairs r.cells r.tail (sub32 r.head r.tail)

length-read_pairs : (cells : List Pair) (i n : ℕ) → length (read_pairs cells i n) ≡ n
unfolding read_pairs
length-read_pairs cells i zero = refl
length-read_pairs cells i (suc n) = ap suc (length-read_pairs cells (add32 i 1) n)

read_pairs-add :
    (cells : List Pair) (i n m k : ℕ)
    → k ≡ n + m
    → i < 2 ^ 32
    → read_pairs cells i k ≡ read_pairs cells i n ++ read_pairs cells (add32 i n) m
unfolding read_pairs
read_pairs-add cells i zero m k e h =
    rw (let e' : k ≡ m = omega arith in e') (ap (λ j. read_pairs cells j m) (omega arith))
read_pairs-add cells i (suc n) m zero e h = absurd (omega arith)
read_pairs-add cells i (suc n) m (suc k) e h =
    ap (◌∷◌ (get_or cells (i % ring_pairs) (pos 0, pos 0))) (
      read_pairs-add cells (add32 i 1) n m k (omega arith) (omega arith)
      ∙ ap (λ j. read_pairs cells (add32 i 1) n ++ read_pairs cells j m) (omega arith))

-- A write outside the cells that are read does not change what is read.
read_pairs-set :
    (cells : List Pair) (i n j : ℕ) (p : Pair)
    → i < 2 ^ 32
    → j < 2 ^ 32
    → n ≤ sub32 j i
    → sub32 j i < ring_pairs
    → read_pairs (set cells (j % ring_pairs) p) i n ≡ read_pairs cells i n
unfolding read_pairs
read_pairs-set cells i zero j p hi hj b c = refl
read_pairs-set cells i (suc n) j p hi hj b c =
    rw (get_or-set_ne cells (j % ring_pairs) (i % ring_pairs) p (pos 0, pos 0) (omega arith)) (
      ap (◌∷◌ (get_or cells (i % ring_pairs) (pos 0, pos 0)))
        (read_pairs-set cells (add32 i 1) n j p (omega arith) hj (omega arith) (omega arith)))

-- One more pair behind the `n` pairs from `i` on.
read_pairs-push :
    (cells : List Pair) (i n j : ℕ) (p : Pair)
    → length cells ≡ ring_pairs
    → i < 2 ^ 32
    → j ≡ add32 i n
    → n < ring_pairs
    → read_pairs (set cells (j % ring_pairs) p) i (n + 1) ≡ read_pairs cells i n ++ (p ∷ [])
unfolding read_pairs
read_pairs-push cells i n j p s h e b =
    read_pairs-add (set cells (j % ring_pairs) p) i n 1 (n + 1) refl h
    ∙ rw (
      read_pairs-set cells i n j p h (omega arith) (omega arith) (omega arith),
      ← e,
      get_or-set_self cells (j % ring_pairs) p (pos 0, pos 0) (omega arith),
    )

-- Writing a block behind the `n` pairs from `i` on appends it to them.
read_pairs-write_pairs :
    (cells : List Pair) (i n j : ℕ) (ps : List Pair) (k : ℕ)
    → length cells ≡ ring_pairs
    → i < 2 ^ 32
    → j ≡ add32 i n
    → k ≡ n + length ps
    → k ≤ ring_pairs
    → read_pairs (write_pairs cells j ps) i k ≡ read_pairs cells i n ++ map clamp_pair ps
unfolding write_pairs
read_pairs-write_pairs cells i n j [] k s h e f b =
    rw (append-nil (read_pairs cells i n), (let e' : k ≡ n = omega arith in e'))
read_pairs-write_pairs cells i n j (p ∷ ps) k s h e f b =
    read_pairs-write_pairs (set cells (j % ring_pairs) (clamp_pair p)) i (n + 1) (add32 j 1) ps k
      (length-set cells (j % ring_pairs) (clamp_pair p) ∙ s) h (omega arith) (omega arith) b
    ∙ rw (
      read_pairs-push cells i n j (clamp_pair p) s h e (omega arith),
      append_assoc (read_pairs cells i n) (clamp_pair p ∷ []) (map clamp_pair ps),
    )

pub free_pairs : Ring → ℕ
free_pairs r = ring_pairs - sub32 r.head r.tail

length-write_pairs :
    (cells : List Pair) (i : ℕ) (ps : List Pair) → length (write_pairs cells i ps) ≡ length cells
unfolding write_pairs
length-write_pairs cells i [] = refl
length-write_pairs cells i (p ∷ ps) =
    length-write_pairs (set cells (i % ring_pairs) (clamp_pair p)) (add32 i 1) ps
    ∙ length-set cells (i % ring_pairs) (clamp_pair p)

-- Both operations at a number of pairs that fits.
append_pairs :
    (r : Ring) (ps : List Pair) (n : ℕ)
    → IsRing r
    → length ps ≡ n
    → n + sub32 r.head r.tail ≤ ring_pairs
    → let r' = record r { cells = write_pairs r.cells r.head ps; head = add32 r.head n } in
      (contents r' ≡ contents r ++ map clamp_pair ps) × IsRing r'
append_pairs r ps n i e b = (
  read_pairs-write_pairs r.cells r.tail (sub32 r.head r.tail) r.head ps
      (sub32 (add32 r.head n) r.tail) i.size i.tail_fits (omega (arith, i.head_fits, i.tail_fits))
      (omega (arith, i.head_fits, i.tail_fits)) (omega (arith, i.head_fits, i.tail_fits)),
  record {
    size = length-write_pairs r.cells r.head ps ∙ i.size;
    head_fits = omega arith;
    tail_fits = i.tail_fits;
    bounded = omega (arith, i.head_fits, i.tail_fits);
  },
)

remove_pairs :
    (r : Ring) (n : ℕ)
    → IsRing r
    → n ≤ sub32 r.head r.tail
    → let r' = record r { tail = add32 r.tail n } in
      (contents r ≡ read_pairs r.cells r.tail n ++ contents r') × IsRing r'
remove_pairs r n i b = (
  read_pairs-add r.cells r.tail n (sub32 r.head (add32 r.tail n)) (sub32 r.head r.tail)
      (omega (arith, i.head_fits, i.tail_fits)) i.tail_fits,
  record {
    size = i.size;
    head_fits = i.head_fits;
    tail_fits = omega arith;
    bounded = omega (arith, i.head_fits, i.tail_fits, i.bounded);
  },
)

-- What a sample becomes in 16 bits: itself, or the nearest bound.
abbrev pub IsSaturated : ℤ → ℤ → Type 0
IsSaturated (pos n) c = (n < 2 ^ 15 → c ≡ pos n) × (2 ^ 15 ≤ n → c ≡ pos 32767)
IsSaturated (negsuc n) c = (n < 2 ^ 15 → c ≡ negsuc n) × (2 ^ 15 ≤ n → c ≡ negsuc 32767)

-- Pair by pair, left with left and right with right.
abbrev pub AreSaturated : List Pair → List Pair → Type 0
AreSaturated [] [] = Unit
AreSaturated [] (q ∷ qs) = ⊥
AreSaturated (p ∷ ps) [] = ⊥
AreSaturated ((l, r) ∷ ps) ((cl, cr) ∷ qs) =
    IsSaturated l cl × IsSaturated r cr × AreSaturated ps qs

clamp_sample-IsSaturated : (s : ℤ) → IsSaturated s (clamp_sample s)
unfolding clamp_sample
clamp_sample-IsSaturated (pos n) = (λ h. ground arith, λ h. ground arith)
clamp_sample-IsSaturated (negsuc n) = (λ h. ground arith, λ h. ground arith)

map-clamp_pair-AreSaturated : (ps : List Pair) → AreSaturated ps (map clamp_pair ps)
unfolding clamp_pair
map-clamp_pair-AreSaturated [] = tt
map-clamp_pair-AreSaturated ((l, r) ∷ ps) =
    (clamp_sample-IsSaturated l, clamp_sample-IsSaturated r, map-clamp_pair-AreSaturated ps)

-- The contents of a ring with what the callback makes of a block.
mix-contents :
    (r : Ring) (block : List Pair)
    → IsRing r
    → (contents (mix r block) ≡ contents r ++ map clamp_pair (take (free_pairs r) block))
      × IsRing (mix r block)
unfolding mix free_pairs
mix-contents r block i =
    elim (Bool-cases (ltb (sub32 ring_pairs (sub32 r.head r.tail)) (length block))) [
      | inl e ↦
          rw (e, free)
            (append_pairs r (take (free_pairs r) block) (free_pairs r) i
              (length-take (free_pairs r) block ∙ omega (tests, free)) (omega (arith, i.bounded)))
      | inr e ↦
          rw (e, take-length block, take_all block (free_pairs r) (omega (tests, free)))
            (append_pairs r block (length block) i refl (omega (tests, free, i.bounded)))
    ]
  where
    free : sub32 ring_pairs (sub32 r.head r.tail) ≡ free_pairs r
    free = omega (arith, i.bounded)

-- The callback appends as many pairs of its block as there is room for, the first ones, and drops the rest; each
-- sample is written as it is if it fits in 16 bits, and as the nearest of -32768 and 32767 if not, left
-- and right as they were; the ring stays valid.
pub mix_lem :
    (r : Ring) (block : List Pair)
    → IsRing r
    → ((written : List Pair) × (contents (mix r block) ≡ contents r ++ written)
        × AreSaturated (take (free_pairs r) block) written)
      × IsRing (mix r block)
mix_lem r block i =
    let (e, valid) = mix-contents r block i in
    let fitting = take (free_pairs r) block in
    ((map clamp_pair fitting, e, map-clamp_pair-AreSaturated fitting), valid)

-- audioRead returns the oldest pairs, as many as asked for or all there are, and leaves the others;
-- the ring stays valid.
pub audio_read_lem :
    (r : Ring) (max_pairs : ℕ)
    → IsRing r
    → let (out, r') = audio_read r max_pairs in
      (contents r ≡ out ++ contents r')
      × (length out ≡ min max_pairs (length (contents r)))
      × IsRing r'
unfolding audio_read
audio_read_lem r max_pairs i = elim (Bool-cases (ltb (sub32 r.head r.tail) max_pairs)) [
  | inl e ↦
      let all = remove_pairs r (sub32 r.head r.tail) i (omega arith) in
      rw e (all.0, omega (tests, size (sub32 r.head r.tail)), all.1)
  | inr e ↦
      let some_ = remove_pairs r max_pairs i (omega tests) in
      rw e (some_.0, omega (tests, size max_pairs, size (sub32 r.head r.tail)), some_.1)
]
  where
    size : (n : ℕ) → length (read_pairs r.cells r.tail n) ≡ n
    size n = length-read_pairs r.cells r.tail n
