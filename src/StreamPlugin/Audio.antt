-- ===== src/StreamPlugin/Audio.antt =====
-- wiiu/stream-plugin/src/audio.cpp: the ring of stereo pairs between the audio callback and the net
-- thread. A cell is one pair, `gRing[2 * i]` and `gRing[2 * i + 1]`; the indices are `uint32_t`s that
-- run on and are reduced at each access.
pub mod Fifo
pub mod Tap
use wii_sec_u.Base.{
  ℕ, zero, suc, ◌+◌, ◌-◌, ◌%◌, ◌^◌, ◌≤◌, ◌<◌, ◌≡◌, ◌≢◌, refl, ap, ◌∙◌, Bool, true, false, List, [],
  ◌∷◌, ◌++◌, length, get_or, set, take, drop, map, ltb, if◌then◌else◌, arith, min, length-set,
  get_or-set_self, get_or-set_ne, length-map, length-take, replicate, length-replicate,
}
use wii_sec_u.Base.Int.{ℤ, pos, negsuc}
use wii_sec_u.Base.Word.{sub32, add32}

abbrev pub ring_pairs : ℕ
ring_pairs = 8192

abbrev pub Pair : Type 0
Pair = ℤ × ℤ

pub record Ring : Type 0 where
  pub cells : List Pair
  pub head : ℕ
  pub tail : ℕ

-- clampSample, to the range of an `int16_t`
unfoldable pub clamp_sample : ℤ → ℤ
clamp_sample (pos n) = if ltb 32767 n then pos 32767 else pos n
clamp_sample (negsuc n) = if ltb 32767 n then negsuc 32767 else negsuc n

unfoldable pub clamp_pair : Pair → Pair
unfolding clamp_sample
clamp_pair (l, r) = (clamp_sample l, clamp_sample r)

-- The loop of finalMixCallback: pair `i` goes to cell `(head + i) % kRingPairs`.
unfoldable pub write_pairs : List Pair → ℕ → List Pair → List Pair
unfolding clamp_pair
write_pairs cells i [] = cells
write_pairs cells i (p ∷ ps) =
    write_pairs (set cells (i % ring_pairs) (clamp_pair p)) (add32 i 1) ps

-- finalMixCallback from the read of the indices on; the list is the block's pairs.
unfoldable pub mix : Ring → List Pair → Ring
unfolding write_pairs
mix r block = record r { cells = write_pairs r.cells r.head (take n block); head = add32 r.head n }
  where
    free : ℕ
    free = sub32 ring_pairs (sub32 r.head r.tail)

    n : ℕ
    n = if ltb free (length block) then free else length block

-- The loop of audioRead.
unfoldable pub read_pairs : List Pair → ℕ → ℕ → List Pair
read_pairs cells i zero = []
read_pairs cells i (suc n) =
    get_or cells (i % ring_pairs) (pos 0, pos 0) ∷ read_pairs cells (add32 i 1) n

unfoldable pub audio_read : Ring → ℕ → List Pair × Ring
unfolding read_pairs
audio_read r max_pairs = (read_pairs r.cells r.tail n, record r { tail = add32 r.tail n })
  where
    avail : ℕ
    avail = sub32 r.head r.tail

    n : ℕ
    n = if ltb avail max_pairs then avail else max_pairs

-- audioInit resets the indices and leaves the cells.
unfoldable pub audio_init : List Pair → Ring
audio_init cells = record { cells = cells; head = 0; tail = 0 }
