-- ===== src/StreamPlugin/Net/Drain.antt =====
-- drainAudio of wiiu/stream-plugin/src/net.cpp on a ring with less than a chunk.
use wii_sec_u.Base.{
  ℕ, suc, ◌<◌, ◌≡◌, refl, ap, ◌∙◌, if◌then◌else◌, true, List, [], ◌∷◌, ◌++◌, length, ltb, lt→ltb,
  arith, length-append,
}
use wii_sec_u.StreamPlugin.Audio.{Pair, audio_read}
use wii_sec_u.StreamPlugin.Audio.Fifo.{IsRing, contents, audio_read_lem}
use wii_sec_u.StreamPlugin.Net.{Net, audio_chunk_pairs, drain_rounds, drain_audio}

none_left : (out rest all : List Pair) → all ≡ out ++ rest → length out ≡ length all → rest ≡ []
none_left out [] all e n = refl
none_left out (x ∷ rest) all e n = absurd (omega (arith, length-append out (x ∷ rest), rw e at n))

short_round :
    (n : ℕ) (times : ℕ → ℕ) (s : Net)
    → ltb (length (audio_read s.ring audio_chunk_pairs).0) audio_chunk_pairs ≡ true
    → drain_rounds (suc n) times s
      ≡ (record s { ring = (audio_read s.ring audio_chunk_pairs).1 }, [])
unfolding drain_rounds
short_round n times s short = rw short refl

-- With the sound on and less than 256 pairs in the ring, drainAudio sends nothing and leaves the ring
-- empty: these samples are lost.
pub drain_audio-lost :
    (times : ℕ → ℕ) (s : Net)
    → s.config.audio ≡ true
    → IsRing s.ring
    → length (contents s.ring) < audio_chunk_pairs
    → ((drain_audio times s).1 ≡ []) × (contents (drain_audio times s).0.ring ≡ [])
unfolding drain_audio
drain_audio-lost times s on i few =
    let (all, n, _) = audio_read_lem s.ring audio_chunk_pairs i in
    let short : ltb (length (audio_read s.ring audio_chunk_pairs).0) audio_chunk_pairs ≡ true =
      lt→ltb _ _ (omega (arith, n)) in
    let rounds : drain_audio times s
        ≡ (record s { ring = (audio_read s.ring audio_chunk_pairs).1 }, []) =
      ap (λ b. if b then drain_rounds 8 times s else (s, [])) on ∙ short_round 7 times s short in
    rw rounds (
      refl,
      none_left (audio_read s.ring audio_chunk_pairs).0
          (contents (audio_read s.ring audio_chunk_pairs).1) (contents s.ring) all
          (omega (arith, n)),
    )
