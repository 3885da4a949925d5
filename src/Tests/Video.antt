-- ===== src/Tests/Video.antt =====
-- Frames, from the console's encoder to the sink of a client, and sound.
use wii_sec_u.Base.{
  ℕ, zero, suc, ◌<◌, ◌≤◌, ◌≡◌, refl, true, false, List, [], ◌∷◌, ◌++◌, take, min, replicate, length,
  length-replicate, arith, inl, inr,
}
use wii_sec_u.Base.Int.{pos, negsuc}
use wii_sec_u.Base.All.{All}
use wii_sec_u.Protocol.Types.{VideoHeader, max_slice_payload}
use wii_sec_u.Endpoint.{Endpoint}
use wii_sec_u.Assembler.{fresh}
use wii_sec_u.Assembler.Inv.{IsSlice, Inv, fresh-Inv}
use wii_sec_u.Assembler.Datagrams.{IsBytes, feed_datagrams, feed_datagrams-Inv}
use wii_sec_u.Assembler.Integrity.{Sent, sent_frame, slice_of, IsGenuine}
use wii_sec_u.Assembler.Stream.{run, IsAscending, IsSentFrame, run-fresh-right}
use wii_sec_u.Assembler.Complete.{Arrives, run_complete}
use wii_sec_u.StreamPlugin.Audio.{read_pairs, Ring, Pair, mix, audio_read}
use wii_sec_u.StreamPlugin.Audio.Fifo.{
  IsRing, AreSaturated, contents, free_pairs, mix_lem, audio_read_lem,
}
use wii_sec_u.StreamPlugin.Net.{drain_audio, audio_chunk_pairs, Net, on_ping, net_send_video_frame}
use wii_sec_u.StreamPlugin.Net.Drain.{drain_audio-lost}
use wii_sec_u.StreamPlugin.Net.Slices.{AreCarried, KeepsHost}
use wii_sec_u.EndToEnd.{wanted, net_send_video_frame-AreCarried, wanted-delivered}

-- Frame 5, in slices of two bytes and one.
abbrev five : Sent
five = record { timestamp_ms = 160; flags = 1; slices = (10 ∷ 20 ∷ []) ∷ (30 ∷ []) ∷ [] }

abbrev header_of : ℕ → ℕ → VideoHeader
header_of i n = record {
  frame_id = 5;
  timestamp_ms = 160;
  flags = 1;
  slice_index = i;
  slice_count = 2;
  payload_len = n;
}

-- The second slice comes first, and twice.
abbrev arrivals : List (VideoHeader × List ℕ)
arrivals = (header_of 1 1, 30 ∷ []) ∷ (header_of 1 1, 30 ∷ []) ∷ (header_of 0 2, 10 ∷ 20 ∷ []) ∷ []

second-IsSlice : IsSlice (header_of 1 1) (30 ∷ [])
second-IsSlice = record {
  index_in = omega arith;
  count_fits = omega arith;
  short = omega arith;
  whole = refl;
}

first-IsSlice : IsSlice (header_of 0 2) (10 ∷ 20 ∷ [])
first-IsSlice = record {
  index_in = omega arith;
  count_fits = omega arith;
  short = omega arith;
  whole = refl;
}

second-IsGenuine : IsGenuine (λ _. five) (header_of 1 1) (30 ∷ [])
second-IsGenuine = record {
  timestamp_same = refl;
  flags_same = refl;
  count_same = refl;
  payload_same = refl;
}

first-IsGenuine : IsGenuine (λ _. five) (header_of 0 2) (10 ∷ 20 ∷ [])
first-IsGenuine = record {
  timestamp_same = refl;
  flags_same = refl;
  count_same = refl;
  payload_same = refl;
}

five-short : (i : ℕ) → length (slice_of five i) ≤ max_slice_payload
five-short zero = omega arith
five-short (suc zero) = omega arith
five-short (suc (suc i)) = omega arith

-- A datagram of one byte of a frame, and three bytes that are none.
abbrev small_slice : List ℕ
small_slice =
    0x57 ∷ 0x53 ∷ 0x55 ∷ 0x31 ∷ 1 ∷ 4 ∷ 0 ∷ 9 ∷ 0 ∷ 0 ∷ 0 ∷ 3 ∷ 0 ∷ 0 ∷ 0 ∷ 64 ∷ 1 ∷ 0 ∷ 0 ∷ 0 ∷ 1
    ∷ 0 ∷ 1 ∷ 42 ∷ []

abbrev datagrams : List (List ℕ)
datagrams = small_slice ∷ (255 ∷ 0 ∷ 7 ∷ []) ∷ []

datagrams-IsBytes : All IsBytes datagrams
datagrams-IsBytes = ground arith

feed_datagrams-Inv_example : Inv (feed_datagrams datagrams fresh)
feed_datagrams-Inv_example = feed_datagrams-Inv datagrams fresh datagrams-IsBytes fresh-Inv

run-fresh-right_example :
    All (IsSentFrame (λ _. five)) (run fresh arrivals) × IsAscending false 0 (run fresh arrivals)
run-fresh-right_example =
    run-fresh-right (λ _. five) arrivals (λ _ i. five-short i)
      (
        second-IsSlice,
        second-IsGenuine,
        (second-IsSlice, second-IsGenuine, (first-IsSlice, first-IsGenuine, tt)),
      )

five-Arrives : (i : ℕ) → i < 2 → Arrives i arrivals
five-Arrives zero b = inr (inr (inl refl))
five-Arrives (suc zero) b = inl refl
five-Arrives (suc (suc i)) b = absurd (omega arith)

run_complete_example : run fresh arrivals ≡ sent_frame 5 five ∷ []
run_complete_example =
    run_complete 5 five five-short arrivals fresh (omega arith) (refl, (refl, (refl, (refl, tt))))
      (omega arith)
      (
        refl,
        second-IsSlice,
        second-IsGenuine,
        (refl, second-IsSlice, second-IsGenuine, (refl, first-IsSlice, first-IsGenuine, tt)),
      )
      refl five-Arrives

abbrev pub home : Endpoint
home = record { addr = 3232235777; port = 4242 }

-- An empty ring.
abbrev quiet : Ring
quiet = record { cells = replicate 8192 (pos 0, pos 0); head = 4294967295; tail = 4294967295 }

quiet-IsRing : IsRing quiet
quiet-IsRing = record {
  size = length-replicate {A = Pair} 8192 (pos 0, pos 0);
  head_fits = omega arith;
  tail_fits = omega arith;
  bounded = omega arith;
}

abbrev loud : List Pair
loud = (pos 40000, negsuc 3) ∷ (pos 1, pos 2) ∷ []

mix_lem_example :
    ((written : List Pair) × (contents (mix quiet loud) ≡ contents quiet ++ written)
      × AreSaturated (take (free_pairs quiet) loud) written)
    × IsRing (mix quiet loud)
mix_lem_example = mix_lem quiet loud quiet-IsRing

abbrev filled : Ring
filled = mix quiet loud

audio_read_lem_example :
    (contents filled ≡ (audio_read filled 1).0 ++ contents (audio_read filled 1).1)
    × (length (audio_read filled 1).0 ≡ min 1 (length (contents filled)))
    × IsRing (audio_read filled 1).1
audio_read_lem_example = audio_read_lem filled 1 (mix_lem quiet loud quiet-IsRing).1

-- A plugin with a host that takes part.
abbrev streaming : Net
streaming = record {
  config = record { width = 640; height = 360; fps = 30; quality = 80; audio = true };
  sock_open = true;
  host_active = true;
  host_addr = home;
  last_host_seen_ms = 0;
  tx_seq = 65535;
  last_config_ms = 0;
  frame_id = 4;
  ring = quiet;
}

abbrev picture : List ℕ
picture = 255 ∷ 216 ∷ 255 ∷ 217 ∷ []

-- The network thread answers a PING before each packet.
abbrev answers : ℕ → Net → Net
answers i s = (on_ping 40 (0 ∷ 0 ∷ 0 ∷ 9 ∷ []) s).0

answers-KeepsHost : KeepsHost home answers
unfolding on_ping wii_sec_u.Protocol.Parse.parse_timestamp wii_sec_u.Protocol.Wire.get_u32
answers-KeepsHost = record {
  host_kept = λ i s h. h;
  socket_kept = λ i s h. h;
  seq_kept = λ i s h. omega arith;
}

net_send_video_frame-AreCarried_example :
    AreCarried home
      (net_send_video_frame answers picture 33 true streaming).1
      (wanted 5 33 1 picture)
net_send_video_frame-AreCarried_example =
    net_send_video_frame-AreCarried streaming 33 true picture (omega arith) (omega arith) answers
      answers-KeepsHost refl refl (omega arith) (omega arith)

wanted-delivered_example :
    run fresh (wanted 5 33 1 picture)
    ≡ record { frame_id = 5; timestamp_ms = 33; flags = 1; bytes = picture } ∷ []
wanted-delivered_example =
    wanted-delivered streaming 33 true picture (omega arith) (omega arith) fresh
      (wanted 5 33 1 picture) (omega arith) (refl, (refl, (refl, (refl, tt)))) refl (λ x i. i)
      (λ x i. i)

-- The same plugin with two pairs in its ring.
abbrev partial : Net
partial = record streaming { ring = record quiet { head = 3; tail = 1 } }

partial-IsRing : IsRing partial.ring
partial-IsRing = record {
  size = length-replicate {A = Pair} 8192 (pos 0, pos 0);
  head_fits = omega arith;
  tail_fits = omega arith;
  bounded = omega arith;
}

partial-short : length (contents partial.ring) < audio_chunk_pairs
unfolding read_pairs
partial-short = omega arith

drain_audio-lost_example :
    ((drain_audio (λ i. i) partial).1 ≡ []) × (contents (drain_audio (λ i. i) partial).0.ring ≡ [])
drain_audio-lost_example = drain_audio-lost (λ i. i) partial refl partial-IsRing partial-short
