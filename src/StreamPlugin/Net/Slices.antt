-- ===== src/StreamPlugin/Net/Slices.antt =====
-- What netSendVideoFrame of wiiu/stream-plugin/src/net.cpp puts on the wire, and what the receivers
-- make of it.
use mathlib.Core.List.{flatten}
use wii_sec_u.Base.{
  ℕ, zero, suc, ◌+◌, ◌*◌, ◌^◌, ◌≤◌, ◌<◌, ◌≡◌, refl, sym, ap, subst, ◌∙◌, inl, inr, true, List, [],
  ◌∷◌, ◌++◌, Option, some, length, take, drop, min, ltb, ◌==◌, if◌then◌else◌, arith, tests,
  Bool-cases, take-length, length-take, length-drop, take-append-drop, take_all, drop_all,
  take-take,
}
use wii_sec_u.Base.All.{drop-cons}
use wii_sec_u.Protocol.Wire.{Parse, ok, reject, ◌>>=◌}
use wii_sec_u.Protocol.Types.{header_size, max_packet, max_slice_payload, VideoHeader, VideoFits}
use wii_sec_u.Protocol.Pkt
use wii_sec_u.Protocol.Pack.{pack_video}
use wii_sec_u.Protocol.Parse.{parse_header, parse_video}
use wii_sec_u.Protocol.Roundtrip.{pack_video-Received}
use wii_sec_u.Endpoint.{Endpoint, Packet}
use wii_sec_u.StreamPlugin.Net.{Net, bump_seq, send_locked, slice_header, send_slices}
use wii_sec_u.Assembler.Integrity.{Sent}
use wii_sec_u.Assembler.Complete.{AreOf, Arrives}

-- A receiver's way from a datagram to FrameAssembler::feed.
unfoldable pub video_of : List ℕ → Parse (VideoHeader × List ℕ)
video_of d = do
  hdr ← parse_header d
  if hdr.type == Pkt.video then parse_video (drop header_size d) else reject

-- The packets go to `host` and bring these slices.
abbrev pub AreCarried : Endpoint → List Packet → List (VideoHeader × List ℕ) → Type 0
AreCarried host [] [] = Unit
AreCarried host [] (x ∷ xs) = ⊥
AreCarried host (p ∷ ps) [] = ⊥
AreCarried host ((to, d) ∷ ps) (x ∷ xs) = (to ≡ host) × (video_of d ≡ ok x) × AreCarried host ps xs

-- The data in pieces of 1200 bytes.
abbrev pub chunks : ℕ → List ℕ → List (List ℕ)
chunks zero rest = []
chunks (suc n) rest = take max_slice_payload rest ∷ chunks n (drop max_slice_payload rest)

-- The headers and payloads that the loop makes.
abbrev pub cut : ℕ → ℕ → ℕ → ℕ → ℕ → ℕ → List ℕ → List (VideoHeader × List ℕ)
cut zero i slices timestamp_ms flags id rest = []
cut (suc n) i slices timestamp_ms flags id rest =
    (slice_header id timestamp_ms flags i slices (length rest), take max_slice_payload rest)
    ∷ cut n (suc i) slices timestamp_ms flags id (drop max_slice_payload rest)

pub flatten-chunks :
    (n : ℕ) (rest : List ℕ) → length rest ≤ n * max_slice_payload → flatten (chunks n rest) ≡ rest
unfolding flatten
flatten-chunks zero [] h = refl
flatten-chunks zero (x ∷ rest) h = absurd (omega arith)
flatten-chunks (suc n) rest h =
    rw
      (flatten-chunks n (drop max_slice_payload rest)
        (omega (arith, length-drop max_slice_payload rest)))
      (take-append-drop max_slice_payload rest)

pub length-chunks : (n : ℕ) (rest : List ℕ) → length (chunks n rest) ≡ n
length-chunks zero rest = refl
length-chunks (suc n) rest = ap suc (length-chunks n (drop max_slice_payload rest))

module _ (id timestamp_ms flags i slices : ℕ) (rest : List ℕ) where
  header : VideoHeader
  header = slice_header id timestamp_ms flags i slices (length rest)

  payload_len-eq : header.payload_len ≡ min max_slice_payload (length rest)
  unfolding header slice_header
  payload_len-eq = ground arith

  take-payload_len : take header.payload_len rest ≡ take max_slice_payload rest
  unfolding header slice_header
  take-payload_len = elim (Bool-cases (ltb (length rest) max_slice_payload)) [
    | inl e ↦ rw (e, take-length rest, take_all rest max_slice_payload (omega tests))
    | inr e ↦ rw e
  ]

  drop-payload_len : drop header.payload_len rest ≡ drop max_slice_payload rest
  unfolding header slice_header
  drop-payload_len = elim (Bool-cases (ltb (length rest) max_slice_payload)) [
    | inl e ↦ rw (
      e,
      drop_all rest (length rest) (omega arith),
      drop_all rest max_slice_payload (omega tests),
    )
    | inr e ↦ rw e
  ]

pack_video-take :
    (cap seq : ℕ) (v : VideoHeader) (payload : List ℕ)
    → pack_video cap seq v payload ≡ pack_video cap seq v (take v.payload_len payload)
unfolding pack_video
pack_video-take cap seq v payload = rw (take-take v.payload_len payload)

-- The slice that one round of the loop sends arrives as it was cut.
send_slice-video_of :
    (seq : ℕ) (v : VideoHeader) (rest : List ℕ)
    → seq < 2 ^ 16
    → VideoFits v
    → v.slice_index < v.slice_count
    → v.payload_len ≡ min max_slice_payload (length rest)
    → (d : List ℕ) × (pack_video max_packet seq v rest ≡ some d)
      × (video_of d ≡ ok (v, take v.payload_len rest))
unfolding video_of
send_slice-video_of seq v rest q f i n =
    let (d, e, _, h, p) =
      pack_video-Received max_packet seq v (take v.payload_len rest) (omega arith) q f
        (length-take v.payload_len rest ∙ omega arith) (omega arith) i in
    (d, pack_video-take max_packet seq v rest ∙ e, rw h p)

pub record Fits (id timestamp_ms slices : ℕ) (s : Net) : Type 0 where
  pub id_fits : id < 2 ^ 32
  pub timestamp_fits : timestamp_ms < 2 ^ 32
  pub slices_fit : slices < 2 ^ 16
  pub seq_fits : s.tx_seq < 2 ^ 16
  pub open_ : s.sock_open ≡ true

slice_header-VideoFits :
    (id timestamp_ms flags i slices : ℕ) (rest : List ℕ) (s : Net)
    → Fits id timestamp_ms slices s
    → i < slices
    → VideoFits (header id timestamp_ms flags i slices rest)
unfolding header slice_header
slice_header-VideoFits id timestamp_ms flags i slices rest s f h = record {
  frame_id_fits = f.id_fits;
  timestamp_fits = f.timestamp_fits;
  slice_index_fits = omega (arith, f.slices_fit);
  slice_count_fits = f.slices_fit;
  payload_len_fits = ground arith;
}

bump-Fits :
    (id timestamp_ms slices : ℕ) (s : Net)
    → Fits id timestamp_ms slices s
    → Fits id timestamp_ms slices (bump_seq s)
bump-Fits id timestamp_ms slices s f = record {
  id_fits = f.id_fits;
  timestamp_fits = f.timestamp_fits;
  slices_fit = f.slices_fit;
  seq_fits = omega arith;
  open_ = f.open_;
}

carry_one :
    (host : Endpoint) (s : Net) (o : Option (List ℕ)) (d : List ℕ) (x : VideoHeader × List ℕ)
    (ps : List Packet) (xs : List (VideoHeader × List ℕ))
    → s.host_addr ≡ host
    → s.sock_open ≡ true
    → o ≡ some d
    → video_of d ≡ ok x
    → AreCarried host ps xs
    → AreCarried host (send_locked s o ++ ps) (x ∷ xs)
carry_one host s o d x ps xs a u e got more = simp (u, e) (a, got, more)

-- What the network thread may do between two packets of a frame: the host stays where it is and the socket
-- open, and the sequence number a 16-bit one.
pub record KeepsHost (host : Endpoint) (meanwhile : ℕ → Net → Net) : Type 0 where
  pub host_kept : (i : ℕ) (s : Net) → s.host_addr ≡ host → (meanwhile i s).host_addr ≡ host
  pub socket_kept : (i : ℕ) (s : Net) → s.sock_open ≡ true → (meanwhile i s).sock_open ≡ true
  pub seq_kept : (i : ℕ) (s : Net) → s.tx_seq < 2 ^ 16 → (meanwhile i s).tx_seq < 2 ^ 16

meanwhile-Fits :
    (host : Endpoint) (meanwhile : ℕ → Net → Net) (i id timestamp_ms slices : ℕ) (s : Net)
    → KeepsHost host meanwhile
    → Fits id timestamp_ms slices s
    → Fits id timestamp_ms slices (meanwhile i s)
meanwhile-Fits host meanwhile i id timestamp_ms slices s k f = record {
  id_fits = f.id_fits;
  timestamp_fits = f.timestamp_fits;
  slices_fit = f.slices_fit;
  seq_fits = k.seq_kept i s f.seq_fits;
  open_ = k.socket_kept i s f.open_;
}

pub send_slices-AreCarried :
    (host : Endpoint) (meanwhile : ℕ → Net → Net) (n i slices timestamp_ms flags : ℕ)
    (rest : List ℕ) (id : ℕ) (s : Net)
    → KeepsHost host meanwhile
    → s.host_addr ≡ host
    → i + n ≡ slices
    → Fits id timestamp_ms slices s
    → AreCarried host
        (send_slices meanwhile n i slices timestamp_ms flags rest id s).1
        (cut n i slices timestamp_ms flags id rest)
unfolding send_slices header
send_slices-AreCarried host meanwhile zero i slices timestamp_ms flags rest id s k a e f = tt
send_slices-AreCarried host meanwhile (suc n) i slices timestamp_ms flags rest id s k a e f =
    let now = meanwhile i s in
    let v = header id timestamp_ms flags i slices rest in
    let below : i < slices = omega arith in
    let fits = meanwhile-Fits host meanwhile i id timestamp_ms slices s k f in
    let there = k.host_kept i s a in
    let others =
      send_slices-AreCarried host meanwhile n (suc i) slices timestamp_ms flags
        (drop v.payload_len rest) id (bump_seq now) k there (omega arith)
        (bump-Fits id timestamp_ms slices now fits) in
    let one =
      send_slice-video_of now.tx_seq v rest fits.seq_fits
        (slice_header-VideoFits id timestamp_ms flags i slices rest now fits below) below
        (payload_len-eq id timestamp_ms flags i slices rest) in
    carry_one host now _ one.0 _ _ _ there fits.open_ one.1
      (rw (take-payload_len id timestamp_ms flags i slices rest) at one.2)
      (subst
        (λ r.
          AreCarried host
            (send_slices meanwhile n (suc i) slices timestamp_ms flags (drop v.payload_len rest) id
              (bump_seq now)).1
            (cut n (suc i) slices timestamp_ms flags id r))
        (drop-payload_len id timestamp_ms flags i slices rest) others)

-- The frame that the call sends.
abbrev pub sent_of : ℕ → ℕ → ℕ → List ℕ → Sent
sent_of n timestamp_ms flags bytes = record {
  timestamp_ms = timestamp_ms;
  flags = flags;
  slices = chunks n bytes;
}

pub cut-AreOf :
    (s : Sent) (n i slices id : ℕ) (rest : List ℕ)
    → i + n ≡ slices
    → slices < 2 ^ 16
    → length s.slices ≡ slices
    → drop i s.slices ≡ chunks n rest
    → AreOf id s (cut n i slices s.timestamp_ms s.flags id rest)
unfolding slice_header header
cut-AreOf s zero i slices id rest e q l d = tt
cut-AreOf s (suc n) i slices id rest e q l d =
    let (b, g, r) = drop-cons s.slices i (take max_slice_payload rest) [] _ d in
    (
      refl,
      record {
        index_in = omega arith;
        count_fits = q;
        short = omega (arith, payload_len-eq id s.timestamp_ms s.flags i slices rest);
        whole =
            length-take max_slice_payload rest
            ∙ sym (payload_len-eq id s.timestamp_ms s.flags i slices rest);
      },
      record { timestamp_same = refl; flags_same = refl; count_same = sym l; payload_same = sym g },
      cut-AreOf s n (suc i) slices id (drop max_slice_payload rest) (omega arith) q l r,
    )

pub cut-Arrives :
    (n i slices timestamp_ms flags id : ℕ) (rest : List ℕ) (j : ℕ)
    → i ≤ j
    → j < i + n
    → Arrives j (cut n i slices timestamp_ms flags id rest)
unfolding slice_header
cut-Arrives zero i slices timestamp_ms flags id rest j a b = absurd (omega arith)
cut-Arrives (suc n) i slices timestamp_ms flags id rest j a b = elim (Bool-cases (i == j)) [
  | inl e ↦ inl (omega tests)
  | inr ne ↦ inr (
      cut-Arrives n (suc i) slices timestamp_ms flags id (drop max_slice_payload rest) j
        (omega tests) (omega arith))
]
