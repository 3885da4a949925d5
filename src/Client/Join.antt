-- ===== src/Client/Join.antt =====
-- The client and the session server together: joining, and the video on its way to the sink.
use wii_sec_u.Base.{
  ℕ, ◌^◌, ◌<◌, ◌≡◌, refl, sym, inl, inr, true, false, not, List, [], ◌∷◌, ◌++◌, Option, none, some,
  drop, ◌==◌, arith, Bool-cases,
}
use wii_sec_u.Protocol.Wire.{ok, Parse-cases}
use wii_sec_u.Protocol.Types.{header_size, max_packet, HelloAck, VideoHeader}
use wii_sec_u.Protocol.Pkt
use wii_sec_u.Protocol.HelloStatus
use wii_sec_u.Protocol.Pack.{pack_hello_ack}
use wii_sec_u.Protocol.Parse.{parse_header, parse_video}
use wii_sec_u.Protocol.Roundtrip.{pack_hello_ack-Received}
use wii_sec_u.Endpoint.{same_ep, same_ep_refl}
use wii_sec_u.Assembler.{Frame, feed}
use wii_sec_u.Assembler.Stream.{run, prepend}
use wii_sec_u.StreamPlugin.Net.Slices.{video_of}
use wii_sec_u.Client.{
  ClientOptions, ClientApp, ToSink, on_frame, client_hello_ack, client_video, client_dispatch,
  client_receive,
}

-- The datagrams that the host sends one after another, each received at its time.
abbrev pub watch : ClientOptions → List (ℕ × List ℕ) → ClientApp → List ToSink
watch o [] s = []
watch o ((now, d) ∷ ds) s =
    let (s', out) = client_receive o now o.host_addr d s in out ++ watch o ds s'

-- The datagrams bring these slices.
abbrev pub Brings : List (ℕ × List ℕ) → List (VideoHeader × List ℕ) → Type 0
Brings [] [] = Unit
Brings [] (x ∷ xs) = ⊥
Brings (d ∷ ds) [] = ⊥
Brings ((now, d) ∷ ds) (x ∷ xs) = (video_of d ≡ ok x) × Brings ds xs

abbrev pub frames_of : List Frame → List ToSink
frames_of [] = []
frames_of (f ∷ fs) = on_frame f ∷ frames_of fs

abbrev pub frame_out : Option Frame → List ToSink
frame_out none = []
frame_out (some f) = on_frame f ∷ []

frame_out-eq : (f : Option Frame) → elim f [ some g ↦ on_frame g ∷ [] | none ↦ [] ] ≡ frame_out f
frame_out-eq none = refl
frame_out-eq (some g) = refl

frames_of-prepend :
    (f : Option Frame) (fs : List Frame) → frames_of (prepend f fs) ≡ frame_out f ++ frames_of fs
frames_of-prepend none fs = refl
frames_of-prepend (some f) fs = refl

client_receive-video :
    (o : ClientOptions) (now : ℕ) (d : List ℕ) (s : ClientApp) (v : VideoHeader) (payload : List ℕ)
    → video_of d ≡ ok (v, payload)
    → ((client_receive o now o.host_addr d s).0.assembler ≡ (feed s.assembler v payload).0)
      × ((client_receive o now o.host_addr d s).1 ≡ frame_out (feed s.assembler v payload).1)
unfolding client_receive client_dispatch client_video video_of
client_receive-video o now d s v payload h = elim (Parse-cases (parse_header d)) [
  | inl (hdr, e) ↦ elim (Bool-cases (hdr.type == Pkt.video)) [
    | inl t ↦
        let got : parse_video (drop header_size d) ≡ ok (v, payload) =
          rw t at (rw (e, video_of) at h) in
        let a : (hdr.type == Pkt.hello_ack) ≡ false = ground arith in
        let c : (hdr.type == Pkt.config) ≡ false = ground arith in
        let me : not (same_ep o.host_addr o.host_addr) ≡ false =
          rw (same_ep_refl o.host_addr) refl in
        rw (me, e, a, c, t, got, client_receive, client_dispatch, client_video)
          (refl, frame_out-eq (feed s.assembler v payload).1)
    | inr f ↦ let g = rw f at (rw (e, video_of) at h) in cc
  ]
  | inr (inl e) ↦ let f = rw (e, video_of) at h in cc
  | inr (inr e) ↦ let f = rw (e, video_of) at h in cc
]

-- What the sink sees of a stream of slices is what the assembler makes of them.
pub watch-run :
    (o : ClientOptions) (ds : List (ℕ × List ℕ)) (xs : List (VideoHeader × List ℕ)) (s : ClientApp)
    → Brings ds xs
    → watch o ds s ≡ frames_of (run s.assembler xs)
unfolding run
watch-run o [] [] s h = refl
watch-run o [] (x ∷ xs) s h = absurd h
watch-run o (d ∷ ds) [] s h = absurd h
watch-run o ((now, d) ∷ ds) ((v, payload) ∷ xs) s (e, h) =
    let (a, out) = client_receive-video o now d s v payload e in
    let s' = (client_receive o now o.host_addr d s).0 in
    let rest = watch-run o ds xs s' h in
    rw (out, rest, a)
      (sym
        (frames_of-prepend (feed s.assembler v payload).1 (run (feed s.assembler v payload).0 xs)))

-- A client that gets an accepting HELLO_ACK of the host is connected in the slot it names.
pub client_receive-joined :
    (o : ClientOptions) (now seq slot : ℕ) (s : ClientApp)
    → seq < 2 ^ 16
    → (d : List ℕ) × (pack_hello_ack max_packet seq
          (record { status = HelloStatus.accepted; slot = slot })
        ≡ some d)
      × ((client_receive o now o.host_addr d s).0.connected ≡ true)
      × ((client_receive o now o.host_addr d s).0.slot ≡ slot)
unfolding client_receive client_dispatch client_hello_ack
client_receive-joined o now seq slot s q =
    let ack : HelloAck = record { status = HelloStatus.accepted; slot = slot } in
    let (d, e, _, h, p) = pack_hello_ack-Received max_packet seq ack (omega arith) q in
    let me : not (same_ep o.host_addr o.host_addr) ≡ false = rw (same_ep_refl o.host_addr) refl in
    let t = (client_receive o now o.host_addr d s).0 in
    let (on, at) : (t.connected ≡ true) × (t.slot ≡ slot) =
      rw (me, h, p, client_receive, client_dispatch, client_hello_ack) (refl, refl) in
    (d, e, on, at)
