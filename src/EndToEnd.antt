-- ===== src/EndToEnd.antt =====
-- One frame from the console's encoder to a receiver: netSendVideoFrame of
-- wiiu/stream-plugin/src/net.cpp, the wire format of protocol/wsu_protocol.h and FrameAssembler of
-- pc/src/core/frame_assembler.cpp together. The host relays the datagrams as they are.
use wii_sec_u.Base.{
  ℕ, zero, suc, ◌+◌, ◌-◌, ◌*◌, ◌%◌, ◌^◌, ◌≤◌, ◌<◌, ◌≡◌, refl, sym, ap, subst, ◌⊎◌, inl, inr, Bool,
  true, false, List, [], ◌∷◌, length, get_or, drop, length-take, if◌then◌else◌, ◌==◌, arith,
  ne→not_==, not, ◌||◌,
}
use wii_sec_u.Base.All.{All}
use wii_sec_u.Protocol.Types.{VideoHeader, max_slice_payload}
use wii_sec_u.Protocol.Pack.{video_slice_count}
use wii_sec_u.Assembler.{Assembler, is_stale}
use wii_sec_u.Assembler.Inv.{IsSlice}
use wii_sec_u.Assembler.Integrity.{Sent, IsGenuine}
use wii_sec_u.Assembler.Stream.{run}
use wii_sec_u.Assembler.Complete.{AreOf, Arrives, IsIdle, run_complete}
use wii_sec_u.StreamPlugin.Net.{Net, net_send_video_frame}
use wii_sec_u.StreamPlugin.Net.Slices.{
  AreCarried, KeepsHost, chunks, cut, sent_of, flatten-chunks, length-chunks, cut-AreOf,
  cut-Arrives, send_slices-AreCarried,
}

-- A frame of at most 65535 slices has as many as it needs.
pub video_slice_count_lem :
    (n : ℕ)
    → 0 < n
    → n ≤ 65535 * max_slice_payload
    → (n ≤ video_slice_count n * max_slice_payload)
      × ((video_slice_count n - 1) * max_slice_payload < n)
      × (video_slice_count n < 2 ^ 16)
unfolding video_slice_count
video_slice_count_lem n h b = ground arith

-- Membership among the slices that a receiver gets.
abbrev pub In : VideoHeader × List ℕ → List (VideoHeader × List ℕ) → Type 0
In x [] = ⊥
In x (y ∷ ys) = (x ≡ y) ⊎ In x ys

abbrev IsOf : ℕ → Sent → VideoHeader × List ℕ → Type 0
IsOf id s x = (x.0.frame_id ≡ id) × IsSlice x.0 x.1 × IsGenuine (λ _. s) x.0 x.1

In-IsOf :
    (id : ℕ) (s : Sent) (x : VideoHeader × List ℕ) (ys : List (VideoHeader × List ℕ))
    → In x ys
    → AreOf id s ys
    → IsOf id s x
In-IsOf id s x [] h g = absurd h
In-IsOf id s x ((v, payload) ∷ ys) (inl e) (f, sl, gen, g) = subst (IsOf id s) (sym e) (f, sl, gen)
In-IsOf id s x ((v, payload) ∷ ys) (inr h) (f, sl, gen, g) = In-IsOf id s x ys h g

In-AreOf :
    (id : ℕ) (s : Sent) (xs ys : List (VideoHeader × List ℕ))
    → ((x : VideoHeader × List ℕ) → In x xs → In x ys)
    → AreOf id s ys
    → AreOf id s xs
In-AreOf id s [] ys h g = tt
In-AreOf id s ((v, payload) ∷ xs) ys h g =
    let (f, sl, gen) = In-IsOf id s (v, payload) ys (h (v, payload) (inl refl)) g in
    (f, sl, gen, In-AreOf id s xs ys (λ x i. h x (inr i)) g)

In-Arrives :
    (x : VideoHeader × List ℕ) (ys : List (VideoHeader × List ℕ))
    → In x ys
    → Arrives x.0.slice_index ys
In-Arrives x [] h = absurd h
In-Arrives x ((v, payload) ∷ ys) (inl e) = inl (ap (λ y. y.0.slice_index) (sym e))
In-Arrives x ((v, payload) ∷ ys) (inr h) = inr (In-Arrives x ys h)

Arrives-In :
    (i : ℕ) (xs ys : List (VideoHeader × List ℕ))
    → ((x : VideoHeader × List ℕ) → In x xs → In x ys)
    → Arrives i xs
    → Arrives i ys
Arrives-In i [] ys h a = absurd a
Arrives-In i ((v, payload) ∷ xs) ys h (inl e) =
    subst (λ j. Arrives j ys) e (In-Arrives (v, payload) ys (h (v, payload) (inl refl)))
Arrives-In i ((v, payload) ∷ xs) ys h (inr a) = Arrives-In i xs ys (λ x m. h x (inr m)) a

chunks-small :
    (n : ℕ) (rest : List ℕ) (i : ℕ) → length (get_or (chunks n rest) i []) ≤ max_slice_payload
chunks-small zero rest i = omega arith
chunks-small (suc n) rest zero = omega (arith, length-take max_slice_payload rest)
chunks-small (suc n) rest (suc i) = chunks-small n (drop max_slice_payload rest) i

abbrev pub next_id : Net → ℕ
next_id s = (s.frame_id + 1) % 2 ^ 32

abbrev pub flags_of : Bool → ℕ
flags_of keyframe = if keyframe then 1 else 0

-- The slices of the frame that the call with this data is to send.
abbrev pub wanted : ℕ → ℕ → ℕ → List ℕ → List (VideoHeader × List ℕ)
wanted id timestamp_ms flags bytes =
    let n = video_slice_count (length bytes) in cut n 0 n timestamp_ms flags id bytes

module _ (s : Net) (timestamp_ms : ℕ) (keyframe : Bool) (bytes : List ℕ) (some_ : 0 < length bytes)
    (bound : length bytes ≤ 65535 * max_slice_payload) where
  abbrev count : ℕ
  count = video_slice_count (length bytes)

  abbrev slices : List (VideoHeader × List ℕ)
  slices = wanted (next_id s) timestamp_ms (flags_of keyframe) bytes

  -- A frame of at most 65535 slices, sent with the socket open and a host that takes part, where what the
  -- network thread does before each packet leaves the host's address and the open socket as they are and the
  -- sequence number a 16-bit one: the call makes datagrams to the host alone, and a receiver reads from them
  -- the slices of the data, each whole and in their order.
  pub net_send_video_frame-AreCarried :
      (meanwhile : ℕ → Net → Net)
      → KeepsHost s.host_addr meanwhile
      → s.host_active ≡ true
      → s.sock_open ≡ true
      → s.tx_seq < 2 ^ 16
      → timestamp_ms < 2 ^ 32
      → AreCarried s.host_addr
          (net_send_video_frame meanwhile bytes timestamp_ms keyframe s).1
          slices
  unfolding net_send_video_frame
  net_send_video_frame-AreCarried meanwhile kept active open_ q t =
      let (_, _, fits) = video_slice_count_lem (length bytes) some_ bound in
      let e : (length bytes == 0) ≡ false =
        ne→not_== (length bytes) 0 (λ q. absurd (omega arith)) in
      let guard : (not s.host_active || (length bytes == 0)) ≡ false = rw (active, e) refl in
      let m : length bytes % 2 ^ 32 ≡ length bytes = omega arith in
      rw (guard, m)
        (send_slices-AreCarried s.host_addr meanwhile count 0 count timestamp_ms (flags_of keyframe)
          bytes (next_id s) (record s { frame_id = next_id s }) kept refl (omega arith)
          record {
            id_fits = omega arith;
            timestamp_fits = t;
            slices_fit = fits;
            seq_fits = q;
            open_ = open_;
          })

  -- Whichever receiver gets all the slices of this frame, in any order and any number of times
  -- each, and none but them, with no frame under way and no newer one delivered, delivers one
  -- frame, which is the data that was sent.
  pub wanted-delivered :
      (a : Assembler) (received : List (VideoHeader × List ℕ))
      → 0 < length a.pending
      → All IsIdle a.pending
      → is_stale a (next_id s) ≡ false
      → ((x : VideoHeader × List ℕ) → In x received → In x slices)
      → ((x : VideoHeader × List ℕ) → In x slices → In x received)
      → run a received
        ≡ record {
          frame_id = next_id s;
          timestamp_ms = timestamp_ms;
          flags = flags_of keyframe;
          bytes = bytes;
        }
          ∷ []
  wanted-delivered a received n idle st only every =
      let sent = sent_of count timestamp_ms (flags_of keyframe) bytes in
      let (enough, least, fits) = video_slice_count_lem (length bytes) some_ bound in
      let whole = length-chunks count bytes in
      let of_ : AreOf (next_id s) sent slices =
        cut-AreOf sent count 0 count (next_id s) bytes (omega arith) fits whole refl in
      rw (flatten-chunks count bytes enough) at (
        run_complete (next_id s) sent (chunks-small count bytes) received a n idle
          (rw whole (omega arith)) (In-AreOf (next_id s) sent received slices only of_) st
          (λ i b. Arrives-In i slices received every (
            cut-Arrives count 0 count timestamp_ms (flags_of keyframe) (next_id s) bytes i
              (omega arith) (omega (arith, whole)))))
