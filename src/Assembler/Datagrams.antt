-- ===== src/Assembler/Datagrams.antt =====
-- The datagrams that reach FrameAssembler::feed: wsu_parse_video of protocol/wsu_protocol.h lets through
-- what the invariant of the assembler needs.
use wii_sec_u.Base.{
  ℕ, zero, suc, subst, if-both, ◌+◌, ◌^◌, ◌<◌, ◌≤◌, ◌≡◌, sym, inl, inr, Bool, true, not, ◌&&◌, List,
  [], ◌∷◌, take, drop, length, ltb, leb, ◌==◌, if◌then◌else◌, arith, Bool-cases, length-take,
  length-drop,
}
use wii_sec_u.Base.All.{All, All-get_or}
use wii_sec_u.Protocol.Wire.{
  Parse, ok, reject, fault, Parse-cases, u8_at, u16_at, u32_at, get_u8-at, get_u16-at, get_u32-at,
  get_bytes-at,
}
use wii_sec_u.Protocol.Types.{VideoHeader, max_slice_payload, header_size}
use wii_sec_u.Protocol.Pkt
use wii_sec_u.Protocol.Parse.{parse_header, parse_video}
use wii_sec_u.StreamPlugin.Net.Slices.{video_of}
use wii_sec_u.Assembler.{Assembler, feed}
use wii_sec_u.Assembler.Inv.{IsSlice, Inv, feed-Inv}

abbrev pub IsBytes : List ℕ → Type 0
IsBytes p = All (λ b. b < 2 ^ 8) p

-- The fields where they stand in the payload.
abbrev video_at : List ℕ → VideoHeader
video_at p = record {
  frame_id = u32_at p 0;
  timestamp_ms = u32_at p 4;
  flags = u8_at p 8;
  slice_index = u16_at p 9;
  slice_count = u16_at p 11;
  payload_len = u16_at p 13;
}

abbrev is_video : List ℕ → Bool
is_video p =
    leb 15 (length p)
    && leb (u16_at p 13) max_slice_payload
    && leb (15 + u16_at p 13) (length p)
    && not (u16_at p 11 == 0)
    && ltb (u16_at p 9) (u16_at p 11)

parse_video-eq :
    (p : List ℕ)
    → parse_video p
      ≡ (if is_video p then ok (video_at p, take (u16_at p 13) (drop 15 p)) else reject)
unfolding parse_video
parse_video-eq p = ground (
  arith,
  get_u32-at p 0,
  get_u32-at p 4,
  get_u8-at p 8,
  get_u16-at p 9,
  get_u16-at p 11,
  get_u16-at p 13,
  get_bytes-at p 15 (u16_at p 13),
)

u16_at-lt : (p : List ℕ) (i : ℕ) → IsBytes p → u16_at p i < 2 ^ 16
u16_at-lt p i h = omega (
  arith,
  All-get_or (λ b. b < 2 ^ 8) p i 0 h (omega arith),
  All-get_or (λ b. b < 2 ^ 8) p (suc i) 0 h (omega arith),
)

-- What a result of the parser says of the slice.
abbrev LetsSlice : Parse (VideoHeader × List ℕ) → Type 0
LetsSlice (ok (v, payload)) = IsSlice v payload
LetsSlice reject = Unit
LetsSlice fault = Unit

parse_video-LetsSlice : (p : List ℕ) → IsBytes p → LetsSlice (parse_video p)
parse_video-LetsSlice p h =
    let slice : is_video p ≡ true → IsSlice (video_at p) (take (u16_at p 13) (drop 15 p)) = λ e.
      record {
        index_in = ground (arith, e);
        count_fits = u16_at-lt p 11 h;
        short = ground (arith, e);
        whole =
            let long : 15 + u16_at p 13 ≤ length p = ground (arith, e) in
            omega (arith, length-take (u16_at p 13) (drop 15 p), length-drop 15 p, long);
      } in
    subst LetsSlice (sym (parse_video-eq p))
      (elim (Bool-cases (is_video p)) [ inl e ↦ rw e (slice e) | inr e ↦ rw e tt ])

-- What wsu_parse_video lets through is a slice: its index is below the count, and its payload is there
-- and no longer than 1200 bytes.
pub parse_video-IsSlice :
    (p : List ℕ) (v : VideoHeader) (payload : List ℕ)
    → IsBytes p
    → parse_video p ≡ ok (v, payload)
    → IsSlice v payload
parse_video-IsSlice p v payload h e = subst LetsSlice e (parse_video-LetsSlice p h)

IsBytes-drop : (n : ℕ) (p : List ℕ) → IsBytes p → IsBytes (drop n p)
IsBytes-drop zero p h = h
IsBytes-drop (suc n) [] h = h
IsBytes-drop (suc n) (b ∷ p) (_, h) = IsBytes-drop n p h

video_of-LetsSlice : (d : List ℕ) → IsBytes d → LetsSlice (video_of d)
unfolding video_of
video_of-LetsSlice d h = elim (Parse-cases (parse_header d)) [
  | inl (hdr, e) ↦ rw e (
      if-both LetsSlice (hdr.type == Pkt.video)
        (parse_video-LetsSlice (drop header_size d) (IsBytes-drop header_size d h)) tt)
  | inr (inl e) ↦ rw e tt
  | inr (inr e) ↦ rw e tt
]

-- What a receiver does with a datagram: a slice goes to feed, all else is dropped.
abbrev pub fed : Parse (VideoHeader × List ℕ) → Assembler → Assembler
fed (ok (v, payload)) a = (feed a v payload).0
fed reject a = a
fed fault a = a

abbrev pub feed_datagrams : List (List ℕ) → Assembler → Assembler
feed_datagrams [] a = a
feed_datagrams (d ∷ ds) a = feed_datagrams ds (fed (video_of d) a)

fed-Inv : (r : Parse (VideoHeader × List ℕ)) (a : Assembler) → LetsSlice r → Inv a → Inv (fed r a)
fed-Inv (ok (v, payload)) a s i = feed-Inv a v payload s i
fed-Inv reject a s i = i
fed-Inv fault a s i = i

-- From an assembler in order, such as a new one, whatever datagrams of any bytes come in, each of them
-- parsed by wsu_parse_header and wsu_parse_video and fed if it is a slice, the assembler's invariant holds.
pub feed_datagrams-Inv :
    (ds : List (List ℕ)) (a : Assembler) → All IsBytes ds → Inv a → Inv (feed_datagrams ds a)
feed_datagrams-Inv [] a h i = i
feed_datagrams-Inv (d ∷ ds) a (b, h) i =
    feed_datagrams-Inv ds (fed (video_of d) a) h (fed-Inv (video_of d) a (video_of-LetsSlice d b) i)
