-- ===== src/Display/Inbox/Latest.antt =====
-- The newest frame wins.
use wii_sec_u.Base.{
  ℕ, zero, suc, ◌*◌, ◌-◌, ◌^◌, ◌≡◌, refl, ap, ◌∙◌, Bool, true, false, not, ◌||◌, List, [], ◌∷◌,
  Option, none, some, length, ltb, ◌==◌, if◌then◌else◌,
}
use wii_sec_u.Base.Int.{ℤ, pos, negsuc}
use wii_sec_u.Protocol.Types.{Config}
use wii_sec_u.Assembler.{Frame}
use wii_sec_u.Display.{
  Stb, FrameDecoder, DecodedFrame, Decoding, decode, decode_raw, decode_mjpeg, decode_loaded,
  codec_rawrgb, codec_mjpeg,
}
use wii_sec_u.Display.Inbox.{Inbox, decoding, keep_decoded, inbox_frame, waiting_frame}

-- The frames come in one after another.
abbrev pub inbox_frames : Stb → List Frame → Inbox → Inbox
inbox_frames stb [] i = i
inbox_frames stb (f ∷ fs) i = inbox_frames stb fs (inbox_frame stb f i).0

abbrev pub idle_decoder : FrameDecoder
idle_decoder = record { decoded = 0; failed = 0 }

-- What a frame is for the configuration.
abbrev pub decoded_of : Stb → Config → Frame → Option DecodedFrame
decoded_of stb c frame = (decode stb c.video_codec c.width c.height frame idle_decoder).1

abbrev pub or_else {ℓ} : {A : Type ℓ} → Option A → Option A → Option A
or_else none b = b
or_else (some a) b = some a

-- The last frame of a list that decodes.
abbrev pub newest : Stb → Config → List Frame → Option DecodedFrame
newest stb c [] = none
newest stb c (f ∷ fs) = or_else (newest stb c fs) (decoded_of stb c f)

same_second :
    (b : Bool) (x y x' y' : Decoding)
    → x.1 ≡ x'.1
    → y.1 ≡ y'.1
    → (if b then x else y).1 ≡ (if b then x' else y').1
same_second true x y x' y' p q = p
same_second false x y x' y' p q = q

decode_loaded-same :
    (frame : Frame) (o : Option (ℤ × (ℤ × List ℕ))) (s t : FrameDecoder)
    → (decode_loaded frame o s).1 ≡ (decode_loaded frame o t).1
decode_loaded-same frame none s t = refl
decode_loaded-same frame (some (pos (suc w), (pos (suc h), pixels))) s t = refl
decode_loaded-same frame (some (pos (suc w), (pos zero, pixels))) s t = refl
decode_loaded-same frame (some (pos (suc w), (negsuc h, pixels))) s t = refl
decode_loaded-same frame (some (pos zero, (h, pixels))) s t = refl
decode_loaded-same frame (some (negsuc w, (h, pixels))) s t = refl

-- The counts do not matter to what is decoded.
decode_same :
    (stb : Stb) (codec w h : ℕ) (frame : Frame) (s t : FrameDecoder)
    → (decode stb codec w h frame s).1 ≡ (decode stb codec w h frame t).1
unfolding decode decode_raw decode_mjpeg
decode_same stb codec w h frame s t =
    same_second (codec == codec_rawrgb) _ _ _ _
      (same_second (w == 0 || h == 0 || not (length frame.bytes == w * h * 3)) _ _ _ _ refl refl)
      (same_second (codec == codec_mjpeg) _ _ _ _
        (same_second (ltb (2 ^ 31 - 1) (length frame.bytes)) _ _ _ _ refl
          (decode_loaded-same frame (stb frame.bytes) s t))
        refl)

keep_decoded-waiting :
    (o : Option DecodedFrame) (decoder : FrameDecoder) (i : Inbox)
    → ((keep_decoded o decoder i).0.config ≡ i.config)
      × ((keep_decoded o decoder i).0.has_config ≡ i.has_config)
      × (waiting_frame (keep_decoded o decoder i).0 ≡ or_else o (waiting_frame i))
keep_decoded-waiting none decoder i = (refl, refl, refl)
keep_decoded-waiting (some d) decoder i = (refl, refl, refl)

taken_frame :
    (stb : Stb) (frame : Frame) (i : Inbox)
    → i.has_config ≡ true
    → ((inbox_frame stb frame i).0.config ≡ i.config)
      × ((inbox_frame stb frame i).0.has_config ≡ true)
      × (waiting_frame (inbox_frame stb frame i).0
          ≡ or_else (decoded_of stb i.config frame) (waiting_frame i))
unfolding inbox_frame
taken_frame stb frame i on =
    let same =
      decode_same stb i.config.video_codec i.config.width i.config.height frame i.decoder
        idle_decoder in
    let d = decoding stb frame i in
    let step : inbox_frame stb frame i ≡ keep_decoded d.1 d.0 i =
      ap (λ b. if not b then (i, false) else keep_decoded d.1 d.0 i) on in
    let (config, has, frame_kept) = keep_decoded-waiting d.1 d.0 i in
    (
      ap (λ r. r.0.config) step ∙ config,
      ap (λ r. r.0.has_config) step ∙ (has ∙ on),
      ap (λ r. waiting_frame r.0) step ∙ (frame_kept ∙ ap (λ o. or_else o (waiting_frame i)) same),
    )

or_else_assoc : (a b c : Option DecodedFrame) → or_else a (or_else b c) ≡ or_else (or_else a b) c
or_else_assoc none b c = refl
or_else_assoc (some d) b c = refl

-- After any frames the sink shows next the last of them that decodes, and what it had before if none
-- does: a frame that does not decode, or that comes before the picture is drawn, holds nothing up.
pub inbox_frames-newest :
    (stb : Stb) (fs : List Frame) (i : Inbox)
    → i.has_config ≡ true
    → waiting_frame (inbox_frames stb fs i) ≡ or_else (newest stb i.config fs) (waiting_frame i)
inbox_frames-newest stb [] i on = refl
inbox_frames-newest stb (f ∷ fs) i on =
    let (config, has, frame_kept) = taken_frame stb f i on in
    let j = (inbox_frame stb f i).0 in
    inbox_frames-newest stb fs j has
    ∙ (ap (λ c. or_else (newest stb c fs) (waiting_frame j)) config
        ∙ (ap (or_else (newest stb i.config fs)) frame_kept
            ∙ or_else_assoc (newest stb i.config fs) (decoded_of stb i.config f) (waiting_frame i)))
