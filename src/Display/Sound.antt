-- ===== src/Display/Sound.antt =====
-- The sound of both sinks that play it, GuiVideoView (pc/src/gui/gui_video_view.cpp) and SdlDisplaySink
-- (pc/src/video/sdl_display_sink.cpp): they do the same. SDL's audio device is a parameter.
pub mod Samples
use wii_sec_u.Base.{
  ℕ, zero, suc, ◌+◌, ◌*◌, ◌%◌, ◌^◌, Bool, true, false, not, ◌&&◌, ◌||◌, List, [], ◌∷◌, Option, none,
  some, length, ltb, leb, ◌==◌, if◌then◌else◌,
}
use wii_sec_u.Base.Int.{ℤ, to_i16}
use wii_sec_u.Protocol.Types.{Config}

-- WSU_AUDIO_PCM16
abbrev pub audio_pcm16 : ℕ
audio_pcm16 = 1

-- kMaxQueuedAudioBytes
abbrev pub max_queued_audio_bytes : ℕ
max_queued_audio_bytes = 48000

-- audioDevice_, `none` for 0, with the rate that it was opened for, and audioFailed_.
pub record Speaker : Type 0 where
  pub device : Option ℕ
  pub failed : Bool

-- `config.audioRateHz > 0 ? config.audioRateHz : 48000`
abbrev pub wanted_rate : Config → ℕ
wanted_rate c = if ltb 0 c.audio_rate_hz then c.audio_rate_hz else 48000

-- openAudio; `opens` is whether SDL gives a device for a rate.
unfoldable pub open_audio : (ℕ → Bool) → Config → Speaker → Speaker
open_audio opens c s =
    if opens (wanted_rate c)
    then record s { device = some (wanted_rate c) }
    else record s { failed = true }

abbrev pub is_none {ℓ} : {A : Type ℓ} → Option A → Bool
is_none none = true
is_none (some a) = false

-- Under the mutex: the device is opened by the first packet.
unfoldable pub ready_speaker : (ℕ → Bool) → Config → Speaker → Speaker
unfolding open_audio
ready_speaker opens c s = if is_none s.device && not s.failed then open_audio opens c s else s

-- The samples of a packet; the bytes do not overlap, so `|` is a sum.
unfoldable pub samples_of : List ℕ → List ℤ
samples_of [] = []
samples_of (b ∷ []) = []
samples_of (hi ∷ lo ∷ rest) = to_i16 (hi * 2 ^ 8 + lo) ∷ samples_of rest

-- onAudio, with the samples that are queued; `queued` is what SDL says is in the queue.
unfoldable pub play : (ℕ → Bool) → ℕ → Bool → Config → List ℕ → Speaker → Speaker × Option (List ℤ)
unfolding ready_speaker samples_of
play opens queued has_config c payload s =
    let ready = ready_speaker opens c s in
    if ltb (length payload) 4 || not (length payload % 4 == 0)
    then (s, none)
    else if not has_config || not (c.audio_codec == audio_pcm16)
    then (s, none)
    else if is_none ready.device
    then (ready, none)
    else (ready, if leb queued max_queued_audio_bytes then some (samples_of payload) else none)
