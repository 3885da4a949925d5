-- ===== src/StreamPlugin/Encoder.antt =====
-- wiiu/stream-plugin/src/encoder.cpp: the thread that makes JPEG pictures of captured surfaces. A pass
-- of encoderThread is `take_message`, which ends with the frame compressed, `release_surface` and
-- `send_frame`: between them the hook on the scan-out may run. libjpeg is a parameter, and the memory is
-- the list of the 32-bit words of an image at each address.
pub mod Downscale
pub mod Session
use wii_sec_u.Base.{
  ℕ, zero, suc, ◌+◌, ◌*◌, ◌/◌, ◌%◌, ◌^◌, Bool, true, false, not, ◌&&◌, ◌||◌, List, [], ◌∷◌, ◌++◌,
  Option, none, some, get_elem?, length, ltb, leb, ◌==◌, if◌then◌else◌,
}
use wii_sec_u.Base.Maybe.{◌>>=◌}
use wii_sec_u.Endpoint.{Packet}
use wii_sec_u.StreamPlugin.Net.{StreamConfig, Net, net_send_video_frame}
use wii_sec_u.StreamPlugin.Surface.{
  CapturedSurface, Capture, System, Message, surface_ready, shut_down, Phase, waiting, reading,
  sending, stopped, captured_at, capture_get_surface, capture_release, queue_size,
}

-- kMaxOutW and kMaxOutH
abbrev pub max_out_w : ℕ
max_out_w = 854

abbrev pub max_out_h : ℕ
max_out_h = 480

-- gJpegCap
abbrev pub jpeg_cap : ℕ
jpeg_cap = max_out_w * max_out_h * 3

-- `i * size / out` on `uint32_t`
abbrev pub scaled : ℕ → ℕ → ℕ → ℕ
scaled i size out = i * size % 2 ^ 32 / out

abbrev pub rgb_of : ℕ → List ℕ
rgb_of px = (px / 2 ^ 24 % 2 ^ 8) ∷ (px / 2 ^ 16 % 2 ^ 8) ∷ (px / 2 ^ 8 % 2 ^ 8) ∷ []

-- `n` pixels of an output row from `x` on, out of the row that starts at `base`; `none` stands for a
-- read past the image.
unfoldable pub down_row : ℕ → List ℕ → ℕ → ℕ → ℕ → ℕ → Option (List ℕ)
down_row zero pixels base width out_w x = some []
down_row (suc n) pixels base width out_w x = do
  px ← get_elem? pixels (base + scaled x width out_w)
  rest ← down_row n pixels base width out_w (suc x)
  some (rgb_of px ++ rest)

unfoldable pub down_rows : ℕ → List ℕ → CapturedSurface → ℕ → ℕ → ℕ → Option (List ℕ)
unfolding down_row
down_rows zero pixels src out_w out_h y = some []
down_rows (suc n) pixels src out_w out_h y = do
  row ←
      down_row out_w pixels (scaled y src.captured_height out_h * src.captured_pitch)
        src.captured_width out_w 0
  rest ← down_rows n pixels src out_w out_h (suc y)
  some (row ++ rest)

unfoldable pub downscale : List ℕ → CapturedSurface → ℕ → ℕ → Option (List ℕ)
unfolding down_rows
downscale pixels src out_w out_h = down_rows out_h pixels src out_w out_h 0

-- The output size: one out of range becomes the greatest.
abbrev pub out_size : ℕ → ℕ → ℕ
out_size most n = if ltb n 16 || ltb most n then most else n

-- libjpeg on a picture of a width, a height and a quality: whether it moved to a buffer of its own, and
-- what it wrote.
abbrev pub Jpeg : Type 0
Jpeg = List ℕ → ℕ → ℕ → ℕ → Bool × List ℕ

-- compress; an output in another buffer is copied if it is shorter than the old one, and is dropped if
-- not.
unfoldable pub compress : Jpeg → List ℕ → ℕ → ℕ → ℕ → List ℕ
compress jpeg rgb w h quality =
    let (moved, bytes) = jpeg rgb w h quality in
    if moved && leb jpeg_cap (length bytes) then [] else bytes

-- The picture of a surface, `none` for a read past its image.
unfoldable pub encode : Jpeg → (ℕ → List ℕ) → StreamConfig → CapturedSurface → ℕ → Option (List ℕ)
unfolding downscale compress
encode jpeg memory config src address = do
  let out_w = out_size max_out_w config.width
  let out_h = out_size max_out_h config.height
  rgb ← downscale (memory address) src out_w out_h
  some (compress jpeg rgb out_w out_h config.quality)

-- The pass from the receive on, up to where the surface is read.
unfoldable pub start_reading : ℕ → Capture → Capture
unfolding capture_get_surface capture_release
start_reading i c = elim (capture_get_surface c i) [
  | none ↦ record (capture_release i c) { phase = waiting }
  | some src ↦ elim src.pixels [
    | none ↦ record (capture_release i c) { phase = waiting }
    | some address ↦ record c { phase = reading i }
  ]
]

unfoldable pub take_message : Capture → Capture
unfolding start_reading
take_message c = elim c.queue [
  | [] ↦ c
  | shut_down ∷ queue ↦ record c { queue = queue; phase = stopped }
  | surface_ready i ∷ queue ↦ start_reading i (record c { queue = queue })
]

-- The surface is read and compressed, and released. The bytes are what `encode` gives of it.
unfoldable pub release_surface : ℕ → List ℕ → Capture → Capture
unfolding capture_release
release_surface i bytes c = record (capture_release i c) { phase = sending i bytes }

-- netSendVideoFrame, with the timestamp as it is by now, and nothing of the network thread between the
-- packets, on which the surfaces do not depend.
unfoldable pub send_frame : ℕ → List ℕ → Capture → Net → Capture × (Net × List Packet)
send_frame i bytes c s =
    let sent = net_send_video_frame (λ _ s. s) bytes (captured_at c i).timestamp_ms true s in
    (record c { phase = waiting }, if ltb 0 (length bytes) then sent else (s, []))

-- encoderStart with its result; `spawned` is whether the system gives a thread.
unfoldable pub encoder_start : Bool → Capture → Capture × Bool
encoder_start spawned c =
    if c.encoder_running
    then (c, true)
    else if spawned
    then (record c { queue = []; encoder_running = true; phase = waiting }, true)
    else (record c { queue = [] }, false)

-- encoderStop posts the message, blocking while the queue is full, and joins the thread: the caller
-- goes on once that has ended.
unfoldable pub post_shutdown : Capture → Capture
post_shutdown c =
    if c.encoder_running
    then record c { encoder_running = false; queue = c.queue ++ (shut_down ∷ []) }
    else c
