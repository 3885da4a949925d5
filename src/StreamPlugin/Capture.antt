-- ===== src/StreamPlugin/Capture.antt =====
-- wiiu/stream-plugin/src/capture.cpp: the hook on the TV's scan-out, which copies the picture to a slot
-- and hands the copy of the scan-out before to the encoder. gCaptureMutex makes a call one step.
pub mod Keep
use wii_sec_u.Base.{
  ℕ, zero, suc, ◌/◌, Bool, true, false, not, ◌&&◌, ◌||◌, List, [], ◌∷◌, Option, none, some, get_or,
  set, map, ltb, leb, ◌==◌, if◌then◌else◌,
}
use wii_sec_u.Base.Word.{sub32}
use wii_sec_u.StreamPlugin.Surface.{
  SlotState, free, copy_pending, encoding, Surface, CaptureSlot, CapturedSurface, Capture, System,
  slot_at, no_surface, captured_at, encoder_submit,
}

unfoldable pub format_supported : System → ℕ → Bool
format_supported sys format = format == sys.format_unorm || (format == sys.format_srgb)

unfoldable pub free_slot : CaptureSlot → CaptureSlot
free_slot s = record s { image = none; state = free }

-- The surface that the slot gets.
abbrev pub linear : System → Surface → Surface
linear sys src = record {
  width = src.width;
  height = src.height;
  format = src.format;
  pitch = sys.pitch_of src.width src.height src.format;
  image_size = sys.size_of src.width src.height src.format;
}

abbrev pub is_some {ℓ} : {A : Type ℓ} → Option A → Bool
is_some none = false
is_some (some a) = true

-- With the result. `alloc` is what the heap gives for a size.
unfoldable pub prepare_slot : System → (ℕ → Option ℕ) → CaptureSlot → Surface → Bool × CaptureSlot
unfolding free_slot
prepare_slot sys alloc slot src =
    let surface = linear sys src in
    let image = alloc surface.image_size in
    if is_some slot.image
      && (slot.surface.width == src.width
          && (slot.surface.height == src.height && (slot.surface.format == src.format)))
    then (true, slot)
    else (is_some image, record (free_slot slot) { surface = surface; image = image })

abbrev pub is_pending : SlotState → Bool
is_pending copy_pending = true
is_pending free = false
is_pending encoding = false

abbrev pub is_free : SlotState → Bool
is_free free = true
is_free copy_pending = false
is_free encoding = false

-- The first loop's body.
unfoldable pub hand_over : System → ℕ → ℕ → Capture → Capture
unfolding encoder_submit
hand_over sys now i c =
    let slot = slot_at c i in
    let c1 : Capture = record c {
      captured = set c.captured i (record {
        pixels = slot.image;
        captured_width = slot.surface.width;
        captured_height = slot.surface.height;
        captured_pitch = slot.surface.pitch;
        captured_format = slot.surface.format;
        timestamp_ms = slot.issued_at_ms;
      });
      slots = set c.slots i (record slot { state = encoding });
    } in
    if is_pending slot.state && not (slot.issued_at_ms == now) then encoder_submit sys i c1 else c

-- The second loop's body for a slot that is free.
unfoldable pub issue : System → (ℕ → Option ℕ) → Surface → ℕ → ℕ → Capture → Capture
unfolding prepare_slot
issue sys alloc src now i c =
    let (done, slot) = prepare_slot sys alloc (slot_at c i) src in
    if done
    then record c {
      slots = set c.slots i (record slot { state = copy_pending; issued_at_ms = now });
      last_capture_ms = now;
    }
    else record c { slots = set c.slots i slot }

-- The second loop: the first free slot is taken, and whether or not it could be prepared ends it.
unfoldable pub issue_first : System → (ℕ → Option ℕ) → Surface → ℕ → Capture → Capture
unfolding issue
issue_first sys alloc src now c =
    if is_free (slot_at c 0).state
    then issue sys alloc src now 0 c
    else if is_free (slot_at c 1).state
    then issue sys alloc src now 1 c
    else c

abbrev pub interval_ms : ℕ → ℕ
interval_ms fps = if ltb 0 fps then 1000 / fps else 50

-- What is under the mutex.
unfoldable pub scan_out : System → (ℕ → Option ℕ) → ℕ → Surface → ℕ → Capture → Capture
unfolding hand_over issue_first
scan_out sys alloc fps src now c =
    let c2 = hand_over sys now 1 (hand_over sys now 0 c) in
    if leb (interval_ms fps) (sub32 now c2.last_capture_ms)
    then issue_first sys alloc src now c2
    else c2

-- onTvScanout, with the surface and the antialiasing mode of the color buffer, `none` if that is null.
unfoldable pub on_tv_scanout :
    System → (ℕ → Option ℕ) → Bool → ℕ → Option (Surface × ℕ) → ℕ → Capture → Capture
unfolding scan_out format_supported
on_tv_scanout sys alloc host_active fps none now c = c
on_tv_scanout sys alloc host_active fps (some (src, aa)) now c =
    if not c.initialized
    then c
    else if not host_active
    then c
    else if not (aa == sys.aa_mode_1x)
    then c
    else if not (format_supported sys src.format)
    then record c { format_warned = true }
    else scan_out sys alloc fps src now c

unfoldable pub capture_init : Capture → Capture
capture_init c = record c { last_capture_ms = 0; format_warned = false; initialized = true }

unfoldable pub capture_shutdown : Capture → Capture
unfolding free_slot
capture_shutdown c = record c { initialized = false; slots = map free_slot c.slots }

-- my_GX2CopyColorBufferToScanBuffer, before it calls the system's function.
unfoldable pub scan_buffer_hook :
    System → (ℕ → Option ℕ) → Bool → ℕ → Bool → Option (Surface × ℕ) → ℕ → Capture → Capture
unfolding on_tv_scanout
scan_buffer_hook sys alloc host_active fps is_tv buffer now c =
    if is_tv then on_tv_scanout sys alloc host_active fps buffer now c else c
