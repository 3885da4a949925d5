-- ===== src/StreamPlugin/Surface.antt =====
-- What the capture hook and the encoder thread of wiiu/stream-plugin/src share: the two capture slots of
-- capture.cpp, the queue of encoder.cpp, and the calls by which each hands a surface to the other. The
-- console's graphics, heap and message queue functions are a parameter.
use wii_sec_u.Base.{ℕ, Bool, List, Option, none, some, get_or, set, ltb, if◌then◌else◌}

-- SurfaceState
pub data SlotState : Type 0 where
  free copy_pending encoding : SlotState

-- What is used of a GX2Surface.
pub record Surface : Type 0 where
  pub width : ℕ
  pub height : ℕ
  pub format : ℕ
  pub pitch : ℕ
  pub image_size : ℕ

-- `image` is the address, `none` for a null pointer.
pub record CaptureSlot : Type 0 where
  pub surface : Surface
  pub image : Option ℕ
  pub state : SlotState
  pub issued_at_ms : ℕ

pub record CapturedSurface : Type 0 where
  pub pixels : Option ℕ
  pub captured_width : ℕ
  pub captured_height : ℕ
  pub captured_pitch : ℕ
  pub captured_format : ℕ
  pub timestamp_ms : ℕ

-- kMsgShutdown is the other message.
pub data Message : Type 0 where
  surface_ready : ℕ → Message
  shut_down : Message

-- Where the encoder thread is in its pass: at the blocking receive, with a surface that it reads, past
-- captureRelease with the frame that it is to send, or at its end.
pub data Phase : Type 0 where
  waiting : Phase
  reading : ℕ → Phase
  sending : ℕ → List ℕ → Phase
  stopped : Phase

-- The globals of both files.
pub record Capture : Type 0 where
  pub slots : List CaptureSlot
  pub captured : List CapturedSurface
  pub last_capture_ms : ℕ
  pub initialized : Bool
  pub format_warned : Bool
  pub queue : List Message
  pub encoder_running : Bool
  pub phase : Phase

-- GX2CalcSurfaceSizeAndAlignment (the pitch and the size for a width, a height and a format), the SDK's
-- constants, and OSSendMessage without blocking on a queue of that capacity.
pub record System : Type 0 where
  pub pitch_of : ℕ → ℕ → ℕ → ℕ
  pub size_of : ℕ → ℕ → ℕ → ℕ
  pub aa_mode_1x : ℕ
  pub format_unorm : ℕ
  pub format_srgb : ℕ
  pub send_message : ℕ → List Message → Message → Option (List Message)

-- kQueueSize
abbrev pub queue_size : ℕ
queue_size = 4

abbrev pub no_surface : Surface
no_surface = record { width = 0; height = 0; format = 0; pitch = 0; image_size = 0 }

abbrev pub empty_slot : CaptureSlot
empty_slot = record { surface = no_surface; image = none; state = free; issued_at_ms = 0 }

abbrev pub no_captured : CapturedSurface
no_captured = record {
  pixels = none;
  captured_width = 0;
  captured_height = 0;
  captured_pitch = 0;
  captured_format = 0;
  timestamp_ms = 0;
}

abbrev pub slot_at : Capture → ℕ → CaptureSlot
slot_at c i = get_or c.slots i empty_slot

abbrev pub captured_at : Capture → ℕ → CapturedSurface
captured_at c i = get_or c.captured i no_captured

abbrev pub set_state : ℕ → SlotState → Capture → Capture
set_state i st c = record c { slots = set c.slots i (record (slot_at c i) { state = st }) }

unfoldable pub capture_release : ℕ → Capture → Capture
capture_release i c = if ltb 1 i then c else set_state i free c

-- captureGetSurface
unfoldable pub capture_get_surface : Capture → ℕ → Option CapturedSurface
capture_get_surface c i = if ltb 1 i then none else some (captured_at c i)

unfoldable pub encoder_submit : System → ℕ → Capture → Capture
unfolding capture_release
encoder_submit sys i c = elim (sys.send_message queue_size c.queue (surface_ready i)) [
  | some queue ↦ record c { queue = queue }
  | none ↦ capture_release i c
]
