-- ===== src/Gui/SharedInput.antt =====
-- pc/src/gui/shared_input.h: the controller's state on its way from the window's thread to a session's.
use wii_sec_u.Base.{Bool, true, false, Option, none, some, if◌then◌else◌}
use wii_sec_u.Protocol.Types.{InputState, input_state_init}

pub record SharedInput : Type 0 where
  pub state : InputState
  pub valid : Bool

abbrev pub no_input_yet : SharedInput
no_input_yet = record { state = input_state_init 0; valid = false }

unfoldable pub set_input : InputState → SharedInput → SharedInput
set_input state i = record i { state = state; valid = true }

-- get, which is also the poll of SharedInputBackend
unfoldable pub get_input : SharedInput → Option InputState
get_input i = if i.valid then some i.state else none

unfoldable pub clear_input : SharedInput → SharedInput
clear_input i = record i { valid = false }
