-- ===== src/InputPlugin/RemoteInput.antt =====
-- wiiu/input-plugin/src/remote_input.h: the states that the network thread writes and the read hooks
-- take. Its mutex makes each operation one step.
pub mod Updates
use wii_sec_u.Base.{
  ℕ, Bool, true, false, not, ◌&&◌, List, [], ◌∷◌, Option, none, some, get_or, set, replicate, ltb,
  leb, ◌==◌, if◌then◌else◌,
}
use wii_sec_u.Base.Word.{sub32}
use wii_sec_u.Protocol.Types.{InputState, input_state_init, no_slot, max_players, input_timeout_ms}

pub record RemoteInput : Type 0 where
  pub state : List InputState
  pub updated_at_ms : List ℕ

unfoldable pub remote_init : RemoteInput
remote_init = record {
  state = input_state_init 0 ∷ input_state_init 1 ∷ input_state_init 2 ∷ input_state_init 3 ∷ [];
  updated_at_ms = replicate max_players 0;
}

unfoldable pub update : InputState → ℕ → RemoteInput → RemoteInput
update s now r =
    if leb max_players s.slot
    then r
    else record { state = set r.state s.slot s; updated_at_ms = set r.updated_at_ms s.slot now }

-- The state, or `none` for the result false.
unfoldable pub remote_get : ℕ → ℕ → RemoteInput → Option InputState
remote_get slot now r =
    let at = get_or r.updated_at_ms slot 0 in
    if leb max_players slot
    then none
    else if not (at == 0) && ltb (sub32 now at) input_timeout_ms
    then some (get_or r.state slot (input_state_init no_slot))
    else none

unfoldable pub deactivate_all : RemoteInput → RemoteInput
deactivate_all r = record r { updated_at_ms = replicate max_players 0 }

-- netThread's loop over the states of a bundle.
unfoldable pub update_all : List InputState → ℕ → RemoteInput → RemoteInput
unfolding update
update_all [] now r = r
update_all (s ∷ states) now r = update_all states now (update s now r)
