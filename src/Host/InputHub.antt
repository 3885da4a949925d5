-- ===== src/Host/InputHub.antt =====
-- pc/src/core/input_hub.{h,cpp} and pc/src/core/controller_state.h: the four controllers that the
-- host merges. A hub is the list of its slots; its mutex makes each operation one step.
pub mod Slots
use wii_sec_u.Base.{
  ℕ, Bool, true, false, not, ◌&&◌, List, [], ◌∷◌, Option, none, some, length, get_or, set,
  replicate, ltb, leb, ◌==◌, if◌then◌else◌,
}
use wii_sec_u.Base.Word.{sub32}
use wii_sec_u.Protocol.Types.{InputState, input_state_init, no_slot, max_players, input_timeout_ms}
use wii_sec_u.Protocol.Pack.{pack_input_bundle}

pub record ControllerState : Type 0 where
  pub wire : InputState
  pub updated_at_ms : ℕ

-- The constructor, and neutral.
unfoldable pub neutral : ℕ → ControllerState
unfolding input_state_init
neutral slot = record { wire = input_state_init slot; updated_at_ms = 0 }

abbrev pub InputHub : Type 0
InputHub = List ControllerState

abbrev pub new_hub : InputHub
new_hub = replicate max_players (neutral no_slot)

unfoldable pub hub_set : ℕ → InputState → ℕ → InputHub → InputHub
hub_set slot state now hub =
    if leb max_players slot
    then hub
    else set hub slot (record { wire = record state { slot = slot }; updated_at_ms = now })

unfoldable pub hub_clear : ℕ → InputHub → InputHub
hub_clear slot hub = if leb max_players slot then hub else set hub slot (neutral slot)

-- `updatedAtMs != 0 && ageMs(nowMs, updatedAtMs) < WSU_INPUT_TIMEOUT_MS`
unfoldable pub is_live : ℕ → ControllerState → Bool
is_live now c = not (c.updated_at_ms == 0) && ltb (sub32 now c.updated_at_ms) input_timeout_ms

unfoldable pub active : ℕ → List ControllerState → List InputState
unfolding is_live
active now [] = []
active now (c ∷ cs) = let rest = active now cs in if is_live now c then c.wire ∷ rest else rest

-- `none` is the result 0.
unfoldable pub pack_bundle : ℕ → ℕ → ℕ → InputHub → Option (List ℕ)
unfolding active
pack_bundle cap seq now hub =
    if length (active now hub) == 0 then none else pack_input_bundle cap seq now (active now hub)

unfoldable pub is_active : ℕ → ℕ → InputHub → Bool
is_active slot now hub =
    if leb max_players slot then false else is_live now (get_or hub slot (neutral no_slot))

unfoldable pub hub_get : ℕ → InputHub → InputState
unfolding input_state_init
hub_get slot hub =
    if leb max_players slot
    then input_state_init no_slot
    else (get_or hub slot (neutral no_slot)).wire
