-- ===== src/Sim/Picture.antt =====
-- The simulator's picture and its record of the controllers.
use wii_sec_u.Base.{
  ℕ, zero, suc, ◌*◌, ◌<◌, ◌≡◌, ◌≢◌, refl, sym, ◌∙◌, inl, inr, true, false, List, [], ◌∷◌, none,
  some, length, set, leb, ◌==◌, ==→eq, not_==→ne, if◌then◌else◌, arith, tests, Bool-cases,
  Option-cases, if-both, length-append, length-set, get_or-set_self, get_or-set_ne,
}
use wii_sec_u.Protocol.Types.{InputState, input_state_init, no_slot, max_players}
use wii_sec_u.Host.InputHub.Slots.{latest}
use wii_sec_u.Sim.{SimOptions, build_row, build_rows, build_frame, SimInput, keep, last_input_of}

length-build_row :
    (n : ℕ) (o : SimOptions) (frame_id y x : ℕ) → length (build_row n o frame_id y x) ≡ n * 3
unfolding build_row
length-build_row zero o frame_id y x = refl
length-build_row (suc n) o frame_id y x = omega (arith, length-build_row n o frame_id y (suc x))

length-build_rows :
    (n : ℕ) (o : SimOptions) (frame_id y : ℕ)
    → length (build_rows n o frame_id y) ≡ n * (o.width * 3)
unfolding build_rows
length-build_rows zero o frame_id y = let e : 0 * (o.width * 3) ≡ 0 = omega arith in sym e
length-build_rows (suc n) o frame_id y =
    let row = length-build_row o.width o frame_id y 0 in
    let rest = length-build_rows n o frame_id (suc y) in
    let both = length-append (build_row o.width o frame_id y 0) (build_rows n o frame_id (suc y)) in
    both ∙ rw (row, rest) (omega arith)

-- The frame has three bytes for each pixel.
pub length-build_frame :
    (o : SimOptions) (frame_id : ℕ) → length (build_frame o frame_id) ≡ o.height * (o.width * 3)
unfolding build_frame
length-build_frame o frame_id = length-build_rows o.height o frame_id 0

pub record IsSimInput (s : SimInput) : Type 0 where
  pub four_states : length s.last_input ≡ max_players
  pub four_flags : length s.have_input ≡ max_players

kept : InputState → SimInput → SimInput
kept state s = record s {
  last_input = set s.last_input state.slot state;
  have_input = set s.have_input state.slot true;
}

kept-IsSimInput : (state : InputState) (s : SimInput) → IsSimInput s → IsSimInput (kept state s)
unfolding kept
kept-IsSimInput state s h = record {
  four_states = length-set s.last_input state.slot state ∙ h.four_states;
  four_flags = length-set s.have_input state.slot true ∙ h.four_flags;
}

kept-other :
    (state : InputState) (slot : ℕ) (s : SimInput)
    → state.slot ≢ slot
    → last_input_of slot (if leb max_players state.slot then s else kept state s)
      ≡ last_input_of slot s
unfolding kept last_input_of
kept-other state slot s ne =
    if-both (λ t. last_input_of slot t ≡ last_input_of slot s) (leb max_players state.slot) refl
      (rw
        (
          get_or-set_ne s.have_input state.slot slot true false ne,
          get_or-set_ne s.last_input state.slot slot state (input_state_init no_slot) ne,
        )
        refl)

kept-own :
    (state : InputState) (s : SimInput)
    → IsSimInput s
    → state.slot < max_players
    → last_input_of state.slot (if leb max_players state.slot then s else kept state s) ≡ some state
unfolding kept last_input_of
kept-own state s h b =
    let below : leb max_players state.slot ≡ false = ground arith in
    rw
      (
        below,
        get_or-set_self s.have_input state.slot true false (omega (arith, h.four_flags)),
        get_or-set_self s.last_input state.slot state (input_state_init no_slot)
            (omega (arith, h.four_states)),
      )
      refl

-- After a bundle the simulator shows for a slot the last state that the bundle has for it, and what it
-- showed before if the bundle has none.
pub keep-last_input_of :
    (states : List InputState) (slot : ℕ) (s : SimInput)
    → IsSimInput s
    → slot < max_players
    → last_input_of slot (keep states s)
      ≡ elim (latest slot states) [ some state ↦ some state | none ↦ last_input_of slot s ]
unfolding keep kept
keep-last_input_of [] slot s h b = refl
keep-last_input_of (state ∷ states) slot s h b =
    let next : SimInput = if leb max_players state.slot then s else kept state s in
    let rest =
      keep-last_input_of states slot next
        (if-both IsSimInput (leb max_players state.slot) h (kept-IsSimInput state s h)) b in
    elim (Option-cases (latest slot states)) [
      | inl e ↦ elim (Bool-cases (state.slot == slot)) [
        | inl q ↦
            rw (e, q)
              (rw e at rest ∙ rw (sym (==→eq state.slot slot q)) (kept-own state s h (omega tests)))
        | inr q ↦ rw (e, q) (rw e at rest ∙ kept-other state slot s (not_==→ne state.slot slot q))
      ]
      | inr (x, e) ↦ rw e (rw e at rest)
    ]
