-- ===== src/InputPlugin/RemoteInput/Updates.antt =====
-- What the read hooks get after a bundle, and after a BYE.
use wii_sec_u.Base.{
  ℕ, ◌<◌, ◌≡◌, ◌≢◌, refl, sym, ◌∙◌, inl, inr, false, List, [], ◌∷◌, Option, none, some, length, ltb,
  leb, ◌==◌, if◌then◌else◌, arith, tests, Bool-cases, Option-cases, length-set, get_or-set_self,
  get_or-set_ne, get_or-replicate, ne→not_==, ==→eq, not_==→ne,
}
use wii_sec_u.Base.Word.{sub32}
use wii_sec_u.Protocol.Types.{InputState, input_state_init, no_slot, max_players, input_timeout_ms}
use wii_sec_u.Host.InputHub.Slots.{latest}
use wii_sec_u.InputPlugin.RemoteInput.{
  RemoteInput, remote_init, update, remote_get, deactivate_all, update_all,
}

pub record IsRemote (r : RemoteInput) : Type 0 where
  pub four_states : length r.state ≡ max_players
  pub four_times : length r.updated_at_ms ≡ max_players

pub remote_init-IsRemote : IsRemote remote_init
unfolding remote_init
remote_init-IsRemote = record { four_states = refl; four_times = refl }

pub update-IsRemote :
    (s : InputState) (now : ℕ) (r : RemoteInput) → IsRemote r → IsRemote (update s now r)
unfolding update
update-IsRemote s now r h = elim (Bool-cases (leb max_players s.slot)) [
  | inl e ↦ rw e h
  | inr e ↦ rw e record {
    four_states = length-set r.state s.slot s ∙ h.four_states;
    four_times = length-set r.updated_at_ms s.slot now ∙ h.four_times;
  }
]

pub update_all-IsRemote :
    (states : List InputState) (now : ℕ) (r : RemoteInput)
    → IsRemote r
    → IsRemote (update_all states now r)
unfolding update_all
update_all-IsRemote [] now r h = h
update_all-IsRemote (s ∷ states) now r h =
    update_all-IsRemote states now (update s now r) (update-IsRemote s now r h)

-- A state that came at `now`, as seen at `later`.
abbrev pub seen : ℕ → ℕ → InputState → Option InputState
seen now later s = if ltb (sub32 later now) input_timeout_ms then some s else none

update-get_self :
    (s : InputState) (now later : ℕ) (r : RemoteInput)
    → IsRemote r
    → s.slot < max_players
    → now ≢ 0
    → remote_get s.slot later (update s now r) ≡ seen now later s
unfolding update remote_get
update-get_self s now later r h b ne =
    let below : leb max_players s.slot ≡ false = ground arith in
    rw
      (
        below,
        get_or-set_self r.updated_at_ms s.slot now 0 (omega (arith, h.four_times)),
        get_or-set_self r.state s.slot s (input_state_init no_slot) (omega (arith, h.four_states)),
        ne→not_== now 0 ne,
      )
      refl

update-get_other :
    (s : InputState) (now later slot : ℕ) (r : RemoteInput)
    → s.slot ≢ slot
    → remote_get slot later (update s now r) ≡ remote_get slot later r
unfolding update remote_get
update-get_other s now later slot r ne = elim (Bool-cases (leb max_players s.slot)) [
  | inl e ↦ rw e refl
  | inr e ↦
      rw
        (
          e,
          get_or-set_ne r.updated_at_ms s.slot slot now 0 ne,
          get_or-set_ne r.state s.slot slot s (input_state_init no_slot) ne,
        )
        refl
]

-- After a bundle that came at a time other than 0, a slot is what the bundle has last for it, until
-- the timeout; a slot that the bundle does not have is as before.
pub update_all-get :
    (states : List InputState) (now later slot : ℕ) (r : RemoteInput)
    → IsRemote r
    → slot < max_players
    → now ≢ 0
    → remote_get slot later (update_all states now r)
      ≡ elim (latest slot states) [ some s ↦ seen now later s | none ↦ remote_get slot later r ]
unfolding update_all
update_all-get [] now later slot r h b ne = refl
update_all-get (s ∷ states) now later slot r h b ne =
    let rest =
      update_all-get states now later slot (update s now r) (update-IsRemote s now r h) b ne in
    elim (Option-cases (latest slot states)) [
      | inl e ↦ elim (Bool-cases (s.slot == slot)) [
        | inl q ↦
            rw (e, q)
              (rw e at rest
                ∙ rw (sym (==→eq s.slot slot q)) (update-get_self s now later r h (omega tests) ne))
        | inr q ↦
            rw (e, q) (rw e at rest ∙ update-get_other s now later slot r (not_==→ne s.slot slot q))
      ]
      | inr (x, e) ↦ rw e (rw e at rest)
    ]

-- No slot is injected after a BYE.
pub deactivate_all-get :
    (slot now : ℕ) (r : RemoteInput) → remote_get slot now (deactivate_all r) ≡ none
unfolding remote_get deactivate_all
deactivate_all-get slot now r = elim (Bool-cases (leb max_players slot)) [
  | inl e ↦ rw e refl
  | inr e ↦ rw (e, get_or-replicate {A = ℕ} max_players slot 0 0 (omega tests)) refl
]
