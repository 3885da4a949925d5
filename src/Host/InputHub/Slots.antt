-- ===== src/Host/InputHub/Slots.antt =====
-- What the hub's slots hold after its operations, and what a bundle brings of them.
use wii_sec_u.Base.{
  ℕ, zero, suc, ◌+◌, ◌<◌, ◌≡◌, ◌≢◌, refl, sym, ◌∙◌, inl, inr, false, List, [], ◌∷◌, Option, none,
  some, length, get_or, set, ltb, leb, ◌==◌, not_leb→lt, if◌then◌else◌, arith, Bool-cases,
  length-set, get_or-set_self, get_or-set_ne, ==_refl, ne→not_==,
}
use wii_sec_u.Base.Word.{sub32}
use wii_sec_u.Protocol.Types.{InputState, no_slot, max_players, input_timeout_ms}
use wii_sec_u.Host.InputHub.{
  ControllerState, neutral, InputHub, new_hub, hub_set, hub_clear, is_live, active, is_active,
  hub_get,
}

-- From slot `i` on, a slot that was written carries its own number.
abbrev pub Numbered : ℕ → List ControllerState → Type 0
Numbered i [] = Unit
Numbered i (c ∷ cs) = (c.updated_at_ms ≢ 0 → c.wire.slot ≡ i) × Numbered (suc i) cs

pub record IsHub (hub : InputHub) : Type 0 where
  pub four : length hub ≡ max_players
  pub numbered : Numbered 0 hub

Numbered-set :
    (i : ℕ) (cs : List ControllerState) (k : ℕ) (c : ControllerState)
    → c.wire.slot ≡ i + k
    → Numbered i cs
    → Numbered i (set cs k c)
Numbered-set i [] k c e n = tt
Numbered-set i (x ∷ cs) zero c e (_, n) = ((λ _. omega arith), n)
Numbered-set i (x ∷ cs) (suc k) c e (h, n) = (h, Numbered-set (suc i) cs k c (omega arith) n)

pub new_hub-IsHub : IsHub new_hub
unfolding neutral
new_hub-IsHub = record {
  four = refl;
  numbered = (
    λ u. absurd (u refl),
    (λ u. absurd (u refl), (λ u. absurd (u refl), (λ u. absurd (u refl), tt))),
  );
}

pub hub_set-IsHub :
    (slot : ℕ) (state : InputState) (now : ℕ) (hub : InputHub)
    → IsHub hub
    → IsHub (hub_set slot state now hub)
unfolding hub_set
hub_set-IsHub slot state now hub h = elim (Bool-cases (leb max_players slot)) [
  | inl e ↦ rw e h
  | inr e ↦ rw e record {
    four = length-set hub slot _ ∙ h.four;
    numbered = Numbered-set 0 hub slot _ (omega arith) h.numbered;
  }
]

pub hub_clear-IsHub : (slot : ℕ) (hub : InputHub) → IsHub hub → IsHub (hub_clear slot hub)
unfolding hub_clear neutral
hub_clear-IsHub slot hub h = elim (Bool-cases (leb max_players slot)) [
  | inl e ↦ rw e h
  | inr e ↦ rw e record {
    four = length-set hub slot (neutral slot) ∙ h.four;
    numbered = Numbered-set 0 hub slot (neutral slot) (omega arith) h.numbered;
  }
]

-- A slot just written holds the state under its own number, and is active until the timeout has
-- passed since, on a clock that wraps; 0 as the time of the update counts as never.
pub hub_set_self :
    (slot : ℕ) (state : InputState) (now : ℕ) (hub : InputHub)
    → IsHub hub
    → slot < max_players
    → (hub_get slot (hub_set slot state now hub) ≡ record state { slot = slot })
      × ((later : ℕ)
          → now ≢ 0
          → is_active slot later (hub_set slot state now hub)
            ≡ ltb (sub32 later now) input_timeout_ms)
      × ((later : ℕ) → now ≡ 0 → is_active slot later (hub_set slot state now hub) ≡ false)
unfolding hub_set hub_get is_active is_live
hub_set_self slot state now hub h b =
    let below : leb max_players slot ≡ false = ground arith in
    let got : (c : ControllerState) → get_or (set hub slot c) slot (neutral no_slot) ≡ c =
      λ c. get_or-set_self hub slot c (neutral no_slot) (omega (arith, h.four)) in
    rw (below, got) (refl, (λ later ne. rw (ne→not_== now 0 ne) refl), λ later e. rw e refl)

-- Another slot keeps its state and its time.
pub hub_set-other :
    (slot : ℕ) (state : InputState) (now : ℕ) (hub : InputHub) (other : ℕ)
    → other ≢ slot
    → (hub_get other (hub_set slot state now hub) ≡ hub_get other hub)
      × ((later : ℕ)
          → is_active other later (hub_set slot state now hub) ≡ is_active other later hub)
unfolding hub_set hub_get is_active
hub_set-other slot state now hub other ne = elim (Bool-cases (leb max_players slot)) [
  | inl e ↦ rw e (refl, λ later. refl)
  | inr e ↦
      rw (e, get_or-set_ne hub slot other _ (neutral no_slot) (λ q. ne (sym q)))
        (refl, λ later. refl)
]

-- The last state of a bundle for a slot.
abbrev pub latest : ℕ → List InputState → Option InputState
latest slot [] = none
latest slot (s ∷ states) = elim (latest slot states) [
  | some later ↦ some later
  | none ↦ if s.slot == slot then some s else none
]

latest-below :
    (now i : ℕ) (cs : List ControllerState) (slot : ℕ)
    → slot < i
    → Numbered i cs
    → latest slot (active now cs) ≡ none
unfolding active is_live
latest-below now i [] slot b n = refl
latest-below now i (c ∷ cs) slot b (h, n) =
    let rest = latest-below now (suc i) cs slot (omega arith) n in
    elim (Bool-cases (is_live now c)) [
      | inl e ↦
          let own = h (λ z. ground arith) in
          rw (e, rest, ne→not_== c.wire.slot slot (λ q. absurd (omega arith))) refl
      | inr e ↦ rw e rest
    ]

latest-active :
    (now i : ℕ) (cs : List ControllerState) (k : ℕ)
    → Numbered i cs
    → latest (i + k) (active now cs) ≡ (
        if is_live now (get_or cs k (neutral no_slot))
        then some (get_or cs k (neutral no_slot)).wire
        else none)
unfolding active is_live neutral
latest-active now i [] k n = refl
latest-active now i (c ∷ cs) zero (h, n) =
    let z : i + 0 ≡ i = omega arith in
    let rest = latest-below now (suc i) cs i (omega arith) n in
    elim (Bool-cases (is_live now c)) [
      | inl e ↦ let own = h (λ q. ground arith) in rw (z, e, rest, own, ==_refl i) refl
      | inr e ↦ rw (z, e, rest) refl
    ]
latest-active now i (c ∷ cs) (suc k) (h, n) =
    let z : i + suc k ≡ suc i + k = omega arith in
    let rest = latest-active now (suc i) cs k n in
    elim (Bool-cases (is_live now c)) [
      | inl e ↦
          let own = h (λ q. ground arith) in
          let ne = ne→not_== c.wire.slot (suc i + k) (λ q. absurd (omega arith)) in
          elim (Bool-cases (is_live now (get_or cs k (neutral no_slot)))) [
            | inl l ↦ rw (z, e, rest, l) refl
            | inr l ↦ rw (z, e, rest, l, ne) refl
          ]
      | inr e ↦ rw (z, e) rest
    ]

-- The state that a bundle carries for a slot: the slot's own if it is active, and else none.
pub latest-hub_get :
    (now : ℕ) (hub : InputHub) (slot : ℕ)
    → IsHub hub
    → slot < max_players
    → latest slot (active now hub)
      ≡ (if is_active slot now hub then some (hub_get slot hub) else none)
unfolding is_active hub_get
latest-hub_get now hub slot h b =
    let below : leb max_players slot ≡ false = ground arith in
    let e : 0 + slot ≡ slot = omega arith in
    rw below (rw e at (latest-active now 0 hub slot h.numbered))

pub hub_clear-other :
    (slot : ℕ) (hub : InputHub) (other : ℕ)
    → other ≢ slot
    → (hub_get other (hub_clear slot hub) ≡ hub_get other hub)
      × ((later : ℕ) → is_active other later (hub_clear slot hub) ≡ is_active other later hub)
unfolding hub_clear hub_get is_active
hub_clear-other slot hub other ne = elim (Bool-cases (leb max_players slot)) [
  | inl e ↦ rw e (refl, λ later. refl)
  | inr e ↦
      rw (e, get_or-set_ne hub slot other _ (neutral no_slot) (λ q. ne (sym q)))
        (refl, λ later. refl)
]

-- A slot just cleared is not active at any time.
pub hub_clear_self :
    (slot : ℕ) (hub : InputHub) (later : ℕ)
    → IsHub hub
    → is_active slot later (hub_clear slot hub) ≡ false
unfolding hub_clear is_active is_live neutral
hub_clear_self slot hub later h = elim (Bool-cases (leb max_players slot)) [
  | inl e ↦ rw e refl
  | inr e ↦
      rw
        (
          e,
          get_or-set_self hub slot (neutral slot) (neutral no_slot)
              (omega (arith, h.four, not_leb→lt max_players slot e)),
        )
        refl
]
