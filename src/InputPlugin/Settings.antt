-- ===== src/InputPlugin/Settings.antt =====
-- wiiu/input-plugin/src/main.cpp: the switches, as the configuration menu changes them and as they are
-- loaded. A key is the list of its characters' codes; what is stored is left out.
use wii_sec_u.Base.{
  ℕ, zero, suc, ◌≡◌, Bool, false, List, [], ◌∷◌, Option, none, some, set, get_or, length,
  if◌then◌else◌, arith, ◌<◌, ◌≢◌, get_or-set_self, get_or-set_ne,
}
use wii_sec_u.Base.Text.{same_text}
use wii_sec_u.InputPlugin.NetThread.{Switches}

-- kSlotKeys: "slot1" to "slot4"
abbrev pub slot_keys : List (List ℕ)
slot_keys =
    (115 ∷ 108 ∷ 111 ∷ 116 ∷ 49 ∷ [])
    ∷ (115 ∷ 108 ∷ 111 ∷ 116 ∷ 50 ∷ [])
    ∷ (115 ∷ 108 ∷ 111 ∷ 116 ∷ 51 ∷ [])
    ∷ (115 ∷ 108 ∷ 111 ∷ 116 ∷ 52 ∷ [])
    ∷ []

abbrev pub find_key : List (List ℕ) → List ℕ → Option ℕ
find_key [] key = none
find_key (k ∷ ks) key =
    let rest = find_key ks key in
    if same_text k key then some 0 else elim rest [ some i ↦ some (suc i) | none ↦ none ]

unfoldable pub master_changed : Bool → Switches → Switches
master_changed on w = record w { master_enabled = on }

unfoldable pub slot_changed : List ℕ → Bool → Switches → Switches
slot_changed key on w = elim (find_key slot_keys key) [
  | some i ↦ record w { slot_enabled = set w.slot_enabled i on }
  | none ↦ w
]

-- What the storage gives for "enabled" and the four keys.
unfoldable pub load_switches : Bool → Bool → Bool → Bool → Bool → Switches
load_switches enabled a b c d = record {
  master_enabled = enabled;
  slot_enabled = a ∷ b ∷ c ∷ d ∷ [];
}

-- The menu's item of a slot switches that slot and no other.
pub slot_changed_lem :
    (i : ℕ) (on : Bool) (w : Switches)
    → i < 4
    → length w.slot_enabled ≡ 4
    → let v = slot_changed (get_or slot_keys i []) on w in
      (get_or v.slot_enabled i false ≡ on)
      × ((j : ℕ) → i ≢ j → get_or v.slot_enabled j false ≡ get_or w.slot_enabled j false)
unfolding slot_changed
slot_changed_lem zero on w h n = (
  get_or-set_self w.slot_enabled 0 on false (omega (arith, n)),
  λ j ne. get_or-set_ne w.slot_enabled 0 j on false ne,
)
slot_changed_lem (suc zero) on w h n = (
  get_or-set_self w.slot_enabled 1 on false (omega (arith, n)),
  λ j ne. get_or-set_ne w.slot_enabled 1 j on false ne,
)
slot_changed_lem (suc (suc zero)) on w h n = (
  get_or-set_self w.slot_enabled 2 on false (omega (arith, n)),
  λ j ne. get_or-set_ne w.slot_enabled 2 j on false ne,
)
slot_changed_lem (suc (suc (suc zero))) on w h n = (
  get_or-set_self w.slot_enabled 3 on false (omega (arith, n)),
  λ j ne. get_or-set_ne w.slot_enabled 3 j on false ne,
)
slot_changed_lem (suc (suc (suc (suc i)))) on w h n = absurd (omega arith)
