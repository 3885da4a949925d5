-- ===== src/StreamPlugin/Audio/Tap.antt =====
-- wiiu/stream-plugin/src/audio.cpp: the final-mix callback's tests, and how it is put in front of the
-- callback of the game and taken away. What the sound library (AX) holds is an argument.
use wii_sec_u.Base.{
  ℕ, zero, suc, ◌≡◌, refl, ap, ◌∙◌, inl, inr, Option-cases, Bool, true, false, not, ◌&&◌, ◌||◌,
  List, [], ◌∷◌, Option, none, some, take, ltb, ◌==◌, if◌then◌else◌,
}
use wii_sec_u.Base.Int.{ℤ}
use wii_sec_u.StreamPlugin.Audio.{Ring, Pair, mix}

-- A callback of the device: none, finalMixCallback or another.
pub data Callback : Type 0 where
  no_callback : Callback
  final_mix_callback : Callback
  foreign : ℕ → Callback

abbrev pub is_ours : Callback → Bool
is_ours no_callback = false
is_ours final_mix_callback = true
is_ours (foreign n) = false

-- The flags and gChainedCallback, and the callback that the device has.
pub record Tap : Type 0 where
  pub enabled : Bool
  pub registered : Bool
  pub chained : Callback
  pub device : Callback

-- audioInit; the ring is reset with `audio_init`.
unfoldable pub tap_init : Tap → Tap
tap_init t = record t { registered = false; enabled = false; chained = no_callback }

-- `ax` is AXIsInit(), `accepted` whether the registration succeeds.
unfoldable pub ensure_registered : Bool → Bool → Bool → Tap → Tap
ensure_registered audio ax accepted t =
    if not audio || t.registered
    then t
    else if not ax
    then t
    else if is_ours t.device
    then record t { registered = true }
    else if accepted
    then record {
      enabled = true;
      registered = true;
      chained = t.device;
      device = final_mix_callback;
    }
    else record t { chained = t.device }

unfoldable pub tap_shutdown : Bool → Tap → Tap
tap_shutdown ax t = record t {
  enabled = false;
  device = if t.registered && (ax && is_ours t.device) then t.chained else t.device;
  registered = false;
}

-- AXDeviceFinalMixData: the channels' samples, `none` for a null pointer.
pub record MixData : Type 0 where
  pub data_of : Option (List (Option (List ℤ)))
  pub channels : ℕ
  pub samples : ℕ

abbrev pub zip_pairs : List ℤ → List ℤ → List Pair
zip_pairs [] rs = []
zip_pairs (l ∷ ls) [] = []
zip_pairs (l ∷ ls) (r ∷ rs) = (l, r) ∷ zip_pairs ls rs

abbrev pub pairs_of : ℕ → Option (List ℤ) → Option (List ℤ) → Option (List Pair)
pairs_of n none right = none
pairs_of n (some left) none = none
pairs_of n (some left) (some right) = some (zip_pairs (take n left) (take n right))

abbrev pub channel_at : List (Option (List ℤ)) → ℕ → Option (List ℤ)
channel_at [] i = none
channel_at (c ∷ cs) zero = c
channel_at (c ∷ cs) (suc i) = channel_at cs i

-- The block's pairs, `none` where the callback returns early.
abbrev pub block_of : Bool → Option MixData → Option (List Pair)
block_of enabled none = none
block_of enabled (some m) = elim m.data_of [
  | none ↦ none
  | some cs ↦
      if not enabled || (m.channels == 0 || m.samples == 0)
      then none
      else pairs_of m.samples (channel_at cs 0)
          (if ltb m.channels 2 then channel_at cs 0 else channel_at cs 1)
]

-- finalMixCallback after the chained callback.
unfoldable pub final_mix : Bool → Option MixData → Ring → Ring
unfolding mix
final_mix enabled block r = elim (block_of enabled block) [ none ↦ r | some ps ↦ mix r ps ]

-- Put in front of the game's callback and taken away again, the device has the game's callback.
pub shutdown-ensure_registered :
    (game : Callback) (t : Tap)
    → is_ours game ≡ false
    → t.registered ≡ false
    → t.device ≡ game
    → (tap_shutdown true (ensure_registered true true true t)).device ≡ game
unfolding tap_shutdown ensure_registered
shutdown-ensure_registered game t other off here =
    rw (off, here, ensure_registered) (rw (other, ensure_registered) refl)

block_of-off : (block : Option MixData) → block_of false block ≡ none
block_of-off none = refl
block_of-off (some m) = elim (Option-cases m.data_of) [
  | inl e ↦ rw e refl
  | inr (cs, e) ↦ rw e refl
]

-- Found in front already, the callback counts as registered and stays disabled: it keeps no sample.
pub ensure_registered-silent :
    (accepted : Bool) (t : Tap) (block : Option MixData) (r : Ring)
    → t.registered ≡ false
    → t.enabled ≡ false
    → t.device ≡ final_mix_callback
    → let u = ensure_registered true true accepted t in
      (u.registered ≡ true) × (final_mix u.enabled block r ≡ r)
unfolding ensure_registered final_mix
ensure_registered-silent accepted t block r off quiet here =
    let kept : ensure_registered true true accepted t ≡ record t { registered = true } =
      ap
        (λ b.
          if b
          then t
          else if is_ours t.device
          then record t { registered = true }
          else if accepted
          then record {
            enabled = true;
            registered = true;
            chained = t.device;
            device = final_mix_callback;
          }
          else record t { chained = t.device })
        off
      ∙ ap
          (λ c.
            if is_ours c
            then record t { registered = true }
            else if accepted
            then record {
              enabled = true;
              registered = true;
              chained = t.device;
              device = final_mix_callback;
            }
            else record t { chained = t.device })
          here in
    let silent : (ensure_registered true true accepted t).enabled ≡ false =
      ap (λ u. u.enabled) kept ∙ quiet in
    (
      ap (λ u. u.registered) kept,
      ap (λ b. final_mix b block r) silent
          ∙ ap (λ o. elim o [ none ↦ r | some ps ↦ mix r ps ]) (block_of-off block),
    )
