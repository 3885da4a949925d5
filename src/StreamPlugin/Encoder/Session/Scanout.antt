-- ===== src/StreamPlugin/Encoder/Session/Scanout.antt =====
-- The capture hook's steps keep the account of the surfaces.
use wii_sec_u.Base.{
  ℕ, ◌≤◌, ◌<◌, ◌≡◌, refl, sym, ◌∙◌, inl, inr, Bool, true, false, not, ◌&&◌, [], ◌∷◌, ◌++◌, Option,
  none, some, length, set, leb, ◌==◌, arith, Bool-cases, if-both,
}
use wii_sec_u.Base.Word.{sub32}
use wii_sec_u.StreamPlugin.Surface.{
  SlotState, free, copy_pending, encoding, Surface, CaptureSlot, Capture, System, surface_ready,
  queue_size, slot_at, encoder_submit,
}
use wii_sec_u.StreamPlugin.Capture.{
  hand_over, issue, issue_first, prepare_slot, scan_out, on_tv_scanout, is_pending, is_free,
  is_some, interval_ms, format_supported,
}
use wii_sec_u.StreamPlugin.Encoder.Session.{
  owned, IsSession, HasQueue, IsSession-short, Accounts-keep, Accounts-submit,
}

-- A slot whose state is not `encoding`.
not_owned-pending : (st : SlotState) → is_pending st ≡ true → owned st ≡ 0
not_owned-pending free h = refl
not_owned-pending copy_pending h = refl
not_owned-pending encoding h = absurd (ground arith)

not_owned-free : (st : SlotState) → is_free st ≡ true → owned st ≡ 0
not_owned-free free h = refl
not_owned-free copy_pending h = refl
not_owned-free encoding h = absurd (ground arith)

&&-left : (a b : Bool) → (a && b) ≡ true → a ≡ true
&&-left true b h = refl
&&-left false b h = h

module _ (sys : System) (room : HasQueue sys) where
  encoder_submit-room :
      (i : ℕ) (c : Capture)
      → length c.queue ≤ 2
      → encoder_submit sys i c ≡ record c { queue = c.queue ++ (surface_ready i ∷ []) }
  unfolding encoder_submit
  encoder_submit-room i c short =
      rw (room queue_size c.queue (surface_ready i) (omega arith), encoder_submit) refl

  hand_over-IsSession :
      (now i : ℕ) (c : Capture) → i < 2 → IsSession c → IsSession (hand_over sys now i c)
  unfolding hand_over
  hand_over-IsSession now i c b k =
      let slot = slot_at c i in
      let c1 : Capture = record c {
        captured = set c.captured i (record {
          pixels = slot.image;
          captured_width = slot.surface.width;
          captured_height = slot.surface.height;
          captured_pitch = slot.surface.pitch;
          captured_format = slot.surface.format;
          timestamp_ms = slot.issued_at_ms;
        });
        slots = set c.slots i (record slot { state = encoding });
      } in
      elim (Bool-cases (is_pending slot.state && not (slot.issued_at_ms == now))) [
        | inl e ↦
            rw (e, encoder_submit-room i c1 (IsSession-short c k))
              record {
                accounts =
                    Accounts-submit c.slots c.queue c.phase i (record slot { state = encoding }) b
                      k.accounts (not_owned-pending slot.state (&&-left _ _ e)) refl;
              }
        | inr e ↦ rw e k
      ]

  prepare_slot-owned :
      (alloc : ℕ → Option ℕ) (slot : CaptureSlot) (src : Surface)
      → owned slot.state ≡ 0
      → owned (prepare_slot sys alloc slot src).1.state ≡ 0
  unfolding prepare_slot
  prepare_slot-owned alloc slot src h =
      let cached =
        is_some slot.image
        && (slot.surface.width == src.width
            && (slot.surface.height == src.height && (slot.surface.format == src.format))) in
      elim (Bool-cases cached) [ inl e ↦ rw e h | inr e ↦ rw e refl ]

  issue-IsSession :
      (alloc : ℕ → Option ℕ) (src : Surface) (now i : ℕ) (c : Capture)
      → i < 2
      → is_free (slot_at c i).state ≡ true
      → IsSession c
      → IsSession (issue sys alloc src now i c)
  unfolding issue
  issue-IsSession alloc src now i c b f k =
      let z = not_owned-free (slot_at c i).state f in
      if-both IsSession (prepare_slot sys alloc (slot_at c i) src).0
        (record { accounts = Accounts-keep c.slots c.queue c.phase i _ b k.accounts (sym z) })
        (record {
          accounts =
              Accounts-keep c.slots c.queue c.phase i _ b k.accounts
                (prepare_slot-owned alloc (slot_at c i) src z ∙ sym z);
        })

  issue_first-IsSession :
      (alloc : ℕ → Option ℕ) (src : Surface) (now : ℕ) (c : Capture)
      → IsSession c
      → IsSession (issue_first sys alloc src now c)
  unfolding issue_first
  issue_first-IsSession alloc src now c k = elim (Bool-cases (is_free (slot_at c 0).state)) [
    | inl e ↦ rw e (issue-IsSession alloc src now 0 c (omega arith) e k)
    | inr e ↦ rw e (elim (Bool-cases (is_free (slot_at c 1).state)) [
      | inl f ↦ rw f (issue-IsSession alloc src now 1 c (omega arith) f k)
      | inr f ↦ rw f k
    ])
  ]

  pub on_tv_scanout-IsSession :
      (alloc : ℕ → Option ℕ) (active : Bool) (fps : ℕ) (src : Option (Surface × ℕ)) (now : ℕ)
      (c : Capture)
      → IsSession c
      → IsSession (on_tv_scanout sys alloc active fps src now c)
  unfolding on_tv_scanout scan_out
  on_tv_scanout-IsSession alloc active fps none now c k = k
  on_tv_scanout-IsSession alloc active fps (some (src, aa)) now c k =
      let c2 = hand_over sys now 1 (hand_over sys now 0 c) in
      let handed : IsSession c2 =
        hand_over-IsSession now 1 (hand_over sys now 0 c) (omega arith)
          (hand_over-IsSession now 0 c (omega arith) k) in
      if-both IsSession (not c.initialized) k (
        if-both IsSession (not active) k (
          if-both IsSession (not (aa == sys.aa_mode_1x)) k (
            if-both IsSession (not (format_supported sys src.format))
              (record { accounts = k.accounts })
              (if-both IsSession (leb (interval_ms fps) (sub32 now c2.last_capture_ms))
                (issue_first-IsSession alloc src now c2 handed) handed))))
