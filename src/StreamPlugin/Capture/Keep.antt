-- ===== src/StreamPlugin/Capture/Keep.antt =====
-- What the hook on the scan-out leaves alone: a surface that the encoder has.
use wii_sec_u.Base.{
  ℕ, ◌≡◌, ◌≢◌, refl, sym, ap, subst, ◌∙◌, inl, inr, Bool, true, false, not, ◌&&◌, Option, none,
  some, set, ltb, leb, ◌==◌, if◌then◌else◌, arith, Bool-cases, Option-cases, if-both, get_or-set_ne,
  not_==→ne, ==→eq,
}
use wii_sec_u.Base.Word.{sub32}
use wii_sec_u.StreamPlugin.Surface.{
  encoding, free, Surface, CaptureSlot, CapturedSurface, Capture, System, surface_ready, queue_size,
  slot_at, captured_at, empty_slot, no_captured, capture_release, encoder_submit,
}
use wii_sec_u.StreamPlugin.Capture.{
  hand_over, issue, issue_first, prepare_slot, scan_out, on_tv_scanout, is_pending, is_free,
  interval_ms, format_supported,
}

-- Surface `i` and what the encoder is told of it are the same in both states.
pub record Keeps (i : ℕ) (c d : Capture) : Type 0 where
  pub same_slot : slot_at d i ≡ slot_at c i
  pub same_captured : captured_at d i ≡ captured_at c i

Keeps-refl : (i : ℕ) (c : Capture) → Keeps i c c
Keeps-refl i c = record { same_slot = refl; same_captured = refl }

Keeps-trans : (i : ℕ) (c d e : Capture) → Keeps i c d → Keeps i d e → Keeps i c e
Keeps-trans i c d e p q = record {
  same_slot = q.same_slot ∙ p.same_slot;
  same_captured = q.same_captured ∙ p.same_captured;
}

set_slot :
    (i j : ℕ) (s : CaptureSlot) (c : Capture)
    → j ≢ i
    → Keeps i c (record c { slots = set c.slots j s })
set_slot i j s c ne = record {
  same_slot = get_or-set_ne c.slots j i s empty_slot ne;
  same_captured = refl;
}

capture_release-Keeps : (i j : ℕ) (c : Capture) → j ≢ i → Keeps i c (capture_release j c)
unfolding capture_release
capture_release-Keeps i j c ne =
    if-both (Keeps i c) (ltb 1 j) (Keeps-refl i c)
      (set_slot i j (record (slot_at c j) { state = free }) c ne)

encoder_submit-Keeps :
    (sys : System) (i j : ℕ) (c : Capture) → j ≢ i → Keeps i c (encoder_submit sys j c)
unfolding encoder_submit
encoder_submit-Keeps sys i j c ne =
    elim (Option-cases (sys.send_message queue_size c.queue (surface_ready j))) [
      | inl e ↦ rw (e, encoder_submit) (capture_release-Keeps i j c ne)
      | inr (q, e) ↦ rw (e, encoder_submit) record { same_slot = refl; same_captured = refl }
    ]

-- The slot is ENCODING, and the hook is at slot `j`, which is it or another.
hand_over-Keeps :
    (sys : System) (now i j : ℕ) (c : Capture)
    → (slot_at c i).state ≡ encoding
    → Keeps i c (hand_over sys now j c)
unfolding hand_over
hand_over-Keeps sys now i j c e =
    let slot = slot_at c j in
    let record1 : CapturedSurface = record {
      pixels = slot.image;
      captured_width = slot.surface.width;
      captured_height = slot.surface.height;
      captured_pitch = slot.surface.pitch;
      captured_format = slot.surface.format;
      timestamp_ms = slot.issued_at_ms;
    } in
    let c1 : Capture = record c {
      captured = set c.captured j record1;
      slots = set c.slots j (record slot { state = encoding });
    } in
    elim (Bool-cases (j == i)) [
      | inl same ↦
          let not_pending : is_pending slot.state ≡ false =
            ap (λ k. is_pending (slot_at c k).state) (==→eq j i same) ∙ ap is_pending e in
          subst
            (λ b.
              Keeps i c
                (if b && not (slot.issued_at_ms == now) then encoder_submit sys j c1 else c))
            (sym not_pending) (Keeps-refl i c)
      | inr other ↦
          let ne = not_==→ne j i other in
          let here : Keeps i c c1 = record {
            same_slot = get_or-set_ne c.slots j i _ empty_slot ne;
            same_captured = get_or-set_ne c.captured j i record1 no_captured ne;
          } in
          if-both (Keeps i c) (is_pending slot.state && not (slot.issued_at_ms == now))
            (Keeps-trans i c c1 (encoder_submit sys j c1) here (encoder_submit-Keeps sys i j c1 ne))
            (Keeps-refl i c)
    ]

issue-Keeps :
    (sys : System) (alloc : ℕ → Option ℕ) (src : Surface) (now i j : ℕ) (c : Capture)
    → j ≢ i
    → Keeps i c (issue sys alloc src now j c)
unfolding issue
issue-Keeps sys alloc src now i j c ne =
    let prepared = prepare_slot sys alloc (slot_at c j) src in
    if-both (Keeps i c) prepared.0
      (record { same_slot = get_or-set_ne c.slots j i _ empty_slot ne; same_captured = refl })
      (set_slot i j prepared.1 c ne)

free_elsewhere :
    (i j : ℕ) (c : Capture)
    → (slot_at c i).state ≡ encoding
    → is_free (slot_at c j).state ≡ true
    → j ≢ i
free_elsewhere i j c e f same =
    let g : is_free encoding ≡ true =
      sym (ap is_free e) ∙ (sym (ap (λ k. is_free (slot_at c k).state) same) ∙ f) in
    absurd (ground arith)

issue_first-Keeps :
    (sys : System) (alloc : ℕ → Option ℕ) (src : Surface) (now i : ℕ) (c : Capture)
    → (slot_at c i).state ≡ encoding
    → Keeps i c (issue_first sys alloc src now c)
unfolding issue_first
issue_first-Keeps sys alloc src now i c e = elim (Bool-cases (is_free (slot_at c 0).state)) [
  | inl f ↦ rw f (issue-Keeps sys alloc src now i 0 c (free_elsewhere i 0 c e f))
  | inr f ↦ rw f (elim (Bool-cases (is_free (slot_at c 1).state)) [
    | inl g ↦ rw g (issue-Keeps sys alloc src now i 1 c (free_elsewhere i 1 c e g))
    | inr g ↦ rw g (Keeps-refl i c)
  ])
]

-- A scan-out changes nothing of a surface in the state ENCODING: neither its slot with the address of
-- its image, so that the memory which the encoder reads is neither freed nor given a new copy, nor the
-- record that the encoder has of it. This holds for any queue, heap and clock.
pub on_tv_scanout-Keeps :
    (sys : System) (alloc : ℕ → Option ℕ) (active : Bool) (fps : ℕ) (src : Option (Surface × ℕ))
    (now i : ℕ) (c : Capture)
    → (slot_at c i).state ≡ encoding
    → Keeps i c (on_tv_scanout sys alloc active fps src now c)
unfolding on_tv_scanout scan_out
on_tv_scanout-Keeps sys alloc active fps none now i c e = Keeps-refl i c
on_tv_scanout-Keeps sys alloc active fps (some (src, aa)) now i c e =
    let c1 = hand_over sys now 0 c in
    let k1 : Keeps i c c1 = hand_over-Keeps sys now i 0 c e in
    let e1 = ap (λ s. s.state) k1.same_slot ∙ e in
    let c2 = hand_over sys now 1 c1 in
    let k2 : Keeps i c c2 = Keeps-trans i c c1 c2 k1 (hand_over-Keeps sys now i 1 c1 e1) in
    let e2 = ap (λ s. s.state) k2.same_slot ∙ e in
    if-both (Keeps i c) (not c.initialized) (Keeps-refl i c) (
      if-both (Keeps i c) (not active) (Keeps-refl i c) (
        if-both (Keeps i c) (not (aa == sys.aa_mode_1x)) (Keeps-refl i c) (
          if-both (Keeps i c) (not (format_supported sys src.format))
            (record { same_slot = refl; same_captured = refl })
            (if-both (Keeps i c) (leb (interval_ms fps) (sub32 now c2.last_capture_ms))
              (Keeps-trans i c c2 (issue_first sys alloc src now c2) k2
                (issue_first-Keeps sys alloc src now i c2 e2))
              k2))))
