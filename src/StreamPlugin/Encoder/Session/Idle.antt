-- ===== src/StreamPlugin/Encoder/Session/Idle.antt =====
-- The encoder thread left to itself gives both surfaces back.
use wii_sec_u.Base.{
  ℕ, suc, ◌≤◌, ◌<◌, ◌≡◌, refl, sym, ap, subst, inl, inr, List, [], ◌∷◌, length, ltb, arith,
  Option-cases, if-both,
}
use wii_sec_u.StreamPlugin.Surface.{
  Capture, System, Message, Phase, waiting, reading, sending, stopped, slot_at, captured_at,
  capture_release, capture_get_surface,
}
use wii_sec_u.StreamPlugin.Encoder.{take_message, start_reading, release_surface, send_frame}
use wii_sec_u.StreamPlugin.Net.{Net}
use wii_sec_u.StreamPlugin.Encoder.Session.{owned, Accounts, IsSession, HasQueue, IsSession-short}
use wii_sec_u.StreamPlugin.Encoder.Session.Run.{
  taken, released, sent, Step-kept, queue-cases, at_head, lt→not_ltb,
}

-- After the receive: the surface is released and the frame sent.
abbrev pub finish_pass : Net → List ℕ → Capture → Phase → Capture
finish_pass s bytes c waiting = c
finish_pass s bytes c (reading i) = (send_frame i bytes (release_surface i bytes c) s).0
finish_pass s bytes c (sending i b) = c
finish_pass s bytes c stopped = c

-- A whole pass of encoderThread's loop.
abbrev pub pass : Net → List ℕ → Capture → Capture
pass s bytes c = let d = take_message c in finish_pass s bytes d d.phase

-- What the receive leaves.
data Taken (n : ℕ) (d : Capture) : Type 0 where
  passed_on : d.phase ≡ waiting → length d.queue ≤ n → Taken n d
  reads : (i : ℕ) → d.phase ≡ reading i → length d.queue ≤ n → Taken n d

-- Between two passes, with at most `n` messages in the queue.
abbrev Rests : ℕ → Capture → Type 0
Rests n c = IsSession c × (c.phase ≡ waiting) × (length c.queue ≤ n)

none_queued : (q : List Message) → length q ≤ 0 → q ≡ []
none_queued [] h = refl
none_queued (m ∷ q) h = absurd (omega arith)

module _ (sys : System) (room : HasQueue sys) (s : Net) where
  capture_release-queue : (i : ℕ) (c : Capture) → (capture_release i c).queue ≡ c.queue
  unfolding capture_release
  capture_release-queue i c = if-both {A = Capture} (λ d. d.queue ≡ c.queue) (ltb 1 i) refl refl

  start_reading-Taken :
      (i n : ℕ) (c : Capture) → i < 2 → length c.queue ≤ n → Taken n (start_reading i c)
  unfolding start_reading capture_get_surface
  start_reading-Taken i n c b short =
      rw (lt→not_ltb i b, start_reading, capture_get_surface)
        (elim (Option-cases (captured_at c i).pixels) [
          | inl p ↦ rw p (passed_on refl (rw (capture_release-queue i c) short))
          | inr (address, p) ↦ rw p (reads i refl short)
        ])

  take_message-Taken :
      (n : ℕ) (c : Capture)
      → IsSession c
      → c.phase ≡ waiting
      → length c.queue ≤ suc n
      → Taken n (take_message c)
  unfolding take_message
  take_message-Taken n c k w short = elim (queue-cases c.queue k.accounts.surfaces) [
    | inl e ↦ rw e (passed_on w (omega arith))
    | inr (i, q, e) ↦ rw e (
        start_reading-Taken i n (record c { queue = q }) (at_head c i q e w k).surfaces.0
          (omega (arith, ap length e)))
  ]

  -- The pass is steps of the relation, so it keeps the account.
  pass_lem :
      (bytes : List ℕ) (n : ℕ) (c : Capture)
      → IsSession c
      → c.phase ≡ waiting
      → length c.queue ≤ suc n
      → Rests n (pass s bytes c)
  unfolding send_frame release_surface
  pass_lem bytes n c k w short =
      let d = take_message c in
      let kd : IsSession d = Step-kept sys room c d (taken c w) k in
      elim (take_message-Taken n c k w short) [
        | passed_on e few ↦ subst (λ x. Rests n (finish_pass s bytes d x)) (sym e) (kd, e, few)
        | reads i e few ↦
            let f = release_surface i bytes d in
            let kf : IsSession f = Step-kept sys room d f (released d i bytes e) kd in
            subst (λ x. Rests n (finish_pass s bytes d x)) (sym e)
              (
                Step-kept sys room f (send_frame i bytes f s).0 (sent f s i bytes refl) kf,
                refl,
                subst (λ q. length q ≤ n) (sym (capture_release-queue i d)) few,
              )
      ]

  nothing_owned : (c : Capture) → Rests 0 c → (i : ℕ) → i < 2 → owned (slot_at c i).state ≡ 0
  nothing_owned c (k, w, few) i b =
      let kw : Accounts c.slots c.queue waiting =
        subst (λ p. Accounts c.slots c.queue p) w k.accounts in
      let empty : Accounts c.slots [] waiting =
        subst (λ q. Accounts c.slots q waiting) (none_queued c.queue few) kw in
      sym (empty.accounted i b)

-- If the hook is not called, two passes of the encoder thread empty the queue, whatever was in it, and
-- leave neither surface in the state ENCODING: none stays locked.
pub idle_passes :
    (sys : System) (s : Net) (first second : List ℕ) (c : Capture)
    → HasQueue sys
    → IsSession c
    → c.phase ≡ waiting
    → let d = pass s second (pass s first c) in
      (d.phase ≡ waiting) × (length d.queue ≡ 0) × ((i : ℕ) → i < 2 → owned (slot_at d i).state ≡ 0)
idle_passes sys s first second c room k w =
    let (k1, w1, few1) = pass_lem sys room s first 1 c k w (IsSession-short c k) in
    let rests : Rests 0 (pass s second (pass s first c)) =
      pass_lem sys room s second 0 (pass s first c) k1 w1 few1 in
    (
      rests.1,
      omega (arith, rests.2),
      nothing_owned sys room s (pass s second (pass s first c)) rests,
    )
