-- ===== src/StreamPlugin/Encoder/Session.antt =====
-- The capture hook and the encoder thread in any order: what each surface is doing.
pub mod Scanout
pub mod Run
pub mod Idle
use wii_sec_u.Base.{
  ℕ, zero, suc, ◌+◌, ◌≤◌, ◌<◌, ◌≡◌, ◌≢◌, refl, sym, ap, subst, ◌∙◌, ◌⊎◌, inl, inr, Bool, true,
  false, not, ◌&&◌, List, [], ◌∷◌, ◌++◌, Option, none, some, length, get_or, set, ltb, leb, ◌==◌,
  if◌then◌else◌, arith, tests, Bool-cases, Option-cases, if-both, length-set, get_or-set_self,
  get_or-set_ne, ne→not_==, not_==→ne, ==→eq,
}
use wii_sec_u.Base.Word.{sub32}
use wii_sec_u.StreamPlugin.Surface.{
  SlotState, free, copy_pending, encoding, Surface, CaptureSlot, CapturedSurface, Capture, System,
  Message, surface_ready, shut_down, Phase, waiting, reading, sending, stopped, queue_size, slot_at,
  captured_at, empty_slot, capture_release, capture_get_surface, encoder_submit, set_state,
}
use wii_sec_u.StreamPlugin.Capture.{
  hand_over, issue, issue_first, prepare_slot, scan_out, on_tv_scanout, is_pending, is_free,
  interval_ms, format_supported,
}
use wii_sec_u.StreamPlugin.Encoder.{take_message, start_reading, release_surface}

abbrev pub hit : ℕ → ℕ → ℕ
hit i j = if j == i then 1 else 0

-- How often surface `i` is in the queue, and whether the encoder reads it.
abbrev pub queued : ℕ → List Message → ℕ
queued i [] = 0
queued i (surface_ready j ∷ q) = if j == i then suc (queued i q) else queued i q
queued i (shut_down ∷ q) = queued i q

abbrev pub read : ℕ → Phase → ℕ
read i waiting = 0
read i (reading j) = hit i j
read i (sending j bytes) = 0
read i stopped = 0

abbrev pub owned : SlotState → ℕ
owned free = 0
owned copy_pending = 0
owned encoding = 1

-- Only surfaces 0 and 1, and no shutdown message.
abbrev pub AreSurfaces : List Message → Type 0
AreSurfaces [] = Unit
AreSurfaces (surface_ready j ∷ q) = (j < 2) × AreSurfaces q
AreSurfaces (shut_down ∷ q) = ⊥

-- The thread is alive and at one of the two surfaces.
abbrev pub IsReader : Phase → Type 0
IsReader waiting = Unit
IsReader (reading i) = i < 2
IsReader (sending i bytes) = i < 2
IsReader stopped = ⊥

-- A surface is in the state ENCODING exactly while it is in the queue, once, or being read.
pub record Accounts (slots : List CaptureSlot) (queue : List Message) (phase : Phase) : Type 0 where
  pub two : length slots ≡ 2
  pub surfaces : AreSurfaces queue
  pub reader : IsReader phase
  pub accounted :
      (i : ℕ) → i < 2 → queued i queue + read i phase ≡ owned (get_or slots i empty_slot).state

pub record IsSession (c : Capture) : Type 0 where
  pub accounts : Accounts c.slots c.queue c.phase

-- What OSSendMessage promises: with room it adds the message at the end.
abbrev pub HasQueue : System → Type 0
HasQueue sys =
    (size : ℕ) (q : List Message) (m : Message)
    → length q < size
    → sys.send_message size q m ≡ some (q ++ (m ∷ []))

length-AreSurfaces : (q : List Message) → AreSurfaces q → length q ≡ queued 0 q + queued 1 q
length-AreSurfaces [] h = refl
length-AreSurfaces (surface_ready zero ∷ q) (b, h) = omega (arith, length-AreSurfaces q h)
length-AreSurfaces (surface_ready (suc zero) ∷ q) (b, h) = omega (arith, length-AreSurfaces q h)
length-AreSurfaces (surface_ready (suc (suc j)) ∷ q) (b, h) = absurd (omega arith)
length-AreSurfaces (shut_down ∷ q) h = absurd h

pub owned-le : (st : SlotState) → owned st ≤ 1
owned-le free = omega arith
owned-le copy_pending = omega arith
owned-le encoding = omega arith

-- The queue never holds more than two messages, of its room for four.
pub IsSession-short : (c : Capture) → IsSession c → length c.queue ≤ 2
IsSession-short c k = omega (
  arith,
  length-AreSurfaces c.queue k.accounts.surfaces,
  k.accounts.accounted 0 (omega arith),
  k.accounts.accounted 1 (omega arith),
  owned-le (slot_at c 0).state,
  owned-le (slot_at c 1).state,
)

queued-append :
    (i j : ℕ) (q : List Message) → queued i (q ++ (surface_ready j ∷ [])) ≡ queued i q + hit i j
queued-append i j [] = ground arith
queued-append i j (surface_ready k ∷ q) = let e = queued-append i j q in ground arith
queued-append i j (shut_down ∷ q) = queued-append i j q

AreSurfaces-append :
    (j : ℕ) (q : List Message) → j < 2 → AreSurfaces q → AreSurfaces (q ++ (surface_ready j ∷ []))
AreSurfaces-append j [] b h = (b, tt)
AreSurfaces-append j (surface_ready k ∷ q) b (a, h) = (a, AreSurfaces-append j q b h)
AreSurfaces-append j (shut_down ∷ q) b h = h

-- A step changes one slot, and what the queue and the phase hold of that slot only.
pub Accounts-step :
    (slots : List CaptureSlot) (q q1 : List Message) (p p1 : Phase) (i : ℕ) (s : CaptureSlot)
    → i < 2
    → Accounts slots q p
    → AreSurfaces q1
    → IsReader p1
    → ((j : ℕ) → i ≢ j → queued j q1 + read j p1 ≡ queued j q + read j p)
    → queued i q1 + read i p1 ≡ owned s.state
    → Accounts (set slots i s) q1 p1
Accounts-step slots q q1 p p1 i s b k a r others self = record {
  two = length-set slots i s ∙ k.two;
  surfaces = a;
  reader = r;
  accounted = λ j jb. elim (Bool-cases (i == j)) [
    | inl e ↦
        let ij = ==→eq i j e in
        subst (λ n. queued n q1 + read n p1 ≡ owned (get_or (set slots i s) n empty_slot).state) ij
          (self
            ∙ sym (
                ap (λ t. owned t.state)
                  (get_or-set_self slots i s empty_slot (omega (arith, k.two)))))
    | inr e ↦
        let ne = not_==→ne i j e in
        others j ne
        ∙ k.accounted j jb
        ∙ sym (ap (λ t. owned t.state) (get_or-set_ne slots i j s empty_slot ne))
  ];
}

-- A slot that the encoder does not own may be given any such state.
pub Accounts-keep :
    (slots : List CaptureSlot) (q : List Message) (p : Phase) (i : ℕ) (s : CaptureSlot)
    → i < 2
    → Accounts slots q p
    → owned s.state ≡ owned (get_or slots i empty_slot).state
    → Accounts (set slots i s) q p
Accounts-keep slots q p i s b k e =
    Accounts-step slots q q p p i s b k k.surfaces k.reader (λ j ne. refl) (k.accounted i b ∙ sym e)

pub hit_ne : (i j : ℕ) → i ≢ j → hit j i ≡ 0
hit_ne i j ne = rw (ne→not_== i j ne) refl

pub hit_self : (i : ℕ) → hit i i ≡ 1
hit_self i = ground arith

-- `hand_over` of a pending copy: the message fits.
pub Accounts-submit :
    (slots : List CaptureSlot) (q : List Message) (p : Phase) (i : ℕ) (s : CaptureSlot)
    → i < 2
    → Accounts slots q p
    → owned (get_or slots i empty_slot).state ≡ 0
    → s.state ≡ encoding
    → Accounts (set slots i s) (q ++ (surface_ready i ∷ [])) p
Accounts-submit slots q p i s b k z e =
    Accounts-step slots q (q ++ (surface_ready i ∷ [])) p p i s b k
      (AreSurfaces-append i q b k.surfaces) k.reader
      (λ j ne. omega (arith, queued-append j i q, hit_ne i j ne))
      (omega (arith, queued-append i i q, hit_self i, k.accounted i b, z, ap owned e))
