-- ===== src/StreamPlugin/Encoder/Session/Run.antt =====
-- Runs of the capture hook and of the encoder thread in any order.
use wii_sec_u.Base.{
  ℕ, suc, ◌+◌, ◌≤◌, ◌<◌, ◌≡◌, ◌≢◌, refl, subst, ◌∙◌, ◌⊎◌, inl, inr, Bool, false, List, [], ◌∷◌,
  Option, length, ltb, arith, Option-cases, ne→not_==,
}
use wii_sec_u.StreamPlugin.Surface.{
  SlotState, free, copy_pending, encoding, Surface, CaptureSlot, Capture, System, Message,
  surface_ready, shut_down, waiting, reading, sending, slot_at, captured_at, capture_release,
  capture_get_surface, set_state,
}
use wii_sec_u.StreamPlugin.Capture.{on_tv_scanout}
use wii_sec_u.StreamPlugin.Encoder.{take_message, start_reading, release_surface, send_frame}
use wii_sec_u.StreamPlugin.Net.{Net}
use wii_sec_u.StreamPlugin.Encoder.Session.{
  hit, hit_self, hit_ne, queued, owned, AreSurfaces, Accounts, IsSession, HasQueue, IsSession-short,
  Accounts-step, owned-le,
}
use wii_sec_u.StreamPlugin.Capture.Keep.{Keeps, on_tv_scanout-Keeps}
use wii_sec_u.StreamPlugin.Encoder.Session.Scanout.{on_tv_scanout-IsSession}

-- The hook runs between any two steps of the encoder thread, with any heap, client, preset, picture and
-- clock. `bytes` is the picture that was made.
pub data Step (sys : System) : Capture → Capture → Type 0 where
  scanned :
      (alloc : ℕ → Option ℕ) (active : Bool) (fps : ℕ) (src : Option (Surface × ℕ)) (now : ℕ)
      (c : Capture)
      → Step sys c (on_tv_scanout sys alloc active fps src now c)
  taken : (c : Capture) → c.phase ≡ waiting → Step sys c (take_message c)
  released :
      (c : Capture) (i : ℕ) (bytes : List ℕ)
      → c.phase ≡ reading i
      → Step sys c (release_surface i bytes c)
  sent :
      (c : Capture) (s : Net) (i : ℕ) (bytes : List ℕ)
      → c.phase ≡ sending i bytes
      → Step sys c (send_frame i bytes c s).0

pub data Reach (sys : System) (start : Capture) : Capture → Type 0 where
  begin : Reach sys start start
  next : (c d : Capture) → Reach sys start c → Step sys c d → Reach sys start d

pub lt→not_ltb : (i : ℕ) → i < 2 → ltb 1 i ≡ false
lt→not_ltb i b = ground arith

queued_other : (j i : ℕ) (q : List Message) → i ≢ j → queued j (surface_ready i ∷ q) ≡ queued j q
queued_other j i q ne = rw (ne→not_== i j ne) refl

queued_head : (i : ℕ) (q : List Message) → queued i (surface_ready i ∷ q) ≡ suc (queued i q)
queued_head i q = ground arith

capture_release-below : (i : ℕ) (c : Capture) → i < 2 → capture_release i c ≡ set_state i free c
unfolding capture_release
capture_release-below i c b = rw (lt→not_ltb i b) refl

moved : (j i : ℕ) (q : List Message) → queued j q + hit j i ≡ queued j (surface_ready i ∷ q) + 0
moved j i q = ground arith

pub at_head :
    (c : Capture) (i : ℕ) (q : List Message)
    → c.queue ≡ surface_ready i ∷ q
    → c.phase ≡ waiting
    → IsSession c
    → Accounts c.slots (surface_ready i ∷ q) waiting
at_head c i q e w k =
    subst (λ p. Accounts c.slots (surface_ready i ∷ q) p) w
      (subst (λ q. Accounts c.slots q c.phase) e k.accounts)

pub queue-cases :
    (q : List Message)
    → AreSurfaces q
    → (q ≡ []) ⊎ ((i : ℕ) × (r : List Message) × (q ≡ surface_ready i ∷ r))
queue-cases [] h = inl refl
queue-cases (surface_ready i ∷ r) h = inr (i, r, refl)
queue-cases (shut_down ∷ r) h = absurd h

-- The encoder gives back the surface at the head of the queue.
drop_head :
    (c : Capture) (i : ℕ) (q : List Message)
    → c.queue ≡ surface_ready i ∷ q
    → c.phase ≡ waiting
    → IsSession c
    → IsSession (record (capture_release i (record c { queue = q })) { phase = waiting })
drop_head c i q e w k =
    let kq = at_head c i q e w k in
    let (b, rest) = kq.surfaces in
    rw (capture_release-below i (record c { queue = q }) b) record {
      accounts =
          Accounts-step c.slots (surface_ready i ∷ q) q waiting waiting i _ b kq rest tt
            (λ j ne. omega (arith, queued_other j i q ne))
            (omega (arith, queued_head i q, kq.accounted i b, owned-le (slot_at c i).state));
    }

-- It reads the surface at the head of the queue.
read_head :
    (c : Capture) (i : ℕ) (q : List Message)
    → c.queue ≡ surface_ready i ∷ q
    → c.phase ≡ waiting
    → IsSession c
    → IsSession (record c { queue = q; phase = reading i })
read_head c i q e w k =
    let kq = at_head c i q e w k in
    let (b, rest) = kq.surfaces in
    record {
      accounts = record {
        two = kq.two;
        surfaces = rest;
        reader = b;
        accounted = λ j jb. moved j i q ∙ kq.accounted j jb;
      };
    }

start_reading-IsSession :
    (c : Capture) (i : ℕ) (q : List Message)
    → c.queue ≡ surface_ready i ∷ q
    → c.phase ≡ waiting
    → IsSession c
    → IsSession (start_reading i (record c { queue = q }))
unfolding start_reading capture_get_surface
start_reading-IsSession c i q e w k =
    let (b, rest) = (at_head c i q e w k).surfaces in
    rw (lt→not_ltb i b, start_reading, capture_get_surface)
      (elim (Option-cases (captured_at c i).pixels) [
        | inl p ↦ rw p (drop_head c i q e w k)
        | inr (address, p) ↦ rw p (read_head c i q e w k)
      ])

take_message-IsSession :
    (c : Capture) → c.phase ≡ waiting → IsSession c → IsSession (take_message c)
unfolding take_message
take_message-IsSession c w k = elim (queue-cases c.queue k.accounts.surfaces) [
  | inl e ↦ rw e record { accounts = subst (λ q. Accounts c.slots q c.phase) e k.accounts }
  | inr (i, q, e) ↦ rw e (start_reading-IsSession c i q e w k)
]

release_surface-IsSession :
    (c : Capture) (i : ℕ) (bytes : List ℕ)
    → c.phase ≡ reading i
    → IsSession c
    → IsSession (release_surface i bytes c)
unfolding release_surface
release_surface-IsSession c i bytes r k =
    let kr : Accounts c.slots c.queue (reading i) =
      subst (λ p. Accounts c.slots c.queue p) r k.accounts in
    let b = kr.reader in
    rw (capture_release-below i c b) record {
      accounts =
          Accounts-step c.slots c.queue c.queue (reading i) (sending i bytes) i _ b kr kr.surfaces b
            (λ j ne. omega (arith, hit_ne i j ne))
            (omega (arith, hit_self i, kr.accounted i b, owned-le (slot_at c i).state));
    }

waits_again :
    (slots : List CaptureSlot) (q : List Message) (i : ℕ) (bytes : List ℕ)
    → Accounts slots q (sending i bytes)
    → Accounts slots q waiting
waits_again slots q i bytes k = record {
  two = k.two;
  surfaces = k.surfaces;
  reader = tt;
  accounted = k.accounted;
}

pub Step-kept :
    (sys : System) (room : HasQueue sys) (c d : Capture) → Step sys c d → IsSession c → IsSession d
unfolding send_frame
Step-kept sys room _ _ (scanned alloc active fps src now c) k =
    on_tv_scanout-IsSession sys room alloc active fps src now c k
Step-kept sys room _ _ (taken c w) k = take_message-IsSession c w k
Step-kept sys room _ _ (released c i bytes r) k = release_surface-IsSession c i bytes r k
Step-kept sys room _ _ (sent c s i bytes w) k = record {
  accounts =
      waits_again c.slots c.queue i bytes (subst (λ p. Accounts c.slots c.queue p) w k.accounts);
}

Reach-kept :
    (sys : System) (room : HasQueue sys) (start c : Capture)
    → IsSession start
    → Reach sys start c
    → IsSession c
Reach-kept sys room start c k begin = k
Reach-kept sys room start _ k (next c d r s) =
    Step-kept sys room c d s (Reach-kept sys room start c k r)

-- From any state in which the surfaces are accounted for, whatever the hook and the thread do in any
-- order, they stay so, at most two messages are in the queue of four, and encoderSubmit finds room.
pub Reach-IsSession :
    (sys : System) (start c : Capture)
    → HasQueue sys
    → IsSession start
    → Reach sys start c
    → IsSession c × (length c.queue ≤ 2)
Reach-IsSession sys start c room k r =
    let kc = Reach-kept sys room start c k r in (kc, IsSession-short c kc)

owned_encoding : (st : SlotState) → 1 ≤ owned st → st ≡ encoding
owned_encoding free h = absurd (omega arith)
owned_encoding copy_pending h = absurd (omega arith)
owned_encoding encoding h = refl

-- While the encoder thread reads a surface, in any run from an accounted state, a scan-out changes
-- neither that surface's slot with the address of its image nor its record.
pub reading_kept :
    (sys : System) (start c : Capture) (i : ℕ) (alloc : ℕ → Option ℕ) (active : Bool) (fps : ℕ)
    (src : Option (Surface × ℕ)) (now : ℕ)
    → HasQueue sys
    → IsSession start
    → Reach sys start c
    → c.phase ≡ reading i
    → Keeps i c (on_tv_scanout sys alloc active fps src now c)
reading_kept sys start c i alloc active fps src now room k r p =
    let kc = Reach-kept sys room start c k r in
    let kr : Accounts c.slots c.queue (reading i) =
      subst (λ p. Accounts c.slots c.queue p) p kc.accounts in
    on_tv_scanout-Keeps sys alloc active fps src now i c
      (owned_encoding (slot_at c i).state (omega (arith, hit_self i, kr.accounted i kr.reader)))
