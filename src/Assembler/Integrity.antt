-- ===== src/Assembler/Integrity.antt =====
-- What FrameAssembler delivers, against what the sender sliced.
use mathlib.Core.List.{flatten}
use wii_sec_u.Base.{
  ℕ, zero, suc, ◌*◌, ◌≤◌, ◌<◌, ◌≡◌, ◌≢◌, refl, sym, ap, subst, ◌∙◌, ◌⊎◌, inl, inr, true, false,
  List, [], ◌∷◌, ◌++◌, length, take, drop, get_or, ltb, ◌==◌, arith, Bool-cases, get_or-set_self,
  get_or-set_ne, get_or-replicate, take-length, ==→eq, not_==→ne, tests,
}
use wii_sec_u.Base.All.{
  write_at, take-drop-write_at_self, take-drop-write_at_before, drop-write_at_after, drop-cons,
}
use wii_sec_u.Protocol.Types.{VideoHeader, max_slice_payload}
use wii_sec_u.Assembler.{Frame, Pending, allocated, collect, stored}
use wii_sec_u.Assembler.Inv.{IsSlice, IsSound}

-- A frame as the sender cut it.
pub record Sent : Type 0 where
  pub timestamp_ms : ℕ
  pub flags : ℕ
  pub slices : List (List ℕ)

abbrev pub slice_of : Sent → ℕ → List ℕ
slice_of s i = get_or s.slices i []

-- The frame that the receiver is to see.
abbrev pub sent_frame : ℕ → Sent → Frame
sent_frame id s = record {
  frame_id = id;
  timestamp_ms = s.timestamp_ms;
  flags = s.flags;
  bytes = flatten s.slices;
}

-- No slice of the stream is longer than a packet may carry.
abbrev pub IsSliced : (ℕ → Sent) → Type 0
IsSliced stream = (id i : ℕ) → length (slice_of (stream id) i) ≤ max_slice_payload

-- The slice is one of those that the stream consists of.
pub record IsGenuine (stream : ℕ → Sent) (v : VideoHeader) (payload : List ℕ) : Type 0 where
  pub timestamp_same : v.timestamp_ms ≡ (stream v.frame_id).timestamp_ms
  pub flags_same : v.flags ≡ (stream v.frame_id).flags
  pub count_same : v.slice_count ≡ length (stream v.frame_id).slices
  pub payload_same : payload ≡ slice_of (stream v.frame_id) v.slice_index

-- What the entry has of slice `i` is that slice.
abbrev pub HoldsAt : Sent → Pending → ℕ → Type 0
HoldsAt s p i =
    get_or p.have_slice i false ≡ true
    → (get_or p.slice_len i 0 ≡ length (slice_of s i))
      × (take (length (slice_of s i)) (drop (i * max_slice_payload) p.bytes) ≡ slice_of s i)

pub record Holds (s : Sent) (p : Pending) : Type 0 where
  pub timestamp_held : p.timestamp_ms ≡ s.timestamp_ms
  pub flags_held : p.flags ≡ s.flags
  pub count_held : p.slice_count ≡ length s.slices
  pub slices_held : (i : ℕ) → i < p.slice_count → HoldsAt s p i

abbrev pub IsFaithful : (ℕ → Sent) → Pending → Type 0
IsFaithful stream p = p.in_use ≡ true → Holds (stream p.frame_id) p

pub allocated-IsFaithful :
    (stream : ℕ → Sent) (v : VideoHeader) (payload : List ℕ)
    → IsGenuine stream v payload
    → IsFaithful stream (allocated v)
unfolding allocated
allocated-IsFaithful stream v payload g _ = record {
  timestamp_held = g.timestamp_same;
  flags_held = g.flags_same;
  count_held = g.count_same;
  slices_held = λ i h e. let f = get_or-replicate v.slice_count i false false h in cc;
}

block_other :
    (xs ws : List ℕ) (j i n : ℕ)
    → j ≢ i
    → length ws ≤ max_slice_payload
    → n ≤ max_slice_payload
    → take n (drop (i * max_slice_payload) (write_at xs (j * max_slice_payload) ws))
      ≡ take n (drop (i * max_slice_payload) xs)
block_other xs ws j i n ne short small = elim (Bool-cases (ltb i j)) [
  | inl e ↦
      take-drop-write_at_before xs (j * max_slice_payload) ws (i * max_slice_payload) n
        (omega tests)
  | inr e ↦
      ap (take n)
        (drop-write_at_after xs (j * max_slice_payload) ws (i * max_slice_payload) (omega tests))
]

-- Copying a slice in changes no other slice.
stored-HoldsAt_other :
    (s : Sent) (p : Pending) (v : VideoHeader) (payload : List ℕ) (i : ℕ)
    → v.slice_index ≢ i
    → length payload ≤ max_slice_payload
    → v.payload_len ≡ length payload
    → length (slice_of s i) ≤ max_slice_payload
    → HoldsAt s p i
    → HoldsAt s (stored p v payload) i
unfolding stored
stored-HoldsAt_other s p v payload i ne short n small held e =
    let h = held (rw (get_or-set_ne p.have_slice v.slice_index i true false ne) at e) in
    (
      get_or-set_ne p.slice_len v.slice_index i v.payload_len 0 ne ∙ h.0,
      rw (n, take-length payload)
          (block_other p.bytes payload v.slice_index i (length (slice_of s i)) ne short small
            ∙ h.1),
    )

stored-HoldsAt_self :
    (s : Sent) (p : Pending) (v : VideoHeader) (payload : List ℕ)
    → IsSound p
    → v.slice_index < p.slice_count
    → length payload ≤ max_slice_payload
    → v.payload_len ≡ length payload
    → payload ≡ slice_of s v.slice_index
    → HoldsAt s (stored p v payload) v.slice_index
unfolding stored
stored-HoldsAt_self s p v payload k i short n same _ = (
  get_or-set_self p.slice_len v.slice_index v.payload_len 0 (omega (arith, k.len_size))
      ∙ (n ∙ ap length same),
  rw (← same, n, take-length payload)
      (take-drop-write_at_self p.bytes (v.slice_index * max_slice_payload) payload
        (omega (arith, k.room))),
)

pub ℕ-eq-cases : (a b : ℕ) → (a ≡ b) ⊎ (a ≢ b)
ℕ-eq-cases a b = elim (Bool-cases (a == b)) [
  | inl e ↦ inl (==→eq a b e)
  | inr e ↦ inr (not_==→ne a b e)
]

pub stored-Holds :
    (s : Sent) (p : Pending) (v : VideoHeader) (payload : List ℕ)
    → ((i : ℕ) → length (slice_of s i) ≤ max_slice_payload)
    → IsSlice v payload
    → IsSound p
    → v.slice_index < p.slice_count
    → payload ≡ slice_of s v.slice_index
    → Holds s p
    → Holds s (stored p v payload)
unfolding stored
stored-Holds s p v payload small sl k i same h = record {
  timestamp_held = h.timestamp_held;
  flags_held = h.flags_held;
  count_held = h.count_held;
  slices_held = λ j b. elim (ℕ-eq-cases v.slice_index j) [
    | inl e ↦
        subst (HoldsAt s (stored p v payload)) e
          (stored-HoldsAt_self s p v payload k i (rw (sl.whole) sl.short) (sym sl.whole) same)
    | inr ne ↦
        stored-HoldsAt_other s p v payload j ne (rw (sl.whole) sl.short) (sym sl.whole) (small j)
          (h.slices_held j b)
  ];
}

-- The slices of a full entry make up the frame.
pub collect-flatten :
    (s : Sent) (p : Pending) (n i : ℕ) (rest : List (List ℕ))
    → drop i s.slices ≡ rest
    → length rest ≡ n
    → ((j : ℕ) → j < length s.slices → HoldsAt s p j)
    → ((j : ℕ) → j < length s.slices → get_or p.have_slice j false ≡ true)
    → collect n i p ≡ flatten rest
unfolding collect flatten
collect-flatten s p zero i [] d e h all = refl
collect-flatten s p zero i (c ∷ rest) d e h all = absurd (omega arith)
collect-flatten s p (suc n) i [] d e h all = absurd (omega arith)
collect-flatten s p (suc n) i (c ∷ rest) d e h all =
    let (b, g, r) = drop-cons s.slices i c [] rest d in
    let (l, t) = h i b (all i b) in
    rw (l, t, g) (ap (◌++◌ c) (collect-flatten s p n (suc i) rest r (omega arith) h all))
