-- ===== src/Assembler/Stream.antt =====
-- A whole stream through FrameAssembler: slices lost, repeated, out of order and interleaved between
-- frames, as UDP may deliver them.
use wii_sec_u.Base.{
  ℕ, ◌<◌, ◌≡◌, refl, sym, subst, ◌∙◌, inl, inr, Bool, true, false, List, [], ◌∷◌, Option, none,
  some, get_or, set, arith, get_or-set_self,
}
use wii_sec_u.Base.All.{All, All-set, All-get_or, All-map, get_or-count_true}
use wii_sec_u.Protocol.Types.{VideoHeader}
use wii_sec_u.Assembler.{
  Frame, Pending, Assembler, blank, fresh, allocated, deliver, stored, store, abandon, count_slice,
  is_stale, feed, id_newer,
}
use wii_sec_u.Assembler.Cases.{feed_cases, store_cases, Claimed, claimed_entry, after_store}
use wii_sec_u.Assembler.Inv.{
  IsSlice, IsSound, Inv, Claimed-Inv, entry-IsSound, abandon_cases, set-set, stored-IsSound,
  feed-Inv, fresh-Inv,
}
use wii_sec_u.Assembler.Integrity.{
  Sent, sent_frame, IsSliced, IsGenuine, Holds, IsFaithful, allocated-IsFaithful, stored-Holds,
  collect-flatten,
}

abbrev pub AreFaithful : (ℕ → Sent) → Assembler → Type 0
AreFaithful stream a = All (IsFaithful stream) a.pending

-- The claimed entry is in use, and for the frame of the slice.
pub Claimed-entry :
    (a : Assembler) (v : VideoHeader) (k : ℕ) (b : Assembler)
    → Claimed a v k b
    → ((claimed_entry b k).in_use ≡ true) × ((claimed_entry b k).frame_id ≡ v.frame_id)
unfolding allocated
Claimed-entry a v k b (h, inl (e, u, f)) = rw e (u, f)
Claimed-entry a v k b (h, inr (e, _, _)) =
    rw (e, get_or-set_self a.pending k (allocated v) blank h) (refl, refl)

Claimed-AreFaithful :
    (stream : ℕ → Sent) (a : Assembler) (v : VideoHeader) (payload : List ℕ) (k : ℕ) (b : Assembler)
    → IsGenuine stream v payload
    → Claimed (count_slice a) v k b
    → AreFaithful stream a
    → AreFaithful stream b
Claimed-AreFaithful stream a v payload k b g (h, inl (e, _, _)) f =
    subst (AreFaithful stream) (sym e) f
Claimed-AreFaithful stream a v payload k b g (h, inr (e, _, _)) f = rw e (
    All-set (IsFaithful stream) a.pending k (allocated v) f
      (allocated-IsFaithful stream v payload g))

entry-Holds :
    (stream : ℕ → Sent) (b : Assembler) (k : ℕ)
    → (claimed_entry b k).in_use ≡ true
    → AreFaithful stream b
    → Holds (stream (claimed_entry b k).frame_id) (claimed_entry b k)
entry-Holds stream b k u f = All-get_or (IsFaithful stream) b.pending k blank f (λ e. cc) u

abandon-IsFaithful :
    (stream : ℕ → Sent) (newest : ℕ) (p : Pending)
    → IsFaithful stream p
    → IsFaithful stream (abandon newest p)
abandon-IsFaithful stream newest p f = abandon_cases (IsFaithful stream) newest p (λ e. cc) (λ _. f)

-- The frame that feed returns, if any: the sender's, and newer than the last one delivered.
abbrev pub IsRightFrame : (ℕ → Sent) → Assembler → Assembler → Option Frame → Type 0
IsRightFrame stream a b none =
    (b.any_delivered ≡ a.any_delivered) × (b.newest_delivered ≡ a.newest_delivered)
IsRightFrame stream a b (some f) =
    (f ≡ sent_frame f.frame_id (stream f.frame_id))
    × (a.any_delivered ≡ true → id_newer f.frame_id a.newest_delivered ≡ true)
    × (b.any_delivered ≡ true)
    × (b.newest_delivered ≡ f.frame_id)

-- A full entry is delivered as the frame that was sent.
pub deliver-frame :
    (s : Sent) (a : Assembler) (k : ℕ) (p : Pending)
    → Holds s p
    → ((j : ℕ) → j < p.slice_count → get_or p.have_slice j false ≡ true)
    → (deliver a k p).1 ≡ sent_frame p.frame_id s
unfolding deliver
deliver-frame s a k p h all =
    let c =
      collect-flatten s p p.slice_count 0 s.slices refl (sym h.count_held)
        (λ j b. h.slices_held j (omega (arith, h.count_held)))
        (λ j b. all j (omega (arith, h.count_held))) in
    ground (arith, c, h.timestamp_held, h.flags_held)

pub deliver-newest :
    (a : Assembler) (k : ℕ) (p : Pending)
    → ((deliver a k p).0.any_delivered ≡ true)
      × ((deliver a k p).0.newest_delivered ≡ p.frame_id)
      × ((deliver a k p).1.frame_id ≡ p.frame_id)
unfolding deliver
deliver-newest a k p = (refl, refl, refl)

deliver-AreFaithful :
    (stream : ℕ → Sent) (a : Assembler) (k : ℕ) (p : Pending)
    → AreFaithful stream a
    → AreFaithful stream (deliver (after_store a k p) k p).0
unfolding deliver
deliver-AreFaithful stream a k p f =
    let last : Pending = record p { in_use = false } in
    rw (set-set a.pending k p last) (
      All-map (IsFaithful stream) (abandon p.frame_id) (set a.pending k last)
        (abandon-IsFaithful stream p.frame_id)
        (All-set (IsFaithful stream) a.pending k last f (λ e. cc)))

-- Every slice of a full entry is there.
pub full-have :
    (p : Pending) (u : Bool)
    → IsSound (record p { in_use = u })
    → p.slices_have ≡ p.slice_count
    → (j : ℕ) → j < p.slice_count
    → get_or p.have_slice j false ≡ true
full-have p u s full j b =
    get_or-count_true p.have_slice j (omega (arith, s.counted, s.have_size))
      (omega (arith, s.have_size))

deliver-right :
    (stream : ℕ → Sent) (a c : Assembler) (k : ℕ) (q : Pending)
    → Holds (stream q.frame_id) q
    → ((j : ℕ) → j < q.slice_count → get_or q.have_slice j false ≡ true)
    → (a.any_delivered ≡ true → id_newer q.frame_id a.newest_delivered ≡ true)
    → IsRightFrame stream a (deliver c k q).0 (some (deliver c k q).1)
deliver-right stream a c k q held all ahead =
    let (any, newest, same) = deliver-newest c k q in
    (
      subst (λ id. (deliver c k q).1 ≡ sent_frame id (stream id)) (sym same)
          (deliver-frame (stream q.frame_id) c k q held all),
      (λ e. rw same (ahead e)),
      any,
      newest ∙ sym same,
    )

store-right :
    (stream : ℕ → Sent) (a b : Assembler) (k : ℕ) (v : VideoHeader) (payload : List ℕ)
    → IsSliced stream
    → IsSlice v payload
    → IsGenuine stream v payload
    → Inv b
    → AreFaithful stream b
    → (claimed_entry b k).in_use ≡ true
    → (claimed_entry b k).frame_id ≡ v.frame_id
    → (a.any_delivered ≡ true → id_newer v.frame_id a.newest_delivered ≡ true)
    → (b.any_delivered ≡ a.any_delivered) × (b.newest_delivered ≡ a.newest_delivered)
    → AreFaithful stream (store b k v payload).0
      × IsRightFrame stream a (store b k v payload).0 (store b k v payload).1
unfolding stored
store-right stream a b k v payload small sl g i f u id ahead same =
    store_cases (λ r. AreFaithful stream r.0 × IsRightFrame stream a r.0 r.1) b k v payload
      (λ _. (f, same))
      λ h n. (
        (λ gaps. (All-set (IsFaithful stream) b.pending k q f (λ _. held h), same)),
        (λ full. (
          deliver-AreFaithful stream b k q f,
          deliver-right stream a (after_store b k q) k q (held h)
              (full-have q false
                (stored-IsSound p v payload false (entry-IsSound b k i) h n (λ e. cc)) full)
              (λ e. rw id (ahead e)),
        )),
      )
  where
    p : Pending
    p = claimed_entry b k

    q : Pending
    q = stored p v payload

    held : v.slice_index < p.slice_count → Holds (stream p.frame_id) q
    held h =
        stored-Holds (stream p.frame_id) p v payload (small p.frame_id) sl (entry-IsSound b k i) h
          (rw id g.payload_same) (entry-Holds stream b k u f)

Claimed-same :
    (a : Assembler) (v : VideoHeader) (k : ℕ) (b : Assembler)
    → Claimed (count_slice a) v k b
    → (b.any_delivered ≡ a.any_delivered) × (b.newest_delivered ≡ a.newest_delivered)
Claimed-same a v k b (h, inl (e, _, _)) = rw e (refl, refl)
Claimed-same a v k b (h, inr (_, n, d)) = (d, n)

fresh_id :
    (a : Assembler) (id : ℕ)
    → is_stale a id ≡ false
    → a.any_delivered ≡ true
    → id_newer id a.newest_delivered ≡ true
fresh_id a id e any = ground arith

-- On a slice of the stream, feed delivers nothing or the very frame that the sender cut, once more
-- newer than the last one; and what it holds back stays a part of the stream.
pub feed-IsRightFrame :
    (stream : ℕ → Sent) (a : Assembler) (v : VideoHeader) (payload : List ℕ)
    → IsSliced stream
    → IsSlice v payload
    → IsGenuine stream v payload
    → Inv a
    → AreFaithful stream a
    → AreFaithful stream (feed a v payload).0
      × IsRightFrame stream a (feed a v payload).0 (feed a v payload).1
feed-IsRightFrame stream a v payload small sl g i f =
    feed_cases (λ r. AreFaithful stream r.0 × IsRightFrame stream a r.0 r.1) a v payload
      (f, (refl, refl))
      λ k b e c.
        let (u, id) = Claimed-entry (count_slice a) v k b c in
        store-right stream a b k v payload small sl g (Claimed-Inv a v payload k b sl e c i)
          (Claimed-AreFaithful stream a v payload k b g c f) u id (fresh_id a v.frame_id e)
          (Claimed-same a v k b c)

abbrev pub prepend : Option Frame → List Frame → List Frame
prepend none fs = fs
prepend (some f) fs = f ∷ fs

-- The frames that a sequence of slices brings out, in order.
unfoldable pub run : Assembler → List (VideoHeader × List ℕ) → List Frame
run a [] = []
run a ((v, payload) ∷ slices) = let (b, out) = feed a v payload in prepend out (run b slices)

-- Each frame is newer than the one before.
abbrev pub IsAscending : Bool → ℕ → List Frame → Type 0
IsAscending any newest [] = Unit
IsAscending any newest (f ∷ fs) =
    (any ≡ true → id_newer f.frame_id newest ≡ true) × IsAscending true f.frame_id fs

abbrev pub IsSentFrame : (ℕ → Sent) → Frame → Type 0
IsSentFrame stream f = f ≡ sent_frame f.frame_id (stream f.frame_id)

abbrev pub AreGenuine : (ℕ → Sent) → List (VideoHeader × List ℕ) → Type 0
AreGenuine stream [] = Unit
AreGenuine stream ((v, payload) ∷ slices) =
    IsSlice v payload × IsGenuine stream v payload × AreGenuine stream slices

prepend-right :
    (stream : ℕ → Sent) (a b : Assembler) (out : Option Frame) (fs : List Frame)
    → IsRightFrame stream a b out
    → All (IsSentFrame stream) fs
    → IsAscending b.any_delivered b.newest_delivered fs
    → All (IsSentFrame stream) (prepend out fs)
      × IsAscending a.any_delivered a.newest_delivered (prepend out fs)
prepend-right stream a b none fs (any, newest) s up = (s, rw (← any, ← newest) up)
prepend-right stream a b (some f) fs (same, ahead, any, newest) s up =
    ((same, s), (ahead, rw (any, newest) at up))

run-right :
    (stream : ℕ → Sent) (a : Assembler) (slices : List (VideoHeader × List ℕ))
    → IsSliced stream
    → AreGenuine stream slices
    → Inv a
    → AreFaithful stream a
    → All (IsSentFrame stream) (run a slices)
      × IsAscending a.any_delivered a.newest_delivered (run a slices)
unfolding run
run-right stream a [] small g i f = (tt, tt)
run-right stream a ((v, payload) ∷ slices) small (sl, g, rest) i f =
    let (f', right) = feed-IsRightFrame stream a v payload small sl g i f in
    let (sent, up) =
      run-right stream (feed a v payload).0 slices small rest (feed-Inv a v payload sl i) f' in
    prepend-right stream a (feed a v payload).0 (feed a v payload).1
      (run (feed a v payload).0 slices) right sent up

-- From a new assembler, whatever slices of a stream come in, in whatever order and however often:
-- every frame that comes out is a frame of the sender, byte for byte, and each is newer than the one
-- before. The stream gives each frame id one frame, with slices of at most 1200 bytes.
pub run-fresh-right :
    (stream : ℕ → Sent) (slices : List (VideoHeader × List ℕ))
    → IsSliced stream
    → AreGenuine stream slices
    → All (IsSentFrame stream) (run fresh slices) × IsAscending false 0 (run fresh slices)
run-fresh-right stream slices small g =
    run-right stream fresh slices small g fresh-Inv
      ((λ e. cc), ((λ e. cc), ((λ e. cc), ((λ e. cc), tt))))
