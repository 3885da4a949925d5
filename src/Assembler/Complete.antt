-- ===== src/Assembler/Complete.antt =====
-- FrameAssembler delivers every frame whose slices all arrive.
use wii_sec_u.Base.{
  ℕ, suc, ◌≤◌, ◌<◌, ◌≡◌, ◌≢◌, refl, sym, ap, ◌∙◌, ◌⊎◌, inl, inr, Bool, true, false, List, [], ◌∷◌,
  Option, none, some, length, get_or, set, arith, get_or-set_self, get_or-set_ne,
}
use wii_sec_u.Base.All.{All, count_true}
use wii_sec_u.Protocol.Types.{VideoHeader, max_slice_payload}
use wii_sec_u.Assembler.{
  Frame, Pending, Assembler, allocated, deliver, stored, store, found, window, scan,
  find_or_allocate, count_slice, is_stale, feed, id_newer, first_free, older, claim,
}
use wii_sec_u.Assembler.Cases.{store_cases}
use wii_sec_u.Assembler.Inv.{IsSlice, IsSound, stored-IsSound, allocated-IsSound}
use wii_sec_u.Assembler.Integrity.{
  Sent, slice_of, sent_frame, IsGenuine, Holds, allocated-IsFaithful, stored-Holds, ℕ-eq-cases,
}
use wii_sec_u.Assembler.Stream.{run, prepend, deliver-frame, deliver-newest, full-have}

abbrev pub IsIdle : Pending → Type 0
IsIdle p = p.in_use ≡ false

scan-idle :
    (id : ℕ) (ps : List Pending) (i k : ℕ)
    → All IsIdle ps
    → scan id ps i (some k) none ≡ window (some k) none
unfolding scan first_free older
scan-idle id [] i k h = refl
scan-idle id (p ∷ ps) i k (h, hs) = rw h (scan-idle id ps (suc i) k hs)

feed-store :
    (a : Assembler) (v : VideoHeader) (payload : List ℕ) (k : ℕ) (b : Assembler)
    → is_stale a v.frame_id ≡ false
    → find_or_allocate (count_slice a) v ≡ some (k, b)
    → feed a v payload ≡ store b k v payload
unfolding feed
feed-store a v payload k b e f = rw (e, f, feed)

scan-front :
    (id : ℕ) (p : Pending) (rest : List Pending)
    → p.in_use ≡ true
    → p.frame_id ≡ id
    → scan id (p ∷ rest) 0 none none ≡ found 0
unfolding scan
scan-front id p rest u e = ground arith

-- With the frame's entry in front, feed goes straight to store;
feed-front :
    (a : Assembler) (p : Pending) (rest : List Pending) (v : VideoHeader) (payload : List ℕ)
    → p.in_use ≡ true
    → p.frame_id ≡ v.frame_id
    → is_stale a v.frame_id ≡ false
    → feed (record a { pending = p ∷ rest }) v payload
      ≡ store (count_slice (record a { pending = p ∷ rest })) 0 v payload
unfolding find_or_allocate
feed-front a p rest v payload u e s =
    feed-store (record a { pending = p ∷ rest }) v payload 0 _ s
      (ap (claim (count_slice (record a { pending = p ∷ rest })) v)
        (scan-front v.frame_id p rest u e))

scan-all_idle :
    (id : ℕ) (p : Pending) (rest : List Pending)
    → All IsIdle (p ∷ rest)
    → scan id (p ∷ rest) 0 none none ≡ window (some 0) none
unfolding scan first_free older
scan-all_idle id p rest (h, hs) = ground (arith, scan-idle id rest 1 0 hs)

-- and with no entry in use, the first one is taken.
feed-idle :
    (a : Assembler) (p : Pending) (rest : List Pending) (v : VideoHeader) (payload : List ℕ)
    → All IsIdle (p ∷ rest)
    → is_stale a v.frame_id ≡ false
    → feed (record a { pending = p ∷ rest }) v payload
      ≡ store (count_slice (record a { pending = allocated v ∷ rest })) 0 v payload
unfolding find_or_allocate
feed-idle a p rest v payload h s =
    feed-store (record a { pending = p ∷ rest }) v payload 0 _ s
      (ap (claim (count_slice (record a { pending = p ∷ rest })) v)
        (scan-all_idle v.frame_id p rest h))

id_newer_irrefl : (a : ℕ) → id_newer a a ≡ false
unfolding id_newer
id_newer_irrefl a = ground arith

feed-stale :
    (a : Assembler) (v : VideoHeader) (payload : List ℕ)
    → a.any_delivered ≡ true
    → a.newest_delivered ≡ v.frame_id
    → feed a v payload ≡ (count_slice a, none)
unfolding feed
feed-stale a v payload any newest = rw (any, newest, id_newer_irrefl v.frame_id)

-- Slices of one frame, which are among the sender's.
abbrev pub AreOf : ℕ → Sent → List (VideoHeader × List ℕ) → Type 0
AreOf id s [] = Unit
AreOf id s ((v, payload) ∷ slices) =
    (v.frame_id ≡ id) × IsSlice v payload × IsGenuine (λ _. s) v payload × AreOf id s slices

-- Slice `i` is one of those that come in.
abbrev pub Arrives : ℕ → List (VideoHeader × List ℕ) → Type 0
Arrives i [] = ⊥
Arrives i ((v, payload) ∷ slices) = (v.slice_index ≡ i) ⊎ Arrives i slices

-- After its delivery the rest of the frame is ignored.
run-stale :
    (id : ℕ) (s : Sent) (slices : List (VideoHeader × List ℕ)) (a : Assembler)
    → AreOf id s slices
    → a.any_delivered ≡ true
    → a.newest_delivered ≡ id
    → run a slices ≡ []
unfolding run
run-stale id s [] a g any newest = refl
run-stale id s ((v, payload) ∷ slices) a (e, _, _, g) any newest =
    rw (feed-stale a v payload any (newest ∙ sym e))
      (run-stale id s slices (count_slice a) g any newest)

count_true-all :
    (bs : List Bool)
    → ((i : ℕ) → i < length bs → get_or bs i false ≡ true)
    → count_true bs ≡ length bs
count_true-all [] h = refl
count_true-all (true ∷ bs) h = ap suc (count_true-all bs (λ i b. h (suc i) (omega arith)))
count_true-all (false ∷ bs) h = let e = h 0 (omega arith) in cc

allocated-front :
    (v : VideoHeader) → ((allocated v).in_use ≡ true) × ((allocated v).frame_id ≡ v.frame_id)
unfolding allocated
allocated-front v = (refl, refl)

module _ (id : ℕ) (s : Sent) (small : (i : ℕ) → length (slice_of s i) ≤ max_slice_payload) where
  -- The entry holds slices of this frame, and those that it lacks are still to come.
  abbrev Collects : Pending → List (VideoHeader × List ℕ) → Type 0
  Collects p slices =
      (p.in_use ≡ true)
      × (p.frame_id ≡ id)
      × IsSound p
      × Holds s p
      × ((i : ℕ) → i < p.slice_count → (get_or p.have_slice i false ≡ true) ⊎ Arrives i slices)

  not_complete : (p : Pending) → Collects p [] → ⊥
  not_complete p (u, _, k, _, need) =
      let all =
        count_true-all p.have_slice
          λ i b. elim (need i (omega (arith, k.have_size))) [ inl e ↦ e | inr e ↦ absurd e ] in
      omega (arith, k.partial u, k.counted, k.have_size)

  -- A slice that is there already leaves the entry as it was.
  Collects-duplicate :
      (p : Pending) (v : VideoHeader) (payload : List ℕ) (slices : List (VideoHeader × List ℕ))
      → get_or p.have_slice v.slice_index false ≡ true
      → Collects p ((v, payload) ∷ slices)
      → Collects p slices
  Collects-duplicate p v payload slices f (u, e, k, h, need) = (
    u,
    e,
    k,
    h,
    λ i b. elim (need i b) [ inl g ↦ inl g | inr (inl g) ↦ inl (rw (← g) f) | inr (inr g) ↦ inr g ],
  )

  stored-need :
      (p : Pending) (v : VideoHeader) (payload : List ℕ) (slices : List (VideoHeader × List ℕ))
      (i : ℕ)
      → i < length p.have_slice
      → (get_or p.have_slice i false ≡ true) ⊎ Arrives i ((v, payload) ∷ slices)
      → (get_or (set p.have_slice v.slice_index true) i false ≡ true) ⊎ Arrives i slices
  stored-need p v payload slices i b n = elim (ℕ-eq-cases v.slice_index i) [
    | inl e ↦ inl (rw e (get_or-set_self p.have_slice i true false b))
    | inr ne ↦ elim n [
      | inl g ↦ inl (get_or-set_ne p.have_slice v.slice_index i true false ne ∙ g)
      | inr (inl g) ↦ absurd (ne g)
      | inr (inr g) ↦ inr g
    ]
  ]

  Collects-stored :
      (p : Pending) (v : VideoHeader) (payload : List ℕ) (slices : List (VideoHeader × List ℕ))
      → IsSlice v payload
      → payload ≡ slice_of s v.slice_index
      → v.slice_index < p.slice_count
      → get_or p.have_slice v.slice_index false ≡ false
      → (stored p v payload).slices_have ≢ p.slice_count
      → Collects p ((v, payload) ∷ slices)
      → Collects (stored p v payload) slices
  unfolding stored
  Collects-stored p v payload slices sl same i f gaps (u, e, k, h, need) = (
    u,
    e,
    stored-IsSound p v payload p.in_use k i f (λ _. gaps),
    stored-Holds s p v payload small sl k i same h,
    λ j b. stored-need p v payload slices j (omega (arith, k.have_size)) (need j b),
  )

  abbrev Delivers : List (VideoHeader × List ℕ) → Assembler × Option Frame → Type 0
  Delivers slices r = prepend r.1 (run r.0 slices) ≡ sent_frame id s ∷ []

  -- The last slice: the frame comes out, and what follows of it is ignored.
  deliver-Delivers :
      (a : Assembler) (p : Pending) (v : VideoHeader) (payload : List ℕ)
      (slices : List (VideoHeader × List ℕ))
      → AreOf id s slices
      → IsSlice v payload
      → payload ≡ slice_of s v.slice_index
      → v.slice_index < p.slice_count
      → get_or p.have_slice v.slice_index false ≡ false
      → (stored p v payload).slices_have ≡ p.slice_count
      → Collects p ((v, payload) ∷ slices)
      → let r = deliver a 0 (stored p v payload) in Delivers slices (r.0, some r.1)
  unfolding stored
  deliver-Delivers a p v payload slices g sl same i f full (u, e, k, h, need) =
      let q : Pending = stored p v payload in
      let (any, newest, _) = deliver-newest a 0 q in
      let sound = stored-IsSound p v payload false k i f (λ e. cc) in
      let frame =
        deliver-frame s a 0 q (stored-Holds s p v payload small sl k i same h)
          (full-have q false sound full) in
      rw (run-stale id s slices (deliver a 0 q).0 g any (newest ∙ e), frame, e)

  run-collect :
      (slices : List (VideoHeader × List ℕ)) (a : Assembler) (p : Pending) (rest : List Pending)
      → AreOf id s slices
      → is_stale a id ≡ false
      → Collects p slices
      → run (record a { pending = p ∷ rest }) slices ≡ sent_frame id s ∷ []
  unfolding run stored
  run-collect [] a p rest g st c = absurd (not_complete p c)
  run-collect ((v, payload) ∷ slices) a p rest (e, sl, gen, g) st c =
      rw (feed-front a p rest v payload c.0 (c.1 ∙ sym e) (rw e st)) (
        store_cases (Delivers slices) (count_slice (record a { pending = p ∷ rest })) 0 v payload
          (λ r. elim r [
            | inl b ↦ absurd (omega (arith, c.3.count_held))
            | inr f ↦
                run-collect slices (count_slice a) p rest g st
                  (Collects-duplicate p v payload slices f c)
          ])
          λ i f. (
            (λ gaps.
                run-collect slices (count_slice a) (stored p v payload) rest g st
                  (Collects-stored p v payload slices sl gen.payload_same i f gaps c)),
            (λ full. deliver-Delivers _ p v payload slices g sl gen.payload_same i f full c),
          ))

  first-Collects :
      (v : VideoHeader) (payload : List ℕ) (slices : List (VideoHeader × List ℕ))
      → v.frame_id ≡ id
      → IsSlice v payload
      → IsGenuine (λ _. s) v payload
      → ((i : ℕ) → i < length s.slices → Arrives i slices)
      → Collects (allocated v) slices
  unfolding allocated
  first-Collects v payload slices e sl g all = (
    refl,
    e,
    allocated-IsSound v payload sl,
    allocated-IsFaithful (λ _. s) v payload g refl,
    λ i b. inr (all i (rw (← g.count_same) b)),
  )

  run-idle :
      (slices : List (VideoHeader × List ℕ)) (a : Assembler) (ps : List Pending)
      → a.pending ≡ ps
      → 0 < length ps
      → All IsIdle ps
      → 0 < length s.slices
      → AreOf id s slices
      → is_stale a id ≡ false
      → ((i : ℕ) → i < length s.slices → Arrives i slices)
      → run (record a { pending = ps }) slices ≡ sent_frame id s ∷ []
  unfolding run
  run-idle slices a [] q n idle some_ g st all = absurd (omega arith)
  run-idle [] a (p ∷ rest) q n idle some_ g st all = absurd (all 0 some_)
  run-idle ((v, payload) ∷ slices) a (p ∷ rest) q n idle some_ (e, sl, gen, g) st all =
      rw (feed-idle a p rest v payload idle (rw e st)) (
        rw
          (feed-front a (allocated v) rest v payload (allocated-front v).0 (allocated-front v).1
            (rw e st))
          at
          (run-collect ((v, payload) ∷ slices) a (allocated v) rest (e, sl, gen, g) st
            (first-Collects v payload ((v, payload) ∷ slices) e sl gen all)))

  -- From an assembler that holds no part of a frame back, such as a new one: if every slice of a
  -- newer frame comes in, in whatever order and however often, the frame comes out whole and once.
  pub run_complete :
      (slices : List (VideoHeader × List ℕ)) (a : Assembler)
      → 0 < length a.pending
      → All IsIdle a.pending
      → 0 < length s.slices
      → AreOf id s slices
      → is_stale a id ≡ false
      → ((i : ℕ) → i < length s.slices → Arrives i slices)
      → run a slices ≡ sent_frame id s ∷ []
  run_complete slices a = run-idle slices a a.pending refl
