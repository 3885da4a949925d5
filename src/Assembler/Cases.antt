-- ===== src/Assembler/Cases.antt =====
-- The ways through FrameAssembler::feed, for the proofs about it.
use wii_sec_u.Base.{
  ℕ, suc, ◌≤◌, ◌<◌, ◌≡◌, ◌≢◌, refl, ◌⊎◌, inl, inr, true, false, List, [], ◌∷◌, Option, none, some,
  length, drop, get_or, set, leb, ◌==◌, arith, Bool-cases, Option-cases, ==→eq, not_==→ne, tests,
}
use wii_sec_u.Base.All.{drop-cons}
use wii_sec_u.Protocol.Types.{VideoHeader}
use wii_sec_u.Assembler.{
  Frame, Pending, Assembler, blank, Scan, found, window, scan, allocated, claim, find_or_allocate,
  deliver, stored, store, count_slice, is_stale, feed, first_free, older,
}

module _ (id : ℕ) (all : List Pending) where
  abbrev entry : ℕ → Pending
  entry k = get_or all k blank

  abbrev FreeAt : Option ℕ → Type 0
  FreeAt none = Unit
  FreeAt (some k) = (k < length all) × ((entry k).in_use ≡ false)

  abbrev UsedAt : Option (ℕ × ℕ) → Type 0
  UsedAt none = Unit
  UsedAt (some (k, o)) = (k < length all) × ((entry k).in_use ≡ true) × ((entry k).frame_id ≡ o)

  -- What the loop's result says of the array.
  abbrev pub Scanned : Scan → Type 0
  Scanned (found k) = (k < length all) × ((entry k).in_use ≡ true) × ((entry k).frame_id ≡ id)
  Scanned (window free oldest) = FreeAt free × UsedAt oldest

  first_free-FreeAt :
      (i : ℕ) (free : Option ℕ)
      → i < length all
      → FreeAt free
      → FreeAt (first_free (entry i) i free)
  unfolding first_free
  first_free-FreeAt i none h f = ground arith
  first_free-FreeAt i (some k) h f = f

  older-UsedAt :
      (i : ℕ) (oldest : Option (ℕ × ℕ))
      → i < length all
      → UsedAt oldest
      → UsedAt (older (entry i) i oldest)
  unfolding older
  older-UsedAt i none h f = ground arith
  older-UsedAt i (some (k, o)) h f = ground arith

  scan-Scanned :
      (ps : List Pending) (i : ℕ) (free : Option ℕ) (oldest : Option (ℕ × ℕ))
      → drop i all ≡ ps
      → FreeAt free
      → UsedAt oldest
      → Scanned (scan id ps i free oldest)
  unfolding scan
  scan-Scanned [] i free oldest e f u = (f, u)
  scan-Scanned (p ∷ ps) i free oldest e f u =
      let (h, g, r) = drop-cons all i p blank ps e in
      ground (
        arith,
        g,
        scan-Scanned ps (suc i) (first_free p i free) (older p i oldest) r
            (rw (← g) (first_free-FreeAt i free h f)) (rw (← g) (older-UsedAt i oldest h u)),
      )

-- findOrAllocate gives the entry that already collects the frame, or one that is made anew for it.
abbrev pub Claimed : Assembler → VideoHeader → ℕ → Assembler → Type 0
Claimed a v k b =
    (k < length a.pending)
    × (((b ≡ a)
          × ((get_or a.pending k blank).in_use ≡ true)
          × ((get_or a.pending k blank).frame_id ≡ v.frame_id))
        ⊎ ((b.pending ≡ set a.pending k (allocated v))
            × (b.newest_delivered ≡ a.newest_delivered)
            × (b.any_delivered ≡ a.any_delivered)))

claim-Claimed :
    (a : Assembler) (v : VideoHeader) (r : Scan) {k : ℕ} {b : Assembler}
    → Scanned v.frame_id a.pending r
    → claim a v r ≡ some (k, b)
    → Claimed a v k b
unfolding claim
claim-Claimed a v (found j) s e = ground arith
claim-Claimed a v (window (some j) oldest) s e = ground arith
claim-Claimed a v (window none none) s e = ground arith
claim-Claimed a v (window none (some (j, o))) s e = ground arith

pub find_or_allocate-Claimed :
    (a : Assembler) (v : VideoHeader) {k : ℕ} {b : Assembler}
    → find_or_allocate a v ≡ some (k, b)
    → Claimed a v k b
unfolding find_or_allocate
find_or_allocate-Claimed a v e =
    claim-Claimed a v _ (scan-Scanned v.frame_id a.pending a.pending 0 none none refl tt tt) e

-- A property of what feed returns follows from its cases: the slice is stale or finds no entry, or an
-- entry is claimed for it.
pub feed_cases {ℓ} :
    (C : Assembler × Option Frame → Type ℓ) (a : Assembler) (v : VideoHeader) (payload : List ℕ)
    → C (count_slice a, none)
    → ((k : ℕ) (b : Assembler)
        → is_stale a v.frame_id ≡ false
        → Claimed (count_slice a) v k b
        → C (store b k v payload))
    → C (feed a v payload)
unfolding feed
feed_cases C a v payload ignored claimed = elim (Bool-cases (is_stale a v.frame_id)) [
  | inl e ↦ rw e ignored
  | inr e ↦ elim (Option-cases (find_or_allocate (count_slice a) v)) [
    | inl f ↦ rw (e, f, feed) ignored
    | inr ((k, b), f) ↦
        rw (e, f, feed) (claimed k b e (find_or_allocate-Claimed (count_slice a) v f))
  ]
]

abbrev pub claimed_entry : Assembler → ℕ → Pending
claimed_entry a k = get_or a.pending k blank

abbrev pub after_store : Assembler → ℕ → Pending → Assembler
after_store a k p = record a { pending = set a.pending k p }

-- Of store: the slice is refused, or is copied in and leaves gaps, or is the last one of its frame.
pub store_cases {ℓ} :
    (C : Assembler × Option Frame → Type ℓ) (a : Assembler) (k : ℕ) (v : VideoHeader)
    (payload : List ℕ)
    → (((claimed_entry a k).slice_count ≤ v.slice_index)
          ⊎ (get_or (claimed_entry a k).have_slice v.slice_index false ≡ true)
        → C (a, none))
    → (v.slice_index < (claimed_entry a k).slice_count
        → get_or (claimed_entry a k).have_slice v.slice_index false ≡ false
        → let p = stored (claimed_entry a k) v payload in
          ((p.slices_have ≢ p.slice_count → C (after_store a k p, none))
            × (p.slices_have ≡ p.slice_count
                → C (
                  (deliver (after_store a k p) k p).0,
                  some (deliver (after_store a k p) k p).1,
                ))))
    → C (store a k v payload)
unfolding store
store_cases C a k v payload refused copied =
    elim (Bool-cases (leb (claimed_entry a k).slice_count v.slice_index)) [
      | inl e ↦ rw e (refused (inl (omega tests)))
      | inr e ↦ elim (Bool-cases (get_or (claimed_entry a k).have_slice v.slice_index false)) [
        | inl f ↦ rw (e, f) (refused (inr f))
        | inr f ↦
            elim (Bool-cases (
              (stored (claimed_entry a k) v payload).slices_have
              == (stored (claimed_entry a k) v payload).slice_count)) [
                | inl g ↦ rw (e, f, g) ((copied (omega tests) f).1 (==→eq _ _ g))
                | inr g ↦ rw (e, f, g) ((copied (omega tests) f).0 (not_==→ne _ _ g))
              ]
      ]
    ]
