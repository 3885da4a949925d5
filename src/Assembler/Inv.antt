-- ===== src/Assembler/Inv.antt =====
-- The representation invariant of FrameAssembler.
use wii_sec_u.Base.{
  ℕ, zero, suc, ◌*◌, ◌^◌, ◌≤◌, ◌<◌, ◌≡◌, ◌≢◌, refl, sym, ap, ◌∙◌, inl, inr, Bool, true, false, List,
  [], ◌∷◌, length, take, get_or, set, map, arith, Bool-cases, subst, length-set, length-map,
  length-replicate,
}
use wii_sec_u.Base.All.{
  All, All-set, All-get_or, All-map, count_true, count_true-le, count_true-replicate,
  count_true-set, length-write_at,
}
use wii_sec_u.Protocol.Types.{VideoHeader, max_slice_payload}
use wii_sec_u.Assembler.{
  Pending, Assembler, blank, fresh, allocated, deliver, stored, store, abandon, is_abandoned,
  count_slice, is_stale, feed, id_newer, max_pending,
}
use wii_sec_u.Assembler.Cases.{feed_cases, store_cases, Claimed, claimed_entry, after_store}

-- What wsu_parse_video guarantees of a slice.
pub record IsSlice (v : VideoHeader) (payload : List ℕ) : Type 0 where
  pub index_in : v.slice_index < v.slice_count
  pub count_fits : v.slice_count < 2 ^ 16
  pub short : v.payload_len ≤ max_slice_payload
  pub whole : length payload ≡ v.payload_len

-- An entry's vectors have one place for each slice, its counter counts the slices that are there,
-- and while it is in use one is missing.
pub record IsSound (p : Pending) : Type 0 where
  pub have_size : length p.have_slice ≡ p.slice_count
  pub len_size : length p.slice_len ≡ p.slice_count
  pub room : length p.bytes ≡ p.slice_count * max_slice_payload
  pub counted : p.slices_have ≡ count_true p.have_slice
  pub width : p.slice_count < 2 ^ 16
  pub partial : p.in_use ≡ true → p.slices_have < p.slice_count

-- Once a frame is delivered, every entry in use is for a newer one.
abbrev pub IsAhead : Bool → ℕ → Pending → Type 0
IsAhead any newest p = any ≡ true → p.in_use ≡ true → id_newer p.frame_id newest ≡ true

pub record Inv (a : Assembler) : Type 0 where
  pub four : length a.pending ≡ max_pending
  pub sound : All IsSound a.pending
  pub ahead : All (IsAhead a.any_delivered a.newest_delivered) a.pending

pub blank-IsSound : IsSound blank
blank-IsSound = record {
  have_size = refl;
  len_size = refl;
  room = refl;
  counted = refl;
  width = omega arith;
  partial = λ e. cc;
}

pub fresh-Inv : Inv fresh
fresh-Inv = record {
  four = refl;
  sound = (blank-IsSound, (blank-IsSound, (blank-IsSound, (blank-IsSound, tt))));
  ahead = ((λ e _. cc), ((λ e _. cc), ((λ e _. cc), ((λ e _. cc), tt))));
}

pub allocated-IsSound :
    (v : VideoHeader) (payload : List ℕ) → IsSlice v payload → IsSound (allocated v)
unfolding allocated
allocated-IsSound v payload s = record {
  have_size = length-replicate v.slice_count false;
  len_size = length-replicate v.slice_count 0;
  room = length-replicate (v.slice_count * max_slice_payload) 0;
  counted = sym (count_true-replicate v.slice_count);
  width = s.count_fits;
  partial = λ _. omega (arith, s.index_in);
}

released-IsSound : (p : Pending) → IsSound p → IsSound (record p { in_use = false })
released-IsSound p s = record {
  have_size = s.have_size;
  len_size = s.len_size;
  room = s.room;
  counted = s.counted;
  width = s.width;
  partial = λ e. cc;
}

pub abandon_cases {ℓ} :
    (C : Pending → Type ℓ) (newest : ℕ) (p : Pending)
    → C (record p { in_use = false })
    → ((p.in_use ≡ true → id_newer p.frame_id newest ≡ true) → C p)
    → C (abandon newest p)
unfolding abandon is_abandoned
abandon_cases C newest p released kept = elim (Bool-cases (is_abandoned newest p)) [
  | inl e ↦ rw e released
  | inr e ↦ rw e (kept (λ u. ground arith))
]

abandon-IsSound : (newest : ℕ) (p : Pending) → IsSound p → IsSound (abandon newest p)
abandon-IsSound newest p s = abandon_cases IsSound newest p (released-IsSound p s) (λ _. s)

abandon-IsAhead : (newest : ℕ) (p : Pending) → IsAhead true newest (abandon newest p)
abandon-IsAhead newest p = abandon_cases (IsAhead true newest) newest p (λ _ e. cc) (λ h _. h)

-- The counter goes up by one: it cannot wrap, as it stays within the number of slices.
pub stored-have :
    (p : Pending) (v : VideoHeader) (payload : List ℕ)
    → IsSound p
    → v.slice_index < p.slice_count
    → get_or p.have_slice v.slice_index false ≡ false
    → ((stored p v payload).slices_have ≡ suc p.slices_have) × (suc p.slices_have ≤ p.slice_count)
unfolding stored
stored-have p v payload s i f =
    let c = count_true-set p.have_slice v.slice_index (omega (arith, s.have_size)) f in
    let l = count_true-le (set p.have_slice v.slice_index true) in
    let n = length-set p.have_slice v.slice_index true in
    (omega (arith, s.have_size, s.counted, s.width), omega (arith, s.have_size, s.counted, s.width))

pub stored-IsSound :
    (p : Pending) (v : VideoHeader) (payload : List ℕ) (u : Bool)
    → IsSound p
    → v.slice_index < p.slice_count
    → get_or p.have_slice v.slice_index false ≡ false
    → (u ≡ true → (stored p v payload).slices_have ≢ p.slice_count)
    → IsSound (record (stored p v payload) { in_use = u })
unfolding stored
stored-IsSound p v payload u s i f open_ = record {
  have_size = length-set p.have_slice v.slice_index true ∙ s.have_size;
  len_size = length-set p.slice_len v.slice_index v.payload_len ∙ s.len_size;
  room =
      length-write_at p.bytes (v.slice_index * max_slice_payload) (take v.payload_len payload)
      ∙ s.room;
  counted =
      (stored-have p v payload s i f).0
      ∙ (ap suc s.counted
          ∙ sym (count_true-set p.have_slice v.slice_index (omega (arith, s.have_size)) f));
  width = s.width;
  partial = λ e. let h = stored-have p v payload s i f in let g = open_ e in omega arith;
}

allocated-IsAhead :
    (a : Assembler) (v : VideoHeader)
    → is_stale a v.frame_id ≡ false
    → IsAhead a.any_delivered a.newest_delivered (allocated v)
unfolding allocated
allocated-IsAhead a v e any u = ground arith

pub Claimed-Inv :
    (a : Assembler) (v : VideoHeader) (payload : List ℕ) (k : ℕ) (b : Assembler)
    → IsSlice v payload
    → is_stale a v.frame_id ≡ false
    → Claimed (count_slice a) v k b
    → Inv a
    → Inv b
Claimed-Inv a v payload k b s fresh_id (h, inl (e, _, _)) i =
    subst Inv (sym e) (record { four = i.four; sound = i.sound; ahead = i.ahead })
Claimed-Inv a v payload k b s fresh_id (h, inr (e, n, d)) i = record {
  four = rw e (length-set a.pending k (allocated v) ∙ i.four);
  sound = rw e (All-set IsSound a.pending k (allocated v) i.sound (allocated-IsSound v payload s));
  ahead =
      rw (e, n, d)
        (All-set (IsAhead a.any_delivered a.newest_delivered) a.pending k (allocated v) i.ahead
          (allocated-IsAhead a v fresh_id));
}

pub entry-IsSound : (a : Assembler) (k : ℕ) → Inv a → IsSound (claimed_entry a k)
entry-IsSound a k i = All-get_or IsSound a.pending k blank i.sound blank-IsSound

All-abandon-IsAhead :
    (newest : ℕ) (ps : List Pending) → All (IsAhead true newest) (map (abandon newest) ps)
All-abandon-IsAhead newest [] = tt
All-abandon-IsAhead newest (p ∷ ps) = (abandon-IsAhead newest p, All-abandon-IsAhead newest ps)

pub set-set {ℓ} : {A : Type ℓ} (xs : List A) (k : ℕ) (v w : A) → set (set xs k v) k w ≡ set xs k w
set-set [] k v w = refl
set-set (x ∷ xs) zero v w = refl
set-set (x ∷ xs) (suc k) v w = ap (◌∷◌ x) (set-set xs k v w)

deliver-Inv :
    (a : Assembler) (k : ℕ) (p : Pending)
    → IsSound (record p { in_use = false })
    → Inv a
    → Inv (deliver (after_store a k p) k p).0
unfolding deliver
deliver-Inv a k p s i =
    let last : Pending = record p { in_use = false } in
    rw (set-set a.pending k p last) (record {
      four =
          length-map (set a.pending k last) (abandon p.frame_id)
          ∙ (length-set a.pending k last ∙ i.four);
      sound =
          All-map IsSound (abandon p.frame_id) (set a.pending k last) (abandon-IsSound p.frame_id)
            (All-set IsSound a.pending k last i.sound s);
      ahead = All-abandon-IsAhead p.frame_id (set a.pending k last);
    })

stored-IsAhead :
    (any : Bool) (newest : ℕ) (p : Pending) (v : VideoHeader) (payload : List ℕ)
    → IsAhead any newest p
    → IsAhead any newest (stored p v payload)
unfolding stored
stored-IsAhead any newest p v payload h = h

store-Inv :
    (a : Assembler) (k : ℕ) (v : VideoHeader) (payload : List ℕ)
    → Inv a
    → Inv (store a k v payload).0
unfolding stored
store-Inv a k v payload i =
    store_cases (λ r. Inv r.0) a k v payload (λ _. i)
      λ h f. (
        (λ gaps. record {
          four = length-set a.pending k (stored p v payload) ∙ i.four;
          sound =
              All-set IsSound a.pending k (stored p v payload) i.sound
                (stored-IsSound p v payload p.in_use (entry-IsSound a k i) h f (λ _. gaps));
          ahead =
              All-set (IsAhead a.any_delivered a.newest_delivered) a.pending k (stored p v payload)
                i.ahead
                (stored-IsAhead a.any_delivered a.newest_delivered p v payload (
                  All-get_or (IsAhead a.any_delivered a.newest_delivered) a.pending k blank i.ahead
                    (λ _ e. cc)));
        }),
        (λ full.
            deliver-Inv a k (stored p v payload)
              (stored-IsSound p v payload false (entry-IsSound a k i) h f (λ e. cc)) i),
      )
  where
    p : Pending
    p = claimed_entry a k

-- feed keeps the invariant, on every slice that wsu_parse_video lets through.
pub feed-Inv :
    (a : Assembler) (v : VideoHeader) (payload : List ℕ)
    → IsSlice v payload
    → Inv a
    → Inv (feed a v payload).0
feed-Inv a v payload s i =
    feed_cases (λ r. Inv r.0) a v payload
      (record { four = i.four; sound = i.sound; ahead = i.ahead })
      (λ k b e c. store-Inv b k v payload (Claimed-Inv a v payload k b s e c i))
