-- ===== src/Assembler.antt =====
-- pc/src/core/frame_assembler.{h,cpp}: FrameAssembler puts sliced VIDEO packets together again.
-- The vectors of `Pending` are lists, the array of four is a list, and a `Pending *` is an index into
-- it. `feed` returns the frame that it hands to the callback, if it does.
pub mod Cases
pub mod Inv
pub mod Datagrams
pub mod Integrity
pub mod Stream
pub mod Complete
use wii_sec_u.Base.{
  ℕ, zero, suc, ◌+◌, ◌*◌, ◌%◌, ◌^◌, Bool, true, false, not, ◌&&◌, ◌||◌, List, [], ◌∷◌, ◌++◌, Option,
  none, some, length, take, drop, get_or, set, replicate, ltb, leb, ◌==◌, if◌then◌else◌, map,
}
use wii_sec_u.Base.All.{write_at}
use wii_sec_u.Base.Word.{sub32, next16}
use wii_sec_u.Protocol.Types.{VideoHeader, max_slice_payload}

-- AssembledFrame
pub record Frame : Type 0 where
  pub frame_id : ℕ
  pub timestamp_ms : ℕ
  pub flags : ℕ
  pub bytes : List ℕ

pub record Stats : Type 0 where
  pub slices_in : ℕ
  pub frames_completed : ℕ
  pub frames_dropped : ℕ
  pub bytes_completed : ℕ

pub record Pending : Type 0 where
  pub in_use : Bool
  pub frame_id : ℕ
  pub timestamp_ms : ℕ
  pub flags : ℕ
  pub slice_count : ℕ
  pub slices_have : ℕ
  pub have_slice : List Bool
  pub bytes : List ℕ
  pub slice_len : List ℕ

pub record Assembler : Type 0 where
  pub pending : List Pending
  pub newest_delivered : ℕ
  pub any_delivered : Bool
  pub stats : Stats

abbrev pub max_pending : ℕ
max_pending = 4

abbrev pub blank : Pending
blank = record {
  in_use = false;
  frame_id = 0;
  timestamp_ms = 0;
  flags = 0;
  slice_count = 0;
  slices_have = 0;
  have_slice = [];
  bytes = [];
  slice_len = [];
}

abbrev pub fresh : Assembler
fresh = record {
  pending = replicate max_pending blank;
  newest_delivered = 0;
  any_delivered = false;
  stats = record { slices_in = 0; frames_completed = 0; frames_dropped = 0; bytes_completed = 0 };
}

-- The counters of the statistics are 64 bits wide.
abbrev pub add64 : ℕ → ℕ → ℕ
add64 a b = (a + b) % 2 ^ 64

-- `static_cast<int32_t>(a - b) > 0`
unfoldable pub id_newer : ℕ → ℕ → Bool
id_newer a b = ltb 0 (sub32 a b) && ltb (sub32 a b) (2 ^ 31)

-- How the loop of findOrAllocate ends: with the frame's own entry, or with the first free entry and
-- the oldest one in use, its frame id beside it.
pub data Scan : Type 0 where
  found : ℕ → Scan
  window : Option ℕ → Option (ℕ × ℕ) → Scan

first_free : Pending → ℕ → Option ℕ → Option ℕ
first_free p i none = if p.in_use then none else some i
first_free p i (some k) = some k

older : Pending → ℕ → Option (ℕ × ℕ) → Option (ℕ × ℕ)
older p i none = if p.in_use then some (i, p.frame_id) else none
older p i (some (k, oldest)) =
    if p.in_use && id_newer oldest p.frame_id then some (i, p.frame_id) else some (k, oldest)

unfoldable pub scan : ℕ → List Pending → ℕ → Option ℕ → Option (ℕ × ℕ) → Scan
unfolding first_free older
scan id [] i free oldest = window free oldest
scan id (p ∷ ps) i free oldest =
    let rest = scan id ps (suc i) (first_free p i free) (older p i oldest) in
    if p.in_use && (p.frame_id == id) then found i else rest

-- The entry that findOrAllocate writes for a new frame.
pub allocated : VideoHeader → Pending
allocated v = record {
  in_use = true;
  frame_id = v.frame_id;
  timestamp_ms = v.timestamp_ms;
  flags = v.flags;
  slice_count = v.slice_count;
  slices_have = 0;
  have_slice = replicate v.slice_count false;
  bytes = replicate (v.slice_count * max_slice_payload) 0;
  slice_len = replicate v.slice_count 0;
}

unfoldable pub allocate : Assembler → ℕ → VideoHeader → ℕ × Assembler
unfolding allocated
allocate a k v = (k, record a { pending = set a.pending k (allocated v) })

abbrev pub count_dropped : Assembler → ℕ → Assembler
count_dropped a n = record a {
  stats = record stats { frames_dropped = add64 stats.frames_dropped n };
}
  where
    open a use {stats}

-- `none` is the null pointer: nothing is free, and the frame is not newer than the oldest pending.
unfoldable pub claim : Assembler → VideoHeader → Scan → Option (ℕ × Assembler)
unfolding allocate
claim a v (found k) = some (k, a)
claim a v (window (some k) oldest) = some (allocate a k v)
claim a v (window none none) = none
claim a v (window none (some (k, oldest))) =
    if id_newer v.frame_id oldest then some (allocate (count_dropped a 1) k v) else none

unfoldable pub find_or_allocate : Assembler → VideoHeader → Option (ℕ × Assembler)
unfolding claim scan
find_or_allocate a v = claim a v (scan v.frame_id a.pending 0 none none)

-- The second loop of deliver over `i..i + n`: the slices' bytes in order.
unfoldable pub collect : ℕ → ℕ → Pending → List ℕ
collect zero i p = []
collect (suc n) i p =
    take (get_or p.slice_len i 0) (drop (i * max_slice_payload) p.bytes) ++ collect n (suc i) p

-- The last loop of deliver, by its two effects: the entries it releases and how many they are.
is_abandoned : ℕ → Pending → Bool
is_abandoned newest q = q.in_use && not (id_newer q.frame_id newest)

unfoldable pub abandon : ℕ → Pending → Pending
unfolding is_abandoned
abandon newest q = if is_abandoned newest q then record q { in_use = false } else q

unfoldable pub abandoned : ℕ → List Pending → ℕ
unfolding is_abandoned
abandoned newest [] = 0
abandoned newest (q ∷ qs) = (if is_abandoned newest q then 1 else 0) + abandoned newest qs

unfoldable pub deliver : Assembler → ℕ → Pending → Assembler × Frame
unfolding abandon abandoned
deliver a k p = (
  record a {
    pending = map (abandon p.frame_id) rest;
    newest_delivered = p.frame_id;
    any_delivered = true;
    stats = record stats {
      frames_dropped = add64 stats.frames_dropped (abandoned p.frame_id rest);
      frames_completed = add64 stats.frames_completed 1;
      bytes_completed = add64 stats.bytes_completed (length frame.bytes);
    };
  },
  frame,
)
  where
    open a use {stats}

    frame : Frame
    frame = record {
      frame_id = p.frame_id;
      timestamp_ms = p.timestamp_ms;
      flags = p.flags;
      bytes = collect p.slice_count 0 p;
    }

    rest : List Pending
    rest = set a.pending k (record p { in_use = false })

-- The entry after the slice is copied in.
unfoldable pub stored : Pending → VideoHeader → List ℕ → Pending
stored p v payload = record p {
  bytes = write_at p.bytes (v.slice_index * max_slice_payload) (take v.payload_len payload);
  slice_len = set p.slice_len v.slice_index v.payload_len;
  have_slice = set p.have_slice v.slice_index true;
  slices_have = next16 p.slices_have;
}

-- feed from the index check on.
unfoldable pub store : Assembler → ℕ → VideoHeader → List ℕ → Assembler × Option Frame
store a k v payload =
    if leb p.slice_count v.slice_index || get_or p.have_slice v.slice_index false
    then (a, none)
    else if p'.slices_have == p'.slice_count
    then (let (b, frame) = deliver a' k p' in (b, some frame))
    else (a', none)
  where
    p : Pending
    p = get_or a.pending k blank

    p' : Pending
    p' = stored p v payload

    a' : Assembler
    a' = record a { pending = set a.pending k p' }

abbrev pub count_slice : Assembler → Assembler
count_slice a = record a { stats = record stats { slices_in = add64 stats.slices_in 1 } }
  where
    open a use {stats}

abbrev pub is_stale : Assembler → ℕ → Bool
is_stale a id = a.any_delivered && not (id_newer id a.newest_delivered)

unfoldable pub feed : Assembler → VideoHeader → List ℕ → Assembler × Option Frame
unfolding find_or_allocate store
feed a v payload =
    if is_stale a v.frame_id
    then (count_slice a, none)
    else elim (find_or_allocate (count_slice a) v) [
      | none ↦ (count_slice a, none)
      | some (k, b) ↦ store b k v payload
    ]
