-- ===== src/Console/Thread.antt =====
-- PluginThread and openUdpSocket. `heap` is the stacks that are allocated and not yet freed.
use wii_sec_u.Base.{
  ℕ, ◌≡◌, refl, ap, ◌∙◌, Bool, true, false, not, List, [], ◌∷◌, Option, none, some, ◌==◌, ==_refl,
  if◌then◌else◌,
}

pub record PluginThread : Type 0 where
  pub stack : Option ℕ
  pub running : Bool
  pub heap : List ℕ

abbrev pub freed : ℕ → List ℕ → List ℕ
freed p [] = []
freed p (q ∷ qs) = let rest = freed p qs in if q == p then rest else q ∷ rest

-- `delete[] stack_; stack_ = nullptr`
abbrev pub free_stack : Option ℕ → PluginThread → PluginThread
free_stack none t = t
free_stack (some p) t = record t { stack = none; heap = freed p t.heap }

-- With what new gives, `none` for a null pointer, and whether OSCreateThread succeeds.
abbrev pub start_on : Option ℕ → Bool → PluginThread → PluginThread × Bool
start_on none created t = (record t { stack = none }, false)
start_on (some p) created t =
    let with_stack : PluginThread = record t { stack = some p; heap = p ∷ t.heap } in
    if created
    then (record with_stack { running = true }, true)
    else (free_stack (some p) with_stack, false)

unfoldable pub thread_start : Option ℕ → Bool → PluginThread → PluginThread × Bool
thread_start given created t = if t.running then (t, true) else start_on given created t

unfoldable pub thread_join : PluginThread → PluginThread
thread_join t =
    if not t.running then t else record (free_stack t.stack t) { stack = none; running = false }

-- openUdpSocket: what socket() gives, whether bind() succeeds, and the descriptors before and after; `none`
-- is -1.
unfoldable pub open_udp_socket : Option ℕ → Bool → List ℕ → Option ℕ × List ℕ
open_udp_socket none binds fds = (none, fds)
open_udp_socket (some f) binds fds = if binds then (some f, f ∷ fds) else (none, freed f (f ∷ fds))

-- A call of start, with what the system gives, or of join.
pub data ThreadOp : Type 0 where
  starts : Option ℕ → Bool → ThreadOp
  joins : ThreadOp

abbrev pub run_thread : List ThreadOp → PluginThread → PluginThread
run_thread [] t = t
run_thread (starts given created ∷ ops) t = run_thread ops (thread_start given created t).0
run_thread (joins ∷ ops) t = run_thread ops (thread_join t)

-- A thread that runs has a stack, which is all that is allocated; without one nothing is.
abbrev pub OwnsStack : Bool → Option ℕ → List ℕ → Type 0
OwnsStack true (some p) heap = heap ≡ p ∷ []
OwnsStack true none heap = ⊥
OwnsStack false (some p) heap = ⊥
OwnsStack false none heap = heap ≡ []

abbrev pub IsThread : PluginThread → Type 0
IsThread t = OwnsStack t.running t.stack t.heap

pub freed_alone : (p : ℕ) (heap : List ℕ) → heap ≡ p ∷ [] → freed p heap ≡ []
freed_alone p heap k = ap (freed p) k ∙ ap (λ b. if b then [] else p ∷ []) (==_refl p)

abbrev thread_of : Bool → Option ℕ → List ℕ → PluginThread
thread_of r st heap = record { stack = st; running = r; heap = heap }

thread_start-OwnsStack :
    (given : Option ℕ) (created r : Bool) (st : Option ℕ) (heap : List ℕ)
    → OwnsStack r st heap
    → IsThread (thread_start given created (thread_of r st heap)).0
unfolding thread_start
thread_start-OwnsStack given created true st heap k = k
thread_start-OwnsStack given created false (some q) heap k = absurd k
thread_start-OwnsStack none created false none heap k = k
thread_start-OwnsStack (some p) true false none heap k = ap (◌∷◌ p) k
thread_start-OwnsStack (some p) false false none heap k = freed_alone p (p ∷ heap) (ap (◌∷◌ p) k)

thread_join-OwnsStack :
    (r : Bool) (st : Option ℕ) (heap : List ℕ)
    → OwnsStack r st heap
    → IsThread (thread_join (thread_of r st heap))
unfolding thread_join
thread_join-OwnsStack false st heap k = k
thread_join-OwnsStack true none heap k = absurd k
thread_join-OwnsStack true (some p) heap k = freed_alone p heap k

pub thread_start-IsThread :
    (given : Option ℕ) (created : Bool) (t : PluginThread)
    → IsThread t
    → IsThread (thread_start given created t).0
thread_start-IsThread given created t k =
    thread_start-OwnsStack given created t.running t.stack t.heap k

pub thread_join-IsThread : (t : PluginThread) → IsThread t → IsThread (thread_join t)
thread_join-IsThread t k = thread_join-OwnsStack t.running t.stack t.heap k

started_as :
    (given : Option ℕ) (created r : Bool) (st : Option ℕ) (heap : List ℕ)
    → (thread_start given created (thread_of r st heap)).0.running
      ≡ (thread_start given created (thread_of r st heap)).1
unfolding thread_start
started_as given created true st heap = refl
started_as none created false st heap = refl
started_as (some p) true false st heap = refl
started_as (some p) false false st heap = refl

-- start says whether the thread runs.
pub thread_start-running :
    (given : Option ℕ) (created : Bool) (t : PluginThread)
    → (thread_start given created t).0.running ≡ (thread_start given created t).1
thread_start-running given created t = started_as given created t.running t.stack t.heap

-- A thread that runs already goes on, and start says so.
pub thread_start-again :
    (given : Option ℕ) (created : Bool) (t : PluginThread)
    → t.running ≡ true
    → (thread_start given created t).1 ≡ true
unfolding thread_start
thread_start-again given created t on = rw on refl

joined_off :
    (r : Bool) (st : Option ℕ) (heap : List ℕ) → (thread_join (thread_of r st heap)).running ≡ false
unfolding thread_join
joined_off true st heap = refl
joined_off false st heap = refl

pub thread_join-running : (t : PluginThread) → (thread_join t).running ≡ false
thread_join-running t = joined_off t.running t.stack t.heap

-- Whatever start and join are called in whatever order, and whatever the system gives: a thread that runs has
-- its stack, no other stack is allocated, and without a thread none is, so none is
-- lost.
pub run_thread-IsThread :
    (ops : List ThreadOp) (t : PluginThread) → IsThread t → IsThread (run_thread ops t)
run_thread-IsThread [] t k = k
run_thread-IsThread (starts given created ∷ ops) t k =
    run_thread-IsThread ops (thread_start given created t).0
      (thread_start-IsThread given created t k)
run_thread-IsThread (joins ∷ ops) t k =
    run_thread-IsThread ops (thread_join t) (thread_join-IsThread t k)
