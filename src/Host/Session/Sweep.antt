-- ===== src/Host/Session/Sweep.antt =====
-- The sweep of SessionServer::loop: a client that has been silent for too long is dropped.
use wii_sec_u.Base.{
  ℕ, zero, suc, ◌+◌, ◌≤◌, ◌<◌, ◌≡◌, ◌≢◌, refl, sym, ap, subst, ◌∙◌, inl, inr, Bool, true, false,
  not, ◌&&◌, ltb, leb, ◌==◌, if◌then◌else◌, arith, tests, Bool-cases, if-both, length-set,
  get_or-set_self, get_or-set_ne,
}
use wii_sec_u.Base.Word.{sub32}
use wii_sec_u.Protocol.Types.{peer_timeout_ms}
use wii_sec_u.Host.InputHub.{is_active}
use wii_sec_u.Host.InputHub.Slots.{hub_clear-IsHub, hub_clear_self, hub_clear-other}
use wii_sec_u.Host.Session.{Client, Server, client, no_client, drop_client, sweep_from, tick}
use wii_sec_u.Host.Session.Clients.{Distinct-set, used-inside}
use wii_sec_u.Host.Session.Inv.{IsServer}

abbrev pub is_late : ℕ → Client → Bool
is_late now c = c.used && ltb peer_timeout_ms (sub32 now c.last_seen_ms)

drop_client-IsServer : (i : ℕ) (s : Server) → IsServer s → IsServer (drop_client i s)
unfolding drop_client
drop_client-IsServer i s k = if-both IsServer (not (client s i).used) k record {
  three = length-set s.clients i _ ∙ k.three;
  distinct = Distinct-set s.clients i _ k.distinct (λ u. cc);
  hub_ok = hub_clear-IsHub (i + 1) s.hub k.hub_ok;
}

sweep_from-IsServer : (n i now : ℕ) (s : Server) → IsServer s → IsServer (sweep_from n i now s)
unfolding sweep_from
sweep_from-IsServer zero i now s k = k
sweep_from-IsServer (suc n) i now s k =
    sweep_from-IsServer n (suc i) now _
      (if-both IsServer (is_late now (client s i)) (drop_client-IsServer i s k) k)

-- The pass keeps the invariant.
pub tick-IsServer : (now : ℕ) (s : Server) → IsServer s → IsServer (tick now s)
unfolding tick
tick-IsServer now s k =
    let swept = sweep_from-IsServer 3 0 now s k in
    if-both IsServer (leb 1000 (sub32 now s.last_sweep))
      record { three = swept.three; distinct = swept.distinct; hub_ok = swept.hub_ok } k

-- What the sweep leaves of client `j`: it is dropped, with its slot inactive, if it was late, and
-- stays as it was if not.
pub record Swept (now : ℕ) (s t : Server) (j : ℕ) : Type 0 where
  pub late_out :
      is_late now (client s j) ≡ true
      → ((client t j).used ≡ false) × ((later : ℕ) → is_active (j + 1) later t.hub ≡ false)
  pub rest_stays :
      is_late now (client s j) ≡ false
      → (client t j ≡ client s j)
        × ((later : ℕ) → is_active (j + 1) later t.hub ≡ is_active (j + 1) later s.hub)

abbrev Same : Server → Server → ℕ → Type 0
Same s t j =
    (client t j ≡ client s j)
    × ((later : ℕ) → is_active (j + 1) later t.hub ≡ is_active (j + 1) later s.hub)

Same-trans : (s t u : Server) (j : ℕ) → Same s t j → Same t u j → Same s u j
Same-trans s t u j (a, b) (c, d) = (c ∙ a, λ later. d later ∙ b later)

drop_client-Same : (i : ℕ) (s : Server) (j : ℕ) → i ≢ j → Same s (drop_client i s) j
unfolding drop_client
drop_client-Same i s j ne =
    if-both (λ t. Same s t j) (not (client s i).used) (refl, λ later. refl)
      (
        get_or-set_ne s.clients i j _ no_client ne,
        (hub_clear-other (i + 1) s.hub (j + 1) (λ e. ne (omega arith))).1,
      )

drop_client-gone :
    (s : Server) (j : ℕ)
    → IsServer s
    → (client s j).used ≡ true
    → ((client (drop_client j s) j).used ≡ false)
      × ((later : ℕ) → is_active (j + 1) later (drop_client j s).hub ≡ false)
unfolding drop_client
drop_client-gone s j k u =
    let guard : not (client s j).used ≡ false = rw u refl in
    rw
      (
        guard,
        get_or-set_self s.clients j (record (client s j) { used = false }) no_client
            (used-inside s.clients j u),
      )
      (refl, λ later. hub_clear_self (j + 1) s.hub later k.hub_ok)

sweep_from-before : (n i now : ℕ) (s : Server) (j : ℕ) → j < i → Same s (sweep_from n i now s) j
unfolding sweep_from
sweep_from-before zero i now s j b = (refl, λ later. refl)
sweep_from-before (suc n) i now s j b =
    let next : Server = if is_late now (client s i) then drop_client i s else s in
    Same-trans s next (sweep_from n (suc i) now next) j
      (if-both (λ t. Same s t j) (is_late now (client s i))
        (drop_client-Same i s j (λ e. absurd (omega arith))) (refl, λ later. refl))
      (sweep_from-before n (suc i) now next j (omega arith))

late-used : (now : ℕ) (c : Client) → is_late now c ≡ true → c.used ≡ true
late-used now c e = elim (Bool-cases c.used) [ inl u ↦ u | inr u ↦ let f = rw u at e in cc ]

Swept-after : (now : ℕ) (s t u : Server) (j : ℕ) → Swept now s t j → Same t u j → Swept now s u j
Swept-after now s t u j w (c, a) = record {
  late_out = λ e.
      let (gone, quiet) = w.late_out e in
      (ap (λ x. x.used) c ∙ gone, λ later. a later ∙ quiet later);
  rest_stays = λ e. let (c', a') = w.rest_stays e in (c ∙ c', λ later. a later ∙ a' later);
}

Swept-before : (now : ℕ) (s t u : Server) (j : ℕ) → Same s t j → Swept now t u j → Swept now s u j
Swept-before now s t u j (c, a) w = record {
  late_out = λ e. w.late_out (ap (is_late now) c ∙ e);
  rest_stays = λ e.
      let (c', a') = w.rest_stays (ap (is_late now) c ∙ e) in (c' ∙ c, λ later. a' later ∙ a later);
}

Swept-one :
    (now : ℕ) (s : Server) (j : ℕ)
    → IsServer s
    → Swept now s (if is_late now (client s j) then drop_client j s else s) j
Swept-one now s j k = elim (Bool-cases (is_late now (client s j))) [
  | inl e ↦
      subst (λ b. Swept now s (if b then drop_client j s else s) j) (sym e)
        record {
          late_out = λ _. drop_client-gone s j k (late-used now (client s j) e);
          rest_stays = λ f. cc;
        }
  | inr e ↦
      subst (λ b. Swept now s (if b then drop_client j s else s) j) (sym e)
        record { late_out = λ f. cc; rest_stays = λ _. (refl, λ later. refl) }
]

sweep_from-Swept :
    (n i now : ℕ) (s : Server) (j : ℕ)
    → IsServer s
    → i ≤ j
    → j < i + n
    → Swept now s (sweep_from n i now s) j
unfolding sweep_from
sweep_from-Swept zero i now s j k a b = absurd (omega arith)
sweep_from-Swept (suc n) i now s j k a b =
    let next : Server = if is_late now (client s i) then drop_client i s else s in
    elim (Bool-cases (i == j)) [
      | inl e ↦
          let i_j : i ≡ j = omega tests in
          Swept-after now s next (sweep_from n (suc i) now next) j
            (subst (λ m. Swept now s (if is_late now (client s m) then drop_client m s else s) j)
              (sym i_j) (Swept-one now s j k))
            (sweep_from-before n (suc i) now next j (omega arith))
      | inr e ↦
          Swept-before now s next (sweep_from n (suc i) now next) j
            (if-both (λ t. Same s t j) (is_late now (client s i))
              (drop_client-Same i s j (omega tests)) (refl, λ later. refl))
            (sweep_from-Swept n (suc i) now next j
              (if-both IsServer (is_late now (client s i)) (drop_client-IsServer i s k) k)
              (omega tests) (omega arith))
    ]

-- When a sweep is due, each client that was not heard of for more than 5000 ms is dropped and its slot
-- inactive, and each other client and its slot stay as they were.
pub tick-Swept :
    (now : ℕ) (s : Server) (j : ℕ)
    → IsServer s
    → 1000 ≤ sub32 now s.last_sweep
    → j < 3
    → Swept now s (tick now s) j
unfolding tick
tick-Swept now s j k due b =
    let e : leb 1000 (sub32 now s.last_sweep) ≡ true = ground arith in
    let w = sweep_from-Swept 3 0 now s j k (omega arith) b in
    rw e record { late_out = w.late_out; rest_stays = w.rest_stays }
