-- ===== src/Host/Session/Admission.antt =====
-- handleHello of SessionServer: who gets which slot.
use wii_sec_u.Base.{
  ℕ, ◌+◌, ◌<◌, ◌%◌, ◌^◌, ◌≡◌, refl, ◌∙◌, ◌⊎◌, inl, inr, true, false, not, List, some, length,
  get_or, ◌==◌, arith, Option-cases, get_or-set_self, get_or-set_ne, ◌≢◌,
}
use wii_sec_u.Base.CString.{c_string}
use wii_sec_u.Protocol.Types.{Hello, HelloAck, no_slot}
use wii_sec_u.Protocol.HelloStatus
use wii_sec_u.Endpoint.{Endpoint}
use wii_sec_u.Host.Session.{
  Client, no_client, role_client, find_index, find_by_sender, slot_for, admit,
}
use wii_sec_u.Host.Session.Clients.{
  IsFirst, find_index-Found, find_by_sender-some, find_by_sender-none, slot_for-known,
  slot_for-free,
}

-- The client of an entry takes part and has this address and port.
abbrev pub IsAt : Endpoint → Client → Type 0
IsAt from c = (c.used ≡ true) × (c.ep ≡ from)

-- No client that takes part has the address and port.
abbrev pub IsNew : Endpoint → List Client → Type 0
IsNew from cs = (j : ℕ) → (get_or cs j no_client).used ≡ true → (get_or cs j no_client).ep ≢ from

-- The answer to a HELLO of a client at `from`, and the clients after it.
abbrev pub Admits : Endpoint → Hello → List Client → HelloAck × List Client → Type 0
Admits from hello cs (ack, after) =
    ((k : ℕ) × (k < 3)
      × (IsAt from (get_or cs k no_client) ⊎ (IsNew from cs × IsFirst (λ c. not c.used) cs k))
      × (ack ≡ record { status = HelloStatus.accepted; slot = k + 1 })
      × IsAt from (get_or after k no_client)
      × ((get_or after k no_client).name ≡ c_string hello.name)
      × ((j : ℕ) → k ≢ j → get_or after j no_client ≡ get_or cs j no_client))
    ⊎ (((j : ℕ) → j < 3 → (get_or cs j no_client).used ≡ true)
        × IsNew from cs
        × (ack ≡ record { status = HelloStatus.full; slot = no_slot })
        × (after ≡ cs))

-- A client's HELLO with three entries. It gets a used entry with the address and port that it comes from,
-- or, if no used entry has these, the first free entry. The answer says the slot after the entry; the entry
-- is then used by that address and port, with the name up to its NUL, and every other entry stays. If no
-- used entry has them and none is free, the answer is FULL and the clients stay as they are.
pub admit-lem :
    (now : ℕ) (from : Endpoint) (hello : Hello) (cs : List Client)
    → hello.role ≡ role_client
    → length cs ≡ 3
    → Admits from hello cs (admit now from hello cs)
unfolding admit
admit-lem now from hello cs role three =
    let client_role : not (hello.role == role_client) ≡ false = rw role refl in
    elim (Option-cases (find_by_sender cs from)) [
      | inr (k, known) ↦
          let (b, u, e) = find_by_sender-some cs from k known in
          let small : k < 3 = omega arith in
          let (ack, here, named, others) =
            taken client_role k (slot_for-known cs from k known) small in
          inl (k, small, inl (u, e), ack, here, named, others)
      | inl missing ↦
          let found = find_index-Found (λ c. not c.used) cs in
          let q = slot_for-free cs from missing in
          let new : IsNew from cs = λ j. find_by_sender-none cs from j missing in
          elim (Option-cases (find_index (λ c. not c.used) cs)) [
            | inr (k, e) ↦
                let first = rw e at found in
                let small : k < 3 = omega (arith, first.inside) in
                let (ack, here, named, others) = taken client_role k (q ∙ e) small in
                inl (k, small, inr (new, first), ack, here, named, others)
            | inl e ↦
                let none_free = rw e at found in
                inr (
                  (λ j b. used_of (get_or cs j no_client) (none_free j (omega arith))),
                  new,
                  rw (client_role, q ∙ e, admit) refl,
                  rw (client_role, q ∙ e, admit) refl,
                )
          ]
    ]
  where
    used_of : (c : Client) → not c.used ≡ false → c.used ≡ true
    used_of c h = ground arith

    taken :
        not (hello.role == role_client) ≡ false
        → (k : ℕ) → slot_for cs from ≡ some k
        → k < 3
        → ((admit now from hello cs).0 ≡ record { status = HelloStatus.accepted; slot = k + 1 })
          × IsAt from (get_or (admit now from hello cs).1 k no_client)
          × ((get_or (admit now from hello cs).1 k no_client).name ≡ c_string hello.name)
          × ((j : ℕ)
              → k ≢ j
              → get_or (admit now from hello cs).1 j no_client ≡ get_or cs j no_client)
    taken r k q b =
        let slot : (k + 1) % 2 ^ 8 ≡ k + 1 = omega arith in
        rw (r, q, admit, slot, get_or-set_self cs k _ no_client (omega (arith, three)))
          (refl, (refl, refl), refl, λ j ne. get_or-set_ne cs k j _ no_client ne)
