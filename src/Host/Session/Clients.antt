-- ===== src/Host/Session/Clients.antt =====
-- The search loops of SessionServer, and no two players at one address.
use wii_sec_u.Base.{
  ℕ, zero, suc, ◌<◌, ◌≡◌, ◌≢◌, refl, sym, ap, subst, ◌∙◌, inl, inr, Bool, true, false, not, ◌&&◌,
  List, [], ◌∷◌, Option, none, some, length, get_or, set, ◌==◌, not_==→ne, arith, tests, Bool-cases,
  Option-cases, length-set, get_or-set_self, get_or-set_ne,
}
use wii_sec_u.Endpoint.{Endpoint, same_ep, same_ep→eq, same_ep_refl}
use wii_sec_u.Host.Session.{Client, no_client, find_index, find_by_sender, slot_for}

-- The entry `k` passes, and none before it.
pub record IsFirst (p : Client → Bool) (cs : List Client) (k : ℕ) : Type 0 where
  pub inside : k < length cs
  pub passes : p (get_or cs k no_client) ≡ true
  pub earliest : (j : ℕ) → j < k → p (get_or cs j no_client) ≡ false

abbrev Found : (Client → Bool) → List Client → Option ℕ → Type 0
Found p cs none = (j : ℕ) → j < length cs → p (get_or cs j no_client) ≡ false
Found p cs (some k) = IsFirst p cs k

pub find_index-Found : (p : Client → Bool) (cs : List Client) → Found p cs (find_index p cs)
find_index-Found p [] = λ j b. absurd (omega arith)
find_index-Found p (c ∷ cs) =
    let rest = find_index-Found p cs in
    elim (Bool-cases (p c)) [
      | inl e ↦
          rw e record { inside = omega arith; passes = e; earliest = λ j b. absurd (omega arith) }
      | inr e ↦ elim (Option-cases (find_index p cs)) [
        | inl q ↦ rw (e, q) (not_first c cs e (rw q at rest))
        | inr (k, q) ↦ rw (e, q) (later c cs k e (rw q at rest))
      ]
    ]
  where
    not_first :
        (c : Client) (cs : List Client)
        → p c ≡ false
        → ((j : ℕ) → j < length cs → p (get_or cs j no_client) ≡ false)
        → (j : ℕ) → j < suc (length cs)
        → p (get_or (c ∷ cs) j no_client) ≡ false
    not_first c cs e h zero b = e
    not_first c cs e h (suc j) b = h j (omega arith)

    before :
        (c : Client) (cs : List Client) (k : ℕ)
        → p c ≡ false
        → ((j : ℕ) → j < k → p (get_or cs j no_client) ≡ false)
        → (j : ℕ) → j < suc k
        → p (get_or (c ∷ cs) j no_client) ≡ false
    before c cs k e h zero b = e
    before c cs k e h (suc j) b = h j (omega arith)

    later :
        (c : Client) (cs : List Client) (k : ℕ)
        → p c ≡ false
        → IsFirst p cs k
        → IsFirst p (c ∷ cs) (suc k)
    later c cs k e f = record {
      inside = omega (arith, f.inside);
      passes = f.passes;
      earliest = before c cs k e f.earliest;
    }

abbrev pub Distinct : List Client → Type 0
Distinct cs =
    (i j : ℕ)
    → (get_or cs i no_client).used ≡ true
    → (get_or cs j no_client).used ≡ true
    → (get_or cs i no_client).ep ≡ (get_or cs j no_client).ep
    → i ≡ j

pub used-inside : (cs : List Client) (j : ℕ) → (get_or cs j no_client).used ≡ true → j < length cs
used-inside [] j u = cc
used-inside (c ∷ cs) zero u = omega arith
used-inside (c ∷ cs) (suc j) u = omega (arith, used-inside cs j u)

-- A used entry with the address has the address's index.
pub find_by_sender-used :
    (cs : List Client) (from : Endpoint) (j : ℕ)
    → Distinct cs
    → (get_or cs j no_client).used ≡ true
    → (get_or cs j no_client).ep ≡ from
    → find_by_sender cs from ≡ some j
unfolding find_by_sender
find_by_sender-used cs from j d u e =
    let p : Client → Bool = λ c. c.used && same_ep c.ep from in
    let here : p (get_or cs j no_client) ≡ true = rw (u, e) (same_ep_refl from) in
    let found = find_index-Found p cs in
    elim (Option-cases (find_index p cs)) [
      | inl q ↦ let h = rw q at found in let f = h j (used-inside cs j u) in cc
      | inr (k, q) ↦
          let first = rw q at found in
          let (uk, ek) = sender-passes (get_or cs k no_client) from first.passes in
          q ∙ ap some (d k j uk u (ek ∙ sym e))
    ]
  where
    sender-passes :
        (c : Client) (from : Endpoint)
        → (c.used && same_ep c.ep from) ≡ true
        → (c.used ≡ true) × (c.ep ≡ from)
    sender-passes c from h = elim (Bool-cases c.used) [
      | inl u ↦ (u, same_ep→eq c.ep from (rw u at h))
      | inr u ↦ let f = rw u at h in cc
    ]

-- What the search by address returns is a used entry with that address.
pub find_by_sender-some :
    (cs : List Client) (from : Endpoint) (k : ℕ)
    → find_by_sender cs from ≡ some k
    → (k < length cs) × ((get_or cs k no_client).used ≡ true) × ((get_or cs k no_client).ep ≡ from)
unfolding find_by_sender
find_by_sender-some cs from k q =
    let first = rw q at (find_index-Found (λ c. c.used && same_ep c.ep from) cs) in
    let p = first.passes in
    elim (Bool-cases (get_or cs k no_client).used) [
      | inl u ↦ (first.inside, u, same_ep→eq (get_or cs k no_client).ep from (rw u at p))
      | inr u ↦ let f = rw u at p in cc
    ]

-- An address that is not found belongs to no used entry.
pub find_by_sender-none :
    (cs : List Client) (from : Endpoint) (j : ℕ)
    → find_by_sender cs from ≡ none
    → (get_or cs j no_client).used ≡ true
    → (get_or cs j no_client).ep ≢ from
unfolding find_by_sender
find_by_sender-none cs from j q u e =
    let f = rw q at (find_index-Found (λ c. c.used && same_ep c.ep from) cs) in
    let no = f j (used-inside cs j u) in
    let yes : same_ep (get_or cs j no_client).ep from ≡ true = rw e (same_ep_refl from) in cc

-- Replacing an entry keeps the addresses apart if the new one's is nobody else's.
pub Distinct-set :
    (cs : List Client) (k : ℕ) (c : Client)
    → Distinct cs
    → (c.used ≡ true
        → (j : ℕ) → j ≢ k
        → (get_or cs j no_client).used ≡ true
        → (get_or cs j no_client).ep ≢ c.ep)
    → Distinct (set cs k c)
Distinct-set cs k c d apart i j ui uj e =
    let in_i = used-inside (set cs k c) i ui in
    let in_j = used-inside (set cs k c) j uj in
    let same = length-set cs k c in
    elim (Bool-cases (k == i)) [
      | inl qi ↦ elim (Bool-cases (k == j)) [
        | inl qj ↦ omega tests
        | inr qj ↦
            let gi = set_at i (omega tests) in_i in
            let gj = get_or-set_ne cs k j c no_client (not_==→ne k j qj) in
            absurd (
              apart (rw gi at ui) j (λ q. not_==→ne k j qj (sym q)) (rw gj at uj)
                (sym (rw (gi, gj) at e)))
      ]
      | inr qi ↦
          let gi = get_or-set_ne cs k i c no_client (not_==→ne k i qi) in
          elim (Bool-cases (k == j)) [
            | inl qj ↦
                let gj = set_at j (omega tests) in_j in
                absurd (
                  apart (rw gj at uj) i (λ q. not_==→ne k i qi (sym q)) (rw gi at ui)
                    (rw (gi, gj) at e))
            | inr qj ↦
                let gj = get_or-set_ne cs k j c no_client (not_==→ne k j qj) in
                d i j (rw gi at ui) (rw gj at uj) (rw (gi, gj) at e)
          ]
    ]
  where
    set_at : (i : ℕ) → k ≡ i → i < length (set cs k c) → get_or (set cs k c) i no_client ≡ c
    set_at i q b =
        subst (λ n. get_or (set cs k c) n no_client ≡ c) q
          (get_or-set_self cs k c no_client (omega (arith, length-set cs k c)))

-- The entry that a HELLO takes: the sender's own, and if it has none, the first free one.
pub slot_for-free :
    (cs : List Client) (from : Endpoint)
    → find_by_sender cs from ≡ none
    → slot_for cs from ≡ find_index (λ c. not c.used) cs
unfolding slot_for
slot_for-free cs from q = rw (q, slot_for) refl

pub slot_for-known :
    (cs : List Client) (from : Endpoint) (k : ℕ)
    → find_by_sender cs from ≡ some k
    → slot_for cs from ≡ some k
unfolding slot_for
slot_for-known cs from k q = rw (q, slot_for) refl
