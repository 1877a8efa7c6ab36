-- ===== src/Gate/Shares.antt =====
-- How `rebalance` of backend/src/modules/gate/gate.service.ts distributes the tickets.
use native.Mathlib.Nat.{zero-div, zero-mod, suc-mod, mod-eq_of_lt, mod_self, div-add-mod, mod-lt}
use se_ticketbox.Prelude.{
  ℕ, suc, ◌+◌, ◌%◌, ◌/◌, ◌*◌, ◌<◌, ◌≤◌, ◌≡◌, refl, ap, ltb, Bool, true, false, not, ◌&&◌, ◌==◌,
  if◌then◌else◌, arith, Option, none, some, List, [], ◌∷◌, length, Bool-cases, Option-cases, inl,
  inr, All,
}
use se_ticketbox.Prelude.Table.{find}
use se_ticketbox.Prelude.Text.{Text, text_eq, text_eq-eq}
use se_ticketbox.Store.{Db, Gate, Ticket, Result, ok, err}
use se_ticketbox.Ticket.Token.{Crypto}
use se_ticketbox.Gate.Load.{at_gate, gates_of}
use se_ticketbox.Gate.Signed.{Signed}
use se_ticketbox.Gate.Manage.{move_ticket}
use se_ticketbox.Gate.Rebalance.{
  dealt, name_at, new_gate, deal, count_dealt, sort_by_name, Rebalanced, rebalance,
}

-- The share of the gate at place `k` of `n`, of the first `m` tickets.
abbrev pub share : ℕ → ℕ → ℕ → ℕ
share n k m = m / n + (if ltb k (m % n) then 1 else 0)

mul_cancel : (n a b : ℕ) → 0 < n → n * a ≡ n * b → a ≡ b
mul_cancel n a b h e = grind arith

next_mod : (n m : ℕ) → 0 < n → suc m % n ≡ (if suc (m % n) == n then 0 else suc (m % n))
next_mod n m h = elim (Bool-cases (suc (m % n) == n)) [
  | inl y ↦ ground (arith, suc-mod m n, y, mod_self n)
  | inr y ↦ ground (arith, suc-mod m n, y, mod-lt m h, mod-eq_of_lt {n = suc (m % n)} {m = n})
]

next_div : (n m : ℕ) → 0 < n → suc m / n ≡ (if suc (m % n) == n then suc (m / n) else m / n)
next_div n m h =
    let before = div-add-mod m n in
    let after = div-add-mod (suc m) n in
    let rest = next_mod n m h in
    elim (Bool-cases (suc (m % n) == n)) [
      | inl y ↦
          rw y (mul_cancel n (suc m / n) (suc (m / n)) h (ground (arith, y, before, after, rest)))
      | inr y ↦ rw y (mul_cancel n (suc m / n) (m / n) h (ground (arith, y, before, after, rest)))
    ]

share-suc : (n k m : ℕ) → k < n → share n k (suc m) ≡ share n k m + (if m % n == k then 1 else 0)
share-suc n k m h =
    ground (
      arith,
      next_mod n m (omega arith),
      next_div n m (omega arith),
      mod-lt m {m = n} (omega arith),
    )

-- The distributed tickets that stand at a name.
unfoldable pub dealt_at : ℕ → Text → List Ticket → ℕ
dealt_at concert_id name [] = 0
dealt_at concert_id name (t ∷ ts) =
    (if dealt concert_id t && at_gate name t.gate_id then 1 else 0) + dealt_at concert_id name ts

-- The names at two places of the list agree exactly where the places do.
abbrev pub NamesDiffer : List Gate → Type 0
NamesDiffer gates =
    (j k : ℕ)
    → j < length gates
    → k < length gates
    → text_eq (name_at j gates) (name_at k gates) ≡ (j == k)

at_gate_eq :
    (name other : Text) (o : Option Text)
    → at_gate name o ≡ true
    → at_gate other o ≡ text_eq name other
at_gate_eq name other none h = ground arith
at_gate_eq name other (some g) h = ap (λ x. text_eq x other) (text_eq-eq g name h)

deal_shares :
    (c : Crypto) (concert_id : ℕ) (gates : List Gate) (k i : ℕ) (ts : List Ticket)
    → NamesDiffer gates
    → k < length gates
    → dealt_at concert_id (name_at k gates) (deal c concert_id gates i ts)
        + share (length gates) k i
      ≡ share (length gates) k (i + count_dealt concert_id ts)
unfolding dealt_at deal count_dealt move_ticket
deal_shares c concert_id gates k i [] differ h = ground arith
deal_shares c concert_id gates k i (t ∷ ts) differ h =
    let n = length gates in
    ground (
      arith,
      at_gate_eq (new_gate i gates) (name_at k gates) t.gate_id,
      differ (i % n) k (mod-lt i {m = n} (omega arith)) h,
      share-suc n k i h,
      deal_shares c concert_id gates k i ts differ h,
      deal_shares c concert_id gates k (suc i) ts differ h,
    )

deal-share :
    (c : Crypto) (concert_id : ℕ) (gates : List Gate) (k : ℕ) (ts : List Ticket)
    → NamesDiffer gates
    → k < length gates
    → dealt_at concert_id (name_at k gates) (deal c concert_id gates 0 ts)
      ≡ share (length gates) k (count_dealt concert_id ts)
deal-share c concert_id gates k ts differ h = ground (
  arith,
  zero-div (length gates),
  zero-mod (length gates),
  deal_shares c concert_id gates k 0 ts differ h,
)

-- The gate at place `k` has its even share of the concert's issued tickets: a whole number of rounds,
-- and one more at the first gates if the rounds do not come out even.
abbrev pub Even : ℕ → List Gate → ℕ → List Ticket → List Ticket → Type 0
Even concert_id gates k before after =
    dealt_at concert_id (name_at k gates) after
    ≡ share (length gates) k (count_dealt concert_id before)

none_dealt :
    (concert_id : ℕ) (name : Text) (ts : List Ticket)
    → dealt_at concert_id name ts ≤ count_dealt concert_id ts
unfolding dealt_at count_dealt
none_dealt concert_id name [] = omega arith
none_dealt concert_id name (t ∷ ts) = ground (arith, none_dealt concert_id name ts)

deal-Signed :
    (c : Crypto) (concert_id : ℕ) (gates : List Gate) (i : ℕ) (ts : List Ticket)
    → All (Signed c) ts
    → All (Signed c) (deal c concert_id gates i ts)
unfolding deal move_ticket
deal-Signed c concert_id gates i [] h = tt
deal-Signed c concert_id gates i (t ∷ ts) (s, h) =
    one (not (dealt concert_id t)) (at_gate (new_gate i gates) t.gate_id)
      (deal c concert_id gates i ts) (deal c concert_id gates (suc i) ts)
      (deal-Signed c concert_id gates i ts h) (deal-Signed c concert_id gates (suc i) ts h)
  where
    one :
        (skipped stays : Bool) (others after : List Ticket)
        → All (Signed c) others
        → All (Signed c) after
        → All (Signed c) (
            if skipped
            then t ∷ others
            else if stays
            then t ∷ after
            else move_ticket c (new_gate i gates) t ∷ after)
    one true stays others after a b = (s, a)
    one false true others after a b = (s, b)
    one false false others after a b = (refl, b)

abbrev pub Rebalances :
    (Text → Text → Bool) → Crypto → ℕ → ℕ → Db → Result (Rebalanced × Db) → Type 0
Rebalances earlier c concert_id k db (err e) = Unit
Rebalances earlier c concert_id k db (ok (r, db')) =
    Even concert_id (sort_by_name earlier (gates_of concert_id db.gates)) k db.tickets db'.tickets
    × All (Signed c) db'.tickets

-- Where a rebalance goes through, the gate at each place `k`, in the order of the gates' names, has
-- its even share of the concert's issued tickets, and every ticket has the signature of its gate, if
-- all had theirs before. The names of the concert's gates must differ.
pub rebalance-Rebalances :
    (earlier : Text → Text → Bool) (c : Crypto) (concert_id k : ℕ) (db : Db)
    → NamesDiffer (sort_by_name earlier (gates_of concert_id db.gates))
    → k < length (sort_by_name earlier (gates_of concert_id db.gates))
    → All (Signed c) db.tickets
    → Rebalances earlier c concert_id k db (rebalance earlier c concert_id db)
unfolding rebalance
rebalance-Rebalances earlier c concert_id k db differ h signed =
    let gates = sort_by_name earlier (gates_of concert_id db.gates) in
    let even = deal-share c concert_id gates k db.tickets differ h in
    let idle : count_dealt concert_id db.tickets ≡ 0
        → Even concert_id gates k db.tickets db.tickets =
      λ none_left. ground (
        arith,
        none_left,
        zero-div (length gates),
        zero-mod (length gates),
        none_dealt concert_id (name_at k gates) db.tickets,
      ) in
    elim (Option-cases (find concert_id db.concerts)) [
      | inl e ↦ rw e tt
      | inr (concert, e) ↦ elim (Bool-cases (length gates == 0)) [
        | inl y ↦ rw (e, y) tt
        | inr y ↦ elim (Bool-cases (count_dealt concert_id db.tickets == 0)) [
          | inl z ↦ rw (e, y, z) (idle (ground (arith, z)), signed)
          | inr z ↦ rw (e, y, z) (even, deal-Signed c concert_id gates 0 db.tickets signed)
        ]
      ]
    ]
