-- ===== src/Gate/Signed.antt =====
-- What the changes of gates mean for the tickets (GateService of
-- backend/src/modules/gate/gate.service.ts).
use se_ticketbox.Prelude.{
  ℕ, zero, suc, ◌+◌, ◌≡◌, refl, sym, subst, Bool, true, false, not, Option, none, some, List, [],
  ◌∷◌, ◌++◌, if◌then◌else◌, arith, All, Bool-cases, inl, inr,
}
use se_ticketbox.Prelude.Table.{find, remove}
use se_ticketbox.Prelude.Text.{Text, text_eq, text_eq-eq, text_eq_refl, is_empty}
use se_ticketbox.Store.{
  Db, Gate, Ticket, Error, Result, ok, err, or_fail, not_found, conflict, bad_request,
}
use se_ticketbox.Store
use se_ticketbox.Ticket.Token.{Crypto, recompute_signature}
use se_ticketbox.Checkin.Desk.{or_empty}
use se_ticketbox.Gate.Load.{at_gate}
use se_ticketbox.Gate.Manage.{
  name_taken, create_gate, move_ticket, move_tickets, renames, update_gate, count_at, other_names,
  first_name, remove_gate, rename_row, reassign,
}

-- The stored signature is the one of the ticket's id, hash and gate.
abbrev pub Signed : Crypto → Ticket → Type 0
Signed c t = t.qr_signature ≡ recompute_signature c t.id t.qr_token_hash (or_empty t.gate_id)

abbrev pub SignedAll : Crypto → Result Db → Type 0
SignedAll c (ok db) = All (Signed c) db.tickets
SignedAll c (err e) = Unit

move_tickets-Signed :
    (c : Crypto) (old name : Text) (ts : List Ticket)
    → All (Signed c) ts
    → All (Signed c) (move_tickets c old name ts)
unfolding move_tickets move_ticket
move_tickets-Signed c old name [] h = tt
move_tickets-Signed c old name (t ∷ ts) (s, h) =
    (moved (at_gate old t.gate_id), move_tickets-Signed c old name ts h)
  where
    moved : (b : Bool) → Signed c (if b then move_ticket c name t else t)
    moved true = refl
    moved false = s

reassign-Signed :
    (earlier : Text → Text → Bool) (c : Crypto) (k : ℕ) (g : Gate) (n : ℕ) (db : Db)
    → All (Signed c) db.tickets
    → SignedAll c (reassign earlier c k g n db)
unfolding reassign
reassign-Signed earlier c k g zero db h = h
reassign-Signed earlier c k g (suc n) db h =
    moved (first_name earlier (other_names g.concert_id k db.gates))
  where
    moved :
        (o : Option Text)
        → SignedAll c (
            Store.◌>>=◌
              (or_fail o bad_request)
              λ target. ok (record db { tickets = move_tickets c g.name target db.tickets }))
    moved none = tt
    moved (some target) = move_tickets-Signed c g.name target db.tickets h

remove_found-Signed :
    (c : Crypto) (k : ℕ) (r : Result Db)
    → SignedAll c r
    → SignedAll c (Store.◌>>=◌ r λ moved. ok (record moved { gates = remove k moved.gates }))
remove_found-Signed c k (ok db) h = h
remove_found-Signed c k (err e) h = tt

rename_row-Signed :
    (c : Crypto) (k : ℕ) (g : Gate) (name o : Option Text) (db : Db)
    → All (Signed c) db.tickets
    → SignedAll c (rename_row c k g name o db)
unfolding rename_row
rename_row-Signed c k g name none db h = h
rename_row-Signed c k g name (some n) db h =
    elim (Bool-cases (name_taken g.concert_id n db.gates)) [
      | inl y ↦ rw (y, rename_row) tt
      | inr y ↦ rw (y, rename_row) (move_tickets-Signed c g.name n db.tickets h)
    ]

-- Every new gate, renamed gate and removed gate leaves all tickets with the signature of the gate
-- that they then stand at, if all had theirs before.
pub gates-Signed :
    (earlier : Text → Text → Bool) (c : Crypto) (k id concert_id : ℕ) (name : Text)
    (change : Option Text) (db : Db)
    → All (Signed c) db.tickets
    → SignedAll c (create_gate id concert_id name db)
      × SignedAll c (update_gate c k change db)
      × SignedAll c (remove_gate earlier c k db)
unfolding create_gate update_gate remove_gate
gates-Signed earlier c k id concert_id name change db h = (
  created (not (name_taken concert_id name db.gates)),
  updated (find k db.gates),
  removed (find k db.gates),
)
  where
    created :
        (b : Bool)
        → SignedAll c (
            Store.◌>>◌ (Store.guard b Store.conflict) (
              ok (record db {
                gates = db.gates ++ (id, record { concert_id = concert_id; name = name }) ∷ [];
              })))
    created true = h
    created false = tt

    updated :
        (o : Option Gate)
        → SignedAll c (
            Store.◌>>=◌
              (or_fail o not_found)
              λ g. rename_row c k g change (renames g.name change) db)
    updated none = tt
    updated (some g) = rename_row-Signed c k g change (renames g.name change) db h

    removed :
        (o : Option Gate)
        → SignedAll c (
            Store.◌>>=◌ (or_fail o not_found) λ g.
              Store.◌>>=◌
                (reassign earlier c k g (count_at g.name db.tickets) db)
                λ moved. ok (record moved { gates = remove k moved.gates }))
    removed none = tt
    removed (some g) =
        remove_found-Signed c k (reassign earlier c k g (count_at g.name db.tickets) db)
          (reassign-Signed earlier c k g (count_at g.name db.tickets) db h)

apart :
    (old name : Text) (o : Option Text)
    → text_eq name old ≡ false
    → at_gate old o ≡ true
    → at_gate name o ≡ false
apart old name none n h = refl
apart old name (some g) n h = elim (Bool-cases (text_eq g name)) [
  | inr y ↦ y
  | inl y ↦
      absurd (ground (arith, subst (λ x. text_eq x old ≡ false) (sym (text_eq-eq g name y)) n, h))
]

move_tickets-count :
    (c : Crypto) (old name : Text) (ts : List Ticket)
    → text_eq name old ≡ false
    → (count_at old (move_tickets c old name ts) ≡ 0)
      × (count_at name (move_tickets c old name ts) ≡ count_at old ts + count_at name ts)
unfolding move_tickets move_ticket count_at
move_tickets-count c old name [] n = ground arith
move_tickets-count c old name (t ∷ ts) n =
    ground
      (arith, n, text_eq_refl name, move_tickets-count c old name ts n, apart old name t.gate_id n)

abbrev pub Renamed : Gate → Text → Db → Result Db → Type 0
Renamed g name db (ok db') =
    (count_at g.name db'.tickets ≡ 0)
    × (count_at name db'.tickets ≡ count_at g.name db.tickets + count_at name db.tickets)
Renamed g name db (err e) = (e ≡ conflict) × (name_taken g.concert_id name db.gates ≡ true)

-- A gate that gets another name takes all tickets along that stand at its old name, also those of
-- other concerts: afterwards the old name has no ticket, and the new one has both names' tickets. It fails only where
-- the concert has a gate of the new name.
update_gate_moves_all :
    (c : Crypto) (k : ℕ) (g : Gate) (name : Text) (db : Db)
    → find k db.gates ≡ some g
    → is_empty name ≡ false
    → text_eq name g.name ≡ false
    → Renamed g name db (update_gate c k (some name) db)
unfolding update_gate rename_row
update_gate_moves_all c k g name db e full n =
    ground (arith, e, full, n, move_tickets-count c g.name name db.tickets n)
