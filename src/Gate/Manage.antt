-- ===== src/Gate/Manage.antt =====
-- The gates of a concert: `create`, `update` and `remove` of
-- backend/src/modules/gate/gate.service.ts. Each gives the changed database.
use se_ticketbox.Prelude.{
  ℕ, zero, suc, Bool, true, false, not, ◌&&◌, Option, none, some, List, [], ◌∷◌, ◌++◌, ◌==◌,
  if◌then◌else◌,
}
use se_ticketbox.Prelude.Table.{Table, find, put, remove}
use se_ticketbox.Prelude.Text.{Text, text_eq, is_empty}
use se_ticketbox.Store.{
  Db, Gate, Ticket, not_found, conflict, bad_request, Result, ok, ◌>>=◌, ◌>>◌, or_fail, guard,
}
use se_ticketbox.Ticket.Token.{Crypto, recompute_signature}
use se_ticketbox.Gate.Load.{at_gate}

-- `findUnique` by the pair of concert and name.
unfoldable pub name_taken : ℕ → Text → Table Gate → Bool
name_taken concert_id name [] = false
name_taken concert_id name ((id, g) ∷ m) =
    if g.concert_id == concert_id && text_eq g.name name then true else name_taken concert_id name m

-- `id` is the one that the database draws.
unfoldable pub create_gate : ℕ → ℕ → Text → Db → Result Db
create_gate id concert_id name db = do
  guard (not (name_taken concert_id name db.gates)) conflict
  ok (record db { gates = db.gates ++ (id, record { concert_id = concert_id; name = name }) ∷ [] })

-- The loop over the tickets at a gate's name: another name and a new signature.
unfoldable pub move_ticket : Crypto → Text → Ticket → Ticket
move_ticket c name t = record t {
  gate_id = some name;
  qr_signature = recompute_signature c t.id t.qr_token_hash name;
}

unfoldable pub move_tickets : Crypto → Text → Text → List Ticket → List Ticket
unfolding move_ticket
move_tickets c old name [] = []
move_tickets c old name (t ∷ ts) =
    (if at_gate old t.gate_id then move_ticket c name t else t) ∷ move_tickets c old name ts

-- `newName && newName !== oldName`.
abbrev pub renames : Text → Option Text → Option Text
renames old none = none
renames old (some name) = if not (is_empty name) && not (text_eq name old) then some name else none

abbrev pub renamed : Gate → Option Text → Gate
renamed g none = g
renamed g (some name) = record g { name = name }

unfoldable pub rename_row : Crypto → ℕ → Gate → Option Text → Option Text → Db → Result Db
rename_row c gate_id g dto_name none db =
    ok (record db { gates = put gate_id (renamed g dto_name) db.gates })
rename_row c gate_id g dto_name (some name) db = do
  guard (not (name_taken g.concert_id name db.gates)) conflict
  ok (record db {
    gates = put gate_id (renamed g dto_name) db.gates;
    tickets = move_tickets c g.name name db.tickets;
  })

-- `dto_name` is the optional name of `UpdateGateDto`.
unfoldable pub update_gate : Crypto → ℕ → Option Text → Db → Result Db
unfolding rename_row
update_gate c gate_id dto_name db = do
  g ← or_fail (find gate_id db.gates) not_found
  rename_row c gate_id g dto_name (renames g.name dto_name) db

-- The tickets at a gate's name, of all concerts.
unfoldable pub count_at : Text → List Ticket → ℕ
count_at name [] = 0
count_at name (t ∷ ts) =
    let rest = count_at name ts in if at_gate name t.gate_id then suc rest else rest

-- The names of the other gates of the concert.
unfoldable pub other_names : ℕ → ℕ → Table Gate → List Text
other_names concert_id gate_id [] = []
other_names concert_id gate_id ((id, g) ∷ m) =
    let rest = other_names concert_id gate_id m in
    if g.concert_id == concert_id && not (id == gate_id) then g.name ∷ rest else rest

-- The first name in the database's order of texts.
unfoldable pub first_name : (Text → Text → Bool) → List Text → Option Text
first_name earlier [] = none
first_name earlier (n ∷ ns) = elim (first_name earlier ns) [
  | none ↦ some n
  | some m ↦ if earlier m n then some m else some n
]

unfoldable pub reassign : (Text → Text → Bool) → Crypto → ℕ → Gate → ℕ → Db → Result Db
reassign earlier c gate_id g zero db = ok db
reassign earlier c gate_id g (suc n) db = do
  target ← or_fail (first_name earlier (other_names g.concert_id gate_id db.gates)) bad_request
  ok (record db { tickets = move_tickets c g.name target db.tickets })

unfoldable pub remove_gate : (Text → Text → Bool) → Crypto → ℕ → Db → Result Db
unfolding reassign
remove_gate earlier c gate_id db = do
  g ← or_fail (find gate_id db.gates) not_found
  moved ← reassign earlier c gate_id g (count_at g.name db.tickets) db
  ok (record moved { gates = remove gate_id moved.gates })
