-- ===== src/Gate/Rebalance.antt =====
-- `list` and `rebalance` of backend/src/modules/gate/gate.service.ts. The table of tickets is in the
-- order in which they were made. The mails to the customers are not modelled.
use se_ticketbox.Prelude.{
  ℕ, zero, suc, ◌+◌, ◌%◌, Bool, not, ◌&&◌, List, [], ◌∷◌, map, ◌==◌, if◌then◌else◌, length,
}
use se_ticketbox.Prelude.Table.{find}
use se_ticketbox.Prelude.Text.{Text}
use se_ticketbox.Store.{
  Db, Gate, Ticket, not_found, bad_request, Result, ok, ◌>>=◌, ◌>>◌, or_fail, guard,
}
use se_ticketbox.Ticket.Token.{Crypto}
use se_ticketbox.Checkin.Desk.{is_issued}
use se_ticketbox.Gate.Load.{at_gate, gates_of}
use se_ticketbox.Gate.Manage.{move_ticket}

-- `orderBy: { name: 'asc' }`; `earlier` is the database's order of names.
unfoldable pub insert_by_name : (Text → Text → Bool) → Gate → List Gate → List Gate
insert_by_name earlier g [] = g ∷ []
insert_by_name earlier g (h ∷ gs) =
    if earlier h.name g.name then h ∷ insert_by_name earlier g gs else g ∷ h ∷ gs

unfoldable pub sort_by_name : (Text → Text → Bool) → List Gate → List Gate
unfolding insert_by_name
sort_by_name earlier [] = []
sort_by_name earlier (g ∷ gs) = insert_by_name earlier g (sort_by_name earlier gs)

-- The entry of `countMap`: the concert's tickets at a gate's name, of any status.
unfoldable pub ticket_count_at : ℕ → Text → List Ticket → ℕ
ticket_count_at concert_id name [] = 0
ticket_count_at concert_id name (t ∷ ts) =
    (if t.concert_id == concert_id && at_gate name t.gate_id then 1 else 0)
    + ticket_count_at concert_id name ts

-- An entry of the answer.
pub record GateStat : Type 0 where
  pub name : Text
  pub ticket_count : ℕ

abbrev pub stat_of : ℕ → List Ticket → Gate → GateStat
stat_of concert_id ts g = record {
  name = g.name;
  ticket_count = ticket_count_at concert_id g.name ts;
}

abbrev pub no_tickets : Gate → GateStat
no_tickets g = record { name = g.name; ticket_count = 0 }

-- `list`.
unfoldable pub list_gates : (Text → Text → Bool) → ℕ → Db → List GateStat
unfolding sort_by_name
list_gates earlier concert_id db =
    map (stat_of concert_id db.tickets) (sort_by_name earlier (gates_of concert_id db.gates))

-- The tickets that are distributed.
abbrev pub dealt : ℕ → Ticket → Bool
dealt concert_id t = t.concert_id == concert_id && is_issued t.status

abbrev pub name_at : ℕ → List Gate → Text
name_at k [] = []
name_at zero (g ∷ gs) = g.name
name_at (suc k) (g ∷ gs) = name_at k gs

-- `gates[i % gates.length]`.
abbrev pub new_gate : ℕ → List Gate → Text
new_gate i gates = name_at (i % length gates) gates

-- Each ticket is planned and written by its own id, so the two loops are one pass. `i` is the place
-- of the ticket among the distributed ones.
unfoldable pub deal : Crypto → ℕ → List Gate → ℕ → List Ticket → List Ticket
unfolding move_ticket
deal c concert_id gates i [] = []
deal c concert_id gates i (t ∷ ts) =
    let after = deal c concert_id gates (suc i) ts in
    let others = deal c concert_id gates i ts in
    if not (dealt concert_id t)
    then t ∷ others
    else if at_gate (new_gate i gates) t.gate_id
    then t ∷ after
    else move_ticket c (new_gate i gates) t ∷ after

-- The length of `updatedTickets`.
unfoldable pub count_moved : ℕ → List Gate → ℕ → List Ticket → ℕ
count_moved concert_id gates i [] = 0
count_moved concert_id gates i (t ∷ ts) =
    let after = count_moved concert_id gates (suc i) ts in
    let others = count_moved concert_id gates i ts in
    if not (dealt concert_id t)
    then others
    else if at_gate (new_gate i gates) t.gate_id
    then after
    else suc after

unfoldable pub count_dealt : ℕ → List Ticket → ℕ
count_dealt concert_id [] = 0
count_dealt concert_id (t ∷ ts) = (if dealt concert_id t then 1 else 0) + count_dealt concert_id ts

pub record Rebalanced : Type 0 where
  pub total_tickets_updated : ℕ
  pub gates : List GateStat

-- `rebalance`.
unfoldable pub rebalance : (Text → Text → Bool) → Crypto → ℕ → Db → Result (Rebalanced × Db)
unfolding sort_by_name deal count_moved count_dealt
rebalance earlier c concert_id db = do
  concert ← or_fail (find concert_id db.concerts) not_found
  let gates = sort_by_name earlier (gates_of concert_id db.gates)
  guard (not (length gates == 0)) bad_request
  let dealt_out = deal c concert_id gates 0 db.tickets
  ok (
      if count_dealt concert_id db.tickets == 0
      then (record { total_tickets_updated = 0; gates = map no_tickets gates }, db)
      else (
        record {
          total_tickets_updated = count_moved concert_id gates 0 db.tickets;
          gates = map (stat_of concert_id dealt_out) gates;
        },
        record db { tickets = dealt_out },
      ))
