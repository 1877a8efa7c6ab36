-- ===== src/Gate/Load.antt =====
-- The gate with the fewest tickets: `findLeastLoadedGate` of
-- backend/src/modules/payment/payment.service.ts, and the same loop in
-- backend/src/worker/processors/ticket-issue.processor.ts.
use se_ticketbox.Prelude.{
  ℕ, ◌+◌, Bool, true, false, ◌&&◌, Option, none, some, List, [], ◌∷◌, ltb, ◌==◌, if◌then◌else◌,
}
use se_ticketbox.Prelude.Table.{Table}
use se_ticketbox.Prelude.Text.{Text, text_eq}
use se_ticketbox.Store.{Db, Gate, Ticket, TicketStatus}

-- Tickets that take a place at a gate: ISSUED or CHECKED_IN.
abbrev pub is_active : TicketStatus → Bool
is_active TicketStatus.issued = true
is_active TicketStatus.checked_in = true
is_active _ = false

abbrev pub at_gate : Text → Option Text → Bool
at_gate name none = false
at_gate name (some g) = text_eq g name

-- The entry of `countMap` for a gate's name, 0 where it has none.
unfoldable pub load : ℕ → Text → List Ticket → ℕ
load concert_id name [] = 0
load concert_id name (t ∷ ts) =
    (if (t.concert_id == concert_id && is_active t.status) && at_gate name t.gate_id then 1 else 0)
    + load concert_id name ts

-- The gates of a concert.
unfoldable pub gates_of : ℕ → Table Gate → List Gate
gates_of concert_id [] = []
gates_of concert_id ((id, g) ∷ m) =
    let rest = gates_of concert_id m in if g.concert_id == concert_id then g ∷ rest else rest

-- The loop over the gates, which keeps the first one of the smallest count.
unfoldable pub least_loaded : (Gate → ℕ) → Gate → List Gate → Gate
least_loaded count best [] = best
least_loaded count best (g ∷ gs) =
    least_loaded count (if ltb (count g) (count best) then g else best) gs

unfoldable pub pick : (Gate → ℕ) → List Gate → Option Gate
pick count [] = none
pick count (g ∷ gs) = some (least_loaded count g (g ∷ gs))

unfoldable pub find_least_loaded_gate : ℕ → Db → Option Gate
unfolding pick
find_least_loaded_gate concert_id db =
    pick (λ g. load concert_id g.name db.tickets) (gates_of concert_id db.gates)
