-- ===== src/Tests/Inventory.antt =====
-- The theorems on the inventory scripts, on the stock of `Tests.Data`.
use se_ticketbox.Prelude.{ℕ, ◌+◌, ◌≡◌, refl, ◌≤◌, arith}
use se_ticketbox.Prelude.Int.{pos, ◌+ℤ◌, ◌-ℤ◌}
use se_ticketbox.Prelude.Table.{find, put, remove, Distinct, total}
use se_ticketbox.Redis.{Redis, success, reserve_ticket, release_reservation}
use se_ticketbox.Redis.Laws.{
  ReserveOutcome, reserve_ticket_outcome, ReleaseOutcome, release_reservation_outcome, stock_of,
  held, held_by,
}
use se_ticketbox.Redis.Trace.{reserve, Reach, here, next, UserBound, Reach-stock, Reach-limit}
use se_ticketbox.Tests.Data.{stocked, hold}

reserve_ticket_outcome_example :
    ReserveOutcome 0 900 4 hold stocked (reserve_ticket 0 900 4 hold stocked)
reserve_ticket_outcome_example = reserve_ticket_outcome 0 900 4 hold stocked

release_reservation_outcome_example :
    ReleaseOutcome 1 hold stocked (release_reservation 1 hold stocked)
release_reservation_outcome_example = release_reservation_outcome 1 hold stocked

-- The state after the reservation.
abbrev reserved : Redis
reserved = (reserve_ticket 0 900 4 hold stocked).1

reserved-eq : reserve_ticket 0 900 4 hold stocked ≡ (success 3 (pos 2), reserved)
unfolding reserve_ticket ◌+ℤ◌ find
reserved-eq = refl

-- The state after the release of it.
abbrev released : Redis
released = (release_reservation 1000 hold reserved).1

released-eq : release_reservation 1000 hold reserved ≡ (success 5 (pos 0), released)
unfolding release_reservation reserve_ticket ◌+ℤ◌ ◌-ℤ◌ find remove put
released-eq = refl

reserved-Distinct : Distinct reserved.reservations
unfolding reserve_ticket ◌+ℤ◌ find put
reserved-Distinct = (refl, tt)

-- One reservation, at time 0.
abbrev limits : ℕ → ℕ
limits t = 4

one_step : Reach limits 0 stocked 0 reserved
one_step = next here (reserve 0 900 hold stocked (omega arith))

Reach-stock_example :
    stock_of 1 reserved + held 0 1 reserved ≤ stock_of 1 stocked + held 0 1 stocked
Reach-stock_example = Reach-stock limits 1 one_step

stocked-UserBound : UserBound limits 0 3 1 stocked
unfolding total
stocked-UserBound = record { covered = omega arith; limited = omega arith }

Reach-limit_example : held_by 0 3 1 reserved ≤ 4
Reach-limit_example = Reach-limit limits 3 1 one_step stocked-UserBound
