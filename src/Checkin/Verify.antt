-- ===== src/Checkin/Verify.antt =====
-- The online scan: `verifyAndCheckin` of backend/src/modules/checkin/checkin.service.ts.
use se_ticketbox.Prelude.{ℕ, false, Option, none, some, List, if◌then◌else◌}
use se_ticketbox.Prelude.Text.{Text}
use se_ticketbox.Store.{Ticket, Error, not_found, bad_request, ok, err}
use se_ticketbox.Ticket.Token.{Crypto}
use se_ticketbox.Checkin.Desk.{
  CheckinStatus, CheckinLog, Action, find_ticket, check_in, log_checkin_attempt, gates_differ,
  signature_fails, token_fails, log_then,
}

pub record VerifyTicketDto : Type 0 where
  pub ticket_id : Text
  pub token : Text
  pub device_id : ℕ
  pub gate_id : Option Text

-- An online attempt as it is logged.
abbrev pub online_log : VerifyTicketDto → ℕ → Option ℕ → CheckinStatus → CheckinLog
online_log dto staff_id concert_id status = record {
  ticket_id = dto.ticket_id;
  staff_id = staff_id;
  concert_id = concert_id;
  device_id = dto.device_id;
  gate = dto.gate_id;
  offline_event_id = none;
  status = status;
  is_offline = false;
  conflict = false;
}

-- An attempt that is logged and refused.
abbrev pub refuse : VerifyTicketDto → ℕ → CheckinStatus → Error → Action Ticket
refuse dto staff_id status e d =
    log_then (err e) (log_checkin_attempt (online_log dto staff_id none status) d)

-- The update and its log.
unfoldable pub enter : VerifyTicketDto → ℕ → Ticket → Option (List Ticket) → Action Ticket
enter dto staff_id t none d = refuse dto staff_id CheckinStatus.already_checked_in bad_request d
enter dto staff_id t (some tickets) d = log_then (ok t) (
    log_checkin_attempt (online_log dto staff_id (some t.concert_id) CheckinStatus.success)
      (record d { tickets = tickets }))

unfoldable pub verify_found : Crypto → VerifyTicketDto → ℕ → Option Ticket → Action Ticket
unfolding enter
verify_found c dto staff_id none d = refuse dto staff_id CheckinStatus.invalid_ticket not_found d
verify_found c dto staff_id (some t) d =
    if gates_differ dto.gate_id t.gate_id
    then refuse dto staff_id CheckinStatus.gate_mismatch bad_request d
    else if signature_fails c t
    then refuse dto staff_id CheckinStatus.invalid_ticket bad_request d
    else if token_fails c t dto.token
    then refuse dto staff_id CheckinStatus.invalid_ticket bad_request d
    else enter dto staff_id t (check_in dto.ticket_id d.tickets) d

-- The result is the ticket that was let in.
unfoldable pub verify_and_checkin : Crypto → VerifyTicketDto → ℕ → Action Ticket
unfolding verify_found
verify_and_checkin c dto staff_id d =
    verify_found c dto staff_id (find_ticket dto.ticket_id d.tickets) d
