-- ===== src/Checkin/Spec.antt =====
-- What check-in promises, without devices, tokens or logs: each ticket is outside or inside, and a
-- scan lets in one ticket at most (backend/src/modules/checkin/checkin.service.ts).
use se_ticketbox.Prelude.{
  ℕ, ◌≡◌, refl, ap, sym, subst, ◌∙◌, Option, none, some, List, [], ◌∷◌, if◌then◌else◌, arith, inl,
  inr, length,
}
use se_ticketbox.Prelude.Text.{Text, text_eq, text_eq-eq, text_eq_refl}
use se_ticketbox.Store.{Ticket, TicketStatus, Result-cases}
use se_ticketbox.Ticket.Token.{Crypto}
use se_ticketbox.Checkin.Desk.{Desk, find_ticket, check_in}
use se_ticketbox.Checkin.Sync.{SyncRecord, process_sync_record, sync_loop, sync_checkin}
use se_ticketbox.Checkin.Effect.{Effect, nothing, noted, admitted, verify-Effect, sync-Effect}
use se_ticketbox.Checkin.History.{Scan, online, upload, scan, scan_all}

-- The abstract state: what every ticket is, if it is there.
abbrev pub Places : Type 0
Places = Text → Option TicketStatus

abbrev pub status_of : Option Ticket → Option TicketStatus
status_of none = none
status_of (some t) = some t.status

-- What a desk means.
abbrev pub places : Desk → Places
places d = λ id. status_of (find_ticket id d.tickets)

-- One abstract step: an issued ticket enters, and nothing else changes.
abbrev pub enter : Text → Places → Places
enter x p = λ id. if text_eq id x then some TicketStatus.checked_in else p id

-- The runs of the abstract machine: any tickets enter, each while it is issued.
pub data Enters : Places → Places → Type 0 where
  done : {p q : Places} → ((id : Text) → q id ≡ p id) → Enters p q
  step :
      {p q : Places} (x : Text) → p x ≡ some TicketStatus.issued → Enters (enter x p) q → Enters p q

abbrev Entered : Text → Text → List Ticket → Option (List Ticket) → Type 0
Entered x id ts none = Unit
Entered x id ts (some us) =
    (status_of (find_ticket x ts) ≡ some TicketStatus.issued)
    × (status_of (find_ticket id us)
        ≡ (if text_eq id x then some TicketStatus.checked_in else status_of (find_ticket id ts)))

check_in-Entered : (x id : Text) (ts : List Ticket) → Entered x id ts (check_in x ts)
unfolding check_in find_ticket
check_in-Entered x id [] = tt
check_in-Entered x id (t ∷ ts) = ground (
  arith,
  check_in-Entered x id ts,
  text_eq-eq t.id x,
  text_eq-eq t.id id,
  text_eq-eq id x,
  text_eq_refl id,
  text_eq_refl x,
)

-- Only the statuses count.
Enters-shift : {q r : Places} → Enters q r → (p : Places) → ((id : Text) → q id ≡ p id) → Enters p r
Enters-shift (done f) p e = done (λ id. f id ∙ e id)
Enters-shift (step x issued rest) p e = step x (sym (e x) ∙ issued) (
    Enters-shift rest (enter x p)
      (λ id. ap (λ s. if text_eq id x then some TicketStatus.checked_in else s) (e id)))

Enters-trans : {p q r : Places} → Enters p q → Enters q r → Enters p r
Enters-trans {p} {q} {r} (done e) second = Enters-shift second p e
Enters-trans (step x issued rest) second = step x issued (Enters-trans rest second)

Effect-Enters : (x : Text) (d d' : Desk) → Effect x d d' → Enters (places d) (places d')
Effect-Enters x d d' (nothing e) = done (λ id. ground (arith, e))
Effect-Enters x d d' (noted l n e) = done (λ id. ground (arith, e))
Effect-Enters x d d' (admitted l us same up e) =
    step x (ground (arith, up, check_in-Entered x x d.tickets))
      (done (λ id. ground (arith, e, up, check_in-Entered x id d.tickets)))

sync_loop-Enters :
    (c : Crypto) (staff total : ℕ) (rs : List SyncRecord) (d : Desk)
    → Enters (places d) (places (sync_loop (λ r. process_sync_record c r staff) total rs d).1)
unfolding sync_loop
sync_loop-Enters c staff total [] d = done (λ id. refl)
sync_loop-Enters c staff total (r ∷ rs) d =
    let p = process_sync_record c r staff d in
    let loop = sync_loop (λ s. process_sync_record c s staff) total in
    let first = Effect-Enters r.ticket_id d p.1 (sync-Effect c r staff d) in
    elim (Result-cases p.0) [
      | inl (x, e) ↦
          let same : (loop (r ∷ rs) d).1 ≡ (loop rs p.1).1 = ground (arith, e) in
          subst (λ s. Enters (places d) (places s)) (sym same)
            (Enters-trans first (sync_loop-Enters c staff total rs p.1))
      | inr (x, e) ↦
          let same : (loop (r ∷ rs) d).1 ≡ p.1 = ground (arith, e) in
          subst (λ s. Enters (places d) (places s)) (sym same) first
    ]

scan-Enters : (c : Crypto) (s : Scan) (d : Desk) → Enters (places d) (places (scan c s d))
unfolding scan sync_checkin
scan-Enters c (online dto staff) d = Effect-Enters dto.ticket_id d _ (verify-Effect c dto staff d)
scan-Enters c (upload records staff) d = sync_loop-Enters c staff (length records) records d

-- Every history of online scans and uploads, from any devices in any order, is a run of the abstract
-- machine: all that it does to the tickets is to let in issued ones, each as its own step.
pub scan_all-Enters :
    (c : Crypto) (ss : List Scan) (d : Desk) → Enters (places d) (places (scan_all c ss d))
unfolding scan_all
scan_all-Enters c [] d = done (λ id. refl)
scan_all-Enters c (s ∷ ss) d = Enters-trans (scan-Enters c s d) (scan_all-Enters c ss (scan c s d))
