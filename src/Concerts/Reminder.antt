-- ===== src/Concerts/Reminder.antt =====
-- The reminder a day before a concert: `scheduleReminder` and `cancelReminder` of
-- backend/src/modules/notification/reminder.service.ts, on the jobs of the notification queue.
use se_ticketbox.Prelude.{
  ℕ, ◌+◌, ◌-◌, ◌*◌, ◌≡◌, Bool, false, not, Option, none, some, leb, ◌==◌, if◌then◌else◌, arith,
  Option-cases, inl, inr,
}
use se_ticketbox.Prelude.Table.{find, put, find-put}
use se_ticketbox.Store.{Db, Concert}
use se_ticketbox.Order.Validate.{sells}

-- A job that waits until `due`, or has failed and been kept. A completed job is dropped.
pub record Job : Type 0 where
  pub due : ℕ
  pub has_failed : Bool

-- The job `reminder-{concertId}`.
abbrev pub Jobs : Type 0
Jobs = ℕ → Option Job

-- REMINDER_DELAY_MS: 24 hours.
abbrev pub reminder_delay_ms : ℕ
reminder_delay_ms = 24 * 60 * 60 * 1000

abbrev pub set_job : ℕ → Option Job → Jobs → Jobs
set_job id job jobs = λ j. if id == j then job else jobs j

abbrev pub set_reminder_job : ℕ → Concert → Option ℕ → Db → Db
set_reminder_job id x job db = record db {
  concerts = put id (record x { reminder_job_id = job }) db.concerts;
}

-- A job that is pending goes; one that has failed stays.
abbrev pub after_remove : Option Job → Option Job
after_remove none = none
after_remove (some j) = if j.has_failed then some j else none

-- `cancelReminder` of a concert that is there.
unfoldable pub cancel_job : ℕ → Concert → Option ℕ → Db × Jobs → Db × Jobs
cancel_job id x none (db, jobs) = (db, jobs)
cancel_job id x (some job) (db, jobs) =
    (set_reminder_job id x none db, set_job job (after_remove (jobs job)) jobs)

-- `cancelReminder`.
unfoldable pub cancel_reminder : ℕ → Db × Jobs → Db × Jobs
unfolding cancel_job
cancel_reminder id (db, jobs) = elim (find id db.concerts) [
  | none ↦ (db, jobs)
  | some x ↦ cancel_job id x x.reminder_job_id (db, jobs)
]

-- `add` with a job id: an id that is taken, as by a failed job, adds nothing.
abbrev pub added : Job → Option Job → Option Job
added new none = some new
added new (some old) = some old

-- The new job, and its id in the concert's row.
unfoldable pub add_job : ℕ → ℕ → Db × Jobs → Db × Jobs
add_job due id (db, jobs) =
    let job : Job = record { due = due; has_failed = false } in
    elim (find id db.concerts) [
      | none ↦ (db, jobs)
      | some x ↦ (set_reminder_job id x (some id) db, set_job id (added job (jobs id)) jobs)
    ]

-- `scheduleReminder`.
unfoldable pub schedule_reminder : ℕ → ℕ → Db × Jobs → Db × Jobs
unfolding cancel_reminder add_job
schedule_reminder now id (db, jobs) = elim (find id db.concerts) [
  | none ↦ (db, jobs)
  | some x ↦
      if not (sells x.status)
      then (db, jobs)
      else if leb x.starts_at (now + reminder_delay_ms)
      then cancel_reminder id (db, jobs)
      else add_job (x.starts_at - reminder_delay_ms) id (cancel_reminder id (db, jobs))
]

abbrev pub is_pending : Option Job → Bool
is_pending none = false
is_pending (some j) = not j.has_failed

-- The job that a concert should have.
abbrev pub wanted : ℕ → Concert → Option Job
wanted now x =
    if leb x.starts_at (now + reminder_delay_ms)
    then none
    else some (record { due = x.starts_at - reminder_delay_ms; has_failed = false })

-- The concert's row names its own job where it has one, and no job waits unnamed.
abbrev pub JobNamed : ℕ → Concert → Jobs → Type 0
JobNamed id x jobs =
    (x.reminder_job_id ≡ none → jobs id ≡ none) × ((j : ℕ) → x.reminder_job_id ≡ some j → j ≡ id)

-- Scheduling the reminder of a concert that sells leaves exactly the job a day before its start, or
-- none where that day has begun. For a concert that does not sell, also a cancelled one, a job that
-- waits stays as it is. No failed job may have the concert's id, and its row names its own job.
schedule_outcome :
    (now id : ℕ) (x : Concert) (db : Db) (jobs : Jobs)
    → find id db.concerts ≡ some x
    → JobNamed id x jobs
    → after_remove (jobs id) ≡ none
    → (schedule_reminder now id (db, jobs)).1 id
      ≡ (if sells x.status then wanted now x else jobs id)
unfolding schedule_reminder cancel_reminder cancel_job add_job
schedule_outcome now id x db jobs here named removable =
    let cleared = find-put id id (record x { reminder_job_id = none }) db.concerts in
    elim (Option-cases (x.reminder_job_id)) [
      | inl e ↦ ground (arith, here, e, named.0, removable)
      | inr (j, e) ↦ ground (arith, here, e, named.1 j e, cleared, removable)
    ]
