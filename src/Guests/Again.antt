-- ===== src/Guests/Again.antt =====
-- A guest list that is imported, and imported again
-- (backend/src/worker/processors/csv-import.processor.ts).
use se_ticketbox.Prelude.{
  ℕ, ◌+◌, ◌≡◌, refl, ap, Bool, true, false, ◌&&◌, ◌||◌, Option, none, some, List, [], ◌∷◌, ◌++◌,
  length, ◌==◌, if◌then◌else◌, arith, Option-cases, Bool-cases, inl, inr,
}
use se_ticketbox.Prelude.Text.{Text, text_eq, text_eq-eq, text_eq_refl}
use se_ticketbox.Guests.Csv.{RawCsvRow, CsvRow, has, parse_buffer}
use se_ticketbox.Guests.{
  GuestListEntry, FileStatus, UploadedFile, ImportResult, done, thrown, emails_to_check,
  existing_emails, to_insert, skipped, entries, import_rows, process_import,
}

abbrev same_email : Text → Option Text → Bool
same_email e none = false
same_email e (some x) = text_eq x e

-- Has the concert a guest with this email?
unfoldable pub invited : ℕ → Text → List GuestListEntry → Bool
invited concert_id e [] = false
invited concert_id e (g ∷ gs) =
    (g.concert_id == concert_id && same_email e g.guest.email) || invited concert_id e gs

invited-append :
    (c : ℕ) (e : Text) (gs hs : List GuestListEntry)
    → invited c e (gs ++ hs) ≡ (invited c e gs || invited c e hs)
unfolding invited
invited-append c e [] hs = refl
invited-append c e (g ∷ gs) hs = ground (arith, invited-append c e gs hs)

-- The set that is built from the query holds exactly the emails of the file that are invited.
has-existing_emails :
    (c : ℕ) (e : Text) (emails : List Text) (gs : List GuestListEntry)
    → has e emails ≡ true
    → has e (existing_emails c emails gs) ≡ invited c e gs
unfolding has existing_emails invited
has-existing_emails c e emails [] h = refl
has-existing_emails c e emails (g ∷ gs) h = elim (Option-cases g.guest.email) [
  | inl x ↦ ground (arith, x, has-existing_emails c e emails gs h)
  | inr (y, x) ↦ elim (Bool-cases (text_eq y e)) [
    | inl s ↦ ground (arith, x, s, h, text_eq-eq y e s, has-existing_emails c e emails gs h)
    | inr s ↦ ground (arith, x, s, has-existing_emails c e emails gs h)
  ]
]

-- After the insertion, every email of the file is listed or among the new entries.
inserted_or_listed :
    (c : ℕ) (key e : Text) (listed : List Text) (rows : List CsvRow)
    → has e (emails_to_check rows) ≡ true
    → (has e listed || invited c e (entries c key (to_insert listed rows))) ≡ true
unfolding has emails_to_check to_insert entries invited
inserted_or_listed c key e listed [] h = ground (arith, h)
inserted_or_listed c key e listed (r ∷ rs) h = elim (Option-cases r.email) [
  | inl x ↦ ground (arith, x, h, inserted_or_listed c key e listed rs)
  | inr (y, x) ↦ elim (Bool-cases (text_eq y e)) [
    | inl s ↦ ground (arith, x, s, h, text_eq-eq y e s)
    | inr s ↦ ground (arith, x, s, h, inserted_or_listed c key e listed rs)
  ]
]

-- The rows that have no email.
unfoldable pub without_email : List CsvRow → List CsvRow
without_email [] = []
without_email (r ∷ rs) = elim r.email [ none ↦ r ∷ without_email rs | some e ↦ without_email rs ]

to_insert_all_listed :
    (listed : List Text) (rows : List CsvRow)
    → ((e : Text) → has e (emails_to_check rows) ≡ true → has e listed ≡ true)
    → to_insert listed rows ≡ without_email rows
unfolding to_insert without_email emails_to_check has
to_insert_all_listed listed [] h = refl
to_insert_all_listed listed (r ∷ rs) h = elim (Option-cases r.email) [
  | inl x ↦ ground (arith, x, to_insert_all_listed listed rs (λ e i. h e (ground (arith, x, i))))
  | inr (y, x) ↦ ground (
    arith,
    x,
    h y (ground (arith, x, text_eq_refl y)),
    to_insert_all_listed listed rs (λ e i. h e (ground (arith, x, i))),
  )
]

-- A guest list that is imported again for the same concert, from a file of any name, adds exactly its
-- rows without an email, whoever was a guest before the first import.
pub import_again :
    (c : ℕ) (key key' : Text) (last last' : Bool) (raw : RawCsvRow) (rows : List RawCsvRow)
    (gs : List GuestListEntry)
    → let file = some (raw ∷ rows) in
      let gs' = (process_import c key last file gs).2 in
      (process_import c key' last' file gs').2
      ≡ gs' ++ entries c key' (without_email (parse_buffer (raw ∷ rows)).0)
unfolding process_import import_rows
import_again c key key' last last' raw rows gs =
    let valid = (parse_buffer (raw ∷ rows)).0 in
    let emails = emails_to_check valid in
    let listed = existing_emails c emails gs in
    let added = entries c key (to_insert listed valid) in
    let gs' = gs ++ added in
    let same : to_insert (existing_emails c emails gs') valid ≡ without_email valid =
      to_insert_all_listed (existing_emails c emails gs') valid (λ e h. ground (
        arith,
        has-existing_emails c e emails gs' h,
        has-existing_emails c e emails gs h,
        invited-append c e gs added,
        inserted_or_listed c key e listed valid h,
      )) in
    ap (λ kept. gs' ++ entries c key' kept) same

length-entries :
    (c : ℕ) (key : Text) (rows : List CsvRow) → length (entries c key rows) ≡ length rows
unfolding entries
length-entries c key [] = refl
length-entries c key (r ∷ rs) = ground (arith, length-entries c key rs)

length-append : (gs hs : List GuestListEntry) → length (gs ++ hs) ≡ length gs + length hs
length-append [] hs = omega arith
length-append (g ∷ gs) hs = ground (arith, length-append gs hs)

to_insert-skipped :
    (listed : List Text) (rows : List CsvRow)
    → length (to_insert listed rows) + length (skipped listed rows) ≡ length rows
unfolding to_insert skipped
to_insert-skipped listed [] = omega arith
to_insert-skipped listed (r ∷ rs) = elim (Option-cases r.email) [
  | inl x ↦ ground (arith, x, to_insert-skipped listed rs)
  | inr (y, x) ↦ ground (arith, x, to_insert-skipped listed rs)
]

-- What an import may answer: either every valid row is counted once, as inserted or as a duplicate,
-- and the file has the answer's status, or nothing is inserted and only the last attempt fails the
-- file.
abbrev ImportOutcome :
    Bool
    → List RawCsvRow
    → List GuestListEntry
    → ImportResult × UploadedFile × List GuestListEntry
    → Type 0
ImportOutcome last rows gs (done r, file, gs') =
    (r.inserted_count + r.duplicate_count ≡ length (parse_buffer rows).0)
    × (length gs' ≡ length gs + r.inserted_count)
    × (file.status ≡ r.status)
ImportOutcome last rows gs (thrown e, file, gs') =
    (gs' ≡ gs) × (file.status ≡ (if last then FileStatus.failed else FileStatus.processing))

-- An import that goes through inserts or skips every row that has a name, and an import that fails
-- inserts nothing.
process_import_outcome :
    (c : ℕ) (key : Text) (last : Bool) (rows : List RawCsvRow) (gs : List GuestListEntry)
    → ImportOutcome last rows gs (process_import c key last (some rows) gs)
unfolding process_import import_rows
process_import_outcome c key last [] gs = ground arith
process_import_outcome c key last (r ∷ rs) gs =
    let valid = (parse_buffer (r ∷ rs)).0 in
    let listed = existing_emails c (emails_to_check valid) gs in
    let kept = to_insert listed valid in
    ground (
      arith,
      to_insert-skipped listed valid,
      length-append gs (entries c key kept),
      length-entries c key kept,
    )
