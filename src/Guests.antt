-- ===== src/Guests.antt =====
-- The import of guest lists: backend/src/worker/processors/csv-import.processor.ts. The storage gives
-- the rows of the file, or fails.
pub mod Csv
pub mod Again
use se_ticketbox.Prelude.{
  ℕ, ◌+◌, Bool, true, false, not, ◌&&◌, ◌||◌, Option, none, some, List, [], ◌∷◌, ◌++◌, map, length,
  take, ◌==◌, if◌then◌else◌,
}
use se_ticketbox.Prelude.Text.{Text, text_eq}
use se_ticketbox.Guests.Csv.{RawCsvRow, CsvRow, CsvError, already_listed, has, parse_buffer}

pub record GuestListEntry : Type 0 where
  pub concert_id : ℕ
  pub guest : CsvRow
  pub source_file : Text

pub data FileStatus : Type 0 where
  pending processing completed completed_with_errors failed : FileStatus

-- What stops an import.
pub data ImportError : Type 0 where
  download_failed empty_file : ImportError

-- The text in the row of a file: at most 50 messages, or the error of the last attempt.
pub data ErrorMessage : Type 0 where
  messages : List CsvError → ErrorMessage
  stopped : ImportError → ErrorMessage

pub record UploadedFile : Type 0 where
  pub status : FileStatus
  pub error_message : Option ErrorMessage

pub record Imported : Type 0 where
  pub status : FileStatus
  pub inserted_count : ℕ
  pub duplicate_count : ℕ

pub data ImportResult : Type 0 where
  done : Imported → ImportResult
  thrown : ImportError → ImportResult

-- The emails of the rows that have one.
unfoldable pub emails_to_check : List CsvRow → List Text
emails_to_check [] = []
emails_to_check (r ∷ rs) = elim r.email [
  | none ↦ emails_to_check rs
  | some e ↦ e ∷ emails_to_check rs
]

-- The emails among the given ones that the concert's guests have.
unfoldable pub existing_emails : ℕ → List Text → List GuestListEntry → List Text
unfolding has
existing_emails concert_id emails [] = []
existing_emails concert_id emails (g ∷ gs) =
    let rest = existing_emails concert_id emails gs in
    elim g.guest.email [
      | none ↦ rest
      | some e ↦ if g.concert_id == concert_id && has e emails then e ∷ rest else rest
    ]

abbrev pub is_listed : List Text → Option Text → Bool
is_listed listed none = false
is_listed listed (some e) = has e listed

-- The rows that are inserted, and the messages on the others.
unfoldable pub to_insert : List Text → List CsvRow → List CsvRow
unfolding has
to_insert listed [] = []
to_insert listed (r ∷ rs) =
    if is_listed listed r.email then to_insert listed rs else r ∷ to_insert listed rs

abbrev pub skip_messages : Option Text → List CsvError
skip_messages none = []
skip_messages (some e) = already_listed e ∷ []

unfoldable pub skipped : List Text → List CsvRow → List CsvError
unfolding has
skipped listed [] = []
skipped listed (r ∷ rs) =
    if is_listed listed r.email
    then skip_messages r.email ++ skipped listed rs
    else skipped listed rs

unfoldable pub entries : ℕ → Text → List CsvRow → List GuestListEntry
entries concert_id object_key [] = []
entries concert_id object_key (r ∷ rs) =
    record { concert_id = concert_id; guest = r; source_file = object_key }
    ∷ entries concert_id object_key rs

abbrev pub final_status : List CsvError → FileStatus
final_status [] = completed
final_status (e ∷ es) = completed_with_errors

abbrev pub final_message : List CsvError → Option ErrorMessage
final_message [] = none
final_message (e ∷ es) = some (messages (take 50 (e ∷ es)))

-- The import of the valid rows, with the messages of the parser.
unfoldable pub import_rows :
    ℕ
    → Text
    → List CsvRow × List CsvError
    → List GuestListEntry
    → ImportResult × UploadedFile × List GuestListEntry
unfolding emails_to_check existing_emails to_insert skipped entries
import_rows concert_id object_key (rows, parse_errors) guests =
    let listed = existing_emails concert_id (emails_to_check rows) guests in
    let kept = to_insert listed rows in
    let skips = skipped listed rows in
    let errors = parse_errors ++ skips in
    (
      done (record {
        status = final_status errors;
        inserted_count = length kept;
        duplicate_count = length skips;
      }),
      record { status = final_status errors; error_message = final_message errors },
      guests ++ entries concert_id object_key kept,
    )

-- The `catch`: the last attempt marks the file.
abbrev pub give_up :
    Bool → ImportError → List GuestListEntry → ImportResult × UploadedFile × List GuestListEntry
give_up is_final_attempt e guests = (
  thrown e,
  if is_final_attempt
      then record { status = failed; error_message = some (stopped e) }
      else record { status = processing; error_message = none },
  guests,
)

-- `process`, on the rows that the download and csv-parse give.
unfoldable pub process_import :
    ℕ
    → Text
    → Bool
    → Option (List RawCsvRow)
    → List GuestListEntry
    → ImportResult × UploadedFile × List GuestListEntry
unfolding import_rows parse_buffer
process_import concert_id object_key is_final_attempt none guests =
    give_up is_final_attempt download_failed guests
process_import concert_id object_key is_final_attempt (some []) guests =
    give_up is_final_attempt empty_file guests
process_import concert_id object_key is_final_attempt (some (r ∷ rs)) guests =
    import_rows concert_id object_key (parse_buffer (r ∷ rs)) guests
