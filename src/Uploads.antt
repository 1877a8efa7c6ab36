-- ===== src/Uploads.antt =====
-- Uploads of guest lists and press kits: backend/src/modules/uploads/uploads.service.ts. What the
-- storage and the queues do, random ids, the text of a number and the type of a guest list's file are
-- parameters.
pub mod Outcome
pub mod Bio
use se_ticketbox.Prelude.{
  ℕ, ◌*◌, Bool, true, false, not, ◌&&◌, ◌||◌, Option, none, some, List, [], ◌∷◌, ◌++◌, ltb, leb,
  ◌==◌, if◌then◌else◌,
}
use se_ticketbox.Prelude.Table.{Table, find}
use se_ticketbox.Prelude.Text.{Text, codes, text_eq, includes}
use se_ticketbox.Store.{
  Db, Role, Concert, bad_request, not_found, forbidden, internal_server_error, Result, ok, err,
  ◌>>=◌, ◌>>◌, or_fail, guard,
}
use se_ticketbox.TicketTypes.{may_manage}
use se_ticketbox.Guests.{FileStatus, pending}

-- `MulterFile`, without its content.
pub record MulterFile : Type 0 where
  pub original_name : Text
  pub mime_type : Text
  pub size : ℕ

pub data Purpose : Type 0 where
  guest_list_csv artist_press_kit : Purpose

-- A new row of `UploadedFile`.
pub record FileRow : Type 0 where
  pub concert_id : ℕ
  pub object_key : Text
  pub file_name : Text
  pub mime_type : Text
  pub purpose : Purpose
  pub status : FileStatus

-- The data of a job of either queue.
pub record UploadJob : Type 0 where
  pub concert_id : ℕ
  pub uploaded_file_id : ℕ
  pub object_key : Text

pub record Files : Type 0 where
  pub objects : List Text
  pub rows : Table FileRow
  pub csv_jobs : List UploadJob
  pub bio_jobs : List UploadJob

-- What a request meets and draws.
pub record Surroundings : Type 0 where
  pub storage_works : Bool
  pub queue_works : Bool
  pub file_id : ℕ
  pub uuid : Text
  pub show : ℕ → Text

-- `[\w.-]`.
unfoldable pub is_safe : ℕ → Bool
is_safe c =
    ((leb 48 c && leb c 57) || ((leb 65 c && leb c 90) || (leb 97 c && leb c 122)))
    || (c == 95 || (c == 46 || c == 45))

-- `replace(/[^\w.-]+/g, '_')`; the test tells whether a run of other characters has begun.
unfoldable pub safe_from : Bool → Text → Text
safe_from begun [] = []
safe_from begun (c ∷ s) =
    if is_safe c
    then c ∷ safe_from false s
    else if begun
    then safe_from true s
    else 95 ∷ safe_from true s

unfoldable pub safe_file_name : Text → Text
unfolding safe_from
safe_file_name s = safe_from false s

abbrev pub folder : Purpose → Text
folder guest_list_csv = codes "/guest-list/"
folder artist_press_kit = codes "/artist-bio/"

abbrev pub object_key_of : Surroundings → Purpose → ℕ → MulterFile → Text
object_key_of e purpose concert_id file =
    codes "concerts/"
    ++ (e.show concert_id
        ++ (folder purpose ++ (e.uuid ++ (codes "-" ++ safe_file_name file.original_name))))

abbrev pub is_accepted_type : Purpose → Text → Bool
is_accepted_type guest_list_csv t = includes (codes "csv") t || includes (codes "excel") t
is_accepted_type artist_press_kit t = text_eq t (codes "application/pdf")

abbrev pub max_size : Purpose → ℕ
max_size guest_list_csv = 5 * 1024 * 1024
max_size artist_press_kit = 10 * 1024 * 1024

abbrev pub add_job : Purpose → UploadJob → Files → Files
add_job guest_list_csv j f = record f { csv_jobs = f.csv_jobs ++ j ∷ [] }
add_job artist_press_kit j f = record f { bio_jobs = f.bio_jobs ++ j ∷ [] }

-- The guards of both uploads, in their order.
unfoldable pub check_upload : Purpose → ℕ → MulterFile → ℕ → Role → Db → Result (Unit {0})
check_upload purpose concert_id file user role db = do
  guard (is_accepted_type purpose file.mime_type) bad_request
  guard (leb file.size (max_size purpose)) bad_request
  concert ← or_fail (find concert_id db.concerts) not_found
  guard (may_manage user role concert) forbidden

-- The answer: the row's id, and the status.
abbrev pub Uploaded : Type 0
Uploaded = Result (ℕ × FileStatus) × Files

abbrev pub file_row : Purpose → ℕ → MulterFile → Text → FileRow
file_row purpose concert_id file key = record {
  concert_id = concert_id;
  object_key = key;
  file_name = file.original_name;
  mime_type = file.mime_type;
  purpose = purpose;
  status = pending;
}

abbrev pub job_on : ℕ → FileRow → UploadJob
job_on id row = record {
  concert_id = row.concert_id;
  uploaded_file_id = id;
  object_key = row.object_key;
}

abbrev pub store_row : ℕ → FileRow → Files → Files
store_row id row f = record f {
  objects = f.objects ++ row.object_key ∷ [];
  rows = f.rows ++ (id, row) ∷ [];
}

-- The storage, the row and the queue, each of which may fail.
abbrev pub store_upload :
    (storage_works queue_works : Bool) → Purpose → ℕ → FileRow → Files → Uploaded
store_upload false queue_works purpose id row f = (err internal_server_error, f)
store_upload true false purpose id row f = (err internal_server_error, store_row id row f)
store_upload true true purpose id row f =
    (ok (id, row.status), add_job purpose (job_on id row) (store_row id row f))

abbrev pub upload_checked :
    Surroundings → Purpose → ℕ → MulterFile → Files → Result (Unit {0}) → Uploaded
upload_checked e purpose concert_id file f (err x) = (err x, f)
upload_checked e purpose concert_id file f (ok u) =
    let row = file_row purpose concert_id file (object_key_of e purpose concert_id file) in
    store_upload e.storage_works e.queue_works purpose e.file_id row f

-- Both uploads, by the purpose.
unfoldable pub upload : Surroundings → Purpose → ℕ → MulterFile → ℕ → Role → Db → Files → Uploaded
unfolding check_upload safe_file_name
upload e purpose concert_id file user role db f =
    upload_checked e purpose concert_id file f (check_upload purpose concert_id file user role db)

-- `uploadGuestListCsv`.
abbrev pub upload_guest_list_csv : Surroundings → ℕ → MulterFile → ℕ → Role → Db → Files → Uploaded
upload_guest_list_csv e = upload e guest_list_csv

-- `uploadArtistPdf`.
abbrev pub upload_artist_pdf : Surroundings → ℕ → MulterFile → ℕ → Role → Db → Files → Uploaded
upload_artist_pdf e = upload e artist_press_kit

-- `getUploadStatus`.
unfoldable pub get_upload_status : ℕ → Files → Result FileRow
get_upload_status id f = or_fail (find id f.rows) not_found
