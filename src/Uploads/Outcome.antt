-- ===== src/Uploads/Outcome.antt =====
-- Where an upload is stored and what it leaves (backend/src/modules/uploads/uploads.service.ts).
use se_ticketbox.Prelude.{
  ℕ, ◌≤◌, ◌≡◌, refl, ap, subst, Bool, true, false, ◌&&◌, Option, none, some, List, [], ◌∷◌, ◌++◌,
  if◌then◌else◌, arith, Option-cases, Bool-cases, inl, inr, ◌⊎◌,
}
use se_ticketbox.Prelude.Table.{find}
use se_ticketbox.Prelude.Text.{Text}
use se_ticketbox.Store.{Db, Role, Concert, internal_server_error, Result, ok, err}
use se_ticketbox.TicketTypes.{may_manage}
use se_ticketbox.Uploads.{
  MulterFile, UploadJob, Purpose, guest_list_csv, artist_press_kit, Files, Surroundings, Uploaded,
  is_safe, safe_from, safe_file_name, object_key_of, max_size, is_accepted_type, check_upload,
  upload, file_row, job_on, store_upload, upload_checked,
}

underscore-is_safe : is_safe 95 ≡ true
unfolding is_safe
underscore-is_safe = refl

unfoldable pub all_safe : Text → Bool
all_safe [] = true
all_safe (c ∷ s) = is_safe c && all_safe s

safe_from-all_safe : (b : Bool) (s : Text) → all_safe (safe_from b s) ≡ true
unfolding all_safe safe_from
safe_from-all_safe b [] = refl
safe_from-all_safe b (c ∷ s) = elim (Bool-cases (is_safe c)) [
  | inl e ↦ rw (e, e) (safe_from-all_safe false s)
  | inr e ↦ rw e (skipped b (safe_from-all_safe true s))
]
  where
    skipped :
        (b : Bool)
        → all_safe (safe_from true s) ≡ true
        → all_safe (if b then safe_from true s else 95 ∷ safe_from true s) ≡ true
    skipped true h = h
    skipped false h = rw underscore-is_safe h

safe_from_same : (b : Bool) (s : Text) → all_safe s ≡ true → safe_from b s ≡ s
unfolding all_safe safe_from
safe_from_same b [] h = refl
safe_from_same b (c ∷ s) h = elim (Bool-cases (is_safe c)) [
  | inl e ↦
      rw e (ap (λ t. c ∷ t) (safe_from_same false s (subst (λ x. x && all_safe s ≡ true) e h)))
  | inr e ↦ absurd (ground (arith, h, e))
]

-- A stored name has letters, digits, `_`, `.` and `-` only, in particular no slash, and a name of
-- these is kept, so that a name that was made safe is not changed again.
pub safe_file_name_lem :
    (s : Text)
    → (all_safe (safe_file_name s) ≡ true) × (safe_file_name (safe_file_name s) ≡ safe_file_name s)
unfolding safe_file_name
safe_file_name_lem s = (
  safe_from-all_safe false s,
  safe_from_same false (safe_from false s) (safe_from-all_safe false s),
)

abbrev is_managed : ℕ → Role → Option Concert → Bool
is_managed user role none = false
is_managed user role (some concert) = may_manage user role concert

abbrev pub jobs_of : Purpose → Files → List UploadJob
jobs_of guest_list_csv f = f.csv_jobs
jobs_of artist_press_kit f = f.bio_jobs

-- A request that may be served.
abbrev Allowed : Purpose → ℕ → MulterFile → ℕ → Role → Db → Type 0
Allowed purpose concert_id file user role db =
    (is_accepted_type purpose file.mime_type ≡ true)
    × (file.size ≤ max_size purpose)
    × (is_managed user role (find concert_id db.concerts) ≡ true)

abbrev AllowedIf : Purpose → ℕ → MulterFile → ℕ → Role → Db → Result (Unit {0}) → Type 0
AllowedIf purpose concert_id file user role db (ok u) = Allowed purpose concert_id file user role db
AllowedIf purpose concert_id file user role db (err e) = Unit

check_upload-AllowedIf :
    (purpose : Purpose) (concert_id : ℕ) (file : MulterFile) (user : ℕ) (role : Role) (db : Db)
    → AllowedIf purpose concert_id file user role db
        (check_upload purpose concert_id file user role db)
unfolding check_upload
check_upload-AllowedIf purpose concert_id file user role db =
    elim (Bool-cases (is_accepted_type purpose file.mime_type)) [
      | inr t ↦ ground (arith, t)
      | inl t ↦ elim (Option-cases (find concert_id db.concerts)) [
        | inl e ↦ ground (arith, t, e)
        | inr (c, e) ↦ elim (Bool-cases (may_manage user role c)) [
          | inl m ↦ ground (arith, t, e, m)
          | inr m ↦ ground (arith, t, e, m)
        ]
      ]
    ]

-- What an upload may leave: an answered one, the object, its row and one job for both; a refused one,
-- no job, and a change only where the storage or the queue failed.
abbrev pub UploadOutcome :
    Surroundings → Purpose → ℕ → MulterFile → ℕ → Role → Db → Files → Uploaded → Type 0
UploadOutcome e purpose concert_id file user role db f (err x, f') =
    (jobs_of purpose f' ≡ jobs_of purpose f) × ((f' ≡ f) ⊎ (x ≡ internal_server_error))
UploadOutcome e purpose concert_id file user role db f (ok (id, status), f') =
    let key = object_key_of e purpose concert_id file in
    let row = file_row purpose concert_id file key in
    Allowed purpose concert_id file user role db
    × (f'.objects ≡ f.objects ++ key ∷ [])
    × (f'.rows ≡ f.rows ++ (id, row) ∷ [])
    × (jobs_of purpose f' ≡ jobs_of purpose f ++ job_on id row ∷ [])

store_upload-UploadOutcome :
    (e : Surroundings) (purpose : Purpose) (concert_id : ℕ) (file : MulterFile) (user : ℕ)
    (role : Role) (db : Db) (f : Files) (storage_works queue_works : Bool)
    → Allowed purpose concert_id file user role db
    → let row = file_row purpose concert_id file (object_key_of e purpose concert_id file) in
      UploadOutcome e purpose concert_id file user role db f
        (store_upload storage_works queue_works purpose e.file_id row f)
store_upload-UploadOutcome e purpose c file user role db f false q a = (refl, inl refl)
store_upload-UploadOutcome e guest_list_csv c file user role db f true false a = (refl, inr refl)
store_upload-UploadOutcome e artist_press_kit c file user role db f true false a = (refl, inr refl)
store_upload-UploadOutcome e guest_list_csv c file user role db f true true a =
    (a, refl, refl, refl)
store_upload-UploadOutcome e artist_press_kit c file user role db f true true a =
    (a, refl, refl, refl)

-- An upload that is answered passed its checks and leaves its object, its row, waiting, and one job for
-- both; one that is refused leaves no job, and nothing at all unless the storage or the queue failed.
pub upload-UploadOutcome :
    (e : Surroundings) (purpose : Purpose) (concert_id : ℕ) (file : MulterFile) (user : ℕ)
    (role : Role) (db : Db) (f : Files)
    → UploadOutcome e purpose concert_id file user role db f
        (upload e purpose concert_id file user role db f)
unfolding upload
upload-UploadOutcome e purpose concert_id file user role db f =
    by_check (check_upload purpose concert_id file user role db)
      (check_upload-AllowedIf purpose concert_id file user role db)
  where
    by_check :
        (r : Result (Unit {0}))
        → AllowedIf purpose concert_id file user role db r
        → UploadOutcome e purpose concert_id file user role db f
            (upload_checked e purpose concert_id file f r)
    by_check (err x) h = (refl, inl refl)
    by_check (ok u) h =
        store_upload-UploadOutcome e purpose concert_id file user role db f e.storage_works
          e.queue_works h
