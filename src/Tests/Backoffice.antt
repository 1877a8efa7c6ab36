-- ===== src/Tests/Backoffice.antt =====
-- The theorems on the dashboard, uploads and biographies, at concrete data.
use se_ticketbox.Prelude.{◌≡◌, true, false, some, none, [], ◌∷◌}
use se_ticketbox.Prelude.Table.{find, total, opt}
use se_ticketbox.Prelude.Text.{Text, codes}
use se_ticketbox.Store.{Role}
use se_ticketbox.Guests.{pending}
use se_ticketbox.Dashboard.{get_dashboard_stats}
use se_ticketbox.Dashboard.Revenue.{earned, may_know, revenue_by_concert_scoped}
use se_ticketbox.Uploads.{MulterFile, Files, Surroundings, guest_list_csv, upload}
use se_ticketbox.Uploads.Outcome.{UploadOutcome, upload-UploadOutcome}
use se_ticketbox.Uploads.Bio.{Attempt, BioState, BioOutcome, run_attempts, run_attempts-BioOutcome}
use se_ticketbox.Tests.Data.{settled}

-- Another organizer's view of the one concert.
revenue_by_concert_scoped_example :
    let stats = get_dashboard_stats 2 Role.organizer settled.db in
    (opt (λ k. k) (find 4 stats.revenue_by_concert)
      ≡ may_know Role.organizer 2 (find 4 settled.db.concerts) (earned 4 settled.db.orders))
    × (stats.total_revenue ≡ total (λ k. k) stats.revenue_by_concert)
revenue_by_concert_scoped_example = revenue_by_concert_scoped 2 Role.organizer settled.db 4

abbrev surroundings : Surroundings
surroundings = record {
  storage_works = true;
  queue_works = true;
  file_id = 30;
  uuid = codes "u";
  show = λ n. n ∷ [];
}

abbrev guest_list : MulterFile
guest_list = record { original_name = codes "a b/c.csv"; mime_type = codes "text/csv"; size = 1000 }

abbrev no_files : Files
no_files = record { objects = []; rows = []; csv_jobs = []; bio_jobs = [] }

upload-UploadOutcome_example :
    UploadOutcome surroundings guest_list_csv 4 guest_list 1 Role.organizer settled.db no_files
      (upload surroundings guest_list_csv 4 guest_list 1 Role.organizer settled.db no_files)
upload-UploadOutcome_example =
    upload-UploadOutcome surroundings guest_list_csv 4 guest_list 1 Role.organizer settled.db
      no_files

abbrev press_kit : Text
press_kit = codes "A singer of many songs."

abbrev attempt : Attempt
attempt = record {
  downloaded = true;
  extracted = some press_kit;
  generated = λ text. some text;
  cache_works = true;
}

abbrev waiting_file : BioState
waiting_file = record {
  status = pending;
  error_message = none;
  artist_bio = none;
  cache = record { lists = λ k. none; details = λ c. none };
}

-- The first two attempts fail.
run_attempts-BioOutcome_example : BioOutcome waiting_file (
    run_attempts 4 0
      (record attempt { downloaded = false } ∷ record attempt { extracted = none } ∷ attempt ∷ [])
      waiting_file)
run_attempts-BioOutcome_example =
    run_attempts-BioOutcome 4 (record attempt { downloaded = false })
      (record attempt { extracted = none }) attempt waiting_file
