-- ===== src/Uploads/Bio.antt =====
-- The worker that writes an artist's biography: backend/src/worker/processors/ai-bio.processor.ts. The
-- texts that the PDF reader and the language model give are parameters, and the job's three attempts
-- are those that uploads.service.ts asks for. Lengths are counted in code points.
use se_ticketbox.Prelude.{
  ℕ, ◌+◌, ◌≡◌, ◌⊎◌, inl, inr, refl, Bool, true, false, Option, none, some, List, [], ◌∷◌, length,
  ltb, leb, if◌then◌else◌, arith, take, Option-cases,
}
use se_ticketbox.Prelude.Text.{Text}
use se_ticketbox.Scanner.Parse.{trim}
use se_ticketbox.Guests.{FileStatus, processing, completed, failed}
use se_ticketbox.Concerts.{ConcertCache, invalidate_cache}

pub data BioError : Type 0 where
  download_failed parser_failed pdf_text_extraction_failed : BioError
  generation_failed ai_bio_empty cache_unreachable : BioError

-- What one attempt meets.
pub record Attempt : Type 0 where
  pub downloaded : Bool
  pub extracted : Option Text
  pub generated : Text → Option Text
  pub cache_works : Bool

-- The file's row, the concert's biography and the cache.
pub record BioState : Type 0 where
  pub status : FileStatus
  pub error_message : Option BioError
  pub artist_bio : Option Text
  pub cache : ConcertCache

pub data Written : Type 0 where
  written : Text → Written
  stopped : BioError → Written

abbrev pub take_bio : Option Text → Written
take_bio none = stopped generation_failed
take_bio (some bio) = if ltb (length (trim bio)) 20 then stopped ai_bio_empty else written bio

abbrev pub bio_of : (Text → Option Text) → Option Text → Written
bio_of generate none = stopped parser_failed
bio_of generate (some text) =
    if ltb (length text) 20
    then stopped pdf_text_extraction_failed
    else take_bio (generate (take 8000 text))

-- The steps before the transaction.
unfoldable pub write_bio : Attempt → Written
unfolding trim
write_bio a = if a.downloaded then bio_of a.generated a.extracted else stopped download_failed

-- The `catch`: only the last attempt marks the file.
abbrev pub catch_error : Bool → BioError → BioState → Bool × BioState
catch_error is_final_attempt e s =
    (false, if is_final_attempt then record s { status = failed; error_message = some e } else s)

-- The transaction, and then the cache.
abbrev pub finish_bio : ℕ → Bool → Bool → Written → BioState → Bool × BioState
finish_bio concert_id is_final_attempt cache_works (stopped e) s = catch_error is_final_attempt e s
finish_bio concert_id is_final_attempt cache_works (written bio) s =
    let s' = record s { artist_bio = some bio; status = completed; error_message = none } in
    if cache_works
    then (true, record s' { cache = invalidate_cache concert_id s.cache })
    else catch_error is_final_attempt cache_unreachable s'

-- `process`; the test tells whether the attempt goes through.
unfoldable pub process_bio : ℕ → Bool → Attempt → BioState → Bool × BioState
unfolding write_bio
process_bio concert_id is_final_attempt a s =
    finish_bio concert_id is_final_attempt a.cache_works (write_bio a)
      (record s { status = processing; error_message = none })

-- The attempts of a job, of which `made` have been made: the queue goes on until one goes through.
unfoldable pub run_attempts : ℕ → ℕ → List Attempt → BioState → BioState
unfolding process_bio
run_attempts concert_id made [] s = s
run_attempts concert_id made (a ∷ as') s =
    let (through, s') = process_bio concert_id (leb 3 (made + 1)) a s in
    let rest = run_attempts concert_id (made + 1) as' s' in if through then s' else rest

abbrev pub is_long : Option Text → Bool
is_long none = false
is_long (some bio) = leb 20 (length (trim bio))

-- The biography is the old one or a new one of some length.
abbrev Kept : Option Text → BioState → Type 0
Kept old s = (s.artist_bio ≡ old) ⊎ (is_long s.artist_bio ≡ true)

abbrev has_error : Option BioError → Bool
has_error none = false
has_error (some e) = true

-- How a job may end.
abbrev Ends : Option Text → BioState → FileStatus → Type 0
Ends old s completed = (is_long s.artist_bio ≡ true) × (s.error_message ≡ none)
Ends old s failed = (has_error s.error_message ≡ true) × Kept old s
Ends old s _ = ⊥

abbrev pub BioOutcome : BioState → BioState → Type 0
BioOutcome before s = Ends before.artist_bio s s.status

abbrev Found : Written → Type 0
Found (stopped e) = Unit
Found (written bio) = is_long (some bio) ≡ true

take_bio-Found : (o : Option Text) → Found (take_bio o)
take_bio-Found none = tt
take_bio-Found (some bio) = ground arith

write_bio-Found : (a : Attempt) → Found (write_bio a)
unfolding write_bio
write_bio-Found a = elim (Option-cases a.extracted) [
  | inl e ↦ ground (arith, e)
  | inr (t, e) ↦ ground (arith, e, take_bio-Found (a.generated (take 8000 t)))
]

-- What an attempt leaves, by what it wrote.
abbrev Attempted : Option Text → Bool → Bool × BioState → Type 0
Attempted old last (true, s) =
    (s.status ≡ completed) × (is_long s.artist_bio ≡ true) × (s.error_message ≡ none)
Attempted old true (false, s) =
    (s.status ≡ failed) × (has_error s.error_message ≡ true) × Kept old s
Attempted old false (false, s) = Kept old s

finish_bio-Attempted :
    (c : ℕ) (last works : Bool) (w : Written) (old : Option Text) (s : BioState)
    → Found w
    → s.error_message ≡ none
    → Kept old s
    → Attempted old last (finish_bio c last works w s)
finish_bio-Attempted c true works (stopped e) old s f n k = (refl, refl, k)
finish_bio-Attempted c false works (stopped e) old s f n k = k
finish_bio-Attempted c last true (written bio) old s f n k = (refl, f, refl)
finish_bio-Attempted c true false (written bio) old s f n k = (refl, refl, inr f)
finish_bio-Attempted c false false (written bio) old s f n k = inr f

process_bio-Attempted :
    (c : ℕ) (last : Bool) (a : Attempt) (old : Option Text) (s : BioState)
    → Kept old s
    → Attempted old last (process_bio c last a s)
unfolding process_bio
process_bio-Attempted c last a old s k =
    finish_bio-Attempted c last a.cache_works (write_bio a) old
      (record s { status = processing; error_message = none }) (write_bio-Found a) refl k

completed-Ends :
    (old : Option Text) (s : BioState) → Attempted old false (true, s) → Ends old s s.status
completed-Ends old s h = rw h.0 (h.1, h.2)

last-Ends :
    (old : Option Text) (r : Bool × BioState) → Attempted old true r → Ends old r.1 r.1.status
last-Ends old (true, s) h = completed-Ends old s h
last-Ends old (false, s) h = rw h.0 (h.1, h.2)

go_on-Ends :
    (old : Option Text) (r : Bool × BioState) (rest : BioState)
    → Attempted old false r
    → (Kept old r.1 → Ends old rest rest.status)
    → let s = if r.0 then r.1 else rest in Ends old s s.status
go_on-Ends old (true, s) rest h next = completed-Ends old s h
go_on-Ends old (false, s) rest h next = next h

-- The job of a press kit always ends after its three attempts, whatever each of them meets: with a
-- biography of 20 characters or more, no error and the file completed, or with the file failed, an
-- error, and the old biography or a new one of such length.
pub run_attempts-BioOutcome :
    (concert_id : ℕ) (a b c : Attempt) (s : BioState)
    → BioOutcome s (run_attempts concert_id 0 (a ∷ b ∷ c ∷ []) s)
unfolding run_attempts
run_attempts-BioOutcome i a b c s =
    let old = s.artist_bio in
    let first = process_bio i false a s in
    let second = process_bio i false b first.1 in
    let third = process_bio i true c second.1 in
    go_on-Ends old first (run_attempts i 1 (b ∷ c ∷ []) first.1)
      (process_bio-Attempted i false a old s (inl refl))
      (λ k.
        go_on-Ends old second (run_attempts i 2 (c ∷ []) second.1)
          (process_bio-Attempted i false b old first.1 k)
          (λ k'.
            either third (last-Ends old third (process_bio-Attempted i true c old second.1 k'))))
  where
    either :
        (r : Bool × BioState)
        → Ends s.artist_bio r.1 r.1.status
        → let s' = if r.0 then r.1 else r.1 in Ends s.artist_bio s' s'.status
    either (true, s') h = h
    either (false, s') h = h
