-- ===== src/Guests/Csv.antt =====
-- The rows of a guest list's CSV file: backend/src/worker/services/csv-parse.service.ts. The library
-- csv-parse turns the file into rows of columns; a column that is missing counts as an empty one.
use se_ticketbox.Prelude.{
  ℕ, ◌+◌, Bool, true, false, not, ◌&&◌, ◌||◌, Option, none, some, List, [], ◌∷◌, ◌++◌, length, leb,
  ◌==◌, if◌then◌else◌,
}
use se_ticketbox.Prelude.Text.{Text, text_eq, is_empty}
use se_ticketbox.Scanner.Parse.{is_space, trim}

-- `RawCsvRow`.
pub record RawCsvRow : Type 0 where
  pub full_name : Text
  pub name : Text
  pub email : Text
  pub phone : Text
  pub sponsor_name : Text
  pub sponsor : Text

-- `CsvRowResult`.
pub record CsvRow : Type 0 where
  pub full_name : Text
  pub email : Option Text
  pub phone : Option Text
  pub sponsor_name : Option Text

-- The messages, with the line in the file; `already_listed` is the importer's.
pub data CsvError : Type 0 where
  missing_name : (line : ℕ) → CsvError
  malformed_email repeated_email : (line : ℕ) (email : Text) → CsvError
  malformed_phone repeated_phone : (line : ℕ) (phone : Text) → CsvError
  already_listed : (email : Text) → CsvError

-- `a || b` and `a || null` on texts.
abbrev pub or_else : Text → Text → Text
or_else a b = if is_empty a then b else a

abbrev pub or_null : Text → Option Text
or_null a = if is_empty a then none else some a

unfoldable pub has : Text → List Text → Bool
has x [] = false
has x (y ∷ ys) = text_eq y x || has x ys

unfoldable pub all_chars : (ℕ → Bool) → Text → Bool
all_chars p [] = true
all_chars p (c ∷ s) = p c && all_chars p s

-- `[^\s@]`.
abbrev pub is_email_char : ℕ → Bool
is_email_char c = not (is_space c) && not (c == 64)

-- `[^\s@]+\.[^\s@]+$` where a first character has been read: a dot with a character behind it.
unfoldable pub is_domain_rest : Text → Bool
unfolding all_chars
is_domain_rest [] = false
is_domain_rest (c ∷ s) =
    (c == 46 && (not (is_empty s) && all_chars is_email_char s))
    || (is_email_char c && is_domain_rest s)

unfoldable pub is_domain : Text → Bool
unfolding is_domain_rest
is_domain [] = false
is_domain (c ∷ s) = is_email_char c && is_domain_rest s

-- `[^\s@]*@` and the domain.
unfoldable pub is_email_rest : Text → Bool
unfolding is_domain
is_email_rest [] = false
is_email_rest (c ∷ s) = if c == 64 then is_domain s else is_email_char c && is_email_rest s

-- `emailRegex`.
unfoldable pub is_email : Text → Bool
unfolding is_email_rest
is_email [] = false
is_email (c ∷ s) = is_email_char c && is_email_rest s

-- `phoneRegex`.
unfoldable pub is_phone : Text → Bool
unfolding all_chars
is_phone s = all_chars (λ c. leb 48 c && leb c 57) s && (length s == 10 || length s == 11)

unfoldable pub check_email : ℕ → Option Text → List Text → List CsvError
unfolding is_email has
check_email line none seen = []
check_email line (some email) seen =
    if not (is_email email)
    then malformed_email line email ∷ []
    else if has email seen
    then repeated_email line email ∷ []
    else []

unfoldable pub check_phone : ℕ → Option Text → List Text → List CsvError
unfolding is_phone has
check_phone line none seen = []
check_phone line (some phone) seen =
    if not (is_phone phone)
    then malformed_phone line phone ∷ []
    else if has phone seen
    then repeated_phone line phone ∷ []
    else []

-- `add` to a set, where there is something to add.
abbrev pub see : Option Text → List Text → List Text
see none seen = seen
see (some x) seen = x ∷ seen

abbrev pub csv_row : RawCsvRow → CsvRow
csv_row r = record {
  full_name = or_else r.full_name r.name;
  email = or_null (trim r.email);
  phone = or_null (trim r.phone);
  sponsor_name = or_null (or_else r.sponsor_name r.sponsor);
}

-- The loop of `parseBuffer`, from a line on, with the emails and phones that have been seen: a row
-- with a wrong email or phone is reported and kept.
unfoldable pub parse_rows :
    ℕ → (emails phones : List Text) → List RawCsvRow → List CsvRow × List CsvError
unfolding check_email check_phone
parse_rows line emails phones [] = ([], [])
parse_rows line emails phones (raw ∷ rows) =
    let row = csv_row raw in
    let unnamed = is_empty row.full_name in
    let emails' = if unnamed then emails else see row.email emails in
    let phones' = if unnamed then phones else see row.phone phones in
    let (kept, errors) = parse_rows (line + 1) emails' phones' rows in
    if unnamed then (kept, missing_name line ∷ errors) else (
      row ∷ kept,
      check_email line row.email emails ++ (check_phone line row.phone phones ++ errors),
    )

-- `parseBuffer`.
unfoldable pub parse_buffer : List RawCsvRow → List CsvRow × List CsvError
unfolding parse_rows
parse_buffer rows = parse_rows 2 [] [] rows
