-- ===== src/Mailing/Batches.antt =====
-- The loop over the ticket holders of a concert
-- (backend/src/worker/processors/notification.processor.ts).
use mathlib.Core.List.{append-nil}
use se_ticketbox.Prelude.{
  ℕ, zero, suc, ◌+◌, ◌-◌, ◌*◌, ◌≤◌, ◌≡◌, refl, ap, ◌∙◌, sym, Bool, true, false, not, ◌&&◌, ◌||◌,
  Option, none, some, List, [], ◌∷◌, ◌++◌, ◌==◌, if◌then◌else◌, length, take, map, arith,
}
use se_ticketbox.Prelude.Table.{find, Distinct}
use se_ticketbox.Store.{Db, Concert, Ticket}
use se_ticketbox.Accounts.{Users}
use se_ticketbox.Concerts.{drop}
use se_ticketbox.Mailing.{
  Recipient, Mail, Progress, after, behind, find_batch, last_id, remind, remind_all, remind_loop,
  batch_size, Reply, reminded, skipped_missing, skipped_cancelled, concert_reminder, is_cancelled,
  recipients, nothing_sent, handle_concert_reminder,
}

unfoldable pub has_id : ℕ → List Recipient → Bool
has_id id [] = false
has_id id (r ∷ rs) = r.id == id || has_id id rs

-- No id occurs twice.
unfoldable pub distinct_ids : List Recipient → Bool
unfolding has_id
distinct_ids [] = true
distinct_ids (r ∷ rs) = not (has_id r.id rs) && distinct_ids rs

append_assoc : (xs ys zs : List Recipient) → (xs ++ ys) ++ zs ≡ xs ++ (ys ++ zs)
append_assoc [] ys zs = refl
append_assoc (x ∷ xs) ys zs = ap (λ vs. x ∷ vs) (append_assoc xs ys zs)

take-append-drop : (n : ℕ) (xs : List Recipient) → take n xs ++ drop n xs ≡ xs
take-append-drop zero xs = refl
take-append-drop (suc n) [] = refl
take-append-drop (suc n) (x ∷ xs) = ap (λ vs. x ∷ vs) (take-append-drop n xs)

length-drop : (n : ℕ) (xs : List Recipient) → length (drop n xs) ≡ length xs - n
length-drop zero xs = omega arith
length-drop (suc n) [] = omega arith
length-drop (suc n) (x ∷ xs) = ground (arith, length-drop n xs)

last_id-append :
    (xs : List Recipient) (y : Recipient) (ys : List Recipient)
    → last_id (xs ++ (y ∷ ys)) ≡ last_id (y ∷ ys)
unfolding last_id
last_id-append [] y ys = refl
last_id-append (x ∷ []) y ys = refl
last_id-append (x ∷ w ∷ xs) y ys = last_id-append (w ∷ xs) y ys

abbrev LastIsThere : Option ℕ → List Recipient → Type 0
LastIsThere none rows = ⊥
LastIsThere (some c) rows = has_id c rows ≡ true

last_id-LastIsThere :
    (r : Recipient) (rs rest : List Recipient) → LastIsThere (last_id (r ∷ rs)) ((r ∷ rs) ++ rest)
unfolding last_id has_id
last_id-LastIsThere r [] rest = ground arith
last_id-LastIsThere r (s ∷ rs) rest = there (last_id (s ∷ rs)) (last_id-LastIsThere s rs rest)
  where
    there : (c : Option ℕ) → LastIsThere c ((s ∷ rs) ++ rest) → LastIsThere c ((r ∷ s ∷ rs) ++ rest)
    there none h = h
    there (some c) h = ground (arith, h)

-- Behind the last of the first rows are the others.
behind-last_id :
    (pre rest : List Recipient)
    → distinct_ids (pre ++ rest) ≡ true
    → behind (last_id pre) (pre ++ rest) ≡ rest
unfolding last_id distinct_ids after has_id
behind-last_id [] rest d = refl
behind-last_id (r ∷ []) rest d = ground arith
behind-last_id (r ∷ s ∷ pre) rest d =
    skip (last_id (s ∷ pre)) (last_id-LastIsThere s pre rest)
      (behind-last_id (s ∷ pre) rest (ground (arith, d)))
  where
    skip :
        (c : Option ℕ)
        → LastIsThere c ((s ∷ pre) ++ rest)
        → behind c ((s ∷ pre) ++ rest) ≡ rest
        → behind c ((r ∷ s ∷ pre) ++ rest) ≡ rest
    skip none l h = absurd l
    skip (some c) l h = ground (arith, d, l, h)

remind_all-append :
    (delivers : Mail → Bool) (xs ys : List Recipient) (p : Progress)
    → remind_all delivers (xs ++ ys) p ≡ remind_all delivers ys (remind_all delivers xs p)
unfolding remind_all
remind_all-append delivers [] ys p = refl
remind_all-append delivers (x ∷ xs) ys p = remind_all-append delivers xs ys (remind delivers x p)

loop_ends :
    (f : ℕ) (delivers : Mail → Bool) (rows : List Recipient) (c : Option ℕ) (p : Progress)
    → find_batch c rows ≡ []
    → remind_loop (suc f) delivers rows c p ≡ some p
unfolding remind_loop
loop_ends f delivers rows c p h = ground (arith, h)

loop_goes_on :
    (f : ℕ) (delivers : Mail → Bool) (rows : List Recipient) (c : Option ℕ) (p : Progress)
    (u : Recipient) (us : List Recipient)
    → find_batch c rows ≡ u ∷ us
    → remind_loop (suc f) delivers rows c p
      ≡ remind_loop f delivers rows (last_id (u ∷ us)) (remind_all delivers (u ∷ us) p)
unfolding remind_loop
loop_goes_on f delivers rows c p u us h = ground (arith, h)

-- From any batch on, the loop mails the rows that are left.
remind_loop_rest :
    (n : ℕ) (delivers : Mail → Bool) (rows pre rest : List Recipient) (p : Progress)
    → pre ++ rest ≡ rows
    → distinct_ids rows ≡ true
    → length rest ≤ n * batch_size
    → remind_loop (suc n) delivers rows (last_id pre) p ≡ some (remind_all delivers rest p)
unfolding find_batch remind_all
remind_loop_rest n delivers rows pre [] p e d h =
    loop_ends n delivers rows (last_id pre) p
      (rw (← e) (ap (take batch_size) (behind-last_id pre [] (ground (arith, e, d)))))
remind_loop_rest zero delivers rows pre (r ∷ rest) p e d h = absurd (omega arith)
remind_loop_rest (suc n) delivers rows pre (r ∷ rest) p e d h =
    let b = take 99 rest in
    let left = drop 99 rest in
    let batch : find_batch (last_id pre) rows ≡ r ∷ b =
      rw (← e) (ap (take batch_size) (behind-last_id pre (r ∷ rest) (ground (arith, e, d)))) in
    let split : (pre ++ (r ∷ b)) ++ left ≡ rows =
      append_assoc pre (r ∷ b) left ∙ ap (λ xs. pre ++ (r ∷ xs)) (take-append-drop 99 rest) ∙ e in
    let ih =
      remind_loop_rest n delivers rows (pre ++ (r ∷ b)) left (remind_all delivers (r ∷ b) p) split d
        (omega (arith, h, length-drop 99 rest)) in
    loop_goes_on (suc n) delivers rows (last_id pre) p r b batch
    ∙ ap (λ c. remind_loop (suc n) delivers rows c (remind_all delivers (r ∷ b) p))
        (sym (last_id-append pre r b))
    ∙ ih
    ∙ ap some (
        sym (remind_all-append delivers (r ∷ b) left p)
        ∙ ap (λ xs. remind_all delivers (r ∷ xs) p) (take-append-drop 99 rest))

-- The reminder of a row, and how many of the reminders go out.
abbrev pub reminder_of : Recipient → Mail
reminder_of r = concert_reminder r.email r.ticket_count

unfoldable pub count_delivered : (Mail → Bool) → List Recipient → ℕ
count_delivered delivers [] = 0
count_delivered delivers (r ∷ rs) =
    let n = count_delivered delivers rs in if delivers (reminder_of r) then suc n else n

mails_append : (ms : List Mail) (m : Mail) (ns : List Mail) → (ms ++ m ∷ []) ++ ns ≡ ms ++ (m ∷ ns)
mails_append [] m ns = refl
mails_append (x ∷ ms) m ns = ap (λ vs. x ∷ vs) (mails_append ms m ns)

-- What a round leaves: each row's reminder, in their order, and its counts.
remind_all_lem :
    (delivers : Mail → Bool) (rs : List Recipient) (p : Progress)
    → let q = remind_all delivers rs p in
      (q.mails ≡ p.mails ++ map reminder_of rs)
      × (q.total_sent ≡ p.total_sent + count_delivered delivers rs)
      × (q.total_sent + q.total_skipped ≡ (p.total_sent + p.total_skipped) + length rs)
unfolding remind_all count_delivered
remind_all_lem delivers [] p = (sym (append-nil p.mails), omega arith, omega arith)
remind_all_lem delivers (r ∷ rs) p = ground (
  arith,
  remind_all_lem delivers rs (remind delivers r p),
  mails_append p.mails (reminder_of r) (map reminder_of rs),
)

length-recipients :
    (c : ℕ) (ts : List Ticket) (us : Users) → length (recipients c ts us) ≤ length us
unfolding recipients
length-recipients c ts [] = omega arith
length-recipients c ts ((id, u) ∷ us) = ground (arith, length-recipients c ts us)

has_id-recipients :
    (id c : ℕ) (ts : List Ticket) (us : Users)
    → find id us ≡ none
    → has_id id (recipients c ts us) ≡ false
unfolding recipients has_id find
has_id-recipients id c ts [] h = refl
has_id-recipients id c ts ((j, u) ∷ us) h = ground (arith, h, has_id-recipients id c ts us)

distinct_ids-recipients :
    (c : ℕ) (ts : List Ticket) (us : Users) → Distinct us → distinct_ids (recipients c ts us) ≡ true
unfolding recipients distinct_ids
distinct_ids-recipients c ts [] d = refl
distinct_ids-recipients c ts ((j, u) ∷ us) d =
    ground (arith, has_id-recipients j c ts us d.0, distinct_ids-recipients c ts us d.1)

-- What the job does, without batches: one reminder to each holder of a valid ticket, in the order of
-- the users, whatever becomes of the others.
abbrev pub reminded_once : (Mail → Bool) → List Recipient → Reply × List Mail
reminded_once delivers rs =
    let sent = count_delivered delivers rs in (reminded sent (length rs - sent), map reminder_of rs)

abbrev pub reminders : (Mail → Bool) → List Recipient → Option Concert → Reply × List Mail
reminders delivers rs none = (skipped_missing, [])
reminders delivers rs (some concert) =
    if is_cancelled concert.status then (skipped_cancelled, []) else reminded_once delivers rs

-- The reminder job ends, after at most one round more than it takes to see all users in batches of
-- 100, and has then asked once for each reminder of a user with a valid ticket, in the order of the
-- users, and for no other; a concert that is not there or cancelled gets none.
pub handle_concert_reminder_ends :
    (n : ℕ) (delivers : Mail → Bool) (concert_id : ℕ) (db : Db) (us : Users)
    → Distinct us
    → length us ≤ n * 100
    → handle_concert_reminder (suc n) delivers concert_id db us
      ≡ some
          (reminders delivers (recipients concert_id db.tickets us) (find concert_id db.concerts))
unfolding handle_concert_reminder last_id
handle_concert_reminder_ends n delivers concert_id db us d h =
    let rs = recipients concert_id db.tickets us in
    ground (
      arith,
      remind_loop_rest n delivers rs [] rs nothing_sent refl
          (distinct_ids-recipients concert_id db.tickets us d)
          (omega (arith, h, length-recipients concert_id db.tickets us)),
      remind_all_lem delivers rs nothing_sent,
    )
