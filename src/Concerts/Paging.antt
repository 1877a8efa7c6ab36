-- ===== src/Concerts/Paging.antt =====
-- The pages of a list of concerts (backend/src/modules/concert/concert.service.ts).
use se_ticketbox.Prelude.{
  ℕ, zero, suc, ◌+◌, ◌-◌, ◌*◌, ◌≤◌, ◌<◌, ◌≡◌, refl, ap, ◌∙◌, some, List, [], ◌∷◌, ◌++◌, length,
  take, arith, Bool, true, false, not, ◌&&◌, ◌==◌,
}
use se_ticketbox.Prelude.Table.{Table}
use se_ticketbox.Store.{Db, Concert}
use se_ticketbox.Concerts.{
  Ties, insert_by_start, ConcertQuery, status_of, same_concert_status, drop, total_pages,
  select_concerts, query_concerts,
}

module _ {ℓ} {A : Type ℓ} where
  take-drop : (a b n : ℕ) (xs : List A) → a + b ≡ n → take a xs ++ take b (drop a xs) ≡ take n xs
  take-drop zero b n xs h = ap (λ m. take m xs) (omega (arith, h))
  take-drop (suc a) b zero xs h = absurd (omega (arith, h))
  take-drop (suc a) zero (suc n) [] h = refl
  take-drop (suc a) (suc b) (suc n) [] h = refl
  take-drop (suc a) b (suc n) (x ∷ xs) h = ap (λ ys. x ∷ ys) (take-drop a b n xs (omega (arith, h)))

  pub take_all : (n : ℕ) (xs : List A) → length xs ≤ n → take n xs ≡ xs
  take_all zero [] h = refl
  take_all zero (x ∷ xs) h = ground arith
  take_all (suc n) [] h = refl
  take_all (suc n) (x ∷ xs) h = ap (λ ys. x ∷ ys) (take_all n xs (omega (arith, h)))

abbrev pub selected : Ties → ConcertQuery → Db → Table Concert
selected ties q db =
    select_concerts ties (λ x. same_concert_status x.status (status_of q)) db.concerts

-- No concert starts at the time.
unfoldable pub none_starts : ℕ → Table Concert → Bool
none_starts at [] = true
none_starts at ((j, y) ∷ m) = not (at == y.starts_at) && none_starts at m

-- No two concerts with the condition start at the same time.
abbrev pub StartsDiffer : (Concert → Bool) → Table Concert → Type 0
StartsDiffer p [] = Unit
StartsDiffer p ((id, x) ∷ m) =
    ((p x && not (none_starts x.starts_at (select_concerts (λ i j. true) p m))) ≡ false)
    × StartsDiffer p m

insert_by_start-ties :
    (s t : Ties) (id : ℕ) (x : Concert) (m : Table Concert)
    → none_starts x.starts_at m ≡ true
    → insert_by_start s id x m ≡ insert_by_start t id x m
unfolding insert_by_start none_starts
insert_by_start-ties s t id x [] h = refl
insert_by_start-ties s t id x ((j, y) ∷ m) h = ground (arith, h, insert_by_start-ties s t id x m)

-- Where the starts differ, the rows have one order.
select_concerts-ties :
    (s t : Ties) (p : Concert → Bool) (m : Table Concert)
    → StartsDiffer p m
    → select_concerts s p m ≡ select_concerts t p m
unfolding select_concerts
select_concerts-ties s t p [] h = refl
select_concerts-ties s t p ((id, x) ∷ m) (here, rest) =
    let same = select_concerts-ties s t p m rest in
    let first = select_concerts-ties t (λ i j. true) p m rest in
    let both = insert_by_start-ties s t id x (select_concerts t p m) in
    ground (arith, here, same, first, both)

-- The concerts of the first `n` pages, page by page, each with the order of ties of its query.
unfoldable pub first_pages : (ℕ → Ties) → ConcertQuery → ℕ → ℕ → Db → Table Concert
unfolding query_concerts
first_pages ties q limit zero db = []
first_pages ties q limit (suc n) db =
    first_pages ties q limit n db
    ++ (query_concerts (ties (suc n)) (record q { page = some (suc n); limit = some limit })
        db).concerts

first_pages-take :
    (ties : ℕ → Ties) (q : ConcertQuery) (limit n : ℕ) (db : Db)
    → StartsDiffer (λ x. same_concert_status x.status (status_of q)) db.concerts
    → first_pages ties q limit n db ≡ take (n * limit) (selected (ties 0) q db)
unfolding first_pages query_concerts
first_pages-take ties q limit zero db h =
    let none_left : 0 ≡ 0 * limit = omega arith in
    ap (λ m. take m (selected (ties 0) q db)) none_left
first_pages-take ties q limit (suc n) db h =
    let p : Concert → Bool = λ x. same_concert_status x.status (status_of q) in
    let rows = selected (ties 0) q db in
    let here = suc n - 1 in
    let same : here ≡ n = omega arith in
    let order = select_concerts-ties (ties (suc n)) (ties 0) p db.concerts h in
    ap (λ ys. ys ++ take limit (drop (here * limit) (selected (ties (suc n)) q db)))
      (first_pages-take ties q limit n db h)
    ∙ ap (λ zs. take (n * limit) rows ++ take limit (drop (here * limit) zs)) order
    ∙ ap (λ m. take (n * limit) rows ++ take limit (drop (m * limit) rows)) same
    ∙ take-drop (n * limit) limit (suc n * limit) rows (omega arith)

pages_enough : (total limit : ℕ) → 0 < limit → total ≤ total_pages total limit * limit
pages_enough total limit h = omega arith

-- Where no two of the selected concerts start at the same time, the pages up to `totalPages`, in their
-- order, give every concert that the query selects, each as often as it is selected, in the order of
-- their starts, for every page size but 0, however each of the queries orders ties.
pub pages_cover :
    (ties : ℕ → Ties) (q : ConcertQuery) (limit : ℕ) (db : Db)
    → 0 < limit
    → StartsDiffer (λ x. same_concert_status x.status (status_of q)) db.concerts
    → first_pages ties q limit
        (query_concerts (ties 0) (record q { limit = some limit }) db).total_pages
        db
      ≡ selected (ties 0) q db
unfolding query_concerts
pages_cover ties q limit db h differ =
    let rows = selected (ties 0) q db in
    let n = total_pages (length rows) limit in
    first_pages-take ties q limit n db differ
    ∙ take_all (n * limit) rows (pages_enough (length rows) limit h)
