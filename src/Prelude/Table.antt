-- ===== src/Prelude/Table.antt =====
-- Tables keyed by numbers, as association lists: the rows of a database table or the keys of one
-- Redis prefix. A key occurs at most once (`Distinct`), which every operation keeps.
use se_ticketbox.Prelude.{
  ℕ, ◌+◌, ◌≤◌, ◌≡◌, refl, Option, none, some, List, [], ◌∷◌, arith, ◌==◌, if◌then◌else◌,
}

abbrev pub Table {ℓ} : Type ℓ → Type ℓ
Table A = List (ℕ × A)

abbrev pub opt {ℓ} : {A : Type ℓ} → (A → ℕ) → Option A → ℕ
opt f none = 0
opt f (some a) = f a

abbrev pub map_option {ℓ κ} : {A : Type ℓ} {B : Type κ} → (A → B) → Option A → Option B
map_option f none = none
map_option f (some a) = some (f a)

module _ {ℓ} {A : Type ℓ} where
  unfoldable pub find : ℕ → Table A → Option A
  find k [] = none
  find k ((j, v) ∷ m) = if j == k then some v else find k m

  -- Replace the row, or add it at the end.
  unfoldable pub put : ℕ → A → Table A → Table A
  put k v [] = (k, v) ∷ []
  put k v ((j, w) ∷ m) = if j == k then (k, v) ∷ m else (j, w) ∷ put k v m

  -- Change the row if it is there.
  unfoldable pub adjust : ℕ → (A → A) → Table A → Table A
  adjust k f [] = []
  adjust k f ((j, w) ∷ m) = if j == k then (j, f w) ∷ m else (j, w) ∷ adjust k f m

  unfoldable pub remove : ℕ → Table A → Table A
  remove k [] = []
  remove k ((j, w) ∷ m) = if j == k then m else (j, w) ∷ remove k m

  abbrev pub Distinct : Table A → Type ℓ
  Distinct [] = Unit
  Distinct ((k, v) ∷ m) = (find k m ≡ none) × Distinct m

  -- The sum of a number read off each row.
  unfoldable pub total : (A → ℕ) → Table A → ℕ
  total f [] = 0
  total f ((k, v) ∷ m) = f v + total f m

  pub find-put :
      (k j : ℕ) (v : A) (m : Table A) → find j (put k v m) ≡ (if k == j then some v else find j m)
  unfolding find put
  find-put k j v [] = refl
  find-put k j v ((i, w) ∷ m) = ground (arith, find-put k j v m)

  pub find-adjust :
      (k j : ℕ) (f : A → A) (m : Table A)
      → find j (adjust k f m) ≡ (if k == j then map_option f (find j m) else find j m)
  unfolding find adjust
  find-adjust k j f [] = ground arith
  find-adjust k j f ((i, w) ∷ m) = ground (arith, find-adjust k j f m)

  pub find-remove :
      (k j : ℕ) (m : Table A)
      → Distinct m
      → find j (remove k m) ≡ (if k == j then none else find j m)
  unfolding find remove
  find-remove k j [] d = ground arith
  find-remove k j ((i, w) ∷ m) d = ground (arith, find-remove k j m d.1)

  pub put-Distinct : (k : ℕ) (v : A) (m : Table A) → Distinct m → Distinct (put k v m)
  unfolding put find
  put-Distinct k v [] d = (refl, tt)
  put-Distinct k v ((i, w) ∷ m) d = ground (arith, put-Distinct k v m d.1, find-put k i v m)

  pub remove-Distinct : (k : ℕ) (m : Table A) → Distinct m → Distinct (remove k m)
  unfolding remove find
  remove-Distinct k [] d = tt
  remove-Distinct k ((i, w) ∷ m) d = ground (arith, remove-Distinct k m d.1, find-remove k i m d.1)

  pub adjust-Distinct : (k : ℕ) (f : A → A) (m : Table A) → Distinct m → Distinct (adjust k f m)
  unfolding adjust find
  adjust-Distinct k f [] d = tt
  adjust-Distinct k f ((i, w) ∷ m) d =
      ground (arith, adjust-Distinct k f m d.1, find-adjust k i f m)

  pub total-put :
      (f : A → ℕ) (k : ℕ) (v : A) (m : Table A)
      → total f (put k v m) + opt f (find k m) ≡ total f m + f v
  unfolding total put find
  total-put f k v [] = omega arith
  total-put f k v ((i, w) ∷ m) = ground (arith, total-put f k v m)

  pub total-remove :
      (f : A → ℕ) (k : ℕ) (m : Table A) → total f (remove k m) + opt f (find k m) ≡ total f m
  unfolding total remove find
  total-remove f k [] = refl
  total-remove f k ((i, w) ∷ m) = ground (arith, total-remove f k m)

  pub total-adjust :
      (f : A → ℕ) (k : ℕ) (g : A → A) (m : Table A)
      → total f (adjust k g m) + opt f (find k m) ≡ total f m + opt f (map_option g (find k m))
  unfolding total adjust find
  total-adjust f k g [] = refl
  total-adjust f k g ((i, w) ∷ m) = ground (arith, total-adjust f k g m)

  -- A row's share is part of the sum.
  pub find-le-total : (f : A → ℕ) (k : ℕ) (m : Table A) → opt f (find k m) ≤ total f m
  unfolding find total
  find-le-total f k [] = omega arith
  find-le-total f k ((i, w) ∷ m) = ground (arith, find-le-total f k m)

  pub total_mono : (f g : A → ℕ) (m : Table A) → ((a : A) → f a ≤ g a) → total f m ≤ total g m
  unfolding total
  total_mono f g [] h = omega arith
  total_mono f g ((i, w) ∷ m) h = omega (arith, h w, total_mono f g m h)
