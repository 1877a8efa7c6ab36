-- ===== src/Gate/Least.antt =====
-- What `findLeastLoadedGate` of backend/src/modules/payment/payment.service.ts finds.
use se_ticketbox.Prelude.{
  ℕ, ◌≤◌, ◌≡◌, refl, sym, ap, subst, ◌⊎◌, inl, inr, Option, none, some, List, [], ◌∷◌, arith, ltb,
  if◌then◌else◌, Bool-cases, All,
}
use se_ticketbox.Store.{Db, Gate}
use se_ticketbox.Gate.Load.{load, gates_of, least_loaded, pick, find_least_loaded_gate}

abbrev pub In : Gate → List Gate → Type 0
In g [] = ⊥
In g (h ∷ gs) = (g ≡ h) ⊎ In g gs

least_loaded_lem :
    (count : Gate → ℕ) (best : Gate) (gs : List Gate)
    → (count (least_loaded count best gs) ≤ count best)
      × All (λ g. count (least_loaded count best gs) ≤ count g) gs
unfolding least_loaded
least_loaded_lem count best [] = (omega arith, tt)
least_loaded_lem count best (g ∷ gs) = elim (Bool-cases (ltb (count g) (count best))) [
  | inl y ↦
      let e = ap (λ b. least_loaded count (if b then g else best) gs) y in
      let (a, b) = least_loaded_lem count g gs in
      (
        ground (arith, a, y, ap count e),
        subst (λ x. All (λ h. count x ≤ count h) (g ∷ gs)) (sym e) (a, b),
      )
  | inr y ↦
      let e = ap (λ b. least_loaded count (if b then g else best) gs) y in
      let (a, b) = least_loaded_lem count best gs in
      (
        ground (arith, a, ap count e),
        subst (λ x. All (λ h. count x ≤ count h) (g ∷ gs)) (sym e) (ground (arith, a, y), b),
      )
]

least_loaded-In :
    (count : Gate → ℕ) (best : Gate) (gs : List Gate)
    → (least_loaded count best gs ≡ best) ⊎ In (least_loaded count best gs) gs
unfolding least_loaded
least_loaded-In count best [] = inl refl
least_loaded-In count best (g ∷ gs) =
    ground (arith, least_loaded-In count best gs, least_loaded-In count g gs)

abbrev pub Least : ℕ → Db → Option Gate → Type 0
Least c db none = gates_of c db.gates ≡ []
Least c db (some g) =
    In g (gates_of c db.gates)
    × All (λ h. load c g.name db.tickets ≤ load c h.name db.tickets) (gates_of c db.gates)

from_gates :
    (c : ℕ) (db : Db) (gs : List Gate)
    → gates_of c db.gates ≡ gs
    → Least c db (pick (λ g. load c g.name db.tickets) gs)
unfolding pick
from_gates c db [] e = e
from_gates c db (g ∷ gs) e = rw e (
  merge (least_loaded-In (λ h. load c h.name db.tickets) g (g ∷ gs)),
  (least_loaded_lem (λ h. load c h.name db.tickets) g (g ∷ gs)).1,
)
  where
    merge : {x : Gate} → (x ≡ g) ⊎ In x (g ∷ gs) → In x (g ∷ gs)
    merge (inl same) = inl same
    merge (inr i) = i

-- A gate is found exactly where the concert has one, and then no gate of the concert has fewer issued or checked-in
-- tickets.
find_least_loaded_gate-Least :
    (concert_id : ℕ) (db : Db) → Least concert_id db (find_least_loaded_gate concert_id db)
unfolding find_least_loaded_gate
find_least_loaded_gate-Least c db = from_gates c db (gates_of c db.gates) refl
