-- ===== src/Checkout.antt =====
-- The sending of an order: frontend/customer-web/lib/create-order-retry.ts and lib/idempotency.ts,
-- against the interceptor of backend/src/common/interceptors/idempotency.interceptor.ts. What an
-- attempt meets, its times and the keys that are drawn are arguments.
pub mod Once
pub mod Page
pub mod Again
use se_ticketbox.Prelude.{
  ℕ, Bool, true, false, Option, none, some, List, [], ◌∷◌, take, ◌==◌, if◌then◌else◌,
}
use se_ticketbox.Store.{Error, conflict, Result, ok, err}
use se_ticketbox.Idempotency.{Keys, Request, intercept}
use se_ticketbox.Scanner.{Delivery, delivered, response_lost, request_lost}

-- The keys of one prefix, in memory and in `sessionStorage`, by their scope.
pub record ScopedKeys : Type 0 where
  pub memory : ℕ → Option ℕ
  pub storage : ℕ → Option ℕ

abbrev pub set_at : ℕ → Option ℕ → (ℕ → Option ℕ) → ℕ → Option ℕ
set_at scope v f s = if s == scope then v else f s

abbrev pub from_storage : ℕ → ℕ → Option ℕ → ScopedKeys → ℕ × ScopedKeys
from_storage scope drawn none k = (
  drawn,
  record {
    memory = set_at scope (some drawn) k.memory;
    storage = set_at scope (some drawn) k.storage;
  },
)
from_storage scope drawn (some key) k =
    (key, record k { memory = set_at scope (some key) k.memory })

abbrev pub from_memory : ℕ → ℕ → Option ℕ → ScopedKeys → ℕ × ScopedKeys
from_memory scope drawn none k = from_storage scope drawn (k.storage scope) k
from_memory scope drawn (some key) k = (key, k)

-- `getOrCreateScopedKey`.
unfoldable pub get_or_create_key : ℕ → ℕ → ScopedKeys → ℕ × ScopedKeys
get_or_create_key scope drawn k = from_memory scope drawn (k.memory scope) k

-- `clearScopedKey`.
unfoldable pub clear_key : ℕ → ScopedKeys → ScopedKeys
clear_key scope k = record {
  memory = set_at scope none k.memory;
  storage = set_at scope none k.storage;
}

-- MAX_PROCESSING_RETRIES.
abbrev pub max_processing_retries : ℕ
max_processing_retries = 15

-- One request: when the backend reads the key, when its handler ends, and whether request and answer
-- arrive.
pub record Attempt : Type 0 where
  pub now : ℕ
  pub done : ℕ
  pub way : Delivery

-- How `createOrderWithIdempotencyRetry` ends: an answer, an error of the backend, a failed request, or
-- conflicts to the last of the attempts that are given.
pub data Sent : Type 0 where
  created : (body : ℕ) → Sent
  refused : Error → Sent
  not_reached still_processing : Sent

abbrev pub is_conflict : Error → Bool
is_conflict conflict = true
is_conflict _ = false

module _ {W : Type 0} (handler : W → Result ℕ × W) where
  -- The end of an attempt, given how the next ones end.
  abbrev pub answer_or :
      Delivery → Result ℕ × Keys × W → Keys × W → (Keys × W → Sent × Keys × W) → Sent × Keys × W
  answer_or delivered (ok body, m, w) s next = (created body, m, w)
  answer_or delivered (err e, m, w) s next =
      if is_conflict e then next (m, w) else (refused e, m, w)
  answer_or response_lost (result, m, w) s next = (not_reached, m, w)
  answer_or request_lost answer (m, w) next = (not_reached, m, w)

  unfoldable pub send_all : Request → List Attempt → Keys × W → Sent × Keys × W
  send_all r [] (m, w) = (still_processing, m, w)
  send_all r (a ∷ rest) s = answer_or a.way (intercept handler a.now a.done r s) s (send_all r rest)

  -- `createOrderWithIdempotencyRetry`.
  unfoldable pub create_order_with_retry : Request → List Attempt → Keys × W → Sent × Keys × W
  unfolding send_all
  create_order_with_retry r attempts s = send_all r (take max_processing_retries attempts) s
