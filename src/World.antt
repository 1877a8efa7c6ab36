-- ===== src/World.antt =====
-- The state that the handlers of the sale share: Redis, the database and the three BullMQ queues
-- (backend/src/modules/queue/queue.constants.ts). A handler returns its result and the new state,
-- also where it throws. `now` is the time at which a handler runs.
use se_ticketbox.Prelude.{ℕ, Bool, true, false, ◌&&◌, if◌then◌else◌, List, [], ◌∷◌, map}
use se_ticketbox.Redis.{Redis, Hold, release_reservation}
use se_ticketbox.Store.{Db, OrderItem, Result, ok, err}

pub record World : Type 0 where
  pub redis : Redis
  pub db : Db
  pub expire_queue : List (ℕ × ℕ)  -- the order, and when its job is due
  pub issue_queue : List ℕ
  pub mail_queue : List ℕ

abbrev pub Action : Type 0 → Type 0
Action A = World → Result A × World

abbrev pub next : {A B : Type 0} → (A → Action B) → Result A × World → Result B × World
next f (ok a, w) = f a w
next f (err e, w) = (err e, w)

infixl 5 ◌>>=◌ ◌>>◌
abbrev pub ◌>>=◌ : {A B : Type 0} → Action A → (A → Action B) → Action B
◌>>=◌ m f w = next f (m w)

abbrev pub ◌>>◌ : {B : Type 0} → Action (Unit {0}) → Action B → Action B
m >> k = m >>= λ _. k

-- A result that reads the state and changes nothing.
abbrev pub reads : {A : Type 0} → (World → Result A) → Action A
reads f w = (f w, w)

abbrev pub set_db : Db → World → World
set_db db w = record w { db = db }

abbrev pub set_redis : Redis → World → World
set_redis r w = record w { redis = r }

-- `Promise.all` over releases. Redis runs them one after another, and the callers do not read the
-- replies.
unfoldable pub release_holds : ℕ → List Hold → Redis → Redis
release_holds now [] r = r
release_holds now (h ∷ hs) r = release_holds now hs (release_reservation now h r).1

abbrev pub item_hold : ℕ → ℕ → OrderItem → Hold
item_hold user_id order_id i = record {
  ticket_type_id = i.ticket_type_id;
  user_id = user_id;
  order_id = order_id;
  quantity = i.quantity;
}

-- The release of an order's items.
abbrev pub release_all : ℕ → ℕ → ℕ → List OrderItem → Redis → Redis
release_all now user_id order_id items r =
    release_holds now (map (item_hold user_id order_id) items) r

-- What becomes of a call of Redis or of a queue: it is answered, it takes effect but throws, or it
-- throws without effect.
pub data Reply : Type 0 where
  answered lost unmade : Reply

abbrev pub takes_effect : Reply → Bool
takes_effect answered = true
takes_effect lost = true
takes_effect unmade = false

abbrev pub is_answered : Reply → Bool
is_answered answered = true
is_answered lost = false
is_answered unmade = false

-- `Promise.all` over releases with their replies; those without one are answered.
unfoldable pub release_with : ℕ → List Reply → List Hold → Redis → Redis
unfolding release_holds
release_with now [] hs r = release_holds now hs r
release_with now (a ∷ rest) [] r = r
release_with now (a ∷ rest) (h ∷ hs) r =
    release_with now rest hs (if takes_effect a then (release_reservation now h r).1 else r)

unfoldable pub all_answered : List Reply → List Hold → Bool
all_answered [] hs = true
all_answered (a ∷ rest) [] = true
all_answered (a ∷ rest) (h ∷ hs) = is_answered a && all_answered rest hs
