-- ===== src/Idempotency.antt =====
-- Requests that are sent twice: the interceptor of
-- backend/src/common/interceptors/idempotency.interceptor.ts and the service of
-- backend/src/modules/idempotency/idempotency.service.ts. Keys, hashes and bodies are only compared;
-- 0 stands for a body that JavaScript takes for false.
pub mod Replay
pub mod Body
use se_ticketbox.Prelude.{
  ℕ, ◌+◌, ◌*◌, Bool, true, false, not, ◌&&◌, Option, none, some, ltb, ◌==◌, if◌then◌else◌,
}
use se_ticketbox.Prelude.Table.{Table, find, put, remove}
use se_ticketbox.Store.{Error, bad_request, conflict, Result, ok, err}

pub data Progress : Type 0 where
  processing completed failed : Progress

-- The value of `idem:{userId}:{idempotencyKey}`, with the time at which Redis drops the key.
pub record IdempotencyRecord : Type 0 where
  pub status : Progress
  pub request_hash : ℕ
  pub response_body : ℕ
  pub expires_at : ℕ

abbrev pub Keys : Type 0
Keys = Table IdempotencyRecord

-- 15 minutes.
abbrev pub ttl_seconds : ℕ
ttl_seconds = 15 * 60

abbrev pub unexpired : ℕ → Option IdempotencyRecord → Option IdempotencyRecord
unexpired now none = none
unexpired now (some r) = if ltb now r.expires_at then some r else none

unfoldable pub get_record : ℕ → ℕ → Keys → Option IdempotencyRecord
get_record now key m = unexpired now (find key m)

abbrev pub new_record : ℕ → Progress → ℕ → ℕ → IdempotencyRecord
new_record now status hash body = record {
  status = status;
  request_hash = hash;
  response_body = body;
  expires_at = now + ttl_seconds * 1000;
}

-- One request: its key where the header is there, whether it is a POST, and its body's hash.
pub record Request : Type 0 where
  pub key : Option ℕ
  pub is_post : Bool
  pub hash : ℕ

pub data Verdict : Type 0 where
  proceed : Verdict
  replay : ℕ → Verdict
  reject : Error → Verdict

-- What the interceptor does with the record that it has read.
unfoldable pub judge : ℕ → Option IdempotencyRecord → Verdict
judge hash none = proceed
judge hash (some r) = elim r.status [
  | processing ↦ reject conflict
  | completed ↦
      if not (r.request_hash == hash)
      then reject conflict
      else if not (r.response_body == 0)
      then replay r.response_body
      else proceed
  | failed ↦ if not (r.request_hash == hash) then reject conflict else proceed
]

-- After the handler: COMPLETED with its body, or no record at all.
unfoldable pub settle_record : ℕ → ℕ → ℕ → Result ℕ → Keys → Keys
settle_record done key hash (ok body) m = put key (new_record done completed hash body) m
settle_record done key hash (err e) m = remove key m

module _ {W : Type 0} (handler : W → Result ℕ × W) where
  -- The handler between its registration and its end, at the times `now` and `done`.
  unfoldable pub process : ℕ → ℕ → ℕ → ℕ → Keys × W → Result ℕ × Keys × W
  process now done key hash (m, w) =
      let registered = put key (new_record now processing hash 0) m in
      let (result, w') = handler w in (result, settle_record done key hash result registered, w')

  unfoldable pub follow : ℕ → ℕ → ℕ → ℕ → Verdict → Keys × W → Result ℕ × Keys × W
  follow now done key hash proceed s = process now done key hash s
  follow now done key hash (replay body) (m, w) = (ok body, m, w)
  follow now done key hash (reject e) (m, w) = (err e, m, w)

  unfoldable pub intercept_key : ℕ → ℕ → Request → Option ℕ → Keys × W → Result ℕ × Keys × W
  intercept_key now done r none (m, w) = (err bad_request, m, w)
  intercept_key now done r (some key) (m, w) =
      let (result, w') = handler w in
      if r.is_post
      then follow now done key r.hash (judge r.hash (get_record now key m)) (m, w)
      else (result, m, w')

  -- `intercept`.
  unfoldable pub intercept : ℕ → ℕ → Request → Keys × W → Result ℕ × Keys × W
  intercept now done r s = intercept_key now done r r.key s

-- `start` of the service: what it makes of the record that it has read.
unfoldable pub start_verdict : ℕ → Option IdempotencyRecord → Verdict
start_verdict hash none = proceed
start_verdict hash (some r) =
    if not (r.request_hash == hash) then reject conflict else elim r.status [
      | processing ↦ reject conflict
      | completed ↦ replay r.response_body
      | failed ↦ reject conflict
    ]

-- The `SET … NX` of `start`, whose answer is not read.
unfoldable pub register_nx : ℕ → ℕ → ℕ → Keys → Keys
register_nx now key hash m = elim (get_record now key m) [
  | none ↦ put key (new_record now processing hash 0) m
  | some r ↦ m
]

unfoldable pub complete : ℕ → ℕ → ℕ → ℕ → Keys → Keys
complete now key hash body m = put key (new_record now completed hash body) m

unfoldable pub fail : ℕ → ℕ → ℕ → Keys → Keys
fail now key hash m = put key (new_record now failed hash 0) m
