-- ===== src/Idempotency.antt =====
-- src/common/middleware/idempotency.ts: requests with an `Idempotency-Key`. The table of the requests is
-- its own list beside the other tables, which the middleware only reads. The hash of a request's
-- identity is an argument, and so is the row that the first lookup found: another request can come
-- between it and the write.
pub mod Recovery
pub mod Held
pub mod Lease
pub mod Replay
use Prim.Native.String.{String, count, ◌++◌ as str_append}
use text.Mathlib.Text.{◌==◌ as str_eq}
use stock_pilot_be.Prelude.{
  ℕ, suc, ◌+◌, ◌*◌, ◌&&◌, ◌||◌, not, Bool, true, false, Option, none, some, List, [], ◌∷◌, ◌==◌,
  ltb, leb, filter_by, length, if◌then◌else◌,
}
use stock_pilot_be.Prelude.Rows.{find_first, update_all, update_first}
use stock_pilot_be.Prelude.Result.{Failure, validation, conflict}
use stock_pilot_be.Schema.{Database}
use stock_pilot_be.Ledger.{decimal}
use Recovery.{Body, recover_committed_outcome}

pub data RequestStatus : Type 0 where
  processing completed failed : RequestStatus

-- Unique by store, operation and key.
pub record IdempotencyRequest : Type 0 where
  pub id : ℕ
  pub store_id : ℕ
  pub operation : String
  pub key : String
  pub request_hash : String
  pub status : RequestStatus
  pub status_code : Option ℕ
  pub response_json : Option Body
  pub expires_at : ℕ

-- What the middleware reads of a request. `order_id` is `req.params.id` where it is a positive integer.
pub record Incoming : Type 0 where
  pub key : Option String
  pub store_id : Option ℕ
  pub operation : String
  pub ttl_seconds : ℕ
  pub request_hash : String
  pub order_id : Option ℕ

-- The request goes on without a row, goes on with the row that was made or taken over, is answered from
-- a row, or is rejected.
pub data Verdict : Type 0 where
  pass_through : Verdict
  run : ℕ → Verdict
  replay : ℕ → Option Body → Verdict
  reject : Failure → Verdict

-- The identity of a request that has a key and a store.
pub record Identity : Type 0 where
  pub store_id : ℕ
  pub operation : String
  pub key : String

abbrev pub is_of : Identity → IdempotencyRequest → Bool
is_of i r = r.store_id == i.store_id && (str_eq r.operation i.operation && str_eq r.key i.key)

abbrev effect_key : Identity → String
effect_key i =
    str_append i.operation (str_append ":" (str_append (decimal i.store_id) (str_append ":" i.key)))

abbrev pub is_processing : RequestStatus → Bool
is_processing s = elim s [ processing ↦ true | _ ↦ false ]

-- `existing.statusCode || 200`
abbrev pub code_or_200 : Option ℕ → ℕ
code_or_200 none = 200
code_or_200 (some n) = if n == 0 then 200 else n

-- `expiresAt` of what is written now: times are in milliseconds.
abbrev pub expiry : ℕ → Incoming → ℕ
expiry now q = now + q.ttl_seconds * 1_000

abbrev pub write_request :
    ℕ
    → (IdempotencyRequest → IdempotencyRequest)
    → List IdempotencyRequest
    → List IdempotencyRequest
write_request id = update_first (λ r. r.id == id)

-- An outcome that was committed answers the request, and completes its row.
abbrev finish_recovered :
    ℕ → ℕ → ℕ × Body → List IdempotencyRequest → Verdict × List IdempotencyRequest
finish_recovered id expires (code, body) rows = (
  replay code (some body),
  write_request id
      (λ r. record r {
        status = completed;
        status_code = some code;
        response_json = some body;
        expires_at = expires;
      })
      rows,
)

-- `where: { id, status: 'PROCESSING', requestHash, expiresAt: { lte: now } }`
abbrev pub is_reclaimable : ℕ → String → ℕ → IdempotencyRequest → Bool
is_reclaimable id hash now r =
    r.id == id && (is_processing r.status && (str_eq r.request_hash hash && leb r.expires_at now))

module _ (db : Database) (now : ℕ) (q : Incoming) (i : Identity) where
  -- `recoverCommittedOutcome`, for the row: what it finds answers the request.
  unfoldable pub recovered_or :
      Verdict × List IdempotencyRequest
      → Option (ℕ × Body)
      → ℕ
      → List IdempotencyRequest
      → Verdict × List IdempotencyRequest
  recovered_or otherwise none id rows = otherwise
  recovered_or otherwise (some outcome) id rows = finish_recovered id (expiry now q) outcome rows

  abbrev pub committed : Option (ℕ × Body)
  committed = recover_committed_outcome i.store_id i.operation (effect_key i) q.order_id db

  unfoldable pub meet_same :
      RequestStatus
      → Option Body
      → IdempotencyRequest
      → List IdempotencyRequest
      → Verdict × List IdempotencyRequest
  unfolding recovered_or
  meet_same completed (some body) r rows = (replay (code_or_200 r.status_code) (some body), rows)
  meet_same completed none r rows = (reject conflict, rows)
  meet_same processing body r rows =
      if leb r.expires_at now
      then recovered_or (reject conflict, rows) committed r.id rows
      else (reject conflict, rows)
  meet_same failed body r rows = (reject conflict, rows)

  -- The row of the identity that a unique index has found in the way of a new one.
  unfoldable pub meet :
      IdempotencyRequest → List IdempotencyRequest → Verdict × List IdempotencyRequest
  unfolding meet_same
  meet r rows =
      if str_eq r.request_hash q.request_hash
      then meet_same r.status r.response_json r rows
      else (reject conflict, rows)

  abbrev pub opened_row : ℕ → IdempotencyRequest
  opened_row id = record {
    id = id;
    store_id = i.store_id;
    operation = i.operation;
    key = i.key;
    request_hash = q.request_hash;
    status = processing;
    status_code = none;
    response_json = none;
    expires_at = expiry now q;
  }

  -- `idempotencyRequest.create`, of a new id.
  unfoldable pub open_request : ℕ → List IdempotencyRequest → Verdict × List IdempotencyRequest
  unfolding meet
  open_request id rows = elim (find_first (is_of i) rows) [
    | some r ↦ meet r rows
    | none ↦ (run id, opened_row id ∷ rows)
  ]

  -- A row that was left behind is taken over, if it still is what it was.
  unfoldable pub reclaim : ℕ → List IdempotencyRequest → Verdict × List IdempotencyRequest
  reclaim id rows =
      if length (filter_by (is_reclaimable id q.request_hash now) rows) == 1
      then (
        run id,
        update_all (is_reclaimable id q.request_hash now)
            (λ r. record r { expires_at = expiry now q }) rows,
      )
      else (reject conflict, rows)

  unfoldable pub enter_same :
      ℕ
      → RequestStatus
      → Option Body
      → IdempotencyRequest
      → List IdempotencyRequest
      → Verdict × List IdempotencyRequest
  unfolding open_request reclaim recovered_or
  enter_same id completed (some body) e rows =
      (replay (code_or_200 e.status_code) (some body), rows)
  enter_same id completed none e rows = open_request id rows
  enter_same id processing body e rows =
      if ltb now e.expires_at
      then (reject conflict, rows)
      else recovered_or (reclaim e.id rows) committed e.id rows
  enter_same id failed body e rows = (reject conflict, rows)

  -- From the first lookup on: `existing` is what it found, and `rows` the table as it is by now.
  unfoldable pub enter :
      ℕ → Option IdempotencyRequest → List IdempotencyRequest → Verdict × List IdempotencyRequest
  unfolding open_request enter_same
  enter id none rows = open_request id rows
  enter id (some e) rows =
      if str_eq e.request_hash q.request_hash
      then enter_same id e.status e.response_json e rows
      else (reject conflict, rows)

-- The middleware, of a request that comes alone.
unfoldable pub idempotency :
    Database → ℕ → Incoming → ℕ → List IdempotencyRequest → Verdict × List IdempotencyRequest
unfolding enter
idempotency db now q id rows = elim q.key [
  | none ↦ (pass_through, rows)
  | some key ↦
      if str_eq key ""
      then (pass_through, rows)
      else if ltb 128 (count key)
      then (reject validation, rows)
      else elim q.store_id [
        | none ↦ (pass_through, rows)
        | some store ↦
            let i : Identity = record { store_id = store; operation = q.operation; key = key } in
            enter db now q i id (find_first (is_of i) rows) rows
      ]
]

-- `res.json` of the request that runs with the row: an answer below 400 completes it.
unfoldable pub complete_request :
    ℕ → ℕ → Option Body → List IdempotencyRequest → List IdempotencyRequest
complete_request id code body rows =
    if ltb code 400
    then write_request id
        (λ r. record r { status = completed; status_code = some code; response_json = body }) rows
    else write_request id (λ r. record r { status = failed; status_code = some code }) rows
