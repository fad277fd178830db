-- ===== src/Idempotency/Replay.antt =====
-- The same answer ever after: idempotency.ts.
use text.Mathlib.Text.{◌==◌ as str_eq}
use stock_pilot_be.Prelude.{
  ℕ, ◌≡◌, refl, sym, ◌∙◌, ◌&&◌, Bool, true, false, Option, none, some, List, ◌==◌, ltb,
  if◌then◌else◌, Bool-cases, inl, inr,
}
use stock_pilot_be.Prelude.Rows.{find_first, find_first-update_both}
use stock_pilot_be.Prelude.Result.{conflict}
use stock_pilot_be.Schema.{Database}
use stock_pilot_be.Idempotency.Recovery.{Body}
use stock_pilot_be.Idempotency.{
  IdempotencyRequest, completed, failed, Incoming, Verdict, replay, reject, Identity, is_of,
  code_or_200, write_request, enter_same, enter, complete_request, open_request, meet, meet_same,
}

abbrev done_row : ℕ → Option Body → IdempotencyRequest → IdempotencyRequest
done_row code body r = record r {
  status = completed;
  status_code = some code;
  response_json = body;
}

abbrev failed_row : ℕ → IdempotencyRequest → IdempotencyRequest
failed_row code r = record r { status = failed; status_code = some code }

module _ (db : Database) (now : ℕ) (q : Incoming) (i : Identity) (id code : ℕ) where
  enter_done :
      (body : Body) (r : IdempotencyRequest) (rows : List IdempotencyRequest)
      → (enter db now q i id (some (done_row code (some body) r)) rows).0 ≡ (
          if str_eq r.request_hash q.request_hash
          then replay (code_or_200 (some code)) (some body)
          else reject conflict)
  unfolding enter enter_same
  enter_done body r rows = elim (Bool-cases (str_eq r.request_hash q.request_hash)) [
    | inl same ↦ rw same refl
    | inr differs ↦ rw differs refl
  ]

  -- An empty answer is no answer to replay: a second row is tried, which the identity's row forbids.
  enter_empty :
      (r : IdempotencyRequest) (rows : List IdempotencyRequest)
      → find_first (is_of i) rows ≡ some (done_row code none r)
      → (enter db now q i id (some (done_row code none r)) rows).0 ≡ reject conflict
  unfolding enter enter_same open_request meet meet_same
  enter_empty r rows found = elim (Bool-cases (str_eq r.request_hash q.request_hash)) [
    | inl same ↦ rw same (rw (found, open_request) (rw same refl))
    | inr differs ↦ rw differs refl
  ]

  enter_failed :
      (r : IdempotencyRequest) (rows : List IdempotencyRequest)
      → (enter db now q i id (some (failed_row code r)) rows).0 ≡ reject conflict
  unfolding enter enter_same
  enter_failed r rows = elim (Bool-cases (str_eq r.request_hash q.request_hash)) [
    | inl same ↦ rw same refl
    | inr differs ↦ rw differs refl
  ]

-- A request below 400 whose answer is not empty, and whose hash is the one that comes, is answered.
abbrev pub answer_to : ℕ → Bool → Option Body → Verdict
answer_to code same none = reject conflict
answer_to code same (some body) =
    if ltb code 400 && same then replay (code_or_200 (some code)) (some body) else reject conflict

-- Where the row that an id names is the row of the identity: once the request that runs with it has
-- answered, every later request of the identity gets that answer and status, without another run, if
-- the status was below 400, the answer was not empty, and the hash is the same; and a conflict else.
pub complete_request-replays :
    (db : Database) (now : ℕ) (q : Incoming) (i : Identity) (id code : ℕ) (body : Option Body)
    (r : IdempotencyRequest) (rows : List IdempotencyRequest)
    → find_first (is_of i) rows ≡ some r
    → find_first (λ x. x.id == r.id) rows ≡ some r
    → (enter db now q i id
        (find_first (is_of i) (complete_request r.id code body rows))
        (complete_request r.id code body rows)).0
      ≡ answer_to code (str_eq r.request_hash q.request_hash) body
unfolding complete_request
complete_request-replays db now q i id code body r rows found named =
    elim (Bool-cases (ltb code 400)) [
      | inl success ↦ rw success (succeeds body success)
      | inr failure ↦ rw failure (
          rw (written (λ x. failed_row code x) (λ x. refl))
            (enter_failed db now q i id code r _ ∙ sym (no_answer body failure)))
    ]
  where
    written :
        (f : IdempotencyRequest → IdempotencyRequest)
        → ((x : IdempotencyRequest) → is_of i (f x) ≡ is_of i x)
        → find_first (is_of i) (write_request r.id f rows) ≡ some (f r)
    written f keeps =
        find_first-update_both (λ x. x.id == r.id) (is_of i) f keeps rows r named found

    no_answer :
        (body : Option Body)
        → ltb code 400 ≡ false
        → answer_to code (str_eq r.request_hash q.request_hash) body ≡ reject conflict
    no_answer none failure = refl
    no_answer (some body) failure = rw failure refl

    succeeds :
        (body : Option Body)
        → ltb code 400 ≡ true
        → (enter db now q i id
            (find_first (is_of i) (write_request r.id (λ x. done_row code body x) rows))
            (write_request r.id (λ x. done_row code body x) rows)).0
          ≡ answer_to code (str_eq r.request_hash q.request_hash) body
    succeeds none success =
        let there = written (λ x. done_row code none x) (λ x. refl) in
        rw there (enter_empty db now q i id code r _ there)
    succeeds (some body) success =
        rw (written (λ x. done_row code (some body) x) (λ x. refl), success)
          (enter_done db now q i id code body r _)
