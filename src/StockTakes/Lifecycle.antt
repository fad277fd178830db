-- ===== src/StockTakes/Lifecycle.antt =====
-- The states of a stock take, as the moves between them: stock-take.service.ts.
use Prim.Native.String.{String}
use mathlib.Core.Option
use stock_pilot_be.Prelude.{
  ℕ, ◌≡◌, ◌≢◌, ◌⊎◌, refl, Bool, true, false, Option, none, some, ◌∙◌, arith, ap,
}
use stock_pilot_be.Prelude.Rows.{find_first, find_first-update_self, find_first-update_ne}
use stock_pilot_be.Prelude.Result.{
  Ensures, Ensures-bind, Ensures-call, returns, or_fail-eq-ok, ensure-eq-ok,
}
use stock_pilot_be.Schema.{Database, StockTake, StockTakeStatus}
use stock_pilot_be.Audit.{audit}
use stock_pilot_be.StockTakes.{is_take, transition, start, complete, cancel, items_to_count}
use stock_pilot_be.StockTakes.Status.{is_draft, is_in_progress, is_open}
use stock_pilot_be.StockTakes.Complete.{complete_items-takes}

-- The moves of a stock take: nothing leads out of `completed` and `canceled`.
pub data TakeMove : StockTakeStatus → StockTakeStatus → Type 0 where
  starts : TakeMove StockTakeStatus.draft StockTakeStatus.in_progress
  completes : TakeMove StockTakeStatus.in_progress StockTakeStatus.completed
  cancels_draft : TakeMove StockTakeStatus.draft StockTakeStatus.canceled
  cancels_started : TakeMove StockTakeStatus.in_progress StockTakeStatus.canceled

abbrev pub take_status_of : Option StockTake → Option StockTakeStatus
take_status_of none = none
take_status_of (some t) = some t.status

abbrev pub take_status : ℕ → ℕ → Database → Option StockTakeStatus
take_status store id db = take_status_of (find_first (is_take store id) db.stock_takes)

-- The stock take made a move, to `to`, and every other one has the status that it had.
pub record TakeMoved (store id : ℕ) (to : StockTakeStatus) (db db' : Database) : Type 0 where
  pub from : StockTakeStatus
  pub was : take_status store id db ≡ some from
  pub move : TakeMove from to
  pub now_is : take_status store id db' ≡ some to
  pub others : (s j : ℕ) → (j ≢ id) ⊎ (s ≢ store) → take_status s j db' ≡ take_status s j db

-- A guarded write of the row, and later changes of other tables, are a move.
transition-TakeMoved :
    (store id : ℕ) (guard : StockTakeStatus → Bool) (write : StockTake → StockTake)
    (to : StockTakeStatus) (db : Database)
    → ((s j : ℕ) (t : StockTake) → is_take s j (write t) ≡ is_take s j t)
    → ((t : StockTake) → (write t).status ≡ to)
    → ((s : StockTakeStatus) → guard s ≡ true → TakeMove s to)
    → Ensures
        (λ r. (db' : Database) → db'.stock_takes ≡ r.1.stock_takes → TakeMoved store id to db db')
        (transition store id guard write db)
unfolding transition
transition-TakeMoved store id guard write to db keeps sets moves = Ensures-bind λ t et.
    Ensures-bind λ u eu. Ensures-bind λ v ev.
      let found = or_fail-eq-ok _ _ et in
      returns λ db' same. record {
        from = t.status;
        was = ap take_status_of found;
        move = moves t.status (ensure-eq-ok _ _ eu);
        now_is =
            ap (λ ts. take_status_of (find_first (is_take store id) ts)) same
            ∙ ap take_status_of (
                find_first-update_self (is_take store id) write (keeps store id) db.stock_takes
                ∙ ap (Option.map write) found)
            ∙ ap some (sets t);
        others = λ s j apart.
            ap (λ ts. take_status_of (find_first (is_take s j) ts)) same
            ∙ ap take_status_of (
                find_first-update_ne (is_take store id) (is_take s j) write (keeps s j)
                  (λ x h. away s j apart x h) db.stock_takes);
      }
  where
    away :
        (s j : ℕ)
        → (j ≢ id) ⊎ (s ≢ store)
        → (x : StockTake) → is_take store id x ≡ true
        → is_take s j x ≡ false
    away s j apart x h = ground arith

draft_moves : (s : StockTakeStatus) → is_draft s ≡ true → TakeMove s StockTakeStatus.in_progress
draft_moves StockTakeStatus.draft h = starts
draft_moves StockTakeStatus.in_progress h = cc
draft_moves StockTakeStatus.completed h = cc
draft_moves StockTakeStatus.canceled h = cc

started_moves :
    (s : StockTakeStatus) → is_in_progress s ≡ true → TakeMove s StockTakeStatus.completed
started_moves StockTakeStatus.draft h = cc
started_moves StockTakeStatus.in_progress h = completes
started_moves StockTakeStatus.completed h = cc
started_moves StockTakeStatus.canceled h = cc

open_moves : (s : StockTakeStatus) → is_open s ≡ true → TakeMove s StockTakeStatus.canceled
open_moves StockTakeStatus.draft h = cancels_draft
open_moves StockTakeStatus.in_progress h = cancels_started
open_moves StockTakeStatus.completed h = cc
open_moves StockTakeStatus.canceled h = cc

-- A start that succeeds has moved the stock take from draft to in progress, and no other one's
-- status.
pub start-TakeMoved :
    (now store id : ℕ) (db : Database)
    → Ensures (λ r. TakeMoved store id StockTakeStatus.in_progress db r.1) (start now store id db)
unfolding start
start-TakeMoved now store id db =
    Ensures-call
      (transition-TakeMoved store id is_draft _ StockTakeStatus.in_progress db (λ s j t. refl)
        (λ t. refl) draft_moves)
      λ r moved. returns (moved _ refl)

-- A completion that succeeds has moved the stock take from in progress to completed, and no other
-- one's status.
pub complete-TakeMoved :
    (now store user id : ℕ) (key : Option String) (db : Database)
    → Ensures
        (λ r. TakeMoved store id StockTakeStatus.completed db r.1)
        (complete now store user id key db)
unfolding complete audit
complete-TakeMoved now store user id key db =
    Ensures-call
      (transition-TakeMoved store id is_in_progress _ StockTakeStatus.completed db (λ s j t. refl)
        (λ t. refl) started_moves)
      λ r moved.
        Ensures-call (complete_items-takes _ id (items_to_count store id r.1) r.1)
          λ s same. returns (moved _ same)

-- A cancellation that succeeds has moved the stock take, from draft or in progress, to canceled,
-- and no other one's status.
pub cancel-TakeMoved :
    (store user id : ℕ) (db : Database)
    → Ensures (λ r. TakeMoved store id StockTakeStatus.canceled db r.1) (cancel store user id db)
unfolding cancel audit
cancel-TakeMoved store user id db =
    Ensures-call
      (transition-TakeMoved store id is_open _ StockTakeStatus.canceled db (λ s j t. refl)
        (λ t. refl) open_moves)
      λ r moved. returns (moved _ refl)
