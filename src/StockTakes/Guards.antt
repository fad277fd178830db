-- ===== src/StockTakes/Guards.antt =====
-- When a stock take can be started, and when it can be canceled: stock-take.service.ts.
use stock_pilot_be.Prelude.{
  ℕ, ◌≡◌, ◌≢◌, ◌⊎◌, ◌↔◌, refl, Bool, true, none, some, Option-cases, inl, inr, ap, ◌∙◌,
}
use stock_pilot_be.Prelude.Rows.{find_first, some_injective, holds}
use stock_pilot_be.Prelude.Result.{
  IsOk, is_ok, IsOk-bind, IsOk-call, ensure-true, or_fail-some, Ensures-IsOk, not_found, conflict,
}
use stock_pilot_be.Schema.{Database, StockTake, StockTakeStatus}
use stock_pilot_be.StockTakes.{is_take, transition, start, cancel}
use stock_pilot_be.StockTakes.Status.{is_draft, is_open}
use stock_pilot_be.StockTakes.Lifecycle.{
  TakeMove, starts, cancels_draft, cancels_started, take_status, start-TakeMoved, cancel-TakeMoved,
}

transition-IsOk :
    (store id : ℕ) (guard : StockTakeStatus → Bool) (write : StockTake → StockTake) (db : Database)
    (s : StockTakeStatus)
    → take_status store id db ≡ some s
    → guard s ≡ true
    → IsOk (transition store id guard write db)
unfolding transition
transition-IsOk store id guard write db s e lets =
    elim (Option-cases (find_first (is_take store id) db.stock_takes)) [
      | inl missing ↦ absurd (nothing (rw missing at e))
      | inr (t, found) ↦
          let passes = ap guard (some_injective (rw found at e)) ∙ lets in
          IsOk-bind _ t (or_fail-some _ not_found t found) (
            IsOk-bind _ tt (ensure-true _ conflict passes) (
              IsOk-bind _ tt
                (ensure-true _ conflict (ap (holds (λ x. guard x.status)) found ∙ passes))
                (is_ok _)))
    ]
  where
    nothing : none ≢ some s
    nothing e = cc

from_draft :
    {s : StockTakeStatus} → TakeMove s StockTakeStatus.in_progress → s ≡ StockTakeStatus.draft
from_draft starts = refl

-- A start succeeds exactly when the store's stock take is a draft.
pub start_iff :
    (now store id : ℕ) (db : Database)
    → IsOk (start now store id db) ↔ (take_status store id db ≡ some StockTakeStatus.draft)
unfolding start
start_iff now store id db = (
  λ h.
      let moved = (Ensures-IsOk (start-TakeMoved now store id db) h).1 in
      moved.was ∙ ap some (from_draft moved.move),
  λ e.
      IsOk-call (transition-IsOk store id is_draft _ db StockTakeStatus.draft e refl)
        λ r er. is_ok _,
)

from_open :
    {s : StockTakeStatus}
    → TakeMove s StockTakeStatus.canceled
    → (s ≡ StockTakeStatus.draft) ⊎ (s ≡ StockTakeStatus.in_progress)
from_open cancels_draft = inl refl
from_open cancels_started = inr refl

-- A cancellation succeeds exactly when the store's stock take is a draft or in progress.
pub cancel_iff :
    (store user id : ℕ) (db : Database)
    → IsOk (cancel store user id db) ↔ (
        (take_status store id db ≡ some StockTakeStatus.draft)
        ⊎ (take_status store id db ≡ some StockTakeStatus.in_progress))
unfolding cancel
cancel_iff store user id db = (
  λ h.
      let moved = (Ensures-IsOk (cancel-TakeMoved store user id db) h).1 in
      elim (from_open moved.move) [
        | inl e ↦ inl (moved.was ∙ ap some e)
        | inr e ↦ inr (moved.was ∙ ap some e)
      ],
  λ either. elim either [
    | inl e ↦ IsOk-call (transition-IsOk store id is_open _ db _ e refl) λ r er. is_ok _
    | inr e ↦ IsOk-call (transition-IsOk store id is_open _ db _ e refl) λ r er. is_ok _
  ],
)
