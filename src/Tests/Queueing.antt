-- ===== src/Tests/Queueing.antt =====
-- Work of two stores for the decision engine.
use stock_pilot_be.Prelude.{inl, suc, ◌+◌, ◌≡◌, refl, true, false, List, [], ◌∷◌}
use stock_pilot_be.RecomputeQueue.{
  Batch, no_drain, finished, running, Queue, PendingStoreWork, enqueue, flush, fire, drain, proceed,
  proceed_times, Event, asks, fires, flushes, goes_on, react, react_all,
}
use stock_pilot_be.RecomputeQueue.Awake.{IsAwake, AreUseful, rests, react_all-IsAwake}
use stock_pilot_be.RecomputeQueue.Drain.{IsDrained, drain_ends, second_round}
use stock_pilot_be.RecomputeQueue.Work.{is_logged, enqueue_recomputes}

abbrev idle : Queue
idle = record {
  pending = [];
  waiters = [];
  timer = false;
  draining = no_drain;
  recomputed = [];
  resolved = [];
}

abbrev two_items : PendingStoreWork
two_items = record { stock_item_ids = 10 ∷ 11 ∷ []; summary_date_keys = [] }

abbrev one_item : PendingStoreWork
one_item = record { stock_item_ids = 10 ∷ []; summary_date_keys = [] }

abbrev first_batch : Batch
first_batch = record { todo = (1, two_items) ∷ []; batch_waiters = 7 ∷ [] }

abbrev busy : Queue
busy = record idle { draining = running first_batch }

coalesces :
    (proceed_times 2
      (flush (enqueue 1 (11 ∷ []) [] 8 (enqueue 1 (10 ∷ 11 ∷ 10 ∷ []) [] 7 idle)))).recomputed
    ≡ (1, 10) ∷ (1, 11) ∷ []
unfolding enqueue flush proceed_times
coalesces = refl

wakes_all : (proceed_times 4 (enqueue 2 (20 ∷ []) [] 8 busy)).resolved ≡ 8 ∷ 7 ∷ []
unfolding enqueue proceed_times
wakes_all = refl

drain_ends_example : IsDrained ((1, two_items) ∷ []) [] (7 ∷ []) [] busy (proceed_times 2 busy)
drain_ends_example = drain_ends first_batch busy refl

work_before : (suc 1 + second_round (enqueue 2 (20 ∷ []) [] 8 busy).pending) ≡ 4
unfolding enqueue
work_before = refl

enqueue_recomputes_example :
    is_logged 2 20
      (proceed_times
        (2 + second_round (enqueue 2 (20 ∷ []) [] 8 busy).pending)
        (enqueue 2 (20 ∷ []) [] 8 busy)).recomputed
    ≡ true
enqueue_recomputes_example = enqueue_recomputes 2 20 (20 ∷ []) [] 8 busy refl refl first_batch refl

-- The flush comes while the timer of the first work still runs.
abbrev day : List Event
day =
    asks 1 (10 ∷ []) [] 7
    ∷ flushes
    ∷ asks 2 (20 ∷ []) ("2024-01-01" ∷ []) 8
    ∷ goes_on
    ∷ goes_on
    ∷ fires
    ∷ []

day-AreUseful : AreUseful day idle
unfolding react enqueue
day-AreUseful = (tt, (inl (λ e. cc), (tt, (tt, (tt, (tt, tt))))))

react_all-IsAwake_example : IsAwake (react_all day idle)
react_all-IsAwake_example = react_all-IsAwake day idle day-AreUseful (rests refl refl refl)

-- A flush of the idle queue, and then work whose timer is never set.
flushed_idle :
    react_all (flushes ∷ asks 1 (10 ∷ []) [] 7 ∷ fires ∷ flushes ∷ goes_on ∷ []) idle
    ≡ record idle { pending = (1, one_item) ∷ []; waiters = 7 ∷ []; draining = finished }
unfolding react_all react enqueue flush drain proceed fire
flushed_idle = refl
