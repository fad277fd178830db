-- ===== src/RecomputeQueue.antt =====
-- src/modules/decision-engine/recompute-queue.ts: the work that waits for the decision engine, of one
-- process. The summaries that a store's work asks for are rebuilt by their own service, and left out. A
-- drain stands still between two stores, where other requests can come; errors of the engine are
-- swallowed, so a store's work is done once it has been taken up. Promises are numbers. A drain that has
-- nothing to do ends within the call that starts it, and the promise that it then leaves in `draining`
-- is settled.
pub mod Drain
pub mod Work
pub mod Awake
use Prim.Native.String.{String}
use text.Mathlib.Text.{◌==◌ as str_eq}
use stock_pilot_be.Prelude.{
  ℕ, zero, suc, ◌+◌, ◌&&◌, ◌||◌, not, Bool, true, false, Option, none, some, List, [], ◌∷◌, ◌++◌,
  map, ◌==◌, contains, filter_by, length, if◌then◌else◌,
}

-- The sets of a store's pending work, in the order of their insertion.
pub record PendingStoreWork : Type 0 where
  pub stock_item_ids : List ℕ
  pub summary_date_keys : List String

pub record Batch : Type 0 where
  pub todo : List (ℕ × PendingStoreWork)
  pub batch_waiters : List ℕ

-- `this.draining`: null, the promise of a drain that runs, or one that is settled and stays.
pub data Draining : Type 0 where
  no_drain finished : Draining
  running : Batch → Draining

-- `recomputed` and `resolved` log what the queue has done, the newest first.
pub record Queue : Type 0 where
  pub pending : List (ℕ × PendingStoreWork)
  pub waiters : List ℕ
  pub timer : Bool
  pub draining : Draining
  pub recomputed : List (ℕ × ℕ)
  pub resolved : List ℕ

-- `Set.prototype.add`
unfoldable pub add_id : List ℕ → ℕ → List ℕ
add_id [] id = id ∷ []
add_id (x ∷ xs) id = if x == id then x ∷ xs else x ∷ add_id xs id

unfoldable pub add_key : List String → String → List String
add_key [] key = key ∷ []
add_key (x ∷ xs) key = if str_eq x key then x ∷ xs else x ∷ add_key xs key

abbrev pub add_ids : List ℕ → List ℕ → List ℕ
add_ids known [] = known
add_ids known (id ∷ ids) = add_ids (add_id known id) ids

abbrev add_keys : List String → List String → List String
add_keys known [] = known
add_keys known (key ∷ keys) = add_keys (add_key known key) keys

-- `pending.get(storeId) ?? { ... }`, and `pending.set`.
unfoldable pub add_work :
    ℕ → List ℕ → List String → List (ℕ × PendingStoreWork) → List (ℕ × PendingStoreWork)
unfolding add_id add_key
add_work store ids keys [] =
    (store, record { stock_item_ids = add_ids [] ids; summary_date_keys = add_keys [] keys }) ∷ []
add_work store ids keys ((s, w) ∷ rest) =
    if s == store
    then (
      s,
      record {
        stock_item_ids = add_ids w.stock_item_ids ids;
        summary_date_keys = add_keys w.summary_date_keys keys;
      },
    )
      ∷ rest
    else (s, w) ∷ add_work store ids keys rest

-- `this.draining` is no null.
abbrev pub is_drain : Draining → Bool
is_drain no_drain = false
is_drain finished = true
is_drain (running b) = true

abbrev pub schedule : Queue → Queue
schedule q = if q.timer || is_drain q.draining then q else record q { timer = true }

-- `waiter` is the promise that comes back.
unfoldable pub enqueue : ℕ → List ℕ → List String → ℕ → Queue → Queue
unfolding add_work
enqueue store ids keys waiter q =
    let wanted = filter_by (λ id. not (id == 0)) ids in
    if length wanted == 0 && length keys == 0
    then record q { resolved = waiter ∷ q.resolved }
    else schedule
        (record q { pending = add_work store wanted keys q.pending; waiters = waiter ∷ q.waiters })

-- The test of the loop of `drain`, with the start of a round.
unfoldable pub start_round : List (ℕ × PendingStoreWork) → Queue → Queue
start_round [] q = record q { draining = no_drain }
start_round (w ∷ ws) q = record q {
  pending = [];
  waiters = [];
  draining = running (record { todo = w ∷ ws; batch_waiters = q.waiters });
}

abbrev pub next_round : Queue → Queue
next_round q = start_round q.pending q

-- The call of the body of `drain`. Without pending work nothing in it waits: its `finally` has set
-- `draining` to null before the promise that it returns is assigned.
unfoldable pub start_drain : List (ℕ × PendingStoreWork) → Queue → Queue
unfolding start_round
start_drain [] q = record q { draining = finished }
start_drain (w ∷ ws) q = start_round (w ∷ ws) q

unfoldable pub drain : Queue → Queue
unfolding start_drain
drain q = elim q.draining [ no_drain ↦ start_drain q.pending q | finished ↦ q | running b ↦ q ]

-- `flush`, and the timer's callback.
unfoldable pub flush : Queue → Queue
unfolding drain
flush q = drain (record q { timer = false })

unfoldable pub fire : Queue → Queue
unfolding flush
fire q = if q.timer then flush q else q

abbrev pub pairs : ℕ → PendingStoreWork → List (ℕ × ℕ)
pairs store w = map (λ id. (store, id)) w.stock_item_ids

unfoldable pub continue_batch : List (ℕ × PendingStoreWork) → List ℕ → Queue → Queue
unfolding start_round
continue_batch [] waiters q = next_round (record q { resolved = waiters ++ q.resolved })
continue_batch ((store, w) ∷ rest) waiters q = record q {
  recomputed = pairs store w ++ q.recomputed;
  draining = running (record { todo = rest; batch_waiters = waiters });
}

-- The drain goes on to where it next stands still.
unfoldable pub proceed : Queue → Queue
unfolding continue_batch
proceed q = elim q.draining [
  | no_drain ↦ q
  | finished ↦ q
  | running b ↦ continue_batch b.todo b.batch_waiters q
]

-- The drain goes on that many times without a request between.
unfoldable pub proceed_times : ℕ → Queue → Queue
unfolding proceed
proceed_times zero q = q
proceed_times (suc n) q = proceed_times n (proceed q)

-- What can happen to a queue: a request asks for work, the timer fires if it is set, a flush is asked
-- for, and the drain goes on.
pub data Event : Type 0 where
  asks : ℕ → List ℕ → List String → ℕ → Event
  fires flushes goes_on : Event

unfoldable pub react : Event → Queue → Queue
unfolding enqueue flush fire proceed
react (asks store ids keys waiter) q = enqueue store ids keys waiter q
react fires q = fire q
react flushes q = flush q
react goes_on q = proceed q

unfoldable pub react_all : List Event → Queue → Queue
unfolding react
react_all [] q = q
react_all (e ∷ events) q = react_all events (react e q)
