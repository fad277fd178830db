-- ===== src/RecomputeQueue/Awake.antt =====
-- Pending work keeps a timer or a drain: recompute-queue.ts.
use Prim.Native.String.{String}
use stock_pilot_be.Prelude.{
  ◌⊎◌, ℕ, ◌≡◌, ◌≢◌, refl, ◌&&◌, ◌||◌, not, subst, if◌then◌else◌, Bool, true, false, List, [], ◌∷◌,
  ◌==◌, ◌∙◌, sym, filter_by, length, Bool-cases, inl, inr,
}
use stock_pilot_be.RecomputeQueue.{
  PendingStoreWork, Batch, no_drain, finished, running, Queue, schedule, add_work, enqueue, drain,
  flush, fire, start_drain, start_round, continue_batch, Event, asks, fires, flushes, goes_on,
  react, react_all, proceed, is_drain,
}

-- A queue rests, with nothing pending; or waits for its timer, with work; or a drain runs, without a
-- timer. No drain that has ended stands in the way of the next.
pub data IsAwake (q : Queue) : Type 0 where
  rests : q.draining ≡ no_drain → q.timer ≡ false → q.pending ≡ [] → IsAwake q
  waits : q.draining ≡ no_drain → q.timer ≡ true → q.pending ≢ [] → IsAwake q
  drains : (b : Batch) → q.draining ≡ running b → q.timer ≡ false → IsAwake q

-- A flush finds work to do, or a drain.
abbrev pub IsUseful : Event → Queue → Type 0
IsUseful (asks store ids keys waiter) q = Unit
IsUseful fires q = Unit
IsUseful flushes q = (q.pending ≢ []) ⊎ (is_drain q.draining ≡ true)
IsUseful goes_on q = Unit

-- Every flush of the run does.
abbrev pub AreUseful : List Event → Queue → Type 0
AreUseful [] q = Unit
AreUseful (e ∷ events) q = IsUseful e q × AreUseful events (react e q)

module _ {A : Type 0} (P : A → Type 0) (b : Bool) (x y : A) where
  then_branch : b ≡ true → P x → P (if b then x else y)
  then_branch e h = subst (λ c. P (if c then x else y)) (sym e) h

  else_branch : b ≡ false → P y → P (if b then x else y)
  else_branch e h = subst (λ c. P (if c then x else y)) (sym e) h

add_work-ne :
    (store : ℕ) (ids : List ℕ) (keys : List String) (ws : List (ℕ × PendingStoreWork))
    → add_work store ids keys ws ≢ []
unfolding add_work
add_work-ne store ids keys [] = λ e. cc
add_work-ne store ids keys ((s, w) ∷ rest) = elim (Bool-cases (s == store)) [
  | inl e ↦ rw e (λ k. cc)
  | inr e ↦ rw e (λ k. cc)
]

-- Where there is work, a queue that was awake is awake once it has scheduled it.
schedule-IsAwake :
    (ws : List (ℕ × PendingStoreWork)) (waiters : List ℕ) (q : Queue)
    → ws ≢ []
    → IsAwake q
    → IsAwake (schedule (record q { pending = ws; waiters = waiters }))
schedule-IsAwake ws waiters q some_work (rests none_runs no_timer nothing) =
    else_branch IsAwake (q.timer || is_drain q.draining) _ _ (rw (no_timer, none_runs) refl)
      (waits none_runs refl some_work)
schedule-IsAwake ws waiters q some_work (waits none_runs timer work) =
    then_branch IsAwake (q.timer || is_drain q.draining) _ _ (rw timer refl)
      (waits none_runs timer some_work)
schedule-IsAwake ws waiters q some_work (drains b runs no_timer) =
    then_branch IsAwake (q.timer || is_drain q.draining) _ _ (rw (no_timer, runs) refl)
      (drains b runs no_timer)

enqueue-IsAwake :
    (store : ℕ) (ids : List ℕ) (keys : List String) (waiter : ℕ) (q : Queue)
    → IsAwake q
    → IsAwake (enqueue store ids keys waiter q)
unfolding enqueue
enqueue-IsAwake store ids keys waiter q awake =
    elim (Bool-cases (length (filter_by (λ id. not (id == 0)) ids) == 0 && length keys == 0)) [
      | inl nothing ↦ rw nothing (resolved awake)
      | inr some_work ↦
          let wanted = filter_by (λ id. not (id == 0)) ids in
          rw some_work (
            schedule-IsAwake (add_work store wanted keys q.pending) (waiter ∷ q.waiters) q
              (add_work-ne store wanted keys q.pending) awake)
    ]
  where
    resolved : IsAwake q → IsAwake (record q { resolved = waiter ∷ q.resolved })
    resolved (rests none_runs no_timer nothing) = rests none_runs no_timer nothing
    resolved (waits none_runs timer work) = waits none_runs timer work
    resolved (drains b runs no_timer) = drains b runs no_timer

start_drain-IsAwake :
    (ws : List (ℕ × PendingStoreWork)) (q : Queue)
    → ws ≢ []
    → q.timer ≡ false
    → IsAwake (start_drain ws q)
unfolding start_drain start_round
start_drain-IsAwake [] q some_work no_timer = absurd (some_work refl)
start_drain-IsAwake (w ∷ ws) q some_work no_timer = drains _ refl no_timer

flush-IsAwake :
    (q : Queue) → (q.pending ≢ []) ⊎ (is_drain q.draining ≡ true) → IsAwake q → IsAwake (flush q)
unfolding flush drain
flush-IsAwake q useful (drains b runs no_timer) = rw (runs, drain) (drains b runs refl)
flush-IsAwake q useful (waits none_runs timer work) =
    rw (none_runs, drain) (start_drain-IsAwake q.pending _ work refl)
flush-IsAwake q (inl work) (rests none_runs no_timer nothing) = absurd (work nothing)
flush-IsAwake q (inr runs) (rests none_runs no_timer nothing) =
    absurd (clash (sym (rw none_runs at runs)))
  where
    clash : true ≡ false → ⊥
    clash h = cc

fire-IsAwake : (q : Queue) → IsAwake q → IsAwake (fire q)
unfolding fire
fire-IsAwake q (drains b runs no_timer) =
    else_branch IsAwake _ _ _ no_timer (drains b runs no_timer)
fire-IsAwake q (waits none_runs timer work) =
    then_branch IsAwake _ _ _ timer (flush-IsAwake q (inl work) (waits none_runs timer work))
fire-IsAwake q (rests none_runs no_timer nothing) =
    else_branch IsAwake _ _ _ no_timer (rests none_runs no_timer nothing)

start_round-IsAwake :
    (ws : List (ℕ × PendingStoreWork)) (q : Queue)
    → q.pending ≡ ws
    → q.timer ≡ false
    → IsAwake (start_round ws q)
unfolding start_round
start_round-IsAwake [] q e no_timer = rests refl no_timer e
start_round-IsAwake (w ∷ ws) q e no_timer = drains _ refl no_timer

continue_batch-IsAwake :
    (todo : List (ℕ × PendingStoreWork)) (waiters : List ℕ) (q : Queue)
    → q.timer ≡ false
    → IsAwake (continue_batch todo waiters q)
unfolding continue_batch
continue_batch-IsAwake [] waiters q no_timer = start_round-IsAwake q.pending _ refl no_timer
continue_batch-IsAwake (w ∷ rest) waiters q no_timer = drains _ refl no_timer

proceed-IsAwake : (q : Queue) → IsAwake q → IsAwake (proceed q)
unfolding proceed
proceed-IsAwake q (rests none_runs no_timer nothing) =
    rw (none_runs, proceed) (rests none_runs no_timer nothing)
proceed-IsAwake q (waits none_runs timer work) =
    rw (none_runs, proceed) (waits none_runs timer work)
proceed-IsAwake q (drains b runs no_timer) =
    rw (runs, proceed) (continue_batch-IsAwake b.todo b.batch_waiters q no_timer)

react-IsAwake : (e : Event) (q : Queue) → IsUseful e q → IsAwake q → IsAwake (react e q)
unfolding react
react-IsAwake (asks store ids keys waiter) q useful awake =
    enqueue-IsAwake store ids keys waiter q awake
react-IsAwake fires q useful awake = fire-IsAwake q awake
react-IsAwake flushes q useful awake = flush-IsAwake q useful awake
react-IsAwake goes_on q useful awake = proceed-IsAwake q awake

-- Pending work never waits for nothing, if no flush comes while nothing is pending and no drain runs: a
-- queue that rests with nothing pending, waits for its timer with work, or drains without a timer does
-- one of these after any requests, timer callbacks, other flushes and goes of the drain, in any order.
pub react_all-IsAwake :
    (events : List Event) (q : Queue)
    → AreUseful events q
    → IsAwake q
    → IsAwake (react_all events q)
unfolding react_all
react_all-IsAwake [] q useful awake = awake
react_all-IsAwake (e ∷ events) q useful awake =
    react_all-IsAwake events (react e q) useful.1 (react-IsAwake e q useful.0 awake)

-- A queue whose last drain left its promise stays as it is, but for the work that it is asked for.
record IsStuck (q r : Queue) : Type 0 where
  stays : r.draining ≡ finished
  recomputed : r.recomputed ≡ q.recomputed

is_finished : (q : Queue) → q.draining ≡ finished → (q.timer || is_drain q.draining) ≡ true
is_finished q stuck = rw stuck (or_true q.timer)
  where
    or_true : (b : Bool) → (b || true) ≡ true
    or_true true = refl
    or_true false = refl

flush-IsStuck : (q : Queue) → q.draining ≡ finished → IsStuck q (flush q)
unfolding flush drain
flush-IsStuck q stuck = rw (stuck, drain) (record { stays = stuck; recomputed = refl })

react-IsStuck : (e : Event) (q : Queue) → q.draining ≡ finished → IsStuck q (react e q)
unfolding react enqueue fire proceed
react-IsStuck (asks store ids keys waiter) q stuck =
    elim (Bool-cases (length (filter_by (λ id. not (id == 0)) ids) == 0 && length keys == 0)) [
      | inl nothing ↦
          then_branch (IsStuck q) _ _ _ nothing (record { stays = stuck; recomputed = refl })
      | inr some_work ↦ else_branch (IsStuck q) _ _ _ some_work (
          then_branch (IsStuck q) _ _ _ (is_finished q stuck)
            (record { stays = stuck; recomputed = refl }))
    ]
react-IsStuck fires q stuck = elim (Bool-cases q.timer) [
  | inl e ↦ then_branch (IsStuck q) _ _ _ e (flush-IsStuck q stuck)
  | inr e ↦ else_branch (IsStuck q) _ _ _ e (record { stays = stuck; recomputed = refl })
]
react-IsStuck flushes q stuck = flush-IsStuck q stuck
react-IsStuck goes_on q stuck = rw (stuck, proceed) (record { stays = stuck; recomputed = refl })

-- Where the promise of an ended drain has stayed, nothing is recomputed any more, whatever happens.
stuck_forever :
    (events : List Event) (q : Queue)
    → q.draining ≡ finished
    → (react_all events q).recomputed ≡ q.recomputed
unfolding react_all
stuck_forever [] q stuck = refl
stuck_forever (e ∷ events) q stuck =
    let first = react-IsStuck e q stuck in
    stuck_forever events (react e q) first.stays ∙ first.recomputed

-- A flush of a queue at rest leaves it so: whatever is asked for from then on is not recomputed.
flush_at_rest :
    (events : List Event) (q : Queue)
    → q.draining ≡ no_drain
    → q.pending ≡ []
    → (react_all events (flush q)).recomputed ≡ q.recomputed
unfolding flush drain start_drain
flush_at_rest events q none_runs nothing =
    rw (none_runs, nothing, drain, start_drain) (stuck_forever events _ refl)
