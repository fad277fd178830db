-- ===== src/RecomputeQueue/Drain.antt =====
-- A drain ends: recompute-queue.ts.
use stock_pilot_be.Prelude.{
  subst, ℕ, zero, suc, ◌+◌, ◌≡◌, refl, List, [], ◌∷◌, ◌++◌, length, arith, ap, sym, ◌∙◌,
}
use stock_pilot_be.RecomputeQueue.{
  PendingStoreWork, Batch, Draining, no_drain, running, Queue, next_round, start_round, pairs,
  proceed, proceed_times,
}

-- The items of the stores' work, in the order in which a drain takes them, before the log.
abbrev pub done : List (ℕ × PendingStoreWork) → List (ℕ × ℕ) → List (ℕ × ℕ)
done [] log = log
done ((store, w) ∷ rest) log = done rest (pairs store w ++ log)

abbrev batch : List (ℕ × PendingStoreWork) → List ℕ → Draining
batch todo waiters = running (record { todo = todo; batch_waiters = waiters })

batch_ends :
    (todo : List (ℕ × PendingStoreWork)) (waiters : List ℕ) (q : Queue)
    → proceed_times (suc (length todo)) (record q { draining = batch todo waiters })
      ≡ next_round (record q {
        draining = batch [] waiters;
        recomputed = done todo q.recomputed;
        resolved = waiters ++ q.resolved;
      })
unfolding proceed_times
batch_ends [] waiters q = refl
batch_ends ((store, w) ∷ rest) waiters q =
    batch_ends rest waiters (record q { recomputed = pairs store w ++ q.recomputed })

proceed_more : (m n : ℕ) (q : Queue) → proceed_times (m + n) q ≡ proceed_times n (proceed_times m q)
unfolding proceed_times
proceed_more zero n q = ap (λ k. proceed_times k q) same
  where
    same : 0 + n ≡ n
    same = omega arith
proceed_more (suc m) n q = ap (λ k. proceed_times k q) (grow m) ∙ proceed_more m n (proceed q)
  where
    grow : (m : ℕ) → suc m + n ≡ suc (m + n)
    grow m = omega arith

-- How often a drain goes on for what became pending while it ran, and whom it wakes for it.
abbrev pub second_round : List (ℕ × PendingStoreWork) → ℕ
second_round [] = 0
second_round (w ∷ ws) = suc (length (w ∷ ws))

abbrev pub woken : List (ℕ × PendingStoreWork) → List ℕ → List ℕ → List ℕ
woken [] waiters log = log
woken (w ∷ ws) waiters log = waiters ++ log

-- The end of a drain: nothing runs, nothing is pending, the work is done and the promises are resolved.
pub record IsDrained (todo later : List (ℕ × PendingStoreWork)) (waiting late : List ℕ)
    (q r : Queue) : Type 0 where
  pub ended : r.draining ≡ no_drain
  pub emptied : r.pending ≡ []
  pub recomputed : r.recomputed ≡ done later (done todo q.recomputed)
  pub resolved : r.resolved ≡ woken later late (waiting ++ q.resolved)

ends :
    (todo later : List (ℕ × PendingStoreWork)) (waiting : List ℕ) (q : Queue)
    → q.pending ≡ later
    → IsDrained todo later waiting q.waiters q (
        proceed_times (second_round later) (
          start_round later (record q {
            draining = batch [] waiting;
            recomputed = done todo q.recomputed;
            resolved = waiting ++ q.resolved;
          })))
unfolding start_round proceed_times
ends todo [] waiting q none_later = record {
  ended = refl;
  emptied = none_later;
  recomputed = refl;
  resolved = refl;
}
ends todo (w ∷ ws) waiting q some_later =
    subst (IsDrained todo (w ∷ ws) waiting q.waiters q)
      (sym (batch_ends (w ∷ ws) q.waiters started))
      (record { ended = refl; emptied = refl; recomputed = refl; resolved = refl })
  where
    started : Queue
    started = record q {
      pending = [];
      waiters = [];
      recomputed = done todo q.recomputed;
      resolved = waiting ++ q.resolved;
    }

-- A drain that nobody disturbs ends, after one go for each store of its batch and one more, and as many
-- for the stores that became pending meanwhile: all of their items have been recomputed, batch first, and
-- the promises of both are resolved.
pub drain_ends :
    (b : Batch) (q : Queue)
    → q.draining ≡ running b
    → IsDrained b.todo q.pending b.batch_waiters q.waiters q
        (proceed_times (suc (length b.todo) + second_round q.pending) q)
drain_ends b q runs =
    let more = second_round q.pending in
    let steps = suc (length b.todo) in
    subst (IsDrained b.todo q.pending b.batch_waiters q.waiters q)
      (sym (
        ap (λ d. proceed_times (steps + more) (record q { draining = d })) runs
        ∙ proceed_more steps more (record q { draining = running b })
        ∙ ap (proceed_times more) (batch_ends b.todo b.batch_waiters q)))
      (ends b.todo q.pending b.batch_waiters q refl)
