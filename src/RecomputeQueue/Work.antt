-- ===== src/RecomputeQueue/Work.antt =====
-- Work that is asked for is done: recompute-queue.ts.
use Prim.Native.String.{String}
use stock_pilot_be.Prelude.{
  ℕ, suc, ◌+◌, ◌≡◌, refl, ◌&&◌, ◌||◌, not, Bool, true, false, List, [], ◌∷◌, ◌++◌, map, contains,
  ◌==◌, filter_by, length, Bool-cases, inl, inr, arith, ap, ◌∙◌,
}
use stock_pilot_be.RecomputeQueue.{
  add_id, add_ids, PendingStoreWork, Batch, running, Queue, schedule, enqueue, add_work, pairs,
  proceed_times, is_drain,
}
use stock_pilot_be.RecomputeQueue.Drain.{done, second_round, drain_ends}

-- The item of the store is among the work, or among what was recomputed.
abbrev pub wants : ℕ → ℕ → List (ℕ × PendingStoreWork) → Bool
wants store id [] = false
wants store id ((s, w) ∷ rest) = (s == store && contains id w.stock_item_ids) || wants store id rest

abbrev pub is_logged : ℕ → ℕ → List (ℕ × ℕ) → Bool
is_logged store id [] = false
is_logged store id ((s, i) ∷ rest) = (s == store && id == i) || is_logged store id rest

logged-append :
    (store id : ℕ) (xs ys : List (ℕ × ℕ))
    → is_logged store id (xs ++ ys) ≡ (is_logged store id xs || is_logged store id ys)
logged-append store id [] ys = refl
logged-append store id ((s, i) ∷ xs) ys = ground (arith, logged-append store id xs ys)

logged-pairs :
    (store id s : ℕ) (ids : List ℕ)
    → is_logged store id (map (λ i. (s, i)) ids) ≡ (s == store && contains id ids)
logged-pairs store id s [] = ground arith
logged-pairs store id s (i ∷ ids) = ground (arith, logged-pairs store id s ids)

done-logged :
    (store id : ℕ) (ws : List (ℕ × PendingStoreWork)) (log : List (ℕ × ℕ))
    → is_logged store id (done ws log) ≡ (wants store id ws || is_logged store id log)
done-logged store id [] log = refl
done-logged store id ((s, w) ∷ ws) log =
    done-logged store id ws (pairs s w ++ log)
    ∙ rw (logged-append store id (pairs s w) log, logged-pairs store id s w.stock_item_ids)
        (ground arith)

contains_added : (id : ℕ) (xs : List ℕ) → contains id (add_id xs id) ≡ true
unfolding add_id
contains_added id [] = ground arith
contains_added id (x ∷ xs) = elim (Bool-cases (x == id)) [
  | inl e ↦ rw e (ground (arith, e))
  | inr e ↦ rw e (ground (arith, e, contains_added id xs))
]

contains_still : (id j : ℕ) (xs : List ℕ) → contains id xs ≡ true → contains id (add_id xs j) ≡ true
unfolding add_id
contains_still id j [] h = cc
contains_still id j (x ∷ xs) h = elim (Bool-cases (x == j)) [
  | inl e ↦ rw e h
  | inr e ↦ rw e (elim (Bool-cases (id == x)) [
    | inl k ↦ rw k refl
    | inr k ↦ rw k (contains_still id j xs (rw k at h))
  ])
]

contains_always :
    (id : ℕ) (known ids : List ℕ)
    → contains id known ≡ true
    → contains id (add_ids known ids) ≡ true
contains_always id known [] h = h
contains_always id known (j ∷ ids) h =
    contains_always id (add_id known j) ids (contains_still id j known h)

contains-add_ids :
    (id : ℕ) (known ids : List ℕ) → contains id ids ≡ true → contains id (add_ids known ids) ≡ true
contains-add_ids id known [] h = cc
contains-add_ids id known (j ∷ ids) h = elim (Bool-cases (id == j)) [
  | inl e ↦
      let same : id ≡ j = ground (arith, e) in
      contains_always id (add_id known j) ids (rw same (contains_added j known))
  | inr e ↦ contains-add_ids id (add_id known j) ids (rw e at h)
]

same_store : (n : ℕ) → (n == n) ≡ true
same_store n = ground arith

add_work-wants :
    (store id : ℕ) (ids : List ℕ) (keys : List String) (ws : List (ℕ × PendingStoreWork))
    → contains id ids ≡ true
    → wants store id (add_work store ids keys ws) ≡ true
unfolding add_work
add_work-wants store id ids keys [] h = rw (same_store store, contains-add_ids id [] ids h) refl
add_work-wants store id ids keys ((s, w) ∷ ws) h = elim (Bool-cases (s == store)) [
  | inl e ↦ rw e (rw (e, contains-add_ids id w.stock_item_ids ids h) refl)
  | inr e ↦ rw e (rw e (add_work-wants store id ids keys ws h))
]

schedule-draining : (q : Queue) → (schedule q).draining ≡ q.draining
schedule-draining q = elim (Bool-cases (q.timer || is_drain q.draining)) [
  | inl e ↦ rw e refl
  | inr e ↦ rw e refl
]

schedule-pending : (q : Queue) → (schedule q).pending ≡ q.pending
schedule-pending q = elim (Bool-cases (q.timer || is_drain q.draining)) [
  | inl e ↦ rw e refl
  | inr e ↦ rw e refl
]

abbrev positive : List ℕ → List ℕ
positive = filter_by (λ id. not (id == 0))

contains-positive :
    (id : ℕ) (ids : List ℕ)
    → (id == 0) ≡ false
    → contains id ids ≡ true
    → contains id (positive ids) ≡ true
contains-positive id [] p h = cc
contains-positive id (x ∷ ids) p h = elim (Bool-cases (x == 0)) [
  | inl e ↦ rw e (contains-positive id ids p (rw (other id x p e) at h))
  | inr e ↦ rw e (elim (Bool-cases (id == x)) [
    | inl k ↦ rw k refl
    | inr k ↦ rw k (contains-positive id ids p (rw k at h))
  ])
]
  where
    other : (a b : ℕ) → (a == 0) ≡ false → (b == 0) ≡ true → (a == b) ≡ false
    other a b h k = ground arith

module _ (store id : ℕ) (ids : List ℕ) (keys : List String) (waiter : ℕ) (q : Queue)
    (some_id : (id == 0) ≡ false) (asked : contains id ids ≡ true) where
  some_work : (length (positive ids) == 0 && length keys == 0) ≡ false
  some_work = not_empty (positive ids) (contains-positive id ids some_id asked)
    where
      not_empty :
          (xs : List ℕ) → contains id xs ≡ true → (length xs == 0 && length keys == 0) ≡ false
      not_empty [] h = cc
      not_empty (x ∷ xs) h = ground arith

  enqueue-draining : (enqueue store ids keys waiter q).draining ≡ q.draining
  unfolding enqueue
  enqueue-draining = rw some_work (schedule-draining _)

  enqueue-wants : wants store id (enqueue store ids keys waiter q).pending ≡ true
  unfolding enqueue
  enqueue-wants = rw some_work (
      ap (wants store id) (schedule-pending _)
      ∙ add_work-wants store id (positive ids) keys q.pending
          (contains-positive id ids some_id asked))

  -- Work that comes while a drain runs is not forgotten: an item with a positive id that is asked for has
  -- been recomputed when the drain has ended, if nobody disturbs it until then.
  pub enqueue_recomputes :
      (b : Batch)
      → q.draining ≡ running b
      → is_logged store id
          (proceed_times
            (suc (length b.todo) + second_round (enqueue store ids keys waiter q).pending)
            (enqueue store ids keys waiter q)).recomputed
        ≡ true
  enqueue_recomputes b runs =
      let later = enqueue store ids keys waiter q in
      let drained = drain_ends b later (enqueue-draining ∙ runs) in
      ap (is_logged store id) drained.recomputed
      ∙ done-logged store id later.pending (done b.todo later.recomputed)
      ∙ ap (λ x. x || is_logged store id (done b.todo later.recomputed)) enqueue-wants
