-- ===== src/Idempotency/Lease.antt =====
-- What a run leaves in the table of the requests: idempotency.ts.
use text.Mathlib.Text.{◌==◌ as str_eq}
use text.Mathlib.TextPositions.{compare_refl}
use stock_pilot_be.Prelude.{
  ℕ, ◌≡◌, refl, true, false, Option, none, some, List, ◌∷◌, ◌==◌, ltb, leb, filter_by, length,
  Bool-cases, inl, inr, ap, sym, ◌∙◌, arith,
}
use stock_pilot_be.Prelude.Rows.{find_first, find_first-update_all}
use stock_pilot_be.Schema.{Database}
use stock_pilot_be.Idempotency.Recovery.{Body}
use stock_pilot_be.Idempotency.{
  IdempotencyRequest, RequestStatus, processing, completed, failed, Incoming, Verdict, run,
  Identity, is_of, expiry, is_reclaimable, recovered_or, opened_row, committed, open_request,
  reclaim, enter_same, enter,
}
use stock_pilot_be.Idempotency.Held.{open_request-IsHeld}

-- A row of the identity is being worked on until `until`.
abbrev pub IsLeased : Identity → ℕ → List IdempotencyRequest → Type 0
IsLeased i until rows =
    (r : IdempotencyRequest) × ((find_first (is_of i) rows ≡ some r)
      × (r.status ≡ processing)
      × (r.expires_at ≡ until))

same_number : (n : ℕ) → (n == n) ≡ true
same_number n = ground arith

module _ (db : Database) (now : ℕ) (q : Incoming) (i : Identity) where
  recovered_or-run :
      (v : Verdict × List IdempotencyRequest) (o : Option (ℕ × Body)) (id : ℕ)
      (rows : List IdempotencyRequest) (k : ℕ)
      → (recovered_or db now q i v o id rows).0 ≡ run k
      → recovered_or db now q i v o id rows ≡ v
  unfolding recovered_or
  recovered_or-run v none id rows k h = refl
  recovered_or-run v (some outcome) id rows k h = cc

  -- The row that a new request makes.
  opened-IsLeased :
      (id : ℕ) (rows : List IdempotencyRequest)
      → find_first (is_of i) rows ≡ none
      → IsLeased i (expiry now q) (open_request db now q i id rows).1
  unfolding open_request
  opened-IsLeased id rows free =
      rw (free, open_request) (opened_row db now q i id, (mine, refl, refl))
    where
      mine :
          find_first (is_of i) (opened_row db now q i id ∷ rows) ≡ some (opened_row db now q i id)
      mine = rw (same_number i.store_id, compare_refl i.operation, compare_refl i.key) refl

  -- The row that is taken over.
  reclaimed-IsLeased :
      (e : IdempotencyRequest) (rows : List IdempotencyRequest) (k : ℕ)
      → find_first (is_of i) rows ≡ some e
      → is_reclaimable e.id q.request_hash now e ≡ true
      → e.status ≡ processing
      → (reclaim db now q i e.id rows).0 ≡ run k
      → IsLeased i (expiry now q) (reclaim db now q i e.id rows).1
  unfolding reclaim
  reclaimed-IsLeased e rows k found due working h =
      elim (Bool-cases (length (filter_by (is_reclaimable e.id q.request_hash now) rows) == 1)) [
        | inr several ↦ cc
        | inl one ↦ rw one (
          record e { expires_at = expiry now q },
          (
            find_first-update_all (is_reclaimable e.id q.request_hash now) (is_of i) _ (λ x. refl)
                  rows
                ∙ rw (found, due) refl,
            working,
            refl,
          ),
        )
      ]

  enter_same-IsLeased :
      (id k : ℕ) (s : RequestStatus) (b : Option Body) (e : IdempotencyRequest)
      (rows : List IdempotencyRequest)
      → e.status ≡ s
      → str_eq e.request_hash q.request_hash ≡ true
      → find_first (is_of i) rows ≡ some e
      → (enter_same db now q i id s b e rows).0 ≡ run k
      → IsLeased i (expiry now q) (enter_same db now q i id s b e rows).1
  unfolding enter_same
  enter_same-IsLeased id k completed (some body) e rows es same found h = cc
  enter_same-IsLeased id k completed none e rows es same found h =
      absurd (open_request-IsHeld db now q i id e rows found k h)
  enter_same-IsLeased id k processing b e rows es same found h =
      elim (Bool-cases (ltb now e.expires_at)) [
        | inl early ↦ cc
        | inr late ↦
            let v = reclaim db now q i e.id rows in
            let o = committed db now q i in
            let taken : recovered_or db now q i v o e.id rows ≡ v =
              recovered_or-run v o e.id rows k (rw late at h) in
            rw (late, taken)
              (reclaimed-IsLeased e rows k found (due late) es
                (ap (λ x. x.0) (sym taken) ∙ (rw late at h)))
      ]
    where
      at_last : (n m : ℕ) → ltb n m ≡ false → leb m n ≡ true
      at_last n m h = ground arith

      due : ltb now e.expires_at ≡ false → is_reclaimable e.id q.request_hash now e ≡ true
      due late = rw (same_number e.id, es, same) (at_last now e.expires_at late)
  enter_same-IsLeased id k failed b e rows es same found h = cc

  looked_up-IsLeased :
      (id k : ℕ) (existing : Option IdempotencyRequest) (rows : List IdempotencyRequest)
      → find_first (is_of i) rows ≡ existing
      → (enter db now q i id existing rows).0 ≡ run k
      → IsLeased i (expiry now q) (enter db now q i id existing rows).1
  unfolding enter
  looked_up-IsLeased id k none rows found h = opened-IsLeased id rows found
  looked_up-IsLeased id k (some e) rows found h =
      elim (Bool-cases (str_eq e.request_hash q.request_hash)) [
        | inr differs ↦ cc
        | inl same ↦ rw same (
            enter_same-IsLeased id k e.status e.response_json e rows refl same found (rw same at h))
      ]

  -- A request that runs, after a lookup of the table as it is, leaves a row of its identity, which is
  -- processing and expires when the request's time is over.
  pub enter_leases :
      (id k : ℕ) (rows : List IdempotencyRequest)
      → (enter db now q i id (find_first (is_of i) rows) rows).0 ≡ run k
      → IsLeased i (expiry now q) (enter db now q i id (find_first (is_of i) rows) rows).1
  enter_leases id k rows h = looked_up-IsLeased id k (find_first (is_of i) rows) rows refl h
