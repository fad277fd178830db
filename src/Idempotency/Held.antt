-- ===== src/Idempotency/Held.antt =====
-- No second run for a key: idempotency.ts.
use Prim.Native.String.{String}
use text.Mathlib.Text.{◌==◌ as str_eq}
use stock_pilot_be.Prelude.{
  ℕ, ◌≡◌, ◌≢◌, refl, ◌&&◌, Bool, true, false, Option, none, some, List, [], ◌∷◌, ◌==◌, ltb, leb,
  ◌<◌, filter_by, Bool-cases, inl, inr, All, arith,
}
use stock_pilot_be.Prelude.Rows.{find_first}
use stock_pilot_be.Prelude.Result.{conflict}
use stock_pilot_be.Schema.{Database}
use stock_pilot_be.Idempotency.Recovery.{Body}
use stock_pilot_be.Idempotency.{
  IdempotencyRequest, RequestStatus, processing, completed, failed, Incoming, Verdict, run, reject,
  Identity, is_of, is_reclaimable, recovered_or, meet_same, meet, open_request, reclaim, enter_same,
  enter,
}

-- The request may run in no way.
abbrev pub IsHeld : Verdict → Type 0
IsHeld v = (id : ℕ) → v ≢ run id

module _ (db : Database) (now : ℕ) (q : Incoming) (i : Identity) where
  recovered_or-IsHeld :
      (v : Verdict × List IdempotencyRequest) (o : Option (ℕ × Body)) (id : ℕ)
      (rows : List IdempotencyRequest)
      → IsHeld v.0
      → IsHeld (recovered_or db now q i v o id rows).0
  unfolding recovered_or
  recovered_or-IsHeld v none id rows h = h
  recovered_or-IsHeld v (some outcome) id rows h = λ k e. cc

  meet_same-IsHeld :
      (s : RequestStatus) (b : Option Body) (r : IdempotencyRequest)
      (rows : List IdempotencyRequest)
      → IsHeld (meet_same db now q i s b r rows).0
  unfolding meet_same
  meet_same-IsHeld completed (some body) r rows = λ k e. cc
  meet_same-IsHeld completed none r rows = λ k e. cc
  meet_same-IsHeld processing b r rows = elim (Bool-cases (leb r.expires_at now)) [
    | inl late ↦ rw late (recovered_or-IsHeld (reject conflict, rows) _ r.id rows (λ k e. cc))
    | inr early ↦ rw early (λ k e. cc)
  ]
  meet_same-IsHeld failed b r rows = λ k e. cc

  meet-IsHeld :
      (r : IdempotencyRequest) (rows : List IdempotencyRequest) → IsHeld (meet db now q i r rows).0
  unfolding meet
  meet-IsHeld r rows = elim (Bool-cases (str_eq r.request_hash q.request_hash)) [
    | inl same ↦ rw same (meet_same-IsHeld r.status r.response_json r rows)
    | inr differs ↦ rw differs (λ k e. cc)
  ]

  pub open_request-IsHeld :
      (id : ℕ) (r : IdempotencyRequest) (rows : List IdempotencyRequest)
      → find_first (is_of i) rows ≡ some r
      → IsHeld (open_request db now q i id rows).0
  unfolding open_request
  open_request-IsHeld id r rows found = rw (found, open_request) (meet-IsHeld r rows)

  -- No row with the id can be taken over by now.
  abbrev pub IsUnexpired : ℕ → List IdempotencyRequest → Type 0
  IsUnexpired id = All (λ r. (r.id == id) ≡ true → now < r.expires_at)

  none_reclaimable :
      (id : ℕ) (hash : String) (rows : List IdempotencyRequest)
      → IsUnexpired id rows
      → filter_by (is_reclaimable id hash now) rows ≡ []
  none_reclaimable id hash [] h = refl
  none_reclaimable id hash (r ∷ rows) h = rw (not_due r h.0) (none_reclaimable id hash rows h.1)
    where
      not_due :
          (r : IdempotencyRequest)
          → ((r.id == id) ≡ true → now < r.expires_at)
          → is_reclaimable id hash now r ≡ false
      not_due r h = elim (Bool-cases (r.id == id)) [
        | inr other ↦ rw other refl
        | inl same ↦ rw same (last _ _ _ (late r.expires_at (h same)))
      ]
        where
          late : (n : ℕ) → now < n → leb n now ≡ false
          late n h = ground arith

          last : (a b c : Bool) → c ≡ false → (a && (b && c)) ≡ false
          last true true c e = e
          last true false c e = refl
          last false b c e = refl

  reclaim-IsHeld :
      (id : ℕ) (rows : List IdempotencyRequest)
      → IsUnexpired id rows
      → IsHeld (reclaim db now q i id rows).0
  unfolding reclaim
  reclaim-IsHeld id rows h = rw (none_reclaimable id q.request_hash rows h) (λ k e. cc)

  enter_same-IsHeld :
      (id : ℕ) (s : RequestStatus) (b : Option Body) (e : IdempotencyRequest)
      (r : IdempotencyRequest) (rows : List IdempotencyRequest)
      → find_first (is_of i) rows ≡ some r
      → IsUnexpired e.id rows
      → IsHeld (enter_same db now q i id s b e rows).0
  unfolding enter_same
  enter_same-IsHeld id completed (some body) e r rows found h = λ k e. cc
  enter_same-IsHeld id completed none e r rows found h = open_request-IsHeld id r rows found
  enter_same-IsHeld id processing b e r rows found h = elim (Bool-cases (ltb now e.expires_at)) [
    | inl early ↦ rw early (λ k e. cc)
    | inr late ↦ rw late (recovered_or-IsHeld _ _ e.id rows (reclaim-IsHeld e.id rows h))
  ]
  enter_same-IsHeld id failed b e r rows found h = λ k e. cc

  -- While the table has a row of the identity, a request does not run, whatever row its first lookup
  -- found, if no row with that row's id has expired by now.
  pub enter_held :
      (id : ℕ) (existing : Option IdempotencyRequest) (r : IdempotencyRequest)
      (rows : List IdempotencyRequest)
      → find_first (is_of i) rows ≡ some r
      → ((e : IdempotencyRequest) → existing ≡ some e → IsUnexpired e.id rows)
      → (k : ℕ) → (enter db now q i id existing rows).0 ≢ run k
  unfolding enter
  enter_held id none r rows found h = open_request-IsHeld id r rows found
  enter_held id (some e) r rows found h = elim (Bool-cases (str_eq e.request_hash q.request_hash)) [
    | inl same ↦ rw same (enter_same-IsHeld id e.status e.response_json e r rows found (h e refl))
    | inr differs ↦ rw differs (λ k e. cc)
  ]
