-- ===== src/Returns/Request.antt =====
-- The requested lines of a return, merged by order item: return.service.ts.
use stock_pilot_be.Prelude.{
  ℕ, ◌≡◌, ◌∙◌, refl, Bool, true, false, List, [], ◌∷◌, ◌==◌, if◌then◌else◌, Bool-cases, inl, inr,
  All,
}
use stock_pilot_be.Prelude.Int.{ℤ, pos, ◌+ℤ◌, ◌<ℤ◌, int_laws}
use stock_pilot_be.Prelude.Result.{
  Result, ok, ◌>>=◌, ◌>>◌, ensure, validation, Ensures, Ensures-bind, Ensures-call, Ensures-map,
  returns,
}

pub record ReturnRequest : Type 0 where
  pub order_item_id : ℕ
  pub quantity : ℤ
  pub is_restockable : Bool

abbrev same_policy : Bool → Bool → Bool
same_policy true b = b
same_policy false b = if b then false else true

-- `requestItemsMap.set`: quantities add up, and two policies for one line are refused.
unfoldable pub merge_request : ReturnRequest → List ReturnRequest → Result (List ReturnRequest)
merge_request r [] = ok (r ∷ [])
merge_request r (x ∷ xs) = elim (x.order_item_id == r.order_item_id) [
  | true ↦ (do
    ensure (same_policy x.is_restockable r.is_restockable) validation
    ok (record x { quantity = x.quantity +ℤ r.quantity } ∷ xs))
  | false ↦ (do rest ← merge_request r xs; ok (x ∷ rest))
]

unfoldable pub merge_from : List ReturnRequest → List ReturnRequest → Result (List ReturnRequest)
merge_from acc [] = ok acc
merge_from acc (r ∷ rs) = do acc' ← merge_request r acc; merge_from acc' rs

unfoldable pub merge_requests : List ReturnRequest → Result (List ReturnRequest)
merge_requests = merge_from []

-- What the requests ask to return of one order item.
abbrev pub asked_back : ℕ → List ReturnRequest → ℤ
asked_back i [] = pos 0
asked_back i (r ∷ rs) = (if r.order_item_id == i then r.quantity else pos 0) +ℤ asked_back i rs

merge_request-asked :
    (i : ℕ) (r : ReturnRequest) (xs : List ReturnRequest)
    → Ensures (λ ys. asked_back i ys ≡ asked_back i (r ∷ xs)) (merge_request r xs)
unfolding merge_request
merge_request-asked i r [] = returns refl
merge_request-asked i r (x ∷ xs) = elim (Bool-cases (x.order_item_id == r.order_item_id)) [
  | inl same ↦ rw (same, merge_request) (Ensures-bind λ u eu. returns (grind int_laws))
  | inr other ↦
      rw (other, merge_request)
        (Ensures-call (merge_request-asked i r xs) λ ys e. returns (rw e (grind int_laws)))
]

merge_from-asked :
    (i : ℕ) (acc rs : List ReturnRequest)
    → Ensures (λ ys. asked_back i ys ≡ asked_back i acc +ℤ asked_back i rs) (merge_from acc rs)
unfolding merge_from
merge_from-asked i acc [] = returns (grind int_laws)
merge_from-asked i acc (r ∷ rs) =
    Ensures-call (merge_request-asked i r acc)
      λ acc' e. Ensures-map (merge_from-asked i acc' rs) λ ys h. h ∙ rw e (grind int_laws)

-- Merging loses nothing and adds nothing: of each order item the merged requests ask for what the
-- requests asked for altogether.
pub merge_requests-asked :
    (i : ℕ) (rs : List ReturnRequest)
    → Ensures (λ ys. asked_back i ys ≡ asked_back i rs) (merge_requests rs)
unfolding merge_requests
merge_requests-asked i rs = Ensures-map (merge_from-asked i [] rs) λ ys h. h ∙ grind int_laws

merge_request-positive :
    (r : ReturnRequest) (xs : List ReturnRequest)
    → pos 0 <ℤ r.quantity
    → All (λ x. pos 0 <ℤ x.quantity) xs
    → Ensures (All (λ x. pos 0 <ℤ x.quantity)) (merge_request r xs)
unfolding merge_request
merge_request-positive r [] more all = returns (more, tt)
merge_request-positive r (x ∷ xs) more all =
    elim (Bool-cases (x.order_item_id == r.order_item_id)) [
      | inl same ↦
          rw (same, merge_request)
            (Ensures-bind λ u eu. returns (sum x.quantity r.quantity all.0 more, all.1))
      | inr other ↦
          rw (other, merge_request)
            (Ensures-call (merge_request-positive r xs more all.1) λ ys h. returns (all.0, h))
    ]
  where
    sum : (a b : ℤ) → pos 0 <ℤ a → pos 0 <ℤ b → pos 0 <ℤ a +ℤ b
    sum a b ha hb = omega int_laws

merge_from-positive :
    (acc rs : List ReturnRequest)
    → All (λ x. pos 0 <ℤ x.quantity) acc
    → All (λ x. pos 0 <ℤ x.quantity) rs
    → Ensures (All (λ x. pos 0 <ℤ x.quantity)) (merge_from acc rs)
unfolding merge_from
merge_from-positive acc [] all more = returns all
merge_from-positive acc (r ∷ rs) all more =
    Ensures-call (merge_request-positive r acc more.0 all)
      λ acc' h. merge_from-positive acc' rs h more.1

pub merge_requests-positive :
    (rs : List ReturnRequest)
    → All (λ x. pos 0 <ℤ x.quantity) rs
    → Ensures (All (λ x. pos 0 <ℤ x.quantity)) (merge_requests rs)
unfolding merge_requests
merge_requests-positive rs more = merge_from-positive [] rs tt more
