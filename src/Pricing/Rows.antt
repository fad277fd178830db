-- ===== src/Pricing/Rows.antt =====
-- The rows of the recommendations: unique ids, and at most one pending row for an item of a store.
use stock_pilot_be.Prelude.{
  ℕ, ◌≤◌, ◌<◌, ◌≡◌, refl, sym, ap, ◌∙◌, Bool, true, none, some, List, [], ◌∷◌, All, ==_iff, inl,
  inr, arith, Bool-cases,
}
use stock_pilot_be.Prelude.Rows.{find_first, update_first, update_all, some_injective}
use stock_pilot_be.Pricing.{PricingRecommendation, is_undecided, has_id, is_pending_of}

-- A row was rewritten: it is of the same item, and pending only if it was.
pub record Rewrites {W : Type 0} (x y : PricingRecommendation W) : Type 0 where
  pub same_id : y.id ≡ x.id
  pub same_store : y.store_id ≡ x.store_id
  pub same_item : y.stock_item_id ≡ x.stock_item_id
  pub was_pending : is_undecided y.status ≡ true → is_undecided x.status ≡ true

module _ {W : Type 0} where
  abbrev pub AllRewritten : List (PricingRecommendation W) → List (PricingRecommendation W) → Type 0
  AllRewritten [] [] = Unit
  AllRewritten [] (y ∷ ys) = ⊥
  AllRewritten (x ∷ xs) [] = ⊥
  AllRewritten (x ∷ xs) (y ∷ ys) = Rewrites x y × AllRewritten xs ys

  abbrev pub IsUnique : List (PricingRecommendation W) → Type 0
  IsUnique [] = Unit
  IsUnique (x ∷ xs) = (find_first (has_id x.id) xs ≡ none) × IsUnique xs

  -- At most one row of each item of each store is pending.
  abbrev pub IsSingle : List (PricingRecommendation W) → Type 0
  IsSingle [] = Unit
  IsSingle (x ∷ xs) =
      (is_undecided x.status ≡ true
        → find_first (is_pending_of x.store_id x.stock_item_id) xs ≡ none)
      × IsSingle xs

  abbrev pub IsFresh : ℕ → List (PricingRecommendation W) → Type 0
  IsFresh next = All (λ r. r.id < next)

  kept : (x : PricingRecommendation W) → Rewrites x x
  kept x = record { same_id = refl; same_store = refl; same_item = refl; was_pending = λ h. h }

  pub all_kept : (rows : List (PricingRecommendation W)) → AllRewritten rows rows
  all_kept [] = tt
  all_kept (x ∷ xs) = (kept x, all_kept xs)

  module _ (p : PricingRecommendation W → Bool)
      (w : PricingRecommendation W → PricingRecommendation W) where
    pub update_first-AllRewritten :
        (rows : List (PricingRecommendation W))
        → ((x : PricingRecommendation W) → find_first p rows ≡ some x → Rewrites x (w x))
        → AllRewritten rows (update_first p w rows)
    update_first-AllRewritten [] h = tt
    update_first-AllRewritten (x ∷ xs) h = elim (Bool-cases (p x)) [
      | inl e ↦ rw e (h x (rw e refl), all_kept xs)
      | inr e ↦ rw e (kept x, update_first-AllRewritten xs λ y found. h y (rw e found))
    ]

    pub update_all-AllRewritten :
        ((x : PricingRecommendation W) → p x ≡ true → Rewrites x (w x))
        → (rows : List (PricingRecommendation W)) → AllRewritten rows (update_all p w rows)
    update_all-AllRewritten h [] = tt
    update_all-AllRewritten h (x ∷ xs) = elim (Bool-cases (p x)) [
      | inl e ↦ rw e (h x e, update_all-AllRewritten h xs)
      | inr e ↦ rw e (kept x, update_all-AllRewritten h xs)
    ]

  -- What no row had, no rewritten row has.
  none-AllRewritten :
      (p : PricingRecommendation W → Bool)
      → ((x y : PricingRecommendation W) → Rewrites x y → p y ≡ true → p x ≡ true)
      → (xs ys : List (PricingRecommendation W)) → AllRewritten xs ys
      → find_first p xs ≡ none
      → find_first p ys ≡ none
  none-AllRewritten p back [] [] all h = refl
  none-AllRewritten p back [] (y ∷ ys) all h = absurd all
  none-AllRewritten p back (x ∷ xs) [] all h = absurd all
  none-AllRewritten p back (x ∷ xs) (y ∷ ys) all h = elim (Bool-cases (p y)) [
    | inl e ↦ absurd (clash x (back x y all.0 e) (rw (back x y all.0 e) at h))
    | inr e ↦ elim (Bool-cases (p x)) [
      | inl d ↦ absurd (clash x d (rw d at h))
      | inr d ↦ rw e (none-AllRewritten p back xs ys all.1 (rw d at h))
    ]
  ]
    where
      clash : (x : PricingRecommendation W) → p x ≡ true → some x ≡ none → ⊥
      clash x d k = cc

  pub AllRewritten-IsUnique :
      (xs ys : List (PricingRecommendation W)) → AllRewritten xs ys → IsUnique xs → IsUnique ys
  AllRewritten-IsUnique [] [] all h = tt
  AllRewritten-IsUnique [] (y ∷ ys) all h = absurd all
  AllRewritten-IsUnique (x ∷ xs) [] all h = absurd all
  AllRewritten-IsUnique (x ∷ xs) (y ∷ ys) all h = (
    rw (all.0.same_id)
        (none-AllRewritten (has_id x.id) (λ u v k e. rw (k.same_id) at e) xs ys all.1 h.0),
    AllRewritten-IsUnique xs ys all.1 h.1,
  )

  still_pending :
      (store item : ℕ) (x y : PricingRecommendation W)
      → Rewrites x y
      → is_pending_of store item y ≡ true
      → is_pending_of store item x ≡ true
  still_pending store item x y k e = ground arith

  pub AllRewritten-IsSingle :
      (xs ys : List (PricingRecommendation W)) → AllRewritten xs ys → IsSingle xs → IsSingle ys
  AllRewritten-IsSingle [] [] all h = tt
  AllRewritten-IsSingle [] (y ∷ ys) all h = absurd all
  AllRewritten-IsSingle (x ∷ xs) [] all h = absurd all
  AllRewritten-IsSingle (x ∷ xs) (y ∷ ys) all h = (
    λ p.
        rw (all.0.same_store, all.0.same_item)
          (none-AllRewritten (is_pending_of x.store_id x.stock_item_id)
            (still_pending x.store_id x.stock_item_id) xs ys all.1 (h.0 (all.0.was_pending p))),
    AllRewritten-IsSingle xs ys all.1 h.1,
  )

  pub AllRewritten-IsFresh :
      (n m : ℕ) (xs ys : List (PricingRecommendation W))
      → n ≤ m
      → AllRewritten xs ys
      → IsFresh n xs
      → IsFresh m ys
  AllRewritten-IsFresh n m [] [] le all h = tt
  AllRewritten-IsFresh n m [] (y ∷ ys) le all h = absurd all
  AllRewritten-IsFresh n m (x ∷ xs) [] le all h = absurd all
  AllRewritten-IsFresh n m (x ∷ xs) (y ∷ ys) le all h =
      (let e = all.0.same_id in omega arith, AllRewritten-IsFresh n m xs ys le all.1 h.1)

  -- The first row that fits is the row of its id.
  pub find_by_id :
      (p : PricingRecommendation W → Bool) (rows : List (PricingRecommendation W))
      (r : PricingRecommendation W)
      → IsUnique rows
      → find_first p rows ≡ some r
      → find_first (has_id r.id) rows ≡ some r
  find_by_id p [] r u h = cc
  find_by_id p (x ∷ xs) r u h = elim (Bool-cases (p x)) [
    | inl e ↦
        let same : x ≡ r = some_injective (rw e at h) in
        rw same (rw ((==_iff r.id r.id).1 refl) refl)
    | inr e ↦
        let rest : find_first (has_id r.id) xs ≡ some r = find_by_id p xs r u.1 (rw e at h) in
        elim (Bool-cases (has_id r.id x)) [
          | inr d ↦ rw d rest
          | inl d ↦
              absurd (
                clash
                  (sym rest ∙ ap (λ i. find_first (has_id i) xs) (sym ((==_iff _ _).0 d)) ∙ u.0))
        ]
  ]
    where
      clash : some r ≡ none → ⊥
      clash k = cc

  -- No row has an id that is still to come.
  pub fresh_id :
      (next : ℕ) (rows : List (PricingRecommendation W))
      → IsFresh next rows
      → find_first (has_id next) rows ≡ none
  fresh_id next [] h = refl
  fresh_id next (x ∷ xs) h = elim (Bool-cases (has_id next x)) [
    | inl e ↦ absurd (omega (arith, (==_iff x.id next).0 e, h.0))
    | inr e ↦ rw e (fresh_id next xs h.1)
  ]
