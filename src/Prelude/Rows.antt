-- ===== src/Prelude/Rows.antt =====
-- Tables as lists of rows: the lookups and updates that a `where` on a key makes.
use mathlib.Core.Path.{◌≡◌, refl, subst}
use mathlib.Core.Bool.{Bool, true, false}
use mathlib.Core.Option
use mathlib.Core.Option.{Option, none, some}
use mathlib.Core.List.{List, [], ◌∷◌}
use native.Mathlib.Omega.{arith}
use stock_pilot_be.Prelude.Tests.{if◌then◌else◌, Bool-cases}
use stock_pilot_be.Prelude.Lists.{All, filter_by}
use mathlib.Core.Logic.{inl, inr}

module _ {ℓ} {A : Type ℓ} where
  -- The first row that fits.
  abbrev pub find_first : (A → Bool) → List A → Option A
  find_first p [] = none
  find_first p (x ∷ xs) = if p x then some x else find_first p xs

  -- Writes the first row that fits: the row of a unique key.
  abbrev pub update_first : (A → Bool) → (A → A) → List A → List A
  update_first p f [] = []
  update_first p f (x ∷ xs) = if p x then f x ∷ xs else x ∷ update_first p f xs

  -- Writes every row that fits.
  abbrev pub update_all : (A → Bool) → (A → A) → List A → List A
  update_all p f [] = []
  update_all p f (x ∷ xs) = (if p x then f x else x) ∷ update_all p f xs

  -- `some x ↦ test x`, and `false` without a row.
  abbrev pub holds : (A → Bool) → Option A → Bool
  holds g none = false
  holds g (some x) = g x

module _ {ℓ} {A : Type ℓ} (p : A → Bool) (f : A → A) (keeps : (x : A) → p (f x) ≡ p x) where
  pub find_first-update_self :
      (xs : List A) → find_first p (update_first p f xs) ≡ Option.map f (find_first p xs)
  find_first-update_self [] = refl
  find_first-update_self (x ∷ xs) = elim (Bool-cases (p x)) [
    | inl e ↦ rw (e, keeps x) (rw e)
    | inr e ↦ rw (e, e) (find_first-update_self xs)
  ]

pub All-filter_by {ℓ κ} :
    {A : Type ℓ} (P : A → Type κ) (p : A → Bool) (xs : List A) → All P xs → All P (filter_by p xs)
All-filter_by P p [] h = tt
All-filter_by P p (x ∷ xs) h = elim (Bool-cases (p x)) [
  | inl e ↦ rw e (h.0, All-filter_by P p xs h.1)
  | inr e ↦ rw e (All-filter_by P p xs h.1)
]

module _ {ℓ} {A : Type ℓ} (p q : A → Bool) (f : A → A) (keeps : (x : A) → q (f x) ≡ q x) where
  pub find_first-update_ne :
      ((x : A) → p x ≡ true → q x ≡ false)
      → (xs : List A) → find_first q (update_first p f xs) ≡ find_first q xs
  find_first-update_ne apart [] = refl
  find_first-update_ne apart (x ∷ xs) = elim (Bool-cases (p x)) [
    | inl e ↦ rw e (rw (keeps x, apart x e))
    | inr e ↦
        rw e
          (elim (Bool-cases (q x)) [ inl h ↦ rw h | inr h ↦ rw h (find_first-update_ne apart xs) ])
  ]

-- A row that is found fits.
pub find_first_fits {ℓ} :
    {A : Type ℓ} (p : A → Bool) (xs : List A) (x : A) → find_first p xs ≡ some x → p x ≡ true
find_first_fits p [] x h = cc
find_first_fits p (y ∷ xs) x h = elim (Bool-cases (p y)) [
  | inl e ↦ ground (arith, e)
  | inr e ↦ find_first_fits p xs x (rw e at h)
]

-- A write to the first row that fits keeps a property of all the rows, if it keeps it for that row.
pub All-update_first {ℓ κ} :
    {A : Type ℓ} (P : A → Type κ) (p : A → Bool) (f : A → A) (xs : List A)
    → ((x : A) → find_first p xs ≡ some x → P x → P (f x))
    → All P xs
    → All P (update_first p f xs)
All-update_first P p f [] h all = all
All-update_first P p f (x ∷ xs) h all = elim (Bool-cases (p x)) [
  | inl e ↦ rw e (h x (rw e) all.0, all.1)
  | inr e ↦ rw e (all.0, All-update_first P p f xs (λ y found. h y (rw e found)) all.1)
]

pub some_injective {ℓ} : {A : Type ℓ} {a b : A} → some a ≡ some b → a ≡ b
some_injective e = cc

pub All-find_first {ℓ κ} :
    {A : Type ℓ} (P : A → Type κ) (p : A → Bool) (xs : List A) (x : A)
    → All P xs
    → find_first p xs ≡ some x
    → P x
All-find_first P p [] x all h = cc
All-find_first P p (y ∷ xs) x all h = elim (Bool-cases (p y)) [
  | inl e ↦ subst P (some_injective (rw e at h)) all.0
  | inr e ↦ All-find_first P p xs x all.1 (rw e at h)
]

module _ {ℓ} {A : Type ℓ} (p q : A → Bool) (f : A → A) (keeps : (x : A) → q (f x) ≡ q x) where
  -- What a lookup finds after every row that fits was written.
  pub find_first-update_all :
      (xs : List A)
      → find_first q (update_all p f xs)
        ≡ Option.map (λ x. if p x then f x else x) (find_first q xs)
  find_first-update_all [] = refl
  find_first-update_all (x ∷ xs) = elim (Bool-cases (p x)) [
    | inl e ↦ rw e (elim (Bool-cases (q x)) [
      | inl h ↦ rw (keeps x, h) (rw e refl)
      | inr h ↦ rw (keeps x, h) (find_first-update_all xs)
    ])
    | inr e ↦ rw e (elim (Bool-cases (q x)) [
      | inl h ↦ rw h (rw e refl)
      | inr h ↦ rw h (find_first-update_all xs)
    ])
  ]

  -- A row that two lookups find is written for both.
  pub find_first-update_both :
      (xs : List A) (r : A)
      → find_first p xs ≡ some r
      → find_first q xs ≡ some r
      → find_first q (update_first p f xs) ≡ some (f r)
  find_first-update_both [] r ep eq = cc
  find_first-update_both (x ∷ xs) r ep eq = elim (Bool-cases (p x)) [
    | inl e ↦
        let same : x ≡ r = some_injective (rw e at ep) in
        rw e (rw (keeps x, same, find_first_fits q (x ∷ xs) r eq) refl)
    | inr e ↦ elim (Bool-cases (q x)) [
      | inl h ↦
          let same : x ≡ r = some_injective (rw h at eq) in
          let fits : p r ≡ true = find_first_fits p (x ∷ xs) r ep in
          absurd (contrary (p r) fits (rw (← same) e))
      | inr h ↦ rw (e, h) (find_first-update_both xs r (rw e at ep) (rw h at eq))
    ]
  ]
    where
      contrary : (b : Bool) → b ≡ true → b ≡ false → ⊥
      contrary b h k = cc

-- A row that is found is found among the rows that pass a filter, if it passes.
pub find_first-filter {ℓ} :
    {A : Type ℓ} (p g : A → Bool) (xs : List A) (r : A)
    → find_first p xs ≡ some r
    → g r ≡ true
    → find_first p (filter_by g xs) ≡ some r
find_first-filter p g [] r found h = cc
find_first-filter p g (x ∷ xs) r found h = elim (Bool-cases (p x)) [
  | inl e ↦
      let same : x ≡ r = some_injective (rw e at found) in
      rw (same, h) (rw (find_first_fits p (x ∷ xs) r found) refl)
  | inr e ↦
      let rest : find_first p (filter_by g xs) ≡ some r =
        find_first-filter p g xs r (rw e at found) h in
      elim (Bool-cases (g x)) [ inl k ↦ rw k (rw e rest) | inr k ↦ rw k rest ]
]
