-- ===== src/LoginGuard/Times.antt =====
-- Lists of times, as the queries of login-guard.service.ts order and cut them.
use stock_pilot_be.Prelude.{
  ℕ, zero, suc, ◌≡◌, refl, Bool, true, Option, none, some, List, [], ◌∷◌, ltb, leb, filter_by,
  length, All, if◌then◌else◌, Bool-cases, inl, inr, ap, ◌∙◌, arith,
}

abbrev pub insert_down : ℕ → List ℕ → List ℕ
insert_down t [] = t ∷ []
insert_down t (x ∷ xs) = if leb x t then t ∷ x ∷ xs else x ∷ insert_down t xs

-- `orderBy: { createdAt: 'desc' }`
abbrev pub sort_down : List ℕ → List ℕ
sort_down [] = []
sort_down (x ∷ xs) = insert_down x (sort_down xs)

-- `take`
abbrev pub take_first : ℕ → List ℕ → List ℕ
take_first zero xs = []
take_first (suc n) [] = []
take_first (suc n) (x ∷ xs) = x ∷ take_first n xs

abbrev pub last_of : ℕ → List ℕ → ℕ
last_of t [] = t
last_of t (x ∷ xs) = last_of x xs

-- `findFirst` of the newest.
abbrev pub newest : List ℕ → Option ℕ
newest xs = first_of (sort_down xs)
  where
    first_of : List ℕ → Option ℕ
    first_of [] = none
    first_of (t ∷ ts) = some t

length-insert_down : (t : ℕ) (xs : List ℕ) → length (insert_down t xs) ≡ suc (length xs)
length-insert_down t [] = refl
length-insert_down t (x ∷ xs) = elim (Bool-cases (leb x t)) [
  | inl e ↦ rw e refl
  | inr e ↦ rw e (ap suc (length-insert_down t xs))
]

pub length-sort_down : (xs : List ℕ) → length (sort_down xs) ≡ length xs
length-sort_down [] = refl
length-sort_down (x ∷ xs) = length-insert_down x (sort_down xs) ∙ ap suc (length-sort_down xs)

-- A list is cut to less than `n` if it has less.
pub ltb-take_first : (n : ℕ) (xs : List ℕ) → ltb (length (take_first n xs)) n ≡ ltb (length xs) n
ltb-take_first zero xs = ground arith
ltb-take_first (suc n) [] = refl
ltb-take_first (suc n) (x ∷ xs) = ground (arith, ltb-take_first n xs)

module _ {κ} (P : ℕ → Type κ) where
  All-insert_down : (t : ℕ) (xs : List ℕ) → P t → All P xs → All P (insert_down t xs)
  All-insert_down t [] p h = (p, tt)
  All-insert_down t (x ∷ xs) p h = elim (Bool-cases (leb x t)) [
    | inl e ↦ rw e (p, h)
    | inr e ↦ rw e (h.0, All-insert_down t xs p h.1)
  ]

  pub All-sort_down : (xs : List ℕ) → All P xs → All P (sort_down xs)
  All-sort_down [] h = tt
  All-sort_down (x ∷ xs) h = All-insert_down x (sort_down xs) h.0 (All-sort_down xs h.1)

  pub All-take_first : (n : ℕ) (xs : List ℕ) → All P xs → All P (take_first n xs)
  All-take_first zero xs h = tt
  All-take_first (suc n) [] h = tt
  All-take_first (suc n) (x ∷ xs) h = (h.0, All-take_first n xs h.1)

  pub All-last_of : (t : ℕ) (xs : List ℕ) → P t → All P xs → P (last_of t xs)
  All-last_of t [] p h = p
  All-last_of t (x ∷ xs) p h = All-last_of x xs h.0 h.1

pub All-filter_by {κ} :
    {A : Type 0} (P : A → Type κ) (p : A → Bool) (xs : List A)
    → ((x : A) → p x ≡ true → P x)
    → All P (filter_by p xs)
All-filter_by P p [] h = tt
All-filter_by P p (x ∷ xs) h = elim (Bool-cases (p x)) [
  | inl e ↦ rw e (h x e, All-filter_by P p xs h)
  | inr e ↦ rw e (All-filter_by P p xs h)
]
