-- ===== src/Prelude/Sort.antt =====
-- `Array.prototype.sort` by an ascending numeric key: a stable insertion sort.
use stock_pilot_be.Prelude.Tests.{leb, if◌then◌else◌, Bool-cases}
use stock_pilot_be.Prelude.Lists.{All}
use mathlib.Core.Logic.{inl, inr}
use Prim.Native.Nat.{ℕ}
use mathlib.Core.List.{List, [], ◌∷◌}

module _ {ℓ} {A : Type ℓ} (key : A → ℕ) where
  abbrev pub insert_by : A → List A → List A
  insert_by a [] = a ∷ []
  insert_by a (x ∷ xs) = if leb (key a) (key x) then a ∷ x ∷ xs else x ∷ insert_by a xs

  abbrev pub sort_by : List A → List A
  sort_by [] = []
  sort_by (x ∷ xs) = insert_by x (sort_by xs)

  module _ {κ} (P : A → Type κ) where
    pub All-insert_by : (a : A) (xs : List A) → P a → All P xs → All P (insert_by a xs)
    All-insert_by a [] p h = (p, tt)
    All-insert_by a (x ∷ xs) p h = elim (Bool-cases (leb (key a) (key x))) [
      | inl e ↦ rw e (p, h)
      | inr e ↦ rw e (h.0, All-insert_by a xs p h.1)
    ]

    pub All-sort_by : (xs : List A) → All P xs → All P (sort_by xs)
    All-sort_by [] h = tt
    All-sort_by (x ∷ xs) h = All-insert_by x (sort_by xs) h.0 (All-sort_by xs h.1)
