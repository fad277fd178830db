-- ===== src/Ledger/Posting.antt =====
-- What the stock ledger promises, with no word on how: a posting changes the quantity of one balance
-- row and puts one movement, which explains the change, in front of the ledger.
use stock_pilot_be.Prelude.{
  ℕ, ◌≡◌, refl, ◌&&◌, Bool, true, false, List, [], ◌∷◌, ◌++◌, arith, ◌==◌, if◌then◌else◌,
  Bool-cases, inl, inr, ap, sym, subst, ◌∙◌,
}
use stock_pilot_be.Prelude.Int.{ℤ, pos, ◌+ℤ◌, ◌≤ℤ◌, int_laws, +ℤ_zero, +ℤ_assoc}
use stock_pilot_be.Schema.{Database, StockMovement}
use stock_pilot_be.Ledger.Balances.{quantity_at}

-- The stock on hand of a warehouse and an item.
abbrev pub on_hand : ℕ → ℕ → Database → ℤ
on_hand w i db = quantity_at w i db.balances

-- The movement is one of the warehouse's and the item's.
abbrev pub moves : ℕ → ℕ → StockMovement → Bool
moves w i m = m.warehouse_id == w && m.stock_item_id == i

-- The quantity of `(w, i)` moves by `q`, and `m` says so.
pub record Posts (w i : ℕ) (q : ℤ) (m : StockMovement) (db db' : Database) : Type 0 where
  pub movements : db'.movements ≡ m ∷ db.movements
  pub warehouse : m.warehouse_id ≡ w
  pub item : m.stock_item_id ≡ i
  pub delta : m.delta ≡ q
  pub before : m.before_quantity ≡ on_hand w i db
  pub after : m.after_quantity ≡ on_hand w i db +ℤ q
  pub balances :
      (u j : ℕ)
      → on_hand u j db' ≡ (if w == u && i == j then on_hand w i db +ℤ q else on_hand u j db)

-- Nothing of the stock changes.
pub record Keeps (db db' : Database) : Type 0 where
  pub movements : db'.movements ≡ db.movements
  pub balances : (u j : ℕ) → on_hand u j db' ≡ on_hand u j db

-- A run of postings, oldest first, none of which leaves a negative quantity.
pub data Journal : List StockMovement → Database → Database → Type 0 where
  kept : {db db' : Database} → Keeps db db' → Journal [] db db'
  posted :
      {w i : ℕ} {q : ℤ} {m : StockMovement} {ms : List StockMovement} {db db' db'' : Database}
      → Posts w i q m db db'
      → pos 0 ≤ℤ on_hand w i db +ℤ q
      → Journal ms db' db''
      → Journal (m ∷ ms) db db''

pub Keeps-refl : (db : Database) → Keeps db db
Keeps-refl db = record { movements = refl; balances = λ u j. refl }

pub Keeps-trans : {a b c : Database} → Keeps a b → Keeps b c → Keeps a c
Keeps-trans k l = record {
  movements = l.movements ∙ k.movements;
  balances = λ u j. l.balances u j ∙ k.balances u j;
}

Posts-after :
    {w i : ℕ} {q : ℤ} {m : StockMovement} {a b c : Database}
    → Keeps a b
    → Posts w i q m b c
    → Posts w i q m a c
Posts-after {w} {i} {q} {m} {a} {b} {c} k p = record {
  movements = p.movements ∙ ap (◌∷◌ m) k.movements;
  warehouse = p.warehouse;
  item = p.item;
  delta = p.delta;
  before = p.before ∙ k.balances w i;
  after = p.after ∙ ap (λ x. x +ℤ q) (k.balances w i);
  balances = λ u j. rw (← k.balances w i, ← k.balances u j) (p.balances u j);
}

pub Journal-after :
    {ms : List StockMovement} {a b c : Database} → Keeps a b → Journal ms b c → Journal ms a c
Journal-after k (kept l) = kept (Keeps-trans k l)
Journal-after {ms} {a} {b} {c} k (posted {w = w} {i = i} {q = q} p h j) =
    posted (Posts-after k p) (rw (← k.balances w i) h) j

pub Journal-append :
    {ms ns : List StockMovement} {a b c : Database}
    → Journal ms a b
    → Journal ns b c
    → Journal (ms ++ ns) a c
Journal-append (kept k) l = Journal-after k l
Journal-append (posted p h j) l = posted p h (Journal-append j l)

-- No quantity is negative.
abbrev pub IsStocked : Database → Type 0
IsStocked db = (u j : ℕ) → pos 0 ≤ℤ on_hand u j db

Posts-IsStocked :
    (w i : ℕ) (q : ℤ) (m : StockMovement) (a b : Database)
    → Posts w i q m a b
    → pos 0 ≤ℤ on_hand w i a +ℤ q
    → IsStocked a
    → IsStocked b
Posts-IsStocked w i q m a b p h s u j = ground (arith, p.balances u j, s u j)

pub Journal-IsStocked :
    {ms : List StockMovement} {a b : Database} → Journal ms a b → IsStocked a → IsStocked b
Journal-IsStocked (kept k) s = λ u j. rw (k.balances u j) (s u j)
Journal-IsStocked (posted {w = w} {i = i} {q = q} {m = m} {db = a} {db' = b} p h j) s =
    Journal-IsStocked j (Posts-IsStocked w i q m a b p h s)

-- Read from the newest movement back, the ledger explains a quantity: the newest movement of the
-- warehouse and item ends at it, every movement adds its delta, and each begins where the one before
-- it ended.
abbrev pub Explains : ℕ → ℕ → ℤ → List StockMovement → Type 0
Explains w i q [] = Unit
Explains w i q (m ∷ ms) =
    if moves w i m
    then (m.after_quantity ≡ q)
      × (m.after_quantity ≡ m.before_quantity +ℤ m.delta)
      × Explains w i m.before_quantity ms
    else Explains w i q ms

-- The ledger explains every quantity on hand.
abbrev pub IsExplained : Database → Type 0
IsExplained db = (u j : ℕ) → Explains u j (on_hand u j db) db.movements

Posts-IsExplained :
    (w i : ℕ) (q : ℤ) (m : StockMovement) (a b : Database)
    → Posts w i q m a b
    → IsExplained a
    → IsExplained b
Posts-IsExplained w i q m a b p e u j = elim (Bool-cases (moves u j m)) [
  | inl here ↦
      rw (p.movements, here)
        (
          ground (arith, p.balances u j),
          ground arith,
          subst (λ x. Explains u j x a.movements) (same here) (e u j),
        )
  | inr away ↦ rw (p.movements, away) (subst (λ x. Explains u j x a.movements) (other away) (e u j))
]
  where
    same : moves u j m ≡ true → on_hand u j a ≡ m.before_quantity
    same here = ground arith

    other : moves u j m ≡ false → on_hand u j a ≡ on_hand u j b
    other away = ground (arith, p.balances u j)

pub Journal-IsExplained :
    {ms : List StockMovement} {a b : Database} → Journal ms a b → IsExplained a → IsExplained b
Journal-IsExplained (kept {db = a} k) e =
    λ u j. rw k.movements (subst (λ x. Explains u j x a.movements) (sym (k.balances u j)) (e u j))
Journal-IsExplained (posted {w = w} {i = i} {q = q} {m = m} {db = a} {db' = b} p h j) e =
    Journal-IsExplained j (Posts-IsExplained w i q m a b p e)

-- The sum of the movements of a warehouse and an item.
abbrev pub moved : ℕ → ℕ → List StockMovement → ℤ
moved w i [] = pos 0
moved w i (m ∷ ms) = (if moves w i m then m.delta else pos 0) +ℤ moved w i ms

pub moved-append :
    (u j : ℕ) (ms ns : List StockMovement) → moved u j (ms ++ ns) ≡ moved u j ms +ℤ moved u j ns
moved-append u j [] ns = grind int_laws
moved-append u j (m ∷ ms) ns = grind (int_laws, moved-append u j ms ns)

Posts-on_hand :
    (w i : ℕ) (q : ℤ) (m : StockMovement) (a b : Database) (u j : ℕ)
    → Posts w i q m a b
    → on_hand u j b ≡ on_hand u j a +ℤ (if moves u j m then m.delta else pos 0)
Posts-on_hand w i q m a b u j p = elim (Bool-cases (moves u j m)) [
  | inl here ↦ rw here (ground (arith, p.balances u j))
  | inr away ↦ rw (away, +ℤ_zero) (ground (arith, p.balances u j))
]

-- A journal moves each quantity by the sum of its deltas.
pub Journal-on_hand :
    {ms : List StockMovement} {a b : Database} (u j : ℕ)
    → Journal ms a b
    → on_hand u j b ≡ on_hand u j a +ℤ moved u j ms
Journal-on_hand u j (kept k) = rw (k.balances u j, +ℤ_zero)
Journal-on_hand u j (posted {w = w} {i = i} {q = q} {m = m} {ms = ms} {db = a} {db' = b} p h jn) =
    Journal-on_hand u j jn
    ∙ ap (λ x. x +ℤ moved u j ms) (Posts-on_hand w i q m a b u j p)
    ∙ +ℤ_assoc _ _ _
