-- ===== src/Prelude/Result.antt =====
-- What a fallible call returns: src/common/errors/app-error.ts.
use mathlib.Core.Path.{◌≡◌, refl, subst}
use mathlib.Core.Bool.{Bool, true, false}
use mathlib.Core.Option.{Option, none, some}
use mathlib.Core.Logic.{◌⊎◌, inl, inr}

-- The error classes, and Prisma's unique-constraint error (P2002).
pub data Failure : Type 0 where
  validation unauthenticated forbidden not_found conflict insufficient_stock : Failure
  rate_limited internal unique_violation : Failure

pub data Result {ℓ} (A : Type ℓ) : Type ℓ where
  err : Failure → Result A
  ok : A → Result A

-- A throw ends the method; a value goes on to the rest of it.
infixl 5 ◌>>=◌
unfoldable pub ◌>>=◌ {ℓ λ'} : {A : Type ℓ} {C : Type λ'} → Result A → (A → Result C) → Result C
err failure >>= next = err failure
ok value >>= next = next value

-- `if (!test) throw`.
abbrev pub ensure : Bool → Failure → Result (Unit {0})
ensure test failure = elim test [ false ↦ err failure | true ↦ ok tt ]

infixl 5 ◌>>◌
abbrev pub ◌>>◌ {ℓ λ'} : {A : Type ℓ} {C : Type λ'} → Result A → Result C → Result C
step >> next = step >>= λ _. next

abbrev pub or_fail {ℓ} : {A : Type ℓ} → Option A → Failure → Result A
or_fail none e = err e
or_fail (some a) e = ok a

pub or_fail-eq-ok {ℓ} :
    {A : Type ℓ} (o : Option A) (e : Failure) {a : A} → or_fail o e ≡ ok a → o ≡ some a
or_fail-eq-ok none e h = cc
or_fail-eq-ok (some a) e h = cc

pub ensure-eq-ok : (b : Bool) (e : Failure) {u : Unit {0}} → ensure b e ≡ ok u → b ≡ true
ensure-eq-ok true e h = refl
ensure-eq-ok false e h = cc

pub data IsOk {ℓ} {A : Type ℓ} : Result A → Type ℓ where
  is_ok : (a : A) → IsOk (ok a)

pub ok_injective {ℓ} : {A : Type ℓ} {a b : A} → ok a ≡ ok b → a ≡ b
ok_injective e = cc

-- The value, if there is one, has the property.
pub data Ensures {ℓ κ} {A : Type ℓ} (P : A → Type κ) : Result A → Type (ℓ ⊔ κ) where
  returns : {a : A} → P a → Ensures P (ok a)
  fails : {e : Failure} → Ensures P (err e)

pub Ensures-bind {ℓ κ λ'} :
    {A : Type ℓ} {B : Type κ} {P : B → Type λ'} {m : Result A} {f : A → Result B}
    → ((a : A) → m ≡ ok a → Ensures P (f a))
    → Ensures P (m >>= f)
unfolding ◌>>=◌
Ensures-bind {m = ok a} h = h a refl
Ensures-bind {m = err e} h = fails

pub Ensures-call {ℓ κ λ' μ} :
    {A : Type ℓ} {B : Type κ} {Q : A → Type μ} {P : B → Type λ'} {m : Result A} {f : A → Result B}
    → Ensures Q m
    → ((a : A) → Q a → Ensures P (f a))
    → Ensures P (m >>= f)
unfolding ◌>>=◌
Ensures-call (returns q) h = h _ q
Ensures-call fails h = fails

pub Ensures-map {ℓ κ λ'} :
    {A : Type ℓ} {Q : A → Type κ} {P : A → Type λ'} {m : Result A}
    → Ensures Q m
    → ((a : A) → Q a → P a)
    → Ensures P m
Ensures-map (returns q) h = returns (h _ q)
Ensures-map fails h = fails

-- What a result that was returned has.
pub Ensures-ok {ℓ κ} :
    {A : Type ℓ} {P : A → Type κ} {m : Result A} {a : A} → Ensures P m → m ≡ ok a → P a
Ensures-ok {P = P} (returns p) e = subst P (ok_injective e) p
Ensures-ok fails e = cc

pub Ensures-both {ℓ κ λ'} :
    {A : Type ℓ} {P : A → Type κ} {Q : A → Type λ'} {m : Result A}
    → Ensures P m
    → Ensures Q m
    → Ensures (λ a. P a × Q a) m
Ensures-both (returns p) (returns q) = returns (p, q)
Ensures-both fails h = fails

pub IsOk-bind {ℓ κ} :
    {A : Type ℓ} {B : Type κ} {m : Result A} (f : A → Result B) (a : A)
    → m ≡ ok a
    → IsOk (f a)
    → IsOk (m >>= f)
unfolding ◌>>=◌
IsOk-bind f a e h = rw e h

pub IsOk-call {ℓ κ} :
    {A : Type ℓ} {B : Type κ} {m : Result A} {f : A → Result B}
    → IsOk m
    → ((a : A) → m ≡ ok a → IsOk (f a))
    → IsOk (m >>= f)
unfolding ◌>>=◌
IsOk-call (is_ok a) h = h a refl

pub or_fail-some {ℓ} :
    {A : Type ℓ} (o : Option A) (e : Failure) (a : A) → o ≡ some a → or_fail o e ≡ ok a
or_fail-some o e a h = rw h

pub returned {ℓ κ} : {A : Type ℓ} (P : A → Type κ) (a : A) → P a → Ensures P (ok a)
returned P a p = returns p

pub Ensures-of {ℓ κ} :
    {A : Type ℓ} {P : A → Type κ} (m : Result A) → ((a : A) → m ≡ ok a → P a) → Ensures P m
Ensures-of (ok a) h = returns (h a refl)
Ensures-of (err e) h = fails

-- A call that succeeds has what the result ensures.
pub Ensures-IsOk {ℓ κ} :
    {A : Type ℓ} {P : A → Type κ} {m : Result A} → Ensures P m → IsOk m → (a : A) × P a
Ensures-IsOk (returns {a = a} p) h = (a, p)
Ensures-IsOk fails h = elim h [ ]

pub ensure-true : (b : Bool) (e : Failure) → b ≡ true → ensure b e ≡ ok tt
ensure-true b e h = rw h

pub Result-cases {ℓ} :
    {A : Type ℓ} (m : Result A) → ((a : A) × (m ≡ ok a)) ⊎ ((e : Failure) × (m ≡ err e))
Result-cases (ok a) = inl (a, refl)
Result-cases (err e) = inr (e, refl)
