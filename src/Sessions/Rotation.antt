-- ===== src/Sessions/Rotation.antt =====
-- A refresh token is used once: auth.service.ts.
use stock_pilot_be.Prelude.{
  ℕ, ◌≡◌, refl, ◌&&◌, Bool, true, false, List, [], ◌∷◌, ◌==◌, ltb, filter_by, length, All,
  Bool-cases, inl, inr, sym,
}
use stock_pilot_be.Prelude.Rows.{update_all}
use stock_pilot_be.Prelude.Result.{Failure, ok, err, ok_injective, unauthenticated}
use stock_pilot_be.Schema.{Database}
use stock_pilot_be.Sessions.{
  AuthSession, NewSession, is_live, revoke, revoke_all, is_rotatable, new_session, rotate,
  may_sign_in, refresh_session,
}

-- The user has no live session.
abbrev pub IsSignedOut : ℕ → List AuthSession → Type 0
IsSignedOut user = All (λ s. (s.user_id == user) ≡ true → is_live s ≡ false)

-- No session with the id is live.
abbrev pub IsSpent : ℕ → List AuthSession → Type 0
IsSpent id = All (λ s. (s.id == id) ≡ true → is_live s ≡ false)

pub revoke_all-IsSignedOut :
    (now user : ℕ) (rows : List AuthSession) → IsSignedOut user (revoke_all now user rows)
unfolding revoke_all
revoke_all-IsSignedOut now user [] = tt
revoke_all-IsSignedOut now user (s ∷ rows) = elim (Bool-cases (s.user_id == user && is_live s)) [
  | inl e ↦ rw e (λ mine. refl, revoke_all-IsSignedOut now user rows)
  | inr e ↦ rw e (
    λ mine. not_live (s.user_id == user) (is_live s) e mine,
    revoke_all-IsSignedOut now user rows,
  )
]
  where
    not_live : (a b : Bool) → (a && b) ≡ false → a ≡ true → b ≡ false
    not_live true b h k = h
    not_live false b h k = cc

none_rotatable :
    (id now : ℕ) (rows : List AuthSession)
    → IsSpent id rows
    → filter_by (is_rotatable id now) rows ≡ []
none_rotatable id now [] h = refl
none_rotatable id now (s ∷ rows) h = rw (closed s h.0) (none_rotatable id now rows h.1)
  where
    closed :
        (s : AuthSession)
        → ((s.id == id) ≡ true → is_live s ≡ false)
        → is_rotatable id now s ≡ false
    closed s h = elim (Bool-cases (s.id == id)) [
      | inr other ↦ rw other refl
      | inl same ↦ rw (same, h same) refl
    ]

-- Once a session is spent, a rotation of it that was decided on before fails, and signs its user out
-- everywhere.
pub rotate_spent :
    (now : ℕ) (n : NewSession) (old : AuthSession) (rows : List AuthSession)
    → IsSpent old.id rows
    → ((rotate now n old rows).0 ≡ err unauthenticated)
      × IsSignedOut old.user_id (rotate now n old rows).1
unfolding rotate
rotate_spent now n old rows spent =
    rw (none_rotatable old.id now rows spent) (refl, revoke_all-IsSignedOut now old.user_id _)

-- The rows that a rotation leaves of the old session.
taken-IsSpent :
    (id now : ℕ) (rows : List AuthSession)
    → All (λ s. (s.id == id) ≡ true → ltb now s.expires_at ≡ true) rows
    → IsSpent id (update_all (is_rotatable id now) (revoke now) rows)
taken-IsSpent id now [] h = tt
taken-IsSpent id now (s ∷ rows) h = elim (Bool-cases (is_rotatable id now s)) [
  | inl e ↦ rw e (λ mine. refl, taken-IsSpent id now rows h.1)
  | inr e ↦ rw e (
    λ mine. still (s.id == id) (is_live s) (ltb now s.expires_at) e mine (h.0 mine),
    taken-IsSpent id now rows h.1,
  )
]
  where
    still : (a b c : Bool) → (a && (b && c)) ≡ false → a ≡ true → c ≡ true → b ≡ false
    still true true true h k l = h
    still true true false h k l = cc
    still true false c h k l = refl
    still false b c h k l = cc

revoke_all-IsSpent :
    (now user id : ℕ) (rows : List AuthSession)
    → IsSpent id rows
    → IsSpent id (revoke_all now user rows)
unfolding revoke_all
revoke_all-IsSpent now user id [] h = tt
revoke_all-IsSpent now user id (s ∷ rows) h = elim (Bool-cases (s.user_id == user && is_live s)) [
  | inl e ↦ rw e (λ mine. refl, revoke_all-IsSpent now user id rows h.1)
  | inr e ↦ rw e (h.0, revoke_all-IsSpent now user id rows h.1)
]

rotate-IsSpent :
    (now : ℕ) (n : NewSession) (old : AuthSession) (rows : List AuthSession)
    → (n.id == old.id) ≡ false
    → All (λ s. (s.id == old.id) ≡ true → ltb now s.expires_at ≡ true) rows
    → IsSpent old.id (rotate now n old rows).1
unfolding rotate
rotate-IsSpent now n old rows fresh running =
    let spent = taken-IsSpent old.id now rows running in
    elim (Bool-cases (length (filter_by (is_rotatable old.id now) rows) == 1)) [
      | inl one ↦ rw one (λ mine. absurd (contrary fresh mine), spent)
      | inr none_left ↦ rw none_left (revoke_all-IsSpent now old.user_id old.id _ spent)
    ]
  where
    contrary : {b : Bool} → b ≡ false → b ≡ true → ⊥
    contrary e f = cc

-- A refresh token is good for one rotation: of two rotations of one session, whatever comes of the first,
-- the second fails and signs the user out everywhere, if the session had not expired at the first and
-- the first's new session has an id of its own.
pub rotate_twice :
    (now later : ℕ) (n m : NewSession) (old : AuthSession) (rows : List AuthSession)
    → (n.id == old.id) ≡ false
    → All (λ s. (s.id == old.id) ≡ true → ltb now s.expires_at ≡ true) rows
    → ((rotate later m old (rotate now n old rows).1).0 ≡ err unauthenticated)
      × IsSignedOut old.user_id (rotate later m old (rotate now n old rows).1).1
rotate_twice now later n m old rows fresh running =
    rotate_spent later m old (rotate now n old rows).1 (rotate-IsSpent now n old rows fresh running)

rotate-opens :
    (now : ℕ) (n : NewSession) (s t : AuthSession) (rows : List AuthSession)
    → (rotate now n s rows).0 ≡ ok t
    → t ≡ new_session n s.user_id
unfolding rotate
rotate-opens now n s t rows h =
    elim (Bool-cases (length (filter_by (is_rotatable s.id now) rows) == 1)) [
      | inl one ↦ sym (ok_injective (rw one at h))
      | inr none_left ↦ cc
    ]

-- A session that a refresh opens is its user's, and live; the session it came from was live and had not
-- expired, and belongs to a user who may sign in.
pub refresh_session-opens :
    (db : Database) (now : ℕ) (n : NewSession) (s t : AuthSession) (rows : List AuthSession)
    → (refresh_session db now n s rows).0 ≡ ok t
    → (t ≡ new_session n s.user_id)
      × (is_live s ≡ true)
      × (ltb s.expires_at now ≡ false)
      × (may_sign_in db s.user_id ≡ true)
unfolding refresh_session
refresh_session-opens db now n s t rows h = elim (Bool-cases (is_live s)) [
  | inr spent ↦ absurd (none_opened (rw spent at h))
  | inl live ↦ elim (Bool-cases (ltb s.expires_at now)) [
    | inl late ↦ absurd (none_opened (rw (live, late) at h))
    | inr early ↦ elim (Bool-cases (may_sign_in db s.user_id)) [
      | inr barred ↦ absurd (none_opened (rw (live, early, barred) at h))
      | inl welcome ↦
          (rotate-opens now n s t rows (rw (live, early, welcome) at h), live, early, welcome)
    ]
  ]
]
  where
    none_opened : {A : Type 0} {e : Failure} {a : A} → err e ≡ ok a → ⊥
    none_opened h = cc
