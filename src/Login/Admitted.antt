-- ===== src/Login/Admitted.antt =====
-- Who is let in by a login: auth.service.ts.
use Prim.Native.String.{String}
use stock_pilot_be.Prelude.{ℕ, ◌≡◌, true, false, Option, some, ◌∷◌, ◌⊎◌}
use stock_pilot_be.Prelude.Rows.{holds}
use stock_pilot_be.Prelude.Result.{Result, ok}
use stock_pilot_be.Schema.{Database}
use stock_pilot_be.LoginGuard.{get_lock_state}
use stock_pilot_be.Sessions.{AuthSession, new_session, may_sign_in}
use stock_pilot_be.TwoFactor.{TwoFactorState, CodeReading}
use stock_pilot_be.TwoFactor.Fresh.{Accepted}
use stock_pilot_be.Login.{SignIns, LoginAttempt, LoginClock, is_administrator, state_of, save_state}

-- What holds of the state if the outcome is the session.
abbrev Leads : AuthSession → (SignIns → Type 0) → Result AuthSession × SignIns → Type 0
Leads session P r = r.0 ≡ ok session → P r.1

module _ (hotp : String → ℕ → String) (decrypt : String → Option String) (db : Database)
    (clock : LoginClock) (attempt : LoginAttempt) where
  -- A code was given that is good once, and the state in which it is used up is the user's from now on.
  abbrev pub GivesCode : ℕ → TwoFactorState → SignIns → SignIns → Type 0
  GivesCode user t s r =
      (code : CodeReading) × (attempt.code ≡ some code)
      × (u : TwoFactorState) × Accepted hotp decrypt clock.step t code u
      × (r.second_factors ≡ save_state user u s.second_factors)

  -- The second factor is off, or its code was given.
  abbrev pub PassesSecond : ℕ → Option TwoFactorState → SignIns → SignIns → Type 0
  PassesSecond user second s r =
      (holds (λ t. t.enabled) second ≡ false)
      ⊎ ((t : TwoFactorState) × (second ≡ some t) × GivesCode user t s r)

  -- A session of the user stands before those that were there.
  abbrev pub Opens : ℕ → AuthSession → SignIns → SignIns → Type 0
  Opens user session s r =
      (session ≡ new_session attempt.token user) × (r.sessions ≡ session ∷ s.sessions)

  pub record IsAdmitted (s : SignIns) (session : AuthSession) (r : SignIns) : Type 0 where
    pub user : ℕ
    pub known : attempt.account ≡ some user
    pub unlocked :
        (get_lock_state clock.max_attempts clock.minutes attempt.key attempt.account clock.now
          s.events).locked
        ≡ false
    pub allowed : may_sign_in db user ≡ true
    pub password : attempt.password_matches ≡ true
    pub second :
        (is_administrator db user ≡ false) ⊎ PassesSecond user (state_of user s.second_factors) s r
    pub opens : Opens user session s r

  -- What an account that is let in has passed.
  abbrev Passed : Option ℕ → SignIns → AuthSession → SignIns → Type 0
  Passed account s session r =
      (user : ℕ) × (account ≡ some user)
      × (may_sign_in db user ≡ true)
      × (attempt.password_matches ≡ true)
      × ((is_administrator db user ≡ false)
          ⊎ PassesSecond user (state_of user s.second_factors) s r)
      × Opens user session s r
