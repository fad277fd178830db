-- ===== src/Login.antt =====
-- src/modules/auth/auth.service.ts: login, with the lock of the account, the password and the second
-- factor of an administrator (verifyLoginSecondFactor of two-factor.service.ts). The account that an
-- e-mail finds, the key of its lock, bcrypt's answer and the new token are arguments, and so are the
-- readings of the code. The log of attempts, the sessions and the states of the second factor are
-- lists of their own. What a failed login writes stays, for it is no transaction.
pub mod Admitted
use Prim.Native.String.{String}
use stock_pilot_be.Prelude.{
  ℕ, Bool, true, false, Option, none, some, List, [], ◌∷◌, ◌==◌, if◌then◌else◌,
}
use stock_pilot_be.Prelude.Rows.{find_first, update_first, holds}
use stock_pilot_be.Prelude.Result.{Result, ok, err, unauthenticated}
use stock_pilot_be.Schema.{Database, Role, admin, User}
use stock_pilot_be.Ledger.{decimal}
use stock_pilot_be.LoginGuard.{LoginEvent, assert_not_locked, record_failure}
use stock_pilot_be.Sessions.{AuthSession, NewSession, new_session, may_sign_in}
use stock_pilot_be.TwoFactor.{TwoFactorState, CodeReading, consume_second_factor}

-- A row of `system_settings` under `admin2fa:<userId>`.
pub record TwoFactorRow : Type 0 where
  pub user_id : ℕ
  pub state : TwoFactorState

pub record SignIns : Type 0 where
  pub events : List LoginEvent
  pub sessions : List AuthSession
  pub second_factors : List TwoFactorRow

-- What a login brings.
pub record LoginAttempt : Type 0 where
  pub key : String
  pub account : Option ℕ
  pub password_matches : Bool
  pub code : Option CodeReading
  pub token : NewSession

-- The times of the call, and the settings of the guard.
pub record LoginClock : Type 0 where
  pub now : ℕ
  pub step : ℕ
  pub max_attempts : ℕ
  pub minutes : ℕ

abbrev pub is_administrator : Database → ℕ → Bool
is_administrator db user =
    holds (λ u. elim u.role [ admin ↦ true | _ ↦ false ]) (find_first (λ u. u.id == user) db.users)

abbrev pub state_of : ℕ → List TwoFactorRow → Option TwoFactorState
state_of user rows = elim (find_first (λ r. r.user_id == user) rows) [
  | none ↦ none
  | some r ↦ some r.state
]

-- A failure that the guard counts.
abbrev pub refuse_login : LoginAttempt → ℕ → SignIns → Result AuthSession × SignIns
refuse_login attempt now s =
    (err unauthenticated, record s { events = record_failure attempt.key now s.events })

abbrev pub login_event : ℕ → ℕ → LoginEvent
login_event user now = record {
  action = "USER_LOGIN";
  entity_type = "AUTH";
  entity_id = decimal user;
  created_at = now;
}

-- The session and the row of the audit log, which resets the count of failures.
unfoldable pub open_session : LoginAttempt → ℕ → ℕ → SignIns → Result AuthSession × SignIns
open_session attempt user now s = (
  ok (new_session attempt.token user),
  record s {
    sessions = new_session attempt.token user ∷ s.sessions;
    events = login_event user now ∷ s.events;
  },
)

-- `saveState`, of a row that is there.
abbrev pub save_state : ℕ → TwoFactorState → List TwoFactorRow → List TwoFactorRow
save_state user t = update_first (λ r. r.user_id == user) (λ r. record r { state = t })

module _ (hotp : String → ℕ → String) (decrypt : String → Option String) where
  -- What comes of the code: only a code that is accepted changes the state.
  unfoldable pub after_code :
      LoginClock → LoginAttempt → ℕ → Bool × TwoFactorState → SignIns → Result AuthSession × SignIns
  after_code clock attempt user (true, t) s =
      open_session attempt user clock.now
        (record s { second_factors = save_state user t s.second_factors })
  after_code clock attempt user (false, t) s = refuse_login attempt clock.now s

  -- A second factor that is off is not asked for; a code that is left out is asked for, and counts as
  -- no failure.
  unfoldable pub check_code :
      LoginClock
      → LoginAttempt
      → ℕ
      → TwoFactorState
      → Option CodeReading
      → SignIns
      → Result AuthSession × SignIns
  check_code clock attempt user t none s = (err unauthenticated, s)
  check_code clock attempt user t (some code) s =
      after_code clock attempt user (consume_second_factor hotp decrypt clock.step t code) s

  unfoldable pub check_second_factor :
      LoginClock → LoginAttempt → ℕ → Option TwoFactorState → SignIns → Result AuthSession × SignIns
  check_second_factor clock attempt user none s = open_session attempt user clock.now s
  check_second_factor clock attempt user (some t) s =
      if t.enabled
      then check_code clock attempt user t attempt.code s
      else open_session attempt user clock.now s

  unfoldable pub check_account :
      Database → LoginClock → LoginAttempt → Option ℕ → SignIns → Result AuthSession × SignIns
  check_account db clock attempt none s = refuse_login attempt clock.now s
  check_account db clock attempt (some user) s =
      let admitted =
        if is_administrator db user
        then check_second_factor clock attempt user (state_of user s.second_factors) s
        else open_session attempt user clock.now s in
      if may_sign_in db user
      then (if attempt.password_matches then admitted else refuse_login attempt clock.now s)
      else refuse_login attempt clock.now s

  unfoldable pub unless_locked :
      Database
      → LoginClock
      → LoginAttempt
      → Result (Unit {0}) × List LoginEvent
      → SignIns
      → Result AuthSession × SignIns
  unless_locked db clock attempt (err e, events) s = (err e, record s { events = events })
  unless_locked db clock attempt (ok u, events) s =
      check_account db clock attempt attempt.account (record s { events = events })

  unfoldable pub login :
      Database → LoginClock → LoginAttempt → SignIns → Result AuthSession × SignIns
  login db clock attempt s =
      unless_locked db clock attempt
        (assert_not_locked clock.max_attempts clock.minutes attempt.key attempt.account clock.now
          s.events)
        s
