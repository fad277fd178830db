-- ===== src/PasswordReset.antt =====
-- src/modules/auth/auth.service.ts: a forgotten password, by a code that is sent to the account
-- (forgotPassword, verifyOtp, resetPassword). The account that an e-mail or a phone number finds is an
-- argument, and so is the code, trimmed; hashToken and the HMAC are parameters. Times are in
-- milliseconds, and one reading of the clock serves a call. The newest token stands first. The passwords
-- are a list of their own, by user.
pub mod Effect
pub mod Once
pub mod Redeem
use Prim.Native.String.{String, ◌++◌}
use text.Mathlib.Text.{◌==◌ as str_eq}
use stock_pilot_be.Prelude.{
  ℕ, ◌+◌, ◌*◌, ◌&&◌, ◌||◌, not, Bool, true, false, Option, none, some, List, [], ◌∷◌, ◌==◌, ltb,
  filter_by, length, if◌then◌else◌,
}
use stock_pilot_be.Prelude.Rows.{find_first, update_all, holds}
use stock_pilot_be.Prelude.Result.{Result, ok, err, ◌>>=◌, ◌>>◌, ensure, or_fail, validation}
use stock_pilot_be.Schema.{Database, Store, User}
use stock_pilot_be.Audit.{audit}
use stock_pilot_be.Ledger.{decimal}
use stock_pilot_be.Sessions.{AuthSession, has_active_store, may_sign_in, revoke_all}

pub record PasswordResetToken : Type 0 where
  pub id : ℕ
  pub user_id : ℕ
  pub token_hash : String
  pub expires_at : ℕ
  pub used_at : Option ℕ

pub record Credential : Type 0 where
  pub user_id : ℕ
  pub password_hash : String

pub record Accounts : Type 0 where
  pub db : Database
  pub tokens : List PasswordResetToken
  pub sessions : List AuthSession
  pub credentials : List Credential

abbrev pub is_unused : PasswordResetToken → Bool
is_unused t = elim t.used_at [ none ↦ true | some _ ↦ false ]

-- `usedAt: null, expiresAt: { gt: now }`
abbrev pub is_redeemable : ℕ → PasswordResetToken → Bool
is_redeemable now t = is_unused t && ltb now t.expires_at

abbrev pub use_token : ℕ → PasswordResetToken → PasswordResetToken
use_token now t = record t { used_at = some now }

-- `updateMany({ where: { userId, usedAt: null }, data: { usedAt } })`
unfoldable pub use_all : ℕ → ℕ → List PasswordResetToken → List PasswordResetToken
use_all now user = update_all (λ t. t.user_id == user && is_unused t) (use_token now)

-- `user.store && !user.store.isActive`, negated.
abbrev pub has_no_closed_store : Database → Option ℕ → Bool
has_no_closed_store db none = true
has_no_closed_store db (some store) =
    not (holds (λ s. not s.is_active) (find_first (λ s. s.id == store) db.stores))

abbrev pub may_verify : Database → ℕ → Bool
may_verify db user =
    holds (λ u. u.is_active && has_no_closed_store db u.store_id)
      (find_first (λ u. u.id == user) db.users)

-- What a call of resetPassword brings: the token of a link, or an account and its code.
pub data ResetInput : Type 0 where
  by_token : String → ResetInput
  by_otp : Option ℕ → String → ResetInput
  incomplete : ResetInput

-- The code with the signature of the user, the code and the expiry.
unfoldable pub raw_token : (String → String) → ℕ → String → ℕ → String
raw_token sign user otp expires_at =
    otp ++ "." ++ sign (decimal user ++ ":" ++ otp ++ ":" ++ decimal expires_at)

unfoldable pub legacy_token : ℕ → String → String
legacy_token user otp = decimal user ++ ":otp:" ++ otp

-- 15 minutes.
abbrev pub reset_expiry : ℕ → ℕ
reset_expiry now = now + 15 * 60 * 1_000

-- The user's newest token that is neither used nor expired.
abbrev pub newest_open : ℕ → ℕ → List PasswordResetToken → Option PasswordResetToken
newest_open now user = find_first (λ t. t.user_id == user && is_redeemable now t)

abbrev pub store_of : Database → ℕ → Option ℕ
store_of db user = elim (find_first (λ u. u.id == user) db.users) [
  | none ↦ none
  | some u ↦ u.store_id
]

abbrev pub is_consumable : ℕ → ℕ → PasswordResetToken → Bool
is_consumable now id t = t.id == id && is_redeemable now t

-- What the transaction writes once the token is consumed.
unfoldable pub apply_reset : ℕ → String → ℕ → ℕ → Accounts → Accounts
unfolding use_all revoke_all audit
apply_reset now password user id a = record {
  db = audit (store_of a.db user) (some user) "PASSWORD_RESET" "USER" (decimal user) a.db;
  tokens = use_all now user (update_all (is_consumable now id) (use_token now) a.tokens);
  sessions = revoke_all now user a.sessions;
  credentials =
      update_all (λ c. c.user_id == user) (λ c. record c { password_hash = password })
        a.credentials;
}

module _ (hash_token sign : String → String) where
  abbrev pub new_token : ℕ → ℕ → ℕ → String → PasswordResetToken
  new_token id now user otp = record {
    id = id;
    user_id = user;
    token_hash = hash_token (raw_token sign user otp (reset_expiry now));
    expires_at = reset_expiry now;
    used_at = none;
  }

  unfoldable pub request_reset : ℕ → ℕ → ℕ → String → Accounts → Accounts
  unfolding use_all
  request_reset now id user otp a = record a {
    tokens = new_token id now user otp ∷ use_all now user a.tokens;
  }

  -- `forgotPassword`: what it stores, for the account that was found. `id` is the new row's.
  unfoldable pub forgot_password : ℕ → ℕ → Option ℕ → String → Accounts → Accounts
  unfolding request_reset
  forgot_password now id none otp a = a
  forgot_password now id (some user) otp a =
      if may_sign_in a.db user then request_reset now id user otp a else a

  -- The token that the code belongs to, of this or of the older kind.
  abbrev pub matches : ℕ → String → PasswordResetToken → Bool
  matches user otp t =
      str_eq t.token_hash (hash_token (raw_token sign user otp t.expires_at))
      || str_eq t.token_hash (hash_token (legacy_token user otp))

  unfoldable pub check_otp : ℕ → ℕ → String → List PasswordResetToken → Result PasswordResetToken
  check_otp now user otp tokens = do
    t ← or_fail (newest_open now user tokens) validation
    ensure (matches user otp t) validation
    ok t

  -- `verifyOtp`: the raw token, for resetPassword.
  unfoldable pub verify_otp : ℕ → Option ℕ → String → Accounts → Result String
  unfolding check_otp
  verify_otp now found otp a = do
    user ← or_fail found validation
    ensure (may_verify a.db user) validation
    t ← check_otp now user otp a.tokens
    ok (raw_token sign user otp t.expires_at)

  -- Whose password is reset, and by which token.
  unfoldable pub reset_target : ℕ → ResetInput → Accounts → Result (ℕ × ℕ)
  unfolding check_otp
  reset_target now (by_token token) a = do
    t ← or_fail (find_first (λ t. str_eq t.token_hash (hash_token token)) a.tokens) validation
    ensure (is_redeemable now t) validation
    ensure (may_sign_in a.db t.user_id) validation
    ok (t.user_id, t.id)
  reset_target now (by_otp found otp) a = do
    user ← or_fail found validation
    ensure (may_sign_in a.db user) validation
    t ← check_otp now user otp a.tokens
    ok (user, t.id)
  reset_target now incomplete a = err validation

  -- `resetPassword`, with the hash of the new password.
  unfoldable pub reset_password : ℕ → String → ResetInput → Accounts → Result Accounts
  unfolding reset_target apply_reset
  reset_password now password input a = do
    target ← reset_target now input a
    ensure (length (filter_by (is_consumable now target.1) a.tokens) == 1) validation
    ok (apply_reset now password target.0 target.1 a)
