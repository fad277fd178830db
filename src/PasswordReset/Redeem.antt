-- ===== src/PasswordReset/Redeem.antt =====
-- A code that was asked for opens the account: forgotPassword, then verifyOtp and resetPassword.
use Prim.Native.String.{String}
use text.Mathlib.Text.{◌==◌ as str_eq}
use text.Mathlib.TextPositions.{eq_refl}
use stock_pilot_be.Prelude.{
  ℕ, ◌<◌, ◌≡◌, refl, ◌&&◌, not, Bool, true, false, Option, none, some, List, [], ◌∷◌, ◌==◌, ==_iff,
  ltb, filter_by, length, All, Bool-cases, inl, inr, arith,
}
use stock_pilot_be.Prelude.Rows.{find_first, update_all, holds}
use stock_pilot_be.Prelude.Result.{ok, ◌>>=◌}
use stock_pilot_be.Schema.{Database, Store, User}
use stock_pilot_be.Sessions.{has_active_store, may_sign_in}
use stock_pilot_be.PasswordReset.{
  PasswordResetToken, Accounts, by_token, by_otp, is_unused, is_redeemable, use_token, use_all,
  has_no_closed_store, may_verify, raw_token, reset_expiry, is_consumable, apply_reset, new_token,
  request_reset, forgot_password, check_otp, verify_otp, reset_target, reset_password,
}

-- Who may sign in may verify a code, where no store has the id 0.
may_verify_lem :
    (db : Database) (user : ℕ)
    → find_first (λ s. s.id == 0) db.stores ≡ none
    → may_sign_in db user ≡ true
    → may_verify db user ≡ true
may_verify_lem db user no_zero h = of_row (find_first (λ u. u.id == user) db.users) h
  where
    of_found :
        (o : Option Store)
        → holds (λ s. s.is_active) o ≡ true
        → not (holds (λ s. not s.is_active) o) ≡ true
    of_found none h = cc
    of_found (some s) h = rw h refl

    of_store_id : (o : Option ℕ) → has_active_store db o ≡ true → has_no_closed_store db o ≡ true
    of_store_id none h = refl
    of_store_id (some s) h = elim (Bool-cases (s == 0)) [
      | inl e ↦ rw ((==_iff s 0).0 e, no_zero) refl
      | inr e ↦ of_found (find_first (λ x. x.id == s) db.stores) (rw e at h)
    ]

    both : (a b c : Bool) → (a && b) ≡ true → (b ≡ true → c ≡ true) → (a && c) ≡ true
    both true b c h k = k h
    both false b c h k = cc

    of_row :
        (o : Option User)
        → holds (λ u. u.is_active && has_active_store db u.store_id) o ≡ true
        → holds (λ u. u.is_active && has_no_closed_store db u.store_id) o ≡ true
    of_row none h = cc
    of_row (some u) h = both u.is_active _ _ h (of_store_id u.store_id)

-- No older row has the new row's id.
none_consumable :
    (later id : ℕ) (at : PasswordResetToken → Bool) (now : ℕ) (ts : List PasswordResetToken)
    → All (λ t. (t.id == id) ≡ false) ts
    → filter_by (is_consumable later id) (update_all at (use_token now) ts) ≡ []
none_consumable later id at now [] h = refl
none_consumable later id at now (t ∷ ts) h = elim (Bool-cases (at t)) [
  | inl e ↦ rw (e, h.0) (none_consumable later id at now ts h.1)
  | inr e ↦ rw (e, h.0) (none_consumable later id at now ts h.1)
]

module _ (hash_token sign : String → String) (now later id user : ℕ) (otp : String) (a : Accounts)
    (welcome : may_sign_in a.db user ≡ true) (in_time : later < reset_expiry now) where
  abbrev asked : Accounts
  asked = forgot_password hash_token sign now id (some user) otp a

  abbrev fresh : PasswordResetToken
  fresh = new_token hash_token sign id now user otp

  still_open : (user == user && ltb later (reset_expiry now)) ≡ true
  still_open = ground arith

  check_fresh : check_otp hash_token sign later user otp asked.tokens ≡ ok fresh
  unfolding check_otp ◌>>=◌ forgot_password request_reset
  check_fresh =
      rw (welcome, still_open, eq_refl (hash_token (raw_token sign user otp (reset_expiry now))))
        refl

  one_fresh :
      All (λ t. (t.id == id) ≡ false) a.tokens
      → (length (filter_by (is_consumable later id) asked.tokens) == 1) ≡ true
  unfolding forgot_password request_reset use_all
  one_fresh new_id =
      rw
        (
          welcome,
          (==_iff id id).1 refl,
          in_time_too,
          none_consumable later id (λ t. t.user_id == user && is_unused t) now a.tokens new_id,
        )
        refl
    where
      in_time_too : ltb later (reset_expiry now) ≡ true
      in_time_too = ground arith

  same_db : asked.db ≡ a.db
  unfolding forgot_password request_reset
  same_db = rw welcome refl

  found_fresh :
      find_first
        (λ t. str_eq t.token_hash (hash_token (raw_token sign user otp (reset_expiry now))))
        asked.tokens
      ≡ some fresh
  unfolding forgot_password request_reset
  found_fresh = rw (welcome, eq_refl (hash_token (raw_token sign user otp (reset_expiry now)))) refl

  fresh_open : is_redeemable later fresh ≡ true
  fresh_open = ground arith

  verified :
      may_verify a.db user ≡ true
      → verify_otp hash_token sign later (some user) otp asked
        ≡ ok (raw_token sign user otp (reset_expiry now))
  unfolding verify_otp ◌>>=◌
  verified may = rw (same_db, may, check_fresh) refl

  by_code :
      (password : String)
      → All (λ t. (t.id == id) ≡ false) a.tokens
      → reset_password hash_token sign later password (by_otp (some user) otp) asked
        ≡ ok (apply_reset later password user id asked)
  unfolding reset_password reset_target ◌>>=◌
  by_code password new_id = rw (same_db, welcome, check_fresh, one_fresh new_id) refl

  by_link :
      (password : String)
      → All (λ t. (t.id == id) ≡ false) a.tokens
      → reset_password hash_token sign later password
          (by_token (raw_token sign user otp (reset_expiry now)))
          asked
        ≡ ok (apply_reset later password user id asked)
  unfolding reset_password reset_target ◌>>=◌
  by_link password new_id = rw (found_fresh, fresh_open, same_db, welcome, one_fresh new_id) refl

  -- Within its 15 minutes, a code that was asked for by an account that may sign in is verified, and its
  -- raw token, and the code itself, each reset the account's password, where no store has the id 0 and
  -- the new row's id is new.
  pub forgot_redeems :
      (password : String)
      → find_first (λ s. s.id == 0) a.db.stores ≡ none
      → All (λ t. (t.id == id) ≡ false) a.tokens
      → (verify_otp hash_token sign later (some user) otp asked
          ≡ ok (raw_token sign user otp (reset_expiry now)))
        × (reset_password hash_token sign later password
              (by_token (raw_token sign user otp (reset_expiry now)))
              asked
            ≡ ok (apply_reset later password user id asked))
        × (reset_password hash_token sign later password (by_otp (some user) otp) asked
            ≡ ok (apply_reset later password user id asked))
  forgot_redeems password no_zero new_id = (
    verified (may_verify_lem a.db user no_zero welcome),
    by_link password new_id,
    by_code password new_id,
  )
