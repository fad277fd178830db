-- ===== src/PasswordReset/Once.antt =====
-- A password is reset once by one code or token: resetPassword.
use mathlib.Core.Option
use Prim.Native.String.{String}
use text.Mathlib.Text.{◌==◌ as str_eq}
use stock_pilot_be.Prelude.{
  ℕ, ◌≡◌, refl, ap, ◌∙◌, ◌&&◌, Bool, true, false, Option, none, some, List, [], ◌∷◌, ◌==◌, ==_iff,
  Bool-cases, inl, inr, if◌then◌else◌,
}
use stock_pilot_be.Prelude.Rows.{find_first, find_first-update_all, update_all, All-find_first}
use stock_pilot_be.Prelude.Result.{
  ok, err, ◌>>=◌, validation, Ensures, returns, Ensures-bind, Ensures-ok, or_fail-eq-ok,
}
use stock_pilot_be.Sessions.{may_sign_in}
use stock_pilot_be.PasswordReset.{
  PasswordResetToken, Accounts, ResetInput, by_token, by_otp, incomplete, is_unused, is_redeemable,
  use_token, use_all, newest_open, check_otp, reset_target, is_consumable, apply_reset,
  reset_password,
}
use stock_pilot_be.PasswordReset.Effect.{IsUsedUp, use_all-IsUsedUp}

-- A token that is looked up by its hash is found after some were used, as its user's.
found_used :
    (now : ℕ) (at : PasswordResetToken → Bool) (hash : String) (ts : List PasswordResetToken)
    (t : PasswordResetToken)
    → find_first (λ t. str_eq t.token_hash hash) ts ≡ some t
    → (u : PasswordResetToken) × (find_first
          (λ t. str_eq t.token_hash hash)
          (update_all at (use_token now) ts)
        ≡ some u)
      × (u.user_id ≡ t.user_id)
found_used now at hash ts t found = (
  if at t then use_token now t else t,
  find_first-update_all at (λ t. str_eq t.token_hash hash) (use_token now) (λ x. refl) ts
      ∙ ap (Option.map (λ x. if at x then use_token now x else x)) found,
  of_user (at t),
)
  where
    of_user : (b : Bool) → (if b then use_token now t else t).user_id ≡ t.user_id
    of_user true = refl
    of_user false = refl

module _ (hash_token sign : String → String) where
  -- No code opens an account whose tokens are used up.
  check_otp-used_up :
      (now user : ℕ) (otp : String) (tokens : List PasswordResetToken)
      → IsUsedUp user tokens
      → check_otp hash_token sign now user otp tokens ≡ err validation
  unfolding check_otp ◌>>=◌
  check_otp-used_up now user otp tokens h = rw (nothing_open tokens h) refl
    where
      closed :
          (t : PasswordResetToken)
          → ((t.user_id == user) ≡ true → is_unused t ≡ false)
          → (t.user_id == user && is_redeemable now t) ≡ false
      closed t h = elim (Bool-cases (t.user_id == user)) [
        | inl e ↦ rw (e, h e) refl
        | inr e ↦ rw e refl
      ]

      nothing_open :
          (ts : List PasswordResetToken) → IsUsedUp user ts → newest_open now user ts ≡ none
      nothing_open [] h = refl
      nothing_open (t ∷ ts) h = rw (closed t h.0) (nothing_open ts h.1)

  -- The token of a link, once its account has no token left.
  token-used_up :
      (later : ℕ) (token : String) (b : Accounts) (t : PasswordResetToken)
      → find_first (λ t. str_eq t.token_hash (hash_token token)) b.tokens ≡ some t
      → IsUsedUp t.user_id b.tokens
      → reset_target hash_token sign later (by_token token) b ≡ err validation
  unfolding reset_target ◌>>=◌
  token-used_up later token b t found used =
      let spent =
        All-find_first _ (λ t. str_eq t.token_hash (hash_token token)) b.tokens t used found
          ((==_iff _ _).1 refl) in
      rw (found, spent) refl

  token-target :
      (now : ℕ) (token : String) (a : Accounts)
      → Ensures
          (λ r.
            (t : PasswordResetToken) × (find_first
                (λ t. str_eq t.token_hash (hash_token token))
                a.tokens
              ≡ some t)
            × (t.user_id ≡ r.0))
          (reset_target hash_token sign now (by_token token) a)
  unfolding reset_target
  token-target now token a =
      Ensures-bind
        λ t et. Ensures-bind λ u eu. Ensures-bind λ v ev. returns (t, or_fail-eq-ok _ _ et, refl)

  otp-target :
      (now : ℕ) (found : Option ℕ) (otp : String) (a : Accounts)
      → Ensures (λ r. found ≡ some r.0) (reset_target hash_token sign now (by_otp found otp) a)
  unfolding reset_target
  otp-target now found otp a =
      Ensures-bind
        λ user eu. Ensures-bind λ v ev. Ensures-bind λ t et. returns (or_fail-eq-ok _ _ eu)

  otp-used_up :
      (later user : ℕ) (otp : String) (b : Accounts)
      → IsUsedUp user b.tokens
      → reset_target hash_token sign later (by_otp (some user) otp) b ≡ err validation
  unfolding reset_target ◌>>=◌
  otp-used_up later user otp b used = elim (Bool-cases (may_sign_in b.db user)) [
    | inl e ↦ rw (e, check_otp-used_up later user otp b.tokens used) refl
    | inr e ↦ rw e refl
  ]

  -- Any call that reset a password is refused from then on.
  target-used_up :
      (now later : ℕ) (input : ResetInput) (password : String) (a : Accounts) (r : ℕ × ℕ)
      → reset_target hash_token sign now input a ≡ ok r
      → reset_target hash_token sign later input (apply_reset now password r.0 r.1 a)
        ≡ err validation
  unfolding reset_target apply_reset use_all
  target-used_up now later (by_token token) password a r target =
      let (t, found, mine) = Ensures-ok (token-target now token a) target in
      let (u, found_u, of_u) =
        found_used now (is_consumable now r.1) (hash_token token) a.tokens t found in
      let (v, found_v, of_v) =
        found_used now (λ t. t.user_id == r.0 && is_unused t) (hash_token token) _ u found_u in
      token-used_up later token (apply_reset now password r.0 r.1 a) v found_v
        (rw (of_v, of_u, mine) (use_all-IsUsedUp now r.0 _))
  target-used_up now later (by_otp found otp) password a r target =
      rw (Ensures-ok (otp-target now found otp a) target) (
        otp-used_up later r.0 otp (apply_reset now password r.0 r.1 a) (use_all-IsUsedUp now r.0 _))
  target-used_up now later incomplete password a r target = refl

  no_target :
      (now : ℕ) (password : String) (input : ResetInput) (a : Accounts)
      → reset_target hash_token sign now input a ≡ err validation
      → reset_password hash_token sign now password input a ≡ err validation
  unfolding reset_password ◌>>=◌
  no_target now password input a h = rw h refl

  refused_after :
      (now later : ℕ) (password again : String) (input : ResetInput) (a : Accounts)
      → Ensures
          (λ b. reset_password hash_token sign later again input b ≡ err validation)
          (reset_password hash_token sign now password input a)
  unfolding reset_password
  refused_after now later password again input a = Ensures-bind λ r er. Ensures-bind λ u eu.
      returns (no_target later again input _ (target-used_up now later input password a r er))

  -- A reset happens once: a call that succeeded fails when it is repeated, at any time and with any
  -- password.
  pub reset_once :
      (now later : ℕ) (password again : String) (input : ResetInput) (a b : Accounts)
      → reset_password hash_token sign now password input a ≡ ok b
      → reset_password hash_token sign later again input b ≡ err validation
  reset_once now later password again input a b done =
      Ensures-ok (refused_after now later password again input a) done
