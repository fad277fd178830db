-- ===== src/PasswordReset/Effect.antt =====
-- What a reset of a password leaves: resetPassword.
use Prim.Native.String.{String}
use stock_pilot_be.Prelude.{
  ℕ, ◌≡◌, refl, ap, not, ◌&&◌, Bool, true, false, List, [], ◌∷◌, ◌==◌, filter_by, All, Bool-cases,
  inl, inr,
}
use stock_pilot_be.Prelude.Rows.{update_all}
use stock_pilot_be.Prelude.Result.{
  ok, Ensures, returns, fails, Ensures-bind, Ensures-ok, ensure-eq-ok,
}
use stock_pilot_be.Sessions.{is_live, revoke, may_sign_in, revoke_all}
use stock_pilot_be.Sessions.Rotation.{IsSignedOut, revoke_all-IsSignedOut}
use stock_pilot_be.PasswordReset.{
  PasswordResetToken, Credential, Accounts, ResetInput, by_token, by_otp, incomplete, is_unused,
  use_all, reset_target, apply_reset, reset_password,
}

-- The user has no token left that is not used.
abbrev pub IsUsedUp : ℕ → List PasswordResetToken → Type 0
IsUsedUp user = All (λ t. (t.user_id == user) ≡ true → is_unused t ≡ false)

pub use_all-IsUsedUp :
    (now user : ℕ) (tokens : List PasswordResetToken) → IsUsedUp user (use_all now user tokens)
unfolding use_all
use_all-IsUsedUp now user [] = tt
use_all-IsUsedUp now user (t ∷ ts) = elim (Bool-cases (t.user_id == user && is_unused t)) [
  | inl e ↦ rw e (λ mine. refl, use_all-IsUsedUp now user ts)
  | inr e ↦
      rw e (
        λ mine. second_false (t.user_id == user) (is_unused t) e mine,
        use_all-IsUsedUp now user ts,
      )
]
  where
    second_false : (a b : Bool) → (a && b) ≡ false → a ≡ true → b ≡ false
    second_false true b h k = h
    second_false false b h k = cc

-- Rows that an update does not reach stay as they are.
module _ {A : Type 0} (keep at : A → Bool) (f : A → A)
    (out : (x : A) → at x ≡ true → (keep x ≡ false) × (keep (f x) ≡ false)) where
  filter_by-update_all : (xs : List A) → filter_by keep (update_all at f xs) ≡ filter_by keep xs
  filter_by-update_all [] = refl
  filter_by-update_all (x ∷ xs) = elim (Bool-cases (at x)) [
    | inl e ↦ rw (e, (out x e).0, (out x e).1) (filter_by-update_all xs)
    | inr e ↦ rw e (elim (Bool-cases (keep x)) [
      | inl k ↦ rw k (ap (λ ys. x ∷ ys) (filter_by-update_all xs))
      | inr k ↦ rw k (filter_by-update_all xs)
    ])
  ]

module _ (hash_token sign : String → String) where
  -- The account whose password the call resets, by which token, and what the transaction leaves.
  pub record IsReset (now : ℕ) (password : String) (input : ResetInput) (a b : Accounts)
      : Type 0 where
    pub user : ℕ
    pub token : ℕ
    pub target : reset_target hash_token sign now input a ≡ ok (user, token)
    pub allowed : may_sign_in a.db user ≡ true
    pub signed_out : IsSignedOut user b.sessions
    pub used_up : IsUsedUp user b.tokens
    pub changed : All (λ c. (c.user_id == user) ≡ true → c.password_hash ≡ password) b.credentials
    pub other_sessions :
        filter_by (λ s. not (s.user_id == user)) b.sessions
        ≡ filter_by (λ s. not (s.user_id == user)) a.sessions
    pub other_credentials :
        filter_by (λ c. not (c.user_id == user)) b.credentials
        ≡ filter_by (λ c. not (c.user_id == user)) a.credentials

  target-allowed :
      (now : ℕ) (input : ResetInput) (a : Accounts)
      → Ensures (λ t. may_sign_in a.db t.0 ≡ true) (reset_target hash_token sign now input a)
  unfolding reset_target
  target-allowed now (by_token token) a =
      Ensures-bind λ t et. Ensures-bind λ u eu. Ensures-bind λ v ev. returns (ensure-eq-ok _ _ ev)
  target-allowed now (by_otp found otp) a =
      Ensures-bind
        λ user eu. Ensures-bind λ v ev. Ensures-bind λ t et. returns (ensure-eq-ok _ _ ev)
  target-allowed now incomplete a = fails

  written :
      (password : String) (user : ℕ) (cs : List Credential)
      → All
          (λ c. (c.user_id == user) ≡ true → c.password_hash ≡ password)
          (update_all (λ c. c.user_id == user) (λ c. record c { password_hash = password }) cs)
  written password user [] = tt
  written password user (c ∷ cs) = elim (Bool-cases (c.user_id == user)) [
    | inl e ↦ rw e (λ mine. refl, written password user cs)
    | inr e ↦ rw e (λ mine. absurd (clash e mine), written password user cs)
  ]
    where
      clash : {b : Bool} → b ≡ false → b ≡ true → ⊥
      clash h k = cc

  -- A reset is of an account that may sign in. It signs the account out everywhere, uses up all its
  -- tokens and writes its new password, and it leaves the sessions and the passwords of others alone.
  pub reset_password-IsReset :
      (now : ℕ) (password : String) (input : ResetInput) (a : Accounts)
      → Ensures (IsReset now password input a) (reset_password hash_token sign now password input a)
  unfolding reset_password apply_reset revoke_all
  reset_password-IsReset now password input a = Ensures-bind λ t et. Ensures-bind λ u eu.
      returns (record {
        user = t.0;
        token = t.1;
        target = et;
        allowed = Ensures-ok (target-allowed now input a) et;
        signed_out = revoke_all-IsSignedOut now t.0 a.sessions;
        used_up = use_all-IsUsedUp now t.0 _;
        changed = written password t.0 a.credentials;
        other_sessions =
            filter_by-update_all (λ s. not (s.user_id == t.0)) (λ s. s.user_id == t.0 && is_live s)
              (revoke now)
              (λ s e.
                let mine = first_true (s.user_id == t.0) (is_live s) e in
                (rw mine refl, rw mine refl))
              a.sessions;
        other_credentials =
            filter_by-update_all (λ c. not (c.user_id == t.0)) (λ c. c.user_id == t.0)
              (λ c. record c { password_hash = password }) (λ c e. (rw e refl, rw e refl))
              a.credentials;
      })
    where
      first_true : (b c : Bool) → (b && c) ≡ true → b ≡ true
      first_true true c h = refl
      first_true false c h = cc
