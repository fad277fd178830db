-- ===== src/TwoFactor/Fresh.antt =====
-- A code of the second factor is good once: two-factor.service.ts.
use Prim.Native.String.{String}
use text.Mathlib.Text.{◌==◌ as str_eq}
use stock_pilot_be.Prelude.{
  ℕ, suc, ◌+◌, ◌<◌, ◌≤◌, ◌≡◌, true, false, Option, some, List, [], ◌∷◌, ◌⊎◌, if◌then◌else◌,
}
use stock_pilot_be.TwoFactor.{TwoFactorState, CodeReading}

-- How often a hash is in the list.
unfoldable pub copies : String → List String → ℕ
copies h [] = 0
copies h (x ∷ xs) = if str_eq x h then suc (copies h xs) else copies h xs

module _ (hotp : String → ℕ → String) (decrypt : String → Option String) where
  -- A code of the app: of a step within one of the present, later than every step used before, which
  -- is the last used one from now on.
  pub record IsTotpUse (current : ℕ) (s : TwoFactorState) (digits : String) (t : TwoFactorState)
      : Type 0 where
    pub secret : String
    pub step : ℕ
    pub right : str_eq (hotp secret step) digits ≡ true
    pub not_early : current ≤ step + 1
    pub not_late : step ≤ current + 1
    pub fresh : (used : ℕ) → s.last_used_step ≡ some used → used < step
    pub spent : t.last_used_step ≡ some step
    pub same_codes : t.recovery_code_hashes ≡ s.recovery_code_hashes

  -- A recovery code: one copy of it is gone, and the others stay.
  pub record IsRecoveryUse (s : TwoFactorState) (h : String) (t : TwoFactorState) : Type 0 where
    pub one_less : copies h s.recovery_code_hashes ≡ suc (copies h t.recovery_code_hashes)
    pub others :
        (g : String)
        → str_eq h g ≡ false
        → copies g t.recovery_code_hashes ≡ copies g s.recovery_code_hashes
    pub kept_step : (used : ℕ) → s.last_used_step ≡ some used → t.last_used_step ≡ some used

  abbrev pub Accepted : ℕ → TwoFactorState → CodeReading → TwoFactorState → Type 0
  Accepted current s code t =
      IsTotpUse current s code.digits t ⊎ IsRecoveryUse s code.recovery_hash t
