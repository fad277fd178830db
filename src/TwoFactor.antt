-- ===== src/TwoFactor.antt =====
-- src/common/services/two-factor.service.ts: the second factor of a login (consumeSecondFactor), with
-- verifyTotp of src/common/services/totp.service.ts. The HMAC code of a step and the decryption of a
-- secret are parameters. Of the text of a code its readings are given: whether it is six digits, those
-- digits, and its hash as a recovery code. The clock is past the first step of 1970.
pub mod Fresh
use Prim.Native.String.{String}
use text.Mathlib.Text.{◌==◌ as str_eq}
use stock_pilot_be.Prelude.{
  ℕ, ◌+◌, ◌-◌, ◌&&◌, not, Bool, true, false, Option, none, some, List, [], ◌∷◌, max, leb,
  if◌then◌else◌,
}
use stock_pilot_be.Prelude.Rows.{find_first, holds}

pub record TwoFactorState : Type 0 where
  pub enabled : Bool
  pub secret_encrypted : Option String
  pub recovery_code_hashes : List String
  pub last_used_step : Option ℕ

pub record CodeReading : Type 0 where
  pub is_six_digits : Bool
  pub digits : String
  pub recovery_hash : String

-- Not `undefined`, and not empty.
abbrev pub is_set : Option String → Bool
is_set none = false
is_set (some s) = not (str_eq s "")

-- `remaining.splice(index, 1)`
unfoldable pub remove_code : String → List String → List String
remove_code h [] = []
remove_code h (x ∷ xs) = if str_eq x h then xs else x ∷ remove_code h xs

abbrev pub lists_code : String → List String → Bool
lists_code h [] = false
lists_code h (x ∷ xs) = if str_eq x h then true else lists_code h xs

abbrev pub step_or : ℕ → Option ℕ → ℕ
step_or default none = default
step_or default (some step) = step

-- One step of drift to either side, the earliest first.
abbrev pub near_steps : ℕ → List ℕ
near_steps current = (current - 1) ∷ current ∷ (current + 1) ∷ []

module _ (hotp : String → ℕ → String) (decrypt : String → Option String) where
  -- The step is not used up, and its code is the one given.
  abbrev pub accepts_step : String → String → Option ℕ → ℕ → Bool
  accepts_step secret digits last step =
      not (holds (λ used. leb step used) last) && str_eq (hotp secret step) digits

  -- `verifyTotp`
  unfoldable pub verify_totp : String → String → ℕ → Option ℕ → Option ℕ
  verify_totp secret digits current last =
      find_first (accepts_step secret digits last) (near_steps current)

  -- The secret, if there is one and it can be read.
  abbrev pub readable_secret : TwoFactorState → Option String
  readable_secret s = elim s.secret_encrypted [
    | none ↦ none
    | some text ↦ elim (decrypt text) [
      | none ↦ none
      | some secret ↦ if str_eq secret "" then none else some secret
    ]
  ]

  unfoldable pub consume_totp : ℕ → TwoFactorState → String → Option String → Bool × TwoFactorState
  consume_totp current s digits none = (false, s)
  consume_totp current s digits (some secret) =
      elim (verify_totp secret digits current s.last_used_step) [
        | none ↦ (false, s)
        | some step ↦
            (true, record s { last_used_step = some (max step (step_or 0 s.last_used_step)) })
      ]

  unfoldable pub consume_recovery : ℕ → TwoFactorState → String → Bool × TwoFactorState
  consume_recovery current s h =
      if lists_code h s.recovery_code_hashes
      then (
        true,
        record s {
          recovery_code_hashes = remove_code h s.recovery_code_hashes;
          last_used_step = some (step_or current s.last_used_step);
        },
      )
      else (false, s)

  -- Whether the code is good, with the state that is saved.
  unfoldable pub consume_second_factor : ℕ → TwoFactorState → CodeReading → Bool × TwoFactorState
  consume_second_factor current s code =
      if is_set s.secret_encrypted && code.is_six_digits
      then consume_totp current s code.digits (readable_secret s)
      else consume_recovery current s code.recovery_hash
