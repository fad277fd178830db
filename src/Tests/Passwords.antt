-- ===== src/Tests/Passwords.antt =====
-- A forgotten password of the shop's user: the listed theorems applied, and a run.
use Prim.Native.String.{String}
use stock_pilot_be.Prelude.{◌≡◌, refl, some, none, [], ◌∷◌, arith}
use stock_pilot_be.Prelude.Result.{ok, err, ◌>>=◌, validation, Ensures}
use stock_pilot_be.Ledger.{decimal}
use stock_pilot_be.Tests.Shop.{shop}
use stock_pilot_be.Tests.SignIn.{sessions}
use stock_pilot_be.PasswordReset.{
  PasswordResetToken, Accounts, by_token, by_otp, raw_token, legacy_token, forgot_password,
  verify_otp, apply_reset, reset_password,
}
use stock_pilot_be.PasswordReset.Effect.{IsReset, reset_password-IsReset}
use stock_pilot_be.PasswordReset.Once.{reset_once}
use stock_pilot_be.PasswordReset.Redeem.{forgot_redeems}

abbrev plain : String → String
plain s = s

abbrev old_token : PasswordResetToken
old_token = record {
  id = 1;
  user_id = 5;
  token_hash = "111111.old";
  expires_at = 2_000;
  used_at = none;
}

abbrev accounts : Accounts
accounts = record {
  db = shop;
  tokens = old_token ∷ [];
  sessions = sessions;
  credentials = record { user_id = 5; password_hash = "before" } ∷ [];
}

abbrev asked : Accounts
asked = forgot_password plain plain 1_000 2 (some 5) "123456" accounts

abbrev renewed : Accounts
renewed = apply_reset 5_000 "new" 5 2 asked

forgot_runs : verify_otp plain plain 5_000 (some 5) "123456" asked ≡ ok "123456.5:123456:901000"
unfolding verify_otp raw_token forgot_password ◌>>=◌ decimal
forgot_runs = refl

wrong_code : verify_otp plain plain 5_000 (some 5) "111111" asked ≡ err validation
unfolding verify_otp raw_token forgot_password ◌>>=◌ decimal legacy_token
wrong_code = refl

-- 15 minutes after it was asked for.
late_code : verify_otp plain plain 901_000 (some 5) "123456" asked ≡ err validation
unfolding verify_otp raw_token forgot_password ◌>>=◌ decimal
late_code = refl

reset_runs : reset_password plain plain 5_000 "new" (by_otp (some 5) "123456") asked ≡ ok renewed
unfolding reset_password forgot_password ◌>>=◌ raw_token decimal
reset_runs = refl

reset_once_example :
    reset_password plain plain 6_000 "again" (by_otp (some 5) "123456") renewed ≡ err validation
reset_once_example =
    reset_once plain plain 5_000 6_000 "new" "again" (by_otp (some 5) "123456") asked renewed
      reset_runs

reset_password-IsReset_example :
    Ensures
      (IsReset plain plain 5_000 "new" (by_otp (some 5) "123456") asked)
      (reset_password plain plain 5_000 "new" (by_otp (some 5) "123456") asked)
reset_password-IsReset_example =
    reset_password-IsReset plain plain 5_000 "new" (by_otp (some 5) "123456") asked

forgot_redeems_example :
    (verify_otp plain plain 5_000 (some 5) "123456" asked ≡ ok (raw_token plain 5 "123456" 901_000))
    × (reset_password plain plain 5_000 "new" (by_token (raw_token plain 5 "123456" 901_000)) asked
        ≡ ok renewed)
    × (reset_password plain plain 5_000 "new" (by_otp (some 5) "123456") asked ≡ ok renewed)
forgot_redeems_example =
    forgot_redeems plain plain 1_000 5_000 2 5 "123456" accounts refl (omega arith) "new" refl
      (refl, tt)
