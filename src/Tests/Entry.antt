-- ===== src/Tests/Entry.antt =====
-- Logins of an administrator with a second factor, and a snapshot of an audit row.
use Prim.Native.String.{String}
use stock_pilot_be.Prelude.{ℕ, ◌≡◌, refl, true, false, Option, some, none, [], ◌∷◌}
use stock_pilot_be.Prelude.Int.{pos}
use stock_pilot_be.Prelude.Result.{err, unauthenticated, rate_limited}
use stock_pilot_be.Schema.{Database, admin}
use stock_pilot_be.Audit.Snapshot.{text_after, ends_line, folded, is_encrypted_credential, occurs}
use stock_pilot_be.Login.{
  after_code, check_account, check_code, check_second_factor, open_session, unless_locked,
}
use stock_pilot_be.LoginGuard.{assert_not_locked}
use stock_pilot_be.TwoFactor.{consume_recovery, remove_code}
use stock_pilot_be.Tests.Shop.{shop}
use stock_pilot_be.Tests.SignIn.{next}
use stock_pilot_be.LoginGuard.{write_attempt}
use stock_pilot_be.TwoFactor.{TwoFactorState, CodeReading, consume_second_factor}
use stock_pilot_be.Login.{SignIns, LoginAttempt, LoginClock, login}
use stock_pilot_be.Audit.Snapshot.{
  Value, obj, str, dec, arr, nil, cons, end, field, Writers, sanitize, is_sensitive_key,
}
use stock_pilot_be.Audit.Snapshot.Clean.{IsPlain, sanitize-IsPlain}

-- Every step has the same code, and secrets are stored as they are.
abbrev hotp : String → ℕ → String
hotp secret step = "123456"

abbrev decrypt : String → Option String
decrypt s = some s

abbrev office : Database
office = record shop {
  users = record { id = 9; store_id = none; role = admin; is_active = true } ∷ [];
}

abbrev second : TwoFactorState
second = record {
  enabled = true;
  secret_encrypted = some "secret";
  recovery_code_hashes = "r1" ∷ "r2" ∷ [];
  last_used_step = some 9;
}

abbrev app_code : CodeReading
app_code = record { is_six_digits = true; digits = "123456"; recovery_hash = "none" }

abbrev paper_code : CodeReading
paper_code = record { is_six_digits = false; digits = "A1B2C"; recovery_hash = "r2" }

abbrev clock : LoginClock
clock = record { now = 300_000; step = 10; max_attempts = 2; minutes = 15 }

abbrev signing_in : Option CodeReading → LoginAttempt
signing_in code = record {
  key = "email:a";
  account = some 9;
  password_matches = true;
  code = code;
  token = next;
}

abbrev calm : SignIns
calm = record {
  events = [];
  sessions = [];
  second_factors = record { user_id = 9; state = second } ∷ [];
}

abbrev wary : SignIns
wary = record calm {
  events =
      write_attempt "LOGIN_FAILED" "email:a" 200_000
      ∷ write_attempt "LOGIN_FAILED" "email:a" 100_000
      ∷ [];
}

recovery_runs :
    (login hotp decrypt office clock (signing_in (some paper_code)) calm).1.second_factors
    ≡ record { user_id = 9; state = record second { recovery_code_hashes = "r1" ∷ [] } } ∷ []
unfolding login unless_locked assert_not_locked check_account check_second_factor check_code
    after_code consume_second_factor consume_recovery open_session remove_code
recovery_runs = refl

code_missing : (login hotp decrypt office clock (signing_in none) calm).0 ≡ err unauthenticated
unfolding login unless_locked assert_not_locked check_account check_second_factor check_code
code_missing = refl

locked_out :
    (login hotp decrypt office clock (signing_in (some app_code)) wary).0 ≡ err rate_limited
unfolding login unless_locked assert_not_locked
locked_out = refl

abbrev used : TwoFactorState
used = record second { last_used_step = some 10 }

abbrev writers : Writers
writers = record {
  write_bigint = λ n. "0";
  write_date = λ t. "1970-01-01T00:00:00.000Z";
  write_decimal = λ d. "0.00";
}

abbrev change : Value
change = obj (
    field "clientIdProdEncrypted" (str "x") (
      field "items" (arr (cons (obj (field "accessTOKEN" (str "y") end)) nil))
        (field "price" (dec (pos 5)) end)))

abbrev recorded : Value
recorded = obj (field "items" (arr (cons (obj end) nil)) (field "price" (str "0.00") end))

sanitize_runs : sanitize writers change ≡ recorded
unfolding sanitize is_sensitive_key occurs folded text_after is_encrypted_credential ends_line
sanitize_runs = refl

sanitize-IsPlain_example : IsPlain (sanitize writers change)
sanitize-IsPlain_example = sanitize-IsPlain writers change
