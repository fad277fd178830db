-- ===== src/Tests/SignIn.antt =====
-- Sessions of the shop's user.
use stock_pilot_be.Prelude.{◌≡◌, refl, true, some, none, List, [], ◌∷◌}
use stock_pilot_be.Prelude.Result.{ok, err, unauthenticated}
use stock_pilot_be.Sessions.{
  AuthSession, NewSession, new_session, rotate, refresh_session, refresh_token,
}
use stock_pilot_be.Sessions.Rotation.{IsSignedOut, rotate_twice}
use stock_pilot_be.Tests.Shop.{shop}

abbrev session : AuthSession
session = record {
  id = 1;
  user_id = 5;
  refresh_token_hash = "old";
  expires_at = 1_000;
  revoked_at = none;
}

abbrev pub next : NewSession
next = record { id = 2; refresh_token_hash = "new"; expires_at = 2_000 }

abbrev third : NewSession
third = record { id = 3; refresh_token_hash = "third"; expires_at = 2_000 }

abbrev pub sessions : List AuthSession
sessions = session ∷ []

refresh_runs : (refresh_token shop 500 next true "old" sessions).0 ≡ ok (new_session next 5)
unfolding refresh_token
refresh_runs = refl

reuse_signs_out :
    (refresh_token shop 600 third true "new"
      (refresh_token shop 550 third true "old"
        (refresh_token shop 500 next true "old" sessions).1).1).0
    ≡ err unauthenticated
unfolding refresh_token
reuse_signs_out = refl

rotate_twice_example :
    ((rotate 501 third session (rotate 500 next session sessions).1).0 ≡ err unauthenticated)
    × IsSignedOut 5 (rotate 501 third session (rotate 500 next session sessions).1).1
rotate_twice_example = rotate_twice 500 501 next third session sessions refl (λ mine. refl, tt)

refresh_session_runs : (refresh_session shop 500 next session sessions).0 ≡ ok (new_session next 5)
unfolding refresh_session
refresh_session_runs = refl

-- At the very millisecond of its expiry a session counts neither as expired nor as running, and the
-- refresh signs the user out everywhere, as for a token that was used twice.
expiry_signs_out :
    refresh_token shop 1_000 next true "old"
      (session ∷ record session { id = 9; refresh_token_hash = "phone"; expires_at = 9_000 } ∷ [])
    ≡ (
      err unauthenticated,
      record session { revoked_at = some 1_000 }
          ∷ record session {
            id = 9;
            refresh_token_hash = "phone";
            expires_at = 9_000;
            revoked_at = some 1_000;
          }
          ∷ [],
    )
unfolding refresh_token
expiry_signs_out = refl
