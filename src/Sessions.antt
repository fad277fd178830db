-- ===== src/Sessions.antt =====
-- src/modules/auth/auth.service.ts: the sessions of users, by the hash of their refresh token. The table of
-- the sessions is its own list. The signature of a token is checked by the JWT library, whose answer is an
-- argument, as are the hashes and the new token's expiry. A refresh reads its session first and rotates
-- it in a transaction of its own, so that other requests can come between.
pub mod Rotation
use Prim.Native.String.{String}
use text.Mathlib.Text.{◌==◌ as str_eq}
use stock_pilot_be.Prelude.{
  ℕ, suc, ◌&&◌, not, Bool, true, false, Option, none, some, List, [], ◌∷◌, ◌==◌, ltb, filter_by,
  length, if◌then◌else◌,
}
use stock_pilot_be.Prelude.Rows.{find_first, update_all, holds}
use stock_pilot_be.Prelude.Result.{Result, ok, err, unauthenticated}
use stock_pilot_be.Schema.{Database, User, Store}

pub record AuthSession : Type 0 where
  pub id : ℕ
  pub user_id : ℕ
  pub refresh_token_hash : String
  pub expires_at : ℕ
  pub revoked_at : Option ℕ

abbrev pub is_live : AuthSession → Bool
is_live s = elim s.revoked_at [ none ↦ true | some _ ↦ false ]

abbrev pub revoke : ℕ → AuthSession → AuthSession
revoke now s = record s { revoked_at = some now }

-- `updateMany({ where: { userId, revokedAt: null }, data: { revokedAt } })`
unfoldable pub revoke_all : ℕ → ℕ → List AuthSession → List AuthSession
revoke_all now user = update_all (λ s. s.user_id == user && is_live s) (revoke now)

-- `where: { id, revokedAt: null, expiresAt: { gt: now } }`
abbrev pub is_rotatable : ℕ → ℕ → AuthSession → Bool
is_rotatable id now s = s.id == id && (is_live s && ltb now s.expires_at)

-- What the caller brings for the new session.
pub record NewSession : Type 0 where
  pub id : ℕ
  pub refresh_token_hash : String
  pub expires_at : ℕ

abbrev pub new_session : NewSession → ℕ → AuthSession
new_session n user = record {
  id = n.id;
  user_id = user;
  refresh_token_hash = n.refresh_token_hash;
  expires_at = n.expires_at;
  revoked_at = none;
}

-- The rotation's transaction, for the session that was read. Its error comes after the commit.
unfoldable pub rotate :
    ℕ → NewSession → AuthSession → List AuthSession → Result AuthSession × List AuthSession
unfolding revoke_all
rotate now n old rows =
    let taken = update_all (is_rotatable old.id now) (revoke now) rows in
    if length (filter_by (is_rotatable old.id now) rows) == 1
    then (ok (new_session n old.user_id), new_session n old.user_id ∷ taken)
    else (err unauthenticated, revoke_all now old.user_id taken)

-- `user.isActive && (!user.storeId || user.store?.isActive)`
abbrev pub has_active_store : Database → Option ℕ → Bool
has_active_store db none = true
has_active_store db (some store) =
    if store == 0
    then true
    else holds (λ s. s.is_active) (find_first (λ s. s.id == store) db.stores)

abbrev pub may_sign_in : Database → ℕ → Bool
may_sign_in db user =
    holds (λ u. u.is_active && has_active_store db u.store_id)
      (find_first (λ u. u.id == user) db.users)

-- From the session that was read on; `rows` are the sessions as they are by then.
unfoldable pub refresh_session :
    Database
    → ℕ
    → NewSession
    → AuthSession
    → List AuthSession
    → Result AuthSession × List AuthSession
unfolding rotate
refresh_session db now n s rows =
    if not (is_live s)
    then (err unauthenticated, revoke_all now s.user_id rows)
    else if ltb s.expires_at now
    then (err unauthenticated, update_all (λ x. x.id == s.id && is_live x) (revoke now) rows)
    else if may_sign_in db s.user_id
    then rotate now n s rows
    else (err unauthenticated, rows)

unfoldable pub refresh_token :
    Database
    → ℕ
    → NewSession
    → Bool
    → String
    → List AuthSession
    → Result AuthSession × List AuthSession
unfolding refresh_session
refresh_token db now n verified hash rows =
    if verified
    then elim (find_first (λ s. str_eq s.refresh_token_hash hash) rows) [
      | none ↦ (err unauthenticated, rows)
      | some s ↦ refresh_session db now n s rows
    ]
    else (err unauthenticated, rows)

-- `logout`, of one session or of all.
unfoldable pub logout : ℕ → ℕ → Option String → List AuthSession → List AuthSession
logout now user none rows = revoke_all now user rows
logout now user (some hash) rows =
    update_all (λ s. s.user_id == user && (str_eq s.refresh_token_hash hash && is_live s))
      (revoke now) rows
