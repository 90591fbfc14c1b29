-- ===== src/Sessions.antt =====
-- src/modules/auth/services: jwt-signer, jwt-verifier, issue-token-pair, rotate-token-pair,
-- auth-login, auth-refresh-session and auth-logout. A service is a function of the database.
-- The clock is read once for each request; the ids that the request draws are arguments.
pub mod Laws
pub mod Reuse
pub mod Race
pub mod Invariant
mod Tests
use aerobi_api.Common.{
  ◌≡◌, Bool, true, false, not, ◌&&◌, ◌||◌, List, [], ◌∷◌, Option, none, some, String, str_eq, ℕ,
  zero, suc, ◌*◌, leb, find, is_none, if◌then◌else◌,
}
use aerobi_api.Common.Errors.{HttpError, HttpStatus, ErrorCode, Result, ok, err, http_error}
use aerobi_api.Common.Effects.{M, ◌>>=◌, ◌>>◌, pure, throw, gets, modify, lift, require, or_throw}
use aerobi_api.Authz.Permissions.{UserRole}
use aerobi_api.Accounts.{
  User, RefreshToken, Accounts, CreateRefreshTokenData, create_refresh_token, update_refresh_token,
  find_by_jti, replace_by, revoke_by_id, revoke_all_for_user, rollback, update_where,
}

pub data JwtTokenType : Type 0 where
  access refresh : JwtTokenType

pub record JwtPayload : Type 0 where
  pub sub : String
  pub email : String
  pub role : UserRole
  pub typ : JwtTokenType
  pub jti : String

-- What the JWT library says of a token that it is given.
pub data Verified : Type 0 where
  valid : JwtPayload → Verified
  expired invalid : Verified

-- The libraries behind the services: `jsonwebtoken` (at a given moment), SHA-256 and bcrypt.
-- `decode_exp` is the claim `exp`, in seconds.
pub record Crypto : Type 0 where
  pub sign : JwtPayload → String → String
  pub decode_exp : String → Option ℕ
  pub verify : ℕ → String → Verified
  pub sha256 : String → String
  pub bcrypt_compare : String → String → Bool

pub record JwtSubject : Type 0 where
  pub id : String
  pub email : String
  pub role : UserRole

pub record SignedToken : Type 0 where
  pub token : String
  pub expires_at : ℕ
  pub jti : String

pub record SessionContext : Type 0 where
  pub user_agent : Option String
  pub ip_address : Option String

pub record IssuedTokenPair : Type 0 where
  pub access_token : String
  pub access_expires_at : ℕ
  pub refresh_token : String
  pub refresh_expires_at : ℕ
  pub refresh_token_id : String

pub record SessionUser : Type 0 where
  pub id : String
  pub email : String
  pub name : String
  pub role : UserRole

-- `LoginResult` and `RefreshSessionResult`.
pub record SessionResult : Type 0 where
  pub pair : IssuedTokenPair
  pub user : SessionUser

-- What one request draws: two token ids and the id of the new row.
pub record Drawn : Type 0 where
  pub access_jti : String
  pub refresh_jti : String
  pub row_id : String
  pub now : ℕ

abbrev pub unauthorized_code : ErrorCode → HttpError
unauthorized_code code = http_error HttpStatus.unauthorized code []

abbrev pub subject_of : User → JwtSubject
subject_of u = record { id = u.id; email = u.email; role = u.role }

abbrev pub session_user : User → SessionUser
session_user u = record { id = u.id; email = u.email; name = u.name; role = u.role }

abbrev token_pair : SignedToken → SignedToken → RefreshToken → IssuedTokenPair
token_pair short long row = record {
  access_token = short.token;
  access_expires_at = short.expires_at;
  refresh_token = long.token;
  refresh_expires_at = long.expires_at;
  refresh_token_id = row.id;
}

abbrev is_refresh : JwtTokenType → Bool
is_refresh JwtTokenType.access = false
is_refresh JwtTokenType.refresh = true

abbrev pub is_active_user : User → Bool
is_active_user u = is_none u.deleted_at

-- `findUnique({ where: { id } })`, which also finds deleted accounts.
abbrev pub find_user : Accounts → String → Option User
find_user s id = find (λ u. str_eq u.id id) s.users

module _ (c : Crypto) (access_ttl refresh_ttl : String) where
  open c use {sign, decode_exp, verify, sha256, bcrypt_compare}

  abbrev signed_with_exp : String → String → Option ℕ → Result SignedToken
  signed_with_exp token jti none =
      err (http_error HttpStatus.internal_server_error ErrorCode.internal_error [])
  signed_with_exp token jti (some zero) =
      err (http_error HttpStatus.internal_server_error ErrorCode.internal_error [])
  signed_with_exp token jti (some (suc n)) =
      ok (record { token = token; expires_at = suc n * 1000; jti = jti })

  unfoldable pub sign_with_type : JwtSubject → JwtTokenType → String → String → Result SignedToken
  sign_with_type subject typ expires_in jti =
      let payload : JwtPayload = record {
        sub = subject.id;
        email = subject.email;
        role = subject.role;
        typ = typ;
        jti = jti;
      } in
      let token = sign payload expires_in in signed_with_exp token jti (decode_exp token)

  abbrev checked_payload : Verified → Result JwtPayload
  checked_payload (valid p) =
      if is_refresh p.typ then ok p else err (unauthorized_code ErrorCode.refresh_token_invalid)
  checked_payload expired = err (unauthorized_code ErrorCode.refresh_token_expired)
  checked_payload invalid = err (unauthorized_code ErrorCode.refresh_token_invalid)

  unfoldable pub verify_refresh_token : ℕ → String → Result JwtPayload
  verify_refresh_token now plain = checked_payload (verify now plain)

  abbrev token_data : SignedToken → JwtSubject → SessionContext → CreateRefreshTokenData
  token_data long subject context = record {
    jti = long.jti;
    token_hash = sha256 long.token;
    user_id = subject.id;
    expires_at = long.expires_at;
    user_agent = context.user_agent;
    ip_address = context.ip_address;
  }

  unfoldable pub issue_token_pair : Drawn → JwtSubject → SessionContext → M Accounts IssuedTokenPair
  issue_token_pair d subject context = do
    short ← lift (sign_with_type subject JwtTokenType.access access_ttl d.access_jti)
    long ← lift (sign_with_type subject JwtTokenType.refresh refresh_ttl d.refresh_jti)
    created ← create_refresh_token d.row_id (token_data long subject context)
    pure (token_pair short long created)

  -- `RefreshTokenRepository.rotate`: one transaction.
  unfoldable pub rotate : String → String → ℕ → CreateRefreshTokenData → M Accounts RefreshToken
  rotate current_id row_id now new_token s = rollback s (
      (do
        created ← create_refresh_token row_id new_token
        update_refresh_token current_id (replace_by created.id now)
        pure created)
        s)

  unfoldable pub rotate_token_pair :
      Drawn → String → JwtSubject → SessionContext → M Accounts IssuedTokenPair
  rotate_token_pair d current_id subject context = do
    short ← lift (sign_with_type subject JwtTokenType.access access_ttl d.access_jti)
    long ← lift (sign_with_type subject JwtTokenType.refresh refresh_ttl d.refresh_jti)
    created ← rotate current_id d.row_id d.now (token_data long subject context)
    pure (token_pair short long created)

  -- The reuse of a revoked token revokes every session of its user.
  abbrev reject_reuse : Bool → String → ℕ → M Accounts (Unit {0})
  reject_reuse false user_id now = pure tt
  reject_reuse true user_id now = do
    revoked ← revoke_all_for_user user_id now
    throw (unauthorized_code ErrorCode.refresh_token_reuse_detected)

  -- The checks of `AuthRefreshSessionService.execute` on the row, up to the rotation.
  unfoldable pub check_row : ℕ → String → RefreshToken → M Accounts (RefreshToken × User)
  unfolding revoke_all_for_user
  check_row now refresh_token row = do
    require (str_eq row.token_hash (sha256 refresh_token))
        (unauthorized_code ErrorCode.refresh_token_invalid)
    require (is_none row.deleted_at) (unauthorized_code ErrorCode.refresh_token_invalid)
    reject_reuse row.revoked row.user_id now
    require (not (leb row.expires_at now)) (unauthorized_code ErrorCode.refresh_token_expired)
    owner ← gets (λ s. find_user s row.user_id)
    user ← or_throw owner (unauthorized_code ErrorCode.refresh_token_invalid)
    require (is_active_user user) (unauthorized_code ErrorCode.refresh_token_invalid)
    pure (row, user)

  unfoldable pub check_refresh : ℕ → String → M Accounts (RefreshToken × User)
  check_refresh now refresh_token = do
    payload ← lift (verify_refresh_token now refresh_token)
    found ← gets (λ s. find_by_jti s payload.jti)
    row ← or_throw found (unauthorized_code ErrorCode.refresh_token_invalid)
    check_row now refresh_token row

  unfoldable pub refresh_session : Drawn → String → SessionContext → M Accounts SessionResult
  refresh_session d refresh_token context = do
    checked ← check_refresh d.now refresh_token
    pair ← rotate_token_pair d checked.0.id (subject_of checked.1) context
    pure (record { pair = pair; user = session_user checked.1 })

  abbrev logout_row : Option RefreshToken → ℕ → M Accounts (Unit {0})
  logout_row none now = pure tt
  logout_row (some row) now =
      if row.revoked || not (is_none row.deleted_at) then pure tt else revoke_by_id row.id now

  abbrev logout_payload : Result JwtPayload → ℕ → M Accounts (Unit {0})
  logout_payload (err e) now = pure tt
  logout_payload (ok payload) now = do
    found ← gets (λ s. find_by_jti s payload.jti)
    logout_row found now

  unfoldable pub logout : ℕ → String → M Accounts (Unit {0})
  logout now refresh_token = logout_payload (verify_refresh_token now refresh_token) now

  abbrev with_password : Option String → M Accounts String
  with_password none = throw (unauthorized_code ErrorCode.account_not_activated)
  with_password (some hash) = pure hash

  -- The update of `lastLoginAt` is not awaited, and may fail: `saved` says whether it went through.
  abbrev save_last_login : Bool → String → ℕ → Accounts → Accounts
  save_last_login false id now s = s
  save_last_login true id now s = record s {
    users = update_where (λ u. str_eq u.id id) (λ u. record u { last_login_at = some now }) s.users;
  }

  unfoldable pub login : Drawn → Bool → String → String → SessionContext → M Accounts SessionResult
  login d saved email password context = do
    found ← gets (λ s. find (λ u. str_eq u.email email) s.users)
    user ← or_throw found (unauthorized_code ErrorCode.invalid_credentials)
    require (is_active_user user) (unauthorized_code ErrorCode.invalid_credentials)
    hash ← with_password user.password
    require (bcrypt_compare password hash) (unauthorized_code ErrorCode.invalid_credentials)
    require user.email_verified (unauthorized_code ErrorCode.account_not_verified)
    pair ← issue_token_pair d (subject_of user) context
    modify (save_last_login saved user.id d.now)
    pure (record { pair = pair; user = session_user user })
