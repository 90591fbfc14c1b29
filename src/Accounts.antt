-- ===== src/Accounts.antt =====
-- The tables of accounts in prisma/schema.prisma (`User`, `RefreshToken`, `Token`) and the queries of
-- src/modules/auth/repositories/refresh-token.repository.ts. Times are milliseconds; ids that the
-- database makes are arguments. A write that a unique column refuses, and an update of a row that
-- is not there, throw a Prisma error, which reaches the client as status 500.
pub mod Laws
use aerobi_api.Common.{
  Bool, true, false, not, ◌&&◌, ◌||◌, List, [], ◌∷◌, ◌++◌, map, Option, none, some, String, str_eq,
  ℕ, any, find, count, is_none, if◌then◌else◌,
}
use aerobi_api.Common.Errors.{HttpError, HttpStatus, ErrorCode, Result, ok, err, http_error}
use aerobi_api.Common.Effects.{M}
use aerobi_api.Authz.Permissions.{UserRole}

pub record User : Type 0 where
  pub id : String
  pub email : String
  pub name : String
  pub phone : Option String
  pub password : Option String
  pub role : UserRole
  pub group_id : Option String
  pub state : Option String
  pub email_verified : Bool
  pub accepted_invite_at : Option ℕ
  pub last_login_at : Option ℕ
  pub deleted_at : Option ℕ

pub record RefreshToken : Type 0 where
  pub id : String
  pub jti : String
  pub token_hash : String
  pub user_id : String
  pub expires_at : ℕ
  pub revoked : Bool
  pub revoked_at : Option ℕ
  pub replaced_by_id : Option String
  pub user_agent : Option String
  pub ip_address : Option String
  pub deleted_at : Option ℕ

pub data TokenType : Type 0 where
  email_verification password_reset otp invite generic : TokenType

pub record Token : Type 0 where
  pub id : String
  pub type : TokenType
  pub token_hash : String
  pub subject_id : String
  pub expires_at : ℕ
  pub used : Bool
  pub created_at : ℕ
  pub deleted_at : Option ℕ

pub record Accounts : Type 0 where
  pub users : List User
  pub refresh_tokens : List RefreshToken
  pub tokens : List Token

abbrev pub database_error : HttpError
database_error = http_error HttpStatus.internal_server_error ErrorCode.internal_error []

pub record CreateRefreshTokenData : Type 0 where
  pub jti : String
  pub token_hash : String
  pub user_id : String
  pub expires_at : ℕ
  pub user_agent : Option String
  pub ip_address : Option String

abbrev pub new_refresh_token : String → CreateRefreshTokenData → RefreshToken
new_refresh_token id d = record {
  id = id;
  jti = d.jti;
  token_hash = d.token_hash;
  user_id = d.user_id;
  expires_at = d.expires_at;
  revoked = false;
  revoked_at = none;
  replaced_by_id = none;
  user_agent = d.user_agent;
  ip_address = d.ip_address;
  deleted_at = none;
}

-- `jti` and `id` are unique columns.
abbrev pub is_taken : List RefreshToken → String → String → Bool
is_taken rows id jti = any (λ r. str_eq r.id id || str_eq r.jti jti) rows

unfoldable pub create_refresh_token : String → CreateRefreshTokenData → M Accounts RefreshToken
create_refresh_token id d s =
    if is_taken s.refresh_tokens id d.jti then (err database_error, s) else (
      ok (new_refresh_token id d),
      record s { refresh_tokens = s.refresh_tokens ++ new_refresh_token id d ∷ [] },
    )

unfoldable pub find_by_jti : Accounts → String → Option RefreshToken
find_by_jti s jti = find (λ r. str_eq r.jti jti) s.refresh_tokens

abbrev pub update_where : {A : Type 0} → (A → Bool) → (A → A) → List A → List A
update_where p f [] = []
update_where p f (x ∷ xs) = (if p x then f x else x) ∷ update_where p f xs

-- `update({ where: { id }, data })`.
unfoldable pub update_refresh_token : String → (RefreshToken → RefreshToken) → M Accounts (Unit {0})
update_refresh_token id f s =
    if any (λ r. str_eq r.id id) s.refresh_tokens
    then (
      ok tt,
      record s { refresh_tokens = update_where (λ r. str_eq r.id id) f s.refresh_tokens },
    )
    else (err database_error, s)

abbrev pub revoke : ℕ → RefreshToken → RefreshToken
revoke now r = record r { revoked = true; revoked_at = some now }

abbrev pub replace_by : String → ℕ → RefreshToken → RefreshToken
replace_by id now r = record r { revoked = true; revoked_at = some now; replaced_by_id = some id }

unfoldable pub revoke_by_id : String → ℕ → M Accounts (Unit {0})
unfolding update_refresh_token
revoke_by_id id now = update_refresh_token id (revoke now)

-- The rows that `revokeAllForUser` updates.
abbrev pub is_live_of : String → RefreshToken → Bool
is_live_of user_id r = str_eq r.user_id user_id && (not r.revoked && is_none r.deleted_at)

unfoldable pub revoke_all_for_user : String → ℕ → M Accounts ℕ
revoke_all_for_user user_id now s = (
  ok (count (is_live_of user_id) s.refresh_tokens),
  record s { refresh_tokens = update_where (is_live_of user_id) (revoke now) s.refresh_tokens },
)

-- A transaction that throws leaves the database as it was.
abbrev pub rollback : {A : Type 0} → Accounts → Result A × Accounts → Result A × Accounts
rollback s (ok a, s') = (ok a, s')
rollback s (err e, s') = (err e, s)
