-- ===== src/Users.antt =====
-- src/modules/users/services: accept-invite and confirm-password-reset, with the queries of
-- src/modules/users/repositories/user.repository.ts that they use. bcrypt is a parameter.
pub mod Laws
mod Tests
use aerobi_api.Common.{
  ◌≡◌, Bool, true, false, not, List, [], ◌∷◌, Option, none, some, String, str_eq, ℕ, find, is_none,
  if◌then◌else◌,
}
use aerobi_api.Common.Errors.{HttpError, HttpStatus, ErrorCode, Result, ok, err, http_error}
use aerobi_api.Common.Effects.{M, ◌>>=◌, ◌>>◌, pure, gets, require, or_throw}
use aerobi_api.Accounts.{
  User, Accounts, TokenType, update_where, database_error, revoke_all_for_user,
}
use aerobi_api.Tokens.{mark_as_used, validate, refused}
use aerobi_api.Sessions.{
  Crypto, Drawn, SessionContext, SessionResult, issue_token_pair, subject_of, session_user,
  find_user,
}

abbrev pub find_by_email : Accounts → String → Option User
find_by_email s email = find (λ u. str_eq u.email email) s.users

abbrev update_found : Option User → String → (User → User) → M Accounts User
update_found none id f s = (err database_error, s)
update_found (some u) id f s =
    (ok (f u), record s { users = update_where (λ v. str_eq v.id id) f s.users })

-- `UserRepository.update`; a row that does not exist makes the database throw.
unfoldable pub update_user : String → (User → User) → M Accounts User
update_user id f s = update_found (find_user s id) id f s

-- `catch`: another exception in place of the one that was thrown.
abbrev pub rethrow :
    {A : Type 0} → (HttpError → HttpError) → Result A × Accounts → Result A × Accounts
rethrow f (ok a, s) = (ok a, s)
rethrow f (err e, s) = (err (f e), s)

abbrev pub set_password : String → User → User
set_password hash u = record u { password = some hash }

abbrev pub reset_invalid : HttpError
reset_invalid = refused ErrorCode.password_reset_token_invalid

-- The readings of the clock of one request, in order: the query of the token, its check, the write.
pub record Clock : Type 0 where
  pub query : ℕ
  pub check : ℕ
  pub write : ℕ

abbrev invite_code : ErrorCode → HttpError → HttpError
invite_code ErrorCode.token_expired e = refused ErrorCode.invite_token_expired
invite_code ErrorCode.invalid_token e = refused ErrorCode.invite_token_invalid
invite_code ErrorCode.token_already_used e = refused ErrorCode.invite_token_invalid
invite_code _ e = e

-- The generic codes of the validation become those of invitations.
abbrev pub invite_error : HttpError → HttpError
invite_error e = invite_code e.code e

abbrev pub accepted : String → String → ℕ → User → User
accepted hash name now u = record u {
  password = some hash;
  email_verified = true;
  accepted_invite_at = some now;
  name = name;
}

module _ (compare_token : String → String → Bool) (to_iso_string : ℕ → String)
    (hash_password : String → String) where
  -- `ConfirmPasswordResetService.execute`, without the event that it emits at the end.
  unfoldable pub confirm_password_reset : Clock → String → String → String → M Accounts (Unit {0})
  confirm_password_reset at email token new_password = do
    found ← gets (λ s. find_by_email s email)
    user ← or_throw found reset_invalid
    require (is_none user.deleted_at) reset_invalid
    token_record ← (λ s.
        rethrow (λ e. reset_invalid)
          (validate compare_token to_iso_string at.query at.check token user.id
            TokenType.password_reset s))
    updated ← update_user user.id (set_password (hash_password new_password))
    mark_as_used token_record.id
    revoked ← revoke_all_for_user user.id at.write
    pure tt

  -- `AcceptInviteService.execute`.
  unfoldable pub accept_invite :
      Crypto
      → String
      → String
      → Clock
      → Drawn
      → String
      → String
      → String
      → String
      → SessionContext
      → M Accounts SessionResult
  accept_invite c access_ttl refresh_ttl at d email token password name context = do
    found ← gets (λ s. find_by_email s email)
    user ← or_throw found (refused ErrorCode.invite_token_invalid)
    require (is_none user.deleted_at) (refused ErrorCode.invite_token_invalid)
    require (is_none user.accepted_invite_at) (refused ErrorCode.invite_already_accepted)
    token_record ← (λ s.
        rethrow invite_error
          (validate compare_token to_iso_string at.query at.check token user.id TokenType.invite s))
    updated ← update_user user.id (accepted (hash_password password) name at.write)
    mark_as_used token_record.id
    pair ← issue_token_pair c access_ttl refresh_ttl d (subject_of updated) context
    pure (record { pair = pair; user = session_user updated })
