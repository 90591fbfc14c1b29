-- ===== src/Passwords.antt =====
-- src/modules/users/services: change-password, request-password-reset, admin-reset-password,
-- verify-password-reset-token and update-profile. bcrypt is a parameter, `compare_token` for tokens
-- and `compare_password` for passwords.
pub mod Laws
mod Tests
use aerobi_api.Common.{
  Bool, true, false, not, ◌&&◌, ◌||◌, List, [], ◌∷◌, ◌++◌, Option, none, some, String, ℕ, is_none,
  if◌then◌else◌, or_default,
}
use aerobi_api.Common.Errors.{HttpError, HttpStatus, ErrorCode, Result, ok, err, http_error}
use aerobi_api.Common.Effects.{M, ◌>>=◌, ◌>>◌, pure, gets, modify, require, or_throw}
use aerobi_api.Accounts.{User, Accounts, Token, TokenType, revoke_all_for_user}
use aerobi_api.Tokens.{DrawnToken, create_one_time_token, password_reset_minutes, validate}
use aerobi_api.Users.{find_by_email, update_user, set_password, rethrow, reset_invalid, Clock}
use aerobi_api.Administration.{find_active_by_id, user_not_found}

-- The letter that the event `PASSWORD_RESET_TOKEN_SENT_EVENT` brings on its way, and the entries of
-- the trail that say who triggered a reset.
pub record ResetMail : Type 0 where
  pub user_id : String
  pub email : String
  pub token : String
  pub expires_at : ℕ

pub record Portal : Type 0 where
  pub accounts : Accounts
  pub mails : List ResetMail
  pub reset_trail : List (String × String)

abbrev pub with_accounts : {A : Type 0} → Portal → Result A × Accounts → Result A × Portal
with_accounts s (r, a) = (r, record s { accounts = a })

abbrev pub on_accounts : {A : Type 0} → M Accounts A → M Portal A
on_accounts m s = with_accounts s (m s.accounts)

abbrev pub generic_message : String
generic_message = "Se o email estiver registrado, um link de redefinição foi enviado."

abbrev pub account_deleted : HttpError
account_deleted = http_error HttpStatus.unauthorized ErrorCode.account_deleted []

abbrev pub invalid_credentials : HttpError
invalid_credentials = http_error HttpStatus.unauthorized ErrorCode.invalid_credentials []

-- `user.password !== null` and bcrypt's comparison.
abbrev pub knows_password : (String → String → Bool) → String → Option String → Bool
knows_password compare_password current none = false
knows_password compare_password current (some hash) = compare_password current hash

-- `ChangePasswordService.execute`.
unfoldable pub change_password :
    (String → String → Bool)
    → (String → String)
    → String
    → String
    → String
    → ℕ
    → M Accounts (Unit {0})
unfolding find_active_by_id update_user revoke_all_for_user
change_password compare_password hash_password actor_id current new now = do
  found ← gets (λ s. find_active_by_id s actor_id)
  user ← or_throw found account_deleted
  require (knows_password compare_password current user.password) invalid_credentials
  updated ← update_user actor_id (set_password (hash_password new))
  revoked ← revoke_all_for_user actor_id now
  pure tt

-- `!user || user.deletedAt || !user.acceptedInviteAt`.
abbrev pub is_eligible : User → Bool
is_eligible u = is_none u.deleted_at && not (is_none u.accepted_invite_at)

abbrev pub issue_reset : DrawnToken → User → M Portal String
unfolding create_one_time_token
issue_reset d user = do
  (token, token_record) ←
      on_accounts (create_one_time_token d user.id TokenType.password_reset password_reset_minutes)
  modify (λ s. record s {
    mails =
        s.mails
        ++ record {
          user_id = user.id;
          email = user.email;
          token = token;
          expires_at = token_record.expires_at;
        }
          ∷ [];
  })
  pure generic_message

abbrev pub reset_for : DrawnToken → Option User → M Portal String
unfolding create_one_time_token
reset_for d none s = (ok generic_message, s)
reset_for d (some user) s =
    if is_eligible user then issue_reset d user s else (ok generic_message, s)

-- `RequestPasswordResetService.execute`.
unfoldable pub request_password_reset : DrawnToken → String → M Portal String
unfolding create_one_time_token
request_password_reset d email = do
  found ← gets (λ s. find_by_email s.accounts email)
  reset_for d found

abbrev record_reset : Bool → String → String → Portal → Portal
record_reset false id actor_id s = s
record_reset true id actor_id s = record s { reset_trail = s.reset_trail ++ (id, actor_id) ∷ [] }

-- `AdminResetPasswordService.execute`; the audit entry may fail without consequence.
unfoldable pub admin_reset_password : Bool → DrawnToken → String → String → M Portal String
unfolding find_active_by_id request_password_reset
admin_reset_password audited d id actor_id = do
  found ← gets (λ s. find_active_by_id s.accounts id)
  user ← or_throw found (user_not_found id)
  modify (record_reset audited id actor_id)
  request_password_reset d user.email

module _ (compare_token : String → String → Bool) (to_iso_string : ℕ → String) where
  -- `VerifyPasswordResetTokenService.execute`.
  unfoldable pub verify_password_reset_token : Clock → String → String → M Accounts (Unit {0})
  unfolding validate
  verify_password_reset_token at email token = do
    found ← gets (λ s. find_by_email s email)
    user ← or_throw found reset_invalid
    require (is_none user.deleted_at) reset_invalid
    good ← (λ s.
        rethrow (λ e. reset_invalid)
          (validate compare_token to_iso_string at.query at.check token user.id
            TokenType.password_reset s))
    pure tt

pub record ProfileUpdate : Type 0 where
  pub name : Option String
  pub phone : Option (Option String)

abbrev pub profile_edited : ProfileUpdate → User → User
profile_edited dto u = record u {
  name = or_default dto.name u.name;
  phone = or_default dto.phone u.phone;
}

-- `UpdateProfileService.execute`; the time zone of an account is left out.
unfoldable pub update_profile : String → ProfileUpdate → M Accounts User
unfolding find_active_by_id update_user
update_profile actor_id dto = do
  found ← gets (λ s. find_active_by_id s actor_id)
  user ← or_throw found account_deleted
  update_user actor_id (profile_edited dto)
