-- ===== src/Tokens.antt =====
-- src/modules/tokens: the one-time tokens of invitations, password resets and verifications of an
-- address. bcrypt is a parameter. Metadata and the columns that name an author are left out.
pub mod Laws
mod Tests
use aerobi_api.Common.{
  ◌≡◌, Bool, true, false, not, ◌&&◌, List, [], ◌∷◌, ◌++◌, Option, none, some, String, str_eq, ℕ,
  ◌+◌, ◌*◌, ltb, leb, any, is_none, if◌then◌else◌,
}
use aerobi_api.Common.Errors.{HttpError, HttpStatus, ErrorCode, Result, ok, err, http_error}
use aerobi_api.Common.Effects.{M, ◌>>=◌, ◌>>◌, pure, gets, modify, require, or_throw}
use aerobi_api.Accounts.{Accounts, Token, TokenType, update_where, database_error}

abbrev same_type : TokenType → TokenType → Bool
same_type TokenType.email_verification TokenType.email_verification = true
same_type TokenType.password_reset TokenType.password_reset = true
same_type TokenType.otp TokenType.otp = true
same_type TokenType.invite TokenType.invite = true
same_type TokenType.generic TokenType.generic = true
same_type _ _ = false

-- `where: { subjectId, type, used: false, deletedAt: null }`.
abbrev pub is_open : String → TokenType → Token → Bool
is_open subject_id type t =
    str_eq t.subject_id subject_id
    && (same_type t.type type && (not t.used && is_none t.deleted_at))

-- And `expiresAt: { gt: now }`.
abbrev pub is_active : ℕ → String → TokenType → Token → Bool
is_active now subject_id type t = is_open subject_id type t && ltb now t.expires_at

abbrev later : Token → Option Token → Option Token
later t none = some t
later t (some u) = if ltb t.created_at u.created_at then some u else some t

-- `orderBy: { createdAt: 'desc' }`, the first row.
abbrev pub newest : (Token → Bool) → List Token → Option Token
newest p [] = none
newest p (t ∷ ts) = let rest = newest p ts in if p t then later t rest else rest

unfoldable pub find_active_by_subject_and_type : ℕ → String → TokenType → Accounts → Option Token
find_active_by_subject_and_type now subject_id type s =
    newest (is_active now subject_id type) s.tokens

abbrev pub set_used : Token → Token
set_used t = record t { used = true }

abbrev pub set_invalid : ℕ → Token → Token
set_invalid now t = record t { used = true; deleted_at = some now }

unfoldable pub mark_as_used : String → M Accounts (Unit {0})
mark_as_used id s =
    if any (λ t. str_eq t.id id) s.tokens
    then (ok tt, record s { tokens = update_where (λ t. str_eq t.id id) set_used s.tokens })
    else (err database_error, s)

unfoldable pub invalidate_by_subject_and_type : String → TokenType → ℕ → Accounts → Accounts
invalidate_by_subject_and_type subject_id type now s = record s {
  tokens = update_where (is_open subject_id type) (set_invalid now) s.tokens;
}

-- What `create` inserts; a taken id is refused by the primary key.
unfoldable pub create_token : Token → M Accounts Token
create_token t s =
    if any (λ u. str_eq u.id t.id) s.tokens
    then (err database_error, s)
    else (ok t, record s { tokens = s.tokens ++ t ∷ [] })

-- What the creation of a token draws: the row's id, the random text, its hash, and the time.
pub record DrawnToken : Type 0 where
  pub id : String
  pub plain : String
  pub token_hash : String
  pub now : ℕ

abbrev pub compute_expires_at : ℕ → ℕ → ℕ
compute_expires_at now minutes = now + minutes * 60000

abbrev pub issued_token : DrawnToken → String → TokenType → ℕ → Token
issued_token d subject_id type minutes = record {
  id = d.id;
  type = type;
  token_hash = d.token_hash;
  subject_id = subject_id;
  expires_at = compute_expires_at d.now minutes;
  used = false;
  created_at = d.now;
  deleted_at = none;
}

-- `createInviteToken`, `createPasswordResetToken` and `createEmailVerificationToken` differ in the
-- type and in the default number of minutes.
unfoldable pub create_one_time_token :
    DrawnToken → String → TokenType → ℕ → M Accounts (String × Token)
create_one_time_token d subject_id type minutes = do
  modify (invalidate_by_subject_and_type subject_id type d.now)
  token_record ← create_token (issued_token d subject_id type minutes)
  pure (d.plain, token_record)

abbrev pub invite_minutes : ℕ
invite_minutes = 72 * 60

abbrev pub password_reset_minutes : ℕ
password_reset_minutes = 30

abbrev pub email_verification_minutes : ℕ
email_verification_minutes = 60

abbrev pub refused : ErrorCode → HttpError
refused code = http_error HttpStatus.bad_request code []

abbrev pub expired_at : String → HttpError
expired_at time =
    http_error HttpStatus.bad_request ErrorCode.token_expired (("EXPIRED_AT", time) ∷ [])

-- `TokenValidationService.validate`. The clock is read by the query and again by the check.
-- `to_iso_string` writes an instant.
module _ (compare_token : String → String → Bool) (to_iso_string : ℕ → String) where
  unfoldable pub validate : ℕ → ℕ → String → String → TokenType → M Accounts Token
  validate now now' plain_token subject_id type = do
    found ← gets (λ s. find_active_by_subject_and_type now subject_id type s)
    token_record ← or_throw found (refused ErrorCode.invalid_token)
    require (compare_token plain_token token_record.token_hash) (refused ErrorCode.invalid_token)
    require (not (leb token_record.expires_at now'))
        (expired_at (to_iso_string token_record.expires_at))
    require (not token_record.used) (refused ErrorCode.token_already_used)
    pure token_record
