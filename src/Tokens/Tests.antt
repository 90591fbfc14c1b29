-- ===== src/Tokens/Tests.antt =====
-- An invitation is sent twice; the second token works, once.
use aerobi_api.Common.{◌≡◌, refl, [], ◌∷◌, String, str_eq, ℕ, arith}
use aerobi_api.Common.Errors.{ErrorCode, ok, err}
use aerobi_api.Accounts.{Accounts, Token, TokenType}
use aerobi_api.Tokens.{
  DrawnToken, create_one_time_token, create_token, invalidate_by_subject_and_type,
  find_active_by_subject_and_type, mark_as_used, validate, issued_token, invite_minutes, refused,
}
use aerobi_api.Tokens.Laws.{validate-mark_as_used}

abbrev no_iso : ℕ → String
no_iso t = "later"

abbrev first : DrawnToken
first = record { id = "t1"; plain = "abc"; token_hash = "abc"; now = 1000 }

abbrev second : DrawnToken
second = record { id = "t2"; plain = "xyz"; token_hash = "xyz"; now = 2000 }

abbrev invited_once : Accounts
invited_once = record {
  users = [];
  refresh_tokens = [];
  tokens = issued_token first "ana" TokenType.invite invite_minutes ∷ [];
}

abbrev invited_twice : Accounts
invited_twice = (create_one_time_token second "ana" TokenType.invite invite_minutes invited_once).1

abbrev invitation : Token
invitation = issued_token second "ana" TokenType.invite invite_minutes

sample_create :
    create_one_time_token second "ana" TokenType.invite invite_minutes invited_once
    ≡ (ok ("xyz", invitation), invited_twice)
unfolding create_one_time_token create_token invalidate_by_subject_and_type
sample_create = refl

sample_validate :
    validate str_eq no_iso 1500 1501 "abc" "ana" TokenType.invite invited_once
    ≡ (ok (issued_token first "ana" TokenType.invite invite_minutes), invited_once)
unfolding validate find_active_by_subject_and_type
sample_validate = refl

used_example :
    let after = (mark_as_used "t1" invited_once).1 in
    validate str_eq no_iso 1600 1601 "abc" "ana" TokenType.invite after
    ≡ (err (refused ErrorCode.invalid_token), after)
used_example =
    validate-mark_as_used "ana" TokenType.invite str_eq no_iso 1500 1501 1600 1601 "abc" "abc"
      invited_once invited_once (issued_token first "ana" TokenType.invite invite_minutes)
      (omega arith) sample_validate

sample_invalid :
    validate str_eq no_iso 1500 1501 "abd" "ana" TokenType.invite invited_once
    ≡ (err (refused ErrorCode.invalid_token), invited_once)
unfolding validate find_active_by_subject_and_type
sample_invalid = refl
