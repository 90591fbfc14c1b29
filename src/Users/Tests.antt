-- ===== src/Users/Tests.antt =====
-- Ana accepts her invitation; Rui resets his password.
use aerobi_api.Common.{◌≡◌, refl, false, [], ◌∷◌, Option, none, some, String, str_eq, ℕ, any}
use aerobi_api.Common.Errors.{ok}
use aerobi_api.Authz.Permissions.{UserRole}
use aerobi_api.Accounts.{
  User, RefreshToken, Accounts, TokenType, is_live_of, create_refresh_token, revoke_all_for_user,
}
use aerobi_api.Sessions.{
  Crypto, invalid, Drawn, SessionContext, SessionResult, session_user, issue_token_pair,
  sign_with_type,
}
use aerobi_api.Tokens.{issued_token, validate, find_active_by_subject_and_type, mark_as_used}
use aerobi_api.Users.{
  Clock, find_by_email, set_password, accepted, confirm_password_reset, accept_invite, update_user,
}
use aerobi_api.Users.Laws.{confirm_password_reset-sessions}

abbrev no_iso : ℕ → String
no_iso t = "later"

abbrev same_text : String → String
same_text password = password

abbrev plain : Crypto
plain = record {
  sign = λ p ttl. p.jti;
  decode_exp = λ token. some 500;
  verify = λ now token. invalid;
  sha256 = λ token. token;
  bcrypt_compare = str_eq;
}

abbrev account : String → String → Option ℕ → User
account id email accepted_at = record {
  id = id;
  email = email;
  name = id;
  phone = none;
  password = none;
  role = UserRole.operator;
  group_id = some "north";
  state = none;
  email_verified = false;
  accepted_invite_at = accepted_at;
  last_login_at = none;
  deleted_at = none;
}

abbrev ana : User
ana = account "ana" "ana@aerobi.br" none

abbrev rui : User
rui = account "rui" "rui@aerobi.br" (some 1)

abbrev session_of_rui : RefreshToken
session_of_rui = record {
  id = "row1";
  jti = "r1";
  token_hash = "r1";
  user_id = "rui";
  expires_at = 500000;
  revoked = false;
  revoked_at = none;
  replaced_by_id = none;
  user_agent = none;
  ip_address = none;
  deleted_at = none;
}

abbrev sample : Accounts
sample = record {
  users = ana ∷ rui ∷ [];
  refresh_tokens = session_of_rui ∷ [];
  tokens =
      issued_token (record { id = "t1"; plain = "abc"; token_hash = "abc"; now = 1000 }) "ana"
        TokenType.invite 60
      ∷ issued_token (record { id = "t2"; plain = "xyz"; token_hash = "xyz"; now = 1000 }) "rui"
          TokenType.password_reset 30
      ∷ [];
}

abbrev at_once : Clock
at_once = record { query = 2000; check = 2001; write = 2002 }

abbrev at_last : Clock
at_last = record { query = 3000; check = 3001; write = 3002 }

abbrev after_reset : Accounts
after_reset =
    (confirm_password_reset str_eq no_iso same_text at_once "rui@aerobi.br" "xyz" "nova" sample).1

sample_reset :
    confirm_password_reset str_eq no_iso same_text at_once "rui@aerobi.br" "xyz" "nova" sample
    ≡ (ok tt, after_reset)
unfolding confirm_password_reset validate find_active_by_subject_and_type update_user mark_as_used
    revoke_all_for_user
sample_reset = refl

reset_example :
    (find_by_email after_reset "rui@aerobi.br" ≡ some (set_password "nova" rui))
    × (any (is_live_of "rui") after_reset.refresh_tokens ≡ false)
reset_example =
    confirm_password_reset-sessions str_eq no_iso same_text at_once "rui@aerobi.br" "xyz" "nova"
      sample after_reset rui refl sample_reset

abbrev context : SessionContext
context = record { user_agent = none; ip_address = none }

abbrev first_draw : Drawn
first_draw = record { access_jti = "a2"; refresh_jti = "r2"; row_id = "row2"; now = 2003 }

abbrev after_accept : Accounts
after_accept =
    (accept_invite str_eq no_iso same_text plain "15m" "7d" at_once first_draw "ana@aerobi.br" "abc"
      "senha" "Ana" context sample).1

abbrev welcome : SessionResult
welcome = record {
  pair = record {
    access_token = "a2";
    access_expires_at = 500000;
    refresh_token = "r2";
    refresh_expires_at = 500000;
    refresh_token_id = "row2";
  };
  user = session_user (accepted "senha" "Ana" 2002 ana);
}

sample_accept :
    accept_invite str_eq no_iso same_text plain "15m" "7d" at_once first_draw "ana@aerobi.br" "abc"
      "senha" "Ana" context sample
    ≡ (ok welcome, after_accept)
unfolding accept_invite validate find_active_by_subject_and_type update_user mark_as_used
    issue_token_pair sign_with_type create_refresh_token
sample_accept = refl
