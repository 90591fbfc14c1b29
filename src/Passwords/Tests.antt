-- ===== src/Passwords/Tests.antt =====
-- An account that asks for a new password.
use aerobi_api.Common.{◌≡◌, ◌⊎◌, refl, true, false, [], ◌∷◌, none, some, String, str_eq, any, arith}
use aerobi_api.Common.Errors.{ok, err}
use aerobi_api.Authz.Permissions.{UserRole}
use aerobi_api.Accounts.{User, Accounts, is_live_of}
use aerobi_api.Tokens.{DrawnToken}
use aerobi_api.Users.{Clock, confirm_password_reset, find_by_email}
use aerobi_api.Administration.{find_active_by_id}
use aerobi_api.Passwords.{
  Portal, change_password, knows_password, is_eligible, generic_message, request_password_reset,
  verify_password_reset_token, account_deleted, invalid_credentials,
}
use aerobi_api.Passwords.Laws.{
  changed, change_password-cases, letter, request_password_reset-alike,
  request_password_reset-completes,
}

abbrev ana : User
ana = record {
  id = "ana";
  email = "ana@aerobi.br";
  name = "Ana";
  phone = none;
  password = some "#old";
  role = UserRole.operator;
  group_id = some "north";
  state = some "PA";
  email_verified = true;
  accepted_invite_at = some 1;
  last_login_at = none;
  deleted_at = none;
}

abbrev accounts : Accounts
accounts = record { users = ana ∷ []; refresh_tokens = []; tokens = [] }

abbrev portal : Portal
portal = record { accounts = accounts; mails = []; reset_trail = [] }

abbrev drawn : DrawnToken
drawn = record { id = "t1"; plain = "secret"; token_hash = "secret"; now = 100 }

abbrev soon : Clock
soon = record { query = 200; check = 201; write = 202 }

abbrev hashed : String → String
hashed p = p

changed_example :
    let answer = change_password str_eq hashed "ana" "#old" "new" 50 accounts in
    ((find_active_by_id accounts "ana" ≡ none) × (answer ≡ (err account_deleted, accounts)))
    ⊎ ((u : User) × (find_active_by_id accounts "ana" ≡ some u)
        × (((knows_password str_eq "#old" u.password ≡ false)
              × (answer ≡ (err invalid_credentials, accounts)))
            ⊎ ((knows_password str_eq "#old" u.password ≡ true)
                × (answer ≡ (ok tt, changed str_eq hashed "ana" "#old" "new" 50 accounts))
                × (any (is_live_of "ana") answer.1.refresh_tokens ≡ false))))
changed_example = change_password-cases str_eq hashed "ana" "#old" "new" 50 accounts

alike_example :
    ((request_password_reset drawn "eva@aerobi.br" portal).0 ≡ ok generic_message)
    × (((u : User) → find_by_email accounts "eva@aerobi.br" ≡ some u → is_eligible u ≡ false)
        → request_password_reset drawn "eva@aerobi.br" portal ≡ (ok generic_message, portal))
alike_example = request_password_reset-alike drawn "eva@aerobi.br" portal refl

abbrev after_request : Portal
unfolding request_password_reset
after_request = (request_password_reset drawn "ana@aerobi.br" portal).1

completes_example :
    (after_request.mails ≡ letter drawn ana ∷ [])
    × (verify_password_reset_token str_eq
          (λ t. "later")
          soon
          "ana@aerobi.br"
          "secret"
          after_request.accounts
        ≡ (ok tt, after_request.accounts))
    × ((confirm_password_reset str_eq
          (λ t. "later")
          hashed
          soon
          "ana@aerobi.br"
          "secret"
          "new"
          after_request.accounts).0
        ≡ ok tt)
unfolding after_request request_password_reset
completes_example =
    request_password_reset-completes str_eq (λ t. "later") hashed drawn soon ana refl refl
      (omega arith) (omega arith) "ana@aerobi.br" "new" portal refl refl
