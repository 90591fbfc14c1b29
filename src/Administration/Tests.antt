-- ===== src/Administration/Tests.antt =====
-- A coordinator of a group, an operator of it, and an administrator.
use aerobi_api.Common.{◌≡◌, refl, true, false, List, [], ◌∷◌, Option, none, some, String, filter}
use aerobi_api.Authz.Permissions.{UserRole}
use aerobi_api.Authz.Guards.{AuthenticatedUser}
use aerobi_api.Accounts.{User, RefreshToken, Accounts}
use aerobi_api.Tokens.{DrawnToken}
use aerobi_api.Administration.{CreateUserInput, AdminUpdate}
use aerobi_api.Administration.Laws.{
  AdminRequest, creates, edits, removes, serve, serve-outside, serve_all, HasUniqueKeys, is_admin,
  serve_all-admins,
}
use aerobi_api.Administration.Confined.{outside, actor_group}

abbrev account : String → String → UserRole → Option String → User
account id email role group_id = record {
  id = id;
  email = email;
  name = id;
  phone = none;
  password = some "hash";
  role = role;
  group_id = group_id;
  state = some "AC";
  email_verified = true;
  accepted_invite_at = some 1;
  last_login_at = none;
  deleted_at = none;
}

abbrev session : RefreshToken
session = record {
  id = "r1";
  jti = "j1";
  token_hash = "h1";
  user_id = "bia";
  expires_at = 900;
  revoked = false;
  revoked_at = none;
  replaced_by_id = none;
  user_agent = none;
  ip_address = none;
  deleted_at = none;
}

abbrev sample_accounts : Accounts
sample_accounts = record {
  users =
      account "ana" "ana@aerobi.br" UserRole.admin none
      ∷ account "caio" "caio@aerobi.br" UserRole.coordinator (some "north")
      ∷ account "bia" "bia@aerobi.br" UserRole.operator (some "north")
      ∷ [];
  refresh_tokens = session ∷ [];
  tokens = [];
}

abbrev caio : AuthenticatedUser
caio = record { id = "caio"; email = "caio@aerobi.br"; role = UserRole.coordinator }

abbrev promotion : AdminUpdate
promotion = record {
  name = none;
  email = some "b@aerobi.br";
  phone = none;
  role = some UserRole.admin;
}

abbrev drawn : DrawnToken
drawn = record { id = "t1"; plain = "p1"; token_hash = "h"; now = 10 }

abbrev newcomer : CreateUserInput
newcomer = record {
  email = "dora@aerobi.br";
  name = "Dora";
  role = UserRole.technical;
  group_id = some "south";
  state = some "AM";
  phone = none;
}

abbrev busy_day : List (AuthenticatedUser × AdminRequest)
busy_day =
    (caio, creates "dora" drawn newcomer)
    ∷ (caio, edits "bia" promotion 20)
    ∷ (caio, removes "bia" 30 31)
    ∷ []

sample-HasUniqueKeys : HasUniqueKeys sample_accounts
sample-HasUniqueKeys = (refl, (refl, (refl, tt)))

admins_example :
    filter is_admin (serve_all busy_day sample_accounts).users
    ≡ filter is_admin sample_accounts.users
admins_example =
    serve_all-admins busy_day sample_accounts (refl, (refl, (refl, tt))) sample-HasUniqueKeys

confined_example :
    filter
      (outside (actor_group sample_accounts "caio"))
      (serve (caio, edits "bia" promotion 20) sample_accounts).users
    ≡ filter (outside (actor_group sample_accounts "caio")) sample_accounts.users
confined_example =
    serve-outside caio (edits "bia" promotion 20) refl sample_accounts sample-HasUniqueKeys
