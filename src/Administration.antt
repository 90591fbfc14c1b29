-- ===== src/Administration.antt =====
-- src/modules/users: create-user, update-user and remove-user with user-access.util.ts and
-- group-scope.util.ts of its utils, over the tables of accounts. The columns that only say who
-- invited or edited an account are left out.
pub mod Rows
pub mod Confined
pub mod Newcomers
pub mod Laws
pub mod Removal
mod Tests
use aerobi_api.Common.{
  Bool, true, false, not, ◌&&◌, ◌||◌, List, [], ◌∷◌, ◌++◌, Option, none, some, String, str_eq, ℕ,
  find, any, is_none, is_empty, if◌then◌else◌, or_default,
}
use aerobi_api.Common.Errors.{HttpError, HttpStatus, ErrorCode, Result, ok, err, http_error}
use aerobi_api.Common.Effects.{M, ◌>>=◌, ◌>>◌, pure, gets, lift, require, or_throw}
use aerobi_api.Authz.Permissions.{UserRole, role_name}
use aerobi_api.Authz.Guards.{AuthenticatedUser}
use aerobi_api.Authz.Scope.{
  UserGroupScope, ActorGroupLookup, ActorRecord, resolve_actor_group_scope,
}
use aerobi_api.Accounts.{
  User, Accounts, TokenType, update_where, database_error, revoke_all_for_user,
}
use aerobi_api.Tokens.{DrawnToken, create_one_time_token, invite_minutes}

abbrev pub is_active_user : String → User → Bool
is_active_user id u = str_eq u.id id && is_none u.deleted_at

unfoldable pub find_active_by_id : Accounts → String → Option User
find_active_by_id s id = find (is_active_user id) s.users

unfoldable pub exists_by_email : Accounts → String → Bool
exists_by_email s email = any (λ u. str_eq u.email email) s.users

abbrev actor_record : Option User → Option ActorRecord
actor_record none = none
actor_record (some u) = some (record { group_id = u.group_id })

abbrev pub actor_lookup : Accounts → ActorGroupLookup
unfolding find_active_by_id
actor_lookup s = λ id. actor_record (find_active_by_id s id)

abbrev pub same_role : UserRole → UserRole → Bool
same_role r q = str_eq (role_name r) (role_name q)

abbrev pub forbidden_user : HttpError
forbidden_user = http_error HttpStatus.forbidden ErrorCode.forbidden (("RESOURCE", "user") ∷ [])

-- An administrator manages every role, a coordinator creates operators and technicians.
unfoldable pub assert_can_manage_target_role : UserRole → UserRole → Result (Unit {0})
assert_can_manage_target_role UserRole.admin target = ok tt
assert_can_manage_target_role UserRole.coordinator UserRole.operator = ok tt
assert_can_manage_target_role UserRole.coordinator UserRole.technical = ok tt
assert_can_manage_target_role _ _ = err forbidden_user

abbrev pub role_change_forbidden : HttpError
role_change_forbidden = http_error HttpStatus.forbidden ErrorCode.role_change_forbidden []

-- A coordinator never makes an administrator.
unfoldable pub assert_can_assign_role : UserRole → UserRole → Result (Unit {0})
assert_can_assign_role UserRole.admin target = ok tt
assert_can_assign_role UserRole.coordinator UserRole.admin = err role_change_forbidden
assert_can_assign_role UserRole.coordinator _ = ok tt
assert_can_assign_role _ _ = err role_change_forbidden

abbrev pub in_group : Option String → String → Bool
in_group none g = false
in_group (some h) g = str_eq h g

abbrev pub is_staff : UserRole → Bool
is_staff UserRole.operator = true
is_staff UserRole.technical = true
is_staff _ = false

abbrev pub is_admin_role : UserRole → Bool
is_admin_role UserRole.admin = true
is_admin_role _ = false

unfoldable pub is_target_manageable_in_group : User → String → Bool
is_target_manageable_in_group u g = is_staff u.role && in_group u.group_id g

unfoldable pub is_target_editable_in_group : User → String → Bool
is_target_editable_in_group u g = not (is_admin_role u.role) && in_group u.group_id g

pub record CreateUserInput : Type 0 where
  pub email : String
  pub name : String
  pub role : UserRole
  pub group_id : Option String
  pub state : Option String
  pub phone : Option String

-- `!value` of a nullable string.
abbrev pub is_falsy : Option String → Bool
is_falsy none = true
is_falsy (some t) = is_empty t

abbrev pub missing_group : HttpError
missing_group =
    http_error HttpStatus.bad_request ErrorCode.validation_failed
      (("DETAILS", "groupId e state são obrigatórios para a role informada") ∷ [])

abbrev placed : Option String → Option String → HttpError → Result (Option String × Option String)
placed g st e = if is_falsy g || is_falsy st then err e else ok (g, st)

abbrev own_place : Option User → Result (Option String × Option String)
own_place none = err forbidden_user
own_place (some actor) = placed actor.group_id actor.state forbidden_user

-- Administrators have no group; a coordinator gives her own; an administrator names one.
unfoldable pub resolve_group_and_state :
    AuthenticatedUser → CreateUserInput → Accounts → Result (Option String × Option String)
unfolding find_active_by_id
resolve_group_and_state actor input s =
    if is_admin_role input.role
    then ok (none, none)
    else if same_role actor.role UserRole.coordinator
    then own_place (find_active_by_id s actor.id)
    else placed input.group_id input.state missing_group

abbrev pub email_taken : String → HttpError
email_taken email =
    http_error HttpStatus.conflict ErrorCode.email_already_registered (("EMAIL", email) ∷ [])

abbrev pub new_user : String → CreateUserInput → Option String × Option String → User
new_user id input (group_id, state) = record {
  id = id;
  email = input.email;
  name = input.name;
  phone = input.phone;
  password = none;
  role = input.role;
  group_id = group_id;
  state = state;
  email_verified = false;
  accepted_invite_at = none;
  last_login_at = none;
  deleted_at = none;
}

-- `id` and `email` are unique columns.
abbrev pub is_taken : List User → String → String → Bool
is_taken us id email = any (λ u. str_eq u.id id || str_eq u.email email) us

unfoldable pub insert_user : User → M Accounts User
insert_user u s =
    if is_taken s.users u.id u.email
    then (err database_error, s)
    else (ok u, record s { users = s.users ++ u ∷ [] })

-- `CreateUserService.execute`, without the audit entry and the event that sends the invitation.
unfoldable pub create_user :
    String → DrawnToken → CreateUserInput → AuthenticatedUser → M Accounts User
unfolding assert_can_manage_target_role resolve_group_and_state exists_by_email insert_user
    create_one_time_token
create_user id d input actor = do
  lift (assert_can_manage_target_role actor.role input.role)
  place ← (λ s. (resolve_group_and_state actor input s, s))
  taken ← gets (λ s. exists_by_email s input.email)
  require (not taken) (email_taken input.email)
  user ← insert_user (new_user id input place)
  invite ← create_one_time_token d user.id TokenType.invite invite_minutes
  pure user

pub record AdminUpdate : Type 0 where
  pub name : Option String
  pub email : Option String
  pub phone : Option (Option String)
  pub role : Option UserRole

abbrev pub is_none_scope : UserGroupScope → Bool
is_none_scope UserGroupScope.none = true
is_none_scope _ = false

-- Whom the scope lets the actor touch; `may` is the test within a group.
abbrev pub within_scope : (User → String → Bool) → UserGroupScope → User → Bool
within_scope may (UserGroupScope.group g) u = may u g
within_scope may UserGroupScope.all u = true
within_scope may UserGroupScope.none u = false

abbrev pub user_not_found : String → HttpError
user_not_found id = http_error HttpStatus.not_found ErrorCode.user_not_found (("ID", id) ∷ [])

abbrev pub actor_scope : AuthenticatedUser → M Accounts UserGroupScope
unfolding resolve_actor_group_scope actor_lookup
actor_scope actor s = (resolve_actor_group_scope actor.role actor.id (actor_lookup s), s)

abbrev pub email_changed : Option String → User → Bool
email_changed none u = false
email_changed (some email) u = not (str_eq email u.email)

abbrev pub check_role : UserRole → Option UserRole → UserRole → Result (Unit {0})
unfolding assert_can_assign_role
check_role actor none old = ok tt
check_role actor (some new) old =
    if same_role new old then ok tt else assert_can_assign_role actor new

abbrev pub edited : AdminUpdate → User → User
edited dto u = record u {
  name = or_default dto.name u.name;
  email = or_default dto.email u.email;
  phone = or_default dto.phone u.phone;
  role = or_default dto.role u.role;
}

-- The unique column refuses the address of another account.
unfoldable pub save_edit : String → User → AdminUpdate → M Accounts User
save_edit id target dto s =
    if any (λ v. not (str_eq v.id id) && str_eq v.email (edited dto target).email) s.users
    then (
      err (
          if email_changed dto.email target
          then email_taken (or_default dto.email target.email)
          else database_error),
      s,
    )
    else (
      ok (edited dto target),
      record s { users = update_where (λ u. str_eq u.id id) (edited dto) s.users },
    )

abbrev pub revoke_if : Bool → String → ℕ → M Accounts ℕ
unfolding revoke_all_for_user
revoke_if false id now s = (ok 0, s)
revoke_if true id now s = revoke_all_for_user id now s

-- `UpdateUserService.execute`, without the audit entry and the event that tells both addresses.
unfoldable pub update_user : String → AdminUpdate → AuthenticatedUser → ℕ → M Accounts User
unfolding find_active_by_id is_target_editable_in_group exists_by_email save_edit
update_user id dto actor now = do
  found ← gets (λ s. find_active_by_id s id)
  scope ← actor_scope actor
  require (not (is_none_scope scope)) forbidden_user
  target ← or_throw found (user_not_found id)
  require (within_scope is_target_editable_in_group scope target) (user_not_found id)
  lift (check_role actor.role dto.role target.role)
  taken ← gets (λ s. exists_by_email s (or_default dto.email target.email))
  require (not (email_changed dto.email target && taken))
      (email_taken (or_default dto.email target.email))
  updated ← save_edit id target dto
  revoked ← revoke_if (email_changed dto.email target) id now
  pure updated

abbrev pub own_account : HttpError
own_account =
    http_error HttpStatus.bad_request ErrorCode.validation_failed
      (("DETAILS", "não é permitido remover o próprio usuário") ∷ [])

abbrev pub removed : ℕ → User → User
removed now u = record u { deleted_at = some now }

unfoldable pub soft_delete : String → ℕ → M Accounts (Unit {0})
soft_delete id now s =
    if any (λ u. str_eq u.id id) s.users
    then (ok tt, record s { users = update_where (λ u. str_eq u.id id) (removed now) s.users })
    else (err database_error, s)

-- `RemoveUserService.execute`, without the audit entry.
unfoldable pub remove_user : String → AuthenticatedUser → ℕ → ℕ → M Accounts ℕ
unfolding find_active_by_id is_target_manageable_in_group soft_delete revoke_all_for_user
remove_user id actor now later = do
  require (not (str_eq id actor.id)) own_account
  scope ← actor_scope actor
  require (not (is_none_scope scope)) forbidden_user
  found ← gets (λ s. find_active_by_id s id)
  user ← or_throw found (user_not_found id)
  require (within_scope is_target_manageable_in_group scope user) (user_not_found id)
  soft_delete id now
  revoke_all_for_user id later
