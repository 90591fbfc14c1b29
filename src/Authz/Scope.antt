-- ===== src/Authz/Scope.antt =====
-- src/common/utils/group-scope.util.ts: which records an actor may see or manage. The database
-- lookup of the actor is an argument.
pub mod Laws
use aerobi_api.Common.{
  Bool, true, false, not, ◌||◌, List, [], ◌∷◌, Option, some, String, str_eq, any, is_empty,
  if◌then◌else◌,
}
use aerobi_api.Common.Errors.{
  HttpStatus, ErrorCode, Result, ok, err, http_error, resource_not_found_error,
}
use aerobi_api.Authz.Permissions.{UserRole, role_name}

pub data UserGroupScope : Type 0 where
  all none : UserGroupScope
  group : String → UserGroupScope

-- What the lookup selects of an active user.
pub record ActorRecord : Type 0 where
  pub group_id : Option String

abbrev pub ActorGroupLookup : Type 0
ActorGroupLookup = String → Option ActorRecord

abbrev pub account_deleted_error : Result UserGroupScope
account_deleted_error = err (http_error HttpStatus.unauthorized ErrorCode.account_deleted [])

abbrev pub group_scoped_roles : List UserRole
group_scoped_roles = UserRole.coordinator ∷ []

abbrev pub operational_scoped_roles : List UserRole
operational_scoped_roles = UserRole.coordinator ∷ UserRole.operator ∷ UserRole.technical ∷ []

-- `null` and the empty string are both falsy.
unfoldable pub scope_from_actor_group_id : Option String → UserGroupScope
scope_from_actor_group_id Option.none = UserGroupScope.none
scope_from_actor_group_id (some g) =
    if is_empty g then UserGroupScope.none else UserGroupScope.group g

abbrev includes_role : List UserRole → UserRole → Bool
includes_role roles role = any (λ r. str_eq (role_name r) (role_name role)) roles

abbrev scope_of_record : Option ActorRecord → Result UserGroupScope
scope_of_record Option.none = account_deleted_error
scope_of_record (some record') = ok (scope_from_actor_group_id record'.group_id)

unfoldable pub resolve_scope_for_roles :
    UserRole → String → ActorGroupLookup → List UserRole → Result UserGroupScope
resolve_scope_for_roles role actor_id lookup scoped =
    if not (includes_role scoped role)
    then ok UserGroupScope.all
    else scope_of_record (lookup actor_id)

unfoldable pub resolve_actor_group_scope :
    UserRole → String → ActorGroupLookup → Result UserGroupScope
unfolding resolve_scope_for_roles
resolve_actor_group_scope role actor_id lookup =
    resolve_scope_for_roles role actor_id lookup group_scoped_roles

unfoldable pub resolve_operational_actor_scope :
    UserRole → String → ActorGroupLookup → Result UserGroupScope
unfolding resolve_scope_for_roles
resolve_operational_actor_scope role actor_id lookup =
    resolve_scope_for_roles role actor_id lookup operational_scoped_roles

-- Whether a record of the group lies within the scope.
abbrev pub within : UserGroupScope → String → Bool
within UserGroupScope.all g = true
within UserGroupScope.none g = false
within (UserGroupScope.group own) g = str_eq g own

abbrev out_of_scope : UserGroupScope → String → Bool
out_of_scope UserGroupScope.none g = true
out_of_scope (UserGroupScope.group own) g = not (str_eq g own)
out_of_scope UserGroupScope.all g = false

-- The aerodrome is any row that has a group.
module _ {T : Type 0} (group_id_of : T → String) where
  unfoldable pub assert_aerodrome_in_scope : Option T → UserGroupScope → String → Result T
  assert_aerodrome_in_scope Option.none scope aerodrome_id =
      err (resource_not_found_error "Aeródromo" aerodrome_id)
  assert_aerodrome_in_scope (some aerodrome) scope aerodrome_id =
      if out_of_scope scope (group_id_of aerodrome)
      then err (resource_not_found_error "Aeródromo" aerodrome_id)
      else ok aerodrome
