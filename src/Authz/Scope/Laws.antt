-- ===== src/Authz/Scope/Laws.antt =====
-- What a scope lets through, and who gets which scope.
use aerobi_api.Common.{◌≡◌, ◌≢◌, ◌↔◌, refl, true, Option, some, String, arith}
use aerobi_api.Common.Errors.{ok}
use aerobi_api.Authz.Permissions.{UserRole}
use aerobi_api.Authz.Scope.{
  UserGroupScope, ActorGroupLookup, ActorRecord, account_deleted_error, within,
  resolve_actor_group_scope, resolve_operational_actor_scope, assert_aerodrome_in_scope,
  scope_from_actor_group_id,
}

-- Only an administrator has the whole platform in its operational scope, whatever the lookup says.
resolve_operational-all_iff :
    (role : UserRole) (id : String) (lookup : ActorGroupLookup)
    → (resolve_operational_actor_scope role id lookup ≡ ok UserGroupScope.all)
      ↔ (role ≡ UserRole.admin)
unfolding resolve_operational_actor_scope scope_from_actor_group_id
resolve_operational-all_iff UserRole.admin id lookup = ground arith
resolve_operational-all_iff _ id lookup = ground arith

-- The scope of everybody else comes from the account that is found.
pub resolve_operational_missing :
    (role : UserRole) (id : String) (lookup : ActorGroupLookup)
    → role ≢ UserRole.admin
    → lookup id ≡ Option.none
    → resolve_operational_actor_scope role id lookup ≡ account_deleted_error
unfolding resolve_operational_actor_scope
resolve_operational_missing UserRole.admin id lookup r e = absurd (r refl)
resolve_operational_missing _ id lookup r e = rw e refl

pub resolve_operational_found :
    (role : UserRole) (id : String) (lookup : ActorGroupLookup) {u : ActorRecord}
    → role ≢ UserRole.admin
    → lookup id ≡ some u
    → resolve_operational_actor_scope role id lookup ≡ ok (scope_from_actor_group_id u.group_id)
unfolding resolve_operational_actor_scope
resolve_operational_found UserRole.admin id lookup r e = absurd (r refl)
resolve_operational_found _ id lookup r e = rw e refl

-- Where both scopes are resolved, the administrative scope holds every record that the operational
-- scope holds.
within-operational :
    (role : UserRole) (id : String) (lookup : ActorGroupLookup) (wide narrow : UserGroupScope)
    (g : String)
    → resolve_actor_group_scope role id lookup ≡ ok wide
    → resolve_operational_actor_scope role id lookup ≡ ok narrow
    → within narrow g ≡ true
    → within wide g ≡ true
unfolding resolve_actor_group_scope resolve_operational_actor_scope
within-operational UserRole.admin id lookup wide narrow g e f h = ground arith
within-operational _ id lookup wide narrow g e f h = ground arith

module _ {T : Type 0} (group_id_of : T → String) where
  -- The aerodrome is handed on exactly when it exists and its group lies within the scope, and it is
  -- handed on unchanged.
  assert_aerodrome_in_scope_iff :
      (o : Option T) (scope : UserGroupScope) (id : String) (a : T)
      → (assert_aerodrome_in_scope group_id_of o scope id ≡ ok a)
        ↔ ((o ≡ some a) × (within scope (group_id_of a) ≡ true))
  unfolding assert_aerodrome_in_scope
  assert_aerodrome_in_scope_iff Option.none scope id a = ground arith
  assert_aerodrome_in_scope_iff (some b) scope id a = ground arith
