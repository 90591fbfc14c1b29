-- ===== src/Authz/GroupScope.antt =====
-- src/modules/auth/guards/group-scope.guard.ts. The route's metadata, the request and the database
-- are arguments; `is_uuid` is the test of class-validator.
pub mod Laws
use Prim.Native.String
use aerobi_api.Common.{
  Bool, true, false, not, ◌&&◌, ◌||◌, List, [], ◌∷◌, ◌++◌, Option, none, some, String, str_eq, find,
  is_none, is_empty, if◌then◌else◌, or_default, or_else,
}
use aerobi_api.Common.Errors.{HttpStatus, ErrorCode, Result, ok, err, http_error}
use aerobi_api.Authz.Permissions.{UserRole, role_name}
use aerobi_api.Authz.Guards.{AuthenticatedUser, unauthorized_error}
use aerobi_api.Authz.Resolvers.{GroupScopeSubject, Db, User, resolve_group}

pub record ScopeRequest : Type 0 where
  pub user : Option AuthenticatedUser
  pub params : String → Option String
  pub query : String → Option String
  pub body : String → Option String

abbrev pub scope_subject_name : GroupScopeSubject → String
scope_subject_name GroupScopeSubject.group = "group"
scope_subject_name GroupScopeSubject.aerodrome = "aerodrome"
scope_subject_name GroupScopeSubject.landing_request = "landingRequest"
scope_subject_name GroupScopeSubject.feedback = "feedback"
scope_subject_name GroupScopeSubject.camera = "camera"
scope_subject_name GroupScopeSubject.geojson = "geojson"
scope_subject_name GroupScopeSubject.document = "document"
scope_subject_name GroupScopeSubject.maintenance = "maintenance"
scope_subject_name GroupScopeSubject.task = "task"
scope_subject_name GroupScopeSubject.guess = "guess"
scope_subject_name GroupScopeSubject.technical_visit = "technicalVisit"
scope_subject_name GroupScopeSubject.technical_visit_image = "technicalVisitImage"

abbrev is_admin : UserRole → Bool
is_admin role = str_eq (role_name role) (role_name UserRole.admin)

-- The active row of the actor.
unfoldable pub find_actor : Db → String → Option User
find_actor db id = find (λ u. str_eq u.id id && is_none u.deleted_at) db.users

abbrev pub scope_denied : GroupScopeSubject → String → Result Bool
scope_denied subject id = err (
    http_error HttpStatus.not_found ErrorCode.resource_not_found
      (("RESOURCE", scope_subject_name subject) ∷ ("ID", id) ∷ []))

abbrev pub same_group : Option String → Option String → Bool
same_group (some own) (some g) = str_eq own g
same_group _ _ = false

abbrev actor_decision : Option User → Option String → GroupScopeSubject → String → Result Bool
actor_decision none resource subject id =
    err (http_error HttpStatus.unauthorized ErrorCode.account_deleted [])
actor_decision (some u) resource subject id =
    if same_group u.group_id resource then ok true else scope_denied subject id

-- The id that the route's parameter names, in the path, the query or the body.
abbrev pub resource_id : ScopeRequest → String → Option String
resource_id request name =
    or_else (request.params name) (or_else (request.query name) (request.body name))

module _ (is_uuid : String → Bool) where
  abbrev pub is_usable : Option String → Bool
  is_usable none = false
  is_usable (some id) = not (is_empty id) && is_uuid id

  abbrev decide : Db → GroupScopeSubject → String → AuthenticatedUser → Option String → Result Bool
  decide db subject name user none = err (
      http_error HttpStatus.unprocessable_entity ErrorCode.validation_failed
        (("DETAILS", String.◌++◌ name " deve ser um UUID válido") ∷ []))
  decide db subject name user (some id) =
      if is_usable (some id)
      then actor_decision (find_actor db user.id) (resolve_group subject db id) subject id
      else err (
          http_error HttpStatus.unprocessable_entity ErrorCode.validation_failed
            (("DETAILS", String.◌++◌ name " deve ser um UUID válido") ∷ []))

  -- `GroupScopeGuard.canActivate`: the route's subject and the name of its parameter.
  unfoldable pub group_scope_can_activate :
      Db → Option GroupScopeSubject → Option String → ScopeRequest → Result Bool
  group_scope_can_activate db none param request = ok true
  group_scope_can_activate db (some subject) param request = elim request.user [
    | none ↦ unauthorized_error
    | some user ↦
        if is_admin user.role
        then ok true
        else decide db subject (or_default param "id") user
            (resource_id request (or_default param "id"))
  ]
