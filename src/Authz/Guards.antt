-- ===== src/Authz/Guards.antt =====
-- The guards of src/modules/auth/guards that need no database (`JwtAuthGuard`, `RolesGuard`,
-- `PermissionsGuard`) and src/common/guards/aerobi-api-key.guard.ts. A guard gives `true`, or throws.
-- The metadata that a route's decorators set are arguments.
pub mod Laws
use aerobi_api.Common.{
  Bool, true, not, ◌&&◌, ◌||◌, List, [], ◌∷◌, Option, none, some, String, str_eq, any,
  if◌then◌else◌, or_default, ℕ,
}
use aerobi_api.Common.Text.{Text, trim, to_lower, same_text, codes}
use aerobi_api.Common.Errors.{HttpStatus, ErrorCode, Result, ok, err, http_error}
use aerobi_api.Authz.Permissions.{UserRole, AuthzAction, AuthzSubject, role_name, subject_name, can}

pub record AuthenticatedUser : Type 0 where
  pub id : String
  pub email : String
  pub role : UserRole

abbrev pub unauthorized_error : Result Bool
unauthorized_error = err (http_error HttpStatus.unauthorized ErrorCode.unauthorized [])

abbrev pub forbidden_error : String → Result Bool
forbidden_error resource =
    err (http_error HttpStatus.forbidden ErrorCode.forbidden (("RESOURCE", resource) ∷ []))

-- `JwtAuthGuard.handleRequest`: what Passport found, an error or `false` being `none`.
abbrev pub handle_request : Bool → Option AuthenticatedUser → Result AuthenticatedUser
handle_request failed none = err (http_error HttpStatus.unauthorized ErrorCode.unauthorized [])
handle_request failed (some user) =
    if failed then err (http_error HttpStatus.unauthorized ErrorCode.unauthorized []) else ok user

-- `RolesGuard.canActivate`.
pub roles_can_activate : Option (List UserRole) → Option AuthenticatedUser → Result Bool
roles_can_activate none user = ok true
roles_can_activate (some []) user = ok true
roles_can_activate (some (r ∷ rs)) none = unauthorized_error
roles_can_activate (some (r ∷ rs)) (some u) =
    if any (λ q. str_eq (role_name q) (role_name u.role)) (r ∷ rs)
    then ok true
    else forbidden_error "rota"

pub record RequiredPermission : Type 0 where
  pub subject : AuthzSubject
  pub action : AuthzAction

-- `PermissionsGuard.canActivate`.
pub permissions_can_activate : Option RequiredPermission → Option AuthenticatedUser → Result Bool
permissions_can_activate none user = ok true
permissions_can_activate (some p) none = unauthorized_error
permissions_can_activate (some p) (some u) =
    if can (some (role_name u.role)) p.subject p.action
    then ok true
    else forbidden_error (subject_name p.subject)

-- What the guard of the API key reads of the configuration: `none` is a variable that is not set.
pub record ApiKeyConfig : Type 0 where
  pub aerobi_api_key : Option Text
  pub node_env : Option Text
  pub aerobi_require_auth : Option Text

abbrev pub api_key_error : String → Result Bool
api_key_error message =
    err (http_error HttpStatus.unauthorized ErrorCode.unauthorized (("message", message) ∷ []))

-- `lower` is what `toLowerCase` makes of a character outside ASCII, and `utf8` is the encoder
-- behind `Buffer.from(text, 'utf8')`.
module _ (lower : ℕ → Text) (utf8 : Text → List ℕ) where
  is_require_auth_enforced : ApiKeyConfig → Bool
  is_require_auth_enforced c =
      let v = to_lower lower (trim (or_default c.aerobi_require_auth [])) in
      same_text v (codes "true") || (same_text v (codes "1") || same_text v (codes "yes"))

  should_bypass_auth : ApiKeyConfig → Bool
  unfolding is_require_auth_enforced
  should_bypass_auth c =
      if is_require_auth_enforced c
      then Bool.false
      else same_text (or_default c.node_env (codes "development")) (codes "development")

  -- Buffers of different lengths are refused before they are compared.
  constant_time_equal : Text → Text → Bool
  constant_time_equal a b = same_text (utf8 a) (utf8 b)

  -- `AerobiApiKeyGuard.canActivate`; the header is `none` where it is missing or repeated.
  pub api_key_can_activate : ApiKeyConfig → Option Text → Result Bool
  unfolding should_bypass_auth constant_time_equal
  api_key_can_activate c raw =
      let expected = trim (or_default c.aerobi_api_key []) in
      if should_bypass_auth c
      then ok true
      else if same_text expected []
      then api_key_error "Aerobi API key not configured on server (AEROBI_API_KEY)"
      else if constant_time_equal (trim (or_default raw [])) expected
      then ok true
      else api_key_error "Missing or invalid X-API-Key"
