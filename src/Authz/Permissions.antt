-- ===== src/Authz/Permissions.antt =====
-- src/modules/auth/permissions/permissions.ts, with the enum `UserRole` of prisma/schema.prisma.
-- An object is the list of its entries in the order of its keys.
pub mod Laws
use aerobi_api.Common.{
  Bool, false, List, [], ◌∷◌, map, Option, none, some, String, str_eq, any, filter, is_empty,
  if◌then◌else◌, or_default,
}

pub data UserRole : Type 0 where
  admin coordinator operator technical : UserRole

pub data AuthzAction : Type 0 where
  list read create edit update update_observation delete decide export : AuthzAction

pub data AuthzSubject : Type 0 where
  group user audit aerodrome document landing_request technical_visit maintenance : AuthzSubject
  task feedback camera contact rab aviascan_reading movement dashboard : AuthzSubject

-- The enum's values as the strings that a token carries.
abbrev pub role_name : UserRole → String
role_name UserRole.admin = "ADMIN"
role_name UserRole.coordinator = "COORDINATOR"
role_name UserRole.operator = "OPERATOR"
role_name UserRole.technical = "TECHNICAL"

abbrev action_name : AuthzAction → String
action_name AuthzAction.list = "list"
action_name AuthzAction.read = "read"
action_name AuthzAction.create = "create"
action_name AuthzAction.edit = "edit"
action_name AuthzAction.update = "update"
action_name AuthzAction.update_observation = "update-observation"
action_name AuthzAction.delete = "delete"
action_name AuthzAction.decide = "decide"
action_name AuthzAction.export = "export"

-- The keys of `PERMISSIONS`.
abbrev pub subject_name : AuthzSubject → String
subject_name AuthzSubject.group = "group"
subject_name AuthzSubject.user = "user"
subject_name AuthzSubject.audit = "audit"
subject_name AuthzSubject.aerodrome = "aerodrome"
subject_name AuthzSubject.document = "document"
subject_name AuthzSubject.landing_request = "landing_request"
subject_name AuthzSubject.technical_visit = "technical_visit"
subject_name AuthzSubject.maintenance = "maintenance"
subject_name AuthzSubject.task = "task"
subject_name AuthzSubject.feedback = "feedback"
subject_name AuthzSubject.camera = "camera"
subject_name AuthzSubject.contact = "contact"
subject_name AuthzSubject.rab = "rab"
subject_name AuthzSubject.aviascan_reading = "aviascan_reading"
subject_name AuthzSubject.movement = "movement"
subject_name AuthzSubject.dashboard = "dashboard"

abbrev only_admin : List UserRole
only_admin = UserRole.admin ∷ []

abbrev managers : List UserRole
managers = UserRole.admin ∷ UserRole.coordinator ∷ []

abbrev operators : List UserRole
operators = UserRole.admin ∷ UserRole.coordinator ∷ UserRole.operator ∷ []

abbrev everyone : List UserRole
everyone = UserRole.admin ∷ UserRole.coordinator ∷ UserRole.operator ∷ UserRole.technical ∷ []

abbrev Entries : Type 0
Entries = List (AuthzAction × List UserRole)

group_entries : Entries
group_entries =
    (AuthzAction.list, managers)
    ∷ (AuthzAction.read, managers)
    ∷ (AuthzAction.create, only_admin)
    ∷ (AuthzAction.update, only_admin)
    ∷ (AuthzAction.delete, only_admin)
    ∷ (AuthzAction.export, managers)
    ∷ []

user_entries : Entries
user_entries =
    (AuthzAction.list, managers)
    ∷ (AuthzAction.read, managers)
    ∷ (AuthzAction.create, managers)
    ∷ (AuthzAction.edit, managers)
    ∷ (AuthzAction.update, only_admin)
    ∷ (AuthzAction.delete, managers)
    ∷ (AuthzAction.export, managers)
    ∷ []

audit_entries : Entries
audit_entries =
    (AuthzAction.list, managers)
    ∷ (AuthzAction.read, managers)
    ∷ (AuthzAction.export, managers)
    ∷ []

aerodrome_entries : Entries
aerodrome_entries =
    (AuthzAction.list, everyone)
    ∷ (AuthzAction.read, everyone)
    ∷ (AuthzAction.create, managers)
    ∷ (AuthzAction.update, managers)
    ∷ (AuthzAction.update_observation, operators)
    ∷ (AuthzAction.delete, only_admin)
    ∷ []

document_entries : Entries
document_entries =
    (AuthzAction.list, operators)
    ∷ (AuthzAction.read, operators)
    ∷ (AuthzAction.create, managers)
    ∷ (AuthzAction.update, managers)
    ∷ (AuthzAction.delete, only_admin)
    ∷ (AuthzAction.export, operators)
    ∷ []

landing_request_entries : Entries
landing_request_entries =
    (AuthzAction.list, operators)
    ∷ (AuthzAction.read, operators)
    ∷ (AuthzAction.decide, operators)
    ∷ (AuthzAction.export, operators)
    ∷ (AuthzAction.delete, only_admin)
    ∷ []

technical_visit_entries : Entries
technical_visit_entries =
    (AuthzAction.list, everyone)
    ∷ (AuthzAction.read, everyone)
    ∷ (AuthzAction.create, everyone)
    ∷ (AuthzAction.update, everyone)
    ∷ (AuthzAction.delete, UserRole.admin ∷ UserRole.coordinator ∷ UserRole.technical ∷ [])
    ∷ (AuthzAction.export, everyone)
    ∷ []

maintenance_entries : Entries
maintenance_entries =
    (AuthzAction.list, managers)
    ∷ (AuthzAction.read, managers)
    ∷ (AuthzAction.create, managers)
    ∷ (AuthzAction.update, managers)
    ∷ (AuthzAction.delete, only_admin)
    ∷ (AuthzAction.export, managers)
    ∷ []

task_entries : Entries
task_entries =
    (AuthzAction.list, managers)
    ∷ (AuthzAction.read, managers)
    ∷ (AuthzAction.create, managers)
    ∷ (AuthzAction.update, managers)
    ∷ (AuthzAction.delete, only_admin)
    ∷ []

feedback_entries : Entries
feedback_entries =
    (AuthzAction.list, managers)
    ∷ (AuthzAction.read, managers)
    ∷ (AuthzAction.delete, managers)
    ∷ (AuthzAction.export, managers)
    ∷ []

camera_entries : Entries
camera_entries =
    (AuthzAction.list, managers)
    ∷ (AuthzAction.read, managers)
    ∷ (AuthzAction.create, managers)
    ∷ (AuthzAction.update, managers)
    ∷ (AuthzAction.delete, managers)
    ∷ []

contact_entries : Entries
contact_entries =
    (AuthzAction.list, only_admin)
    ∷ (AuthzAction.read, only_admin)
    ∷ (AuthzAction.update, only_admin)
    ∷ (AuthzAction.delete, only_admin)
    ∷ (AuthzAction.export, only_admin)
    ∷ []

rab_entries : Entries
rab_entries = (AuthzAction.read, operators) ∷ []

aviascan_reading_entries : Entries
aviascan_reading_entries = (AuthzAction.list, managers) ∷ (AuthzAction.read, managers) ∷ []

movement_entries : Entries
movement_entries =
    (AuthzAction.list, managers)
    ∷ (AuthzAction.read, managers)
    ∷ (AuthzAction.create, managers)
    ∷ (AuthzAction.update, managers)
    ∷ (AuthzAction.delete, managers)
    ∷ (AuthzAction.export, managers)
    ∷ []

dashboard_entries : Entries
dashboard_entries = (AuthzAction.read, everyone) ∷ []

-- `PERMISSIONS[subject]`.
permissions : AuthzSubject → Entries
unfolding group_entries user_entries audit_entries aerodrome_entries document_entries
    landing_request_entries technical_visit_entries maintenance_entries task_entries
    feedback_entries camera_entries contact_entries rab_entries aviascan_reading_entries
    movement_entries dashboard_entries
permissions AuthzSubject.group = group_entries
permissions AuthzSubject.user = user_entries
permissions AuthzSubject.audit = audit_entries
permissions AuthzSubject.aerodrome = aerodrome_entries
permissions AuthzSubject.document = document_entries
permissions AuthzSubject.landing_request = landing_request_entries
permissions AuthzSubject.technical_visit = technical_visit_entries
permissions AuthzSubject.maintenance = maintenance_entries
permissions AuthzSubject.task = task_entries
permissions AuthzSubject.feedback = feedback_entries
permissions AuthzSubject.camera = camera_entries
permissions AuthzSubject.contact = contact_entries
permissions AuthzSubject.rab = rab_entries
permissions AuthzSubject.aviascan_reading = aviascan_reading_entries
permissions AuthzSubject.movement = movement_entries
permissions AuthzSubject.dashboard = dashboard_entries

-- `Object.keys(PERMISSIONS)`.
abbrev pub subjects : List AuthzSubject
subjects =
    AuthzSubject.group ∷ AuthzSubject.user ∷ AuthzSubject.audit ∷ AuthzSubject.aerodrome
    ∷ AuthzSubject.document ∷ AuthzSubject.landing_request ∷ AuthzSubject.technical_visit
    ∷ AuthzSubject.maintenance ∷ AuthzSubject.task ∷ AuthzSubject.feedback ∷ AuthzSubject.camera
    ∷ AuthzSubject.contact ∷ AuthzSubject.rab ∷ AuthzSubject.aviascan_reading
    ∷ AuthzSubject.movement ∷ AuthzSubject.dashboard ∷ []

-- `entries[action]`.
lookup : AuthzAction → Entries → Option (List UserRole)
lookup action [] = none
lookup action ((key, roles) ∷ rest) =
    if str_eq (action_name key) (action_name action) then some roles else lookup action rest

pub roles_for : AuthzSubject → AuthzAction → List UserRole
unfolding permissions lookup
roles_for subject action = or_default (lookup action (permissions subject)) []

-- The role may be any string of a token; `none` is `null` or `undefined`.
unfoldable pub can : Option String → AuthzSubject → AuthzAction → Bool
unfolding roles_for
can none subject action = false
can (some role) subject action =
    if is_empty role then false else any (λ r. str_eq (role_name r) role) (roles_for subject action)

abbrev actions_of : Entries → List AuthzAction
actions_of = map (λ entry. entry.0)

allowed_actions : UserRole → AuthzSubject → List AuthzAction
unfolding can permissions
allowed_actions role subject =
    filter (can (some (role_name role)) subject) (actions_of (permissions subject))

abbrev pub ResolvedPermissions : Type 0
ResolvedPermissions = List (AuthzSubject × List AuthzAction)

-- The loop of `permissionsForRole`; a subject with no allowed action is left out.
resolve : UserRole → List AuthzSubject → ResolvedPermissions
resolve role [] = []
resolve role (subject ∷ rest) = elim (allowed_actions role subject) [
  | [] ↦ resolve role rest
  | a ∷ as' ↦ (subject, a ∷ as') ∷ resolve role rest
]

pub permissions_for_role : UserRole → ResolvedPermissions
unfolding resolve allowed_actions
permissions_for_role role = resolve role subjects
