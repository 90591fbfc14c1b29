-- ===== src/Authz/Tests.antt =====
-- The authorisation on sample data: two groups, an aerodrome of the first with a maintenance, its
-- task and a guess, and an operator of the first group.
use aerobi_api.Common.{◌≡◌, ◌≢◌, refl, Bool, true, List, [], ◌∷◌, none, some, String, ℕ}
use aerobi_api.Common.Text.{Text, codes}
use aerobi_api.Common.Errors.{ok}
use aerobi_api.Authz.Permissions.{UserRole}
use aerobi_api.Authz.Guards.{AuthenticatedUser, ApiKeyConfig}
use aerobi_api.Authz.Scope.{ActorGroupLookup}
use aerobi_api.Authz.Resolvers.{GroupScopeSubject, Db, Row, resolve_group, is_active}
use aerobi_api.Authz.Resolvers.Laws.{resolve_group-parent, guess_task}
use aerobi_api.Authz.GroupScope.{ScopeRequest, group_scope_can_activate, find_actor}
use aerobi_api.Authz.GroupScope.Laws.{group_scope_can_activate-hides}

abbrev row : String → String → Row
row id parent = record { id = id; parent_id = parent; deleted_at = none }

abbrev sample_db : Db
sample_db = record {
  users = record { id = "ana"; group_id = some "north"; deleted_at = none } ∷ [];
  groups =
      record { id = "north"; deleted_at = none } ∷ record { id = "south"; deleted_at = none } ∷ [];
  aerodromes = row "sbaa" "north" ∷ row "sbbb" "south" ∷ [];
  landing_requests = [];
  feedbacks = [];
  cameras = row "cam_n" "sbaa" ∷ row "cam_s" "sbbb" ∷ [];
  geojsons = [];
  documents = [];
  maintenances = row "m1" "sbaa" ∷ [];
  tasks = row "t1" "m1" ∷ [];
  guesses = row "g1" "t1" ∷ [];
  technical_visits = [];
  technical_visit_images = [];
}

-- The same, without the camera of the other group.
abbrev smaller_db : Db
smaller_db = record sample_db { cameras = row "cam_n" "sbaa" ∷ [] }

abbrev ana : AuthenticatedUser
ana = record { id = "ana"; email = "ana@aerobi.br"; role = UserRole.operator }

abbrev asks_for : String → ScopeRequest
asks_for id = record {
  user = some ana;
  params = λ name. some id;
  query = λ name. none;
  body = λ name. none;
}

abbrev any_uuid : String → Bool
any_uuid id = true

abbrev keep_char : ℕ → Text
keep_char c = c ∷ []

abbrev plain_bytes : Text → List ℕ
plain_bytes t = t

abbrev production : ApiKeyConfig
production = record {
  aerobi_api_key = some (codes "secret");
  node_env = some (codes "production");
  aerobi_require_auth = none;
}

abbrev north_lookup : ActorGroupLookup
north_lookup id = some (record { group_id = some "north" })

parent_example :
    (r : Row) × (r.id ≡ "g1")
    × (is_active r ≡ true)
    × (resolve_group GroupScopeSubject.task sample_db r.parent_id ≡ some "north")
unfolding resolve_group
parent_example =
    resolve_group-parent sample_db "g1" "north" GroupScopeSubject.guess GroupScopeSubject.task
      guess_task refl

not_admin : UserRole.operator ≢ UserRole.admin
not_admin e = cc e

sample_denied :
    group_scope_can_activate any_uuid sample_db
      (some GroupScopeSubject.camera)
      none
      (asks_for "cam_s")
    ≢ ok true
unfolding group_scope_can_activate find_actor resolve_group
sample_denied e = cc e

smaller_denied :
    group_scope_can_activate any_uuid smaller_db
      (some GroupScopeSubject.camera)
      none
      (asks_for "cam_s")
    ≢ ok true
unfolding group_scope_can_activate find_actor resolve_group
smaller_denied e = cc e

hides_example :
    group_scope_can_activate any_uuid sample_db
      (some GroupScopeSubject.camera)
      none
      (asks_for "cam_s")
    ≡ group_scope_can_activate any_uuid smaller_db
        (some GroupScopeSubject.camera)
        none
        (asks_for "cam_s")
unfolding find_actor
hides_example =
    group_scope_can_activate-hides any_uuid sample_db smaller_db GroupScopeSubject.camera none
      (asks_for "cam_s") ana refl refl sample_denied smaller_denied
