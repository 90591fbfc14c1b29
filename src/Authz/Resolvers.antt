-- ===== src/Authz/Resolvers.antt =====
-- src/modules/auth/guards/group-scope.resolvers.ts and group-scope.subject.ts, over the tables that
-- the queries read. A table is the list of its rows, in the order in which the database returns
-- them; a soft-deleted row has `deleted_at`.
pub mod Laws
use aerobi_api.Common.{
  Bool, true, false, ◌&&◌, List, [], ◌∷◌, Option, none, some, String, str_eq, find, is_none, ℕ,
}

pub data GroupScopeSubject : Type 0 where
  group aerodrome landing_request feedback camera geojson document : GroupScopeSubject
  maintenance task guess technical_visit technical_visit_image : GroupScopeSubject

pub record User : Type 0 where
  pub id : String
  pub group_id : Option String
  pub deleted_at : Option ℕ

-- A row with one foreign key: an aerodrome names its group, a feedback its aerodrome, and so on.
pub record Row : Type 0 where
  pub id : String
  pub parent_id : String
  pub deleted_at : Option ℕ

pub record Group : Type 0 where
  pub id : String
  pub deleted_at : Option ℕ

pub record Db : Type 0 where
  pub users : List User
  pub groups : List Group
  pub aerodromes : List Row
  pub landing_requests : List Row
  pub feedbacks : List Row
  pub cameras : List Row
  pub geojsons : List Row
  pub documents : List Row
  pub maintenances : List Row
  pub tasks : List Row
  pub guesses : List Row
  pub technical_visits : List Row
  pub technical_visit_images : List Row

abbrev pub is_active : Row → Bool
is_active r = is_none r.deleted_at

-- `findFirst({ where: { id, deletedAt: null } })`.
abbrev pub find_active : List Row → String → Option Row
find_active rows id = find (λ r. str_eq r.id id && is_active r) rows

-- The row that a foreign key names, deleted or not.
abbrev pub follow : List Row → String → Option Row
follow rows id = find (λ r. str_eq r.id id) rows

infixl 5 ◌>>=◌
abbrev pub ◌>>=◌ : {A B : Type 0} → Option A → (A → Option B) → Option B
none >>= k = none
some a >>= k = k a

-- `row.aerodrome.groupId`.
abbrev group_of_aerodrome : Db → String → Option String
group_of_aerodrome db aerodrome_id = do a ← follow db.aerodromes aerodrome_id; some a.parent_id

-- The row that a foreign key names passes the test.
abbrev pub passes : (Row → Bool) → Option Row → Bool
passes q none = false
passes q (some p) = q p

-- The first active row of the id whose parent passes the test: `where: { id, deletedAt: null, parent: q }`.
abbrev pub find_nested : (Row → Bool) → List Row → List Row → String → Option Row
find_nested q parents rows id =
    find (λ r. str_eq r.id id && (is_active r && passes q (follow parents r.parent_id))) rows

-- A row of a table that hangs on the aerodromes directly.
abbrev via_aerodrome : Db → List Row → String → Option String
via_aerodrome db rows id = do r ← find_active rows id; group_of_aerodrome db r.parent_id

-- An active task's guesses: the task and its maintenance are active too.
abbrev task_is_open : Db → Row → Bool
task_is_open db t = is_active t && passes is_active (follow db.maintenances t.parent_id)

unfoldable pub resolve_group : GroupScopeSubject → Db → String → Option String
resolve_group GroupScopeSubject.group db id = do
  g ← find (λ g. str_eq g.id id && is_none g.deleted_at) db.groups
  some g.id
resolve_group GroupScopeSubject.aerodrome db id = do
  a ← find_active db.aerodromes id
  some a.parent_id
resolve_group GroupScopeSubject.landing_request db id = via_aerodrome db db.landing_requests id
resolve_group GroupScopeSubject.feedback db id = via_aerodrome db db.feedbacks id
resolve_group GroupScopeSubject.camera db id = via_aerodrome db db.cameras id
resolve_group GroupScopeSubject.geojson db id = via_aerodrome db db.geojsons id
resolve_group GroupScopeSubject.document db id = via_aerodrome db db.documents id
resolve_group GroupScopeSubject.maintenance db id = via_aerodrome db db.maintenances id
resolve_group GroupScopeSubject.task db id = do
  t ← find_nested is_active db.maintenances db.tasks id
  m ← follow db.maintenances t.parent_id
  group_of_aerodrome db m.parent_id
resolve_group GroupScopeSubject.guess db id = do
  g ← find_nested (task_is_open db) db.tasks db.guesses id
  t ← follow db.tasks g.parent_id
  m ← follow db.maintenances t.parent_id
  group_of_aerodrome db m.parent_id
resolve_group GroupScopeSubject.technical_visit db id = via_aerodrome db db.technical_visits id
resolve_group GroupScopeSubject.technical_visit_image db id = do
  i ← find_nested is_active db.technical_visits db.technical_visit_images id
  v ← follow db.technical_visits i.parent_id
  group_of_aerodrome db v.parent_id
