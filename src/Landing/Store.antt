-- ===== src/Landing/Store.antt =====
-- src/modules/landing-requests/repositories/landing-request.repository.ts and the model
-- `LandingRequest` of prisma/schema.prisma. The table is the list of its rows.
use aerobi_api.Common.{
  Bool, true, false, ◌&&◌, List, [], ◌∷◌, ◌++◌, Option, none, some, String, str_eq, ℕ, is_none,
  if◌then◌else◌, find, any, count,
}
use aerobi_api.Common.Text.{Text}
use aerobi_api.Common.Errors.{HttpError, HttpStatus, ErrorCode, Result, ok, err, http_error}
use aerobi_api.Common.Effects.{M}

-- `PENDING`, `APPROVED` and `REJECTED`.
pub data LandingRequestStatus : Type 0 where
  pending approved rejected : LandingRequestStatus

abbrev pub is_pending : LandingRequestStatus → Bool
is_pending LandingRequestStatus.pending = true
is_pending _ = false

pub record LandingRequest : Type 0 where
  pub id : String
  pub aerodrome_id : String
  pub status : LandingRequestStatus
  pub request_date : ℕ
  pub email : Option String
  pub pilot_code : Option String
  pub aircraft_model : Option String
  pub aircraft_registration : Option Text
  pub departure_aerodrome : Option String
  pub observation : Option Text
  pub pilot_name : Option String
  pub pilot_cpf : Option Text
  pub phone_contact : Option String
  pub requester_name : Option String
  pub people_on_board : Option ℕ
  pub accepted_terms : Option Bool
  pub confirmed_true : Option Bool
  pub foreign_registration : Option Bool
  pub next_destination_aerodrome : Option String
  pub icao : Option Text
  pub uf : Option String
  pub departure_at : Option ℕ
  pub landing_at : Option ℕ
  pub exit_after_landing_at : Option ℕ
  pub reviewed_at : Option ℕ
  pub reviewed_by : Option String
  pub created_by : Option String
  pub updated_by : Option String
  pub deleted_at : Option ℕ
  pub deleted_by : Option String

pub data AuditAction : Type 0 where
  create update delete : AuditAction

-- `landingRequestAuditSnapshot`.
pub record AuditSnapshot : Type 0 where
  pub id : String
  pub aerodrome_id : String
  pub status : LandingRequestStatus
  pub icao : Option Text
  pub uf : Option String
  pub aircraft_registration : Option Text

pub record AuditEntry : Type 0 where
  pub action : AuditAction
  pub entity_id : String
  pub before : Option AuditSnapshot
  pub after : Option AuditSnapshot
  pub actor_id : Option String

-- The rows, the audit trail and the letters that the mailer was given.
pub record LandingDb : Type 0 where
  pub requests : List LandingRequest
  pub audit_log : List AuditEntry
  pub decided_emails : List (String × LandingRequestStatus)

abbrev pub landing_request_audit_snapshot : LandingRequest → AuditSnapshot
landing_request_audit_snapshot r = record {
  id = r.id;
  aerodrome_id = r.aerodrome_id;
  status = r.status;
  icao = r.icao;
  uf = r.uf;
  aircraft_registration = r.aircraft_registration;
}

abbrev pub database_error : HttpError
database_error = http_error HttpStatus.internal_server_error ErrorCode.internal_error []

-- `where: { id, deletedAt: null }`.
abbrev pub is_active_row : String → LandingRequest → Bool
is_active_row id r = str_eq r.id id && is_none r.deleted_at

-- `where: { id, status: PENDING, deletedAt: null }`.
abbrev pub is_pending_row : String → LandingRequest → Bool
is_pending_row id r = str_eq r.id id && (is_pending r.status && is_none r.deleted_at)

abbrev pub update_rows :
    (LandingRequest → Bool)
    → (LandingRequest → LandingRequest)
    → List LandingRequest
    → List LandingRequest
update_rows p f [] = []
update_rows p f (r ∷ rs) = (if p r then f r else r) ∷ update_rows p f rs

abbrev pub find_by_id : LandingDb → String → Option LandingRequest
find_by_id s id = find (is_active_row id) s.requests

-- `buildDecideUpdateInput`, applied to a row: the observation of the requester stays unless the
-- decision brings one.
pub record Decision : Type 0 where
  pub decision : LandingRequestStatus
  pub observation : Option Text
  pub reviewed_by : String
  pub reviewed_at : ℕ

abbrev pub new_observation : Option Text → Option Text → Option Text
new_observation none old = old
new_observation (some o) old = some o

abbrev pub decided : Decision → LandingRequest → LandingRequest
decided d r = record r {
  status = d.decision;
  reviewed_at = some d.reviewed_at;
  reviewed_by = some d.reviewed_by;
  updated_by = some d.reviewed_by;
  observation = new_observation d.observation r.observation;
}

abbrev pub removed : String → ℕ → LandingRequest → LandingRequest
removed deleted_by now r = record r {
  deleted_at = some now;
  deleted_by = some deleted_by;
  updated_by = some deleted_by;
}

-- The number of rows that change.
unfoldable pub update_if_pending : String → Decision → LandingDb → ℕ × LandingDb
update_if_pending id d s = (
  count (is_pending_row id) s.requests,
  record s { requests = update_rows (is_pending_row id) (decided d) s.requests },
)

-- An `update` of a row that does not exist throws.
unfoldable pub soft_delete : String → String → ℕ → M LandingDb LandingRequest
soft_delete id deleted_by now s = deleted_row (find_by_id s id)
  where
    deleted_row : Option LandingRequest → Result LandingRequest × LandingDb
    deleted_row none = (err database_error, s)
    deleted_row (some r) = (
      ok (removed deleted_by now r),
      record s { requests = update_rows (is_active_row id) (removed deleted_by now) s.requests },
    )

-- The primary key refuses a second row with the same id.
unfoldable pub insert_request : LandingRequest → M LandingDb LandingRequest
insert_request r s =
    if any (λ q. str_eq q.id r.id) s.requests
    then (err database_error, s)
    else (ok r, record s { requests = s.requests ++ r ∷ [] })
