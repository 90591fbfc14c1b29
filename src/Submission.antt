-- ===== src/Submission.antt =====
-- src/modules/landing-requests/services/create-landing-request.service.ts: the public submission of a
-- request to land, with the queries `findTargetAerodrome` and `createWithAircraft` of
-- landing-request.repository.ts. ANAC is a parameter.
pub mod Form
pub mod Aircraft
pub mod Prepare
pub mod Fit
pub mod Laws
pub mod Letters
pub mod Content
pub mod Seen
pub mod Validation
mod Tests
use aerobi_api.Common.{
  Bool, true, false, not, ◌&&◌, ◌||◌, List, [], ◌∷◌, ◌++◌, Option, none, some, String, str_eq, ℕ,
  if◌then◌else◌, find, any, filter, is_none, is_empty, or_default, map,
}
use aerobi_api.Common.Text.{Text, trim, to_upper}
use aerobi_api.Common.Errors.{HttpError, Result, ok, err, resource_not_found_error}
use aerobi_api.Common.Effects.{M, ◌>>=◌, ◌>>◌, pure, throw, modify, lift, require, or_throw}
use aerobi_api.Authz.Permissions.{UserRole, role_name}
use aerobi_api.Registrations.{
  RegistrationResolution, normalized, error, resolve_aircraft_registration,
}
use aerobi_api.Landing.Schedule.{ScheduleError, validate_landing_schedule}
use aerobi_api.Landing.Store.{
  LandingRequest, LandingDb, AuditEntry, AuditAction, insert_request, soft_delete, database_error,
  landing_request_audit_snapshot,
}
use aerobi_api.Landing.Decide.{record_audit}
use aerobi_api.Submission.Form.{
  CreateLandingRequestDto, TargetAerodrome, schedule_message, validation_failed, closed_aerodrome,
  receipt_failed, validate_pilot_license, build_landing_request_create_input,
}
use aerobi_api.Submission.Prepare.{StaffRow, Site, SubmissionWorld, Prepared, is_foreign, prepare}
use aerobi_api.Submission.Aircraft.{
  RabRow, AircraftCreateData, build_aircraft_create_data, lookup_rab_aircraft,
}

pub record LandingRequestAircraft : Type 0 where
  pub landing_request_id : String
  pub columns : AircraftCreateData

-- The tables that a submission writes, the receipts that pilots got, by address and request, and the
-- letters to the staff, by recipients and request.
pub record SubmissionDb : Type 0 where
  pub landing : LandingDb
  pub aircraft : List LandingRequestAircraft
  pub receipts : List (String × String)
  pub staff_letters : List (List String × String)

pub record CreateLandingRequestResponse : Type 0 where
  pub id : String
  pub uf : Option String

abbrev pub with_snapshot :
    String → Option AircraftCreateData → List LandingRequestAircraft → List LandingRequestAircraft
with_snapshot id none rows = rows
with_snapshot id (some c) rows = rows ++ record { landing_request_id = id; columns = c } ∷ []

-- The column of the request is unique among the snapshots.
abbrev has_snapshot : String → Option AircraftCreateData → List LandingRequestAircraft → Bool
has_snapshot id none rows = false
has_snapshot id (some c) rows = any (λ a. str_eq a.landing_request_id id) rows

abbrev stored :
    SubmissionDb
    → LandingRequest
    → Option AircraftCreateData
    → Result LandingRequest × LandingDb
    → Result LandingRequest × SubmissionDb
stored s r aircraft (err e, landing) = (err e, s)
stored s r aircraft (ok created, landing) =
    if has_snapshot r.id aircraft s.aircraft then (err database_error, s) else (
      ok created,
      record s { landing = landing; aircraft = with_snapshot r.id aircraft s.aircraft },
    )

-- One transaction: both rows are written or none.
unfoldable pub create_with_aircraft :
    LandingRequest → Option AircraftCreateData → M SubmissionDb LandingRequest
unfolding insert_request
create_with_aircraft r aircraft s = stored s r aircraft (insert_request r s.landing)

abbrev pub snapshot_of : Option RabRow → Option AircraftCreateData
unfolding build_aircraft_create_data
snapshot_of none = none
snapshot_of (some row) = some (build_aircraft_create_data row)

abbrev send_receipt : Bool → LandingRequest → SubmissionDb → SubmissionDb
send_receipt false r s = s
send_receipt true r s = record s { receipts = s.receipts ++ (or_default r.email "", r.id) ∷ [] }

-- `compensateFailedReceipt` swallows an exception of the deletion.
unfoldable pub compensate_failed_receipt : SubmissionWorld → String → SubmissionDb → SubmissionDb
unfolding soft_delete
compensate_failed_receipt w id s =
    if w.compensation_fails
    then s
    else record s { landing = (soft_delete id "system" w.compensated_at s.landing).1 }

abbrev is_staff_of : String → StaffRow → Bool
is_staff_of group_id u =
    str_eq (or_default u.group_id "") group_id
    && (not (is_none u.group_id)
        && (is_none u.deleted_at
            && any (λ r. str_eq (role_name r) (role_name u.role))
                (UserRole.coordinator ∷ UserRole.operator ∷ [])))

-- `[...new Set(emails)]`: each address once, where it comes first.
abbrev once : List String → List String → List String
once seen [] = []
once seen (e ∷ es) = if any (str_eq e) seen then once seen es else e ∷ once (e ∷ seen) es

abbrev pub creation_entry : LandingRequest → AuditEntry
creation_entry created = record {
  action = AuditAction.create;
  entity_id = created.id;
  before = none;
  after = some (landing_request_audit_snapshot created);
  actor_id = none;
}

module _ (trim_address : String → String) where
  unfoldable pub find_group_staff_emails : List StaffRow → String → List String
  find_group_staff_emails staff group_id = once [] (
      filter (λ e. not (is_empty e))
        (map (λ u. trim_address u.email) (filter (is_staff_of group_id) staff)))

  abbrev send_staff : Bool → List String → String → SubmissionDb → SubmissionDb
  send_staff sent [] id s = s
  send_staff false (e ∷ es) id s = s
  send_staff true (e ∷ es) id s = record s { staff_letters = s.staff_letters ++ (e ∷ es, id) ∷ [] }

  unfoldable pub notify_staff :
      SubmissionWorld
      → List StaffRow
      → LandingRequest
      → TargetAerodrome
      → SubmissionDb
      → SubmissionDb
  unfolding find_group_staff_emails
  notify_staff w staff created target s =
      if w.staff_lookup_fails
      then s
      else send_staff w.staff_sent (find_group_staff_emails staff target.group_id) created.id s

  -- What follows the receipt.
  abbrev finish :
      SubmissionWorld
      → List StaffRow
      → LandingRequest
      → TargetAerodrome
      → Bool
      → M SubmissionDb CreateLandingRequestResponse
  unfolding compensate_failed_receipt notify_staff
  finish w staff created target false = do
    modify (compensate_failed_receipt w created.id)
    throw (receipt_failed (or_default created.email ""))
  finish w staff created target true = do
    modify (λ s. record s { landing = record_audit w.audited (creation_entry created) s.landing })
    modify (notify_staff w staff created target)
    pure (record { id = created.id; uf = created.uf })

  module _ (other : ℕ → Text) (anac : Text → String → Option Bool) where
    -- `CreateLandingRequestService.execute`.
    unfoldable pub submit :
        SubmissionWorld
        → Site
        → CreateLandingRequestDto
        → M SubmissionDb CreateLandingRequestResponse
    unfolding prepare build_landing_request_create_input create_with_aircraft
        compensate_failed_receipt notify_staff build_aircraft_create_data to_upper trim
    submit w site dto = do
      p ← lift (prepare other anac w site dto)
      require (not w.insert_fails) database_error
      created ←
          create_with_aircraft
            (build_landing_request_create_input w.id dto w.now p.registration (is_foreign dto)
              (to_upper other (trim p.target.icao)) p.target)
            (snapshot_of p.rab_row)
      modify (send_receipt w.receipt_sent created)
      finish w site.staff created p.target w.receipt_sent
