-- ===== src/Submission/Prepare.antt =====
-- src/modules/landing-requests/services/create-landing-request.service.ts up to the transaction that
-- writes: the checks of a submission, with the query `findTargetAerodrome`. They only read. ANAC is a
-- parameter.
use aerobi_api.Common.{
  Bool, false, not, ◌&&◌, ◌||◌, List, Option, none, some, String, str_eq, ℕ, find, is_none,
  or_default,
}
use aerobi_api.Common.Text.{Text}
use aerobi_api.Common.Errors.{
  Result, ok, err, resource_not_found_error, ◌>>=◌, ◌>>◌, ensure, present,
}
use aerobi_api.Authz.Permissions.{UserRole}
use aerobi_api.Registrations.{
  RegistrationResolution, normalized, error, resolve_aircraft_registration,
}
use aerobi_api.Landing.Schedule.{ScheduleError, validate_landing_schedule}
use aerobi_api.Landing.Store.{database_error}
use aerobi_api.Submission.Form.{
  CreateLandingRequestDto, TargetAerodrome, schedule_message, validation_failed, closed_aerodrome,
  validate_pilot_license,
}
use aerobi_api.Submission.Aircraft.{RabRow, lookup_rab_aircraft}

-- An aerodrome with the state of its group.
pub record AerodromeRow : Type 0 where
  pub id : String
  pub icao : Text
  pub name : String
  pub is_open : Bool
  pub group_id : String
  pub group_uf : String
  pub deleted_at : Option ℕ

pub record StaffRow : Type 0 where
  pub email : String
  pub role : UserRole
  pub group_id : Option String
  pub deleted_at : Option ℕ

-- The tables that it only reads.
pub record Site : Type 0 where
  pub aerodromes : List AerodromeRow
  pub rab_rows : List RabRow
  pub staff : List StaffRow

-- What the outside brings: the clock at the start and at the compensation, the id that is drawn, and
-- which of the queries and letters fail.
pub record SubmissionWorld : Type 0 where
  pub now : ℕ
  pub compensated_at : ℕ
  pub id : String
  pub target_lookup_fails : Bool
  pub rab_lookup_fails : Bool
  pub insert_fails : Bool
  pub receipt_sent : Bool
  pub compensation_fails : Bool
  pub audited : Bool
  pub staff_lookup_fails : Bool
  pub staff_sent : Bool

abbrev target_of : AerodromeRow → TargetAerodrome
target_of a = record {
  id = a.id;
  icao = a.icao;
  name = a.name;
  is_open = a.is_open;
  group_id = a.group_id;
  uf = a.group_uf;
}

unfoldable pub find_target_aerodrome : List AerodromeRow → String → Option TargetAerodrome
find_target_aerodrome rows id = elim (find (λ a. str_eq a.id id && is_none a.deleted_at) rows) [
  | none ↦ none
  | some a ↦ some (target_of a)
]

abbrev pub check_schedule : Option ScheduleError → Result (Unit {0})
unfolding schedule_message validation_failed
check_schedule none = ok tt
check_schedule (some e) = err (validation_failed (schedule_message e))

abbrev pub check_registration : RegistrationResolution → Result Text
unfolding validation_failed
check_registration (normalized t) = ok t
check_registration (error message) = err (validation_failed message)

-- What the checks find: the canonical registration, the aerodrome, and the row of the RAB.
pub record Prepared : Type 0 where
  pub registration : Text
  pub target : TargetAerodrome
  pub rab_row : Option RabRow

abbrev pub is_foreign : CreateLandingRequestDto → Bool
is_foreign dto = or_default dto.foreign_registration false

unfoldable pub prepare :
    (ℕ → Text)
    → (Text → String → Option Bool)
    → SubmissionWorld
    → Site
    → CreateLandingRequestDto
    → Result Prepared
unfolding validate_landing_schedule resolve_aircraft_registration find_target_aerodrome
    validate_pilot_license lookup_rab_aircraft schedule_message validation_failed
prepare other anac w site dto = do
  check_schedule
      (validate_landing_schedule dto.departure_at dto.landing_at dto.exit_after_landing_at w.now)
  registration ←
      check_registration
        (resolve_aircraft_registration other dto.aircraft_registration (is_foreign dto))
  ensure (not w.target_lookup_fails) database_error
  target ←
      present (find_target_aerodrome site.aerodromes dto.aerodrome_id)
        (resource_not_found_error "Aeródromo" dto.aerodrome_id)
  ensure target.is_open closed_aerodrome
  validate_pilot_license anac dto.pilot_cpf dto.anac_pilot_code
  ensure (is_foreign dto || not w.rab_lookup_fails) database_error
  rab_row ← lookup_rab_aircraft other site.rab_rows registration (is_foreign dto)
  ok (record { registration = registration; target = target; rab_row = rab_row })
