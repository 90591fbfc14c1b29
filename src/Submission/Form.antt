-- ===== src/Submission/Form.antt =====
-- The public form of src/modules/landing-requests/dtos/create-landing-request.dto.ts as the service
-- gets it, the row that src/modules/landing-requests/mappers/landing-request.prisma.mapper.ts makes
-- of it, the messages of the schedule, format-cpf-for-anac.util.ts and the errors of
-- create-landing-request.service.ts and validate-pilot-license.service.ts.

use Prim.Native.Char.{code}
use aerobi_api.Common.{
  Bool, true, false, ◌&&◌, [], ◌∷◌, ◌++◌, Option, none, some, String, ℕ, ◌==◌, if◌then◌else◌,
  is_empty, filter, take, drop, length,
}
use aerobi_api.Common.Text.{Text, trim, is_digit}
use aerobi_api.Common.Errors.{HttpError, HttpStatus, ErrorCode, Result, ok, err, http_error}
use aerobi_api.Landing.Schedule.{ScheduleError}
use aerobi_api.Landing.Store.{LandingRequest, LandingRequestStatus}
use aerobi_api.Registrations.{is_blank}

pub record CreateLandingRequestDto : Type 0 where
  pub aerodrome_id : String
  pub departure_icao : String
  pub next_destination_icao : String
  pub departure_at : ℕ
  pub landing_at : ℕ
  pub exit_after_landing_at : ℕ
  pub requester_name : String
  pub email : String
  pub phone_contact : String
  pub pilot_name : String
  pub pilot_cpf : Text
  pub anac_pilot_code : String
  pub aircraft_registration : Text
  pub foreign_registration : Option Bool
  pub aircraft_model : String
  pub people_on_board : ℕ
  pub notes : Option Text
  pub confirmed_true : Bool
  pub accepted_terms : Bool

-- `MESSAGES`.
unfoldable pub schedule_message : ScheduleError → String
schedule_message ScheduleError.departure_in_past =
    "A previsão de decolagem deve ser posterior ao horário atual em UTC (Zulu)."
schedule_message ScheduleError.landing_in_past =
    "A previsão de pouso deve ser posterior ao horário atual em UTC (Zulu)."
schedule_message ScheduleError.landing_before_departure =
    "A previsão de pouso deve ser depois da previsão de decolagem (horários em UTC / Zulu)."
schedule_message ScheduleError.landing_before_min_advance =
    "A previsão de pouso deve ser pelo menos 3 horas depois do horário atual em UTC (Zulu)."
schedule_message ScheduleError.exit_before_landing =
    "A previsão de partida deve ser depois da previsão de pouso (horários em UTC / Zulu)."

-- `details.replace(/\.+$/, '')`.
unfoldable pub strip_final_stops : String → String
strip_final_stops String.[] = ""
strip_final_stops (String.◌∷◌ c s) =
    let rest = strip_final_stops s in
    if is_empty rest && code c == b'.' then "" else String.◌∷◌ c rest

unfoldable pub validation_failed : String → HttpError
unfolding strip_final_stops
validation_failed details =
    http_error HttpStatus.bad_request ErrorCode.validation_failed
      (("DETAILS", strip_final_stops details) ∷ [])

abbrev pub closed_aerodrome : HttpError
closed_aerodrome =
    http_error HttpStatus.conflict ErrorCode.conflict
      (("DETAILS", "aeródromo fechado para solicitações de pouso") ∷ [])

abbrev pub receipt_failed : String → HttpError
receipt_failed email =
    http_error HttpStatus.bad_gateway ErrorCode.email_send_failed (("EMAIL", email) ∷ [])

-- `XXX.XXX.XXX-XX`, if there are eleven digits.
unfoldable pub format_cpf_for_anac : Text → Text
unfolding is_digit
format_cpf_for_anac digits =
    let cpf = filter is_digit digits in
    if length cpf == 11
    then take 3 cpf
      ++ b'.' ∷ (take 3 (drop 3 cpf) ++ b'.' ∷ (take 3 (drop 6 cpf) ++ b'-' ∷ drop 9 cpf))
    else digits

-- What ANAC says of a licence: the page cannot be fetched or read, or it says whether it is valid.
abbrev pub licence_result : Option Bool → Result (Unit {0})
licence_result none =
    err (
      http_error HttpStatus.bad_gateway ErrorCode.external_service_failed
        (("SERVICE", "ANAC") ∷ []))
licence_result (some true) = ok tt
licence_result (some false) = err (
    http_error HttpStatus.bad_request ErrorCode.validation_failed
      (("DETAILS", "informe um piloto com carteira válida (CPF e CANAC)") ∷ []))

-- `ValidatePilotLicenseService.execute`.
unfoldable pub validate_pilot_license :
    (Text → String → Option Bool) → Text → String → Result (Unit {0})
unfolding format_cpf_for_anac
validate_pilot_license anac pilot_cpf anac_pilot_code =
    licence_result (anac (format_cpf_for_anac pilot_cpf) anac_pilot_code)

-- `dto.notes?.trim() ? dto.notes.trim() : null`.
abbrev pub trimmed_notes : Option Text → Option Text
trimmed_notes none = none
trimmed_notes (some t) = if is_blank (trim t) then none else some (trim t)

-- What `findTargetAerodrome` selects, with the state of the group.
pub record TargetAerodrome : Type 0 where
  pub id : String
  pub icao : Text
  pub name : String
  pub is_open : Bool
  pub group_id : String
  pub uf : String

-- The row of a new request; the database draws its id.
unfoldable pub build_landing_request_create_input :
    String → CreateLandingRequestDto → ℕ → Text → Bool → Text → TargetAerodrome → LandingRequest
build_landing_request_create_input id dto now registration foreign_registration icao target =
    record {
      id = id;
      aerodrome_id = target.id;
      status = LandingRequestStatus.pending;
      request_date = now;
      email = some dto.email;
      pilot_code = some dto.anac_pilot_code;
      aircraft_model = some dto.aircraft_model;
      aircraft_registration = some registration;
      departure_aerodrome = some dto.departure_icao;
      observation = trimmed_notes dto.notes;
      pilot_name = some dto.pilot_name;
      pilot_cpf = some dto.pilot_cpf;
      phone_contact = some dto.phone_contact;
      requester_name = some dto.requester_name;
      people_on_board = some dto.people_on_board;
      accepted_terms = some dto.accepted_terms;
      confirmed_true = some dto.confirmed_true;
      foreign_registration = some foreign_registration;
      next_destination_aerodrome = some dto.next_destination_icao;
      icao = some icao;
      uf = some target.uf;
      departure_at = some dto.departure_at;
      landing_at = some dto.landing_at;
      exit_after_landing_at = some dto.exit_after_landing_at;
      reviewed_at = none;
      reviewed_by = none;
      created_by = some "public";
      updated_by = none;
      deleted_at = none;
      deleted_by = none;
    }
