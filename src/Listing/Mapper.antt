-- ===== src/Listing/Mapper.antt =====
-- src/modules/landing-requests/mappers/landing-request.mapper.ts, with landing-request-pii.ts. The
-- dates of creation and update, which the database keeps by itself, are left out. `to_iso_string` is
-- that of `Date`.
use aerobi_api.Common.{
  Bool, true, false, ◌∷◌, ◌++◌, Option, none, some, String, ℕ, ltb, leb, if◌then◌else◌, filter,
  take, drop, length,
}
use aerobi_api.Common.Text.{Text, codes, is_digit}
use aerobi_api.Authz.Permissions.{UserRole}
use aerobi_api.Landing.Store.{LandingRequest, LandingRequestStatus}
use aerobi_api.Submission.Aircraft.{AircraftCreateData}
use aerobi_api.Registrations.{is_blank}

pub record LandingRequestReviewer : Type 0 where
  pub id : String
  pub name : String
  pub email : String
  pub role : UserRole

pub record LandingRequestResponse : Type 0 where
  pub id : String
  pub aerodrome_id : String
  pub status : LandingRequestStatus
  pub answer : Option Bool
  pub request_date : String
  pub uf : Option String
  pub icao : Option Text
  pub departure_aerodrome : Option String
  pub next_destination_aerodrome : Option String
  pub email : Option String
  pub requester_name : Option String
  pub phone_contact : Option String
  pub pilot_name : Option String
  pub pilot_cpf : Option Text
  pub pilot_code : Option String
  pub aircraft_model : Option String
  pub aircraft_registration : Option Text
  pub foreign_registration : Option Bool
  pub people_on_board : Option ℕ
  pub accepted_terms : Option Bool
  pub confirmed_true : Option Bool
  pub departure_at : Option String
  pub landing_at : Option String
  pub exit_after_landing_at : Option String
  pub observation : Option Text
  pub reviewed_at : Option String
  pub reviewed_by : Option String
  pub reviewer : Option LandingRequestReviewer
  pub created_by : Option String
  pub updated_by : Option String
  pub rab_aircraft : Option (Option AircraftCreateData)

abbrev pub derive_answer : LandingRequestStatus → Option Bool
derive_answer LandingRequestStatus.approved = some true
derive_answer LandingRequestStatus.rejected = some false
derive_answer LandingRequestStatus.pending = none

-- What is shown of the digits.
abbrev pub masked : Text → Text
masked digits =
    if ltb (length digits) 3
    then codes "***.***.***-**"
    else take 3 digits
      ++ b'.' ∷ (if leb 6 (length digits) then take 3 (drop 3 digits) else codes "***")
      ++ codes ".***-**"

unfoldable pub mask_pilot_cpf : Option Text → Option Text
unfolding is_digit
mask_pilot_cpf none = none
mask_pilot_cpf (some cpf) = if is_blank cpf then none else some (masked (filter is_digit cpf))

abbrev iso : (ℕ → String) → Option ℕ → Option String
iso to_iso_string none = none
iso to_iso_string (some t) = some (to_iso_string t)

-- `opts.aircraft` is `none` where it is not given, `some none` where the request has no snapshot.
unfoldable pub to_api_row :
    (ℕ → String)
    → LandingRequest
    → Option LandingRequestReviewer
    → Option (Option AircraftCreateData)
    → LandingRequestResponse
unfolding mask_pilot_cpf
to_api_row to_iso_string entity reviewer aircraft = record {
  id = entity.id;
  aerodrome_id = entity.aerodrome_id;
  status = entity.status;
  answer = derive_answer entity.status;
  request_date = to_iso_string entity.request_date;
  uf = entity.uf;
  icao = entity.icao;
  departure_aerodrome = entity.departure_aerodrome;
  next_destination_aerodrome = entity.next_destination_aerodrome;
  email = entity.email;
  requester_name = entity.requester_name;
  phone_contact = entity.phone_contact;
  pilot_name = entity.pilot_name;
  pilot_cpf = mask_pilot_cpf entity.pilot_cpf;
  pilot_code = entity.pilot_code;
  aircraft_model = entity.aircraft_model;
  aircraft_registration = entity.aircraft_registration;
  foreign_registration = entity.foreign_registration;
  people_on_board = entity.people_on_board;
  accepted_terms = entity.accepted_terms;
  confirmed_true = entity.confirmed_true;
  departure_at = iso to_iso_string entity.departure_at;
  landing_at = iso to_iso_string entity.landing_at;
  exit_after_landing_at = iso to_iso_string entity.exit_after_landing_at;
  observation = entity.observation;
  reviewed_at = iso to_iso_string entity.reviewed_at;
  reviewed_by = entity.reviewed_by;
  reviewer = reviewer;
  created_by = entity.created_by;
  updated_by = entity.updated_by;
  rab_aircraft = aircraft;
}
