-- ===== src/Submission/Validation.antt =====
-- The rules of src/modules/landing-requests/dtos/create-landing-request.dto.ts, as far as they are the
-- repository's own; the tests of class-validator (UUIDs of version 4, addresses, lengths of text) are
-- parameters. An instant is always a date, and a natural number an integer.
pub mod Licence
use aerobi_api.Common.{
  Bool, true, false, ◌&&◌, List, [], ◌∷◌, Option, none, some, String, ℕ, ◌==◌, leb, all, length,
  not, is_empty,
}
use aerobi_api.Common.Text.{Text, codes, is_digit, is_upper}
use aerobi_api.Registrations.{is_alphanumeric, is_blank}
use aerobi_api.Validators.{is_valid_cpf_digits, is_e164}
use aerobi_api.Submission.Form.{CreateLandingRequestDto}

pub record ClassValidator : Type 0 where
  pub is_uuid_4 : String → Bool
  pub is_email : String → Bool
  pub has_length : ℕ → ℕ → Text → Bool

-- `/^[A-Z0-9]{4}$/`
abbrev pub is_icao : Text → Bool
unfolding is_upper is_digit
is_icao t = length t == 4 && all is_alphanumeric t

-- `/^\d{6}$/`
abbrev pub is_anac_code : Text → Bool
unfolding is_digit
is_anac_code t = length t == 6 && all is_digit t

abbrev is_valid_notes : ClassValidator → Option Text → Bool
is_valid_notes v none = true
is_valid_notes v (some t) = v.has_length 0 2000 t

unfoldable pub is_valid_form : ClassValidator → CreateLandingRequestDto → Bool
unfolding is_valid_cpf_digits is_e164 is_icao is_anac_code
is_valid_form v dto =
    is_valid_cpf_digits dto.pilot_cpf
    && (is_anac_code (codes dto.anac_pilot_code)
        && (v.is_uuid_4 dto.aerodrome_id
            && (is_icao (codes dto.departure_icao)
                && (is_icao (codes dto.next_destination_icao)
                    && (v.has_length 2 120 (codes dto.requester_name)
                        && (v.is_email dto.email
                            && (v.has_length 0 320 (codes dto.email)
                                && (is_e164 (codes dto.phone_contact)
                                    && (v.has_length 0 32 (codes dto.phone_contact)
                                        && (v.has_length 2 120 (codes dto.pilot_name)
                                            && (not (is_blank dto.aircraft_registration)
                                                && (v.has_length 0 64 dto.aircraft_registration
                                                    && (v.has_length 1 80 (codes dto.aircraft_model)
                                                        && ((leb 1 dto.people_on_board
                                                            && leb dto.people_on_board 999)
                                                            && (is_valid_notes v dto.notes
                                                            && (dto.confirmed_true
                                                            && dto.accepted_terms))))))))))))))))
