-- ===== src/Submission/Tests.antt =====
-- A form for an open aerodrome, sent by a pilot with a valid licence and a national aircraft.
use aerobi_api.Common.{
  ◌≡◌, refl, true, false, [], ◌∷◌, Option, none, some, String, ℕ, Bool, filter, length,
}
use aerobi_api.Common.Text.{Text, codes, is_digit}
use aerobi_api.Common.Errors.{ok, err}
use aerobi_api.Authz.Permissions.{UserRole}
use aerobi_api.Landing.Store.{LandingRequest, LandingRequestStatus, Decision, find_by_id, decided}
use aerobi_api.Landing.Decide.{BestEffort, decide}
use aerobi_api.Submission.Form.{CreateLandingRequestDto, receipt_failed, format_cpf_for_anac}
use aerobi_api.Submission.Validation.{ClassValidator, is_valid_form}
use aerobi_api.Submission.Validation.Licence.{valid_form-format}
use aerobi_api.Submission.Aircraft.{RabRow}
use aerobi_api.Submission.Prepare.{AerodromeRow, StaffRow, Site, SubmissionWorld}
use aerobi_api.Submission.Laws.{Outcome}
use aerobi_api.Submission.Content.{Content, submit-Content}
use aerobi_api.Submission.Seen.{submit-SameView, submit-decide}
use aerobi_api.Submission.{SubmissionDb, CreateLandingRequestResponse, submit}

abbrev keep_char : ℕ → Text
keep_char c = c ∷ []

abbrev keep_address : String → String
keep_address s = s

abbrev licensed : Text → String → Option Bool
licensed cpf code = some true

abbrev in_rab : RabRow
in_rab = record {
  id = "rab1";
  period = "2026-07";
  marcas = codes "PTABC";
  proprietarios = none;
  operadores = none;
  nr_cert_matricula = none;
  nr_serie = none;
  cd_tipo = none;
  ds_modelo = none;
  nm_fabricante = none;
  cd_cls = none;
  nr_pmd = none;
  cd_tipo_icao = none;
  nr_tripulacao_min = none;
  nr_passageiros_max = none;
  nr_assentos = none;
  nr_ano_fabricacao = none;
  dt_validade_cva = none;
  dt_validade_ca = none;
  dt_canc = none;
  ds_motivo_canc = none;
  cd_interdicao = none;
  ds_gravame = none;
  dt_matricula = none;
  tp_motor = none;
  qt_motor = none;
  tp_pouso = none;
  tp_ca = none;
  cd_proposito_cave = none;
  cf_operacional = none;
  ds_categoria_homologacao = none;
  tp_operacao = none;
}

abbrev open_aerodrome : AerodromeRow
open_aerodrome = record {
  id = "sbaa";
  icao = codes " sbaa ";
  name = "Conceição";
  is_open = true;
  group_id = "north";
  group_uf = "PA";
  deleted_at = none;
}

abbrev coordinator : StaffRow
coordinator = record {
  email = "ana@aerobi.br";
  role = UserRole.coordinator;
  group_id = some "north";
  deleted_at = none;
}

abbrev sample_site : Site
sample_site = record {
  aerodromes = open_aerodrome ∷ [];
  rab_rows = in_rab ∷ [];
  staff = coordinator ∷ [];
}

abbrev form : CreateLandingRequestDto
form = record {
  aerodrome_id = "sbaa";
  departure_icao = "SBSP";
  next_destination_icao = "SBRJ";
  departure_at = 2000;
  landing_at = 20000000;
  exit_after_landing_at = 20000001;
  requester_name = "Maria";
  email = "piloto@aerobi.br";
  phone_contact = "+5511999999999";
  pilot_name = "João";
  pilot_cpf = codes "12345678909";
  anac_pilot_code = "204603";
  aircraft_registration = codes "pt-abc";
  foreign_registration = none;
  aircraft_model = "Cessna 172";
  people_on_board = 3;
  notes = some (codes "  ");
  confirmed_true = true;
  accepted_terms = true;
}

abbrev all_well : SubmissionWorld
all_well = record {
  now = 1000;
  compensated_at = 1500;
  id = "lr9";
  target_lookup_fails = false;
  rab_lookup_fails = false;
  insert_fails = false;
  receipt_sent = true;
  compensation_fails = false;
  audited = true;
  staff_lookup_fails = false;
  staff_sent = true;
}

abbrev lost_receipt : SubmissionWorld
lost_receipt = record all_well { receipt_sent = false }

abbrev empty_db : SubmissionDb
empty_db = record {
  landing = record { requests = []; audit_log = []; decided_emails = [] };
  aircraft = [];
  receipts = [];
  staff_letters = [];
}

abbrev answer : CreateLandingRequestResponse
answer = record { id = "lr9"; uf = some "PA" }

accepted_form :
    (submit keep_address keep_char licensed all_well sample_site form empty_db).0 ≡ ok answer
unfolding submit
accepted_form = refl

accepted_run :
    submit keep_address keep_char licensed all_well sample_site form empty_db
    ≡ (ok answer, (submit keep_address keep_char licensed all_well sample_site form empty_db).1)
unfolding submit
accepted_run = refl

withdrawn_run : submit keep_address keep_char licensed lost_receipt sample_site form empty_db ≡ (
  err (receipt_failed "piloto@aerobi.br"),
  (submit keep_address keep_char licensed lost_receipt sample_site form empty_db).1,
)
unfolding submit
withdrawn_run = refl

submitted_example :
    let r = submit keep_address keep_char licensed all_well sample_site form empty_db in
    Outcome keep_address keep_char licensed all_well sample_site form empty_db r
    × Content keep_address keep_char licensed all_well sample_site form empty_db r
submitted_example =
    submit-Content keep_address keep_char licensed all_well sample_site form empty_db

abbrev after_withdrawal : SubmissionDb
unfolding submit
after_withdrawal = (submit keep_address keep_char licensed lost_receipt sample_site form empty_db).1

invisible_example :
    ((id : String) → find_by_id after_withdrawal.landing id ≡ find_by_id empty_db.landing id)
    × (after_withdrawal.landing.audit_log ≡ [])
    × (after_withdrawal.receipts ≡ [])
    × (after_withdrawal.staff_letters ≡ [])
unfolding submit after_withdrawal
invisible_example =
    submit-SameView keep_address keep_char licensed lost_receipt sample_site form empty_db refl
      withdrawn_run

abbrev approval : Decision
approval = record {
  decision = LandingRequestStatus.approved;
  observation = none;
  reviewed_by = "ana";
  reviewed_at = 5000;
}

abbrev helped : BestEffort
helped = record { audited = true; mailed = true }

abbrev after_submission : SubmissionDb
unfolding submit
after_submission = (submit keep_address keep_char licensed all_well sample_site form empty_db).1

decidable_example :
    (q : LandingRequest) × (find_by_id after_submission.landing "lr9" ≡ some q)
    × ((decide helped "lr9" approval after_submission.landing).0 ≡ ok (decided approval q))
unfolding submit after_submission
decidable_example =
    submit-decide keep_address keep_char licensed all_well sample_site form empty_db helped approval
      tt accepted_run

abbrev lenient : ClassValidator
lenient = record { is_uuid_4 = λ s. true; is_email = λ s. true; has_length = λ l h t. true }

form_passes : is_valid_form lenient form ≡ true
unfolding is_valid_form
form_passes = refl

licence_example :
    (filter is_digit (format_cpf_for_anac (codes "12345678909")) ≡ codes "12345678909")
    × (length (format_cpf_for_anac (codes "12345678909")) ≡ 14)
licence_example = valid_form-format lenient form form_passes
