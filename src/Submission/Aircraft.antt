-- ===== src/Submission/Aircraft.antt =====
-- The model `RabRow` of prisma/schema.prisma with the query of rab-row.repository.ts, the snapshot
-- of an aircraft that src/modules/landing-requests/mappers/landing-request.prisma.mapper.ts takes of
-- it, lookup-rab-aircraft.service.ts and rab-marcas.util.ts.
use aerobi_api.Common.{
  Bool, ◌||◌, List, [], ◌∷◌, Option, none, some, String, find, filter, if◌then◌else◌,
}
use aerobi_api.Common.Text.{Text, same_text, to_lower, to_upper, is_lower, is_upper, is_digit}
use aerobi_api.Common.Errors.{HttpError, HttpStatus, ErrorCode, Result, ok, err, http_error}
use aerobi_api.Common.{ℕ}

pub record RabRow : Type 0 where
  pub id : String
  pub period : String
  pub marcas : Text
  pub proprietarios : Option String
  pub operadores : Option String
  pub nr_cert_matricula : Option String
  pub nr_serie : Option String
  pub cd_tipo : Option String
  pub ds_modelo : Option String
  pub nm_fabricante : Option String
  pub cd_cls : Option String
  pub nr_pmd : Option String
  pub cd_tipo_icao : Option String
  pub nr_tripulacao_min : Option String
  pub nr_passageiros_max : Option String
  pub nr_assentos : Option String
  pub nr_ano_fabricacao : Option String
  pub dt_validade_cva : Option String
  pub dt_validade_ca : Option String
  pub dt_canc : Option String
  pub ds_motivo_canc : Option String
  pub cd_interdicao : Option String
  pub ds_gravame : Option String
  pub dt_matricula : Option String
  pub tp_motor : Option String
  pub qt_motor : Option String
  pub tp_pouso : Option String
  pub tp_ca : Option String
  pub cd_proposito_cave : Option String
  pub cf_operacional : Option String
  pub ds_categoria_homologacao : Option String
  pub tp_operacao : Option String

-- The columns of a snapshot; the row that holds them names its request.
pub record AircraftCreateData : Type 0 where
  pub period : String
  pub marcas : Text
  pub proprietarios : Option String
  pub operadores : Option String
  pub nr_cert_matricula : Option String
  pub nr_serie : Option String
  pub cd_tipo : Option String
  pub ds_modelo : Option String
  pub nm_fabricante : Option String
  pub cd_cls : Option String
  pub nr_pmd : Option String
  pub cd_tipo_icao : Option String
  pub nr_tripulacao_min : Option String
  pub nr_passageiros_max : Option String
  pub nr_assentos : Option String
  pub nr_ano_fabricacao : Option String
  pub dt_validade_cva : Option String
  pub dt_validade_ca : Option String
  pub dt_canc : Option String
  pub ds_motivo_canc : Option String
  pub cd_interdicao : Option String
  pub ds_gravame : Option String
  pub dt_matricula : Option String
  pub tp_motor : Option String
  pub qt_motor : Option String
  pub tp_pouso : Option String
  pub tp_ca : Option String
  pub cd_proposito_cave : Option String
  pub cf_operacional : Option String
  pub ds_categoria_homologacao : Option String
  pub tp_operacao : Option String

unfoldable pub build_aircraft_create_data : RabRow → AircraftCreateData
build_aircraft_create_data row = record {
  period = row.period;
  marcas = row.marcas;
  proprietarios = row.proprietarios;
  operadores = row.operadores;
  nr_cert_matricula = row.nr_cert_matricula;
  nr_serie = row.nr_serie;
  cd_tipo = row.cd_tipo;
  ds_modelo = row.ds_modelo;
  nm_fabricante = row.nm_fabricante;
  cd_cls = row.cd_cls;
  nr_pmd = row.nr_pmd;
  cd_tipo_icao = row.cd_tipo_icao;
  nr_tripulacao_min = row.nr_tripulacao_min;
  nr_passageiros_max = row.nr_passageiros_max;
  nr_assentos = row.nr_assentos;
  nr_ano_fabricacao = row.nr_ano_fabricacao;
  dt_validade_cva = row.dt_validade_cva;
  dt_validade_ca = row.dt_validade_ca;
  dt_canc = row.dt_canc;
  ds_motivo_canc = row.ds_motivo_canc;
  cd_interdicao = row.cd_interdicao;
  ds_gravame = row.ds_gravame;
  dt_matricula = row.dt_matricula;
  tp_motor = row.tp_motor;
  qt_motor = row.qt_motor;
  tp_pouso = row.tp_pouso;
  tp_ca = row.tp_ca;
  cd_proposito_cave = row.cd_proposito_cave;
  cf_operacional = row.cf_operacional;
  ds_categoria_homologacao = row.ds_categoria_homologacao;
  tp_operacao = row.tp_operacao;
}

-- `replace(/[^a-zA-Z0-9]/g, '')` and `toUpperCase`.
unfoldable pub normalize_rab_marcas : (ℕ → Text) → Text → Text
unfolding to_upper is_lower is_upper is_digit
normalize_rab_marcas other value =
    to_upper other (filter (λ c. is_lower c || (is_upper c || is_digit c)) value)

-- The rows are listed with the newest period first; the comparison ignores case.
unfoldable pub find_latest_by_marcas : (ℕ → Text) → List RabRow → Text → Option RabRow
unfolding to_lower
find_latest_by_marcas other rows marcas =
    find (λ r. same_text (to_lower other r.marcas) (to_lower other marcas)) rows

abbrev pub not_in_rab : HttpError
not_in_rab =
    http_error HttpStatus.bad_request ErrorCode.validation_failed
      (("DETAILS", "matrícula não encontrada no RAB; verifique a matrícula informada") ∷ [])

abbrev pub found_in_rab : Option RabRow → Result (Option RabRow)
found_in_rab none = err not_in_rab
found_in_rab (some row) = ok (some row)

-- `LookupRabAircraftService.execute`.
unfoldable pub lookup_rab_aircraft : (ℕ → Text) → List RabRow → Text → Bool → Result (Option RabRow)
unfolding normalize_rab_marcas find_latest_by_marcas
lookup_rab_aircraft other rows aircraft_registration foreign_registration =
    if foreign_registration
    then ok none
    else found_in_rab
        (find_latest_by_marcas other rows (normalize_rab_marcas other aircraft_registration))
