-- ===== src/Movements.antt =====
-- The tables `Movement`, `MovementAircraftSnapshot`, `OperationalEvent` and `RabRow` of
-- prisma/schema.prisma, the objects in the storage, the events that are on their way, and
-- src/modules/movements/utils/conformity-status.util.ts. Times are milliseconds.
pub mod Store
pub mod Create
pub mod Edit
pub mod Laws
pub mod Toggle
pub mod Written
pub mod Image
pub mod Scope
pub mod Correction
mod Tests
use aerobi_api.Common.{
  Bool, true, false, ◌&&◌, List, [], ◌∷◌, Option, none, some, String, ℕ, if◌then◌else◌, is_none,
  not,
}
use aerobi_api.Common.Text.{Text}
use aerobi_api.Landing.Store.{LandingRequest}

pub data MovementType : Type 0 where
  landing takeoff : MovementType

pub data MovementSource : Type 0 where
  automatic manual : MovementSource

pub data ConformityStatus : Type 0 where
  not_applicable pending conformant non_conformant : ConformityStatus

-- The fields of a RAB row that a movement copies.
pub record RabRow : Type 0 where
  pub id : String
  pub period : String
  pub marcas : Text
  pub proprietarios : Option String
  pub operadores : Option String
  pub nr_serie : Option String
  pub ds_modelo : Option String
  pub nm_fabricante : Option String
  pub cd_tipo_icao : Option String
  pub nr_pmd : Option String
  pub nr_assentos : Option String
  pub nr_ano_fabricacao : Option String
  pub tp_motor : Option String
  pub qt_motor : Option String
  pub cf_operacional : Option String
  pub tp_operacao : Option String

pub record AircraftSnapshot : Type 0 where
  pub rab_row_id : Option String
  pub rab_period : Option String
  pub marcas : Option Text
  pub proprietarios : Option String
  pub operadores : Option String
  pub nr_serie : Option String
  pub ds_modelo : Option String
  pub nm_fabricante : Option String
  pub cd_tipo_icao : Option String
  pub nr_pmd : Option String
  pub nr_assentos : Option String
  pub nr_ano_fabricacao : Option String
  pub tp_motor : Option String
  pub qt_motor : Option String
  pub cf_operacional : Option String
  pub tp_operacao : Option String

-- The key of the image of a movement, `movements/{movement_id}/image/{uuid}.{extension}`, by its
-- parts; the media type gives the extension.
pub record ImageKey : Type 0 where
  pub movement_id : String
  pub uuid : String
  pub mimetype : String

pub record Movement : Type 0 where
  pub id : String
  pub registration : Text
  pub confidence : Option String
  pub reading_datetime : ℕ
  pub operation_type : MovementType
  pub source : MovementSource
  pub reading_status : Option String
  pub revisor_id : Option String
  pub image_key : Option ImageKey
  pub comments : Option String
  pub aerodrome : Option Text
  pub conformity_status : ConformityStatus
  pub aircraft_snapshot : AircraftSnapshot
  pub created_by : Option String
  pub updated_by : Option String
  pub deleted_at : Option ℕ
  pub deleted_by : Option String

pub data OperationalEventStatus : Type 0 where
  open' acknowledged resolved : OperationalEventStatus

-- The one type of event is `NON_CONFORMITY_NO_LANDING_REQUEST`.
pub record OperationalEvent : Type 0 where
  pub id : String
  pub status : OperationalEventStatus
  pub aerodrome : Text
  pub movement_id : Option String
  pub occurred_at : ℕ
  pub detected_at : ℕ
  pub notified_at : Option ℕ
  pub deleted_at : Option ℕ

pub record MovementCreatedEvent : Type 0 where
  pub movement_id : String
  pub registration : Text
  pub aerodrome : Option Text
  pub operation_type : MovementType
  pub source : MovementSource
  pub reading_datetime : ℕ
  pub batched : Bool

pub record MovementNonConformityEvent : Type 0 where
  pub operational_event_id : String
  pub movement_id : String
  pub registration : Text
  pub aerodrome : Text
  pub occurred_at : ℕ

-- Where an evaluation of a movement stands: each of these waits for one query.
pub data Phase : Type 0 where
  started : MovementCreatedEvent → Phase
  matched : MovementCreatedEvent → Phase
  unmatched : MovementCreatedEvent → Text → Phase
  missing : MovementCreatedEvent → Text → Phase
  resolving : String → ConformityStatus → Phase
  done : Phase

-- The RAB rows are listed with the newest period first, as the query orders them.
pub record Ops : Type 0 where
  pub movements : List Movement
  pub operational_events : List OperationalEvent
  pub landing_requests : List LandingRequest
  pub rab_rows : List RabRow
  pub objects : List ImageKey
  pub running : List Phase
  pub non_conformities : List MovementNonConformityEvent

abbrev pub is_landing : MovementType → Bool
is_landing MovementType.landing = true
is_landing MovementType.takeoff = false

unfoldable pub is_conformity_applicable : MovementType → Option Text → Bool
is_conformity_applicable operation_type aerodrome =
    is_landing operation_type && not (is_none aerodrome)

unfoldable pub resolve_initial_conformity_status : MovementType → Option Text → ConformityStatus
unfolding is_conformity_applicable
resolve_initial_conformity_status operation_type aerodrome =
    if is_conformity_applicable operation_type aerodrome
    then ConformityStatus.pending
    else ConformityStatus.not_applicable

unfoldable pub build_aircraft_snapshot_create_input : Option RabRow → AircraftSnapshot
build_aircraft_snapshot_create_input none = record {
  rab_row_id = none;
  rab_period = none;
  marcas = none;
  proprietarios = none;
  operadores = none;
  nr_serie = none;
  ds_modelo = none;
  nm_fabricante = none;
  cd_tipo_icao = none;
  nr_pmd = none;
  nr_assentos = none;
  nr_ano_fabricacao = none;
  tp_motor = none;
  qt_motor = none;
  cf_operacional = none;
  tp_operacao = none;
}
build_aircraft_snapshot_create_input (some r) = record {
  rab_row_id = some r.id;
  rab_period = some r.period;
  marcas = some r.marcas;
  proprietarios = r.proprietarios;
  operadores = r.operadores;
  nr_serie = r.nr_serie;
  ds_modelo = r.ds_modelo;
  nm_fabricante = r.nm_fabricante;
  cd_tipo_icao = r.cd_tipo_icao;
  nr_pmd = r.nr_pmd;
  nr_assentos = r.nr_assentos;
  nr_ano_fabricacao = r.nr_ano_fabricacao;
  tp_motor = r.tp_motor;
  qt_motor = r.qt_motor;
  cf_operacional = r.cf_operacional;
  tp_operacao = r.tp_operacao;
}
