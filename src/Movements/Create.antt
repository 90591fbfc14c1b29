-- ===== src/Movements/Create.antt =====
-- src/modules/movements/services/create-movement.service.ts and the mapper
-- movement.prisma.mapper.ts.
use aerobi_api.Common.{
  Bool, true, false, not, ◌&&◌, List, [], ◌∷◌, ◌++◌, Option, none, some, String, str_eq, ℕ, any,
  filter, if◌then◌else◌, or_default,
}
use aerobi_api.Common.Text.{Text}
use aerobi_api.Common.Errors.{HttpError, HttpStatus, ErrorCode, Result, ok, err, http_error}
use aerobi_api.Common.Effects.{M, ◌>>=◌, ◌>>◌, pure, gets, modify, require}
use aerobi_api.Accounts.{database_error}
use aerobi_api.Registrations.{normalize_marcas}
use aerobi_api.Movements.{
  Ops, Movement, MovementType, MovementSource, ImageKey, AircraftSnapshot, MovementCreatedEvent,
  Phase, is_landing, resolve_initial_conformity_status, build_aircraft_snapshot_create_input,
}
use aerobi_api.Movements.Store.{create, find_latest_by_marcas, find_last_by_registration_within_48h}

pub record MovementCreateData : Type 0 where
  pub registration : Text
  pub reading_datetime : ℕ
  pub confidence : Option String
  pub reading_status : Option String
  pub revisor_id : Option String
  pub comments : Option String
  pub aerodrome : Option Text

pub record MovementOrigin : Type 0 where
  pub source : MovementSource
  pub created_by : Option String
  pub operation_type : Option MovementType

-- What the outside brings: the ids that are drawn, whether the links are signed, and which of the
-- queries and of the calls of the storage fail.
pub record CreateWorld : Type 0 where
  pub movement_id : String
  pub image_uuid : String
  pub rab_lookup_fails : Bool
  pub toggle_lookup_fails : Bool
  pub upload_fails : Bool
  pub insert_fails : Bool
  pub delete_fails : Bool
  pub signs_url : Bool

pub record CreateMovementResponse : Type 0 where
  pub id : String
  pub message : String
  pub image_path : Option ImageKey

-- `mimetype in MIME_TO_EXT`: the keys of the table, and the names that every object has.
abbrev pub mime_to_ext_keys : List String
mime_to_ext_keys = "image/jpeg" ∷ "image/png" ∷ "image/webp" ∷ []

abbrev object_prototype_keys : List String
object_prototype_keys =
    "constructor" ∷ "__defineGetter__" ∷ "__defineSetter__" ∷ "hasOwnProperty" ∷ "__lookupGetter__"
    ∷ "__lookupSetter__" ∷ "isPrototypeOf" ∷ "propertyIsEnumerable" ∷ "toString" ∷ "valueOf"
    ∷ "__proto__" ∷ "toLocaleString" ∷ []

unfoldable pub is_allowed_image_mimetype : String → Bool
is_allowed_image_mimetype mimetype =
    any (λ k. str_eq k mimetype) (mime_to_ext_keys ++ object_prototype_keys)

abbrev pub invalid_image : HttpError
invalid_image =
    http_error HttpStatus.bad_request ErrorCode.validation_failed
      (("DETAILS", "a imagem deve ser jpg, png ou webp") ∷ [])

abbrev pub upload_failed : HttpError
upload_failed = http_error HttpStatus.internal_server_error ErrorCode.storage_upload_failed []

abbrev pub assert_image_mimetype : Option String → M Ops (Unit {0})
unfolding is_allowed_image_mimetype
assert_image_mimetype none s = (ok tt, s)
assert_image_mimetype (some mimetype) s =
    require (is_allowed_image_mimetype mimetype) invalid_image s

unfoldable pub build_movement_create_input :
    String → MovementCreateData → Option ImageKey → MovementOrigin → AircraftSnapshot → Movement
unfolding resolve_initial_conformity_status
build_movement_create_input id dto image_key origin snapshot =
    let operation_type = or_default origin.operation_type MovementType.landing in
    record {
      id = id;
      registration = dto.registration;
      confidence = dto.confidence;
      reading_datetime = dto.reading_datetime;
      operation_type = operation_type;
      source = origin.source;
      reading_status = dto.reading_status;
      revisor_id = dto.revisor_id;
      image_key = image_key;
      comments = dto.comments;
      aerodrome = dto.aerodrome;
      conformity_status = resolve_initial_conformity_status operation_type dto.aerodrome;
      aircraft_snapshot = snapshot;
      created_by = origin.created_by;
      updated_by = none;
      deleted_at = none;
      deleted_by = none;
    }

-- The other operation than the last one; a landing when there is none.
abbrev pub toggled : Option Movement → MovementType
toggled none = MovementType.landing
toggled (some last) =
    if is_landing last.operation_type then MovementType.takeoff else MovementType.landing

-- A manual movement brings its operation, an automatic one takes the toggle.
unfoldable pub resolve_operation_type :
    Bool → MovementCreateData → MovementOrigin → M Ops MovementOrigin
unfolding find_last_by_registration_within_48h
resolve_operation_type lookup_fails dto origin s = chosen origin.operation_type
  where
    chosen : Option MovementType → Result MovementOrigin × Ops
    chosen (some operation_type) = (ok origin, s)
    chosen none = if lookup_fails then (err database_error, s) else (
      ok (record origin {
        operation_type = some (
            toggled (
              find_last_by_registration_within_48h s dto.registration dto.aerodrome
                dto.reading_datetime));
      }),
      s,
    )

abbrev pub same_key : ImageKey → ImageKey → Bool
same_key j k =
    str_eq j.movement_id k.movement_id && (str_eq j.uuid k.uuid && str_eq j.mimetype k.mimetype)

-- The image goes to the storage before the row goes to the database.
abbrev pub upload : CreateWorld → Option String → M Ops (Option ImageKey)
upload w none s = (ok none, s)
upload w (some mimetype) s =
    let key : ImageKey = record {
      movement_id = w.movement_id;
      uuid = w.image_uuid;
      mimetype = mimetype;
    } in
    if w.upload_fails
    then (err upload_failed, s)
    else (ok (some key), record s { objects = key ∷ s.objects })

-- The compensation: a failure to delete is logged.
abbrev pub delete_image : Bool → Option ImageKey → Ops → Ops
delete_image delete_fails none s = s
delete_image delete_fails (some key) s =
    if delete_fails then s else record s { objects = filter (λ k. not (same_key k key)) s.objects }

abbrev pub compensated : Bool → Option ImageKey → Result Movement × Ops → Result Movement × Ops
compensated delete_fails key (ok m, s) = (ok m, s)
compensated delete_fails key (err e, s) = (err e, delete_image delete_fails key s)

abbrev pub insert : Bool → Movement → M Ops Movement
unfolding create
insert insert_fails m s = if insert_fails then (err database_error, s) else create m s

unfoldable pub persist :
    CreateWorld
    → MovementCreateData
    → Option ImageKey
    → MovementOrigin
    → AircraftSnapshot
    → M Ops Movement
unfolding build_movement_create_input create
persist w dto image_key origin snapshot s = compensated w.delete_fails image_key (
    insert w.insert_fails (build_movement_create_input w.movement_id dto image_key origin snapshot)
      s)

abbrev pub created_event :
    Movement → MovementCreateData → MovementOrigin → Bool → MovementCreatedEvent
created_event created dto origin batched = record {
  movement_id = created.id;
  registration = dto.registration;
  aerodrome = dto.aerodrome;
  operation_type = or_default origin.operation_type MovementType.landing;
  source = origin.source;
  reading_datetime = dto.reading_datetime;
  batched = batched;
}

-- An event starts an evaluation.
abbrev pub emit : MovementCreatedEvent → Ops → Ops
emit e s = record s { running = s.running ++ Phase.started e ∷ [] }

abbrev pub signed : Bool → Option ImageKey → Option ImageKey
signed true key = key
signed false key = none

unfoldable pub canonical : (ℕ → Text) → MovementCreateData → MovementCreateData
unfolding normalize_marcas
canonical other dto = record dto { registration = normalize_marcas other dto.registration }

unfoldable pub execute :
    (ℕ → Text)
    → CreateWorld
    → MovementCreateData
    → MovementOrigin
    → Option String
    → Bool
    → M Ops CreateMovementResponse
unfolding resolve_operation_type persist find_latest_by_marcas canonical
    build_aircraft_snapshot_create_input
execute other w dto origin image batched = do
  assert_image_mimetype image
  let canonical_dto = canonical other dto
  require (not w.rab_lookup_fails) database_error
  rab_row ← gets (λ s. find_latest_by_marcas other s canonical_dto.registration)
  let snapshot = build_aircraft_snapshot_create_input rab_row
  resolved ← resolve_operation_type w.toggle_lookup_fails canonical_dto origin
  image_key ← upload w image
  created ← persist w canonical_dto image_key resolved snapshot
  modify (emit (created_event created canonical_dto resolved batched))
  pure (record {
    id = created.id;
    message = "Reading registered successfully";
    image_path = signed w.signs_url image_key;
  })
