-- ===== src/Movements/Tests.antt =====
-- A reading that arrives from a camera, and its correction by a coordinator.
use aerobi_api.Common.{refl, true, false, [], ◌∷◌, none, some}
use aerobi_api.Common.Text.{codes}
use aerobi_api.Authz.Permissions.{UserRole}
use aerobi_api.Authz.Guards.{AuthenticatedUser}
use aerobi_api.Registrations.Tests.{ascii_only}
use aerobi_api.Movements.{
  Ops, Movement, MovementType, MovementSource, ConformityStatus,
  build_aircraft_snapshot_create_input,
}
use aerobi_api.Movements.Create.{CreateWorld, MovementCreateData, MovementOrigin, execute}
use aerobi_api.Movements.Edit.{Tables, update_movement}
use aerobi_api.Movements.Laws.{Outcome, execute-Outcome}
use aerobi_api.Movements.Correction.{Corrected, update_movement-Corrected}

abbrev landed : Movement
landed = record {
  id = "m1";
  registration = codes "PTKOB";
  confidence = none;
  reading_datetime = 1500;
  operation_type = MovementType.landing;
  source = MovementSource.automatic;
  reading_status = none;
  revisor_id = none;
  image_key = none;
  comments = none;
  aerodrome = some (codes "SSCF");
  conformity_status = ConformityStatus.pending;
  aircraft_snapshot = build_aircraft_snapshot_create_input none;
  created_by = some "aviascan";
  updated_by = none;
  deleted_at = none;
  deleted_by = none;
}

abbrev one_movement : Ops
one_movement = record {
  movements = landed ∷ [];
  operational_events = [];
  landing_requests = [];
  rab_rows = [];
  objects = [];
  running = [];
  non_conformities = [];
}

abbrev reading : MovementCreateData
reading = record {
  registration = codes "PT-KOB";
  reading_datetime = 2000;
  confidence = some "0.98";
  reading_status = none;
  revisor_id = none;
  comments = none;
  aerodrome = some (codes "SSCF");
}

abbrev camera : MovementOrigin
camera = record {
  source = MovementSource.automatic;
  created_by = some "aviascan";
  operation_type = none;
}

-- The database refuses the row after the image was stored.
abbrev broken_database : CreateWorld
broken_database = record {
  movement_id = "m2";
  image_uuid = "i2";
  rab_lookup_fails = false;
  toggle_lookup_fails = false;
  upload_fails = false;
  insert_fails = true;
  delete_fails = false;
  signs_url = true;
}

creation_example :
    Outcome ascii_only broken_database reading camera
      (some "image/png")
      false
      one_movement
      (execute ascii_only broken_database reading camera (some "image/png") false one_movement)
creation_example =
    execute-Outcome ascii_only broken_database reading camera (some "image/png") false one_movement
      refl refl

abbrev tables : Tables
tables = record {
  actors = λ id. some (record { group_id = some "g1" });
  aerodromes = record { icao = codes "SSCF"; group_id = "g1"; deleted_at = none } ∷ [];
}

abbrev coordinator : AuthenticatedUser
coordinator = record { id = "u1"; email = "c@aerobi.br"; role = UserRole.coordinator }

corrected_example :
    Corrected ascii_only tables "m1"
      (codes "PT-KOA")
      coordinator
      false
      one_movement
      (update_movement ascii_only tables false "m1" (codes "PT-KOA") coordinator one_movement)
corrected_example =
    update_movement-Corrected ascii_only tables "m1" (codes "PT-KOA") coordinator false one_movement
