-- ===== src/Movements/Store.antt =====
-- src/modules/movements/repositories/movement.repository.ts and
-- src/modules/conformity/repositories/operational-event.repository.ts: the queries.
use aerobi_api.Common.{
  Bool, true, false, ◌&&◌, List, [], ◌∷◌, ◌++◌, Option, none, some, String, str_eq, ℕ, ◌+◌,
  if◌then◌else◌, is_none, find, filter, any, ltb,
}
use aerobi_api.Common.Text.{Text, same_text, to_lower}
use aerobi_api.Common.Errors.{Result, ok, err}
use aerobi_api.Common.Effects.{M}
use aerobi_api.Accounts.{update_where, database_error}
use aerobi_api.Movements.{
  Movement, OperationalEvent, OperationalEventStatus, AircraftSnapshot, ConformityStatus, RabRow,
  Ops,
}

-- `where: { id, deletedAt: null }`.
abbrev pub is_active_movement : String → Movement → Bool
is_active_movement id m = str_eq m.id id && is_none m.deleted_at

unfoldable pub find_by_id : Ops → String → Option Movement
find_by_id s id = find (is_active_movement id) s.movements

-- The primary key refuses a second row with the same id.
unfoldable pub create : Movement → M Ops Movement
create m s =
    if any (λ q. str_eq q.id m.id) s.movements
    then (err database_error, s)
    else (ok m, record s { movements = s.movements ++ m ∷ [] })

-- An update of the active row; without one it throws.
abbrev pub update_movement : String → (Movement → Movement) → M Ops Movement
update_movement id f s = updated (find_by_id s id)
  where
    updated : Option Movement → Result Movement × Ops
    updated none = (err database_error, s)
    updated (some m) =
        (ok (f m), record s { movements = update_where (is_active_movement id) f s.movements })

abbrev pub removed : String → ℕ → Movement → Movement
removed deleted_by now m = record m {
  deleted_at = some now;
  deleted_by = some deleted_by;
  updated_by = some deleted_by;
}

unfoldable pub soft_delete : String → String → ℕ → M Ops Movement
soft_delete id deleted_by now = update_movement id (removed deleted_by now)

abbrev pub new_status : Option ConformityStatus → ConformityStatus → ConformityStatus
new_status none old = old
new_status (some new) old = new

abbrev pub corrected :
    Text → AircraftSnapshot → String → Option ConformityStatus → Movement → Movement
corrected registration snapshot updated_by status m = record m {
  registration = registration;
  aircraft_snapshot = snapshot;
  updated_by = some updated_by;
  conformity_status = new_status status m.conformity_status;
}

unfoldable pub update_registration :
    String → Text → AircraftSnapshot → String → Option ConformityStatus → M Ops Movement
update_registration id registration snapshot updated_by status =
    update_movement id (corrected registration snapshot updated_by status)

abbrev pub with_status : ConformityStatus → Movement → Movement
with_status status m = record m { conformity_status = status }

-- `updateMany`: a movement that was removed stays as it is.
unfoldable pub update_conformity_status : String → ConformityStatus → Ops → Ops
update_conformity_status id status s = record s {
  movements = update_where (is_active_movement id) (with_status status) s.movements;
}

abbrev pub toggle_window_ms : ℕ
toggle_window_ms = 172800000

abbrev pub at_aerodrome : Option Text → Movement → Bool
at_aerodrome none m = true
at_aerodrome (some a) m = is_there a m.aerodrome
  where
    is_there : Text → Option Text → Bool
    is_there a none = false
    is_there a (some b) = same_text b a

abbrev pub is_within_48h : Text → Option Text → ℕ → Movement → Bool
is_within_48h registration aerodrome reference m =
    is_none m.deleted_at
    && (same_text m.registration registration
        && (ltb reference (m.reading_datetime + toggle_window_ms)
            && (ltb m.reading_datetime reference && at_aerodrome aerodrome m)))

-- The later of a row and the best so far; of two at the same time the first one.
abbrev pub later : Movement → Option Movement → Option Movement
later m none = some m
later m (some n) = if ltb m.reading_datetime n.reading_datetime then some n else some m

-- `findFirst` in descending order of the time of reading.
abbrev pub newest : List Movement → Option Movement
newest [] = none
newest (m ∷ ms) = later m (newest ms)

unfoldable pub find_last_by_registration_within_48h : Ops → Text → Option Text → ℕ → Option Movement
find_last_by_registration_within_48h s registration aerodrome reference =
    newest (filter (is_within_48h registration aerodrome reference) s.movements)

-- Equal without regard to case.
unfoldable pub find_latest_by_marcas : (ℕ → Text) → Ops → Text → Option RabRow
find_latest_by_marcas other s marcas =
    find (λ r. same_text (to_lower other r.marcas) (to_lower other marcas)) s.rab_rows

abbrev pub is_open_status : OperationalEventStatus → Bool
is_open_status OperationalEventStatus.resolved = false
is_open_status _ = true

abbrev pub concerns : String → OperationalEvent → Bool
concerns movement_id e = is_it e.movement_id
  where
    is_it : Option String → Bool
    is_it none = false
    is_it (some id) = str_eq id movement_id

-- The active events of a movement that wait for an answer. Only whether there is one is asked for.
abbrev pub is_open_of : String → OperationalEvent → Bool
is_open_of movement_id e =
    concerns movement_id e && (is_open_status e.status && is_none e.deleted_at)

unfoldable pub find_open_by_movement : Ops → String → Option OperationalEvent
find_open_by_movement s movement_id = find (is_open_of movement_id) s.operational_events

abbrev pub as_resolved : OperationalEvent → OperationalEvent
as_resolved e = record e { status = OperationalEventStatus.resolved }

unfoldable pub resolve_open_by_movement : String → Ops → Ops
resolve_open_by_movement movement_id s = record s {
  operational_events = update_where (is_open_of movement_id) as_resolved s.operational_events;
}

-- A new row is open; the database draws its id and the time of detection.
unfoldable pub create_operational_event : String → Text → String → ℕ → ℕ → Ops → Ops
create_operational_event id aerodrome movement_id occurred_at now s = record s {
  operational_events =
      s.operational_events
      ++ record {
        id = id;
        status = OperationalEventStatus.open';
        aerodrome = aerodrome;
        movement_id = some movement_id;
        occurred_at = occurred_at;
        detected_at = now;
        notified_at = none;
        deleted_at = none;
      }
        ∷ [];
}
