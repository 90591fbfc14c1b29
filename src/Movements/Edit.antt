-- ===== src/Movements/Edit.antt =====
-- src/modules/movements/services: movement-scope, find-movement-by-id, update-movement and
-- remove-movement. `ActorScope` is what the tables of users and aerodromes say of the actor.
use aerobi_api.Common.{
  Bool, true, false, not, ◌&&◌, List, [], Option, none, some, String, str_eq, ℕ, any, map, filter,
  if◌then◌else◌, is_none,
}
use aerobi_api.Common.Text.{Text, same_text}
use aerobi_api.Common.Errors.{HttpError, Result, ok, err, resource_not_found_error}
use aerobi_api.Common.Effects.{M, ◌>>=◌, ◌>>◌, pure, gets, modify, lift, require, or_throw}
use aerobi_api.Accounts.{database_error}
use aerobi_api.Authz.Guards.{AuthenticatedUser}
use aerobi_api.Authz.Scope.{UserGroupScope, ActorGroupLookup, resolve_actor_group_scope}
use aerobi_api.Registrations.{normalize_marcas}
use aerobi_api.Movements.{
  Ops, Movement, MovementCreatedEvent, ConformityStatus, is_conformity_applicable,
  build_aircraft_snapshot_create_input,
}
use aerobi_api.Movements.Store.{find_by_id, find_latest_by_marcas, update_registration, soft_delete}
use aerobi_api.Movements.Create.{emit}

-- An aerodrome, as the query of the ICAO codes of a group selects it.
pub record AerodromeRow : Type 0 where
  pub icao : Text
  pub group_id : String
  pub deleted_at : Option ℕ

pub record Tables : Type 0 where
  pub actors : ActorGroupLookup
  pub aerodromes : List AerodromeRow

abbrev pub find_active_icaos_by_group : List AerodromeRow → String → List Text
find_active_icaos_by_group rows group_id =
    map (λ a. a.icao) (filter (λ a. str_eq a.group_id group_id && is_none a.deleted_at) rows)

-- `none` means no restriction, the empty list that nothing is visible.
abbrev pub icaos_of_scope : List AerodromeRow → UserGroupScope → Option (List Text)
icaos_of_scope rows UserGroupScope.all = none
icaos_of_scope rows UserGroupScope.none = some []
icaos_of_scope rows (UserGroupScope.group group_id) =
    some (find_active_icaos_by_group rows group_id)

abbrev on_scope : List AerodromeRow → Result UserGroupScope → Result (Option (List Text))
on_scope rows (ok scope) = ok (icaos_of_scope rows scope)
on_scope rows (err e) = err e

unfoldable pub resolve_scoped_icaos : Tables → AuthenticatedUser → Result (Option (List Text))
unfolding resolve_actor_group_scope
resolve_scoped_icaos t actor =
    on_scope t.aerodromes (resolve_actor_group_scope actor.role actor.id t.actors)

abbrev pub movement_not_found : String → HttpError
movement_not_found id = resource_not_found_error "Movimento" id

abbrev pub includes : List Text → Option Text → Bool
includes icaos none = false
includes icaos (some icao) = any (λ i. same_text i icao) icaos

abbrev pub movement_in_icaos : Option (List Text) → Option Text → Bool
movement_in_icaos none aerodrome = true
movement_in_icaos (some icaos) aerodrome = includes icaos aerodrome

abbrev on_icaos : Result (Option (List Text)) → Option Text → HttpError → Result (Unit {0})
on_icaos (err e) aerodrome denied = err e
on_icaos (ok icaos) aerodrome denied =
    if movement_in_icaos icaos aerodrome then ok tt else err denied

unfoldable pub assert_movement_in_scope :
    Tables → Option Text → String → AuthenticatedUser → Result (Unit {0})
unfolding resolve_scoped_icaos
assert_movement_in_scope t aerodrome movement_id actor =
    on_icaos (resolve_scoped_icaos t actor) aerodrome (movement_not_found movement_id)

-- The ICAO code is shown in the error as it came.
unfoldable pub assert_icao_in_scope : Tables → Text → String → AuthenticatedUser → Result (Unit {0})
unfolding resolve_scoped_icaos
assert_icao_in_scope t icao shown actor =
    on_icaos (resolve_scoped_icaos t actor) (some icao) (resource_not_found_error "Aeródromo" shown)

unfoldable pub find_movement_by_id : Tables → String → AuthenticatedUser → M Ops Movement
unfolding find_by_id assert_movement_in_scope
find_movement_by_id t id actor = do
  found ← gets (λ s. find_by_id s id)
  entity ← or_throw found (movement_not_found id)
  lift (assert_movement_in_scope t entity.aerodrome id actor)
  pure entity

abbrev pub conformity_requested : Movement → MovementCreatedEvent
conformity_requested m = record {
  movement_id = m.id;
  registration = m.registration;
  aerodrome = m.aerodrome;
  operation_type = m.operation_type;
  source = m.source;
  reading_datetime = m.reading_datetime;
  batched = false;
}

abbrev pub emit_if : Bool → MovementCreatedEvent → Ops → Ops
emit_if false e s = s
emit_if true e s = emit e s

-- A correction of the registration asks for a new evaluation if the rule applies.
abbrev pub should_reevaluate : Movement → Text → Bool
should_reevaluate m registration =
    not (same_text registration m.registration)
    && is_conformity_applicable m.operation_type m.aerodrome

abbrev pub reset_status : Bool → Option ConformityStatus
reset_status true = some ConformityStatus.pending
reset_status false = none

unfoldable pub update_movement :
    (ℕ → Text) → Tables → Bool → String → Text → AuthenticatedUser → M Ops Movement
unfolding find_by_id assert_movement_in_scope normalize_marcas find_latest_by_marcas
    build_aircraft_snapshot_create_input update_registration is_conformity_applicable
update_movement other t rab_lookup_fails id raw_registration actor = do
  found ← gets (λ s. find_by_id s id)
  existing ← or_throw found (movement_not_found id)
  lift (assert_movement_in_scope t existing.aerodrome id actor)
  let registration = normalize_marcas other raw_registration
  require (not rab_lookup_fails) database_error
  rab_row ← gets (λ s. find_latest_by_marcas other s registration)
  let snapshot = build_aircraft_snapshot_create_input rab_row
  let again = should_reevaluate existing registration
  updated ← update_registration id registration snapshot actor.id (reset_status again)
  modify (emit_if again (conformity_requested updated))
  pure updated

unfoldable pub remove_movement : Tables → String → AuthenticatedUser → ℕ → M Ops Movement
unfolding find_by_id assert_movement_in_scope soft_delete
remove_movement t id actor now = do
  found ← gets (λ s. find_by_id s id)
  existing ← or_throw found (movement_not_found id)
  lift (assert_movement_in_scope t existing.aerodrome id actor)
  soft_delete id actor.id now
