-- ===== src/Conformity/Evaluate.antt =====
-- src/modules/conformity/listeners/conformity.listener.ts and
-- src/modules/movements/listeners/movement-conformity.listener.ts: the evaluation of a movement, one
-- query at a time. A query that fails ends the evaluation: the error is logged.
use aerobi_api.Common.{
  Bool, List, [], ◌∷◌, ◌++◌, Option, none, some, String, ℕ, if◌then◌else◌, is_none,
}
use aerobi_api.Common.Text.{Text}
use aerobi_api.Movements.{
  Ops, Phase, MovementCreatedEvent, MovementNonConformityEvent, MovementType, ConformityStatus,
}
use aerobi_api.Movements.Store.{
  find_open_by_movement, resolve_open_by_movement, create_operational_event,
  update_conformity_status,
}
use aerobi_api.Conformity.Directory.{find_approved_landing_request_match}

-- What the outside brings to one query: whether it fails, the id that the database draws, the clock.
pub record Tick : Type 0 where
  pub fails : Bool
  pub new_id : String
  pub now : ℕ

-- The answer of the search for an approved request.
abbrev pub after_search : MovementCreatedEvent → Text → Bool → Phase
after_search e aerodrome none_found =
    if none_found then Phase.unmatched e aerodrome else Phase.matched e

abbrev pub after_lookup : MovementCreatedEvent → Text → Bool → Phase
after_lookup e aerodrome none_open =
    if none_open
    then Phase.missing e aerodrome
    else Phase.resolving e.movement_id ConformityStatus.non_conformant

abbrev pub non_conformity : String → MovementCreatedEvent → Text → MovementNonConformityEvent
non_conformity id e aerodrome = record {
  operational_event_id = id;
  movement_id = e.movement_id;
  registration = e.registration;
  aerodrome = aerodrome;
  occurred_at = e.reading_datetime;
}

abbrev pub notify : MovementNonConformityEvent → Ops → Ops
notify n s = record s { non_conformities = s.non_conformities ++ n ∷ [] }

module _ (other : ℕ → Text) (window_ms : ℕ) where
  -- The filter on landings at a known aerodrome, and the search for an approved request.
  abbrev pub start : MovementCreatedEvent → MovementType → Option Text → Ops → Phase
  unfolding find_approved_landing_request_match
  start e MovementType.takeoff aerodrome s = Phase.done
  start e MovementType.landing none s = Phase.done
  start e MovementType.landing (some aerodrome) s = after_search e aerodrome (
      is_none (
        find_approved_landing_request_match other s.landing_requests e.registration aerodrome
          e.reading_datetime window_ms))

  -- One query of an evaluation that does not fail.
  unfoldable pub advance : Tick → Phase → Ops → Phase × Ops
  unfolding find_open_by_movement resolve_open_by_movement create_operational_event
      update_conformity_status
  advance t (Phase.started e) s = (start e e.operation_type e.aerodrome s, s)
  advance t (Phase.matched e) s = (
    Phase.resolving e.movement_id ConformityStatus.conformant,
    resolve_open_by_movement e.movement_id s,
  )
  advance t (Phase.unmatched e aerodrome) s =
      (after_lookup e aerodrome (is_none (find_open_by_movement s e.movement_id)), s)
  advance t (Phase.missing e aerodrome) s = (
    Phase.resolving e.movement_id ConformityStatus.non_conformant,
    notify (non_conformity t.new_id e aerodrome)
        (create_operational_event t.new_id aerodrome e.movement_id e.reading_datetime t.now s),
  )
  advance t (Phase.resolving id status) s = (Phase.done, update_conformity_status id status s)
  advance t Phase.done s = (Phase.done, s)

  unfoldable pub step : Tick → Phase → Ops → Phase × Ops
  unfolding advance
  step t phase s = if t.fails then (Phase.done, s) else advance t phase s

  -- An evaluation that nothing interrupts: at most four queries.
  unfoldable pub run : List Tick → Phase → Ops → Phase × Ops
  unfolding step
  run [] phase s = (phase, s)
  run (t ∷ ts) phase s = let (next, s') = step t phase s in run ts next s'
