-- ===== src/Conformity/Tests.antt =====
-- A landing that a camera reads, an approved request, and the evaluations between them.
use aerobi_api.Common.{◌≡◌, refl, subst, true, false, List, [], ◌∷◌, none, some, String, arith}
use aerobi_api.Common.Text.{Text, codes}
use aerobi_api.Landing.Store.{LandingRequest, LandingRequestStatus}
use aerobi_api.Registrations.{
  normalize_marcas, resolve_aircraft_registration, normalized, starts_without_p,
}
use aerobi_api.Registrations.Tests.{ascii_only, ascii_only-UpperCase, accepted_test}
use aerobi_api.Movements.{
  Ops, Movement, MovementType, MovementSource, ConformityStatus, MovementCreatedEvent, Phase,
  build_aircraft_snapshot_create_input,
}
use aerobi_api.Conformity.Directory.{find_approved_landing_request_match}
use aerobi_api.Conformity.Directory.Laws.{Found, find_match-Found}
use aerobi_api.Conformity.Evaluate.{Tick, run}
use aerobi_api.Conformity.Invariant.{IsSound}
use aerobi_api.Conformity.Histories.{happens, query, rest, next, history-IsSound}
use aerobi_api.Conformity.Serial.{Ended, run-Ended}
use aerobi_api.Conformity.Verdict.{Verdict, match_in, run-Verdict}
use aerobi_api.Conformity.Duplicates.{
  OneOpen, open_count, evaluations, evaluations-OneOpen, race-two_open,
}
use aerobi_api.Conformity.Mismatch.{HasBrazilianMark, brazilian-unmatched}

abbrev sample_request : Text → LandingRequest
sample_request registration = record {
  id = "lr1";
  aerodrome_id = "a1";
  status = LandingRequestStatus.approved;
  request_date = 1000;
  email = none;
  pilot_code = none;
  aircraft_model = none;
  aircraft_registration = some registration;
  departure_aerodrome = none;
  observation = none;
  pilot_name = none;
  pilot_cpf = none;
  phone_contact = none;
  requester_name = none;
  people_on_board = none;
  accepted_terms = none;
  confirmed_true = none;
  foreign_registration = some false;
  next_destination_aerodrome = none;
  icao = some (codes "SSCF");
  uf = none;
  departure_at = none;
  landing_at = none;
  exit_after_landing_at = none;
  reviewed_at = none;
  reviewed_by = none;
  created_by = none;
  updated_by = none;
  deleted_at = none;
  deleted_by = none;
}

abbrev sample_requests : List LandingRequest
sample_requests = sample_request (codes "PT-KOB") ∷ []

abbrev sample_event : MovementCreatedEvent
sample_event = record {
  movement_id = "m1";
  registration = codes "PTKOB";
  aerodrome = some (codes "SSCF");
  operation_type = MovementType.landing;
  source = MovementSource.automatic;
  reading_datetime = 1500;
  batched = false;
}

abbrev sample_movement : Movement
sample_movement = record {
  id = "m1";
  registration = codes "PTKOB";
  confidence = none;
  reading_datetime = 1500;
  operation_type = MovementType.landing;
  source = MovementSource.automatic;
  reading_status = none;
  revisor_id = none;
  image_key = none;
  comments = none;
  aerodrome = some (codes "SSCF");
  conformity_status = ConformityStatus.pending;
  aircraft_snapshot = build_aircraft_snapshot_create_input none;
  created_by = some "aviascan";
  updated_by = none;
  deleted_at = none;
  deleted_by = none;
}

abbrev sample_ops : List Phase → Ops
sample_ops running = record {
  movements = sample_movement ∷ [];
  operational_events = [];
  landing_requests = sample_requests;
  rab_rows = [];
  objects = [];
  running = running;
  non_conformities = [];
}

abbrev tick : String → Tick
tick id = record { fails = false; new_id = id; now = 2000 }

abbrev four_ticks : List Tick
four_ticks = tick "e1" ∷ tick "e2" ∷ tick "e3" ∷ tick "e4" ∷ []

found_example : Found ascii_only sample_requests (codes "PT-KOB") (codes "SSCF") 1500 86400000 (
    find_approved_landing_request_match ascii_only sample_requests
      (codes "PT-KOB")
      (codes "SSCF")
      1500
      86400000)
found_example =
    find_match-Found ascii_only sample_requests (codes "PT-KOB") (codes "SSCF") 1500 86400000

brazilian_request : HasBrazilianMark ascii_only (sample_request (codes "PT-KOB"))
brazilian_request t e =
    subst
      (λ t.
        (raw : Text) × (resolve_aircraft_registration ascii_only raw false ≡ normalized t)
        × (starts_without_p t ≡ false))
      same (codes " pt kob", accepted_test, refl)
  where
    same : codes "PT-KOB" ≡ t
    same = cc e

unmatched_example :
    find_approved_landing_request_match ascii_only sample_requests
      (normalize_marcas ascii_only (codes "PT-KOB"))
      (codes "SSCF")
      1500
      86400000
    ≡ none
unmatched_example =
    brazilian-unmatched ascii_only ascii_only-UpperCase sample_requests (codes "PT-KOB")
      (codes "SSCF") 1500 86400000 (brazilian_request, tt)

-- The last query, which marks the movement, fails.
abbrev unlucky : List Tick
unlucky =
    tick "e1" ∷ tick "e2" ∷ tick "e3" ∷ record { fails = true; new_id = "e4"; now = 2000 } ∷ []

interrupted_example :
    let r = run ascii_only 86400000 unlucky (Phase.started sample_event) (sample_ops []) in
    (r.0 ≡ Phase.done) × Ended ascii_only 86400000 sample_event (sample_ops []) r.1
interrupted_example =
    run-Ended ascii_only 86400000 sample_event unlucky (sample_ops []) (omega arith)

evaluation_example :
    Verdict ascii_only 86400000 sample_event
      (codes "SSCF")
      (match_in ascii_only 86400000 sample_event (codes "SSCF") (sample_ops []))
      (run ascii_only 86400000 four_ticks (Phase.started sample_event) (sample_ops [])).1
evaluation_example =
    run-Verdict ascii_only 86400000 sample_event (codes "SSCF") (tick "e1") (tick "e2") (tick "e3")
      (tick "e4") (sample_ops []) refl refl refl refl refl refl

one_example : OneOpen (
    evaluations ascii_only 86400000
      ((sample_event, four_ticks) ∷ (sample_event, four_ticks) ∷ [])
      (sample_ops []))
one_example =
    evaluations-OneOpen ascii_only 86400000
      ((sample_event, four_ticks) ∷ (sample_event, four_ticks) ∷ []) (sample_ops [])
      (λ id. omega arith)

abbrev two_unmatched : List Phase
two_unmatched =
    Phase.unmatched sample_event (codes "SSCF") ∷ Phase.unmatched sample_event (codes "SSCF") ∷ []

two_records_example :
    open_count
      (happens ascii_only 86400000 (query 1 (tick "e4")) (
        happens ascii_only 86400000 (query 0 (tick "e3")) (
          happens ascii_only 86400000
            (query 1 (tick "e2"))
            (happens ascii_only 86400000 (query 0 (tick "e1")) (sample_ops two_unmatched)))))
      "m1"
    ≡ 2
two_records_example =
    race-two_open ascii_only 86400000 (sample_ops two_unmatched) sample_event sample_event
      (codes "SSCF") (codes "SSCF") (tick "e1") (tick "e2") (tick "e3") (tick "e4") refl refl refl
      refl refl refl refl

-- The first evaluation ends, and marks the movement, while the second still waits to create.
abbrev interleaved : Ops
interleaved = happens ascii_only 86400000 (query 0 (tick "e4")) (
    happens ascii_only 86400000 (query 0 (tick "e3")) (
      happens ascii_only 86400000 (query 1 (tick "e2"))
        (happens ascii_only 86400000 (query 0 (tick "e1")) (sample_ops two_unmatched))))

records_example : IsSound interleaved
records_example =
    history-IsSound ascii_only 86400000 {s = sample_ops two_unmatched} {t = interleaved}
      (next (query 0 (tick "e1"))
        (next (query 1 (tick "e2")) (next (query 0 (tick "e3")) (next (query 0 (tick "e4")) rest))))
      (((λ h. h), tt), (tt, (tt, tt)))
