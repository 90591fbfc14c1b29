-- ===== src/Landing/Tests.antt =====
-- A request to land, and two coordinators who answer it at the same time.
use aerobi_api.Common.{◌≡◌, ◌⊎◌, refl, true, false, List, [], ◌∷◌, none, some, ◌≤◌}
use aerobi_api.Common.Errors.{ok, err}
use aerobi_api.Landing.Store.{
  LandingRequest, LandingRequestStatus, LandingDb, Decision, is_pending, find_by_id, decided,
}
use aerobi_api.Landing.Decide.{BestEffort, decide, not_found, already_answered}
use aerobi_api.Landing.Once.{Statement, decides, removes, wins, wins-once}
use aerobi_api.Landing.Decisions.{decide-cases, Written, IsKeyed}

abbrev sample_request : LandingRequest
sample_request = record {
  id = "lr1";
  aerodrome_id = "sbaa";
  status = LandingRequestStatus.pending;
  request_date = 100;
  email = some "piloto@aerobi.br";
  pilot_code = none;
  aircraft_model = none;
  aircraft_registration = none;
  departure_aerodrome = none;
  observation = none;
  pilot_name = none;
  pilot_cpf = none;
  phone_contact = none;
  requester_name = none;
  people_on_board = some 2;
  accepted_terms = some true;
  confirmed_true = some true;
  foreign_registration = some false;
  next_destination_aerodrome = none;
  icao = none;
  uf = some "AC";
  departure_at = some 1000;
  landing_at = some 10900000;
  exit_after_landing_at = some 10900001;
  reviewed_at = none;
  reviewed_by = none;
  created_by = some "public";
  updated_by = none;
  deleted_at = none;
  deleted_by = none;
}

abbrev sample_db : LandingDb
sample_db = record { requests = sample_request ∷ []; audit_log = []; decided_emails = [] }

abbrev approval : Decision
approval = record {
  decision = LandingRequestStatus.approved;
  observation = none;
  reviewed_by = "ana";
  reviewed_at = 200;
}

abbrev refusal : Decision
refusal = record {
  decision = LandingRequestStatus.rejected;
  observation = none;
  reviewed_by = "rui";
  reviewed_at = 201;
}

abbrev all_well : BestEffort
all_well = record { audited = true; mailed = true }

abbrev both_answer : List Statement
both_answer = decides "lr1" approval ∷ decides "lr1" refusal ∷ removes "lr1" "eva" 300 ∷ []

once_example : wins "lr1" both_answer sample_db ≤ 1
once_example = wins-once "lr1" both_answer sample_db refl

sample-IsKeyed : IsKeyed sample_db.requests
sample-IsKeyed = (refl, tt)

decide_example :
    ((find_by_id sample_db "lr1" ≡ none)
      × (decide all_well "lr1" approval sample_db ≡ (err (not_found "lr1"), sample_db)))
    ⊎ ((r : LandingRequest) × (find_by_id sample_db "lr1" ≡ some r)
        × (((is_pending r.status ≡ false)
              × (decide all_well "lr1" approval sample_db ≡ (err already_answered, sample_db)))
            ⊎ ((is_pending r.status ≡ true)
                × ((decide all_well "lr1" approval sample_db).0 ≡ ok (decided approval r))
                × Written "lr1" approval all_well sample_db
                    (decide all_well "lr1" approval sample_db).1
                    r)))
decide_example = decide-cases "lr1" approval all_well sample_db sample-IsKeyed
