-- ===== src/Submission/Laws.antt =====
-- What a submission leaves behind, on each of its branches.
use aerobi_api.Common.{
  ◌≡◌, ◌⊎◌, refl, inl, inr, Bool, true, false, List, [], ◌∷◌, ◌++◌, Option, none, some, String,
  str_eq, eq_iff, eq_refl, ℕ, arith, any, find, if◌then◌else◌, Bool-cases,
}
use aerobi_api.Common.Text.{Text, trim, to_upper}
use aerobi_api.Common.Errors.{Result, ok, err, Result-cases}
use aerobi_api.Landing.Store.{
  LandingRequest, LandingDb, is_active_row, update_rows, removed, soft_delete, insert_request,
}
use aerobi_api.Landing.Decide.{record_audit}
use aerobi_api.Submission.Form.{
  CreateLandingRequestDto, receipt_failed, build_landing_request_create_input,
}
use aerobi_api.Submission.Aircraft.{build_aircraft_create_data}
use aerobi_api.Submission.Prepare.{Site, SubmissionWorld, Prepared, is_foreign, prepare}
use aerobi_api.Submission.Fit.{IsFit, prepare-IsFit}
use aerobi_api.Submission.{
  SubmissionDb, CreateLandingRequestResponse, submit, create_with_aircraft, snapshot_of,
  with_snapshot, has_snapshot, notify_staff, creation_entry, compensate_failed_receipt,
}

-- No row has the id.
abbrev pub IsFresh : String → List LandingRequest → Type 0
IsFresh id rows = any (λ q. str_eq q.id id) rows ≡ false

pub find-append :
    (id : String) (rows : List LandingRequest) (r : LandingRequest)
    → IsFresh r.id rows
    → str_eq r.id id ≡ true
    → find (is_active_row id) (rows ++ r ∷ []) ≡ (if is_active_row id r then some r else none)
find-append id [] r h e = refl
find-append id (q ∷ rows) r h e =
    ground (arith, eq_iff r.id id, eq_iff q.id id, eq_iff q.id r.id, find-append id rows r)

-- Only a row of the same id is hidden or found.
pub find-append_other :
    (id : String) (rows : List LandingRequest) (r : LandingRequest)
    → is_active_row id r ≡ false
    → find (is_active_row id) (rows ++ r ∷ []) ≡ find (is_active_row id) rows
find-append_other id [] r h = ground arith
find-append_other id (q ∷ rows) r h = ground (arith, find-append_other id rows r)

update-append :
    (id : String) (f : LandingRequest → LandingRequest) (rows : List LandingRequest)
    (r : LandingRequest)
    → IsFresh id rows
    → is_active_row id r ≡ true
    → update_rows (is_active_row id) f (rows ++ r ∷ []) ≡ rows ++ f r ∷ []
update-append id f [] r h e = ground arith
update-append id f (q ∷ rows) r h e = ground (arith, update-append id f rows r)

module _ (trim_address : String → String) (other : ℕ → Text) (anac : Text → String → Option Bool)
    (w : SubmissionWorld) (site : Site) (dto : CreateLandingRequestDto) where
  unfoldable pub new_request : Prepared → LandingRequest
  unfolding build_landing_request_create_input
  new_request p =
      build_landing_request_create_input w.id dto w.now p.registration (is_foreign dto)
        (to_upper other (trim p.target.icao)) p.target

  -- The row that is left of a request whose receipt could not be sent.
  abbrev pub withdrawn : Prepared → LandingRequest
  withdrawn p =
      if w.compensation_fails
      then new_request p
      else removed "system" w.compensated_at (new_request p)

  unfoldable pub Outcome :
      SubmissionDb → Result CreateLandingRequestResponse × SubmissionDb → Type 0
  unfolding build_aircraft_create_data notify_staff
  Outcome s (err e, t) =
      (t ≡ s)
      ⊎ ((w.receipt_sent ≡ false)
          × (e ≡ receipt_failed dto.email)
          × ((p : Prepared) × IsFit other anac site dto w.now p
              × IsFresh w.id s.landing.requests
              × (t ≡ record s {
                landing = record s.landing { requests = s.landing.requests ++ withdrawn p ∷ [] };
                aircraft = with_snapshot w.id (snapshot_of p.rab_row) s.aircraft;
              })))
  Outcome s (ok r, t) =
      (w.receipt_sent ≡ true)
      × ((p : Prepared) × IsFit other anac site dto w.now p
          × IsFresh w.id s.landing.requests
          × (r ≡ record { id = w.id; uf = some p.target.uf })
          × (t
              ≡ notify_staff trim_address w site.staff (new_request p) p.target (record s {
                landing =
                    record_audit w.audited (creation_entry (new_request p))
                      (record s.landing { requests = s.landing.requests ++ new_request p ∷ [] });
                aircraft = with_snapshot w.id (snapshot_of p.rab_row) s.aircraft;
                receipts = s.receipts ++ (dto.email, w.id) ∷ [];
              })))

  removed-lem :
      (p : Prepared) (landing : LandingDb)
      → IsFresh w.id landing.requests
      → (soft_delete w.id "system" w.compensated_at
          (record landing { requests = landing.requests ++ new_request p ∷ [] })).1
        ≡ record landing {
          requests = landing.requests ++ removed "system" w.compensated_at (new_request p) ∷ [];
        }
  unfolding soft_delete new_request
  removed-lem p landing fresh =
      rw (find-append w.id landing.requests (new_request p) fresh (eq_refl w.id)) (
        rw (eq_refl w.id) (
          rw
            (update-append w.id (removed "system" w.compensated_at) landing.requests (new_request p)
              fresh (rw (eq_refl w.id) refl))
            refl))

  submitted-Outcome :
      (p : Prepared) (s : SubmissionDb)
      → IsFit other anac site dto w.now p
      → prepare other anac w site dto ≡ ok p
      → Outcome s (submit trim_address other anac w site dto s)
  unfolding submit create_with_aircraft insert_request Outcome new_request compensate_failed_receipt
  submitted-Outcome p s fit checked = elim (Bool-cases w.insert_fails) [
    | inl fails ↦ rw (checked, fails) (inl refl)
    | inr works ↦ elim (Bool-cases (any (λ q. str_eq q.id w.id) s.landing.requests)) [
      | inl taken ↦ rw (checked, works, taken) (inl refl)
      | inr free ↦ elim (Bool-cases (has_snapshot w.id (snapshot_of p.rab_row) s.aircraft)) [
        | inl double ↦ rw (checked, works, free, double) (inl refl)
        | inr single ↦ elim (Bool-cases w.receipt_sent) [
          | inl sent ↦ rw (checked, works, free, single, sent) (sent, (p, fit, free, refl, refl))
          | inr lost ↦ elim (Bool-cases w.compensation_fails) [
            | inl stays ↦
                rw (checked, works, free, single, lost, stays)
                  (inr (lost, refl, (p, fit, free, refl)))
            | inr goes ↦
                rw (checked, works, free, single, lost, goes)
                  (rw (removed-lem p s.landing free) (inr (lost, refl, (p, fit, free, refl))))
          ]
        ]
      ]
    ]
  ]

  -- A submission has three outcomes. It throws and changes nothing. Or all checks pass and its rows
  -- are stored, but the receipt is not sent: it throws, the row is withdrawn unless that fails, and
  -- there is neither an audit entry nor a letter. Or the receipt is sent: the aerodrome is open, the
  -- schedule, the registration and the licence are good, the aircraft is known or foreign, and the
  -- pending row, its snapshot, the audit entry, the receipt and the letter to the staff are what
  -- they should be.
  pub submit-Outcome : (s : SubmissionDb) → Outcome s (submit trim_address other anac w site dto s)
  unfolding submit Outcome
  submit-Outcome s = elim (Result-cases (prepare other anac w site dto)) [
    | inl (p, checked) ↦ submitted-Outcome p s (prepare-IsFit other anac site dto w checked) checked
    | inr (e, refused) ↦ rw refused (inl refl)
  ]
