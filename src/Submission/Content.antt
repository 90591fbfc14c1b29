-- ===== src/Submission/Content.antt =====
-- What a submission that succeeds stores and tells, apart from the code that builds it.
use aerobi_api.Common.{
  ◌≡◌, refl, ap, ◌∙◌, inl, inr, Bool, true, false, List, [], ◌∷◌, ◌++◌, Option, none, some, String,
  ℕ, In,
}
use aerobi_api.Common.Text.{Text}
use aerobi_api.Common.Errors.{Result, ok, err}
use aerobi_api.Landing.Store.{LandingRequest, LandingRequestStatus, LandingDb, AuditEntry}
use aerobi_api.Landing.Decide.{record_audit}
use aerobi_api.Submission.Form.{CreateLandingRequestDto, build_landing_request_create_input}
use aerobi_api.Submission.Aircraft.{RabRow, build_aircraft_create_data}
use aerobi_api.Submission.Prepare.{StaffRow, Site, SubmissionWorld, Prepared}
use aerobi_api.Submission.Fit.{IsFit}
use aerobi_api.Submission.{
  SubmissionDb, LandingRequestAircraft, CreateLandingRequestResponse, with_snapshot, snapshot_of,
  creation_entry, submit,
}
use aerobi_api.Submission.Laws.{new_request, Outcome, submit-Outcome}
use aerobi_api.Submission.Letters.{includes, IsStaff, told-frame, told-letter}

abbrev pub IsSnapshot : String → Option RabRow → SubmissionDb → SubmissionDb → Type 0
IsSnapshot id none s t = t.aircraft ≡ s.aircraft
IsSnapshot id (some row) s t =
    (a : LandingRequestAircraft) × (t.aircraft ≡ s.aircraft ++ a ∷ [])
    × (a.landing_request_id ≡ id)
    × (a.columns.marcas ≡ row.marcas)
    × (a.columns.period ≡ row.period)
    × (a.columns.ds_modelo ≡ row.ds_modelo)

module _ (trim_address : String → String) (other : ℕ → Text) (anac : Text → String → Option Bool)
    (w : SubmissionWorld) (site : Site) (dto : CreateLandingRequestDto) where
  -- The row says what the form says, is pending, and belongs to the aerodrome.
  abbrev pub IsFiled : Prepared → LandingRequest → Type 0
  IsFiled p q =
      (q.id ≡ w.id)
      × (q.status ≡ LandingRequestStatus.pending)
      × (q.request_date ≡ w.now)
      × (q.aerodrome_id ≡ p.target.id)
      × (q.uf ≡ some p.target.uf)
      × (q.email ≡ some dto.email)
      × (q.aircraft_registration ≡ some p.registration)
      × (q.pilot_name ≡ some dto.pilot_name)
      × (q.pilot_cpf ≡ some dto.pilot_cpf)
      × (q.pilot_code ≡ some dto.anac_pilot_code)
      × (q.departure_at ≡ some dto.departure_at)
      × (q.landing_at ≡ some dto.landing_at)
      × (q.exit_after_landing_at ≡ some dto.exit_after_landing_at)
      × (q.reviewed_at ≡ none)
      × (q.deleted_at ≡ none)

  -- Whoever is on the staff of the group is among the addressees of one letter about the request.
  abbrev pub IsTold : Prepared → SubmissionDb → SubmissionDb → Type 0
  IsTold p s t =
      (u : StaffRow)
      → w.staff_lookup_fails ≡ false
      → w.staff_sent ≡ true
      → In u site.staff
      → IsStaff trim_address p.target.group_id u
      → (es : List String) × (t.staff_letters ≡ s.staff_letters ++ (es, w.id) ∷ [])
        × (includes (trim_address u.email) es ≡ true)

  abbrev pub Content : SubmissionDb → Result CreateLandingRequestResponse × SubmissionDb → Type 0
  Content s (err e, t) = t.receipts ≡ s.receipts
  Content s (ok r, t) =
      (p : Prepared) × (q : LandingRequest) × IsFit other anac site dto w.now p
      × (t.landing.requests ≡ s.landing.requests ++ q ∷ [])
      × IsFiled p q
      × IsSnapshot w.id p.rab_row s t
      × (t.receipts ≡ s.receipts ++ (dto.email, w.id) ∷ [])
      × IsTold p s t

  -- The rows that an audit entry stands beside.
  audited-requests :
      (b : Bool) (e : AuditEntry) (landing : LandingDb)
      → (record_audit b e landing).requests ≡ landing.requests
  audited-requests true e landing = refl
  audited-requests false e landing = refl

  aircraft-lem :
      (row : Option RabRow) (s t : SubmissionDb)
      → t.aircraft ≡ with_snapshot w.id (snapshot_of row) s.aircraft
      → IsSnapshot w.id row s t
  unfolding build_aircraft_create_data
  aircraft-lem none s t e = e
  aircraft-lem (some row) s t e = (
    record { landing_request_id = w.id; columns = build_aircraft_create_data row },
    e,
    refl,
    refl,
    refl,
    refl,
  )

  filed : (p : Prepared) → IsFiled p (new_request trim_address other anac w site dto p)
  unfolding new_request build_landing_request_create_input
  filed p =
      (refl, refl, refl, refl, refl, refl, refl, refl, refl, refl, refl, refl, refl, refl, refl)

  -- The tables before the letter to the staff.
  abbrev before : Prepared → SubmissionDb → SubmissionDb
  before p s =
      let q = new_request trim_address other anac w site dto p in
      record s {
        landing =
            record_audit w.audited (creation_entry q)
              (record s.landing { requests = s.landing.requests ++ q ∷ [] });
        aircraft = with_snapshot w.id (snapshot_of p.rab_row) s.aircraft;
        receipts = s.receipts ++ (dto.email, w.id) ∷ [];
      }

  stored-lem :
      (s : SubmissionDb) (r : Result CreateLandingRequestResponse × SubmissionDb)
      → Outcome trim_address other anac w site dto s r
      → Content s r
  unfolding Outcome
  stored-lem s (err e, t) (inl same) = ap (λ x. x.receipts) same
  stored-lem s (err e, t) (inr (lost, said, (p, fit, fresh, same))) = ap (λ x. x.receipts) same
  stored-lem s (ok r, t) (sent, (p, fit, fresh, said, same)) =
      let q = new_request trim_address other anac w site dto p in
      let b = before p s in
      let frame : record t { staff_letters = s.staff_letters } ≡ b =
        ap {A = SubmissionDb} (λ x. record x { staff_letters = s.staff_letters }) same
        ∙ told-frame trim_address w site.staff q p.target b in
      let letters = ap (λ x. x.staff_letters) same in
      (
        p,
        q,
        fit,
        ap (λ x. x.landing.requests) frame ∙ audited-requests w.audited (creation_entry q) _,
        filed p,
        aircraft-lem p.rab_row s t (ap (λ x. x.aircraft) frame),
        ap (λ x. x.receipts) frame,
        λ u works sends i h.
            let (es, one, there) =
              told-letter trim_address w site.staff q p.target b u works sends i h in
            (es, letters ∙ one ∙ ap (λ i. s.staff_letters ++ (es, i) ∷ []) (filed p).0, there),
      )

  -- A submission has three outcomes. It throws and changes nothing. Or all checks pass and its rows
  -- are stored, but the receipt is not sent: it throws, the row is withdrawn unless that fails, and
  -- there is neither an audit entry nor a letter. Or the receipt is sent: the aerodrome is open, the
  -- schedule, the registration and the licence are good, the aircraft is known or foreign, and the
  -- row, its snapshot, the audit entry and the receipt are stored. The row is pending and says what
  -- the form says, with the accepted registration; a known aircraft has its snapshot; the receipt
  -- goes to the address of the form; and if the staff can be looked up and the letter is sent,
  -- everybody on the staff of the group who has an address is among those that one letter goes to.
  pub submit-Content :
      (s : SubmissionDb)
      → let r = submit trim_address other anac w site dto s in
        Outcome trim_address other anac w site dto s r × Content s r
  submit-Content s =
      let out = submit-Outcome trim_address other anac w site dto s in
      (out, stored-lem s (submit trim_address other anac w site dto s) out)
