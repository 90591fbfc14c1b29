-- ===== src/Submission/Seen.antt =====
-- What others see of a submission: nothing of one that throws, and one that succeeds can be decided.
use aerobi_api.Common.{
  ◌≡◌, refl, sym, ap, subst, ◌∙◌, inl, inr, Bool, true, false, List, [], ◌∷◌, ◌++◌, Option, some,
  String, str_eq, eq_iff, eq_refl, ℕ, arith, any, find,
}
use aerobi_api.Common.Text.{Text}
use aerobi_api.Common.Errors.{HttpError, ok, err}
use aerobi_api.Landing.Store.{
  LandingRequest, LandingDb, Decision, is_active_row, find_by_id, decided, AuditEntry,
}
use aerobi_api.Landing.Decide.{BestEffort, decide, record_audit}
use aerobi_api.Landing.Decisions.{decide_written, IsKeyed}
use aerobi_api.Submission.Form.{CreateLandingRequestDto, TargetAerodrome}
use aerobi_api.Submission.Prepare.{Site, SubmissionWorld, Prepared, StaffRow}
use aerobi_api.Submission.Laws.{
  IsFresh, find-append, find-append_other, new_request, withdrawn, Outcome, submit-Outcome,
}
use aerobi_api.Submission.{
  SubmissionDb, CreateLandingRequestResponse, submit, notify_staff, creation_entry, snapshot_of,
  with_snapshot,
}

IsKeyed-append :
    (rows : List LandingRequest) (r : LandingRequest)
    → IsKeyed rows
    → IsFresh r.id rows
    → IsKeyed (rows ++ r ∷ [])
IsKeyed-append [] r k f = (refl, tt)
IsKeyed-append (q ∷ rows) r (free, k) f = (still rows free, IsKeyed-append rows r k (ground arith))
  where
    still :
        (xs : List LandingRequest)
        → any (λ x. str_eq x.id q.id) xs ≡ false
        → any (λ x. str_eq x.id q.id) (xs ++ r ∷ []) ≡ false
    still [] h = ground (arith, eq_iff r.id q.id, eq_iff q.id r.id)
    still (x ∷ xs) h = ground (arith, still xs)

record_audit-requests :
    (b : Bool) (e : AuditEntry) (s : LandingDb) → (record_audit b e s).requests ≡ s.requests
record_audit-requests true e s = refl
record_audit-requests false e s = refl

module _ (trim_address : String → String) (other : ℕ → Text) (anac : Text → String → Option Bool)
    (w : SubmissionWorld) (site : Site) (dto : CreateLandingRequestDto) where
  notify_staff-landing :
      (staff : List StaffRow) (r : LandingRequest) (target : TargetAerodrome) (s : SubmissionDb)
      → (notify_staff trim_address w staff r target s).landing ≡ s.landing
  unfolding notify_staff
  notify_staff-landing staff r target s = ground arith

  abbrev SameView : SubmissionDb → SubmissionDb → Type 0
  SameView s t =
      ((id : String) → find_by_id t.landing id ≡ find_by_id s.landing id)
      × (t.landing.audit_log ≡ s.landing.audit_log)
      × (t.receipts ≡ s.receipts)
      × (t.staff_letters ≡ s.staff_letters)

  withdrawn-inactive :
      (p : Prepared) (id : String)
      → w.compensation_fails ≡ false
      → is_active_row id (withdrawn trim_address other anac w site dto p) ≡ false
  withdrawn-inactive p id goes = ground arith

  thrown-SameView :
      (s : SubmissionDb) (e : HttpError) (t : SubmissionDb)
      → w.compensation_fails ≡ false
      → Outcome trim_address other anac w site dto s (err e, t)
      → SameView s t
  unfolding Outcome
  thrown-SameView s e t goes (inl same) = rw same (λ id. refl, refl, refl, refl)
  thrown-SameView s e t goes (inr (lost, code, (p, fit, fresh, same))) = rw same (
    λ id.
        find-append_other id s.landing.requests (withdrawn trim_address other anac w site dto p)
          (withdrawn-inactive p id goes),
    refl,
    refl,
    refl,
  )

  -- A submission that throws is invisible if the withdrawal does not fail: every search by an id,
  -- the audit trail, the receipts and the letters to the staff are as before.
  pub submit-SameView :
      (s : SubmissionDb) {e : HttpError} {t : SubmissionDb}
      → w.compensation_fails ≡ false
      → submit trim_address other anac w site dto s ≡ (err e, t)
      → ((id : String) → find_by_id t.landing id ≡ find_by_id s.landing id)
        × (t.landing.audit_log ≡ s.landing.audit_log)
        × (t.receipts ≡ s.receipts)
        × (t.staff_letters ≡ s.staff_letters)
  submit-SameView s {e} {t} goes h = thrown-SameView s e t goes (
      subst (Outcome trim_address other anac w site dto s) h
        (submit-Outcome trim_address other anac w site dto s))

  accepted-requests :
      (s : SubmissionDb) (p : Prepared)
      → (notify_staff trim_address w site.staff
          (new_request trim_address other anac w site dto p)
          p.target
          (record s {
            landing =
                record_audit w.audited
                  (creation_entry (new_request trim_address other anac w site dto p))
                  (record s.landing {
                    requests =
                        s.landing.requests ++ new_request trim_address other anac w site dto p ∷ [];
                  });
            aircraft = with_snapshot w.id (snapshot_of p.rab_row) s.aircraft;
            receipts = s.receipts ++ (dto.email, w.id) ∷ [];
          })).landing.requests
        ≡ s.landing.requests ++ new_request trim_address other anac w site dto p ∷ []
  accepted-requests s p =
      ap (λ l. l.requests) (notify_staff-landing site.staff _ p.target _)
      ∙ record_audit-requests w.audited _ _

  accepted-decide :
      (s : SubmissionDb) (r : CreateLandingRequestResponse) (t : SubmissionDb) (world : BestEffort)
      (d : Decision)
      → IsKeyed s.landing.requests
      → Outcome trim_address other anac w site dto s (ok r, t)
      → (q : LandingRequest) × (find_by_id t.landing r.id ≡ some q)
        × ((decide world r.id d t.landing).0 ≡ ok (decided d q))
  unfolding Outcome new_request
  accepted-decide s r t world d keyed (sent, (p, fit, fresh, answer, same)) =
      let q = new_request trim_address other anac w site dto p in
      let rows : t.landing.requests ≡ s.landing.requests ++ q ∷ [] =
        ap (λ x. x.landing.requests) same ∙ accepted-requests s p in
      let here : find_by_id t.landing w.id ≡ some q =
        ap (find (is_active_row w.id)) rows
        ∙ find-append w.id s.landing.requests q fresh (eq_refl w.id)
        ∙ rw (eq_refl w.id) refl in
      let one : IsKeyed t.landing.requests =
        subst IsKeyed (sym rows) (IsKeyed-append s.landing.requests q keyed fresh) in
      rw answer (q, here, decide_written w.id d world t.landing q here refl one)

  -- A submission that succeeds can be decided: its request is found, and whatever the first decision
  -- of it is, it succeeds, if no two requests shared an id before.
  pub submit-decide :
      (s : SubmissionDb) {r : CreateLandingRequestResponse} {t : SubmissionDb} (world : BestEffort)
      (d : Decision)
      → IsKeyed s.landing.requests
      → submit trim_address other anac w site dto s ≡ (ok r, t)
      → (q : LandingRequest) × (find_by_id t.landing r.id ≡ some q)
        × ((decide world r.id d t.landing).0 ≡ ok (decided d q))
  submit-decide s {r} {t} world d keyed h = accepted-decide s r t world d keyed (
      subst (Outcome trim_address other anac w site dto s) h
        (submit-Outcome trim_address other anac w site dto s))
