-- ===== src/Landing/Decisions.antt =====
-- What a decision does on each of its branches.
use aerobi_api.Common.{
  ◌≡◌, ◌⊎◌, inl, inr, refl, ap, sym, ◌∙◌, Bool, true, false, not, List, [], ◌∷◌, ◌++◌, none, some,
  String, str_eq, eq_iff, if◌then◌else◌, arith, any, count, find, filter, Bool-cases, Option-cases,
}
use aerobi_api.Common.Errors.{ok, err}
use aerobi_api.Landing.Store.{
  LandingRequest, LandingRequestStatus, LandingDb, Decision, is_pending, is_active_row,
  is_pending_row, update_rows, decided, find_by_id, update_if_pending, AuditEntry, AuditAction,
  landing_request_audit_snapshot,
}
use aerobi_api.Landing.Decide.{
  BestEffort, decide, not_found, already_answered, record_audit, notify_requester,
}

-- No two rows share an id.
abbrev pub IsKeyed : List LandingRequest → Type 0
IsKeyed [] = Unit
IsKeyed (r ∷ rs) = (any (λ q. str_eq q.id r.id) rs ≡ false) × IsKeyed rs

abbrev is_other : String → LandingRequest → Bool
is_other id r = not (str_eq r.id id)

module _ (id : String) (d : Decision) where
  count-absent :
      (rs : List LandingRequest)
      → any (λ q. str_eq q.id id) rs ≡ false
      → count (is_pending_row id) rs ≡ 0
  count-absent [] h = refl
  count-absent (r ∷ rs) h = ground (arith, count-absent rs)

  -- With one row for each id, the count says whether the row is pending.
  count-found :
      (rs : List LandingRequest) (r : LandingRequest)
      → IsKeyed rs
      → find (is_active_row id) rs ≡ some r
      → count (is_pending_row id) rs ≡ (if is_pending r.status then 1 else 0)
  count-found [] r k e = cc
  count-found (q ∷ rs) r (free, k) e = elim (Bool-cases (str_eq q.id id)) [
    | inl same ↦ ground (
      arith,
      count-absent rs
          (ap (λ i. any (λ x. str_eq x.id i) rs) (sym ((eq_iff q.id id).0 same)) ∙ free),
      count-found rs r k,
    )
    | inr other ↦ ground (arith, count-found rs r k)
  ]

  update-none :
      (rs : List LandingRequest)
      → count (is_pending_row id) rs ≡ 0
      → update_rows (is_pending_row id) (decided d) rs ≡ rs
  update-none [] h = refl
  update-none (r ∷ rs) h = ground (arith, update-none rs)

  find-decided :
      (rs : List LandingRequest) (r : LandingRequest)
      → find (is_active_row id) rs ≡ some r
      → is_pending r.status ≡ true
      → find (is_active_row id) (update_rows (is_pending_row id) (decided d) rs)
        ≡ some (decided d r)
  find-decided [] r e h = cc
  find-decided (q ∷ rs) r e h = ground (arith, find-decided rs r)

  update-others :
      (rs : List LandingRequest)
      → filter (is_other id) (update_rows (is_pending_row id) (decided d) rs)
        ≡ filter (is_other id) rs
  update-others [] = refl
  update-others (r ∷ rs) = ground (arith, update-others rs)

  notify-keeps :
      (mailed : Bool) (r : LandingRequest) (c : LandingRequestStatus) (s : LandingDb)
      → ((notify_requester mailed r c s).requests ≡ s.requests)
        × ((notify_requester mailed r c s).audit_log ≡ s.audit_log)
  notify-keeps mailed r c s = ground arith

  audit-keeps :
      (audited : Bool) (e : AuditEntry) (s : LandingDb)
      → ((record_audit audited e s).requests ≡ s.requests)
        × ((record_audit audited e s).audit_log
            ≡ (if audited then s.audit_log ++ e ∷ [] else s.audit_log))
  audit-keeps true e s = (refl, refl)
  audit-keeps false e s = (refl, refl)

  abbrev decision_entry : LandingRequest → AuditEntry
  decision_entry r = record {
    action = AuditAction.update;
    entity_id = id;
    before = some (landing_request_audit_snapshot r);
    after = some (landing_request_audit_snapshot (decided d r));
    actor_id = some d.reviewed_by;
  }

  -- What a decision that goes through leaves behind.
  pub record Written (world : BestEffort) (s s' : LandingDb) (r : LandingRequest) : Type 0 where
    pub answered : find_by_id s' id ≡ some (decided d r)
    pub others : filter (is_other id) s'.requests ≡ filter (is_other id) s.requests
    pub trail :
        s'.audit_log ≡ (if world.audited then s.audit_log ++ decision_entry r ∷ [] else s.audit_log)

  pub decide_written :
      (world : BestEffort) (s : LandingDb) (r : LandingRequest)
      → find_by_id s id ≡ some r
      → is_pending r.status ≡ true
      → IsKeyed s.requests
      → (decide world id d s).0 ≡ ok (decided d r)
  unfolding decide update_if_pending
  decide_written world s r e h k =
      let one = count-found s.requests r k e in
      let again = find-decided s.requests r e h in rw e (rw one (rw h (rw again refl)))

  decide_state :
      (world : BestEffort) (s : LandingDb) (r : LandingRequest)
      → find_by_id s id ≡ some r
      → is_pending r.status ≡ true
      → IsKeyed s.requests
      → (decide world id d s).1
        ≡ notify_requester world.mailed (decided d r) d.decision (
            record_audit world.audited
              (decision_entry r)
              (record s { requests = update_rows (is_pending_row id) (decided d) s.requests }))
  unfolding decide update_if_pending
  decide_state world s r e h k =
      let one = count-found s.requests r k e in
      let again = find-decided s.requests r e h in rw e (rw one (rw h (rw again refl)))

  decide-Written :
      (world : BestEffort) (s : LandingDb) (r : LandingRequest)
      → find_by_id s id ≡ some r
      → is_pending r.status ≡ true
      → IsKeyed s.requests
      → Written world s (decide world id d s).1 r
  decide-Written world s r e h k =
      let t : LandingDb = record s {
        requests = update_rows (is_pending_row id) (decided d) s.requests;
      } in
      let noted = audit-keeps world.audited (decision_entry r) t in
      let sent =
        notify-keeps world.mailed (decided d r) d.decision
          (record_audit world.audited (decision_entry r) t) in
      let rows : (decide world id d s).1.requests ≡ t.requests =
        ap (λ x. x.requests) (decide_state world s r e h k) ∙ sent.0 ∙ noted.0 in
      record {
        answered = ap (find (is_active_row id)) rows ∙ find-decided s.requests r e h;
        others = ap (filter (is_other id)) rows ∙ update-others s.requests;
        trail = ap (λ x. x.audit_log) (decide_state world s r e h k) ∙ sent.1 ∙ noted.1;
      }

  decide_answered :
      (world : BestEffort) (s : LandingDb) (r : LandingRequest)
      → find_by_id s id ≡ some r
      → is_pending r.status ≡ false
      → IsKeyed s.requests
      → decide world id d s ≡ (err already_answered, s)
  unfolding decide update_if_pending
  decide_answered world s r e h k =
      let zero' = count-found s.requests r k e in
      rw e (
        rw zero' (
          rw h (
            ap (λ rs. (err already_answered, record s { requests = rs }))
              (update-none s.requests (zero' ∙ rw h refl)))))

  decide_missing :
      (world : BestEffort) (s : LandingDb)
      → find_by_id s id ≡ none
      → decide world id d s ≡ (err (not_found id), s)
  unfolding decide
  decide_missing world s e = rw e refl

  -- Where each id has one row, a decision has three outcomes. The request does not exist, or is
  -- removed: 404. It is not pending any more: 409. In both nothing changes. Or it is pending: its
  -- row gets the decision, all other rows stay, and the trail gets one entry if it can be written.
  pub decide-cases :
      (world : BestEffort) (s : LandingDb)
      → IsKeyed s.requests
      → ((find_by_id s id ≡ none) × (decide world id d s ≡ (err (not_found id), s)))
        ⊎ ((r : LandingRequest) × (find_by_id s id ≡ some r)
            × (((is_pending r.status ≡ false) × (decide world id d s ≡ (err already_answered, s)))
                ⊎ ((is_pending r.status ≡ true)
                    × ((decide world id d s).0 ≡ ok (decided d r))
                    × Written world s (decide world id d s).1 r)))
  decide-cases world s k = elim (Option-cases (find_by_id s id)) [
    | inl out ↦ inl (out, decide_missing world s out)
    | inr (r, here) ↦ inr (
      r,
      here,
      elim (Bool-cases (is_pending r.status)) [
        | inl open' ↦
            inr
              (open', decide_written world s r here open' k, decide-Written world s r here open' k)
        | inr shut ↦ inl (shut, decide_answered world s r here shut k)
      ],
    )
  ]
