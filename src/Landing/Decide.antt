-- ===== src/Landing/Decide.antt =====
-- src/modules/landing-requests/services: decide-landing-request and remove-landing-request.
use aerobi_api.Common.{
  Bool, true, false, not, [], ◌∷◌, ◌++◌, Option, none, some, String, ℕ, ◌==◌, if◌then◌else◌,
  or_default, is_empty,
}
use aerobi_api.Common.Errors.{
  HttpError, HttpStatus, ErrorCode, Result, ok, http_error, resource_not_found_error,
}
use aerobi_api.Common.Effects.{M, ◌>>=◌, ◌>>◌, pure, gets, modify, require, or_throw}
use aerobi_api.Landing.Store.{
  LandingRequest, LandingRequestStatus, LandingDb, AuditEntry, AuditAction, Decision,
  landing_request_audit_snapshot, find_by_id, update_if_pending, soft_delete,
}

-- What may fail without consequence: the audit entry is written, the mailer takes the letter.
pub record BestEffort : Type 0 where
  pub audited : Bool
  pub mailed : Bool

abbrev pub not_found : String → HttpError
not_found id = resource_not_found_error "Solicitação de pouso" id

abbrev pub already_answered : HttpError
already_answered =
    http_error HttpStatus.conflict ErrorCode.conflict
      (("DETAILS", "solicitação já respondida") ∷ [])

-- `AuditRecorderService.record` never throws.
abbrev pub record_audit : Bool → AuditEntry → LandingDb → LandingDb
record_audit false e s = s
record_audit true e s = record s { audit_log = s.audit_log ++ e ∷ [] }

abbrev pub send_decided : Bool → Option String → LandingRequestStatus → LandingDb → LandingDb
send_decided true (some to) decision s =
    if is_empty to then s else record s { decided_emails = s.decided_emails ++ (to, decision) ∷ [] }
send_decided _ _ decision s = s

abbrev pub notify_requester : Bool → LandingRequest → LandingRequestStatus → LandingDb → LandingDb
notify_requester mailed updated decision s = send_decided mailed updated.email decision s

abbrev pub counted : (ℕ × LandingDb) → Result ℕ × LandingDb
counted (n, s) = (ok n, s)

unfoldable pub decide : BestEffort → String → Decision → M LandingDb LandingRequest
decide world id d = do
  found ← gets (λ s. find_by_id s id)
  existing ← or_throw found (not_found id)
  affected ← (λ s. counted (update_if_pending id d s))
  require (not (affected == 0)) already_answered
  again ← gets (λ s. find_by_id s id)
  let updated = or_default again existing
  modify (
      record_audit world.audited (record {
        action = AuditAction.update;
        entity_id = id;
        before = some (landing_request_audit_snapshot existing);
        after = some (landing_request_audit_snapshot updated);
        actor_id = some d.reviewed_by;
      }))
  modify (notify_requester world.mailed updated d.decision)
  pure updated

unfoldable pub remove : BestEffort → String → String → ℕ → M LandingDb LandingRequest
remove world id actor_id now = do
  found ← gets (λ s. find_by_id s id)
  existing ← or_throw found (not_found id)
  deleted ← soft_delete id actor_id now
  modify (
      record_audit world.audited (record {
        action = AuditAction.delete;
        entity_id = id;
        before = some (landing_request_audit_snapshot existing);
        after = none;
        actor_id = some actor_id;
      }))
  pure deleted
