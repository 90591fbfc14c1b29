-- ===== src/Listing/Tests.antt =====
-- A pending request at an aerodrome of the north, and its operator.
use aerobi_api.Common.{
  ◌≡◌, ◌≢◌, ◌↔◌, refl, inl, inr, true, false, [], ◌∷◌, Option, none, some, String, ap, arith,
  Bool-cases, if◌then◌else◌,
}
use aerobi_api.Common.Text.{Text, codes, is_digit, same_text, same_text_iff}
use aerobi_api.Common.Errors.{ok}
use aerobi_api.Authz.Permissions.{UserRole}
use aerobi_api.Authz.Guards.{AuthenticatedUser}
use aerobi_api.Authz.Scope.{scope_from_actor_group_id}
use aerobi_api.Authz.Resolvers.{User, GroupScopeSubject}
use aerobi_api.Authz.GroupScope.{ScopeRequest, group_scope_can_activate}
use aerobi_api.Landing.Store.{LandingRequest, LandingRequestStatus}
use aerobi_api.Submission.Prepare.{AerodromeRow}
use aerobi_api.Pagination.{PaginationQueryInput}
use aerobi_api.Listing.Filter.{no_filters, LandingRequestFilter}
use aerobi_api.Listing.Visible.{lists, with_accounts, guard_db, listed-accessible}
use aerobi_api.Listing.Privacy.{SharesSix, other_tables, answers-hide}
use aerobi_api.Listing.{
  Tables, Outside, found_rows, list_landing_requests, find_landing_request_by_id, pending_count,
}

abbrev outside : Outside
outside = record {
  contains = λ value wanted. true;
  parse_date = λ s. 0;
  id_before = λ a b. true;
  is_uuid = λ s. true;
  to_iso_string = λ t. "2026-07-10T12:00:00.000Z";
}

abbrev waiting : LandingRequest
waiting = record {
  id = "lr1";
  aerodrome_id = "sbaa";
  status = LandingRequestStatus.pending;
  request_date = 100;
  email = some "piloto@aerobi.br";
  pilot_code = none;
  aircraft_model = none;
  aircraft_registration = none;
  departure_aerodrome = none;
  observation = none;
  pilot_name = none;
  pilot_cpf = some (codes "12345678909");
  phone_contact = none;
  requester_name = none;
  people_on_board = some 2;
  accepted_terms = some true;
  confirmed_true = some true;
  foreign_registration = some false;
  next_destination_aerodrome = none;
  icao = none;
  uf = some "AC";
  departure_at = some 1000;
  landing_at = some 10900000;
  exit_after_landing_at = some 10900001;
  reviewed_at = none;
  reviewed_by = none;
  created_by = some "public";
  updated_by = none;
  deleted_at = none;
  deleted_by = none;
}

abbrev conceicao : AerodromeRow
conceicao = record {
  id = "sbaa";
  icao = codes "SBAA";
  name = "Conceição";
  is_open = true;
  group_id = "north";
  group_uf = "PA";
  deleted_at = none;
}

abbrev tables : Tables
tables = record {
  actors = λ id. none;
  aerodromes = conceicao ∷ [];
  requests = waiting ∷ [];
  aircraft = [];
  users = [];
}

abbrev operator_account : User
operator_account = record { id = "ana"; group_id = some "north"; deleted_at = none }

abbrev ana : AuthenticatedUser
ana = record { id = "ana"; email = "ana@aerobi.br"; role = UserRole.operator }

abbrev by_id : ScopeRequest
by_id = record {
  user = some ana;
  params = λ name. some "lr1";
  query = λ name. none;
  body = λ name. none;
}

not_admin : UserRole.operator ≢ UserRole.admin
not_admin e = cc e

one_pending :
    pending_count outside
      (with_accounts outside (operator_account ∷ []) tables ana not_admin "lr1")
      ana
    ≡ ok 1
unfolding pending_count scope_from_actor_group_id
one_pending = refl

visible_example :
    (lists "lr1" (
        found_rows outside
          (with_accounts outside (operator_account ∷ []) tables ana not_admin "lr1")
          no_filters
          ana)
      ≡ true)
    ↔ (group_scope_can_activate
          (λ s. true)
          (guard_db (operator_account ∷ []) (conceicao ∷ []) (waiting ∷ []))
          (some GroupScopeSubject.landing_request)
          none
          by_id
        ≡ ok true)
visible_example =
    listed-accessible outside (operator_account ∷ []) tables ana not_admin "lr1" by_id none refl
      refl (λ e. cc e) refl (refl, tt) (refl, tt)

abbrev number : Text
number = codes "12345678909"

abbrev forged : Text
forged = codes "123456-00000"

-- The number of the example is replaced by one with the same first six digits.
abbrev forge : Option Text → Option Text
forge none = none
forge (some t) = if same_text t number then some forged else some t

forge-SharesSix : (x : Option Text) → SharesSix (forge x) x
unfolding is_digit
forge-SharesSix none = inl refl
forge-SharesSix (some t) = elim (Bool-cases (same_text t number)) [
  | inl hit ↦ inr (
    forged,
    number,
    rw hit refl,
    ap some ((same_text_iff t number).0 hit),
    omega arith,
    omega arith,
    refl,
  )
  | inr miss ↦ inl (rw miss refl)
]

forged_rows : LandingRequest → Option Text
forged_rows r = forge r.pilot_cpf

forged_rows-SharesSix : (r : LandingRequest) → SharesSix (forged_rows r) r.pilot_cpf
unfolding forged_rows
forged_rows-SharesSix r = forge-SharesSix r.pilot_cpf

abbrev forged_tables : Tables
forged_tables = other_tables outside tables forged_rows forged_rows-SharesSix

hidden_example :
    ((f : LandingRequestFilter) (query : PaginationQueryInput) (actor : AuthenticatedUser)
      → list_landing_requests outside forged_tables f query actor
        ≡ list_landing_requests outside tables f query actor)
    × ((id : String)
        → find_landing_request_by_id outside forged_tables id
          ≡ find_landing_request_by_id outside tables id)
hidden_example = answers-hide outside tables forged_rows forged_rows-SharesSix
