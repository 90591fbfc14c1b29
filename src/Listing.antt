-- ===== src/Listing.antt =====
-- src/modules/landing-requests/services: list-landing-requests, pending-count-landing-requests and
-- find-landing-request-by-id, with src/modules/landing-requests/utils/resolve-reviewers.ts.
-- `is_uuid` is the test of class-validator.
pub mod Filter
pub mod Mapper
pub mod Visible
pub mod Privacy
mod Tests
use aerobi_api.Common.{
  Bool, true, false, not, ◌&&◌, List, [], ◌∷◌, map, Option, none, some, String, str_eq, ℕ, find,
  filter, count, length, if◌then◌else◌, is_empty,
}
use aerobi_api.Common.Text.{Text}
use aerobi_api.Common.Errors.{Result, ok, err, ◌>>=◌, present}
use aerobi_api.Authz.Guards.{AuthenticatedUser}
use aerobi_api.Authz.Scope.{ActorGroupLookup, resolve_operational_actor_scope}
use aerobi_api.Landing.Store.{LandingRequest, LandingRequestStatus, is_pending, is_active_row}
use aerobi_api.Landing.Decide.{not_found}
use aerobi_api.Submission.Prepare.{AerodromeRow}
use aerobi_api.Submission.{LandingRequestAircraft}
use aerobi_api.Submission.Aircraft.{AircraftCreateData}
use aerobi_api.Pagination.{
  PaginationQueryInput, PaginationMetadata, resolve_pagination_params, pagination_metadata,
  find_many,
}
use aerobi_api.Listing.Filter.{
  LandingRequestFilter, no_filters, build_landing_request_scoped_where,
  resolve_landing_request_order_by, order_by, status_rank,
}
use aerobi_api.Listing.Mapper.{LandingRequestReviewer, LandingRequestResponse, to_api_row}

-- The tables that the queries read.
pub record Tables : Type 0 where
  pub actors : ActorGroupLookup
  pub aerodromes : List AerodromeRow
  pub requests : List LandingRequest
  pub aircraft : List LandingRequestAircraft
  pub users : List LandingRequestReviewer

-- What the outside gives: see the modules of the filter and the mapper.
pub record Outside : Type 0 where
  pub contains : Text → Text → Bool
  pub parse_date : String → ℕ
  pub id_before : String → String → Bool
  pub is_uuid : String → Bool
  pub to_iso_string : ℕ → String

pub record Paginated : Type 0 where
  pub rows : List LandingRequestResponse
  pub meta : PaginationMetadata

abbrev max_limit : ℕ
max_limit = 200

-- All rows that a query finds, in its order.
unfoldable pub found_rows :
    Outside → Tables → LandingRequestFilter → AuthenticatedUser → Result (List LandingRequest)
unfolding resolve_operational_actor_scope build_landing_request_scoped_where
    resolve_landing_request_order_by order_by
found_rows o t f actor = do
  scope ← resolve_operational_actor_scope actor.role actor.id t.actors
  ok (
      order_by (resolve_landing_request_order_by o.id_before f.status) (
        filter (build_landing_request_scoped_where o.contains o.parse_date t.aerodromes f scope)
          t.requests))

-- The reviewer by the id that a row holds: it is a UUID, and a user has it.
abbrev pub reviewer_of : Outside → Tables → Option String → Option LandingRequestReviewer
reviewer_of o t none = none
reviewer_of o t (some id) =
    if not (is_empty id) && o.is_uuid id then find (λ u. str_eq u.id id) t.users else none

unfoldable pub list_landing_requests :
    Outside
    → Tables
    → LandingRequestFilter
    → PaginationQueryInput
    → AuthenticatedUser
    → Result Paginated
unfolding found_rows resolve_pagination_params pagination_metadata find_many to_api_row
list_landing_requests o t f query actor = do
  let p = resolve_pagination_params query max_limit
  rows ← found_rows o t f actor
  ok (record {
    rows =
        map (λ r. to_api_row o.to_iso_string r (reviewer_of o t r.reviewed_by) none)
          (find_many p rows);
    meta = pagination_metadata p.page p.limit (length rows);
  })

-- `{ ...where, status: PENDING }`.
unfoldable pub pending_count : Outside → Tables → AuthenticatedUser → Result ℕ
unfolding resolve_operational_actor_scope build_landing_request_scoped_where
pending_count o t actor = do
  scope ← resolve_operational_actor_scope actor.role actor.id t.actors
  ok (
      count
        (λ r.
          build_landing_request_scoped_where o.contains o.parse_date t.aerodromes no_filters scope r
          && is_pending r.status)
        t.requests)

-- The snapshot of a request.
abbrev pub aircraft_of : Tables → String → Option AircraftCreateData
aircraft_of t id = elim (find (λ a. str_eq a.landing_request_id id) t.aircraft) [
  | none ↦ none
  | some a ↦ some a.columns
]

unfoldable pub find_landing_request_by_id :
    Outside → Tables → String → Result LandingRequestResponse
unfolding to_api_row
find_landing_request_by_id o t id = do
  entity ← present (find (is_active_row id) t.requests) (not_found id)
  ok (
      to_api_row o.to_iso_string entity (reviewer_of o t entity.reviewed_by)
        (some (aircraft_of t entity.id)))
