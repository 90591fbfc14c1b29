-- ===== src/Listing/Filter.antt =====
-- src/modules/landing-requests/utils/build-landing-request-where.ts and list-order.ts: the filter and
-- the order of the listing. The database compares parts of text without regard to case (`contains`)
-- and ids (`id_before`), and JavaScript reads dates (`parse_date`): these are parameters.
use Prim.Native.String
use aerobi_api.Common.{
  Bool, true, false, ◌&&◌, List, [], ◌∷◌, Option, none, some, String, str_eq, ℕ, ◌==◌, leb, ltb,
  if◌then◌else◌, find, is_none,
}
use aerobi_api.Common.Text.{Text, codes}
use aerobi_api.Authz.Scope.{UserGroupScope}
use aerobi_api.Landing.Store.{LandingRequest, LandingRequestStatus}
use aerobi_api.Submission.Prepare.{AerodromeRow}

pub record LandingRequestFilter : Type 0 where
  pub aerodrome_id : Option String
  pub status : Option LandingRequestStatus
  pub departure_icao : Option Text
  pub arrival_icao : Option Text
  pub aircraft_model : Option Text
  pub aircraft_registration : Option Text
  pub pilot_code : Option Text
  pub email : Option Text
  pub request_date_from : Option String
  pub request_date_to : Option String
  pub response_date_from : Option String
  pub response_date_to : Option String

-- `NO_FILTERS`.
abbrev pub no_filters : LandingRequestFilter
no_filters = record {
  aerodrome_id = none;
  status = none;
  departure_icao = none;
  arrival_icao = none;
  aircraft_model = none;
  aircraft_registration = none;
  pilot_code = none;
  email = none;
  request_date_from = none;
  request_date_to = none;
  response_date_from = none;
  response_date_to = none;
}

-- The order in which the enumeration declares the states.
abbrev pub status_rank : LandingRequestStatus → ℕ
status_rank LandingRequestStatus.pending = 0
status_rank LandingRequestStatus.approved = 1
status_rank LandingRequestStatus.rejected = 2

abbrev same_status : Option LandingRequestStatus → LandingRequestStatus → Bool
same_status none s = true
same_status (some t) s = status_rank t == status_rank s

abbrev same_id : Option String → String → Bool
same_id none id = true
same_id (some wanted) id = str_eq wanted id

abbrev column : Option String → Option Text
column none = none
column (some s) = some (codes s)

abbrev pub at_or_after : Option ℕ → Option ℕ → Bool
at_or_after none t = true
at_or_after (some bound) none = false
at_or_after (some bound) (some t) = leb bound t

abbrev pub at_or_before : Option ℕ → Option ℕ → Bool
at_or_before none t = true
at_or_before (some bound) none = false
at_or_before (some bound) (some t) = leb t bound

-- `aerodrome: { groupId }`: the aerodrome of the row, deleted or not.
abbrev pub group_of : List AerodromeRow → LandingRequest → Option String
group_of aerodromes r = elim (find (λ a. str_eq a.id r.aerodrome_id) aerodromes) [
  | none ↦ none
  | some a ↦ some a.group_id
]

abbrev pub is_group : String → Option String → Bool
is_group own none = false
is_group own (some g) = str_eq own g

abbrev pub in_scope : List AerodromeRow → UserGroupScope → LandingRequest → Bool
in_scope aerodromes UserGroupScope.all r = true
in_scope aerodromes UserGroupScope.none r = false
in_scope aerodromes (UserGroupScope.group own) r = is_group own (group_of aerodromes r)

module _ (contains : Text → Text → Bool) where
  -- `null` never contains anything.
  abbrev substring : Option Text → Option Text → Bool
  substring none value = true
  substring (some wanted) none = false
  substring (some wanted) (some value) = contains value wanted

module _ (parse_date : String → ℕ) where
  abbrev pub start_of_utc_day : Option String → Option ℕ
  start_of_utc_day none = none
  start_of_utc_day (some ymd) = some (parse_date (String.◌++◌ ymd "T00:00:00.000Z"))

  abbrev pub end_of_utc_day : Option String → Option ℕ
  end_of_utc_day none = none
  end_of_utc_day (some ymd) = some (parse_date (String.◌++◌ ymd "T23:59:59.999Z"))

  abbrev in_date_range : Option String → Option String → Option ℕ → Bool
  in_date_range from to t =
      at_or_after (start_of_utc_day from) t && at_or_before (end_of_utc_day to) t

module _ (contains : Text → Text → Bool) (parse_date : String → ℕ) where
  abbrev matches : LandingRequestFilter → LandingRequest → Bool
  matches f r =
      same_id f.aerodrome_id r.aerodrome_id
      && (same_status f.status r.status
          && (substring contains f.departure_icao (column r.departure_aerodrome)
              && (substring contains f.arrival_icao r.icao
                  && (substring contains f.aircraft_model (column r.aircraft_model)
                      && (substring contains f.aircraft_registration r.aircraft_registration
                          && (substring contains f.pilot_code (column r.pilot_code)
                              && (substring contains f.email (column r.email)
                                  && (in_date_range parse_date f.request_date_from f.request_date_to
                                        (some r.request_date)
                                      && in_date_range parse_date f.response_date_from
                                          f.response_date_to r.reviewed_at))))))))

  -- The rows that the query sees: the repository adds that a row is not deleted.
  unfoldable pub build_landing_request_scoped_where :
      List AerodromeRow → LandingRequestFilter → UserGroupScope → LandingRequest → Bool
  build_landing_request_scoped_where aerodromes f scope r =
      (in_scope aerodromes scope r && matches f r) && is_none r.deleted_at

-- Lexicographic order: the first comparison that is not a tie decides.
pub data Verdict : Type 0 where
  before tie after : Verdict

abbrev pub then_by : Verdict → Verdict → Verdict
then_by before v = before
then_by tie v = v
then_by after v = after

abbrev pub ascending : ℕ → ℕ → Verdict
ascending a b = if ltb a b then before else if ltb b a then after else tie

-- In descending order the database puts `null` first.
abbrev pub descending : Option ℕ → Option ℕ → Verdict
descending none none = tie
descending none (some b) = before
descending (some a) none = after
descending (some a) (some b) = ascending b a

module _ (id_before : String → String → Bool) where
  abbrev by_id : String → String → Verdict
  by_id a b = if str_eq a b then tie else if id_before a b then before else after

  abbrev pub queue_order : LandingRequest → LandingRequest → Verdict
  queue_order a b =
      then_by (ascending (status_rank a.status) (status_rank b.status))
        (then_by (ascending a.request_date b.request_date) (by_id a.id b.id))

  abbrev pub history_order : LandingRequest → LandingRequest → Verdict
  history_order a b =
      then_by (descending a.reviewed_at b.reviewed_at)
        (then_by (ascending b.request_date a.request_date) (by_id b.id a.id))

  -- `resolveLandingRequestOrderBy`.
  unfoldable pub resolve_landing_request_order_by :
      Option LandingRequestStatus → LandingRequest → LandingRequest → Verdict
  resolve_landing_request_order_by (some LandingRequestStatus.approved) = history_order
  resolve_landing_request_order_by (some LandingRequestStatus.rejected) = history_order
  resolve_landing_request_order_by _ = queue_order

-- The rows in an order.
abbrev pub is_after : Verdict → Bool
is_after after = true
is_after _ = false

module _ {A : Type 0} (order : A → A → Verdict) where
  unfoldable pub insert_by : A → List A → List A
  insert_by x [] = x ∷ []
  insert_by x (y ∷ ys) = if is_after (order x y) then y ∷ insert_by x ys else x ∷ y ∷ ys

  unfoldable pub order_by : List A → List A
  unfolding insert_by
  order_by [] = []
  order_by (x ∷ xs) = insert_by x (order_by xs)
