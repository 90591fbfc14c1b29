-- ===== src/Conformity/Directory.antt =====
-- src/modules/conformity/adapters/postgres-directory.adapter.ts: the approved request that is
-- closest in time to a landing.
pub mod Laws
use aerobi_api.Common.{
  Bool, true, false, ◌&&◌, ◌||◌, List, [], ◌∷◌, Option, none, some, String, ℕ, ◌+◌, ◌-◌, ◌==◌,
  if◌then◌else◌, is_none, filter, leb, ltb,
}
use aerobi_api.Common.Text.{Text, codes, same_text, to_upper}
use aerobi_api.Landing.Store.{LandingRequest, LandingRequestStatus}

abbrev pub is_approved : LandingRequestStatus → Bool
is_approved LandingRequestStatus.approved = true
is_approved _ = false

-- A nullable column equals the text.
abbrev pub column_is : Text → Option Text → Bool
column_is t none = false
column_is t (some u) = same_text u t

-- Both ends of the window count.
abbrev pub is_within : ℕ → ℕ → ℕ → Bool
is_within window reference date = leb reference (date + window) && leb date (reference + window)

module _ (other : ℕ → Text) where
  abbrev pub is_candidate : Text → Text → ℕ → ℕ → LandingRequest → Bool
  is_candidate registration aerodrome_icao reference window_ms r =
      is_approved r.status
      && (column_is (to_upper other registration) r.aircraft_registration
          && (column_is (to_upper other aerodrome_icao) r.icao
              && (is_none r.deleted_at && is_within window_ms reference r.request_date)))

-- The order of the database on ids.
abbrev text_leb : Text → Text → Bool
text_leb [] t = true
text_leb (a ∷ s) [] = false
text_leb (a ∷ s) (b ∷ t) = ltb a b || (a == b && text_leb s t)

abbrev pub comes_first : LandingRequest → LandingRequest → Bool
comes_first q r =
    ltb q.request_date r.request_date
    || (q.request_date == r.request_date && text_leb (codes q.id) (codes r.id))

abbrev pub insert : LandingRequest → List LandingRequest → List LandingRequest
insert q [] = q ∷ []
insert q (r ∷ rs) = if comes_first q r then q ∷ r ∷ rs else r ∷ insert q rs

-- `orderBy: [{ requestDate: 'asc' }, { id: 'asc' }]`.
abbrev pub order_by : List LandingRequest → List LandingRequest
order_by [] = []
order_by (r ∷ rs) = insert r (order_by rs)

abbrev pub delta : ℕ → LandingRequest → ℕ
delta reference r = (r.request_date - reference) + (reference - r.request_date)

abbrev pub is_closer : ℕ → LandingRequest → Option LandingRequest → Bool
is_closer reference r none = true
is_closer reference r (some best) = ltb (delta reference r) (delta reference best)

-- The loop over the rows; of two at the same distance the first one stays.
abbrev pub closest : ℕ → Option LandingRequest → List LandingRequest → Option LandingRequest
closest reference best [] = best
closest reference best (r ∷ rs) =
    closest reference (if is_closer reference r best then some r else best) rs

unfoldable pub find_approved_landing_request_match :
    (ℕ → Text) → List LandingRequest → Text → Text → ℕ → ℕ → Option LandingRequest
unfolding to_upper
find_approved_landing_request_match other rows registration aerodrome_icao reference window_ms =
    closest reference none
      (order_by (filter (is_candidate other registration aerodrome_icao reference window_ms) rows))
