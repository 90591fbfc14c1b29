-- ===== src/Listing/Privacy.antt =====
-- What a reader of the requests learns of the numbers of the pilots.
use aerobi_api.Common.{
  ◌≡◌, ◌⊎◌, inl, inr, refl, sym, ap, ◌∙◌, Bool, List, [], ◌∷◌, ◌++◌, map, Option, none, some,
  String, ℕ, zero, suc, ◌≤◌, arith, filter, find, take, drop, length, Bool-cases, Option-cases,
}
use aerobi_api.Common.Text.{Text, is_digit, codes}
use aerobi_api.Common.Errors.{Result, ok, err, Result-cases}
use aerobi_api.Authz.Guards.{AuthenticatedUser}
use aerobi_api.Authz.Scope.{UserGroupScope, resolve_operational_actor_scope}
use aerobi_api.Landing.Store.{LandingRequest, LandingRequestStatus, is_active_row}
use aerobi_api.Submission.Aircraft.{AircraftCreateData}
use aerobi_api.Pagination.{
  PaginationQueryInput, ResolvedPaginationParams, resolve_pagination_params, find_many,
}
use aerobi_api.Listing.Filter.{
  Verdict, LandingRequestFilter, insert_by, order_by, is_after, build_landing_request_scoped_where,
  resolve_landing_request_order_by,
}
use aerobi_api.Listing.Mapper.{mask_pilot_cpf, masked, to_api_row}
use aerobi_api.Listing.{
  Tables, Outside, found_rows, list_landing_requests, find_landing_request_by_id, reviewer_of,
  aircraft_of,
}

abbrev digits : Text → Text
unfolding is_digit
digits t = filter is_digit t

-- Two numbers with at least six digits that start with the same six, or the same field.
abbrev pub SharesSix : Option Text → Option Text → Type 0
SharesSix a b =
    (a ≡ b)
    ⊎ ((c : Text) × (d : Text) × (a ≡ some c)
        × (b ≡ some d)
        × (6 ≤ length (filter is_digit c))
        × (6 ≤ length (filter is_digit d))
        × (take 6 (filter is_digit c) ≡ take 6 (filter is_digit d)))

abbrev shown : Text → Text
shown six = take 3 six ++ b'.' ∷ drop 3 six ++ codes ".***-**"

masked-shown : (t : Text) → 6 ≤ length t → masked t ≡ shown (take 6 t)
masked-shown [] h = absurd (omega arith)
masked-shown (a ∷ []) h = absurd (omega arith)
masked-shown (a ∷ b ∷ []) h = absurd (omega arith)
masked-shown (a ∷ b ∷ c ∷ []) h = absurd (omega arith)
masked-shown (a ∷ b ∷ c ∷ d ∷ []) h = absurd (omega arith)
masked-shown (a ∷ b ∷ c ∷ d ∷ e ∷ []) h = absurd (omega arith)
masked-shown (a ∷ b ∷ c ∷ d ∷ e ∷ f ∷ t) h = ground arith

mask-some :
    (t : Text)
    → 6 ≤ length (filter is_digit t)
    → mask_pilot_cpf (some t) ≡ some (shown (take 6 (filter is_digit t)))
unfolding mask_pilot_cpf
mask-some [] h = absurd (omega arith)
mask-some (c ∷ t) h = ap some (masked-shown (filter is_digit (c ∷ t)) h)

mask-SharesSix : (a b : Option Text) → SharesSix a b → mask_pilot_cpf a ≡ mask_pilot_cpf b
mask-SharesSix a b (inl same) = ap mask_pilot_cpf same
mask-SharesSix a b (inr (c, d, p, q, h, k, e)) =
    ap mask_pilot_cpf p
    ∙ mask-some c h
    ∙ ap (λ x. some (shown x)) e
    ∙ sym (mask-some d k)
    ∙ sym (ap mask_pilot_cpf q)

-- A map that a test does not notice passes by a filter, a search, an order and a slice.
module _ {A : Type 0} (g : A → A) where
  filter-map :
      (p : A → Bool) (xs : List A)
      → ((x : A) → p (g x) ≡ p x)
      → filter p (map g xs) ≡ map g (filter p xs)
  filter-map p [] h = refl
  filter-map p (x ∷ xs) h = elim (Bool-cases (p x)) [
    | inl hit ↦ rw (h x ∙ hit, hit) (ap (λ t. g x ∷ t) (filter-map p xs h))
    | inr miss ↦ rw (h x ∙ miss, miss) (filter-map p xs h)
  ]

  abbrev map_found : Option A → Option A
  map_found none = none
  map_found (some x) = some (g x)

  find-map :
      (p : A → Bool) (xs : List A)
      → ((x : A) → p (g x) ≡ p x)
      → find p (map g xs) ≡ map_found (find p xs)
  find-map p [] h = refl
  find-map p (x ∷ xs) h = elim (Bool-cases (p x)) [
    | inl hit ↦ rw (h x ∙ hit, hit) refl
    | inr miss ↦ rw (h x ∙ miss, miss) (find-map p xs h)
  ]

  insert_by-map :
      (order : A → A → Verdict) (x : A) (ys : List A)
      → ((a b : A) → order (g a) (g b) ≡ order a b)
      → insert_by order (g x) (map g ys) ≡ map g (insert_by order x ys)
  unfolding insert_by
  insert_by-map order x [] h = refl
  insert_by-map order x (y ∷ ys) h = elim (Bool-cases (is_after (order x y))) [
    | inl hit ↦ rw (h x y, hit) (ap (λ t. g y ∷ t) (insert_by-map order x ys h))
    | inr miss ↦ rw (h x y, miss) refl
  ]

  order_by-map :
      (order : A → A → Verdict) (xs : List A)
      → ((a b : A) → order (g a) (g b) ≡ order a b)
      → order_by order (map g xs) ≡ map g (order_by order xs)
  unfolding order_by
  order_by-map order [] h = refl
  order_by-map order (x ∷ xs) h =
      ap (insert_by order (g x)) (order_by-map order xs h)
      ∙ insert_by-map order x (order_by order xs) h

  take-map : (n : ℕ) (xs : List A) → take n (map g xs) ≡ map g (take n xs)
  take-map zero xs = refl
  take-map (suc n) [] = refl
  take-map (suc n) (x ∷ xs) = ap (λ t. g x ∷ t) (take-map n xs)

  drop-map : (n : ℕ) (xs : List A) → drop n (map g xs) ≡ map g (drop n xs)
  drop-map zero xs = refl
  drop-map (suc n) [] = refl
  drop-map (suc n) (x ∷ xs) = drop-map n xs

  length-map : (xs : List A) → length (map g xs) ≡ length xs
  length-map [] = refl
  length-map (x ∷ xs) = ap suc (length-map xs)

  map-unseen :
      {B : Type 0} (f : A → B) (xs : List A)
      → ((x : A) → f (g x) ≡ f x)
      → map f (map g xs) ≡ map f xs
  map-unseen f [] h = refl
  map-unseen f (x ∷ xs) h = rw (h x) (ap (λ t. f x ∷ t) (map-unseen f xs h))

module _ (o : Outside) (t : Tables) (cpf : LandingRequest → Option Text)
    (same : (r : LandingRequest) → SharesSix (cpf r) r.pilot_cpf) where
  abbrev pub rewrite_cpf : LandingRequest → LandingRequest
  rewrite_cpf r = record r { pilot_cpf = cpf r }

  -- The tables with other numbers.
  abbrev pub other_tables : Tables
  other_tables = record t { requests = map rewrite_cpf t.requests }

  abbrev rewritten : Result (List LandingRequest) → Result (List LandingRequest)
  rewritten (ok rows) = ok (map rewrite_cpf rows)
  rewritten (err e) = err e

  -- The query does not read the numbers.
  where-other :
      (f : LandingRequestFilter) (scope : UserGroupScope) (r : LandingRequest)
      → build_landing_request_scoped_where o.contains o.parse_date t.aerodromes f scope
          (rewrite_cpf r)
        ≡ build_landing_request_scoped_where o.contains o.parse_date t.aerodromes f scope r
  unfolding build_landing_request_scoped_where
  where-other f UserGroupScope.all r = refl
  where-other f UserGroupScope.none r = refl
  where-other f (UserGroupScope.group own) r = refl

  filtered-other :
      (f : LandingRequestFilter) (scope : UserGroupScope)
      → filter
          (build_landing_request_scoped_where o.contains o.parse_date t.aerodromes f scope)
          (map rewrite_cpf t.requests)
        ≡ map rewrite_cpf (
            filter
              (build_landing_request_scoped_where o.contains o.parse_date t.aerodromes f scope)
              t.requests)
  filtered-other f scope = filter-map rewrite_cpf _ t.requests (where-other f scope)

  ordered-other :
      (status : Option LandingRequestStatus) (xs : List LandingRequest)
      → order_by (resolve_landing_request_order_by o.id_before status) (map rewrite_cpf xs)
        ≡ map rewrite_cpf (order_by (resolve_landing_request_order_by o.id_before status) xs)
  unfolding resolve_landing_request_order_by
  ordered-other none xs = order_by-map rewrite_cpf _ xs (λ a b. refl)
  ordered-other (some LandingRequestStatus.pending) xs = order_by-map rewrite_cpf _ xs (λ a b. refl)
  ordered-other (some LandingRequestStatus.approved) xs =
      order_by-map rewrite_cpf _ xs (λ a b. refl)
  ordered-other (some LandingRequestStatus.rejected) xs =
      order_by-map rewrite_cpf _ xs (λ a b. refl)

  found_rows-other :
      (f : LandingRequestFilter) (actor : AuthenticatedUser)
      → found_rows o other_tables f actor ≡ rewritten (found_rows o t f actor)
  unfolding found_rows
  found_rows-other f actor =
      elim (Result-cases (resolve_operational_actor_scope actor.role actor.id t.actors)) [
        | inr (e, bad) ↦ rw bad refl
        | inl (scope, good) ↦ rw good (
            ap ok (
              ap (order_by (resolve_landing_request_order_by o.id_before f.status))
                (filtered-other f scope)
              ∙ ordered-other f.status (
                  filter
                    (build_landing_request_scoped_where o.contains o.parse_date t.aerodromes f
                      scope)
                    t.requests)))
      ]

  row-other :
      (r : LandingRequest) (aircraft : Option (Option AircraftCreateData))
      → to_api_row o.to_iso_string (rewrite_cpf r) (reviewer_of o t r.reviewed_by) aircraft
        ≡ to_api_row o.to_iso_string r (reviewer_of o t r.reviewed_by) aircraft
  unfolding to_api_row
  row-other r aircraft = rw (mask-SharesSix (cpf r) r.pilot_cpf (same r)) refl

  rows-other :
      (xs : List LandingRequest)
      → map
          (λ r. to_api_row o.to_iso_string r (reviewer_of o t r.reviewed_by) none)
          (map rewrite_cpf xs)
        ≡ map (λ r. to_api_row o.to_iso_string r (reviewer_of o t r.reviewed_by) none) xs
  rows-other xs = map-unseen rewrite_cpf _ xs (λ r. row-other r none)

  find_many-other :
      (p : ResolvedPaginationParams) (xs : List LandingRequest)
      → find_many p (map rewrite_cpf xs) ≡ map rewrite_cpf (find_many p xs)
  unfolding find_many
  find_many-other p xs =
      ap (take p.limit) (drop-map rewrite_cpf p.skip xs)
      ∙ take-map rewrite_cpf p.limit (drop p.skip xs)

  list-other :
      (f : LandingRequestFilter) (query : PaginationQueryInput) (actor : AuthenticatedUser)
      → list_landing_requests o other_tables f query actor ≡ list_landing_requests o t f query actor
  unfolding list_landing_requests
  list-other f query actor = elim (Result-cases (found_rows o t f actor)) [
    | inr (e, bad) ↦ rw (found_rows-other f actor, bad) refl
    | inl (rows, good) ↦
        let p = resolve_pagination_params query 200 in
        rw (found_rows-other f actor, good)
          (rw (find_many-other p rows, rows-other (find_many p rows), length-map rewrite_cpf rows)
            refl)
  ]

  find-other :
      (id : String)
      → find_landing_request_by_id o other_tables id ≡ find_landing_request_by_id o t id
  unfolding find_landing_request_by_id
  find-other id = elim (Option-cases (find (is_active_row id) t.requests)) [
    | inl gone ↦ rw (find-map rewrite_cpf (is_active_row id) t.requests (λ r. refl), gone) refl
    | inr (r, there) ↦
        rw (find-map rewrite_cpf (is_active_row id) t.requests (λ r. refl), there)
          (ap ok (row-other r (some (aircraft_of t r.id))))
  ]

  -- If the numbers of pilots are replaced by others with the same first six digits, no answer of the
  -- listing or of the search by id changes, whatever the filter, the page and the reader: nothing
  -- behind the sixth digit is given away.
  pub answers-hide :
      ((f : LandingRequestFilter) (query : PaginationQueryInput) (actor : AuthenticatedUser)
        → list_landing_requests o other_tables f query actor
          ≡ list_landing_requests o t f query actor)
      × ((id : String)
          → find_landing_request_by_id o other_tables id ≡ find_landing_request_by_id o t id)
  answers-hide = (list-other, find-other)
