-- ===== src/Listing/Visible.antt =====
-- The listing of the requests and the guard of the routes that name one agree.
use aerobi_api.Common.{
  ◌≡◌, ◌≢◌, ◌↔◌, subst, All, inl, inr, refl, sym, ap, ◌∙◌, Bool, true, false, ◌&&◌, List, [], ◌∷◌,
  map, Option, none, some, String, str_eq, eq_iff, arith, filter, find, any, is_none, is_empty,
  or_default, Bool-cases, Option-cases,
}
use aerobi_api.Common.Errors.{Result, ok, err}
use aerobi_api.Authz.Permissions.{UserRole}
use aerobi_api.Authz.Guards.{AuthenticatedUser}
use aerobi_api.Authz.Scope.{
  UserGroupScope, ActorGroupLookup, ActorRecord, scope_from_actor_group_id,
  resolve_operational_actor_scope,
}
use aerobi_api.Authz.Scope.Laws.{resolve_operational_missing, resolve_operational_found}
use aerobi_api.Authz.Resolvers.{
  Db, Row, User, GroupScopeSubject, resolve_group, find_active, follow,
}
use aerobi_api.Authz.GroupScope.{ScopeRequest, group_scope_can_activate, find_actor, resource_id}
use aerobi_api.Authz.GroupScope.Laws.{group_scope_can_activate_iff}
use aerobi_api.Landing.Store.{LandingRequest, is_active_row}
use aerobi_api.Landing.Decisions.{IsKeyed}
use aerobi_api.Submission.Prepare.{AerodromeRow}
use aerobi_api.Listing.Filter.{
  Verdict, no_filters, insert_by, order_by, build_landing_request_scoped_where,
  resolve_landing_request_order_by, group_of, is_group,
}
use aerobi_api.Listing.{Tables, Outside, found_rows}

-- The tables as the resolvers of the guard read them.
abbrev pub request_row : LandingRequest → Row
request_row r = record { id = r.id; parent_id = r.aerodrome_id; deleted_at = r.deleted_at }

abbrev pub aerodrome_row : AerodromeRow → Row
aerodrome_row a = record { id = a.id; parent_id = a.group_id; deleted_at = a.deleted_at }

abbrev pub guard_db : List User → List AerodromeRow → List LandingRequest → Db
guard_db users aerodromes requests = record {
  users = users;
  groups = [];
  aerodromes = map aerodrome_row aerodromes;
  landing_requests = map request_row requests;
  feedbacks = [];
  cameras = [];
  geojsons = [];
  documents = [];
  maintenances = [];
  tasks = [];
  guesses = [];
  technical_visits = [];
  technical_visit_images = [];
}

abbrev record_of : Option User → Option ActorRecord
record_of none = none
record_of (some u) = some (record { group_id = u.group_id })

-- `findActiveById`.
abbrev pub active_lookup : List User → ActorGroupLookup
active_lookup users id = record_of (find (λ u. str_eq u.id id && is_none u.deleted_at) users)

-- The answer contains a row of the id.
abbrev pub lists : String → Result (List LandingRequest) → Bool
lists id (ok rows) = any (λ r. str_eq r.id id) rows
lists id (err e) = false

module _ (id : String) where
  any-insert_by :
      (order : LandingRequest → LandingRequest → Verdict) (x : LandingRequest)
      (ys : List LandingRequest)
      → any (λ r. str_eq r.id id) (insert_by order x ys) ≡ any (λ r. str_eq r.id id) (x ∷ ys)
  unfolding insert_by
  any-insert_by order x [] = refl
  any-insert_by order x (y ∷ ys) = ground (arith, any-insert_by order x ys)

  any-order_by :
      (order : LandingRequest → LandingRequest → Verdict) (xs : List LandingRequest)
      → any (λ r. str_eq r.id id) (order_by order xs) ≡ any (λ r. str_eq r.id id) xs
  unfolding order_by
  any-order_by order [] = refl
  any-order_by order (x ∷ xs) =
      ground (arith, any-insert_by order x (order_by order xs), any-order_by order xs)

  passes : (LandingRequest → Bool) → Option LandingRequest → Bool
  passes q none = false
  passes q (some r) = q r

  any-absent :
      (q : LandingRequest → Bool) (xs : List LandingRequest)
      → any (λ r. str_eq r.id id) xs ≡ false
      → any (λ r. str_eq r.id id) (filter q xs) ≡ false
  any-absent q [] h = refl
  any-absent q (x ∷ xs) h = ground (arith, any-absent q xs)

  find-absent :
      (xs : List LandingRequest)
      → any (λ r. str_eq r.id id) xs ≡ false
      → find (is_active_row id) xs ≡ none
  find-absent [] h = refl
  find-absent (x ∷ xs) h = ground (arith, find-absent xs)

  any-filter :
      (q : LandingRequest → Bool) (xs : List LandingRequest)
      → IsKeyed xs
      → any (λ r. str_eq r.id id) (filter (λ r. q r && is_none r.deleted_at) xs)
        ≡ passes q (find (is_active_row id) xs)
  unfolding passes
  any-filter q [] k = refl
  any-filter q (x ∷ xs) (free, k) = elim (Bool-cases (str_eq x.id id)) [
    | inl same ↦
        let alone : any (λ r. str_eq r.id id) xs ≡ false =
          ap (λ i. any (λ r. str_eq r.id i) xs) (sym ((eq_iff x.id id).0 same)) ∙ free in
        ground (arith, any-absent (λ r. q r && is_none r.deleted_at) xs alone, find-absent xs alone)
    | inr other ↦ ground (arith, any-filter q xs k)
  ]

  group_found : List AerodromeRow → Option LandingRequest → Option String
  group_found aerodromes none = none
  group_found aerodromes (some r) = group_of aerodromes r

  request_found : Option LandingRequest → Option Row
  request_found none = none
  request_found (some r) = some (request_row r)

  find_active-rows :
      (xs : List LandingRequest)
      → find_active (map request_row xs) id ≡ request_found (find (is_active_row id) xs)
  unfolding request_found
  find_active-rows [] = refl
  find_active-rows (x ∷ xs) = ground (arith, find_active-rows xs)

  group_row : Option Row → Option String
  group_row none = none
  group_row (some a) = some a.parent_id

  follow-rows :
      (rows : List AerodromeRow) (r : LandingRequest)
      → group_row (follow (map aerodrome_row rows) r.aerodrome_id) ≡ group_of rows r
  unfolding group_row
  follow-rows [] r = refl
  follow-rows (a ∷ rows) r = ground (arith, follow-rows rows r)

  resolve_group-rows :
      (users : List User) (aerodromes : List AerodromeRow) (requests : List LandingRequest)
      → resolve_group GroupScopeSubject.landing_request (guard_db users aerodromes requests) id
        ≡ group_found aerodromes (find (is_active_row id) requests)
  unfolding resolve_group group_found request_found group_row
  resolve_group-rows users aerodromes requests =
      elim (Option-cases (find (is_active_row id) requests)) [
        | inl gone ↦ rw (find_active-rows requests, gone) refl
        | inr (r, there) ↦
            rw (find_active-rows requests, there) (ground (arith, follow-rows aerodromes r))
      ]

abbrev pub HasGroups : List AerodromeRow → Type 0
HasGroups = All (λ a. is_empty a.group_id ≡ false)

group_of-full :
    (rows : List AerodromeRow) (r : LandingRequest) (g : String)
    → HasGroups rows
    → group_of rows r ≡ some g
    → is_empty g ≡ false
group_of-full [] r g h e = absurd (cc e)
group_of-full (a ∷ rows) r g (full, h) e = elim (Bool-cases (str_eq a.id r.aerodrome_id)) [
  | inl here ↦
      let same : a.group_id ≡ g = cc (rw (here, group_of) at e) in
      subst (λ x. is_empty x ≡ false) same full
  | inr there ↦ group_of-full rows r g h (rw (there, group_of) at e)
]

some-eq : {A : Type 0} {a b : A} → some a ≡ some b → a ≡ b
some-eq e = cc e

is_group_iff : (g : String) (x : Option String) → ((is_group g x && true) ≡ true) ↔ (x ≡ some g)
is_group_iff g none = (λ h. absurd (cc h), λ h. absurd (cc h))
is_group_iff g (some q) = ground (arith, eq_iff g q)

module _ (o : Outside) (users : List User) (t : Tables) (actor : AuthenticatedUser)
    (scoped : actor.role ≢ UserRole.admin) (id : String) where
  -- The tables in which the scope of an actor is read from the accounts of the guard.
  abbrev pub with_accounts : Tables
  with_accounts = record t { actors = active_lookup users }

  abbrev is_me : User → Bool
  is_me u = str_eq u.id actor.id && is_none u.deleted_at

  lists-missing :
      find is_me users ≡ none → lists id (found_rows o with_accounts no_filters actor) ≡ false
  unfolding found_rows
  lists-missing h =
      rw (resolve_operational_missing actor.role actor.id (active_lookup users) scoped (rw h refl))
        refl

  found_scope :
      (u : User)
      → find is_me users ≡ some u
      → resolve_operational_actor_scope actor.role actor.id (active_lookup users)
        ≡ ok (scope_from_actor_group_id u.group_id)
  found_scope u h =
      resolve_operational_found actor.role actor.id (active_lookup users)
        {u = record { group_id = u.group_id }} scoped (rw h refl)

  nothing : (x : Option LandingRequest) → passes id (λ r. false) x ≡ false
  unfolding passes
  nothing none = refl
  nothing (some r) = refl

  -- Where the account has no group, nothing is listed.
  lists-ungrouped :
      (u : User)
      → find is_me users ≡ some u
      → scope_from_actor_group_id u.group_id ≡ UserGroupScope.none
      → IsKeyed t.requests
      → lists id (found_rows o with_accounts no_filters actor) ≡ false
  unfolding found_rows build_landing_request_scoped_where
  lists-ungrouped u h e keyed =
      rw (found_scope u h, e)
        (any-order_by id (resolve_landing_request_order_by o.id_before none)
            (filter (λ r. false && is_none r.deleted_at) t.requests)
          ∙ any-filter id (λ r. false) t.requests keyed
          ∙ nothing (find (is_active_row id) t.requests))

  lists-grouped :
      (u : User) (g : String)
      → find is_me users ≡ some u
      → scope_from_actor_group_id u.group_id ≡ UserGroupScope.group g
      → IsKeyed t.requests
      → lists id (found_rows o with_accounts no_filters actor)
        ≡ passes id
            (λ r. is_group g (group_of t.aerodromes r) && true)
            (find (is_active_row id) t.requests)
  unfolding found_rows build_landing_request_scoped_where
  lists-grouped u g h e keyed =
      rw (found_scope u h, e)
        (any-order_by id (resolve_landing_request_order_by o.id_before none) (
            filter (λ r. (is_group g (group_of t.aerodromes r) && true) && is_none r.deleted_at)
              t.requests)
          ∙ any-filter id (λ r. is_group g (group_of t.aerodromes r) && true) t.requests keyed)

  -- What the guard asks of a request that names an id which is a UUID.
  abbrev IsMine : Type 0
  IsMine =
      (u : User) × (find is_me users ≡ some u)
      × (g : String) × (u.group_id ≡ some g)
      × (group_found id t.aerodromes (find (is_active_row id) t.requests) ≡ some g)

  grouped_iff :
      (u : User) (g : String)
      → find is_me users ≡ some u
      → u.group_id ≡ some g
      → is_empty g ≡ false
      → IsKeyed t.requests
      → (lists id (found_rows o with_accounts no_filters actor) ≡ true) ↔ IsMine
  unfolding group_found passes scope_from_actor_group_id
  grouped_iff u g h e full keyed =
      rw (lists-grouped u g h (rw (e, full) refl) keyed)
        (elim (Option-cases (find (is_active_row id) t.requests)) [
          | inl gone ↦ rw gone (λ k. absurd (cc k), λ (v, p, i, q, r). absurd (cc r))
          | inr (x, there) ↦
              let own = is_group_iff g (group_of t.aerodromes x) in
              rw there (
                λ k. (u, h, g, e, own.0 k),
                λ (v, p, i, q, r).
                    let same : v ≡ u = some-eq (sym p ∙ h) in
                    let mine : i ≡ g = some-eq (sym q ∙ ap (λ (y : User). y.group_id) same ∙ e) in
                    own.1 (r ∙ ap some mine),
              )
        ])

  ungrouped :
      (u : User)
      → find is_me users ≡ some u
      → scope_from_actor_group_id u.group_id ≡ UserGroupScope.none
      → HasGroups t.aerodromes
      → IsMine
      → ⊥
  unfolding group_found scope_from_actor_group_id
  ungrouped u h e full (v, p, g, q, r) = elim (Option-cases (find (is_active_row id) t.requests)) [
    | inl gone ↦ cc (rw gone at r)
    | inr (x, there) ↦
        let same : u ≡ v = some-eq (sym h ∙ p) in
        let own : u.group_id ≡ some g = ap (λ (y : User). y.group_id) same ∙ q in
        let big = group_of-full t.aerodromes x g full (rw (there, group_found) at r) in
        cc (rw (own, scope_from_actor_group_id, big) at e)
  ]

  listed_iff :
      IsKeyed t.requests
      → HasGroups t.aerodromes
      → (lists id (found_rows o with_accounts no_filters actor) ≡ true) ↔ IsMine
  unfolding scope_from_actor_group_id
  listed_iff keyed full = elim (Option-cases (find is_me users)) [
    | inl gone ↦
        rw (lists-missing gone) (λ k. absurd (cc k), λ (v, p, i, q, r). absurd (cc (sym gone ∙ p)))
    | inr (u, there) ↦ elim (Option-cases u.group_id) [
      | inl alone ↦
          let out : scope_from_actor_group_id u.group_id ≡ UserGroupScope.none = rw alone refl in
          rw (lists-ungrouped u there out keyed)
            (λ k. absurd (cc k), λ m. absurd (ungrouped u there out full m))
      | inr (g, grouped) ↦ elim (Bool-cases (is_empty g)) [
        | inl blank ↦
            let out : scope_from_actor_group_id u.group_id ≡ UserGroupScope.none =
              rw (grouped, scope_from_actor_group_id, blank) refl in
            rw (lists-ungrouped u there out keyed)
              (λ k. absurd (cc k), λ m. absurd (ungrouped u there out full m))
        | inr named ↦ grouped_iff u g there grouped named keyed
      ]
    ]
  ]

  -- For everybody but administrators, the unfiltered listing contains a request exactly when the
  -- guard of the group lets the same user through to it by its id, if that is a UUID, no two
  -- requests share an id, and every aerodrome has a group.
  pub listed-accessible :
      (request : ScopeRequest) (param : Option String)
      → request.user ≡ some actor
      → resource_id request (or_default param "id") ≡ some id
      → id ≢ ""
      → o.is_uuid id ≡ true
      → IsKeyed t.requests
      → HasGroups t.aerodromes
      → (lists id (found_rows o with_accounts no_filters actor) ≡ true) ↔ (
          group_scope_can_activate o.is_uuid
            (guard_db users t.aerodromes t.requests)
            (some GroupScopeSubject.landing_request)
            param
            request
          ≡ ok true)
  unfolding find_actor
  listed-accessible request param e named full uuid keyed grouped =
      let mine = listed_iff keyed grouped in
      let guard =
        group_scope_can_activate_iff o.is_uuid (guard_db users t.aerodromes t.requests)
          GroupScopeSubject.landing_request param request actor e scoped in
      let found = resolve_group-rows id users t.aerodromes t.requests in
      (
        λ k.
            let (u, p, g, q, r) = mine.0 k in
            guard.1 (id, named, (full, uuid, u, p, g, q, found ∙ r)),
        λ k.
            let (id', named', (f', uuid', u, p, g, q, r)) = guard.0 k in
            let same : id' ≡ id = some-eq (sym named' ∙ named) in
            mine.1 (
              u,
              p,
              g,
              q,
              sym found
                  ∙ ap
                      (λ i.
                        resolve_group GroupScopeSubject.landing_request
                          (guard_db users t.aerodromes t.requests) i)
                      (sym same)
                  ∙ r,
            ),
      )
