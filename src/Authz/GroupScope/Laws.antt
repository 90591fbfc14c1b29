-- ===== src/Authz/GroupScope/Laws.antt =====
-- Who passes the group guard, and what the guard gives away.
use aerobi_api.Common.{
  ◌≡◌, ◌≢◌, ◌↔◌, refl, Bool, true, false, Option, none, some, String, eq_iff, is_empty_iff, eq_refl,
  ap, inl, inr, Bool-cases, arith, or_default,
}
use aerobi_api.Common.Errors.{ok}
use aerobi_api.Authz.Permissions.{UserRole}
use aerobi_api.Authz.Guards.{AuthenticatedUser}
use aerobi_api.Authz.Resolvers.{GroupScopeSubject, Db, User, resolve_group}
use aerobi_api.Authz.GroupScope.{
  ScopeRequest, group_scope_can_activate, resource_id, find_actor, same_group, is_usable, is_admin,
  decide, actor_decision,
}

admin_false : (role : UserRole) → role ≢ UserRole.admin → is_admin role ≡ false
admin_false UserRole.admin r = absurd (r refl)
admin_false _ r = refl

same_group_parts :
    (mine resource : Option String)
    → same_group mine resource ≡ true
    → (g : String) × (mine ≡ some g) × (resource ≡ some g)
same_group_parts none none h = cc
same_group_parts none (some g) h = cc
same_group_parts (some own) none h = cc
same_group_parts (some own) (some g) h = (g, ap some ((eq_iff own g).0 h), refl)

module _ (is_uuid : String → Bool) where
  usable_iff :
      (id : String) → (is_usable is_uuid (some id) ≡ true) ↔ ((id ≢ "") × (is_uuid id ≡ true))
  usable_iff id = ground (arith, is_empty_iff id)

  -- Past the metadata and the account's role, the guard is its decision on the resource.
  activate-decide :
      (db : Db) (subject : GroupScopeSubject) (param : Option String) (request : ScopeRequest)
      (user : AuthenticatedUser)
      → request.user ≡ some user
      → user.role ≢ UserRole.admin
      → group_scope_can_activate is_uuid db (some subject) param request
        ≡ decide is_uuid db subject
            (or_default param "id")
            user
            (resource_id request (or_default param "id"))
  unfolding group_scope_can_activate
  activate-decide db subject param request user e r =
      rw (e, group_scope_can_activate) (rw (admin_false user.role r))

  actor_decision_iff :
      (o : Option User) (resource : Option String) (subject : GroupScopeSubject) (id : String)
      → (actor_decision o resource subject id ≡ ok true)
        ↔ ((u : User) × (o ≡ some u) × (g : String) × (u.group_id ≡ some g) × (resource ≡ some g))
  actor_decision_iff none resource subject id = (λ h. cc h, λ (u, e, g, p, q). cc e)
  actor_decision_iff (some u) resource subject id = (
    λ h. let (g, p, q) = same_group_parts u.group_id resource (ground arith) in (u, refl, g, p, q),
    λ (v, e, g, p, q).
        let same : u ≡ v = cc e in
        let mine : u.group_id ≡ some g = rw same p in rw (mine, q) (rw (eq_refl g)),
  )

  abbrev pub Granted : Db → GroupScopeSubject → AuthenticatedUser → String → Type 0
  Granted db subject user id =
      (id ≢ "")
      × (is_uuid id ≡ true)
      × (u : User) × (find_actor db user.id ≡ some u)
      × (g : String) × (u.group_id ≡ some g)
      × (resolve_group subject db id ≡ some g)

  decide_iff :
      (db : Db) (subject : GroupScopeSubject) (name : String) (user : AuthenticatedUser)
      (o : Option String)
      → (decide is_uuid db subject name user o ≡ ok true)
        ↔ ((id : String) × (o ≡ some id) × Granted db subject user id)
  decide_iff db subject name user none = (λ h. cc h, λ (id, e, h). cc e)
  decide_iff db subject name user (some id) = elim (Bool-cases (is_usable is_uuid (some id))) [
    | inl fine ↦
        let known =
          actor_decision_iff (find_actor db user.id) (resolve_group subject db id) subject id in
        rw fine (
          λ h.
              let (u, e, g, p, q) = known.0 h in
              let (full, uuid) = (usable_iff id).0 fine in (id, refl, (full, uuid, u, e, g, p, q)),
          λ (id', e, (full, uuid, u, f, g, p, q)).
              let same : id ≡ id' = cc e in known.1 (u, f, g, p, rw same q),
        )
    | inr bad ↦ rw bad (
      λ h. cc h,
      λ (id', e, h).
          let same : id ≡ id' = cc e in
          let good : is_usable is_uuid (some id) ≡ true =
            (usable_iff id).1 (rw same h.0, rw same h.1) in
          cc,
    )
  ]

  -- A user who is no administrator passes exactly when the request names the resource by a UUID, the
  -- user's account is active, and the resource exists in the user's own group.
  pub group_scope_can_activate_iff :
      (db : Db) (subject : GroupScopeSubject) (param : Option String) (request : ScopeRequest)
      (user : AuthenticatedUser)
      → request.user ≡ some user
      → user.role ≢ UserRole.admin
      → (group_scope_can_activate is_uuid db (some subject) param request ≡ ok true) ↔ (
          (id : String) × (resource_id request (or_default param "id") ≡ some id)
          × Granted db subject user id)
  unfolding group_scope_can_activate
  group_scope_can_activate_iff db subject param request user e r =
      let name = or_default param "id" in
      rw (activate-decide db subject param request user e r) (decide_iff db subject name user _)

  -- Two databases that agree on the actor, and in each of which the actor has no access to the
  -- resource, give the same answer: whether the resource exists elsewhere cannot be told.
  pub group_scope_can_activate-hides :
      (db db' : Db) (subject : GroupScopeSubject) (param : Option String) (request : ScopeRequest)
      (user : AuthenticatedUser)
      → request.user ≡ some user
      → find_actor db user.id ≡ find_actor db' user.id
      → (group_scope_can_activate is_uuid db (some subject) param request ≢ ok true)
      → (group_scope_can_activate is_uuid db' (some subject) param request ≢ ok true)
      → group_scope_can_activate is_uuid db (some subject) param request
        ≡ group_scope_can_activate is_uuid db' (some subject) param request
  unfolding group_scope_can_activate
  group_scope_can_activate-hides db db' subject param request user e same refused refused' =
      ground arith
