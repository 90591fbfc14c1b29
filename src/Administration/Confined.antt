-- ===== src/Administration/Confined.antt =====
-- A coordinator changes no account outside her group, and no administrator.
use aerobi_api.Common.{
  ◌≡◌, ◌⊎◌, refl, Bool, true, false, not, ◌&&◌, ◌||◌, [], Option, none, some, String, str_eq, ℕ,
  find, any, filter, is_empty, inl, inr, Bool-cases, Option-cases, or_default, arith,
}
use aerobi_api.Common.Errors.{HttpError, HttpStatus, ErrorCode, http_error, Result, ok, err}
use aerobi_api.Common.Effects.{M}
use aerobi_api.Authz.Permissions.{UserRole}
use aerobi_api.Authz.Guards.{AuthenticatedUser}
use aerobi_api.Authz.Scope.{
  UserGroupScope, resolve_actor_group_scope, resolve_scope_for_roles, scope_from_actor_group_id,
}
use aerobi_api.Accounts.{User, Accounts, revoke_all_for_user}
use aerobi_api.Administration.{
  AdminUpdate, update_user, remove_user, find_active_by_id, is_active_user, actor_scope, in_group,
  is_admin_role, is_staff, is_target_editable_in_group, is_target_manageable_in_group,
  assert_can_assign_role, check_role, save_edit, edited, soft_delete, removed, exists_by_email,
  email_changed,
}
use aerobi_api.Administration.Rows.{WellFormed, filter-update}

-- The group of an active account.
abbrev group_of : Option User → Option String
group_of none = none
group_of (some u) = u.group_id

abbrev pub actor_group : Accounts → String → Option String
unfolding find_active_by_id
actor_group s id = group_of (find_active_by_id s id)

-- The accounts that a coordinator of the group must not touch.
abbrev pub outside : Option String → User → Bool
outside none u = true
outside (some g) u = is_admin_role u.role || not (in_group u.group_id g)

-- The scope of a coordinator.
pub scope-lem :
    (actor : AuthenticatedUser) (s : Accounts)
    → actor.role ≡ UserRole.coordinator
    → ((e : HttpError) × (actor_scope actor s ≡ (err e, s)))
      ⊎ ((actor_scope actor s ≡ (ok UserGroupScope.none, s))
          ⊎ ((g : String) × (actor_scope actor s ≡ (ok (UserGroupScope.group g), s))
              × (actor_group s actor.id ≡ some g)))
unfolding resolve_actor_group_scope resolve_scope_for_roles scope_from_actor_group_id
    find_active_by_id
scope-lem actor s h = elim (Option-cases (find_active_by_id s actor.id)) [
  | inl gone ↦
      inl (http_error HttpStatus.unauthorized ErrorCode.account_deleted [], rw (h, gone) refl)
  | inr (u, found) ↦ elim (Option-cases u.group_id) [
    | inl alone ↦ inr (inl (rw (h, found, alone) refl))
    | inr (g, has) ↦ elim (Bool-cases (is_empty g)) [
      | inl blank ↦ inr (inl (rw (h, found, has, blank) refl))
      | inr named ↦ inr (inr (g, rw (h, found, has, named) refl, rw (found, has) refl))
    ]
  ]
]

manageable-outside :
    (u : User) (g : String) → is_target_manageable_in_group u g ≡ true → outside (some g) u ≡ false
unfolding is_target_manageable_in_group
manageable-outside u g h = inside u.role h
  where
    inside :
        (r : UserRole)
        → (is_staff r && in_group u.group_id g) ≡ true
        → (is_admin_role r || not (in_group u.group_id g)) ≡ false
    inside UserRole.admin h = ground arith
    inside UserRole.coordinator h = ground arith
    inside UserRole.operator h = ground arith
    inside UserRole.technical h = ground arith

-- The accounts outside the coordinator's group are the same after a service as before.
abbrev pub Confined : {A : Type 0} → AuthenticatedUser → M Accounts A → Type 0
Confined actor m =
    (s : Accounts)
    → WellFormed s.users
    → filter (outside (actor_group s actor.id)) (m s).1.users
      ≡ filter (outside (actor_group s actor.id)) s.users

pub remove_user-Confined :
    (id : String) (actor : AuthenticatedUser) (now later : ℕ)
    → actor.role ≡ UserRole.coordinator
    → Confined actor (remove_user id actor now later)
unfolding remove_user soft_delete find_active_by_id revoke_all_for_user
remove_user-Confined id actor now later h s w = elim (Bool-cases (str_eq id actor.id)) [
  | inl self ↦ rw self refl
  | inr other ↦ elim (scope-lem actor s h) [
    | inl (e, failed) ↦ rw (other, failed) refl
    | inr (inl alone) ↦ rw (other, alone) refl
    | inr (inr (g, scoped, own)) ↦ elim (Option-cases (find (is_active_user id) s.users)) [
      | inl missing ↦ rw (other, scoped, missing) refl
      | inr (u, found) ↦ elim (Bool-cases (is_target_manageable_in_group u g)) [
        | inr foreign ↦ rw (other, scoped, found, foreign) refl
        | inl fit ↦ elim (Bool-cases (any (λ v. str_eq v.id id) s.users)) [
          | inr absent ↦ rw (other, scoped, found, fit, absent) refl
          | inl there ↦
              rw (other, scoped, found, fit, there, own)
                (filter-update (outside (some g)) id (removed now) s.users w found
                  (manageable-outside u g fit) (manageable-outside u g fit))
        ]
      ]
    ]
  ]
]

editable-outside :
    (u : User) (g : String) → is_target_editable_in_group u g ≡ true → outside (some g) u ≡ false
unfolding is_target_editable_in_group
editable-outside u g h = ground arith

check_role-admin :
    (dto : Option UserRole) (old : UserRole)
    → check_role UserRole.coordinator dto old ≡ ok tt
    → is_admin_role old ≡ false
    → is_admin_role (or_default dto old) ≡ false
unfolding assert_can_assign_role
check_role-admin none old e h = h
check_role-admin (some UserRole.admin) UserRole.admin e h = h
check_role-admin (some UserRole.admin) UserRole.coordinator e h = absurd (cc e)
check_role-admin (some UserRole.admin) UserRole.operator e h = absurd (cc e)
check_role-admin (some UserRole.admin) UserRole.technical e h = absurd (cc e)
check_role-admin (some UserRole.coordinator) old e h = refl
check_role-admin (some UserRole.operator) old e h = refl
check_role-admin (some UserRole.technical) old e h = refl

edited-outside :
    (dto : AdminUpdate) (u : User) (g : String)
    → is_target_editable_in_group u g ≡ true
    → check_role UserRole.coordinator dto.role u.role ≡ ok tt
    → outside (some g) (edited dto u) ≡ false
unfolding is_target_editable_in_group
edited-outside dto u g h e =
    let plain : is_admin_role u.role ≡ false = ground arith in
    let kept = check_role-admin dto.role u.role e plain in rw kept (ground arith)

pub Unit-result : (r : Result (Unit {0})) → (r ≡ ok tt) ⊎ ((e : HttpError) × (r ≡ err e))
Unit-result (ok tt) = inl refl
Unit-result (err e) = inr (e, refl)

pub update_user-Confined :
    (id : String) (dto : AdminUpdate) (actor : AuthenticatedUser) (now : ℕ)
    → actor.role ≡ UserRole.coordinator
    → Confined actor (update_user id dto actor now)
unfolding update_user find_active_by_id save_edit exists_by_email revoke_all_for_user
update_user-Confined id dto actor now h s w = elim (scope-lem actor s h) [
  | inl (e, failed) ↦ rw failed refl
  | inr (inl alone) ↦ rw alone refl
  | inr (inr (g, scoped, own)) ↦ elim (Option-cases (find (is_active_user id) s.users)) [
    | inl missing ↦ rw (scoped, missing) refl
    | inr (u, found) ↦ elim (Bool-cases (is_target_editable_in_group u g)) [
      | inr foreign ↦ rw (scoped, found, foreign) refl
      | inl fit ↦ elim (Unit-result (check_role UserRole.coordinator dto.role u.role)) [
        | inr (e, denied) ↦ rw (scoped, found, fit, h, denied) refl
        | inl allowed ↦ saved g u scoped own found fit allowed
      ]
    ]
  ]
]
  where
    saved :
        (g : String) (u : User)
        → actor_scope actor s ≡ (ok (UserGroupScope.group g), s)
        → actor_group s actor.id ≡ some g
        → find (is_active_user id) s.users ≡ some u
        → is_target_editable_in_group u g ≡ true
        → check_role UserRole.coordinator dto.role u.role ≡ ok tt
        → filter (outside (actor_group s actor.id)) (update_user id dto actor now s).1.users
          ≡ filter (outside (actor_group s actor.id)) s.users
    saved g u scoped own found fit allowed =
        let kept =
          filter-update (outside (some g)) id (edited dto) s.users w found
            (editable-outside u g fit) (edited-outside dto u g fit allowed) in
        elim (Bool-cases
          (any (λ v. not (str_eq v.id id) && str_eq v.email (edited dto u).email) s.users)) [
            | inl clash ↦ elim (Bool-cases (email_changed dto.email u)) [
              | inl new ↦
                  elim (Bool-cases
                    (any (λ v. str_eq v.email (or_default dto.email u.email)) s.users)) [
                      | inl taken ↦ rw (scoped, found, fit, h, allowed, new, taken) refl
                      | inr free ↦ rw (scoped, found, fit, h, allowed, new, free, clash) refl
                    ]
              | inr same ↦ rw (scoped, found, fit, h, allowed, same, clash) refl
            ]
            | inr clear ↦ elim (Bool-cases (email_changed dto.email u)) [
              | inl new ↦
                  elim (Bool-cases
                    (any (λ v. str_eq v.email (or_default dto.email u.email)) s.users)) [
                      | inl taken ↦ rw (scoped, found, fit, h, allowed, new, taken) refl
                      | inr free ↦ rw (scoped, found, fit, h, allowed, new, free, clear, own) kept
                    ]
              | inr same ↦ rw (scoped, found, fit, h, allowed, same, clear, own) kept
            ]
          ]
