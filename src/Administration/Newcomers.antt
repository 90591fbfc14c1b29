-- ===== src/Administration/Newcomers.antt =====
-- A coordinator puts new accounts in her own group.
use aerobi_api.Common.{
  ◌≡◌, ◌⊎◌, refl, ap, subst, true, false, not, ◌||◌, [], ◌∷◌, ◌++◌, Option, some, String, str_eq,
  eq_refl, find, any, inl, inr, Bool-cases, Option-cases, arith,
}
use aerobi_api.Common.Errors.{HttpError, Result, ok, err}
use aerobi_api.Common.Effects.{pure, resume}
use aerobi_api.Authz.Permissions.{UserRole}
use aerobi_api.Authz.Guards.{AuthenticatedUser}
use aerobi_api.Accounts.{User, Accounts, TokenType}
use aerobi_api.Tokens.{
  DrawnToken, create_one_time_token, create_token, invite_minutes, invalidate_by_subject_and_type,
}
use aerobi_api.Administration.{
  CreateUserInput, create_user, find_active_by_id, is_active_user, in_group, is_admin_role,
  is_staff, is_falsy, forbidden_user, resolve_group_and_state, assert_can_manage_target_role,
  insert_user, new_user, is_taken, exists_by_email,
}
use aerobi_api.Administration.Rows.{filter-append}
use aerobi_api.Administration.Confined.{Confined, actor_group, outside, Unit-result}

pub invite-users :
    (d : DrawnToken) (id : String) (s : Accounts)
    → (create_one_time_token d id TokenType.invite invite_minutes s).1.users ≡ s.users
unfolding create_one_time_token create_token invalidate_by_subject_and_type
invite-users d id s =
    elim (Bool-cases (
      any (λ u. str_eq u.id d.id)
        (invalidate_by_subject_and_type id TokenType.invite d.now s).tokens)) [
          | inl taken ↦ rw taken refl
          | inr free ↦ rw free refl
        ]

staff-plain : (r : UserRole) → is_staff r ≡ true → is_admin_role r ≡ false
staff-plain UserRole.admin h = absurd (cc h)
staff-plain UserRole.coordinator h = refl
staff-plain UserRole.operator h = refl
staff-plain UserRole.technical h = refl

creatable :
    (r : UserRole)
    → assert_can_manage_target_role UserRole.coordinator r ≡ ok tt
    → is_staff r ≡ true
unfolding assert_can_manage_target_role
creatable UserRole.admin e = absurd (cc e)
creatable UserRole.coordinator e = absurd (cc e)
creatable UserRole.operator e = refl
creatable UserRole.technical e = refl

resume-pure : {A : Type 0} (r : Result A × Accounts) (u : User) → (resume r (λ a. pure u)).1 ≡ r.1
resume-pure (ok a, t) u = refl
resume-pure (err e, t) u = refl

-- Where a coordinator puts a new account: her own group.
place-lem :
    (actor : AuthenticatedUser) (input : CreateUserInput) (s : Accounts)
    → actor.role ≡ UserRole.coordinator
    → is_staff input.role ≡ true
    → ((e : HttpError) × (resolve_group_and_state actor input s ≡ err e))
      ⊎ ((g : String) × (state : Option String) × (resolve_group_and_state actor input s
            ≡ ok (some g, state))
          × (actor_group s actor.id ≡ some g))
unfolding resolve_group_and_state find_active_by_id
place-lem actor input s h staff =
    let plain = staff-plain input.role staff in
    elim (Option-cases (find (is_active_user actor.id) s.users)) [
      | inl gone ↦ inl (forbidden_user, rw (plain, h, gone) refl)
      | inr (u, found) ↦ elim (Bool-cases (is_falsy u.group_id || is_falsy u.state)) [
        | inl lacks ↦ inl (forbidden_user, rw (plain, h, found, lacks) refl)
        | inr full ↦ elim (Option-cases u.group_id) [
          | inl alone ↦ absurd (cc (rw alone at full))
          | inr (g, has) ↦
              inr (g, u.state, rw (plain, h, found, full, has) refl, rw (found, has) refl)
        ]
      ]
    ]

pub create_user-Confined :
    (id : String) (d : DrawnToken) (input : CreateUserInput) (actor : AuthenticatedUser)
    → actor.role ≡ UserRole.coordinator
    → Confined actor (create_user id d input actor)
unfolding create_user exists_by_email insert_user
create_user-Confined id d input actor h s w =
    elim (Unit-result (assert_can_manage_target_role actor.role input.role)) [
      | inr (e, denied) ↦ rw denied refl
      | inl allowed ↦ elim (place-lem actor input s h (may allowed)) [
        | inl (e, nowhere) ↦ rw (allowed, nowhere) refl
        | inr (g, state, place, own) ↦
            elim (Bool-cases (any (λ u. str_eq u.email input.email) s.users)) [
              | inl taken ↦ rw (allowed, place, taken) refl
              | inr free ↦ elim (Bool-cases (is_taken s.users id input.email)) [
                | inl clash ↦ rw (allowed, place, free, clash) refl
                | inr clear ↦
                    let u = new_user id input (some g, state) in
                    let s' : Accounts = record s { users = s.users ++ u ∷ [] } in
                    rw (allowed, place, free, clear)
                      (rw
                        (
                          ap (λ t. t.users)
                              (resume-pure
                                (create_one_time_token d id TokenType.invite invite_minutes s') u),
                          invite-users d id s',
                          own,
                        )
                        (filter-append (outside (some g)) s.users u
                          (new-outside input.role g (may allowed))))
              ]
            ]
      ]
    ]
  where
    may : assert_can_manage_target_role actor.role input.role ≡ ok tt → is_staff input.role ≡ true
    may e =
        creatable input.role (subst (λ r. assert_can_manage_target_role r input.role ≡ ok tt) h e)

    new-outside :
        (r : UserRole) (g : String)
        → is_staff r ≡ true
        → (is_admin_role r || not (in_group (some g) g)) ≡ false
    new-outside r g staff = rw (staff-plain r staff) (ground (arith, eq_refl g))
