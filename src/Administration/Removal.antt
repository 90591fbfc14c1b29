-- ===== src/Administration/Removal.antt =====
-- The removal of an account.
use aerobi_api.Common.{
  ◌≡◌, refl, true, false, List, [], ◌∷◌, none, some, String, str_eq, ℕ, find, any, inl, inr,
  Bool-cases, Option-cases, arith,
}
use aerobi_api.Common.Errors.{Result, ok, err, Result-cases}
use aerobi_api.Authz.Guards.{AuthenticatedUser}
use aerobi_api.Authz.Scope.{UserGroupScope, resolve_actor_group_scope}
use aerobi_api.Accounts.{User, Accounts, update_where, is_live_of}
use aerobi_api.Accounts.Laws.{revoke_all_for_user-dead}
use aerobi_api.Administration.{
  remove_user, find_active_by_id, is_active_user, actor_scope, actor_lookup, is_none_scope,
  within_scope, is_target_manageable_in_group, soft_delete, removed,
}

removed-none :
    (id : String) (now : ℕ) (us : List User)
    → find (is_active_user id) (update_where (λ u. str_eq u.id id) (removed now) us) ≡ none
removed-none id now [] = refl
removed-none id now (u ∷ us) = ground (arith, removed-none id now us)

-- After a removal the account is not found any more and has no session; it was not the actor's own
-- and lay within her scope. A refusal changes nothing.
module _ (id : String) (actor : AuthenticatedUser) (now later : ℕ) where
  abbrev pub Removed : Accounts → Result ℕ × Accounts → Type 0
  unfolding resolve_actor_group_scope actor_lookup find_active_by_id is_target_manageable_in_group
  Removed s (err e, t) = t ≡ s
  Removed s (ok n, t) =
      (str_eq id actor.id ≡ false)
      × ((scope : UserGroupScope) × (u : User) × (resolve_actor_group_scope actor.role actor.id
              (actor_lookup s)
            ≡ ok scope)
          × (find_active_by_id s id ≡ some u)
          × (within_scope is_target_manageable_in_group scope u ≡ true))
      × (find_active_by_id t id ≡ none)
      × (any (is_live_of id) t.refresh_tokens ≡ false)

  -- A removal of an account that succeeds is not of the own account, but of an active one within the
  -- scope of the actor; afterwards the account is not found as active and none of its sessions is
  -- alive. One that throws changes nothing.
  remove_user-Removed : (s : Accounts) → Removed s (remove_user id actor now later s)
  unfolding remove_user actor_scope find_active_by_id soft_delete
  remove_user-Removed s = elim (Bool-cases (str_eq id actor.id)) [
    | inl self ↦ rw self refl
    | inr other ↦
        elim (Result-cases (resolve_actor_group_scope actor.role actor.id (actor_lookup s))) [
          | inr (e, failed) ↦ rw (other, failed) refl
          | inl (scope, scoped) ↦ elim (Bool-cases (is_none_scope scope)) [
            | inl alone ↦ rw (other, scoped, alone) refl
            | inr placed ↦ elim (Option-cases (find (is_active_user id) s.users)) [
              | inl missing ↦ rw (other, scoped, placed, missing) refl
              | inr (u, found) ↦
                  elim (Bool-cases (within_scope is_target_manageable_in_group scope u)) [
                    | inr foreign ↦ rw (other, scoped, placed, found, foreign) refl
                    | inl fit ↦ elim (Bool-cases (any (λ v. str_eq v.id id) s.users)) [
                      | inr absent ↦ rw (other, scoped, placed, found, fit, absent) refl
                      | inl there ↦
                          rw (other, scoped, placed, found, fit, there)
                            (
                              other,
                              (scope, u, scoped, found, fit),
                              removed-none id now s.users,
                              revoke_all_for_user-dead id later (record s {
                                users = update_where (λ v. str_eq v.id id) (removed now) s.users;
                              }),
                            )
                    ]
                  ]
            ]
          ]
        ]
  ]
