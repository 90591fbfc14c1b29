-- ===== src/Invites/Creation.antt =====
-- src/modules/users/services/create-user.service.ts: who creates which account, and where it is put.
use aerobi_api.Common.{
  ◌≡◌, ◌≢◌, ◌⊎◌, Bool, true, false, ◌||◌, [], ◌∷◌, ◌++◌, Option, none, some, String, str_eq, ℕ, any,
  count,
}
use aerobi_api.Common.Errors.{HttpError, Result, ok}
use aerobi_api.Authz.Permissions.{UserRole}
use aerobi_api.Authz.Guards.{AuthenticatedUser}
use aerobi_api.Accounts.{User, Accounts, Token, TokenType}
use aerobi_api.Tokens.{DrawnToken, validate, issued_token, is_open, invite_minutes}
use aerobi_api.Administration.{
  CreateUserInput, find_active_by_id, is_falsy, forbidden_user, missing_group, email_taken,
}

-- An administrator creates every account, a coordinator operators and technicians.
abbrev pub MayCreate : UserRole → UserRole → Type 0
MayCreate actor role =
    (actor ≡ UserRole.admin)
    ⊎ ((actor ≡ UserRole.coordinator) × ((role ≡ UserRole.operator) ⊎ (role ≡ UserRole.technical)))

module _ (input : CreateUserInput) (actor : AuthenticatedUser) (s : Accounts) where
  -- The place of a new account: an administrator has none; a coordinator gives her own; otherwise
  -- the form names it.
  abbrev pub IsPlaced : Option String × Option String → Type 0
  IsPlaced (group_id, state) =
      ((input.role ≡ UserRole.admin) × (group_id ≡ none) × (state ≡ none))
      ⊎ ((input.role ≢ UserRole.admin)
          × (is_falsy group_id ≡ false)
          × (is_falsy state ≡ false)
          × (((actor.role ≡ UserRole.coordinator)
                × ((own : User) × (find_active_by_id s actor.id ≡ some own)
                    × (group_id ≡ own.group_id)
                    × (state ≡ own.state)))
              ⊎ ((actor.role ≢ UserRole.coordinator)
                  × (group_id ≡ input.group_id)
                  × (state ≡ input.state))))

  -- There is no place: the actor is a coordinator without one, or the form does not name it.
  abbrev pub IsUnplaced : HttpError → Type 0
  IsUnplaced e =
      (input.role ≢ UserRole.admin)
      × (((actor.role ≡ UserRole.coordinator)
            × (e ≡ forbidden_user)
            × ((find_active_by_id s actor.id ≡ none)
                ⊎ ((own : User) × (find_active_by_id s actor.id ≡ some own)
                    × ((is_falsy own.group_id || is_falsy own.state) ≡ true))))
          ⊎ ((actor.role ≢ UserRole.coordinator)
              × (e ≡ missing_group)
              × ((is_falsy input.group_id || is_falsy input.state) ≡ true)))

  -- Why a creation is refused.
  abbrev pub IsRefusal : HttpError → Type 0
  IsRefusal e =
      ((¬ MayCreate actor.role input.role) × (e ≡ forbidden_user))
      ⊎ (MayCreate actor.role input.role
          × (IsUnplaced e
              ⊎ ((any (λ u. str_eq u.email input.email) s.users ≡ true)
                  × (e ≡ email_taken input.email))))

  -- The account as the form describes it, without a password and not yet accepted.
  abbrev pub IsNewcomer : String → User → Type 0
  IsNewcomer id u =
      MayCreate actor.role input.role
      × IsPlaced (u.group_id, u.state)
      × (any (λ v. str_eq v.email u.email) s.users ≡ false)
      × (u.id ≡ id)
      × (u.email ≡ input.email)
      × (u.name ≡ input.name)
      × (u.role ≡ input.role)
      × (u.phone ≡ input.phone)
      × (u.password ≡ none)
      × (u.email_verified ≡ false)
      × (u.accepted_invite_at ≡ none)
      × (u.deleted_at ≡ none)

module _ (compare_token : String → String → Bool) (to_iso_string : ℕ → String) (id : String)
    (d : DrawnToken) (input : CreateUserInput) (actor : AuthenticatedUser) (s : Accounts) where
  abbrev pub invitation : Token
  invitation = issued_token d id TokenType.invite invite_minutes

  -- The account and its invitation.
  abbrev pub Created : ℕ → ℕ → Result User × Accounts → Type 0
  Created now now' (answer, s') =
      (u : User) × (answer ≡ ok u)
      × IsNewcomer input actor s id u
      × (s'.users ≡ s.users ++ u ∷ [])
      × (count (is_open id TokenType.invite) s'.tokens ≡ 1)
      × (validate compare_token to_iso_string now now' d.plain id TokenType.invite s'
          ≡ (ok invitation, s'))
