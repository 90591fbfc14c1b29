-- ===== src/Invites/Tests.antt =====
-- A coordinator sends the invitation of an operator of the group again, and invites a technician.
use aerobi_api.Common.{
  ◌≡◌, ◌⊎◌, refl, false, [], ◌∷◌, ◌++◌, Option, none, some, String, str_eq, arith, count,
  if◌then◌else◌,
}
use aerobi_api.Common.Errors.{HttpError, ok, err}
use aerobi_api.Authz.Permissions.{UserRole}
use aerobi_api.Authz.Guards.{AuthenticatedUser}
use aerobi_api.Authz.Scope.{
  resolve_actor_group_scope, resolve_scope_for_roles, scope_from_actor_group_id,
}
use aerobi_api.Administration.{CreateUserInput, find_active_by_id, is_target_manageable_in_group}
use aerobi_api.Accounts.{User, TokenType}
use aerobi_api.Tokens.{DrawnToken, validate, issued_token, is_open, invite_minutes}
use aerobi_api.Invites.{Invitations, resend_invite, invite_already_accepted}
use aerobi_api.Invites.Laws.{CanResend, fresh_event, resend_invite-Outcome}

abbrev member : String → UserRole → Option String → User
member id role group_id = record {
  id = id;
  email = id;
  name = id;
  phone = none;
  password = none;
  role = role;
  group_id = group_id;
  state = some "AC";
  email_verified = false;
  accepted_invite_at = if str_eq id "bia" then none else some 1;
  last_login_at = none;
  deleted_at = none;
}

abbrev invitations : Invitations
invitations = record {
  accounts = record {
    users =
        member "caio" UserRole.coordinator (some "north")
        ∷ member "bia" UserRole.operator (some "north")
        ∷ member "davi" UserRole.operator (some "north")
        ∷ [];
    refresh_tokens = [];
    tokens = [];
  };
  events = [];
}

abbrev caio : AuthenticatedUser
caio = record { id = "caio"; email = "caio@aerobi.br"; role = UserRole.coordinator }

abbrev drawn : DrawnToken
drawn = record { id = "t9"; plain = "welcome"; token_hash = "welcome"; now = 10 }

accepted_before :
    resend_invite drawn "davi" caio none invitations ≡ (err invite_already_accepted, invitations)
unfolding resend_invite resolve_actor_group_scope resolve_scope_for_roles find_active_by_id
    is_target_manageable_in_group scope_from_actor_group_id
accepted_before = refl

resent_example :
    let (answer, s') = resend_invite drawn "bia" caio (some "Caio") invitations in
    ((e : HttpError) × (answer ≡ err e)
      × (s' ≡ invitations)
      × ((u : User) → ¬ CanResend caio "bia" invitations.accounts u))
    ⊎ ((u : User) × CanResend caio "bia" invitations.accounts u
        × (answer ≡ ok u)
        × (s'.events
            ≡ []
              ++ fresh_event str_eq (λ t. "later") drawn "bia" caio (some "Caio") invitations u
                ∷ [])
        × (count (is_open u.id TokenType.invite) s'.accounts.tokens ≡ 1)
        × (validate str_eq (λ t. "later") 20 21 "welcome" u.id TokenType.invite s'.accounts
            ≡ (ok (issued_token drawn u.id TokenType.invite invite_minutes), s'.accounts)))
resent_example =
    resend_invite-Outcome str_eq (λ t. "later") drawn "bia" caio (some "Caio") invitations 20 21
      refl refl (omega arith) (omega arith)

abbrev newcomer : CreateUserInput
newcomer = record {
  email = "eva@aerobi.br";
  name = "Eva";
  role = UserRole.technical;
  group_id = some "south";
  state = some "AM";
  phone = none;
}
