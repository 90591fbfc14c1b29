-- ===== src/Invites.antt =====
-- src/modules/users/services/resend-invite.service.ts and src/modules/users/events. An event is the
-- letter that its listener sends; the metadata of the token are left out.
pub mod Laws
pub mod Creation
mod Tests
use aerobi_api.Common.{List, [], ◌∷◌, ◌++◌, Option, String, ℕ, is_none, not}
use aerobi_api.Common.Errors.{HttpError, HttpStatus, ErrorCode, Result, http_error}
use aerobi_api.Common.Effects.{M, ◌>>=◌, ◌>>◌, pure, gets, modify, require, or_throw, lift}
use aerobi_api.Authz.Permissions.{UserRole}
use aerobi_api.Authz.Guards.{AuthenticatedUser}
use aerobi_api.Authz.Scope.{UserGroupScope, resolve_actor_group_scope}
use aerobi_api.Accounts.{User, Accounts, Token, TokenType}
use aerobi_api.Tokens.{DrawnToken, create_one_time_token, invite_minutes}
use aerobi_api.Administration.{
  actor_lookup, find_active_by_id, is_target_manageable_in_group, within_scope, is_none_scope,
  forbidden_user, user_not_found,
}

pub record UserInvitedEvent : Type 0 where
  pub user_id : String
  pub email : String
  pub name : String
  pub role : UserRole
  pub invite_token_plain : String
  pub expires_at : ℕ
  pub invited_by_name : Option String

pub record Invitations : Type 0 where
  pub accounts : Accounts
  pub events : List UserInvitedEvent

abbrev pub invite_already_accepted : HttpError
invite_already_accepted = http_error HttpStatus.conflict ErrorCode.invite_already_accepted []

abbrev pub scope_of : AuthenticatedUser → Accounts → Result UserGroupScope
scope_of actor s = resolve_actor_group_scope actor.role actor.id (actor_lookup s)

abbrev pub invited_event : User → String → Token → Option String → UserInvitedEvent
invited_event u plain t by = record {
  user_id = u.id;
  email = u.email;
  name = u.name;
  role = u.role;
  invite_token_plain = plain;
  expires_at = t.expires_at;
  invited_by_name = by;
}

abbrev create_invite_token : DrawnToken → String → M Invitations (String × Token)
create_invite_token d id s =
    let (r, a) = create_one_time_token d id TokenType.invite invite_minutes s.accounts in
    (r, record s { accounts = a })

-- `ResendInviteService.execute`.
unfoldable pub resend_invite :
    DrawnToken → String → AuthenticatedUser → Option String → M Invitations User
resend_invite d user_id actor actor_name = do
  scope ← (λ s. lift (scope_of actor s.accounts) s)
  require (not (is_none_scope scope)) forbidden_user
  found ← gets (λ s. find_active_by_id s.accounts user_id)
  user ← or_throw found (user_not_found user_id)
  require (within_scope is_target_manageable_in_group scope user) (user_not_found user_id)
  require (is_none user.accepted_invite_at) invite_already_accepted
  (plain, token_record) ← create_invite_token d user.id
  modify
      (λ s. record s { events = s.events ++ invited_event user plain token_record actor_name ∷ [] })
  pure user
