-- ===== src/Invites/Laws.antt =====
-- Who can send an invitation again, and what becomes of it.
use aerobi_api.Common.{
  ◌≡◌, ◌⊎◌, inl, inr, refl, ap, sym, ◌∙◌, Bool, true, false, [], ◌∷◌, ◌++◌, Option, some, String,
  str_eq, ℕ, ◌<◌, any, count, is_none, arith, Bool-cases, Option-cases,
}
use aerobi_api.Common.Errors.{HttpError, ok, err, Result-cases, ok-eq}
use aerobi_api.Authz.Guards.{AuthenticatedUser}
use aerobi_api.Authz.Scope.{UserGroupScope}
use aerobi_api.Accounts.{User, Accounts, TokenType}
use aerobi_api.Tokens.{
  DrawnToken, create_one_time_token, create_token, validate, compute_expires_at, issued_token,
  set_invalid, is_open, invite_minutes, invalidate_by_subject_and_type,
}
use aerobi_api.Tokens.Laws.{create-alone, validate-create}
use aerobi_api.Passwords.Laws.{any-update}
use aerobi_api.Administration.{
  find_active_by_id, is_target_manageable_in_group, within_scope, is_none_scope, forbidden_user,
  user_not_found,
}
use aerobi_api.Invites.{
  UserInvitedEvent, Invitations, scope_of, invited_event, resend_invite, invite_already_accepted,
}

-- The account is active, has not accepted its invitation, and lies within the scope of the actor.
abbrev pub CanResend : AuthenticatedUser → String → Accounts → User → Type 0
CanResend actor user_id s u =
    (scope : UserGroupScope) × (scope_of actor s ≡ ok scope)
    × (find_active_by_id s user_id ≡ some u)
    × (within_scope is_target_manageable_in_group scope u ≡ true)
    × (is_none u.accepted_invite_at ≡ true)

-- Of two scopes of one actor, and two accounts with one id, each is the other.
resend-same :
    (actor : AuthenticatedUser) (user_id : String) (s : Accounts) (scope : UserGroupScope)
    → scope_of actor s ≡ ok scope
    → (u : User) → CanResend actor user_id s u
    → (find_active_by_id s user_id ≡ some u)
      × (within_scope is_target_manageable_in_group scope u ≡ true)
      × (is_none u.accepted_invite_at ≡ true)
resend-same actor user_id s scope here u (scope', here', found, may, open') = (
  found,
  ap (λ x. within_scope is_target_manageable_in_group x u) (ok-eq (sym here ∙ here')) ∙ may,
  open',
)

pub created_fresh :
    (d : DrawnToken) (id : String) (s : Accounts)
    → any (λ t. str_eq t.id d.id) s.tokens ≡ false
    → (s' : Accounts) × (create_one_time_token d id TokenType.invite invite_minutes s
        ≡ (ok (d.plain, issued_token d id TokenType.invite invite_minutes), s'))
unfolding create_one_time_token create_token invalidate_by_subject_and_type
created_fresh d id s free = (
  (create_one_time_token d id TokenType.invite invite_minutes s).1,
  rw (any-update d.id (is_open id TokenType.invite) (set_invalid d.now) s.tokens (λ t. refl) ∙ free)
      refl,
)

within-some :
    (scope : UserGroupScope) (u : User)
    → within_scope is_target_manageable_in_group scope u ≡ true
    → is_none_scope scope ≡ false
within-some UserGroupScope.all u h = refl
within-some (UserGroupScope.group g) u h = refl
within-some UserGroupScope.none u h = absurd (ground (arith, h))

module _ (compare_token : String → String → Bool) (to_iso_string : ℕ → String) (d : DrawnToken)
    (user_id : String) (actor : AuthenticatedUser) (by : Option String) (s : Invitations) where
  abbrev pub fresh_event : User → UserInvitedEvent
  fresh_event u = invited_event u d.plain (issued_token d u.id TokenType.invite invite_minutes) by

  resend_invite-sends :
      (u : User) (now now' : ℕ)
      → any (λ t. str_eq t.id d.id) s.accounts.tokens ≡ false
      → CanResend actor user_id s.accounts u
      → compare_token d.plain d.token_hash ≡ true
      → now < compute_expires_at d.now invite_minutes
      → now' < compute_expires_at d.now invite_minutes
      → let (answer, s') = resend_invite d user_id actor by s in
        (answer ≡ ok u)
        × (s'.events ≡ s.events ++ fresh_event u ∷ [])
        × (count (is_open u.id TokenType.invite) s'.accounts.tokens ≡ 1)
        × (validate compare_token to_iso_string now now' d.plain u.id TokenType.invite s'.accounts
            ≡ (ok (issued_token d u.id TokenType.invite invite_minutes), s'.accounts))
  unfolding resend_invite
  resend_invite-sends u now now' free (scope, here, found, may, open') good h h' =
      let (a, e) = created_fresh d u.id s.accounts free in
      let (same, same', one, there) =
        create-alone u.id TokenType.invite d invite_minutes now s.accounts a d.plain _ e h in
      let passes =
        validate-create u.id TokenType.invite compare_token to_iso_string d invite_minutes now now'
          s.accounts a d.plain _ e good h h' in
      rw (here, within-some scope u may, found, may, open', e) (refl, refl, one, passes)

  -- A refusal changes nothing, and what is refused is nobody's to resend.
  resend_invite-decided :
      ((e : HttpError) × (resend_invite d user_id actor by s ≡ (err e, s))
        × ((u : User) → ¬ CanResend actor user_id s.accounts u))
      ⊎ ((u : User) × CanResend actor user_id s.accounts u)
  unfolding resend_invite
  resend_invite-decided = elim (Result-cases (scope_of actor s.accounts)) [
    | inr (e, bad) ↦ inl (e, rw bad refl, λ u (there, here, found, may, open'). cc (sym bad ∙ here))
    | inl (scope, here) ↦
        let same = resend-same actor user_id s.accounts scope here in
        elim (Bool-cases (is_none_scope scope)) [
          | inl nowhere ↦ inl (
            forbidden_user,
            rw (here, nowhere) refl,
            λ u c. cc (sym nowhere ∙ within-some scope u (same u c).1),
          )
          | inr somewhere ↦ elim (Option-cases (find_active_by_id s.accounts user_id)) [
            | inl gone ↦ inl (
              user_not_found user_id,
              rw (here, somewhere, gone) refl,
              λ u c. cc (sym gone ∙ (same u c).0),
            )
            | inr (v, found) ↦
                let only : (u : User) → CanResend actor user_id s.accounts u → u ≡ v =
                  λ u c. cc (sym (same u c).0 ∙ found) in
                elim (Bool-cases (within_scope is_target_manageable_in_group scope v)) [
                  | inr out ↦ inl (
                    user_not_found user_id,
                    rw (here, somewhere, found, out) refl,
                    λ u c. cc (
                        sym out
                        ∙ ap (within_scope is_target_manageable_in_group scope) (sym (only u c))
                        ∙ (same u c).1),
                  )
                  | inl may ↦ elim (Bool-cases (is_none v.accepted_invite_at)) [
                    | inr over ↦ inl (
                      invite_already_accepted,
                      rw (here, somewhere, found, may, over) refl,
                      λ u c. cc (
                          sym over
                          ∙ ap (λ x. is_none x.accepted_invite_at) (sym (only u c))
                          ∙ (same u c).2),
                    )
                    | inl open' ↦ inr (v, (scope, here, found, may, open'))
                  ]
                ]
          ]
        ]
  ]

  -- If the drawn id of the token is unused, a resend has two outcomes. It is refused, changes
  -- nothing, and the actor may resend the invitation of no account with the id. Or the actor may:
  -- one letter goes out, its token is the only open one of the account, and until it expires its
  -- text is good, if bcrypt recognises it by its hash.
  pub resend_invite-Outcome :
      (now now' : ℕ)
      → any (λ t. str_eq t.id d.id) s.accounts.tokens ≡ false
      → compare_token d.plain d.token_hash ≡ true
      → now < compute_expires_at d.now invite_minutes
      → now' < compute_expires_at d.now invite_minutes
      → let (answer, s') = resend_invite d user_id actor by s in
        ((e : HttpError) × (answer ≡ err e)
          × (s' ≡ s)
          × ((u : User) → ¬ CanResend actor user_id s.accounts u))
        ⊎ ((u : User) × CanResend actor user_id s.accounts u
            × (answer ≡ ok u)
            × (s'.events ≡ s.events ++ fresh_event u ∷ [])
            × (count (is_open u.id TokenType.invite) s'.accounts.tokens ≡ 1)
            × (validate compare_token to_iso_string now now' d.plain u.id TokenType.invite
                  s'.accounts
                ≡ (ok (issued_token d u.id TokenType.invite invite_minutes), s'.accounts)))
  resend_invite-Outcome now now' free good h h' = elim resend_invite-decided [
    | inl (e, refused, nobody) ↦ inl (e, ap (λ p. p.0) refused, ap (λ p. p.1) refused, nobody)
    | inr (u, can) ↦
        let (told, letter, one, passes) = resend_invite-sends u now now' free can good h h' in
        inr (u, can, told, letter, one, passes)
  ]
