-- ===== src/Users/Laws.antt =====
-- What a reset of the password and the acceptance of an invitation leave behind.
use aerobi_api.Common.{
  ◌≡◌, ◌⊎◌, inl, inr, refl, ap, sym, ◌∙◌, Bool, false, List, [], ◌∷◌, none, some, String, str_eq,
  eq_refl, ℕ, ◌≤◌, any, count, find, is_none, arith, Bool-cases, Option-cases,
}
use aerobi_api.Common.Errors.{HttpError, ErrorCode, Result, ok, err, Result-cases}
use aerobi_api.Common.Effects.{pure, resume}
use aerobi_api.Accounts.{
  User, Accounts, Token, TokenType, create_refresh_token, update_where, revoke_all_for_user,
  is_live_of, revoke,
}
use aerobi_api.Accounts.Laws.{revoke_all-dead}
use aerobi_api.Tokens.{mark_as_used, validate, refused, is_open}
use aerobi_api.Tokens.Laws.{validate_found, validate_none, used_closes}
use aerobi_api.Sessions.{
  Crypto, Drawn, SessionContext, SessionResult, issue_token_pair, subject_of, find_user,
  sign_with_type, JwtTokenType,
}
use aerobi_api.Users.{
  find_by_email, update_user, set_password, reset_invalid, Clock, confirm_password_reset,
  accept_invite, accepted,
}

-- The search by the address finds the changed row of the account that it found before.
find_by_email-update :
    (f : User → User) (us : List User) (email : String) (u : User)
    → ((v : User) → (f v).email ≡ v.email)
    → find (λ v. str_eq v.email email) us ≡ some u
    → find (λ v. str_eq v.email email) (update_where (λ v. str_eq v.id u.id) f us) ≡ some (f u)
find_by_email-update f [] email u k e = cc
find_by_email-update f (v ∷ us) email u k e =
    ground (arith, k v, eq_refl u.id, find_by_email-update f us email u k)

outcome_cases :
    {A : Type 0} (r : Result A × Accounts)
    → ((a : A) × (t : Accounts) × (r ≡ (ok a, t)))
      ⊎ ((e : HttpError) × (t : Accounts) × (r ≡ (err e, t)))
outcome_cases (ok a, t) = inl (a, t, refl)
outcome_cases (err e, t) = inr (e, t, refl)

answered-users :
    {A B : Type 0} {b : B} {s' : Accounts} (r : Result A × Accounts) (f : A → B)
    → resume r (λ a. pure (f a)) ≡ (ok b, s')
    → s'.users ≡ r.1.users
answered-users (ok a, t) f e = sym (ap (λ p. p.1.users) e)
answered-users (err x, t) f e = absurd (cc (ap (λ p. p.0) e))

module _ (compare_token : String → String → Bool) (to_iso_string : ℕ → String)
    (hash_password : String → String) where
  -- What a reset that succeeds has found, and what it leaves.
  record Reset (at : Clock) (token password : String) (s s' : Accounts) (user : User) : Type 0 where
    good_token : Token
    validated :
        validate compare_token to_iso_string at.query at.check token user.id
          TokenType.password_reset s
        ≡ (ok good_token, s)
    users :
        s'.users
        ≡ update_where (λ v. str_eq v.id user.id) (set_password (hash_password password)) s.users
    tokens : s'.tokens ≡ (mark_as_used good_token.id s).1.tokens
    rows : s'.refresh_tokens ≡ update_where (is_live_of user.id) (revoke at.write) s.refresh_tokens

  confirm_ok :
      (at : Clock) (email token password : String) (s s' : Accounts) (user : User)
      → find_by_email s email ≡ some user
      → confirm_password_reset compare_token to_iso_string hash_password at email token password s
        ≡ (ok tt, s')
      → Reset at token password s s' user
  unfolding confirm_password_reset update_user mark_as_used revoke_all_for_user
  confirm_ok at email token password s s' user here e =
      elim (Bool-cases (is_none user.deleted_at)) [
        | inr gone ↦ absurd (cc (ap (λ p. p.0) (rw gone at (rw here at e))))
        | inl alive ↦
            let e1 = rw alive at (rw here at e) in
            elim (outcome_cases (
              validate compare_token to_iso_string at.query at.check token user.id
                TokenType.password_reset s)) [
                  | inr (bad, t, v) ↦ absurd (cc (ap (λ p. p.0) (rw v at e1)))
                  | inl (t, s1, v) ↦
                      let v' =
                        v
                        ∙ ap (λ x. (ok t, x))
                            (validate_found user.id TokenType.password_reset compare_token
                              to_iso_string at.query at.check token s s1 t v).0 in
                      let e2 = rw v' at e1 in
                      elim (Option-cases (find_user s user.id)) [
                        | inl out ↦ absurd (cc (ap (λ p. p.0) (rw out at e2)))
                        | inr (w, owner) ↦
                            let e3 = rw owner at e2 in
                            elim (Bool-cases (any (λ u. str_eq u.id t.id) s.tokens)) [
                              | inr lost ↦ absurd (cc (ap (λ p. p.0) (rw lost at e3)))
                              | inl kept ↦
                                  let e4 = rw kept at e3 in
                                  record {
                                    good_token = t;
                                    validated = v';
                                    users = sym (ap (λ p. p.1.users) e4);
                                    tokens = sym (ap (λ p. p.1.tokens) e4) ∙ rw kept refl;
                                    rows = sym (ap (λ p. p.1.refresh_tokens) e4);
                                  }
                            ]
                      ]
                ]
      ]

  -- A reset that succeeds gives the account the new password and leaves none of its sessions alive.
  pub confirm_password_reset-sessions :
      (at : Clock) (email token password : String) (s s' : Accounts) (user : User)
      → find_by_email s email ≡ some user
      → confirm_password_reset compare_token to_iso_string hash_password at email token password s
        ≡ (ok tt, s')
      → (find_by_email s' email ≡ some (set_password (hash_password password) user))
        × (any (is_live_of user.id) s'.refresh_tokens ≡ false)
  confirm_password_reset-sessions at email token password s s' user here e =
      let r = confirm_ok at email token password s s' user here e in
      (
        rw r.users (
            find_by_email-update (set_password (hash_password password)) s.users email user
              (λ v. refl) here),
        rw r.rows (revoke_all-dead user.id at.write s.refresh_tokens),
      )

  invalid_reset :
      (at : Clock) (email token password : String) (s : Accounts) (user : User)
      → find_by_email s email ≡ some user
      → count (is_open user.id TokenType.password_reset) s.tokens ≡ 0
      → confirm_password_reset compare_token to_iso_string hash_password at email token password s
        ≡ (err reset_invalid, s)
  unfolding confirm_password_reset
  invalid_reset at email token password s user here closed =
      elim (Bool-cases (is_none user.deleted_at)) [
        | inr gone ↦ rw here (rw gone refl)
        | inl alive ↦
            let bad =
              validate_none user.id TokenType.password_reset compare_token to_iso_string at.query
                at.check token s closed in
            rw here (rw alive (rw bad refl))
      ]

  -- A reset works once: where the account has one open reset token at most, every further attempt
  -- for its address is refused and changes nothing, whatever text and password it brings.
  confirm_password_reset-once :
      (at again : Clock) (email token other password password' : String) (s s' : Accounts)
      (user : User)
      → find_by_email s email ≡ some user
      → count (is_open user.id TokenType.password_reset) s.tokens ≤ 1
      → confirm_password_reset compare_token to_iso_string hash_password at email token password s
        ≡ (ok tt, s')
      → confirm_password_reset compare_token to_iso_string hash_password again email other password'
          s'
        ≡ (err reset_invalid, s')
  confirm_password_reset-once at again email token other password password' s s' user here one e =
      let r = confirm_ok at email token password s s' user here e in
      let found = (confirm_password_reset-sessions at email token password s s' user here e).0 in
      let closed =
        used_closes user.id TokenType.password_reset compare_token to_iso_string at.query at.check
          token s s r.good_token one r.validated in
      invalid_reset again email other password' s' (set_password (hash_password password) user)
        found (rw r.tokens closed)

  module _ (c : Crypto) (access_ttl refresh_ttl : String) where
    -- A new pair of tokens touches no account.
    issue_token_pair-users :
        (d : Drawn) (u : User) (context : SessionContext) (s : Accounts)
        → (issue_token_pair c access_ttl refresh_ttl d (subject_of u) context s).1.users ≡ s.users
    unfolding issue_token_pair create_refresh_token
    issue_token_pair-users d u context s =
        elim (Result-cases (
          sign_with_type c access_ttl refresh_ttl (subject_of u) JwtTokenType.access access_ttl
            d.access_jti)) [
              | inr (e, bad) ↦ rw bad refl
              | inl (short, good) ↦
                  rw good
                    (elim (Result-cases (
                      sign_with_type c access_ttl refresh_ttl (subject_of u) JwtTokenType.refresh
                        refresh_ttl d.refresh_jti)) [
                          | inr (e, bad) ↦ rw bad refl
                          | inl (long, good') ↦ rw good' (ground arith)
                        ])
            ]

    accept_ok :
        (at : Clock) (d : Drawn) (email token password name : String) (context : SessionContext)
        (s s' : Accounts) (user : User) (res : SessionResult)
        → find_by_email s email ≡ some user
        → accept_invite compare_token to_iso_string hash_password c access_ttl refresh_ttl at d
            email token password name context s
          ≡ (ok res, s')
        → (user.deleted_at ≡ none)
          × (user.accepted_invite_at ≡ none)
          × (s'.users
              ≡ update_where
                  (λ v. str_eq v.id user.id)
                  (accepted (hash_password password) name at.write)
                  s.users)
    unfolding accept_invite update_user mark_as_used
    accept_ok at d email token password name context s s' user res here e =
        elim (Bool-cases (is_none user.deleted_at)) [
          | inr gone ↦ absurd (cc (ap (λ p. p.0) (rw gone at (rw here at e))))
          | inl alive ↦
              let e1 = rw alive at (rw here at e) in
              elim (Bool-cases (is_none user.accepted_invite_at)) [
                | inr done ↦ absurd (cc (ap (λ p. p.0) (rw done at e1)))
                | inl new ↦
                    let e2 = rw new at e1 in
                    elim (outcome_cases (
                      validate compare_token to_iso_string at.query at.check token user.id
                        TokenType.invite s)) [
                          | inr (bad, t, v) ↦ absurd (cc (ap (λ p. p.0) (rw v at e2)))
                          | inl (t, s1, v) ↦
                              let v' =
                                v
                                ∙ ap (λ x. (ok t, x))
                                    (validate_found user.id TokenType.invite compare_token
                                      to_iso_string at.query at.check token s s1 t v).0 in
                              let e3 = rw v' at e2 in
                              elim (Option-cases (find_user s user.id)) [
                                | inl out ↦ absurd (cc (ap (λ p. p.0) (rw out at e3)))
                                | inr (w, owner) ↦
                                    let e4 = rw owner at e3 in
                                    elim (Bool-cases (any (λ u. str_eq u.id t.id) s.tokens)) [
                                      | inr lost ↦ absurd (cc (ap (λ p. p.0) (rw lost at e4)))
                                      | inl kept ↦ (
                                        ground (arith, alive),
                                        ground (arith, new),
                                        answered-users _ _ (rw kept at e4)
                                            ∙ issue_token_pair-users d
                                                (accepted (hash_password password) name at.write w)
                                                context _,
                                      )
                                    ]
                              ]
                        ]
              ]
        ]

    -- An invitation is accepted once. The acceptance that succeeds gives the account its password
    -- and name and verifies its address; every further one, with whatever token and password, is
    -- told that the invitation was accepted, and changes nothing.
    accept_invite-once :
        (at again : Clock) (d d' : Drawn) (email token other password password' name name' : String)
        (context context' : SessionContext) (s s' : Accounts) (user : User) (res : SessionResult)
        → find_by_email s email ≡ some user
        → accept_invite compare_token to_iso_string hash_password c access_ttl refresh_ttl at d
            email token password name context s
          ≡ (ok res, s')
        → (find_by_email s' email ≡ some (accepted (hash_password password) name at.write user))
          × (accept_invite compare_token to_iso_string hash_password c access_ttl refresh_ttl again
                d' email other password' name' context' s'
              ≡ (err (refused ErrorCode.invite_already_accepted), s'))
    unfolding accept_invite
    accept_invite-once at again d d' email token other password password' name name' context
          context' s s' user res here e =
        let (alive, new, rows) =
          accept_ok at d email token password name context s s' user res here e in
        let found : find_by_email s' email
            ≡ some (accepted (hash_password password) name at.write user) =
          rw rows (
            find_by_email-update (accepted (hash_password password) name at.write) s.users email
              user (λ v. refl) here) in
        (found, rw found (rw alive refl))
