-- ===== src/Passwords/Laws.antt =====
-- What a change of the password leaves, and what a request for a reset brings about and gives away.
use aerobi_api.Common.{
  ◌≡◌, ◌⊎◌, inl, inr, refl, ap, sym, ◌∙◌, Bool, true, false, List, [], ◌∷◌, ◌++◌, none, some,
  String, str_eq, eq_refl, ℕ, ◌<◌, any, find, is_none, arith, Bool-cases, Option-cases,
}
use aerobi_api.Common.Errors.{ok, err}
use aerobi_api.Accounts.{
  User, Accounts, Token, TokenType, update_where, revoke_all_for_user, is_live_of, revoke,
}
use aerobi_api.Accounts.Laws.{revoke_all-dead}
use aerobi_api.Tokens.{
  DrawnToken, create_one_time_token, create_token, validate, compute_expires_at, mark_as_used,
  issued_token, set_invalid, is_open, password_reset_minutes, invalidate_by_subject_and_type,
}
use aerobi_api.Tokens.Laws.{validate-create}
use aerobi_api.Users.{find_by_email, update_user, set_password, Clock, confirm_password_reset}
use aerobi_api.Administration.{find_active_by_id, is_active_user}
use aerobi_api.Passwords.{
  Portal, ResetMail, change_password, knows_password, is_eligible, generic_message, account_deleted,
  invalid_credentials, request_password_reset, verify_password_reset_token,
}

-- A row that is found by one test is found by a wider one.
find-wider :
    {A : Type 0} (p q : A → Bool) (xs : List A) (x : A)
    → find p xs ≡ some x
    → q x ≡ true
    → (y : A) × (find q xs ≡ some y)
find-wider p q [] x e h = absurd (cc e)
find-wider p q (z ∷ xs) x e h = elim (Bool-cases (q z)) [
  | inl hit ↦ (z, rw hit refl)
  | inr miss ↦ elim (Bool-cases (p z)) [
    | inl first ↦ let same : z ≡ x = cc (rw first at e) in absurd (cc (sym miss ∙ ap q same ∙ h))
    | inr next ↦ rw miss (find-wider p q xs x (rw next at e) h)
  ]
]

find-own_id :
    (email : String) (us : List User) (u : User)
    → find (λ v. str_eq v.email email) us ≡ some u
    → (v : User) × (find (λ v. str_eq v.id u.id) us ≡ some v)
find-own_id email us u e =
    find-wider (λ v. str_eq v.email email) (λ v. str_eq v.id u.id) us u e (eq_refl u.id)

find-active_id :
    (id : String) (us : List User) (u : User)
    → find (is_active_user id) us ≡ some u
    → (v : User) × (find (λ v. str_eq v.id id) us ≡ some v)
find-active_id id [] u e = absurd (cc e)
find-active_id id (z ∷ us) u e = elim (Bool-cases (str_eq z.id id)) [
  | inl hit ↦ (z, rw hit refl)
  | inr miss ↦ rw miss (find-active_id id us u (rw miss at e))
]

module _ (compare_password : String → String → Bool) (hash_password : String → String)
    (actor_id current new : String) (now : ℕ) (s : Accounts) where
  abbrev pub changed : Accounts
  changed = record s {
    users = update_where (λ v. str_eq v.id actor_id) (set_password (hash_password new)) s.users;
    refresh_tokens = update_where (is_live_of actor_id) (revoke now) s.refresh_tokens;
  }

  -- A change of the own password has three outcomes. The account is gone, or the current password is
  -- wrong or was never set: it is refused, and nothing changes. Or it gives the account the new
  -- password and leaves none of its sessions alive.
  pub change_password-cases :
      let answer = change_password compare_password hash_password actor_id current new now s in
      ((find_active_by_id s actor_id ≡ none) × (answer ≡ (err account_deleted, s)))
      ⊎ ((u : User) × (find_active_by_id s actor_id ≡ some u)
          × (((knows_password compare_password current u.password ≡ false)
                × (answer ≡ (err invalid_credentials, s)))
              ⊎ ((knows_password compare_password current u.password ≡ true)
                  × (answer ≡ (ok tt, changed))
                  × (any (is_live_of actor_id) answer.1.refresh_tokens ≡ false))))
  unfolding change_password revoke_all_for_user update_user find_active_by_id
  change_password-cases = elim (Option-cases (find (is_active_user actor_id) s.users)) [
    | inl gone ↦ inl (gone, rw gone refl)
    | inr (u, there) ↦ elim (Bool-cases (knows_password compare_password current u.password)) [
      | inr wrong ↦ inr (u, there, inl (wrong, rw (there, wrong) refl))
      | inl right ↦
          let (v, own) = find-active_id actor_id s.users u there in
          inr (
            u,
            there,
            inr (
              right,
              rw (there, right, own) refl,
              rw (there, right, own) (revoke_all-dead actor_id now s.refresh_tokens),
            ),
          )
    ]
  ]

pub any-update :
    (id : String) (p : Token → Bool) (f : Token → Token) (ts : List Token)
    → ((t : Token) → (f t).id ≡ t.id)
    → any (λ t. str_eq t.id id) (update_where p f ts) ≡ any (λ t. str_eq t.id id) ts
any-update id p f [] k = refl
any-update id p f (t ∷ ts) k = ground (arith, k t, any-update id p f ts)

any-last :
    (id : String) (ts : List Token) (t : Token)
    → str_eq t.id id ≡ true
    → any (λ u. str_eq u.id id) (ts ++ t ∷ []) ≡ true
any-last id [] t h = ground arith
any-last id (u ∷ ts) t h = ground (arith, any-last id ts t)

module _ (d : DrawnToken) (s : Accounts) (subject : String)
    (free : any (λ t. str_eq t.id d.id) s.tokens ≡ false) where
  abbrev new_token : Token
  new_token = issued_token d subject TokenType.password_reset password_reset_minutes

  -- The accounts after the creation of a token.
  abbrev with_token : Accounts
  unfolding invalidate_by_subject_and_type
  with_token =
      let closed = invalidate_by_subject_and_type subject TokenType.password_reset d.now s in
      record closed { tokens = closed.tokens ++ new_token ∷ [] }

  create_lem :
      create_one_time_token d subject TokenType.password_reset password_reset_minutes s
      ≡ (ok (d.plain, new_token), with_token)
  unfolding create_one_time_token create_token invalidate_by_subject_and_type with_token
  create_lem =
      rw
        (any-update d.id (is_open subject TokenType.password_reset) (set_invalid d.now) s.tokens
            (λ t. refl)
          ∙ free)
        refl

abbrev pub letter : DrawnToken → User → ResetMail
letter d u = record {
  user_id = u.id;
  email = u.email;
  token = d.plain;
  expires_at = compute_expires_at d.now password_reset_minutes;
}

module _ (d : DrawnToken) (email : String) (s : Portal)
    (free : any (λ t. str_eq t.id d.id) s.accounts.tokens ≡ false) where
  request-eligible :
      (u : User)
      → find_by_email s.accounts email ≡ some u
      → is_eligible u ≡ true
      → request_password_reset d email s ≡ (
        ok generic_message,
        record s {
          accounts = with_token d s.accounts u.id free;
          mails = s.mails ++ letter d u ∷ [];
        },
      )
  unfolding request_password_reset
  request-eligible u there fit = rw (there, fit, create_lem d s.accounts u.id free) refl

  request-other :
      ((u : User) → find_by_email s.accounts email ≡ some u → is_eligible u ≡ false)
      → request_password_reset d email s ≡ (ok generic_message, s)
  unfolding request_password_reset
  request-other out = elim (Option-cases (find_by_email s.accounts email)) [
    | inl gone ↦ rw gone refl
    | inr (u, there) ↦ rw (there, out u there) refl
  ]

  request-answer : (request_password_reset d email s).0 ≡ ok generic_message
  unfolding request_password_reset
  request-answer = elim (Option-cases (find_by_email s.accounts email)) [
    | inl gone ↦ rw gone refl
    | inr (u, there) ↦ elim (Bool-cases (is_eligible u)) [
      | inl fit ↦ ap (λ p. p.0) (request-eligible u there fit)
      | inr out ↦ rw (there, out) refl
    ]
  ]

  -- The answer to a request for a reset is the same for every address, if the drawn id of the token
  -- is unused; and nothing changes unless an eligible account has the address.
  pub request_password_reset-alike :
      ((request_password_reset d email s).0 ≡ ok generic_message)
      × (((u : User) → find_by_email s.accounts email ≡ some u → is_eligible u ≡ false)
          → request_password_reset d email s ≡ (ok generic_message, s))
  request_password_reset-alike = (request-answer, request-other)

module _ (compare_token : String → String → Bool) (to_iso_string : ℕ → String)
    (hash_password : String → String) (d : DrawnToken) (at : Clock) (u : User)
    (fit : is_eligible u ≡ true) (known : compare_token d.plain d.token_hash ≡ true)
    (early : at.query < compute_expires_at d.now password_reset_minutes)
    (still : at.check < compute_expires_at d.now password_reset_minutes) where
  validated :
      (s : Accounts) (free : any (λ t. str_eq t.id d.id) s.tokens ≡ false)
      → validate compare_token to_iso_string at.query at.check d.plain u.id TokenType.password_reset
          (with_token d s u.id free)
        ≡ (ok (new_token d s u.id free), with_token d s u.id free)
  validated s free =
      validate-create u.id TokenType.password_reset compare_token to_iso_string d
        password_reset_minutes at.query at.check s (with_token d s u.id free) d.plain
        (new_token d s u.id free) (create_lem d s u.id free) known early still

  active : is_none u.deleted_at ≡ true
  active = ground arith

  verify-token :
      (email : String) (s : Accounts) (free : any (λ t. str_eq t.id d.id) s.tokens ≡ false)
      → find_by_email s email ≡ some u
      → verify_password_reset_token compare_token to_iso_string at email d.plain
          (with_token d s u.id free)
        ≡ (ok tt, with_token d s u.id free)
  unfolding verify_password_reset_token with_token
  verify-token email s free there = rw (there, active, validated s free) refl

  confirm-token :
      (email new : String) (s : Accounts) (free : any (λ t. str_eq t.id d.id) s.tokens ≡ false)
      → find_by_email s email ≡ some u
      → (confirm_password_reset compare_token to_iso_string hash_password at email d.plain new
          (with_token d s u.id free)).0
        ≡ ok tt
  unfolding confirm_password_reset update_user mark_as_used revoke_all_for_user with_token
  confirm-token email new s free there =
      let (v, own) = find-own_id email s.users u there in
      let closed =
        update_where (is_open u.id TokenType.password_reset) (set_invalid d.now) s.tokens in
      rw (there, active, validated s free)
        (rw (own, any-last d.id closed (new_token d s u.id free) (eq_refl d.id)) refl)

  -- A request for a reset can be completed. Where an eligible account has the address and the id of
  -- the token is unused, one letter goes out; until it expires its text passes the verification, and
  -- a reset with it succeeds, if bcrypt recognises the text by its hash.
  pub request_password_reset-completes :
      (email new : String) (s : Portal)
      → any (λ t. str_eq t.id d.id) s.accounts.tokens ≡ false
      → find_by_email s.accounts email ≡ some u
      → let after = (request_password_reset d email s).1 in
        (after.mails ≡ s.mails ++ letter d u ∷ [])
        × (verify_password_reset_token compare_token to_iso_string at email d.plain after.accounts
            ≡ (ok tt, after.accounts))
        × ((confirm_password_reset compare_token to_iso_string hash_password at email d.plain new
              after.accounts).0
            ≡ ok tt)
  request_password_reset-completes email new s free there =
      rw (request-eligible d email s free u there fit) (
        refl,
        verify-token email s.accounts free there,
        confirm-token email new s.accounts free there,
      )
