-- ===== src/Sessions/Laws.antt =====
-- What a refresh checks, and what a rotation makes of the rows.
use aerobi_api.Common.{
  ◌≡◌, ◌≢◌, refl, true, false, List, [], ◌∷◌, none, some, String, str_eq, eq_iff, if◌then◌else◌,
  any, sym, ◌∙◌, ap, subst, ◌++◌, ◌⊎◌, inl, inr, ℕ, ◌<◌, arith,
}
use aerobi_api.Common.Errors.{Result-cases, ok-eq, HttpError, ErrorCode, ok, err}
use aerobi_api.Common.Effects.{◌>>=◌, pure, >>=-eq-ok, lift-eq-ok, or_throw-eq-ok, lift, or_throw}
use aerobi_api.Accounts.{
  User, RefreshToken, Accounts, find_by_jti, revoke_all_for_user, update_where, replace_by,
  is_taken, new_refresh_token, CreateRefreshTokenData, create_refresh_token, update_refresh_token,
  database_error,
}
use aerobi_api.Sessions.{
  Crypto, JwtPayload, JwtTokenType, check_refresh, check_row, verify_refresh_token, Drawn,
  SessionContext, SessionResult, IssuedTokenPair, sign_with_type, token_data, token_pair,
  JwtSubject, SignedToken, rotate_token_pair, rotate, refresh_session, subject_of, session_user,
  find_user, unauthorized_code,
}

-- The row that a rotation adds.
abbrev pub issued : Crypto → Drawn → User → SessionContext → SessionResult → RefreshToken
issued c d user context res = new_refresh_token d.row_id (record {
  jti = d.refresh_jti;
  token_hash = c.sha256 res.pair.refresh_token;
  user_id = user.id;
  expires_at = res.pair.refresh_expires_at;
  user_agent = context.user_agent;
  ip_address = context.ip_address;
})

module _ (c : Crypto) (access_ttl refresh_ttl : String) where
  -- What the row must be for its holder to get a new pair.
  pub record RowIsFit (now : ℕ) (token : String) (s : Accounts) (row : RefreshToken) (user : User)
      : Type 0 where
    pub hashed : row.token_hash ≡ c.sha256 token
    pub kept : row.deleted_at ≡ none
    pub unrevoked : row.revoked ≡ false
    pub fresh : now < row.expires_at
    pub owned : find_user s row.user_id ≡ some user
    pub active : user.deleted_at ≡ none

  pub check_row_ok :
      (now : ℕ) (token : String) (s s' : Accounts) (r row : RefreshToken) (user : User)
      → check_row c access_ttl refresh_ttl now token r s ≡ (ok (row, user), s')
      → (s' ≡ s) × (row ≡ r) × RowIsFit now token s r user
  unfolding check_row
  check_row_ok now token s s' r row user e = ground (arith, eq_iff r.token_hash (c.sha256 token))

  -- A holder who is refused changes nothing, unless the token was revoked: then every session of its
  -- user is revoked.
  pub check_row_err :
      (now : ℕ) (token : String) (s s' : Accounts) (r : RefreshToken) (e : HttpError)
      → check_row c access_ttl refresh_ttl now token r s ≡ (err e, s')
      → ((s' ≡ s) × (e ≢ unauthorized_code ErrorCode.refresh_token_reuse_detected))
        ⊎ ((e ≡ unauthorized_code ErrorCode.refresh_token_reuse_detected)
            × (r.token_hash ≡ c.sha256 token)
            × (r.revoked ≡ true)
            × (s' ≡ (revoke_all_for_user r.user_id now s).1))
  unfolding check_row
  check_row_err now token s s' r e h = ground (arith, eq_iff r.token_hash (c.sha256 token))

  -- What the token and its row must be for its holder to get a new pair.
  pub record MayRefresh (now : ℕ) (token : String) (s : Accounts) (row : RefreshToken) (user : User)
      : Type 0 where
    pub payload : JwtPayload
    pub verified : verify_refresh_token c access_ttl refresh_ttl now token ≡ ok payload
    pub found : find_by_jti s payload.jti ≡ some row
    pub fit : RowIsFit now token s row user

  pub check_ok :
      (now : ℕ) (token : String) (s s' : Accounts) (row : RefreshToken) (user : User)
      → check_refresh c access_ttl refresh_ttl now token s ≡ (ok (row, user), s')
      → (s' ≡ s) × MayRefresh now token s row user
  unfolding check_refresh
  check_ok now token s s' row user e =
      let (payload, t, v, e') =
        >>=-eq-ok (lift (verify_refresh_token c access_ttl refresh_ttl now token)) _ s e in
      let (r, u, f, e'') = >>=-eq-ok (or_throw (find_by_jti t payload.jti) _) _ t e' in
      let (v', same) = lift-eq-ok (verify_refresh_token c access_ttl refresh_ttl now token) s v in
      let (f', same') = or_throw-eq-ok (find_by_jti t payload.jti) _ t f in
      let (kept, here, fit) = check_row_ok now token u s' r row user e'' in
      let found' = subst (λ st. find_by_jti st payload.jti ≡ some r) same f' ∙ ap some (sym here) in
      let fit' =
        subst (λ st. RowIsFit now token st row user) (same' ∙ same)
          (subst (λ q. RowIsFit now token u q user) (sym here) fit) in
      (kept ∙ same' ∙ same, record { payload = payload; verified = v'; found = found'; fit = fit' })

  -- What a rotation makes of the rows.
  pub record Rotated (d : Drawn) (s s' : Accounts) (row : RefreshToken) (user : User)
      (context : SessionContext) (res : SessionResult) : Type 0 where
    pub users : s'.users ≡ s.users
    pub tokens : s'.tokens ≡ s.tokens
    pub signed :
        sign_with_type c access_ttl refresh_ttl
          (subject_of user)
          JwtTokenType.refresh
          refresh_ttl
          d.refresh_jti
        ≡ ok (record {
          token = res.pair.refresh_token;
          expires_at = res.pair.refresh_expires_at;
          jti = d.refresh_jti;
        })
    pub rows :
        s'.refresh_tokens
        ≡ update_where
            (λ r. str_eq r.id row.id)
            (replace_by d.row_id d.now)
            (s.refresh_tokens ++ issued c d user context res ∷ [])
    pub unused : is_taken s.refresh_tokens d.row_id d.refresh_jti ≡ false

  abbrev rotated_rows : String → RefreshToken → ℕ → List RefreshToken → List RefreshToken
  rotated_rows current_id new now rs =
      update_where (λ r. str_eq r.id current_id) (replace_by new.id now) (rs ++ new ∷ [])

  pub rotate_lem :
      (current_id row_id : String) (now : ℕ) (data' : CreateRefreshTokenData) (s : Accounts)
      → let new = new_refresh_token row_id data' in
        rotate c access_ttl refresh_ttl current_id row_id now data' s ≡ (
          if is_taken s.refresh_tokens row_id data'.jti
          then (err database_error, s)
          else if any (λ r. str_eq r.id current_id) (s.refresh_tokens ++ new ∷ [])
          then (
            ok new,
            record s { refresh_tokens = rotated_rows current_id new now s.refresh_tokens },
          )
          else (err database_error, s))
  unfolding rotate create_refresh_token update_refresh_token
  rotate_lem current_id row_id now data' s = ground arith

  signed_jti :
      (subject : JwtSubject) (typ : JwtTokenType) (ttl jti : String) (t : SignedToken)
      → sign_with_type c access_ttl refresh_ttl subject typ ttl jti ≡ ok t
      → t.jti ≡ jti
  unfolding sign_with_type
  signed_jti subject typ ttl jti t e = ground arith

  pair_ok :
      (d : Drawn) (s s' : Accounts) (row : RefreshToken) (user : User) (context : SessionContext)
      (pair : IssuedTokenPair) (short long : SignedToken)
      → long.jti ≡ d.refresh_jti
      → sign_with_type c access_ttl refresh_ttl
          (subject_of user)
          JwtTokenType.refresh
          refresh_ttl
          d.refresh_jti
        ≡ ok long
      → (rotate c access_ttl refresh_ttl row.id d.row_id d.now
              (token_data c access_ttl refresh_ttl long (subject_of user) context)
            >>= λ created. pure (token_pair short long created))
          s
        ≡ (ok pair, s')
      → Rotated d s s' row user context (record { pair = pair; user = session_user user })
  pair_ok d s s' row user context pair short long j l e = ground (
    arith,
    rotate_lem row.id d.row_id d.now
        (token_data c access_ttl refresh_ttl long (subject_of user) context) s,
  )

  pub rotate_ok :
      (d : Drawn) (s s' : Accounts) (row : RefreshToken) (user : User) (context : SessionContext)
      (pair : IssuedTokenPair)
      → rotate_token_pair c access_ttl refresh_ttl d row.id (subject_of user) context s
        ≡ (ok pair, s')
      → Rotated d s s' row user context (record { pair = pair; user = session_user user })
  unfolding rotate_token_pair
  rotate_ok d s s' row user context pair e =
      elim (Result-cases (
        sign_with_type c access_ttl refresh_ttl (subject_of user) JwtTokenType.access access_ttl
          d.access_jti)) [
            | inr (x, bad) ↦ absurd (cc (ap (λ p. p.0) (rw (bad, rotate_token_pair) at e)))
            | inl (short, fine) ↦
                elim (Result-cases (
                  sign_with_type c access_ttl refresh_ttl (subject_of user) JwtTokenType.refresh
                    refresh_ttl d.refresh_jti)) [
                      | inr (x, bad) ↦
                          absurd (cc (ap (λ p. p.0) (rw (fine, bad, rotate_token_pair) at e)))
                      | inl (long, good) ↦
                          pair_ok d s s' row user context pair short long
                            (signed_jti _ _ _ _ long good) good
                            (rw (fine, good, rotate_token_pair) at e)
                    ]
          ]

  pair-Rotated :
      (d : Drawn) (context : SessionContext) (s s' : Accounts) (res : SessionResult)
      (row : RefreshToken) (user : User)
      → (rotate_token_pair c access_ttl refresh_ttl d row.id (subject_of user) context >>= λ pair.
            pure (record { pair = pair; user = session_user user }))
          s
        ≡ (ok res, s')
      → Rotated d s s' row user context res × (res.user ≡ session_user user)
  pair-Rotated d context s s' res row user e =
      let (pair, u, r, e') =
        >>=-eq-ok (rotate_token_pair c access_ttl refresh_ttl d row.id (subject_of user) context) _
          s e in
      let whole : SessionResult = record { pair = pair; user = session_user user } in
      let same : res ≡ whole = sym (ok-eq (ap (λ p. p.0) e')) in
      rw (same, sym (ap (λ p. p.1) e')) (rotate_ok d s u row user context pair r, refl)

  -- A refresh that succeeds comes from a fit token: its signature and type are good, its row has its
  -- hash, is neither deleted, revoked nor expired, and belongs to an active account. It replaces
  -- that row by exactly one new one, for the same user, in one step, and touches nothing else.
  pub refresh_session_ok :
      (d : Drawn) (token : String) (context : SessionContext) (s s' : Accounts)
      (res : SessionResult)
      → refresh_session c access_ttl refresh_ttl d token context s ≡ (ok res, s')
      → (row : RefreshToken) × (user : User) × MayRefresh d.now token s row user
        × Rotated d s s' row user context res
        × (res.user ≡ session_user user)
  unfolding refresh_session
  refresh_session_ok d token context s s' res e =
      let ((row, user), t, v, e') =
        >>=-eq-ok (check_refresh c access_ttl refresh_ttl d.now token) _ s e in
      let (same, may) = check_ok d.now token s t row user v in
      let (rotated, named) = pair-Rotated d context s s' res row user (
        subst
          (λ st.
            (rotate_token_pair c access_ttl refresh_ttl d row.id (subject_of user) context
                >>= λ pair. pure (record { pair = pair; user = session_user user }))
              st
            ≡ (ok res, s'))
          same e') in
      (row, user, may, rotated, named)
