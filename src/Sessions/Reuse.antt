-- ===== src/Sessions/Reuse.antt =====
-- A refresh token that was exchanged once cannot be exchanged again.
use aerobi_api.Common.{
  ◌≡◌, refl, sym, ap, subst, ◌∙◌, true, false, [], ◌∷◌, ◌++◌, none, some, String, str_eq, eq_iff,
  eq_refl, ℕ, arith, any, find_holds, Option-cases, ◌⊎◌, inl, inr,
}
use aerobi_api.Common.Errors.{HttpError, ErrorCode, ok, err, Result-cases}
use aerobi_api.Common.Effects.{◌>>=◌, pure, >>=-eq-err}
use aerobi_api.Accounts.{
  RefreshToken, Accounts, find_by_jti, revoke_all_for_user, update_where, replace_by, is_live_of,
}
use aerobi_api.Accounts.Laws.{
  find-update, find-append, replace_by-KeepsKeys, revoke_all_for_user-dead,
}
use aerobi_api.Sessions.{
  Crypto, valid, JwtPayload, JwtTokenType, Drawn, JwtSubject, SignedToken, sign_with_type, rotate,
  token_data, token_pair, SessionContext, SessionResult, check_refresh, check_row,
  verify_refresh_token, refresh_session, rotate_token_pair, unauthorized_code, session_user,
  subject_of,
}
use aerobi_api.Sessions.Laws.{refresh_session_ok, issued, check_row_err, check_row_ok, rotate_lem}

-- The same token always carries the same claims.
abbrev pub IsStable : Crypto → Type 0
IsStable c =
    (n m : ℕ) (token : String) (p q : JwtPayload)
    → c.verify n token ≡ valid p
    → c.verify m token ≡ valid q
    → p ≡ q

module _ (c : Crypto) (access_ttl refresh_ttl : String) where
  verified_valid :
      (now : ℕ) (token : String) (p : JwtPayload)
      → verify_refresh_token c access_ttl refresh_ttl now token ≡ ok p
      → c.verify now token ≡ valid p
  unfolding verify_refresh_token
  verified_valid now token p e = ground arith

  found_replaced :
      (s s' : Accounts) (row new : RefreshToken) (jti id : String) (now : ℕ)
      → find_by_jti s jti ≡ some row
      → s'.refresh_tokens
        ≡ update_where (λ r. str_eq r.id row.id) (replace_by id now) (s.refresh_tokens ++ new ∷ [])
      → find_by_jti s' jti ≡ some (replace_by id now row)
  unfolding find_by_jti
  found_replaced s s' row new jti id now found rows = rw rows (
      find-update (λ r. str_eq r.id row.id) (replace_by id now) (replace_by-KeepsKeys id now) jti _
        row (find-append (λ r. str_eq r.jti jti) s.refresh_tokens (new ∷ []) found)
        (eq_refl row.id))

  -- A revoked row, presented with its own token.
  check_row_reused :
      (now : ℕ) (token : String) (s : Accounts) (r : RefreshToken)
      → r.token_hash ≡ c.sha256 token
      → r.deleted_at ≡ none
      → r.revoked ≡ true
      → check_row c access_ttl refresh_ttl now token r s ≡ (
        err (unauthorized_code ErrorCode.refresh_token_reuse_detected),
        (revoke_all_for_user r.user_id now s).1,
      )
  unfolding check_row
  check_row_reused now token s r h k v = ground (arith, eq_iff r.token_hash (c.sha256 token))

  refresh_reused :
      (d : Drawn) (token : String) (context : SessionContext) (s : Accounts) (p : JwtPayload)
      (r : RefreshToken)
      → verify_refresh_token c access_ttl refresh_ttl d.now token ≡ ok p
      → find_by_jti s p.jti ≡ some r
      → r.token_hash ≡ c.sha256 token
      → r.deleted_at ≡ none
      → r.revoked ≡ true
      → refresh_session c access_ttl refresh_ttl d token context s ≡ (
        err (unauthorized_code ErrorCode.refresh_token_reuse_detected),
        (revoke_all_for_user r.user_id d.now s).1,
      )
  unfolding refresh_session check_refresh
  refresh_reused d token context s p r v f h k w =
      rw (v, refresh_session, check_refresh) (rw f (rw (check_row_reused d.now token s r h k w)))

  -- Once a refresh has succeeded, whoever presents its token again while the signature still
  -- verifies is refused as a reuse, and no session of the token's user is left, that of the
  -- successful refresh included. It is assumed that a token always carries the same claims.
  pub refresh_session-replay :
      (d d' : Drawn) (token : String) (context context' : SessionContext) (s s' : Accounts)
      (res : SessionResult) (p' : JwtPayload)
      → IsStable c
      → refresh_session c access_ttl refresh_ttl d token context s ≡ (ok res, s')
      → verify_refresh_token c access_ttl refresh_ttl d'.now token ≡ ok p'
      → let again = refresh_session c access_ttl refresh_ttl d' token context' s' in
        (again.0 ≡ err (unauthorized_code ErrorCode.refresh_token_reuse_detected))
        × (any (is_live_of res.user.id) again.1.refresh_tokens ≡ false)
  refresh_session-replay d d' token context context' s s' res p' stable e v' =
      let (row, user, may, rotated, named) =
        refresh_session_ok c access_ttl refresh_ttl d token context s s' res e in
      let same : may.payload ≡ p' =
        stable d.now d'.now token may.payload p'
          (verified_valid d.now token may.payload may.verified)
          (verified_valid d'.now token p' v') in
      let found =
        found_replaced s s' row (issued c d user context res) may.payload.jti d.row_id d.now
          may.found rotated.rows in
      let found' =
        subst (λ (q : JwtPayload). find_by_jti s' q.jti ≡ some (replace_by d.row_id d.now row)) same
          found in
      let again =
        refresh_reused d' token context' s' p' (replace_by d.row_id d.now row) v' found'
          may.fit.hashed may.fit.kept refl in
      let holder : user.id ≡ row.user_id =
        (eq_iff _ _).0 (find_holds (λ u. str_eq u.id row.user_id) s.users may.fit.owned) in
      let mine : res.user.id ≡ row.user_id = ap (λ u. u.id) named ∙ holder in
      rw again (rw mine (refl, revoke_all_for_user-dead row.user_id d'.now s'))

  pair_failed :
      (d : Drawn) (id : String) (subject : JwtSubject) (context : SessionContext) (s s' : Accounts)
      (e : HttpError) (short long : SignedToken)
      → (rotate c access_ttl refresh_ttl id d.row_id d.now
              (token_data c access_ttl refresh_ttl long subject context)
            >>= λ created. pure (token_pair short long created))
          s
        ≡ (err e, s')
      → s' ≡ s
  pair_failed d id subject context s s' e short long h = ground (
    arith,
    rotate_lem c access_ttl refresh_ttl id d.row_id d.now
        (token_data c access_ttl refresh_ttl long subject context) s,
  )

  rotate_failed :
      (d : Drawn) (id : String) (subject : JwtSubject) (context : SessionContext) (s s' : Accounts)
      (e : HttpError)
      → rotate_token_pair c access_ttl refresh_ttl d id subject context s ≡ (err e, s')
      → s' ≡ s
  unfolding rotate_token_pair
  rotate_failed d id subject context s s' e h =
      elim (Result-cases (
        sign_with_type c access_ttl refresh_ttl subject JwtTokenType.access access_ttl
          d.access_jti)) [
            | inr (x, bad) ↦ sym (ap (λ p. p.1) (rw (bad, rotate_token_pair) at h))
            | inl (short, fine) ↦
                elim (Result-cases (
                  sign_with_type c access_ttl refresh_ttl subject JwtTokenType.refresh refresh_ttl
                    d.refresh_jti)) [
                      | inr (x, bad) ↦ sym (ap (λ p. p.1) (rw (fine, bad, rotate_token_pair) at h))
                      | inl (long, good) ↦
                          pair_failed d id subject context s s' e short long
                            (rw (fine, good, rotate_token_pair) at h)
                    ]
          ]

  row_failed :
      (d : Drawn) (token : String) (context : SessionContext) (s s' : Accounts) (r : RefreshToken)
      (e : HttpError)
      → (check_row c access_ttl refresh_ttl d.now token r >>= λ checked.
            rotate_token_pair c access_ttl refresh_ttl d checked.0.id (subject_of checked.1) context
            >>= λ pair.
                pure {A = SessionResult} (record { pair = pair; user = session_user checked.1 }))
          s
        ≡ (err e, s')
      → (s' ≡ s)
        ⊎ ((row : RefreshToken) × (row.token_hash ≡ c.sha256 token)
            × (row.revoked ≡ true)
            × (e ≡ unauthorized_code ErrorCode.refresh_token_reuse_detected)
            × (s' ≡ (revoke_all_for_user row.user_id d.now s).1))
  row_failed d token context s s' r e h =
      elim (>>=-eq-err (check_row c access_ttl refresh_ttl d.now token r) _ s h) [
        | inl refused ↦ elim (check_row_err c access_ttl refresh_ttl d.now token s s' r e refused) [
          | inl (same, other) ↦ inl same
          | inr (reuse, hashed, revoked, after) ↦ inr (r, hashed, revoked, reuse, after)
        ]
        | inr ((row, user), t, fit, h') ↦
            let same = (check_row_ok c access_ttl refresh_ttl d.now token s t r row user fit).0 in
            elim (>>=-eq-err
              (rotate_token_pair c access_ttl refresh_ttl d row.id (subject_of user) context) _ t
              h') [
                | inl refused ↦
                    inl (rotate_failed d row.id (subject_of user) context t s' e refused ∙ same)
                | inr (pair, u, done, h'') ↦ absurd (cc (ap (λ p. p.0) h''))
              ]
      ]

  -- A refresh that fails changes nothing, unless it detects the reuse of a revoked token: then it
  -- revokes the live sessions of that token's user, and nothing else.
  refresh_session-failed :
      (d : Drawn) (token : String) (context : SessionContext) (s s' : Accounts) (e : HttpError)
      → refresh_session c access_ttl refresh_ttl d token context s ≡ (err e, s')
      → (s' ≡ s)
        ⊎ ((row : RefreshToken) × (row.token_hash ≡ c.sha256 token)
            × (row.revoked ≡ true)
            × (e ≡ unauthorized_code ErrorCode.refresh_token_reuse_detected)
            × (s' ≡ (revoke_all_for_user row.user_id d.now s).1))
  unfolding refresh_session check_refresh
  refresh_session-failed d token context s s' e h =
      elim (Result-cases (verify_refresh_token c access_ttl refresh_ttl d.now token)) [
        | inr (x, bad) ↦ inl (sym (ap (λ p. p.1) (rw (bad, refresh_session, check_refresh) at h)))
        | inl (p, good) ↦ elim (Option-cases (find_by_jti s p.jti)) [
          | inl missing ↦ inl (
              sym
                (ap (λ q. q.1) (rw (missing) at (rw (good, refresh_session, check_refresh) at h))))
          | inr (row, found) ↦
              row_failed d token context s s' row e
                (rw found at (rw (good, refresh_session, check_refresh) at h))
        ]
      ]
