-- ===== src/Sessions/Race.antt =====
-- Two refreshes of one token whose database statements interleave.
use aerobi_api.Common.{
  ◌≡◌, refl, true, false, List, [], ◌∷◌, ◌++◌, some, String, str_eq, eq_refl, ℕ, arith, any, find,
}
use aerobi_api.Common.Errors.{ok, is_ok}
use aerobi_api.Accounts.{
  User, RefreshToken, Accounts, find_by_jti, update_where, replace_by, is_taken, new_refresh_token,
}
use aerobi_api.Sessions.{
  Crypto, JwtTokenType, Drawn, SignedToken, SessionContext, IssuedTokenPair, sign_with_type,
  token_data, check_refresh, rotate_token_pair, subject_of,
}
use aerobi_api.Sessions.Laws.{check_ok, rotate_ok, rotate_lem}

find-any :
    (jti : String) (rs : List RefreshToken) (row : RefreshToken)
    → find (λ r. str_eq r.jti jti) rs ≡ some row
    → any (λ r. str_eq r.id row.id) rs ≡ true
find-any jti [] row e = cc
find-any jti (r ∷ rs) row e = ground (arith, find-any jti rs row, eq_refl row.id)

any-append :
    (id : String) (rs qs : List RefreshToken)
    → any (λ r. str_eq r.id id) rs ≡ true
    → any (λ r. str_eq r.id id) (rs ++ qs) ≡ true
any-append id [] qs h = cc
any-append id (r ∷ rs) qs h = ground (arith, any-append id rs qs)

any-replace :
    (id new : String) (now : ℕ) (rs : List RefreshToken)
    → any (λ r. str_eq r.id id) rs ≡ true
    → any (λ r. str_eq r.id id) (update_where (λ r. str_eq r.id id) (replace_by new now) rs) ≡ true
any-replace id new now [] h = cc
any-replace id new now (r ∷ rs) h = ground (arith, any-replace id new now rs)

module _ (c : Crypto) (access_ttl refresh_ttl : String) where
  -- Two refreshes of one token that both check it before either replaces its row both succeed, if
  -- the second can sign its pair and draws unused ids: the rotation does not look at the row again.
  pub rotate_token_pair-race :
      (d d' : Drawn) (token : String) (context context' : SessionContext) (s s1 : Accounts)
      (row : RefreshToken) (user : User) (pair : IssuedTokenPair) (short long : SignedToken)
      → check_refresh c access_ttl refresh_ttl d.now token s ≡ (ok (row, user), s)
      → check_refresh c access_ttl refresh_ttl d'.now token s ≡ (ok (row, user), s)
      → rotate_token_pair c access_ttl refresh_ttl d row.id (subject_of user) context s
        ≡ (ok pair, s1)
      → sign_with_type c access_ttl refresh_ttl
          (subject_of user)
          JwtTokenType.access
          access_ttl
          d'.access_jti
        ≡ ok short
      → sign_with_type c access_ttl refresh_ttl
          (subject_of user)
          JwtTokenType.refresh
          refresh_ttl
          d'.refresh_jti
        ≡ ok long
      → is_taken s1.refresh_tokens d'.row_id long.jti ≡ false
      → is_ok (rotate_token_pair c access_ttl refresh_ttl d' row.id (subject_of user) context' s1).0
        ≡ true
  unfolding rotate_token_pair find_by_jti
  rotate_token_pair-race d d' token context context' s s1 row user pair short long h h' r a b free =
      let may = (check_ok c access_ttl refresh_ttl d.now token s s row user h).1 in
      let rotated = rotate_ok c access_ttl refresh_ttl d s s1 row user context pair r in
      let here =
        any-append row.id s.refresh_tokens _
          (find-any may.payload.jti s.refresh_tokens row may.found) in
      let still : any (λ q. str_eq q.id row.id) s1.refresh_tokens ≡ true =
        rw rotated.rows (any-replace row.id d.row_id d.now _ here) in
      let data' = token_data c access_ttl refresh_ttl long (subject_of user) context' in
      let there =
        any-append row.id s1.refresh_tokens (new_refresh_token d'.row_id data' ∷ []) still in
      rw a (
        rw b (
          rw (rotate_lem c access_ttl refresh_ttl row.id d'.row_id d'.now data' s1)
            (rw free (rw there refl))))
