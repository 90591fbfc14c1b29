-- ===== src/Sessions/Tests.antt =====
-- The sessions of one user: a login, a refresh, the same token again, a logout.
use aerobi_api.Common.{
  ◌≡◌, ◌≢◌, refl, true, false, List, [], ◌∷◌, none, some, String, str_eq, eq_iff, arith,
  if◌then◌else◌, any, inl,
}
use aerobi_api.Common.Errors.{is_ok, ok, err, ErrorCode}
use aerobi_api.Authz.Permissions.{UserRole}
use aerobi_api.Accounts.{
  is_taken, User, RefreshToken, Accounts, is_live_of, find_by_jti, create_refresh_token,
  update_refresh_token,
}
use aerobi_api.Sessions.{
  SignedToken, subject_of, Crypto, JwtPayload, JwtTokenType, valid, invalid, Drawn, SessionContext,
  SessionResult, refresh_session, check_refresh, check_row, verify_refresh_token, rotate_token_pair,
  rotate, sign_with_type, session_user, unauthorized_code,
}
use aerobi_api.Sessions.Laws.{refresh_session_ok, MayRefresh, Rotated}
use aerobi_api.Sessions.Race.{rotate_token_pair-race}
use aerobi_api.Sessions.Reuse.{IsStable, refresh_session-replay}
use aerobi_api.Sessions.Invariant.{
  SessionRequest, logs_in, refreshes, logs_out, serve_all, serve_all-IsSound, IsSound,
}

abbrev claims : String → JwtPayload
claims jti = record {
  sub = "ana";
  email = "ana@aerobi.br";
  role = UserRole.operator;
  typ = JwtTokenType.refresh;
  jti = jti;
}

-- A token is its `jti`.
abbrev plain : Crypto
plain = record {
  sign = λ p ttl. p.jti;
  decode_exp = λ token. some 500;
  verify = λ now token.
      if str_eq token "r1"
      then valid (claims "r1")
      else if str_eq token "r2"
      then valid (claims "r2")
      else invalid;
  sha256 = λ token. token;
  bcrypt_compare = str_eq;
}

plain-IsStable : IsStable plain
plain-IsStable n m token p q e f = cc

abbrev ana : User
ana = record {
  id = "ana";
  email = "ana@aerobi.br";
  name = "Ana";
  phone = none;
  password = some "senha";
  role = UserRole.operator;
  group_id = some "north";
  state = none;
  email_verified = true;
  accepted_invite_at = some 1;
  last_login_at = none;
  deleted_at = none;
}

abbrev issued_row : String → String → String → RefreshToken
issued_row id jti user = record {
  id = id;
  jti = jti;
  token_hash = jti;
  user_id = user;
  expires_at = 500000;
  revoked = false;
  revoked_at = none;
  replaced_by_id = none;
  user_agent = none;
  ip_address = none;
  deleted_at = none;
}

abbrev sample : Accounts
sample = record {
  users = ana ∷ [];
  refresh_tokens = issued_row "row1" "r1" "ana" ∷ issued_row "row9" "r9" "rui" ∷ [];
  tokens = [];
}

abbrev context : SessionContext
context = record { user_agent = none; ip_address = none }

abbrev first_draw : Drawn
first_draw = record { access_jti = "a2"; refresh_jti = "r2"; row_id = "row2"; now = 1000 }

abbrev second_draw : Drawn
second_draw = record { access_jti = "a3"; refresh_jti = "r3"; row_id = "row3"; now = 2000 }

abbrev refreshed : SessionResult
refreshed = record {
  pair = record {
    access_token = "a2";
    access_expires_at = 500000;
    refresh_token = "r2";
    refresh_expires_at = 500000;
    refresh_token_id = "row2";
  };
  user = session_user ana;
}

abbrev after_refresh : Accounts
after_refresh = (refresh_session plain "15m" "7d" first_draw "r1" context sample).1

sample_refresh :
    refresh_session plain "15m" "7d" first_draw "r1" context sample ≡ (ok refreshed, after_refresh)
unfolding refresh_session check_refresh check_row verify_refresh_token rotate_token_pair rotate
    sign_with_type find_by_jti create_refresh_token update_refresh_token
sample_refresh = refl

sample_verified : verify_refresh_token plain "15m" "7d" 2000 "r1" ≡ ok (claims "r1")
unfolding verify_refresh_token
sample_verified = refl

refresh_example :
    (row : RefreshToken) × (user : User) × MayRefresh plain "15m" "7d" 1000 "r1" sample row user
    × Rotated plain "15m" "7d" first_draw sample after_refresh row user context refreshed
    × (refreshed.user ≡ session_user user)
refresh_example =
    refresh_session_ok plain "15m" "7d" first_draw "r1" context sample after_refresh refreshed
      sample_refresh

replay_example :
    let again = refresh_session plain "15m" "7d" second_draw "r1" context after_refresh in
    (again.0 ≡ err (unauthorized_code ErrorCode.refresh_token_reuse_detected))
    × (any (is_live_of "ana") again.1.refresh_tokens ≡ false)
replay_example =
    refresh_session-replay plain "15m" "7d" first_draw second_draw "r1" context context sample
      after_refresh refreshed (claims "r1") plain-IsStable sample_refresh sample_verified

sample_refused :
    refresh_session plain "15m" "7d" first_draw "r7" context sample
    ≡ (err (unauthorized_code ErrorCode.refresh_token_invalid), sample)
unfolding refresh_session check_refresh check_row verify_refresh_token
sample_refused = refl

abbrev sample_history : List SessionRequest
sample_history =
    logs_in second_draw true "ana@aerobi.br" "senha" context
    ∷ refreshes first_draw "r1" context
    ∷ refreshes first_draw "r1" context
    ∷ logs_out 3000 "r2"
    ∷ []

sample-IsSound : IsSound sample
sample-IsSound = (refl, inl refl, (refl, inl refl, tt))

history_example : IsSound (serve_all plain "15m" "7d" sample_history sample)
history_example = serve_all-IsSound plain "15m" "7d" sample_history sample sample-IsSound

abbrev rui_id : String
rui_id = "rui"

different : rui_id ≢ "ana"
different e = ground (arith, (eq_iff rui_id "ana").1 e)

first_row :
    check_refresh plain "15m" "7d" 1000 "r1" sample
    ≡ (ok (issued_row "row1" "r1" "ana", ana), sample)
unfolding check_refresh check_row verify_refresh_token find_by_jti
first_row = refl

second_row :
    check_refresh plain "15m" "7d" 2000 "r1" sample
    ≡ (ok (issued_row "row1" "r1" "ana", ana), sample)
unfolding check_refresh check_row verify_refresh_token find_by_jti
second_row = refl

abbrev rotated_once : Accounts
rotated_once =
    (rotate_token_pair plain "15m" "7d" first_draw "row1" (subject_of ana) context sample).1

first_rotation :
    rotate_token_pair plain "15m" "7d" first_draw "row1" (subject_of ana) context sample
    ≡ (ok refreshed.pair, rotated_once)
unfolding rotate_token_pair rotate sign_with_type create_refresh_token update_refresh_token
first_rotation = refl

abbrev signed : String → SignedToken
signed jti = record { token = jti; expires_at = 500000; jti = jti }

second_access :
    sign_with_type plain "15m" "7d" (subject_of ana) JwtTokenType.access "15m" "a3"
    ≡ ok (signed "a3")
unfolding sign_with_type
second_access = refl

second_refresh :
    sign_with_type plain "15m" "7d" (subject_of ana) JwtTokenType.refresh "7d" "r3"
    ≡ ok (signed "r3")
unfolding sign_with_type
second_refresh = refl

second_unused : is_taken rotated_once.refresh_tokens "row3" "r3" ≡ false
unfolding rotate_token_pair rotate sign_with_type create_refresh_token update_refresh_token
second_unused = refl

race_example :
    is_ok
      (rotate_token_pair plain "15m" "7d" second_draw "row1"
        (subject_of ana)
        context
        rotated_once).0
    ≡ true
race_example =
    rotate_token_pair-race plain "15m" "7d" first_draw second_draw "r1" context context sample
      rotated_once (issued_row "row1" "r1" "ana") ana refreshed.pair (signed "a3") (signed "r3")
      first_row second_row first_rotation second_access second_refresh second_unused
