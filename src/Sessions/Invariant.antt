-- ===== src/Sessions/Invariant.antt =====
-- What holds of the rows after any history of requests.
use aerobi_api.Common.{
  ◌||◌, not, is_none, Bool, true, false, List, [], ◌∷◌, Option, none, some, String, ℕ, inl, inr,
  Bool-cases,
}
use aerobi_api.Common.Errors.{Result, ok, err}
use aerobi_api.Common.Effects.{◌>>=◌, ◌>>◌, pure, modify}
use aerobi_api.Common.Keeps.{Keeps, keeps, keeps_rules, Keeps-run, Keeps-pure}
use aerobi_api.Accounts.{
  Accounts, RefreshToken, CreateRefreshTokenData, create_refresh_token, update_refresh_token,
  replace_by, revoke, revoke_by_id, revoke_all_for_user, rollback, is_live_of,
}
use aerobi_api.Accounts.Laws.{
  WellFormed, create-WellFormed, update_refresh_token-WellFormed, update-WellFormed,
  replace_by-KeepsKeys, revoke-KeepsKeys,
}
use aerobi_api.Sessions.{
  Crypto, JwtPayload, Drawn, SessionContext, JwtSubject, login, logout, refresh_session,
  check_refresh, check_row, rotate, rotate_token_pair, issue_token_pair, logout_row, logout_payload,
  with_password, save_last_login, reject_reuse,
}

abbrev pub IsSound : Accounts → Type 0
IsSound s = WellFormed s.refresh_tokens

rollback-IsSound :
    {A : Type 0} (s : Accounts) (r : Result A × Accounts)
    → IsSound s
    → IsSound r.1
    → IsSound (rollback s r).1
rollback-IsSound s (ok a, t) w v = v
rollback-IsSound s (err e, t) w v = w

Keeps-replace :
    (id : String) (new : String) (now : ℕ)
    → Keeps IsSound (update_refresh_token id (replace_by new now))
Keeps-replace id new now = keeps λ s w.
    update_refresh_token-WellFormed id (replace_by new now) s (replace_by-KeepsKeys new now) w

Keeps-revoke_by_id : (id : String) (now : ℕ) → Keeps IsSound (revoke_by_id id now)
unfolding revoke_by_id
Keeps-revoke_by_id id now =
    keeps λ s w. update_refresh_token-WellFormed id (revoke now) s (revoke-KeepsKeys now) w

Keeps-revoke_all : (user_id : String) (now : ℕ) → Keeps IsSound (revoke_all_for_user user_id now)
unfolding revoke_all_for_user
Keeps-revoke_all user_id now = keeps λ s w.
    update-WellFormed (is_live_of user_id) (revoke now) (revoke-KeepsKeys now) s.refresh_tokens w

Keeps-create :
    (id : String) (d : CreateRefreshTokenData) → Keeps IsSound (create_refresh_token id d)
Keeps-create id d = keeps λ s w. create-WellFormed id d s w

ruleset session_rules =
    (keeps_rules, Keeps-replace, Keeps-revoke_by_id, Keeps-revoke_all, Keeps-create)

created_and_replaced :
    (current_id row_id : String) (now : ℕ) (d : CreateRefreshTokenData)
    → Keeps IsSound (
        create_refresh_token row_id d >>= λ created.
        update_refresh_token current_id (replace_by created.id now) >> pure created)
created_and_replaced current_id row_id now d = search session_rules

-- What a client may ask of the session services.
pub data SessionRequest : Type 0 where
  logs_in : Drawn → Bool → String → String → SessionContext → SessionRequest
  refreshes : Drawn → String → SessionContext → SessionRequest
  logs_out : ℕ → String → SessionRequest

module _ (c : Crypto) (access_ttl refresh_ttl : String) where
  Keeps-rotate :
      (current_id row_id : String) (now : ℕ) (d : CreateRefreshTokenData)
      → Keeps IsSound (rotate c access_ttl refresh_ttl current_id row_id now d)
  unfolding rotate
  Keeps-rotate current_id row_id now d =
      keeps
        λ s w. rollback-IsSound s _ w (Keeps-run (created_and_replaced current_id row_id now d) s w)

  Keeps-rotate_token_pair :
      (d : Drawn) (id : String) (subject : JwtSubject) (context : SessionContext)
      → Keeps IsSound (rotate_token_pair c access_ttl refresh_ttl d id subject context)
  unfolding rotate_token_pair
  Keeps-rotate_token_pair d id subject context = search (keeps_rules, Keeps-rotate)

  Keeps-issue_token_pair :
      (d : Drawn) (subject : JwtSubject) (context : SessionContext)
      → Keeps IsSound (issue_token_pair c access_ttl refresh_ttl d subject context)
  unfolding issue_token_pair
  Keeps-issue_token_pair d subject context = search session_rules

  Keeps-reject_reuse :
      (b : Bool) (user_id : String) (now : ℕ)
      → Keeps IsSound (reject_reuse c access_ttl refresh_ttl b user_id now)
  Keeps-reject_reuse false user_id now = search session_rules
  Keeps-reject_reuse true user_id now = search session_rules

  Keeps-check_row :
      (now : ℕ) (token : String) (row : RefreshToken)
      → Keeps IsSound (check_row c access_ttl refresh_ttl now token row)
  unfolding check_row
  Keeps-check_row now token row = search (keeps_rules, Keeps-reject_reuse) depth 12

  Keeps-check_refresh :
      (now : ℕ) (token : String) → Keeps IsSound (check_refresh c access_ttl refresh_ttl now token)
  unfolding check_refresh
  Keeps-check_refresh now token = search (keeps_rules, Keeps-check_row)

  Keeps-refresh_session :
      (d : Drawn) (token : String) (context : SessionContext)
      → Keeps IsSound (refresh_session c access_ttl refresh_ttl d token context)
  unfolding refresh_session
  Keeps-refresh_session d token context =
      search (keeps_rules, Keeps-check_refresh, Keeps-rotate_token_pair)

  Keeps-with_password :
      (o : Option String) → Keeps IsSound (with_password c access_ttl refresh_ttl o)
  Keeps-with_password none = search session_rules
  Keeps-with_password (some hash) = search session_rules

  Keeps-save :
      (saved : Bool) (id : String) (now : ℕ)
      → Keeps IsSound (modify (save_last_login c access_ttl refresh_ttl saved id now))
  Keeps-save true id now = keeps λ s w. w
  Keeps-save false id now = keeps λ s w. w

  Keeps-login :
      (d : Drawn) (saved : Bool) (email password : String) (context : SessionContext)
      → Keeps IsSound (login c access_ttl refresh_ttl d saved email password context)
  unfolding login
  Keeps-login d saved email password context =
      search (keeps_rules, Keeps-with_password, Keeps-issue_token_pair, Keeps-save) depth 12

  Keeps-logout_row :
      (o : Option RefreshToken) (now : ℕ)
      → Keeps IsSound (logout_row c access_ttl refresh_ttl o now)
  Keeps-logout_row none now = search session_rules
  Keeps-logout_row (some row) now =
      elim (Bool-cases (row.revoked || not (is_none row.deleted_at))) [
        | inl done ↦ rw done Keeps-pure
        | inr live ↦ rw live (Keeps-revoke_by_id row.id now)
      ]

  Keeps-logout_payload :
      (r : Result JwtPayload) (now : ℕ)
      → Keeps IsSound (logout_payload c access_ttl refresh_ttl r now)
  Keeps-logout_payload (err e) now = search session_rules
  Keeps-logout_payload (ok payload) now = search (keeps_rules, Keeps-logout_row)

  Keeps-logout :
      (now : ℕ) (token : String) → Keeps IsSound (logout c access_ttl refresh_ttl now token)
  unfolding logout
  Keeps-logout now token = Keeps-logout_payload _ now

  abbrev serve : SessionRequest → Accounts → Accounts
  serve (logs_in d saved email password context) s =
      (login c access_ttl refresh_ttl d saved email password context s).1
  serve (refreshes d token context) s =
      (refresh_session c access_ttl refresh_ttl d token context s).1
  serve (logs_out now token) s = (logout c access_ttl refresh_ttl now token s).1

  abbrev pub serve_all : List SessionRequest → Accounts → Accounts
  serve_all [] s = s
  serve_all (r ∷ rs) s = serve_all rs (serve r s)

  -- After any history of logins, refreshes and logouts, in whatever order and whether they succeed
  -- or not, no two refresh tokens share an id or a `jti`, and every token that was replaced is
  -- revoked, if that held before.
  pub serve_all-IsSound :
      (rs : List SessionRequest) (s : Accounts) → IsSound s → IsSound (serve_all rs s)
  serve_all-IsSound [] s w = w
  serve_all-IsSound (logs_in d saved email password context ∷ rs) s w =
      serve_all-IsSound rs _ (Keeps-run (Keeps-login d saved email password context) s w)
  serve_all-IsSound (refreshes d token context ∷ rs) s w =
      serve_all-IsSound rs _ (Keeps-run (Keeps-refresh_session d token context) s w)
  serve_all-IsSound (logs_out now token ∷ rs) s w =
      serve_all-IsSound rs _ (Keeps-run (Keeps-logout now token) s w)
