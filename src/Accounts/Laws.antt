-- ===== src/Accounts/Laws.antt =====
-- The refresh tokens under the queries of the repository.
use aerobi_api.Common.{
  ◌≡◌, ◌≢◌, refl, Bool, true, false, ◌||◌, List, [], ◌∷◌, ◌++◌, none, some, String, str_eq, eq_iff,
  ℕ, arith, any, find, filter, ◌⊎◌, inl, inr, Bool-cases,
}
use aerobi_api.Accounts.{
  RefreshToken, Accounts, CreateRefreshTokenData, is_taken, new_refresh_token, update_where, revoke,
  replace_by, is_live_of, revoke_all_for_user, create_refresh_token, update_refresh_token,
}

-- No two rows share an id or a `jti`, and a row that was replaced is revoked.
abbrev pub WellFormed : List RefreshToken → Type 0
WellFormed [] = Unit
WellFormed (r ∷ rs) =
    (is_taken rs r.id r.jti ≡ false)
    × ((r.replaced_by_id ≡ none) ⊎ (r.revoked ≡ true))
    × WellFormed rs

-- A change that keeps the keys of a row.
pub record KeepsKeys (f : RefreshToken → RefreshToken) : Type 0 where
  pub keeps_id : (r : RefreshToken) → (f r).id ≡ r.id
  pub keeps_jti : (r : RefreshToken) → (f r).jti ≡ r.jti
  pub keeps_link : (r : RefreshToken) → (f r).revoked ≡ true

module _ (p : RefreshToken → Bool) (f : RefreshToken → RefreshToken) (k : KeepsKeys f) where
  is_taken-update :
      (rs : List RefreshToken) (id jti : String)
      → is_taken (update_where p f rs) id jti ≡ is_taken rs id jti
  is_taken-update [] id jti = refl
  is_taken-update (r ∷ rs) id jti =
      ground (arith, k.keeps_id r, k.keeps_jti r, is_taken-update rs id jti)

  pub update-WellFormed :
      (rs : List RefreshToken) → WellFormed rs → WellFormed (update_where p f rs)
  update-WellFormed [] w = tt
  update-WellFormed (r ∷ rs) (free, link, w) = elim (Bool-cases (p r)) [
    | inl hit ↦ rw hit (
      rw (k.keeps_id r, k.keeps_jti r, is_taken-update rs r.id r.jti) free,
      inr (k.keeps_link r),
      update-WellFormed rs w,
    )
    | inr miss ↦ rw miss (rw (is_taken-update rs r.id r.jti) free, link, update-WellFormed rs w)
  ]

  -- A search by the keys finds the changed row.
  pub find-update :
      (jti : String) (rs : List RefreshToken) (r : RefreshToken)
      → find (λ x. str_eq x.jti jti) rs ≡ some r
      → p r ≡ true
      → find (λ x. str_eq x.jti jti) (update_where p f rs) ≡ some (f r)
  find-update jti [] r e h = cc
  find-update jti (x ∷ rs) r e h = ground (arith, k.keeps_jti x, find-update jti rs r)

pub revoke-KeepsKeys : (now : ℕ) → KeepsKeys (revoke now)
revoke-KeepsKeys now = record {
  keeps_id = λ r. refl;
  keeps_jti = λ r. refl;
  keeps_link = λ r. refl;
}

pub replace_by-KeepsKeys : (id : String) (now : ℕ) → KeepsKeys (replace_by id now)
replace_by-KeepsKeys id now = record {
  keeps_id = λ r. refl;
  keeps_jti = λ r. refl;
  keeps_link = λ r. refl;
}

is_taken-append :
    (rs : List RefreshToken) (x : RefreshToken) (id jti : String)
    → is_taken (rs ++ x ∷ []) id jti ≡ (is_taken rs id jti || (str_eq x.id id || str_eq x.jti jti))
is_taken-append [] x id jti = ground arith
is_taken-append (r ∷ rs) x id jti = ground (arith, is_taken-append rs x id jti)

append-WellFormed :
    (rs : List RefreshToken) (x : RefreshToken)
    → WellFormed rs
    → is_taken rs x.id x.jti ≡ false
    → x.replaced_by_id ≡ none
    → WellFormed (rs ++ x ∷ [])
append-WellFormed [] x w free new = (refl, inl new, tt)
append-WellFormed (r ∷ rs) x (free', link, w) free new = (
  ground (
    arith,
    is_taken-append rs x r.id r.jti,
    eq_iff x.id r.id,
    eq_iff r.id x.id,
    eq_iff x.jti r.jti,
    eq_iff r.jti x.jti,
  ),
  link,
  append-WellFormed rs x w (ground arith) new,
)

pub find-append :
    {A : Type 0} (p : A → Bool) (xs ys : List A) {x : A}
    → find p xs ≡ some x
    → find p (xs ++ ys) ≡ some x
find-append p [] ys e = cc
find-append p (y ∷ xs) ys {x} e = ground (arith, find-append p xs ys {x = x})

-- After the revocation of all its sessions a user has none left.
pub revoke_all-dead :
    (user_id : String) (now : ℕ) (rs : List RefreshToken)
    → any (is_live_of user_id) (update_where (is_live_of user_id) (revoke now) rs) ≡ false
revoke_all-dead user_id now [] = refl
revoke_all-dead user_id now (r ∷ rs) = ground (arith, revoke_all-dead user_id now rs)

abbrev pub belongs_to : String → RefreshToken → Bool
belongs_to user_id r = str_eq r.user_id user_id

-- The revocation of all sessions of a user leaves the sessions of the others as they were.
revoke_all-others :
    (user_id other : String) (now : ℕ) (rs : List RefreshToken)
    → other ≢ user_id
    → filter (belongs_to other) (update_where (is_live_of user_id) (revoke now) rs)
      ≡ filter (belongs_to other) rs
revoke_all-others user_id other now [] h = refl
revoke_all-others user_id other now (r ∷ rs) h = ground (
  arith,
  eq_iff r.user_id user_id,
  eq_iff r.user_id other,
  revoke_all-others user_id other now rs,
)

-- The rows of a state stay well formed under each query.
pub create-WellFormed :
    (id : String) (d : CreateRefreshTokenData) (s : Accounts)
    → WellFormed s.refresh_tokens
    → WellFormed (create_refresh_token id d s).1.refresh_tokens
unfolding create_refresh_token
create-WellFormed id d s w = elim (Bool-cases (is_taken s.refresh_tokens id d.jti)) [
  | inl taken ↦ rw taken w
  | inr free ↦ rw free (append-WellFormed s.refresh_tokens (new_refresh_token id d) w free refl)
]

pub update_refresh_token-WellFormed :
    (id : String) (f : RefreshToken → RefreshToken) (s : Accounts)
    → KeepsKeys f
    → WellFormed s.refresh_tokens
    → WellFormed (update_refresh_token id f s).1.refresh_tokens
unfolding update_refresh_token
update_refresh_token-WellFormed id f s k w =
    elim (Bool-cases (any (λ r. str_eq r.id id) s.refresh_tokens)) [
      | inl hit ↦ rw hit (update-WellFormed (λ r. str_eq r.id id) f k s.refresh_tokens w)
      | inr miss ↦ rw miss w
    ]

pub revoke_all_for_user-dead :
    (user_id : String) (now : ℕ) (s : Accounts)
    → any (is_live_of user_id) (revoke_all_for_user user_id now s).1.refresh_tokens ≡ false
unfolding revoke_all_for_user
revoke_all_for_user-dead user_id now s = revoke_all-dead user_id now s.refresh_tokens
