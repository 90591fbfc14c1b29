-- ===== src/Administration/Rows.antt =====
-- The rows of the accounts under the queries of the administration.
use aerobi_api.Common.{
  ◌≡◌, refl, sym, subst, ◌∙◌, Bool, false, not, ◌&&◌, ◌||◌, List, [], ◌∷◌, ◌++◌, none, some, String,
  str_eq, eq_iff, find, any, filter, is_none, inl, inr, Bool-cases, arith,
}
use aerobi_api.Accounts.{User, update_where}
use aerobi_api.Administration.{is_taken, is_active_user}

-- No two rows share an id or an address.
abbrev pub WellFormed : List User → Type 0
WellFormed [] = Unit
WellFormed (u ∷ us) = (is_taken us u.id u.email ≡ false) × WellFormed us

abbrev pub has_id : List User → String → Bool
has_id us id = any (λ u. str_eq u.id id) us

pub is_taken-has_id :
    (us : List User) (id email : String) → is_taken us id email ≡ false → has_id us id ≡ false
is_taken-has_id [] id email h = refl
is_taken-has_id (u ∷ us) id email h = ground (arith, is_taken-has_id us id email)

module _ (id : String) (f : User → User) where
  pub update-absent :
      (us : List User) → has_id us id ≡ false → update_where (λ u. str_eq u.id id) f us ≡ us
  update-absent [] h = refl
  update-absent (u ∷ us) h = ground (arith, update-absent us)

pub find-absent :
    (id : String) (us : List User) → has_id us id ≡ false → find (is_active_user id) us ≡ none
find-absent id [] h = refl
find-absent id (u ∷ us) h = ground (arith, find-absent id us)

-- An update of one row that a test does not select, before nor after, leaves the selected rows.
module _ (out : User → Bool) (id : String) (f : User → User) where
  pub filter-update :
      (us : List User) {u : User}
      → WellFormed us
      → find (is_active_user id) us ≡ some u
      → out u ≡ false
      → out (f u) ≡ false
      → filter out (update_where (λ v. str_eq v.id id) f us) ≡ filter out us
  filter-update [] w e a b = refl
  filter-update (v ∷ us) {u} (free, w) e a b = elim (Bool-cases (str_eq v.id id)) [
    | inr other ↦ rw other (ground (arith, filter-update us w (rw other at e) a b))
    | inl same ↦
        let gone : has_id us id ≡ false =
          subst (λ i. has_id us i ≡ false) ((eq_iff v.id id).0 same)
            (is_taken-has_id us v.id v.email free) in
        elim (Bool-cases (is_none v.deleted_at)) [
          | inl active ↦
              let it : v ≡ u = cc (rw (same, active) at e) in
              let a' : out v ≡ false = rw it a in
              let b' : out (f v) ≡ false = rw it b in
              rw (same, a', b', update-absent id f us gone) refl
          | inr deleted ↦ absurd (cc (sym (find-absent id us gone) ∙ (rw (same, deleted) at e)))
        ]
  ]

pub filter-append :
    (out : User → Bool) (us : List User) (u : User)
    → out u ≡ false
    → filter out (us ++ u ∷ []) ≡ filter out us
filter-append out [] u h = rw h refl
filter-append out (v ∷ us) u h = ground (arith, filter-append out us u)

is_taken-append :
    (us : List User) (x : User) (id email : String)
    → is_taken (us ++ x ∷ []) id email
      ≡ (is_taken us id email || (str_eq x.id id || str_eq x.email email))
is_taken-append [] x id email = ground arith
is_taken-append (u ∷ us) x id email = ground (arith, is_taken-append us x id email)

pub append-WellFormed :
    (us : List User) (x : User)
    → WellFormed us
    → is_taken us x.id x.email ≡ false
    → WellFormed (us ++ x ∷ [])
append-WellFormed [] x w free = (refl, tt)
append-WellFormed (u ∷ us) x (free', w) free = (
  ground (
    arith,
    is_taken-append us x u.id u.email,
    eq_iff x.id u.id,
    eq_iff u.id x.id,
    eq_iff x.email u.email,
    eq_iff u.email x.email,
  ),
  append-WellFormed us x w (ground arith),
)

module _ (id : String) (f : User → User) (keeps_id : (u : User) → (f u).id ≡ u.id) where
  -- A change that keeps the addresses.
  module _ (keeps_email : (u : User) → (f u).email ≡ u.email) where
    is_taken-update :
        (us : List User) (i email : String)
        → is_taken (update_where (λ u. str_eq u.id id) f us) i email ≡ is_taken us i email
    is_taken-update [] i email = refl
    is_taken-update (u ∷ us) i email =
        ground (arith, keeps_id u, keeps_email u, is_taken-update us i email)

    pub update-WellFormed :
        (us : List User) → WellFormed us → WellFormed (update_where (λ u. str_eq u.id id) f us)
    update-WellFormed [] w = tt
    update-WellFormed (u ∷ us) (free, w) = elim (Bool-cases (str_eq u.id id)) [
      | inl hit ↦ rw hit (
        rw (keeps_id u, keeps_email u, is_taken-update us u.id u.email) free,
        update-WellFormed us w,
      )
      | inr miss ↦ rw miss (rw (is_taken-update us u.id u.email) free, update-WellFormed us w)
    ]

  -- A change of the address to one that no other row has.
  module _ (email : String) (sets_email : (u : User) → (f u).email ≡ email) where
    abbrev is_used_by_other : User → Bool
    is_used_by_other v = not (str_eq v.id id) && str_eq v.email email

    taken-elsewhere :
        (us : List User) (i e : String)
        → is_taken us i e ≡ false
        → str_eq id i ≡ false
        → str_eq email e ≡ false
        → is_taken (update_where (λ u. str_eq u.id id) f us) i e ≡ false
    taken-elsewhere [] i e h k l = refl
    taken-elsewhere (u ∷ us) i e h k l = elim (Bool-cases (str_eq u.id id)) [
      | inl hit ↦
          let at : u.id ≡ id = (eq_iff u.id id).0 hit in
          rw (hit, keeps_id u, sets_email u, at, k, l) (taken-elsewhere us i e (ground arith) k l)
      | inr miss ↦ rw miss (ground (arith, taken-elsewhere us i e))
    ]

    taken-here :
        (us : List User)
        → has_id us id ≡ false
        → any is_used_by_other us ≡ false
        → is_taken us id email ≡ false
    taken-here [] h k = refl
    taken-here (u ∷ us) h k = ground (arith, taken-here us)

    pub update_email-WellFormed :
        (us : List User)
        → WellFormed us
        → any is_used_by_other us ≡ false
        → WellFormed (update_where (λ u. str_eq u.id id) f us)
    update_email-WellFormed [] w c = tt
    update_email-WellFormed (u ∷ us) (free, w) c = elim (Bool-cases (str_eq u.id id)) [
      | inl hit ↦
          let at : u.id ≡ id = (eq_iff u.id id).0 hit in
          let gone : has_id us id ≡ false =
            subst (λ i. has_id us i ≡ false) at (is_taken-has_id us u.id u.email free) in
          rw (hit, update-absent id f us gone, keeps_id u, sets_email u, at)
            (taken-here us gone (ground arith), w)
      | inr miss ↦
          let apart : str_eq id u.id ≡ false = ground (arith, eq_iff id u.id, eq_iff u.id id) in
          let fresh : str_eq email u.email ≡ false =
            ground (arith, eq_iff email u.email, eq_iff u.email email) in
          rw miss (
            taken-elsewhere us u.id u.email free apart fresh,
            update_email-WellFormed us w (ground arith),
          )
    ]
