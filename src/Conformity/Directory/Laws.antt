-- ===== src/Conformity/Directory/Laws.antt =====
-- What the search for an approved request finds.
use aerobi_api.Common.{
  ◌≡◌, ◌↔◌, refl, sym, subst, Bool, true, List, [], ◌∷◌, Option, none, some, ℕ, ◌≤◌, ◌<◌, filter,
  All, In, All-self, filter-All, ltb, inl, inr, Bool-cases, arith,
}
use aerobi_api.Common.Text.{Text}
use aerobi_api.Landing.Store.{LandingRequest}
use aerobi_api.Conformity.Directory.{
  is_candidate, comes_first, insert, order_by, delta, closest, find_approved_landing_request_match,
}

module _ (P : LandingRequest → Type 0) where
  All-insert :
      (q : LandingRequest) (rs : List LandingRequest) → All P (insert q rs) ↔ (P q × All P rs)
  All-insert q [] = (λ h. h, λ h. h)
  All-insert q (r ∷ rs) = elim (Bool-cases (comes_first q r)) [
    | inl first ↦ rw first (λ h. h, λ h. h)
    | inr after ↦ rw after (
      λ (p, h). let (x, y) = (All-insert q rs).0 h in (x, (p, y)),
      λ (x, (p, y)). (p, (All-insert q rs).1 (x, y)),
    )
  ]

  All-order_by : (rs : List LandingRequest) → All P (order_by rs) ↔ All P rs
  All-order_by [] = (λ h. h, λ h. h)
  All-order_by (r ∷ rs) = (
    λ h. let (p, q) = (All-insert r (order_by rs)).0 h in (p, (All-order_by rs).0 q),
    λ (p, q). (All-insert r (order_by rs)).1 (p, (All-order_by rs).1 q),
  )

-- The result of the loop has the property of the rows and is at most as far as each of them.
module _ (reference : ℕ) where
  abbrev AtMost : ℕ → LandingRequest → Type 0
  AtMost d r = d ≤ delta reference r

  closest-some :
      (b : LandingRequest) (rs : List LandingRequest)
      → (m : LandingRequest) × (closest reference (some b) rs ≡ some m)
        × (delta reference m ≤ delta reference b)
        × All (AtMost (delta reference m)) rs
  closest-some b [] = (b, refl, omega arith, tt)
  closest-some b (r ∷ rs) = elim (Bool-cases (ltb (delta reference r) (delta reference b))) [
    | inl nearer ↦
        let (m, e, d, a) = closest-some r rs in
        let lt : delta reference r < delta reference b = ground arith in
        (m, rw nearer e, omega arith, (d, a))
    | inr farther ↦
        let (m, e, d, a) = closest-some b rs in
        let le : delta reference b ≤ delta reference r = ground arith in
        (m, rw farther e, d, (omega arith, a))
  ]

module _ (P : LandingRequest → Type 0) (reference : ℕ) where
  closest-has :
      (b : LandingRequest) (rs : List LandingRequest) {m : LandingRequest}
      → P b
      → All P rs
      → closest reference (some b) rs ≡ some m
      → P m
  closest-has b [] p a e = subst P (cc e) p
  closest-has b (r ∷ rs) p (q, a) e =
      elim (Bool-cases (ltb (delta reference r) (delta reference b))) [
        | inl nearer ↦ closest-has r rs q a (rw nearer at e)
        | inr farther ↦ closest-has b rs p a (rw farther at e)
      ]

-- What holds of the filtered rows holds of the rows that pass.
All-filter :
    (p : LandingRequest → Bool) (P : LandingRequest → Type 0) (rs : List LandingRequest)
    → All P (filter p rs)
    → All (λ r. p r ≡ true → P r) rs
All-filter p P [] a = tt
All-filter p P (r ∷ rs) a = elim (Bool-cases (p r)) [
  | inl hit ↦ let (x, y) = rw hit at a in (λ _. x, All-filter p P rs y)
  | inr miss ↦ (λ h. absurd (cc (rw miss at h)), All-filter p P rs (rw miss at a))
]

module _ (other : ℕ → Text) (rows : List LandingRequest) (registration aerodrome_icao : Text)
    (reference window_ms : ℕ) where
  abbrev IsCandidate : LandingRequest → Type 0
  IsCandidate r = is_candidate other registration aerodrome_icao reference window_ms r ≡ true

  abbrev Fits : LandingRequest → Type 0
  Fits r = IsCandidate r × In r rows

  -- Either no row is a candidate and none is found, or a candidate that none is closer than.
  abbrev pub Found : Option LandingRequest → Type 0
  Found none = All (λ r. ¬ IsCandidate r) rows
  Found (some m) =
      (IsCandidate m × In m rows)
      × All (λ r. IsCandidate r → delta reference m ≤ delta reference r) rows

  -- The search for an approved request finds one exactly when the table has an active, approved one
  -- of the registration and the aerodrome within the window, and then one of them that no other such
  -- request is closer than.
  pub find_match-Found : Found (
      find_approved_landing_request_match other rows registration aerodrome_icao reference
        window_ms)
  unfolding find_approved_landing_request_match
  find_match-Found =
      let p = is_candidate other registration aerodrome_icao reference window_ms in
      scanned (order_by (filter p rows))
        ((All-order_by Fits (filter p rows)).1 (filter-All p (λ r. In r rows) rows (All-self rows)))
        (λ P a. All-filter p P rows ((All-order_by P (filter p rows)).0 a))
    where
      scanned :
          (rs : List LandingRequest)
          → All Fits rs
          → ((P : LandingRequest → Type 0) → All P rs → All (λ r. IsCandidate r → P r) rows)
          → Found (closest reference none rs)
      scanned [] a back = back (λ r. ⊥) tt
      scanned (r ∷ rs) (h, a) back =
          let (m, e, d, far) = closest-some reference r rs in
          subst Found (sym e) (
            closest-has Fits reference r rs h a e,
            back (AtMost reference (delta reference m)) (d, far),
          )
