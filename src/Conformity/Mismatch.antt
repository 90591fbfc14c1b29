-- ===== src/Conformity/Mismatch.antt =====
-- The registrations of the movements against those of the landing requests.
use aerobi_api.Common.{
  ◌≡◌, refl, sym, ap, ◌∙◌, Bool, true, false, List, [], ◌∷◌, none, some, ℕ, filter, All, inl, inr,
  Bool-cases, Option-cases, arith,
}
use aerobi_api.Common.Text.{Text, same_text, same_text_iff}
use aerobi_api.Landing.Store.{LandingRequest}
use aerobi_api.Registrations.{
  normalize_marcas, resolve_aircraft_registration, normalized, starts_without_p,
}
use aerobi_api.Registrations.Laws.{UpperCase, is_clean, normalize_marcas-canonical}
use aerobi_api.Registrations.Accepted.{
  has_hyphen, brazilian-has_hyphen, resolve_aircraft_registration-IsNational,
}
use aerobi_api.Conformity.Directory.{is_candidate, find_approved_landing_request_match}

clean-has_hyphen : (t : Text) → is_clean t ≡ true → has_hyphen t ≡ false
clean-has_hyphen [] h = refl
clean-has_hyphen (c ∷ t) h = ground (arith, clean-has_hyphen t)

-- The registration of the request was accepted as a national one that starts with P.
abbrev pub HasBrazilianMark : (ℕ → Text) → LandingRequest → Type 0
HasBrazilianMark other r =
    (t : Text)
    → r.aircraft_registration ≡ some t
    → (raw : Text) × (resolve_aircraft_registration other raw false ≡ normalized t)
      × (starts_without_p t ≡ false)

filter-none :
    (p : LandingRequest → Bool) (rs : List LandingRequest)
    → All (λ r. p r ≡ false) rs
    → filter p rs ≡ []
filter-none p [] a = refl
filter-none p (r ∷ rs) (h, a) = rw h (filter-none p rs a)

module _ (other : ℕ → Text) (u : UpperCase other) where
  mark-has_hyphen :
      (raw t : Text)
      → resolve_aircraft_registration other raw false ≡ normalized t
      → starts_without_p t ≡ false
      → has_hyphen t ≡ true
  mark-has_hyphen raw t e p = elim (resolve_aircraft_registration-IsNational other raw e) [
    | inl b ↦ brazilian-has_hyphen t b
    | inr (_, q) ↦ absurd (cc (sym p ∙ q))
  ]

  not_candidate :
      (raw icao : Text) (reference window_ms : ℕ) (r : LandingRequest)
      → HasBrazilianMark other r
      → is_candidate other (normalize_marcas other raw) icao reference window_ms r ≡ false
  not_candidate raw icao reference window_ms r h = elim (Option-cases r.aircraft_registration) [
    | inl without ↦ rw without (ground arith)
    | inr (t, has) ↦
        let (typed, e, p) = h t has in
        let (clean, upper) = normalize_marcas-canonical other u raw in
        let plain = clean-has_hyphen (normalize_marcas other raw) clean in
        let dashed = mark-has_hyphen typed t e p in
        let apart : same_text t (normalize_marcas other raw) ≡ false =
          elim (Bool-cases (same_text t (normalize_marcas other raw))) [
            | inl same ↦ absurd (
                cc (
                  sym dashed
                  ∙ ap has_hyphen ((same_text_iff t (normalize_marcas other raw)).0 same)
                  ∙ plain))
            | inr apart ↦ apart
          ] in
        rw (has, upper, apart) (ground arith)
  ]

  not_candidates :
      (raw icao : Text) (reference window_ms : ℕ) (rows : List LandingRequest)
      → All (HasBrazilianMark other) rows
      → All
          (λ r. is_candidate other (normalize_marcas other raw) icao reference window_ms r ≡ false)
          rows
  not_candidates raw icao reference window_ms [] a = tt
  not_candidates raw icao reference window_ms (r ∷ rs) (h, a) = (
    not_candidate raw icao reference window_ms r h,
    not_candidates raw icao reference window_ms rs a,
  )

  -- If all requests carry accepted national registrations that start with P, the search by the
  -- canonical registration of a movement finds none of them: those are stored with a hyphen, and the
  -- canonical form has none. It is assumed of Unicode that the upper case of a character outside
  -- ASCII that is no white space has neither white space nor a hyphen in it and is its own upper
  -- case.
  pub brazilian-unmatched :
      (rows : List LandingRequest) (raw icao : Text) (reference window_ms : ℕ)
      → All (HasBrazilianMark other) rows
      → find_approved_landing_request_match other rows
          (normalize_marcas other raw)
          icao
          reference
          window_ms
        ≡ none
  unfolding find_approved_landing_request_match
  brazilian-unmatched rows raw icao reference window_ms a =
      rw
        (filter-none (is_candidate other (normalize_marcas other raw) icao reference window_ms) rows
          (not_candidates raw icao reference window_ms rows a))
        refl
