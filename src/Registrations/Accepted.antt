-- ===== src/Registrations/Accepted.antt =====
-- The registrations that the submission of a landing request accepts.
use aerobi_api.Common.{
  ◌≡◌, ◌⊎◌, refl, sym, subst, ◌∙◌, zero, suc, Bool, true, false, [], ◌∷◌, Option, none, some,
  String, ℕ, ◌==◌, any, all, filter, take, arith, inl, inr, Bool-cases,
}
use aerobi_api.Common.Text.{Text, to_upper, trim, is_upper, is_digit}
use aerobi_api.Registrations.{
  hyphen, is_alphanumeric, is_mark, is_brazilian, is_non_p_national, starts_without_p,
  format_national, normalized, resolution, resolve_national, resolve_aircraft_registration,
  aircraft_registration_validation_message, normalize_aircraft_registration,
}

abbrev pub has_hyphen : Text → Bool
has_hyphen t = any (λ c. c == hyphen) t

normalized-eq : {s t : Text} → normalized s ≡ normalized t → s ≡ t
normalized-eq e = cc e

resolution-eq :
    (t : Text) (o : Option String) {n : Text} → resolution t o ≡ normalized n → (o ≡ none) × (t ≡ n)
resolution-eq t none e = (refl, normalized-eq e)
resolution-eq t (some m) e = absurd (cc e)

pub resolve_national-eq : (t : Text) {n : Text} → resolve_national t ≡ normalized n → t ≡ n
unfolding aircraft_registration_validation_message resolve_national
resolve_national-eq t e = (resolution-eq t (aircraft_registration_validation_message t) e).1

-- A national registration with a Brazilian mark has the form XX-XXX.
pub brazilian-has_hyphen : (t : Text) → is_brazilian t ≡ true → has_hyphen t ≡ true
unfolding is_brazilian
brazilian-has_hyphen (a ∷ b ∷ h ∷ x ∷ y ∷ z ∷ []) e = ground arith
brazilian-has_hyphen _ e = absurd (cc e)

pub accepted_national :
    (t : Text)
    → aircraft_registration_validation_message t ≡ none
    → (is_brazilian t ≡ true)
      ⊎ ((is_non_p_national (filter is_alphanumeric t) ≡ true)
          × (starts_without_p (filter is_alphanumeric t) ≡ true))
unfolding aircraft_registration_validation_message
accepted_national t e = ground arith

-- The two forms of an accepted national registration: XX-XXX with a Brazilian mark, or six
-- alphanumeric characters that do not start with P.
abbrev pub IsNational : Text → Type 0
IsNational n =
    (is_brazilian n ≡ true) ⊎ ((is_non_p_national n ≡ true) × (starts_without_p n ≡ true))

filter-is_alphanumeric : (t : Text) → all is_alphanumeric (filter is_alphanumeric t) ≡ true
filter-is_alphanumeric [] = refl
filter-is_alphanumeric (c ∷ t) = ground (arith, filter-is_alphanumeric t)

filter-all : (t : Text) → all is_alphanumeric t ≡ true → filter is_alphanumeric t ≡ t
filter-all [] h = refl
filter-all (c ∷ t) h = ground (arith, filter-all t)

all-take : (n : ℕ) (t : Text) → all is_alphanumeric t ≡ true → all is_alphanumeric (take n t) ≡ true
all-take zero t h = refl
all-take (suc n) [] h = refl
all-take (suc n) (c ∷ t) h = ground (arith, all-take n t)

-- A formatted registration with a Brazilian mark starts with P.
mark-starts :
    (a b : ℕ) (r : Text)
    → is_mark (a ∷ b ∷ []) ≡ true
    → starts_without_p (filter is_alphanumeric (a ∷ b ∷ r)) ≡ false
unfolding is_upper is_digit
mark-starts a b r h = ground arith

formatted :
    (t : Text)
    → all is_alphanumeric t ≡ true
    → (starts_without_p (filter is_alphanumeric (format_national t)) ≡ false)
      ⊎ (all is_alphanumeric (format_national t) ≡ true)
unfolding format_national
formatted [] h = inr refl
formatted (a ∷ []) h = inr (ground arith)
formatted (a ∷ b ∷ t) h = elim (Bool-cases (is_mark (a ∷ b ∷ []))) [
  | inl hit ↦ inl (rw hit (mark-starts a b (hyphen ∷ take 3 t) hit))
  | inr miss ↦ inr (rw miss (all-take 12 (a ∷ b ∷ t) h))
]

national :
    (t n : Text)
    → all is_alphanumeric t ≡ true
    → resolve_national (format_national t) ≡ normalized n
    → IsNational n
unfolding aircraft_registration_validation_message resolve_national
national t n h e =
    let (valid, same) =
      resolution-eq (format_national t)
        (aircraft_registration_validation_message (format_national t)) e in
    subst IsNational same (elim (accepted_national (format_national t) valid) [
      | inl b ↦ inl b
      | inr (shape, start) ↦ elim (formatted t h) [
        | inl p ↦ absurd (cc (sym p ∙ start))
        | inr plain ↦ inr (
          subst (λ x. is_non_p_national x ≡ true) (filter-all _ plain) shape,
          subst (λ x. starts_without_p x ≡ true) (filter-all _ plain) start,
        )
      ]
    ])

module _ (other : ℕ → Text) where
  pub resolve_aircraft_registration-IsNational :
      (raw : Text) {n : Text}
      → resolve_aircraft_registration other raw false ≡ normalized n
      → IsNational n
  unfolding resolve_aircraft_registration normalize_aircraft_registration
  resolve_aircraft_registration-IsNational raw {n} e =
      let t = to_upper other (trim raw) in
      national (filter is_alphanumeric t) n (filter-is_alphanumeric t) e
