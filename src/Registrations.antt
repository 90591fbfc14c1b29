-- ===== src/Registrations.antt =====
-- Aircraft registrations: src/modules/rab/utils/normalize-marcas.ts, which the movements use, and
-- src/modules/landing-requests/utils/aircraft-registration.util.ts, which the landing requests use.
-- `other` says what `toUpperCase` makes of a character outside ASCII.
pub mod Laws
pub mod Accepted
pub mod Stable
pub mod Tests
use aerobi_api.Common.{
  Bool, true, false, not, ◌&&◌, ◌||◌, List, [], ◌∷◌, ◌++◌, Option, none, some, String, ℕ, ◌==◌, leb,
  ltb, if◌then◌else◌, any, filter, take, drop, length,
}
use aerobi_api.Common.Text.{Text, codes, is_space, is_digit, is_upper, trim, to_upper, same_text}

abbrev pub hyphen : ℕ
hyphen = b'-'

abbrev pub is_separator : ℕ → Bool
is_separator c = is_space c || c == hyphen

abbrev pub is_alphanumeric : ℕ → Bool
is_alphanumeric c = is_upper c || is_digit c

abbrev pub brazilian_aircraft_nationality_marks : List Text
brazilian_aircraft_nationality_marks =
    (b'P' ∷ b'S' ∷ [])
    ∷ (b'P' ∷ b'T' ∷ [])
    ∷ (b'P' ∷ b'P' ∷ [])
    ∷ (b'P' ∷ b'R' ∷ [])
    ∷ (b'P' ∷ b'U' ∷ [])
    ∷ []

abbrev pub is_mark : Text → Bool
is_mark prefix = any (λ m. same_text m prefix) brazilian_aircraft_nationality_marks

-- /^(PS|PT|PP|PR|PU)-[A-Z]{3}$/
unfoldable pub is_brazilian : Text → Bool
is_brazilian (a ∷ b ∷ h ∷ x ∷ y ∷ z ∷ []) =
    is_mark (a ∷ b ∷ []) && (h == hyphen && (is_upper x && (is_upper y && is_upper z)))
is_brazilian _ = false

-- [A-NO-Z0-9]
abbrev pub is_non_p_start : ℕ → Bool
is_non_p_start c = (leb b'A' c && leb c b'N') || ((leb b'O' c && leb c b'Z') || is_digit c)

-- /^[A-NO-Z0-9][A-Z0-9]{5}$/
unfoldable pub is_non_p_national : Text → Bool
is_non_p_national (a ∷ b ∷ c ∷ d ∷ e ∷ f ∷ []) =
    is_non_p_start a
    && (is_alphanumeric b
        && (is_alphanumeric c && (is_alphanumeric d && (is_alphanumeric e && is_alphanumeric f))))
is_non_p_national _ = false

-- `compact.length > 0 && compact[0] !== 'P'`.
abbrev pub starts_without_p : Text → Bool
starts_without_p [] = false
starts_without_p (c ∷ t) = not (c == b'P')

abbrev pub is_blank : Text → Bool
is_blank [] = true
is_blank (c ∷ t) = false

unfoldable pub aircraft_registration_validation_message : Text → Option String
unfolding is_brazilian is_non_p_national
aircraft_registration_validation_message normalized =
    let compact = filter is_alphanumeric normalized in
    if is_blank normalized
    then some "Preencha a matrícula da aeronave"
    else if is_brazilian normalized
    then none
    else if starts_without_p compact && is_non_p_national compact
    then none
    else if starts_without_p compact
    then some "Matrícula sem marca brasileira (P): use exatamente 6 caracteres alfanuméricos."
    else some
        "Use PS, PT, PP, PR ou PU, hífen e 3 letras (ex.: PT-ABC). Marque \"Matrícula estrangeira\" para outros padrões."

unfoldable pub foreign_aircraft_registration_validation_message : Text → Option String
foreign_aircraft_registration_validation_message normalized =
    if is_blank normalized
    then some "Preencha a matrícula da aeronave"
    else if ltb (length normalized) 3 || ltb 8 (length normalized)
    then some "Matrícula estrangeira: entre 3 e 8 caracteres alfanuméricos."
    else none

-- What is written of the alphanumeric characters of a national registration.
unfoldable pub format_national : Text → Text
format_national t =
    if is_blank t
    then []
    else if is_mark (take 2 t)
    then take 2 t ++ hyphen ∷ take 3 (drop 2 t)
    else take 12 t

pub data RegistrationResolution : Type 0 where
  normalized : Text → RegistrationResolution
  error : String → RegistrationResolution

abbrev pub resolution : Text → Option String → RegistrationResolution
resolution t none = normalized t
resolution t (some message) = error message

unfoldable pub resolve_foreign : Text → RegistrationResolution
unfolding foreign_aircraft_registration_validation_message
resolve_foreign t = resolution t (foreign_aircraft_registration_validation_message t)

unfoldable pub resolve_national : Text → RegistrationResolution
unfolding aircraft_registration_validation_message
resolve_national t = resolution t (aircraft_registration_validation_message t)

module _ (other : ℕ → Text) where
  unfoldable pub normalize_marcas : Text → Text
  unfolding to_upper is_space
  normalize_marcas registration = to_upper other (filter (λ c. not (is_separator c)) registration)

  unfoldable pub normalize_foreign_aircraft_registration : Text → Text
  unfolding to_upper trim is_upper is_digit
  normalize_foreign_aircraft_registration raw = filter is_alphanumeric (to_upper other (trim raw))

  unfoldable pub normalize_aircraft_registration : Text → Text
  unfolding format_national to_upper trim is_upper is_digit
  normalize_aircraft_registration raw =
      format_national (filter is_alphanumeric (to_upper other (trim raw)))

  unfoldable pub resolve_aircraft_registration : Text → Bool → RegistrationResolution
  unfolding normalize_aircraft_registration normalize_foreign_aircraft_registration resolve_foreign
      resolve_national
  resolve_aircraft_registration raw foreign_registration =
      if foreign_registration
      then resolve_foreign (normalize_foreign_aircraft_registration raw)
      else resolve_national (normalize_aircraft_registration raw)
