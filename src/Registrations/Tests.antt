-- ===== src/Registrations/Tests.antt =====
-- A registration as a pilot types it.
use aerobi_api.Common.{◌≡◌, refl, true, false, [], ◌∷◌, ℕ, leb}
use aerobi_api.Common.Text.{Text, codes, to_upper, is_space, trim, is_upper, is_lower, is_digit}
use aerobi_api.Registrations.{
  normalize_marcas, resolve_aircraft_registration, normalized, is_separator,
  normalize_aircraft_registration, format_national, aircraft_registration_validation_message,
  is_brazilian,
}
use aerobi_api.Registrations.Laws.{UpperCase, is_clean}

-- A world without letters outside ASCII.
abbrev pub ascii_only : ℕ → Text
ascii_only c = c ∷ []

clean_char : (c : ℕ) → is_separator c ≡ false → is_clean (ascii_only c) ≡ true
clean_char c h = rw h refl

stable_char : (c : ℕ) → leb c 127 ≡ false → to_upper ascii_only (ascii_only c) ≡ ascii_only c
unfolding to_upper
stable_char c h = rw h refl

pub ascii_only-UpperCase : UpperCase ascii_only
ascii_only-UpperCase = record {
  upper_clean = λ c wide h. clean_char c h;
  upper_stable = stable_char;
}

canonical_test : normalize_marcas ascii_only (codes " pt-kob") ≡ codes "PTKOB"
unfolding normalize_marcas to_upper is_space is_lower
canonical_test = refl

pub accepted_test :
    resolve_aircraft_registration ascii_only (codes " pt kob") false ≡ normalized (codes "PT-KOB")
unfolding resolve_aircraft_registration normalize_aircraft_registration format_national
    aircraft_registration_validation_message is_brazilian to_upper trim is_upper is_lower is_digit
    is_space
accepted_test = refl
