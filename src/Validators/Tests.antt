-- ===== src/Validators/Tests.antt =====
-- Numbers with good and bad check digits, and a code.
use aerobi_api.Common.{◌≡◌, refl, true, false, List, [], ◌∷◌, ℕ, arith, all, length, ◌==◌}
use aerobi_api.Common.Text.{codes}
use aerobi_api.Validators.{
  is_valid_cpf_digits, is_e164, generate_security_code, drawn_character, unit_at, alphabet,
}
use aerobi_api.Validators.Code.{in_alphabet, count_below, security_code_fair}

good_number : is_valid_cpf_digits (codes "12345678909") ≡ true
unfolding is_valid_cpf_digits
good_number = refl

bad_number : is_valid_cpf_digits (codes "12345678900") ≡ false
unfolding is_valid_cpf_digits
bad_number = refl

repeated_number : is_valid_cpf_digits (codes "11111111111") ≡ false
unfolding is_valid_cpf_digits
repeated_number = refl

phone : is_e164 (codes "+5511999999999") ≡ true
unfolding is_e164
phone = refl

abbrev bytes : List ℕ
bytes = 0 ∷ 1 ∷ 32 ∷ 255 ∷ 7 ∷ 8 ∷ 200 ∷ 31 ∷ []

fair_example :
    (length (generate_security_code bytes) ≡ 8)
    × (all in_alphabet (generate_security_code bytes) ≡ true)
    × (count_below 256 (λ b. drawn_character b == unit_at 5 alphabet) ≡ 8)
fair_example = security_code_fair bytes 5 (omega arith) (omega arith)
