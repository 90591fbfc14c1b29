-- ===== src/Validators.antt =====
-- src/common/validators/is-cpf.validator.ts, is-e164-phone.validator.ts and
-- src/common/utils/security-code.util.ts. The random bytes of a code are an argument.
pub mod Cpf
pub mod Code
mod Tests
use aerobi_api.Common.{
  Bool, true, false, not, ◌&&◌, List, [], ◌∷◌, map, String, ℕ, zero, suc, ◌+◌, ◌-◌, ◌*◌, ◌%◌, ◌==◌,
  leb, if◌then◌else◌, all, length, take, drop,
}
use aerobi_api.Common.Text.{Text, codes, is_digit}

-- The code unit at a place; past the end there is none, which is no digit.
abbrev pub unit_at : ℕ → Text → ℕ
unit_at n [] = 0
unit_at zero (c ∷ t) = c
unit_at (suc n) (c ∷ t) = unit_at n t

-- `Number` of a digit.
abbrev pub digit_value : ℕ → ℕ
digit_value c = c - b'0'

-- The sum of digits by falling weights.
abbrev pub weighted : ℕ → Text → ℕ
weighted w [] = 0
weighted w (c ∷ t) = digit_value c * w + weighted (w - 1) t

unfoldable pub check_digit : ℕ → Text → ℕ
check_digit length' t =
    let remainder = (weighted (length' + 1) (take length' t) * 10) % 11 in
    if remainder == 10 then 0 else remainder

-- `/^(\d)\1{10}$/`
abbrev pub is_repeated : Text → Bool
is_repeated [] = false
is_repeated (c ∷ t) = all (λ d. d == c) t

unfoldable pub is_valid_cpf_digits : Text → Bool
unfolding check_digit is_digit
is_valid_cpf_digits value =
    (length value == 11 && all is_digit value)
    && (not (is_repeated value)
        && (check_digit 9 value == digit_value (unit_at 9 value)
            && check_digit 10 value == digit_value (unit_at 10 value)))

-- `/^\+[1-9]\d{7,14}$/`
unfoldable pub is_e164 : Text → Bool
unfolding is_digit
is_e164 [] = false
is_e164 (p ∷ []) = false
is_e164 (p ∷ d ∷ t) =
    (p == b'+' && (leb b'1' d && leb d b'9'))
    && (all is_digit t && (leb 7 (length t) && leb (length t) 14))

abbrev pub alphabet : Text
alphabet = codes "ABCDEFGHJKLMNPQRSTUVWXYZ23456789"

abbrev pub code_length : ℕ
code_length = 8

-- The character for a byte.
unfoldable pub drawn_character : ℕ → ℕ
drawn_character byte = unit_at (byte % length alphabet) alphabet

-- The code that the random bytes give.
unfoldable pub generate_security_code : List ℕ → Text
unfolding drawn_character
generate_security_code bytes = map drawn_character (take code_length bytes)
