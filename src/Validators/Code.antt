-- ===== src/Validators/Code.antt =====
-- What a security code looks like, and that no character is more likely than another.
use aerobi_api.Common.{
  ◌≡◌, refl, Bool, true, ◌&&◌, List, [], ◌∷◌, map, ℕ, zero, suc, ◌+◌, ◌%◌, ◌<◌, ◌≤◌, ◌==◌, ==_iff,
  arith, all, any, length, take, if◌then◌else◌,
}
use aerobi_api.Validators.{unit_at, alphabet, drawn_character, generate_security_code}

-- How many of the numbers below a bound pass a test.
unfoldable pub count_below : ℕ → (ℕ → Bool) → ℕ
count_below zero p = 0
count_below (suc n) p = (if p n then 1 else 0) + count_below n p

all_below : ℕ → (ℕ → Bool) → Bool
all_below zero p = true
all_below (suc n) p = p n && all_below n p

all_below-lt : (n : ℕ) (p : ℕ → Bool) (i : ℕ) → all_below n p ≡ true → i < n → p i ≡ true
unfolding all_below
all_below-lt zero p i h k = absurd (omega arith)
all_below-lt (suc n) p i h k = ground (arith, all_below-lt n p i)

table :
    all_below 32 (λ i. count_below 256 (λ b. drawn_character b == unit_at i alphabet) == 8) ≡ true
unfolding all_below count_below drawn_character
table = refl

member_table : all_below 32 (λ i. any (λ c. c == unit_at i alphabet) alphabet) ≡ true
unfolding all_below
member_table = refl

abbrev pub in_alphabet : ℕ → Bool
in_alphabet u = any (λ c. c == u) alphabet

drawn-in_alphabet : (byte : ℕ) → in_alphabet (drawn_character byte) ≡ true
unfolding drawn_character
drawn-in_alphabet byte =
    all_below-lt 32 (λ i. in_alphabet (unit_at i alphabet)) (byte % 32) member_table (omega arith)

map-in_alphabet : (bytes : List ℕ) → all in_alphabet (map drawn_character bytes) ≡ true
map-in_alphabet [] = refl
map-in_alphabet (b ∷ bytes) = ground (arith, drawn-in_alphabet b, map-in_alphabet bytes)

length-take : (n : ℕ) (xs : List ℕ) → n ≤ length xs → length (map drawn_character (take n xs)) ≡ n
length-take zero xs h = refl
length-take (suc n) [] h = absurd (omega arith)
length-take (suc n) (x ∷ xs) h = omega (arith, length-take n xs)

-- From at least eight random bytes, a security code has eight characters, all of the alphabet; and
-- each of the 32 characters is drawn by exactly eight of the 256 values of a byte, so that none is
-- more likely than another.
pub security_code_fair :
    (bytes : List ℕ) (i : ℕ)
    → 8 ≤ length bytes
    → i < 32
    → (length (generate_security_code bytes) ≡ 8)
      × (all in_alphabet (generate_security_code bytes) ≡ true)
      × (count_below 256 (λ b. drawn_character b == unit_at i alphabet) ≡ 8)
unfolding generate_security_code
security_code_fair bytes i long h = (
  length-take 8 bytes long,
  map-in_alphabet (take 8 bytes),
  (==_iff _ _).0 (
      all_below-lt 32 (λ j. count_below 256 (λ b. drawn_character b == unit_at j alphabet) == 8) i
        table h),
)
