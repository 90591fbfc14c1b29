-- ===== src/Validators/Cpf.antt =====
-- What the check digits of a CPF determine.
use aerobi_api.Common.{
  ◌≡◌, refl, sym, ap, ◌∙◌, Bool, true, false, [], ◌∷◌, ◌++◌, ℕ, zero, suc, ◌≤◌, ◌&&◌, ==_iff, arith,
  length, take, all,
}
use aerobi_api.Common.Text.{Text, is_digit}
use aerobi_api.Validators.{unit_at, digit_value, check_digit, is_valid_cpf_digits}

take-next : (n : ℕ) (t : Text) → suc n ≤ length t → take (suc n) t ≡ take n t ++ unit_at n t ∷ []
take-next n [] h = absurd (omega arith)
take-next zero (c ∷ t) h = refl
take-next (suc n) (c ∷ t) h = ap (λ x. c ∷ x) (take-next n t (omega arith))

take-whole : (t : Text) → take (length t) t ≡ t
take-whole [] = refl
take-whole (c ∷ t) = ap (λ x. c ∷ x) (take-whole t)

digit-value :
    (c d : ℕ) → is_digit c ≡ true → is_digit d ≡ true → digit_value c ≡ digit_value d → c ≡ d
unfolding is_digit
digit-value c d h k e = ground arith

digit-at :
    (n : ℕ) (t : Text) → all is_digit t ≡ true → suc n ≤ length t → is_digit (unit_at n t) ≡ true
digit-at n [] h k = absurd (omega arith)
digit-at zero (c ∷ t) h k = ground arith
digit-at (suc n) (c ∷ t) h k = digit-at n t (ground arith) (omega arith)

both : (a b : Bool) → (a && b) ≡ true → (a ≡ true) × (b ≡ true)
both true b h = (refl, h)
both false b h = absurd (cc h)

record IsCpf (t : Text) : Type 0 where
  eleven : length t ≡ 11
  digits : all is_digit t ≡ true
  first : check_digit 9 t ≡ digit_value (unit_at 9 t)
  second : check_digit 10 t ≡ digit_value (unit_at 10 t)

valid-IsCpf : (t : Text) → is_valid_cpf_digits t ≡ true → IsCpf t
unfolding is_valid_cpf_digits
valid-IsCpf t h =
    let (shape, rest) = both _ _ h in
    let (long, plain) = both _ _ shape in
    let (varied, checks) = both _ _ rest in
    let (one, two) = both _ _ checks in
    record {
      eleven = (==_iff _ _).0 long;
      digits = plain;
      first = (==_iff _ _).0 one;
      second = (==_iff _ _).0 two;
    }

check-same : (n : ℕ) (s t : Text) → take n s ≡ take n t → check_digit n s ≡ check_digit n t
unfolding check_digit
check-same n s t e = rw e refl

-- The place n of two numbers that share the first n digits and have the check digit there.
next-same :
    (n : ℕ) (s t : Text)
    → all is_digit s ≡ true
    → all is_digit t ≡ true
    → suc n ≤ length s
    → suc n ≤ length t
    → take n s ≡ take n t
    → check_digit n s ≡ digit_value (unit_at n s)
    → check_digit n t ≡ digit_value (unit_at n t)
    → take (suc n) s ≡ take (suc n) t
next-same n s t ds dt ls lt e cs ct =
    let value : digit_value (unit_at n s) ≡ digit_value (unit_at n t) =
      sym cs ∙ check-same n s t e ∙ ct in
    let unit =
      digit-value (unit_at n s) (unit_at n t) (digit-at n s ds ls) (digit-at n t dt lt) value in
    take-next n s ls
    ∙ ap (λ x. x ++ unit_at n s ∷ []) e
    ∙ ap (λ c. take n t ++ c ∷ []) unit
    ∙ sym (take-next n t lt)

IsCpf-determined : (s t : Text) → IsCpf s → IsCpf t → take 9 s ≡ take 9 t → s ≡ t
IsCpf-determined s t a b e =
    let ten =
      next-same 9 s t a.digits b.digits (omega (arith, a.eleven)) (omega (arith, b.eleven)) e
        a.first b.first in
    let whole =
      next-same 10 s t a.digits b.digits (omega (arith, a.eleven)) (omega (arith, b.eleven)) ten
        a.second b.second in
    sym (take-whole s)
    ∙ ap (λ n. take n s) a.eleven
    ∙ whole
    ∙ ap (λ n. take n t) (sym b.eleven)
    ∙ take-whole t

-- The first nine digits of a valid CPF determine it.
is_valid_cpf-determined :
    (s t : Text)
    → is_valid_cpf_digits s ≡ true
    → is_valid_cpf_digits t ≡ true
    → take 9 s ≡ take 9 t
    → s ≡ t
is_valid_cpf-determined s t h k = IsCpf-determined s t (valid-IsCpf s h) (valid-IsCpf t k)

pub is_valid_cpf-shape :
    (t : Text) → is_valid_cpf_digits t ≡ true → (length t ≡ 11) × (all is_digit t ≡ true)
is_valid_cpf-shape t h = let c = valid-IsCpf t h in (c.eleven, c.digits)
