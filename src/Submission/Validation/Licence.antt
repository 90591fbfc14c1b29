-- ===== src/Submission/Validation/Licence.antt =====
-- What ANAC is asked for a form that passes.
use aerobi_api.Common.{
  ◌≡◌, refl, sym, ap, ◌∙◌, Bool, true, false, ◌&&◌, [], ◌∷◌, ◌++◌, ℕ, zero, suc, ◌+◌, ==_iff, arith,
  length-append, all, filter, length, take, drop,
}
use aerobi_api.Common.Text.{Text, is_digit}
use aerobi_api.Validators.Cpf.{is_valid_cpf-shape}
use aerobi_api.Submission.Form.{CreateLandingRequestDto, format_cpf_for_anac}
use aerobi_api.Submission.Validation.{ClassValidator, is_valid_form}

all-filter : (t : Text) → all is_digit t ≡ true → filter is_digit t ≡ t
all-filter [] h = refl
all-filter (c ∷ t) h = ground (arith, all-filter t)

filter-append : (s t : Text) → filter is_digit (s ++ t) ≡ filter is_digit s ++ filter is_digit t
filter-append [] t = refl
filter-append (c ∷ s) t = ground (arith, filter-append s t)

take-drop : (n : ℕ) (t : Text) → take n t ++ drop n t ≡ t
take-drop zero t = refl
take-drop (suc n) [] = refl
take-drop (suc n) (c ∷ t) = ap (λ x. c ∷ x) (take-drop n t)

drop-drop : (m n : ℕ) (t : Text) → drop n (drop m t) ≡ drop (m + n) t
drop-drop zero n t = let e : 0 + n ≡ n = omega arith in rw e refl
drop-drop (suc m) zero [] = let e : suc m + 0 ≡ suc m = omega arith in rw e refl
drop-drop (suc m) (suc n) [] = let e : suc m + suc n ≡ suc (m + suc n) = omega arith in rw e refl
drop-drop (suc m) n (c ∷ t) =
    let e : suc m + n ≡ suc (m + n) = omega arith in rw e (drop-drop m n t)

all-take : (n : ℕ) (t : Text) → all is_digit t ≡ true → all is_digit (take n t) ≡ true
all-take zero t h = refl
all-take (suc n) [] h = refl
all-take (suc n) (c ∷ t) h = ground (arith, all-take n t)

all-drop : (n : ℕ) (t : Text) → all is_digit t ≡ true → all is_digit (drop n t) ≡ true
all-drop zero t h = h
all-drop (suc n) [] h = refl
all-drop (suc n) (c ∷ t) h = all-drop n t (ground arith)

-- A point or a hyphen between two pieces is not seen.
joined :
    (mark : ℕ) (s t u : Text)
    → is_digit mark ≡ false
    → all is_digit s ≡ true
    → filter is_digit t ≡ u
    → filter is_digit (s ++ mark ∷ t) ≡ s ++ u
joined mark s t u m h e =
    filter-append s (mark ∷ t)
    ∙ ap (λ x. x ++ filter is_digit (mark ∷ t)) (all-filter s h)
    ∙ ap (λ x. s ++ x) (rw m e)

pieces : (t : Text) → take 3 t ++ (take 3 (drop 3 t) ++ (take 3 (drop 6 t) ++ drop 9 t)) ≡ t
pieces t =
    let last : take 3 (drop 6 t) ++ drop 9 t ≡ drop 6 t =
      ap (λ x. take 3 (drop 6 t) ++ x) (sym (drop-drop 6 3 t)) ∙ take-drop 3 (drop 6 t) in
    let middle : take 3 (drop 3 t) ++ drop 6 t ≡ drop 3 t =
      ap (λ x. take 3 (drop 3 t) ++ x) (sym (drop-drop 3 3 t)) ∙ take-drop 3 (drop 3 t) in
    ap (λ x. take 3 t ++ (take 3 (drop 3 t) ++ x)) last
    ∙ ap (λ x. take 3 t ++ x) middle
    ∙ take-drop 3 t

-- The number in the mask.
abbrev in_mask : Text → Text
in_mask t = take 3 t ++ b'.' ∷ (take 3 (drop 3 t) ++ b'.' ∷ (take 3 (drop 6 t) ++ b'-' ∷ drop 9 t))

format-in_mask :
    (t : Text) → all is_digit t ≡ true → length t ≡ 11 → format_cpf_for_anac t ≡ in_mask t
unfolding format_cpf_for_anac
format-in_mask t h e = rw (all-filter t h, (==_iff _ _).1 e) refl

point-plain : is_digit b'.' ≡ false
unfolding is_digit
point-plain = refl

hyphen-plain : is_digit b'-' ≡ false
unfolding is_digit
hyphen-plain = refl

filter-in_mask : (t : Text) → all is_digit t ≡ true → filter is_digit (in_mask t) ≡ t
filter-in_mask t h =
    joined b'.' (take 3 t) _ _ point-plain (all-take 3 t h) (
      joined b'.' (take 3 (drop 3 t)) _ _ point-plain (all-take 3 _ (all-drop 3 t h)) (
        joined b'-' (take 3 (drop 6 t)) _ _ hyphen-plain (all-take 3 _ (all-drop 6 t h))
          (all-filter (drop 9 t) (all-drop 9 t h))))
    ∙ pieces t

length-in_mask :
    (a b c d : Text)
    → length (a ++ b'.' ∷ (b ++ b'.' ∷ (c ++ b'-' ∷ d))) ≡ length (a ++ (b ++ (c ++ d))) + 3
length-in_mask a b c d = omega (
  arith,
  length-append a (b'.' ∷ (b ++ b'.' ∷ (c ++ b'-' ∷ d))),
  length-append b (b'.' ∷ (c ++ b'-' ∷ d)),
  length-append c (b'-' ∷ d),
  length-append a (b ++ (c ++ d)),
  length-append b (c ++ d),
  length-append c d,
)

length-pieces : (t : Text) → length t ≡ 11 → length (in_mask t) ≡ 14
length-pieces t e =
    length-in_mask (take 3 t) (take 3 (drop 3 t)) (take 3 (drop 6 t)) (drop 9 t)
    ∙ ap (λ x. length x + 3) (pieces t)
    ∙ ap (λ n. n + 3) e

first-holds : (a b : Bool) → (a && b) ≡ true → a ≡ true
first-holds true b h = refl
first-holds false b h = absurd (cc h)

-- For a form that passes its validation, ANAC is asked with fourteen characters, and the digits
-- among them are the number of the pilot.
pub valid_form-format :
    (v : ClassValidator) (dto : CreateLandingRequestDto)
    → is_valid_form v dto ≡ true
    → (filter is_digit (format_cpf_for_anac dto.pilot_cpf) ≡ dto.pilot_cpf)
      × (length (format_cpf_for_anac dto.pilot_cpf) ≡ 14)
unfolding is_valid_form
valid_form-format v dto h =
    let cpf = dto.pilot_cpf in
    let (long, plain) = is_valid_cpf-shape cpf (first-holds _ _ h) in
    rw (format-in_mask cpf plain long) (filter-in_mask cpf plain, length-pieces cpf long)
