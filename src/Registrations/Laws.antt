-- ===== src/Registrations/Laws.antt =====
-- The canonical form of a registration that the movements and the RAB share.
use aerobi_api.Common.{
  ◌≡◌, refl, sym, ap, Bool, true, false, not, ◌&&◌, [], ◌∷◌, ◌++◌, ℕ, ◌-◌, leb, if◌then◌else◌, all,
  filter, arith, inl, inr, Bool-cases,
}
use aerobi_api.Common.Text.{Text, is_lower, is_space, to_upper}
use aerobi_api.Registrations.{is_separator, normalize_marcas}

abbrev pub is_clean : Text → Bool
is_clean t = all (λ c. not (is_separator c)) t

-- What Unicode says of the upper case of a character outside ASCII: it has no white space and no
-- hyphen in it, unless the character is white space itself, and upper case stays as it is.
pub record UpperCase (other : ℕ → Text) : Type 0 where
  pub upper_clean : (c : ℕ) → leb c 127 ≡ false → is_separator c ≡ false → is_clean (other c) ≡ true
  pub upper_stable : (c : ℕ) → leb c 127 ≡ false → to_upper other (other c) ≡ other c

filter-is_clean : (t : Text) → is_clean (filter (λ c. not (is_separator c)) t) ≡ true
filter-is_clean [] = refl
filter-is_clean (c ∷ t) = ground (arith, filter-is_clean t)

all-append : (p : ℕ → Bool) (s t : Text) → all p (s ++ t) ≡ (all p s && all p t)
all-append p [] t = refl
all-append p (c ∷ s) t = ground (arith, all-append p s t)

filter-all : (p : ℕ → Bool) (t : Text) → all p t ≡ true → filter p t ≡ t
filter-all p [] h = refl
filter-all p (c ∷ t) h = ground (arith, filter-all p t)

-- A small letter and its capital are no separators.
lower-is_clean : (c : ℕ) → is_lower c ≡ true → is_separator (c - 32) ≡ false
unfolding is_lower is_space
lower-is_clean c h = ground arith

append_assoc : (r s t : Text) → (r ++ s) ++ t ≡ r ++ (s ++ t)
append_assoc [] s t = refl
append_assoc (c ∷ r) s t = ap (λ x. c ∷ x) (append_assoc r s t)

module _ (other : ℕ → Text) where
  abbrev upper_char : ℕ → Text
  unfolding is_lower
  upper_char c = if leb c 127 then (if is_lower c then c - 32 else c) ∷ [] else other c

  to_upper-append : (s t : Text) → to_upper other (s ++ t) ≡ to_upper other s ++ to_upper other t
  unfolding to_upper is_lower
  to_upper-append [] t = refl
  to_upper-append (c ∷ s) t =
      rw (to_upper-append s t)
        (sym (append_assoc (upper_char c) (to_upper other s) (to_upper other t)))

module _ (other : ℕ → Text) (u : UpperCase other) where
  upper_char-stable : (c : ℕ) → to_upper other (upper_char other c) ≡ upper_char other c
  unfolding to_upper is_lower
  upper_char-stable c = elim (Bool-cases (leb c 127)) [
    | inl ascii ↦ rw ascii (ground arith)
    | inr wide ↦ rw wide (u.upper_stable c wide)
  ]

  upper_char-is_clean : (c : ℕ) → is_separator c ≡ false → is_clean (upper_char other c) ≡ true
  unfolding is_lower
  upper_char-is_clean c h = elim (Bool-cases (leb c 127)) [
    | inl ascii ↦ rw ascii (ground (arith, lower-is_clean c))
    | inr wide ↦ rw wide (u.upper_clean c wide h)
  ]

  to_upper-stable : (t : Text) → to_upper other (to_upper other t) ≡ to_upper other t
  unfolding to_upper is_lower
  to_upper-stable [] = refl
  to_upper-stable (c ∷ t) =
      rw (to_upper-append other (upper_char other c) (to_upper other t))
        (rw (upper_char-stable c, to_upper-stable t) refl)

  to_upper-is_clean : (t : Text) → is_clean t ≡ true → is_clean (to_upper other t) ≡ true
  unfolding to_upper is_lower
  to_upper-is_clean [] h = refl
  to_upper-is_clean (c ∷ t) h = ground (
    arith,
    all-append (λ d. not (is_separator d)) (upper_char other c) (to_upper other t),
    upper_char-is_clean c,
    to_upper-is_clean t,
  )

  -- The canonical form: no white space, no hyphen, and the upper case of itself.
  pub normalize_marcas-canonical :
      (t : Text)
      → (is_clean (normalize_marcas other t) ≡ true)
        × (to_upper other (normalize_marcas other t) ≡ normalize_marcas other t)
  unfolding normalize_marcas
  normalize_marcas-canonical t =
      let kept = filter (λ c. not (is_separator c)) t in
      (to_upper-is_clean kept (filter-is_clean t), to_upper-stable kept)

  canonical-fixed :
      (n : Text) → is_clean n ≡ true → to_upper other n ≡ n → normalize_marcas other n ≡ n
  unfolding normalize_marcas
  canonical-fixed n clean upper = rw (filter-all (λ c. not (is_separator c)) n clean) upper

  -- Idempotent.
  normalize_marcas-normalize_marcas :
      (t : Text) → normalize_marcas other (normalize_marcas other t) ≡ normalize_marcas other t
  normalize_marcas-normalize_marcas t =
      let (clean, upper) = normalize_marcas-canonical t in
      canonical-fixed (normalize_marcas other t) clean upper
