-- ===== src/Registrations/Stable.antt =====
-- An accepted registration, submitted again.
use aerobi_api.Common.{
  ◌≡◌, refl, sym, subst, Bool, true, false, not, ◌&&◌, ◌||◌, [], ◌∷◌, ℕ, ◌≤◌, ◌<◌, ◌==◌, leb, all,
  filter, arith, inl, inr, Bool-cases, ==_iff,
}
use aerobi_api.Common.Text.{
  Text, to_upper, trim, trim-id, has_no_space, is_space, is_upper, is_digit, is_lower,
}
use aerobi_api.Registrations.{
  hyphen, is_alphanumeric, is_mark, is_brazilian, is_non_p_national, starts_without_p,
  is_non_p_start, format_national, normalized, resolve_national, resolve_aircraft_registration,
  normalize_aircraft_registration,
}
use aerobi_api.Registrations.Accepted.{
  IsNational, resolve_national-eq, resolve_aircraft_registration-IsNational,
}

-- The characters of an accepted registration: `trim` and `toUpperCase` leave them as they are.
abbrev is_plain : ℕ → Bool
is_plain c = is_alphanumeric c || c == hyphen

plain_bounds : (c : ℕ) → is_plain c ≡ true → (33 ≤ c) × (c ≤ 90)
unfolding is_upper is_digit
plain_bounds c h = ground arith

printable : (c : ℕ) → 33 ≤ c → c ≤ 90 → is_space c ≡ false
unfolding is_space
printable c low high =
    let tab : (leb 9 c && leb c 13) ≡ false = ground arith in
    let blank : (c == 32) ≡ false = ground arith in
    let below : (a : ℕ) → 90 < a → (c == a) ≡ false = λ a h. ground arith in
    let quad : (leb 0x2000 c && leb c 0x200A) ≡ false = ground arith in
    rw
      (
        tab,
        blank,
        below 0xA0 (omega arith),
        below 0x1680 (omega arith),
        quad,
        below 0x2028 (omega arith),
        below 0x2029 (omega arith),
        below 0x202F (omega arith),
        below 0x205F (omega arith),
        below 0x3000 (omega arith),
        below 0xFEFF (omega arith),
      )
      refl

plain-has_no_space : (t : Text) → all is_plain t ≡ true → has_no_space t ≡ true
plain-has_no_space [] h = refl
plain-has_no_space (c ∷ t) h = elim (Bool-cases (is_plain c)) [
  | inl p ↦
      let (low, high) = plain_bounds c p in
      rw (printable c low high) (plain-has_no_space t (rw p at h))
  | inr q ↦ absurd (cc (rw q at h))
]

plain-upper : (other : ℕ → Text) (t : Text) → all is_plain t ≡ true → to_upper other t ≡ t
unfolding to_upper is_lower
plain-upper other [] h = refl
plain-upper other (c ∷ t) h = elim (Bool-cases (is_plain c)) [
  | inl p ↦
      let (low, high) = plain_bounds c p in
      let ascii : leb c 127 ≡ true = ground arith in
      let capital : (leb b'a' c && leb c b'z') ≡ false = ground arith in
      rw (ascii, capital, plain-upper other t (rw p at h)) refl
  | inr q ↦ absurd (cc (rw q at h))
]

pub plain-fixed :
    (other : ℕ → Text) (t : Text) → all is_plain t ≡ true → to_upper other (trim t) ≡ t
plain-fixed other t h = rw (trim-id t (plain-has_no_space t h)) (plain-upper other t h)

and_true : (p q : Bool) → (p && q) ≡ true → (p ≡ true) × (q ≡ true)
and_true p q h = ground arith

mark-is_upper : (a b : ℕ) → is_mark (a ∷ b ∷ []) ≡ true → (is_upper a ≡ true) × (is_upper b ≡ true)
unfolding is_upper
mark-is_upper a b h = ground arith

upper-is_plain : (c : ℕ) → is_upper c ≡ true → is_plain c ≡ true
upper-is_plain c h = rw h refl

-- Reformatting an accepted registration gives it again.
abbrev Stable : Text → Type 0
Stable n = (all is_plain n ≡ true) × (format_national (filter is_alphanumeric n) ≡ n)

hyphen-is_alphanumeric : is_alphanumeric hyphen ≡ false
unfolding is_upper is_digit
hyphen-is_alphanumeric = refl

hyphen-is_plain : is_plain hyphen ≡ true
unfolding is_upper is_digit
hyphen-is_plain = refl

start-is_alphanumeric : (c : ℕ) → is_non_p_start c ≡ true → is_alphanumeric c ≡ true
unfolding is_upper
start-is_alphanumeric c h = ground arith

no_mark : (a b : ℕ) → not (a == b'P') ≡ true → is_mark (a ∷ b ∷ []) ≡ false
no_mark a b h = ground arith

hyphened :
    (a b x y z : ℕ)
    → is_mark (a ∷ b ∷ []) ≡ true
    → is_upper a ≡ true
    → is_upper b ≡ true
    → is_upper x ≡ true
    → is_upper y ≡ true
    → is_upper z ≡ true
    → Stable (a ∷ b ∷ hyphen ∷ x ∷ y ∷ z ∷ [])
unfolding format_national
hyphened a b x y z mark up_a up_b up_x up_y up_z =
    rw (up_a, up_b, hyphen-is_plain, hyphen-is_alphanumeric, up_x, up_y, up_z) (refl, rw mark refl)

is_brazilian-Stable : (n : Text) → is_brazilian n ≡ true → Stable n
unfolding is_brazilian
is_brazilian-Stable (a ∷ b ∷ h ∷ x ∷ y ∷ z ∷ []) e =
    let (mark, e₁) = and_true _ _ e in
    let (dash, e₂) = and_true _ _ e₁ in
    let (up_x, e₃) = and_true _ _ e₂ in
    let (up_y, up_z) = and_true _ _ e₃ in
    let (up_a, up_b) = mark-is_upper a b mark in
    let same : h ≡ hyphen = (==_iff h hyphen).0 dash in
    subst (λ d. Stable (a ∷ b ∷ d ∷ x ∷ y ∷ z ∷ [])) (sym same)
      (hyphened a b x y z mark up_a up_b up_x up_y up_z)
is_brazilian-Stable _ e = absurd (cc e)

six :
    (a b c d e f : ℕ)
    → starts_without_p (a ∷ b ∷ c ∷ d ∷ e ∷ f ∷ []) ≡ true
    → is_alphanumeric a ≡ true
    → is_alphanumeric b ≡ true
    → is_alphanumeric c ≡ true
    → is_alphanumeric d ≡ true
    → is_alphanumeric e ≡ true
    → is_alphanumeric f ≡ true
    → Stable (a ∷ b ∷ c ∷ d ∷ e ∷ f ∷ [])
unfolding format_national
six a b c d e f k al_a al_b al_c al_d al_e al_f =
    rw (al_a, al_b, al_c, al_d, al_e, al_f) (refl, rw (no_mark a b k) refl)

is_non_p_national-Stable :
    (n : Text) → is_non_p_national n ≡ true → starts_without_p n ≡ true → Stable n
unfolding is_non_p_national
is_non_p_national-Stable (a ∷ b ∷ c ∷ d ∷ e ∷ f ∷ []) h k =
    let (al_a, h₁) = and_true _ _ h in
    let (al_b, h₂) = and_true _ _ h₁ in
    let (al_c, h₃) = and_true _ _ h₂ in
    let (al_d, h₄) = and_true _ _ h₃ in
    let (al_e, al_f) = and_true _ _ h₄ in
    six a b c d e f k (start-is_alphanumeric a al_a) al_b al_c al_d al_e al_f
is_non_p_national-Stable _ h k = absurd (cc h)

IsNational-Stable : (n : Text) → IsNational n → Stable n
IsNational-Stable n (inl h) = is_brazilian-Stable n h
IsNational-Stable n (inr (h, k)) = is_non_p_national-Stable n h k

module _ (other : ℕ → Text) where
  -- A national registration that was accepted is accepted again when it is submitted as it was
  -- stored, and unchanged.
  resolve-resolve :
      (raw : Text) {n : Text}
      → resolve_aircraft_registration other raw false ≡ normalized n
      → resolve_aircraft_registration other n false ≡ normalized n
  unfolding resolve_aircraft_registration normalize_aircraft_registration
  resolve-resolve raw {n} e =
      let (plain, again) =
        IsNational-Stable n (resolve_aircraft_registration-IsNational other raw e) in
      rw (plain-fixed other n plain, again)
        (subst (λ m. resolve_national m ≡ normalized n)
          (resolve_national-eq (normalize_aircraft_registration other raw) e) e)
