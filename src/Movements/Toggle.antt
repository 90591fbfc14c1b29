-- ===== src/Movements/Toggle.antt =====
-- The movement that the toggle of landing and take-off goes by.
use aerobi_api.Common.{
  ◌≡◌, refl, sym, ◌∙◌, Bool, true, false, List, [], ◌∷◌, Option, none, some, ℕ, ◌≤◌, filter, All,
  In, ltb, inl, inr, Bool-cases, arith,
}
use aerobi_api.Common.Text.{Text}
use aerobi_api.Movements.{Ops, Movement}
use aerobi_api.Movements.Store.{find_last_by_registration_within_48h, is_within_48h, later, newest}

-- The last movement within the window: none of the rows qualifies, or it does, and no later one.
module _ (p : Movement → Bool) where
  abbrev pub Newest : List Movement → Option Movement → Type 0
  Newest ms none = All (λ m. p m ≡ false) ms
  Newest ms (some n) =
      ((p n ≡ true) × In n ms) × All (λ m. p m ≡ true → m.reading_datetime ≤ n.reading_datetime) ms

  extend-Newest :
      (m : Movement) (ms : List Movement) (o : Option Movement)
      → p m ≡ true
      → Newest ms o
      → Newest (m ∷ ms) (later m o)
  extend-Newest m ms none h a = ((h, inl refl), ((λ _. omega arith), below ms a))
    where
      below :
          (ms : List Movement)
          → All (λ q. p q ≡ false) ms
          → All (λ q. p q ≡ true → q.reading_datetime ≤ m.reading_datetime) ms
      below [] a = tt
      below (q ∷ qs) (h, a) = (λ k. absurd (cc (sym h ∙ k)), below qs a)
  extend-Newest m ms (some n) h ((k, i), a) =
      elim (Bool-cases (ltb m.reading_datetime n.reading_datetime)) [
        | inl earlier ↦ rw earlier ((k, inr i), ((λ _. ground arith), a))
        | inr after ↦ rw after ((h, inl refl), ((λ _. omega arith), lower ms a (ground arith)))
      ]
    where
      lower :
          (ms : List Movement)
          → All (λ q. p q ≡ true → q.reading_datetime ≤ n.reading_datetime) ms
          → n.reading_datetime ≤ m.reading_datetime
          → All (λ q. p q ≡ true → q.reading_datetime ≤ m.reading_datetime) ms
      lower [] a le = tt
      lower (q ∷ qs) (f, a) le = (λ k. omega (arith, f k), lower qs a le)

  skip-Newest :
      (m : Movement) (ms : List Movement) (o : Option Movement)
      → p m ≡ false
      → Newest ms o
      → Newest (m ∷ ms) o
  skip-Newest m ms none miss a = (miss, a)
  skip-Newest m ms (some n) miss ((k, i), a) = ((k, inr i), ((λ h. absurd (cc (sym miss ∙ h))), a))

  newest-Newest : (ms : List Movement) → Newest ms (newest (filter p ms))
  newest-Newest [] = tt
  newest-Newest (m ∷ ms) = elim (Bool-cases (p m)) [
    | inl hit ↦ rw hit (extend-Newest m ms (newest (filter p ms)) hit (newest-Newest ms))
    | inr miss ↦ rw miss (skip-Newest m ms (newest (filter p ms)) miss (newest-Newest ms))
  ]

-- The movement that the toggle goes by is an active one of the registration, read in the 48 hours
-- before, at the aerodrome if that is known, and no other such movement was read later; there is
-- none only if no movement is such.
pub find_last-Newest :
    (s : Ops) (registration : Text) (aerodrome : Option Text) (reference : ℕ)
    → Newest
        (is_within_48h registration aerodrome reference)
        s.movements
        (find_last_by_registration_within_48h s registration aerodrome reference)
unfolding find_last_by_registration_within_48h
find_last-Newest s registration aerodrome reference =
    newest-Newest (is_within_48h registration aerodrome reference) s.movements
