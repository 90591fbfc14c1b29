-- ===== src/Notifications/Recipients.antt =====
-- Who is written to: each recipient once, each delivery counted, and what becomes of a telephone.
use aerobi_api.Common.{
  ◌≡◌, refl, ap, ◌∙◌, inl, inr, Bool, true, not, ◌&&◌, List, [], ◌∷◌, ◌++◌, map, some, none, ℕ, suc,
  ◌+◌, leb, arith, any, all, filter, count, length, if◌then◌else◌, Bool-cases,
}
use aerobi_api.Common.Text.{Text, codes, trim, is_digit, same_text, same_text_iff}
use aerobi_api.Registrations.{is_blank}
use aerobi_api.Validators.{is_e164}
use aerobi_api.Notifications.{
  Notification, Client, DispatchItem, is_sent, send_one, fresh_recipients, dedupe, dispatch,
  default_country_code, sanitize_phone, to_whatsapp_number,
}

-- The test that a text is that of a recipient, when the blanks around it are gone.
abbrev pub names : Text → Text → Bool
names v raw = same_text v (trim raw)

abbrev wanted : Text → List Text → List Text → ℕ
wanted v seen rs =
    if any (names v) rs && not (is_blank v) && not (any (same_text v) seen) then 1 else 0

fresh_lem :
    (v : Text) (seen rs : List Text)
    → count (same_text v) (fresh_recipients seen rs) ≡ wanted v seen rs
fresh_lem v seen [] = refl
fresh_lem v seen (r ∷ rs) = elim (Bool-cases (same_text v (trim r))) [
  | inl same ↦
      let h = (same_text_iff v (trim r)).0 same in
      ground (
        arith,
        same,
        ap is_blank h,
        ap (λ x. any (same_text x) seen) h,
        fresh_lem v seen rs,
        fresh_lem v (trim r ∷ seen) rs,
      )
  | inr other ↦ ground (arith, other, fresh_lem v seen rs, fresh_lem v (trim r ∷ seen) rs)
]

count-not :
    (xs : List DispatchItem) → count is_sent xs + count (λ i. not (is_sent i)) xs ≡ length xs
count-not [] = refl
count-not (x ∷ xs) = ground (arith, count-not xs)

length-map : (f : Text → DispatchItem) (xs : List Text) → length (map f xs) ≡ length xs
length-map f [] = refl
length-map f (x ∷ xs) = ap suc (length-map f xs)

-- A text that some recipient is, when the blanks around it are gone, is written to exactly once if
-- it is not empty, and any other text never; and the deliveries and the failures together are as
-- many as the texts that are written to.
pub dispatch-once :
    (client : Client) (rs : List Text) (message : Notification) (v : Text)
    → (count (same_text v) (dedupe rs) ≡ (if any (names v) rs && not (is_blank v) then 1 else 0))
      × ((dispatch client rs message).sent_count + (dispatch client rs message).failed_count
          ≡ length (dedupe rs))
unfolding dispatch dedupe
dispatch-once client rs message v = (
  ground (arith, fresh_lem v [] rs),
  count-not _ ∙ length-map (send_one client message) (dedupe rs),
)

filter-digits : (t : Text) → all is_digit t ≡ true → filter is_digit t ≡ t
filter-digits [] h = refl
filter-digits (c ∷ t) h = elim (Bool-cases (is_digit c)) [
  | inl hit ↦ ground (arith, hit, filter-digits t (ground (arith, h, hit)))
  | inr miss ↦ absurd (ground (arith, h, miss))
]

-- The digits of a telephone in E.164, which names its country itself, are prefixed with the code of
-- Brazil if there are ten or eleven of them; they stay as they are if there are twelve or more, and
-- the telephone is dropped if there are fewer than ten.
pub to_whatsapp_number-e164 :
    (t : Text)
    → is_e164 (b'+' ∷ t) ≡ true
    → to_whatsapp_number default_country_code (some (b'+' ∷ t)) ≡ (
        if leb (length t) 9
        then none
        else if leb (length t) 11
        then some (codes "55" ++ t)
        else some t)
unfolding to_whatsapp_number sanitize_phone is_e164 is_digit
to_whatsapp_number-e164 [] h = absurd (ground (arith, h))
to_whatsapp_number-e164 (d ∷ t) h =
    let digits : filter is_digit (d ∷ t) ≡ d ∷ t = filter-digits (d ∷ t) (ground (arith, h)) in
    rw digits ground (arith, h)
