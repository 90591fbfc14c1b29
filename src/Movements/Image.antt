-- ===== src/Movements/Image.antt =====
-- The image of a movement: its checks, its way to the storage and its removal.
use aerobi_api.Common.{
  ◌≡◌, ◌⊎◌, refl, Bool, true, false, not, List, [], ◌∷◌, Option, none, some, String, eq_refl, any,
  filter, inl, inr, Bool-cases, arith,
}
use aerobi_api.Common.Errors.{HttpError, ok, err}
use aerobi_api.Common.Effects.{require}
use aerobi_api.Movements.{Ops, ImageKey}
use aerobi_api.Movements.Create.{
  CreateWorld, delete_image, upload, assert_image_mimetype, is_allowed_image_mimetype,
  invalid_image, same_key, upload_failed,
}

module _ (w : CreateWorld) where
  abbrev pub image_key : Option String → Option ImageKey
  image_key none = none
  image_key (some mimetype) =
      some (record { movement_id = w.movement_id; uuid = w.image_uuid; mimetype = mimetype })

abbrev pub is_stored : Ops → Option ImageKey → Bool
is_stored s none = false
is_stored s (some key) = any (λ k. same_key k key) s.objects

abbrev pub with_object : Option ImageKey → List ImageKey → List ImageKey
with_object none ks = ks
with_object (some key) ks = key ∷ ks

filter-fresh :
    (key : ImageKey) (ks : List ImageKey)
    → any (λ k. same_key k key) ks ≡ false
    → filter (λ k. not (same_key k key)) ks ≡ ks
filter-fresh key [] h = refl
filter-fresh key (k ∷ ks) h = ground (arith, filter-fresh key ks)

same_key_refl : (k : ImageKey) → same_key k k ≡ true
same_key_refl k = ground (arith, eq_refl k.movement_id, eq_refl k.uuid, eq_refl k.mimetype)

require-lem :
    (b : Bool) (e : HttpError) (s : Ops)
    → (require b e s ≡ (ok tt, s)) ⊎ (require b e s ≡ (err e, s))
require-lem true e s = inl refl
require-lem false e s = inr refl

pub image-lem :
    (image : Option String) (s : Ops)
    → (assert_image_mimetype image s ≡ (ok tt, s))
      ⊎ (assert_image_mimetype image s ≡ (err invalid_image, s))
unfolding is_allowed_image_mimetype
image-lem none s = inl refl
image-lem (some mimetype) s = require-lem (is_allowed_image_mimetype mimetype) invalid_image s

pub upload-lem :
    (w : CreateWorld) (image : Option String) (s : Ops)
    → (upload w image s ≡ (
      ok (image_key w image),
      record s { objects = with_object (image_key w image) s.objects },
    ))
      ⊎ (upload w image s ≡ (err upload_failed, s))
upload-lem w none s = inl refl
upload-lem w (some mimetype) s = elim (Bool-cases w.upload_fails) [
  | inl fails ↦ inr (rw fails refl)
  | inr works ↦ inl (rw works refl)
]

pub delete-lem :
    (key : Option ImageKey) (s : Ops)
    → is_stored s key ≡ false
    → delete_image false key (record s { objects = with_object key s.objects }) ≡ s
delete-lem none s fresh = refl
delete-lem (some key) s fresh =
    rw (same_key_refl key) (λ i. record s { objects = filter-fresh key s.objects fresh i })
