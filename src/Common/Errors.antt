-- ===== src/Common/Errors.antt =====
-- src/common/exceptions, src/common/utils/resource-not-found.util.ts and
-- src/common/enums/error-code.enum.ts. The message of an exception is a function of its code and of
-- the template parameters, which are kept.
use Prim.Native.String.{String}
use mathlib.Core.Path.{◌≡◌, refl}
use mathlib.Core.Logic.{◌⊎◌, inl, inr}
use mathlib.Core.Bool.{Bool, true, false}
use mathlib.Core.List.{List, [], ◌∷◌}
use mathlib.Core.Option.{Option, none, some}

pub data ErrorCode : Type 0 where
  internal_error validation_failed resource_not_found unauthorized forbidden : ErrorCode
  conflict external_service_failed database_error email_send_failed encryption_key_invalid :
      ErrorCode
  invalid_token token_expired token_already_used : ErrorCode
  user_not_found email_already_registered invalid_credentials account_not_verified
        account_not_activated :
      ErrorCode
  account_deleted : ErrorCode
  refresh_token_invalid refresh_token_expired refresh_token_revoked refresh_token_reuse_detected :
      ErrorCode
  invite_token_invalid invite_token_expired invite_already_accepted : ErrorCode
  password_reset_token_invalid weak_password ownership_violation role_change_forbidden : ErrorCode
  storage_upload_failed storage_delete_failed storage_get_presigned_url_failed : ErrorCode
  storage_download_failed feedback_daily_limit_reached geojson_not_ready geojson_read_failed :
      ErrorCode

-- The values of `HttpStatus` that occur.
pub data HttpStatus : Type 0 where
  bad_request unauthorized forbidden not_found conflict unprocessable_entity : HttpStatus
  too_many_requests internal_server_error bad_gateway : HttpStatus

pub record HttpError : Type 0 where
  pub status : HttpStatus
  pub code : ErrorCode
  pub params : List (String × String)

abbrev pub http_error : HttpStatus → ErrorCode → List (String × String) → HttpError
http_error s c ps = record { status = s; code = c; params = ps }

abbrev pub resource_not_found_error : String → String → HttpError
resource_not_found_error resource id =
    http_error HttpStatus.not_found ErrorCode.resource_not_found
      (("RESOURCE", resource) ∷ ("ID", id) ∷ [])

-- What a handler gives: a value, or the exception that it throws.
pub data Result {ℓ} (A : Type ℓ) : Type ℓ where
  ok : A → Result A
  err : HttpError → Result A

abbrev pub is_ok {ℓ} : {A : Type ℓ} → Result A → Bool
is_ok (ok a) = true
is_ok (err e) = false

pub Result-cases {ℓ} :
    {A : Type ℓ} (r : Result A) → ((a : A) × (r ≡ ok a)) ⊎ ((e : HttpError) × (r ≡ err e))
Result-cases (ok a) = inl (a, refl)
Result-cases (err e) = inr (e, refl)

pub ok-eq {ℓ} : {A : Type ℓ} {a b : A} → ok a ≡ ok b → a ≡ b
ok-eq e = cc e

pub err-eq {ℓ} : {A : Type ℓ} {d e : HttpError} → ◌≡◌ {A = Result A} (err d) (err e) → d ≡ e
err-eq h = cc h

-- The checks of a service: a condition, and a row that has to be there.
abbrev pub ensure : Bool → HttpError → Result (Unit {0})
ensure true e = ok tt
ensure false e = err e

abbrev pub present : {A : Type 0} → Option A → HttpError → Result A
present none e = err e
present (some row) e = ok row

-- What comes after a check runs only if it passes.
infixl 5 ◌>>=◌ ◌>>◌
abbrev pub ◌>>=◌ : {A B : Type 0} → Result A → (A → Result B) → Result B
err e >>= next = err e
ok value >>= next = next value

abbrev pub ◌>>◌ : {B : Type 0} → Result (Unit {0}) → Result B → Result B
check >> next = check >>= λ passed. next

pub ensure-eq-ok : (b : Bool) (e : HttpError) {u : Unit {0}} → ensure b e ≡ ok u → b ≡ true
ensure-eq-ok true e h = refl
ensure-eq-ok false e h = absurd (cc h)

pub present-eq-ok :
    {A : Type 0} (o : Option A) (e : HttpError) {row : A} → present o e ≡ ok row → o ≡ some row
present-eq-ok none e h = absurd (cc h)
present-eq-ok (some row) e h = cc h

-- Checks that pass: the first one does, and so do those after it.
pub >>=-eq-ok :
    {A B : Type 0} {answer : B} (check : Result A) (next : A → Result B)
    → (check >>= next) ≡ ok answer
    → (value : A) × (check ≡ ok value) × (next value ≡ ok answer)
>>=-eq-ok (err e) next h = absurd (cc h)
>>=-eq-ok (ok value) next h = (value, refl, h)
