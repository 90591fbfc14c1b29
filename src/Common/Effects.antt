-- ===== src/Common/Effects.antt =====
-- Services that read and write the database and may throw: what was written before the exception
-- stays written.
use mathlib.Core.Path.{◌≡◌, refl, ap, sym}
use mathlib.Core.Bool.{Bool, true, false}
use mathlib.Core.Option.{Option, none, some}
use mathlib.Core.Logic.{◌⊎◌, inl, inr}
use aerobi_api.Common.Errors.{HttpError, Result, ok, err, err-eq}

abbrev pub M {ℓ κ} : Type ℓ → Type κ → Type (ℓ ⊔ κ)
M S A = S → Result A × S

abbrev pub resume {ℓ κ λ'} :
    {S : Type ℓ} {A : Type κ} {B : Type λ'} → Result A × S → (A → M S B) → Result B × S
resume (ok a, s) f = f a s
resume (err e, s) f = (err e, s)

infixl 5 ◌>>=◌ ◌>>◌
abbrev pub ◌>>=◌ {ℓ κ λ'} : {S : Type ℓ} {A : Type κ} {B : Type λ'} → M S A → (A → M S B) → M S B
◌>>=◌ m f s = resume (m s) f

abbrev pub ◌>>◌ {ℓ κ} : {S : Type ℓ} {B : Type κ} → M S (Unit {0}) → M S B → M S B
m >> k = m >>= λ _. k

abbrev pub pure {ℓ κ} : {S : Type ℓ} {A : Type κ} → A → M S A
pure a s = (ok a, s)

abbrev pub throw {ℓ κ} : {S : Type ℓ} {A : Type κ} → HttpError → M S A
throw e s = (err e, s)

abbrev pub gets {ℓ κ} : {S : Type ℓ} {A : Type κ} → (S → A) → M S A
gets f s = (ok (f s), s)

abbrev pub modify {ℓ} : {S : Type ℓ} → (S → S) → M S (Unit {0})
modify f s = (ok tt, f s)

-- A step that only checks: it writes nothing.
abbrev pub lift {ℓ κ} : {S : Type ℓ} {A : Type κ} → Result A → M S A
lift r s = (r, s)

abbrev pub require : {S : Type 0} → Bool → HttpError → M S (Unit {0})
require true e s = (ok tt, s)
require false e s = (err e, s)

abbrev pub or_throw {ℓ} : {S : Type 0} {A : Type ℓ} → Option A → HttpError → M S A
or_throw none e s = (err e, s)
or_throw (some a) e s = (ok a, s)

pub resume-eq-ok {ℓ κ λ'} :
    {S : Type ℓ} {A : Type κ} {B : Type λ'} (r : Result A × S) (f : A → M S B) {b : B} {s' : S}
    → resume r f ≡ (ok b, s')
    → (a : A) × (t : S) × (r ≡ (ok a, t)) × (f a t ≡ (ok b, s'))
resume-eq-ok (ok a, t) f h = (a, t, refl, h)
resume-eq-ok (err x, t) f h = absurd (cc (ap (λ p. p.0) h))

-- A service that succeeds: each of its two parts does.
pub >>=-eq-ok {ℓ κ λ'} :
    {S : Type ℓ} {A : Type κ} {B : Type λ'} (m : M S A) (f : A → M S B) (s : S) {b : B} {s' : S}
    → (m >>= f) s ≡ (ok b, s')
    → (a : A) × (t : S) × (m s ≡ (ok a, t)) × (f a t ≡ (ok b, s'))
>>=-eq-ok m f s h = resume-eq-ok (m s) f h

pub lift-eq-ok {ℓ κ} :
    {S : Type ℓ} {A : Type κ} (r : Result A) (s : S) {a : A} {t : S}
    → lift r s ≡ (ok a, t)
    → (r ≡ ok a) × (t ≡ s)
lift-eq-ok r s h = (ap (λ p. p.0) h, sym (ap (λ p. p.1) h))

pub or_throw-eq-ok {ℓ} :
    {S : Type 0} {A : Type ℓ} (o : Option A) (e : HttpError) (s : S) {a : A} {t : S}
    → or_throw o e s ≡ (ok a, t)
    → (o ≡ some a) × (t ≡ s)
or_throw-eq-ok none e s h = absurd (cc (ap (λ p. p.0) h))
or_throw-eq-ok (some a) e s h = (cc (ap (λ p. p.0) h), sym (ap (λ p. p.1) h))

pub resume-eq-err {ℓ κ λ'} :
    {S : Type ℓ} {A : Type κ} {B : Type λ'} (r : Result A × S) (f : A → M S B) {e : HttpError}
    {s' : S}
    → resume r f ≡ (err e, s')
    → (r ≡ (err e, s')) ⊎ ((a : A) × (t : S) × (r ≡ (ok a, t)) × (f a t ≡ (err e, s')))
resume-eq-err (ok a, t) f h = inr (a, t, refl, h)
resume-eq-err (err x, t) f {e} {s'} h =
    let same : x ≡ e = err-eq (ap (λ p. p.0) h) in inl (λ i. (err (same i), ap (λ p. p.1) h i))

-- A service that throws: its first part does, or its second.
pub >>=-eq-err {ℓ κ λ'} :
    {S : Type ℓ} {A : Type κ} {B : Type λ'} (m : M S A) (f : A → M S B) (s : S) {e : HttpError}
    {s' : S}
    → (m >>= f) s ≡ (err e, s')
    → (m s ≡ (err e, s')) ⊎ ((a : A) × (t : S) × (m s ≡ (ok a, t)) × (f a t ≡ (err e, s')))
>>=-eq-err m f s h = resume-eq-err (m s) f h
