-- ===== src/Common/Keeps.antt =====
-- Services that keep an invariant of the state, whether they succeed or throw.
use mathlib.Core.Bool.{Bool, true, false}
use mathlib.Core.Option.{Option, none, some}
use aerobi_api.Common.Errors.{Result, ok, err, HttpError}
use aerobi_api.Common.Effects.{M, ◌>>=◌, ◌>>◌, pure, throw, gets, lift, require, or_throw, resume}

pub data Keeps {S A : Type 0} (I : S → Type 0) (m : M S A) : Type 0 where
  keeps : ((s : S) → I s → I (m s).1) → Keeps I m

module _ {S : Type 0} {I : S → Type 0} where
  pub Keeps-run : {A : Type 0} {m : M S A} → Keeps I m → (s : S) → I s → I (m s).1
  Keeps-run (keeps k) = k

  resume-keeps :
      {A B : Type 0} (r : Result A × S) (f : A → M S B)
      → I r.1
      → ((a : A) → Keeps I (f a))
      → I (resume r f).1
  resume-keeps (ok a, t) f w k = Keeps-run (k a) t w
  resume-keeps (err e, t) f w k = w

  pub Keeps-bind :
      {A B : Type 0} {m : M S A} {f : A → M S B}
      → Keeps I m
      → ((a : A) → Keeps I (f a))
      → Keeps I (m >>= f)
  Keeps-bind {m = m} {f = f} (keeps k) l = keeps λ s w. resume-keeps (m s) f (k s w) l

  pub Keeps-then :
      {B : Type 0} {m : M S (Unit {0})} {n : M S B} → Keeps I m → Keeps I n → Keeps I (m >> n)
  Keeps-then {m = m} {n = n} (keeps k) l = keeps λ s w. resume-keeps (m s) (λ _. n) (k s w) (λ _. l)

  pub Keeps-pure : {A : Type 0} {a : A} → Keeps I (pure a)
  Keeps-pure = keeps λ s w. w

  pub Keeps-throw : {A : Type 0} {e : HttpError} → Keeps I (throw {A = A} e)
  Keeps-throw = keeps λ s w. w

  pub Keeps-gets : {A : Type 0} {f : S → A} → Keeps I (gets f)
  Keeps-gets = keeps λ s w. w

  pub Keeps-lift : {A : Type 0} {r : Result A} → Keeps I (lift r)
  Keeps-lift = keeps λ s w. w

  pub Keeps-require : (b : Bool) (e : HttpError) → Keeps I (require b e)
  Keeps-require true e = keeps λ s w. w
  Keeps-require false e = keeps λ s w. w

  pub Keeps-or_throw : {A : Type 0} (o : Option A) (e : HttpError) → Keeps I (or_throw o e)
  Keeps-or_throw none e = keeps λ s w. w
  Keeps-or_throw (some a) e = keeps λ s w. w

pub ruleset keeps_rules = (
  Keeps-bind, Keeps-then, Keeps-pure, Keeps-throw, Keeps-gets, Keeps-lift, Keeps-require,
  Keeps-or_throw,
)
