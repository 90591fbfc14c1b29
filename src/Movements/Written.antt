-- ===== src/Movements/Written.antt =====
-- What a new row of a movement says, apart from the code that writes it.
use aerobi_api.Common.{◌≡◌, ◌≢◌, refl, List, Option, none, some, ℕ, or_default, if◌then◌else◌}
use aerobi_api.Common.Text.{Text}
use aerobi_api.Movements.{
  Ops, Movement, MovementType, ConformityStatus, resolve_initial_conformity_status,
  is_conformity_applicable, is_landing,
}
use aerobi_api.Movements.Store.{find_last_by_registration_within_48h, is_within_48h}
use aerobi_api.Movements.Toggle.{Newest, find_last-Newest}
use aerobi_api.Movements.Create.{toggled}

-- The other operation than the last one; a landing if there is none.
abbrev pub Alternates : Option Movement → MovementType → Type 0
Alternates none o = o ≡ MovementType.landing
Alternates (some last) o = o ≢ last.operation_type

-- The operation is the one that is given, or the other than that of the newest movement of the
-- registration within the window.
abbrev pub IsDue :
    Option MovementType → Text → Option Text → ℕ → List Movement → MovementType → Type 0
IsDue (some given) registration aerodrome time ms o = o ≡ given
IsDue none registration aerodrome time ms o =
    (last : Option Movement) × Newest (is_within_48h registration aerodrome time) ms last
    × Alternates last o

toggled-Alternates : (last : Option Movement) → Alternates last (toggled last)
toggled-Alternates none = refl
toggled-Alternates (some last) = differs last.operation_type
  where
    differs :
        (o : MovementType)
        → (if is_landing o then MovementType.takeoff else MovementType.landing) ≢ o
    differs MovementType.landing = λ e. cc e
    differs MovementType.takeoff = λ e. cc e

pub due-lem :
    (given : Option MovementType) (registration : Text) (aerodrome : Option Text) (time : ℕ)
    (s : Ops)
    → IsDue given registration aerodrome time s.movements (
        or_default given
          (toggled (find_last_by_registration_within_48h s registration aerodrome time)))
due-lem (some given) registration aerodrome time s = refl
due-lem none registration aerodrome time s = (
  find_last_by_registration_within_48h s registration aerodrome time,
  find_last-Newest s registration aerodrome time,
  toggled-Alternates (find_last_by_registration_within_48h s registration aerodrome time),
)

-- A landing at a known aerodrome waits for its evaluation, nothing else does.
abbrev pub IsInitial : MovementType → Option Text → ConformityStatus → Type 0
IsInitial MovementType.landing (some aerodrome) status = status ≡ ConformityStatus.pending
IsInitial _ _ status = status ≡ ConformityStatus.not_applicable

pub first_status-lem :
    (o : MovementType) (aerodrome : Option Text)
    → IsInitial o aerodrome (resolve_initial_conformity_status o aerodrome)
unfolding resolve_initial_conformity_status is_conformity_applicable
first_status-lem MovementType.landing none = refl
first_status-lem MovementType.landing (some a) = refl
first_status-lem MovementType.takeoff a = refl
