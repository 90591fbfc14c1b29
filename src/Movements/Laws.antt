-- ===== src/Movements/Laws.antt =====
-- The creation of a movement.
use aerobi_api.Common.{
  ◌≡◌, ◌⊎◌, refl, Bool, false, [], ◌∷◌, ◌++◌, Option, none, some, String, str_eq, ℕ, any,
  or_default, inl, inr, Bool-cases, Option-cases,
}
use aerobi_api.Common.Text.{Text}
use aerobi_api.Common.Errors.{Result, ok, err}
use aerobi_api.Common.Effects.{M, ◌>>=◌, ◌>>◌, pure, modify}
use aerobi_api.Accounts.{database_error}
use aerobi_api.Registrations.{normalize_marcas}
use aerobi_api.Movements.{
  Ops, Movement, MovementType, MovementCreatedEvent, ImageKey, Phase,
  build_aircraft_snapshot_create_input,
}
use aerobi_api.Movements.Store.{create, find_latest_by_marcas, find_last_by_registration_within_48h}
use aerobi_api.Movements.Image.{
  image_key, is_stored, with_object, image-lem, upload-lem, delete-lem,
}
use aerobi_api.Movements.Written.{IsDue, IsInitial, due-lem, first_status-lem}
use aerobi_api.Movements.Create.{
  CreateWorld, MovementCreateData, MovementOrigin, CreateMovementResponse, execute, persist,
  build_movement_create_input, resolve_operation_type, emit, canonical, toggled, created_event,
  signed,
}

module _ (other : ℕ → Text) (w : CreateWorld) (dto : MovementCreateData) (origin : MovementOrigin)
    (image : Option String) where
  -- The operation that the origin brings, or else the other one than the last.
  abbrev pub operation : Ops → MovementType
  unfolding find_last_by_registration_within_48h normalize_marcas
  operation s = or_default origin.operation_type (
      toggled (
        find_last_by_registration_within_48h s (normalize_marcas other dto.registration)
          dto.aerodrome dto.reading_datetime))

  abbrev pub resolved : Ops → MovementOrigin
  resolved s = record origin { operation_type = some (operation s) }

  abbrev pub new_movement : Ops → Movement
  unfolding build_movement_create_input canonical find_latest_by_marcas
      build_aircraft_snapshot_create_input normalize_marcas
  new_movement s =
      build_movement_create_input w.movement_id (canonical other dto) (image_key w image)
        (resolved s)
        (build_aircraft_snapshot_create_input
          (find_latest_by_marcas other s (normalize_marcas other dto.registration)))

  -- The row says what the reading says, with the canonical registration.
  abbrev pub IsReading : Ops → Movement → Type 0
  IsReading s m =
      (m.id ≡ w.movement_id)
      × (m.registration ≡ normalize_marcas other dto.registration)
      × (m.aerodrome ≡ dto.aerodrome)
      × (m.reading_datetime ≡ dto.reading_datetime)
      × (m.confidence ≡ dto.confidence)
      × (m.comments ≡ dto.comments)
      × (m.source ≡ origin.source)
      × (m.created_by ≡ origin.created_by)
      × (m.image_key ≡ image_key w image)
      × (m.deleted_at ≡ none)
      × IsDue origin.operation_type m.registration m.aerodrome m.reading_datetime s.movements
          m.operation_type
      × IsInitial m.operation_type m.aerodrome m.conformity_status

  abbrev pub IsAbout : Movement → Bool → MovementCreatedEvent → Type 0
  IsAbout m batched e =
      (e.movement_id ≡ m.id)
      × (e.registration ≡ m.registration)
      × (e.aerodrome ≡ m.aerodrome)
      × (e.operation_type ≡ m.operation_type)
      × (e.source ≡ m.source)
      × (e.reading_datetime ≡ m.reading_datetime)
      × (e.batched ≡ batched)

  -- A creation that succeeds adds the row, its image and one evaluation; one that throws changes
  -- nothing.
  abbrev pub Outcome : Bool → Ops → Result CreateMovementResponse × Ops → Type 0
  Outcome batched s (err e, t) = t ≡ s
  Outcome batched s (ok r, t) =
      (r.id ≡ w.movement_id)
      × (any (λ q. str_eq q.id w.movement_id) s.movements ≡ false)
      × (t.movements ≡ s.movements ++ new_movement s ∷ [])
      × (t.objects ≡ with_object (image_key w image) s.objects)
      × (t.running
          ≡ s.running
            ++ Phase.started
                (created_event (new_movement s) (canonical other dto) (resolved s) batched)
              ∷ [])
      × (t.operational_events ≡ s.operational_events)
      × IsReading s (new_movement s)
      × IsAbout (new_movement s) batched
          (created_event (new_movement s) (canonical other dto) (resolved s) batched)

  new-IsReading : (s : Ops) → IsReading s (new_movement s)
  unfolding build_movement_create_input canonical new_movement operation
  new-IsReading s = (
    refl,
    refl,
    refl,
    refl,
    refl,
    refl,
    refl,
    refl,
    refl,
    refl,
    due-lem origin.operation_type (normalize_marcas other dto.registration) dto.aerodrome
        dto.reading_datetime s,
    first_status-lem (operation s) dto.aerodrome,
  )

  event-IsAbout :
      (s : Ops) (batched : Bool)
      → IsAbout
          (new_movement s)
          batched
          (created_event (new_movement s) (canonical other dto) (resolved s) batched)
  unfolding build_movement_create_input canonical new_movement operation
  event-IsAbout s batched = (refl, refl, refl, refl, refl, refl, refl)

  resolve-lem :
      (s : Ops)
      → (resolve_operation_type w.toggle_lookup_fails (canonical other dto) origin s
          ≡ (ok (resolved s), s))
        ⊎ (resolve_operation_type w.toggle_lookup_fails (canonical other dto) origin s
            ≡ (err database_error, s))
  unfolding resolve_operation_type canonical
  resolve-lem s = elim (Option-cases origin.operation_type) [
    | inr (o, manual) ↦ inl (rw manual refl)
    | inl automatic ↦ elim (Bool-cases w.toggle_lookup_fails) [
      | inl fails ↦ inr (rw (automatic, fails) refl)
      | inr works ↦ inl (rw (automatic, works) refl)
    ]
  ]

  -- What follows the upload.
  saved : Bool → Ops → Option ImageKey → M Ops CreateMovementResponse
  unfolding persist canonical find_latest_by_marcas build_aircraft_snapshot_create_input
      normalize_marcas
  saved batched s key = do
    created ← persist w (canonical other dto) key (resolved s) (
        build_aircraft_snapshot_create_input
          (find_latest_by_marcas other s (normalize_marcas other dto.registration)))
    modify (emit (created_event created (canonical other dto) (resolved s) batched))
    pure (record {
      id = created.id;
      message = "Reading registered successfully";
      image_path = signed w.signs_url key;
    })

  saved-Outcome :
      (batched : Bool) (s : Ops)
      → is_stored s (image_key w image) ≡ false
      → w.delete_fails ≡ false
      → Outcome batched s (
          saved batched s
            (image_key w image)
            (record s { objects = with_object (image_key w image) s.objects }))
  unfolding saved persist create build_movement_create_input operation
  saved-Outcome batched s fresh deletes = elim (Bool-cases w.insert_fails) [
    | inl fails ↦ rw (fails, deletes) (delete-lem (image_key w image) s fresh)
    | inr works ↦ elim (Bool-cases (any (λ q. str_eq q.id w.movement_id) s.movements)) [
      | inl taken ↦ rw (works, taken, deletes) (delete-lem (image_key w image) s fresh)
      | inr free ↦
          rw (works, free)
            (refl, free, refl, refl, refl, refl, new-IsReading s, event-IsAbout s batched)
    ]
  ]

  -- Where the key of the image is unused and the storage can delete, a creation of a movement either
  -- throws and leaves the database, the storage and the evaluations as they were, or adds the one
  -- row, its image and one evaluation that is about it. The row says what the reading says, with the
  -- canonical registration; its operation is the one that is given, or else the other than that of
  -- the newest movement of the registration within the window, or a landing if there is none; and
  -- its status is pending if it is a landing at a known aerodrome, and not applicable otherwise.
  pub execute-Outcome :
      (batched : Bool) (s : Ops)
      → is_stored s (image_key w image) ≡ false
      → w.delete_fails ≡ false
      → Outcome batched s (execute other w dto origin image batched s)
  unfolding execute saved canonical
  execute-Outcome batched s fresh deletes = elim (image-lem image s) [
    | inr bad ↦ rw bad refl
    | inl good ↦ elim (Bool-cases w.rab_lookup_fails) [
      | inl down ↦ rw (good, down) refl
      | inr up ↦ elim (resolve-lem s) [
        | inr failed ↦ rw (good, up, failed) refl
        | inl known ↦ elim (upload-lem w image s) [
          | inr lost ↦ rw (good, up, known, lost) refl
          | inl kept ↦ rw (good, up, known, kept) (saved-Outcome batched s fresh deletes)
        ]
      ]
    ]
  ]
