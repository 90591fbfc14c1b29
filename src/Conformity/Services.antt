-- ===== src/Conformity/Services.antt =====
-- The services of the movements keep the records of non-conformity in order.
use aerobi_api.Common.{
  ◌≡◌, Bool, true, false, List, Option, none, some, String, str_eq, any, or_default, ℕ, inl, inr,
  Bool-cases, Option-cases, arith,
}
use aerobi_api.Common.Text.{Text}
use aerobi_api.Common.Errors.{Result, ok, err}
use aerobi_api.Common.Effects.{modify}
use aerobi_api.Authz.Guards.{AuthenticatedUser}
use aerobi_api.Common.Keeps.{Keeps, keeps, keeps_rules, Keeps-run, Keeps-require}
use aerobi_api.Movements.{
  Ops, Movement, MovementType, MovementCreatedEvent, ImageKey, AircraftSnapshot, OperationalEvent,
  is_conformity_applicable, resolve_initial_conformity_status,
}
use aerobi_api.Movements.Store.{
  create, is_active_movement, update_registration, soft_delete, find_by_id, corrected, removed,
}
use aerobi_api.Movements.Store as Store
use aerobi_api.Movements.Create.{
  CreateWorld, MovementCreateData, MovementOrigin, execute, insert, delete_image, compensated,
  persist, build_movement_create_input, upload, assert_image_mimetype, is_allowed_image_mimetype,
  invalid_image, resolve_operation_type, emit,
}
use aerobi_api.Movements.Edit.{Tables, update_movement, remove_movement, emit_if, reset_status}
use aerobi_api.Conformity.Invariant.{
  IsSound, Justified, PhaseJustified, append-All, update-Justified, is_non_conformant,
}

Keeps-create :
    (m : Movement) (fails : Bool)
    → is_non_conformant m.conformity_status ≡ false
    → Keeps IsSound (insert fails m)
unfolding create
Keeps-create m true h = keeps λ s w. w
Keeps-create m false h = keeps λ s (ms, ps).
    elim (Bool-cases (any (λ q. str_eq q.id m.id) s.movements)) [
      | inl taken ↦ rw taken (ms, ps)
      | inr free ↦ rw free (
        append-All (Justified s.operational_events) s.movements ms (λ e. absurd (cc (rw h at e))),
        ps,
      )
    ]

delete_image-IsSound :
    (fails : Bool) (key : Option ImageKey) (s : Ops)
    → IsSound s
    → IsSound (delete_image fails key s)
delete_image-IsSound fails none s w = w
delete_image-IsSound true (some key) s w = w
delete_image-IsSound false (some key) s w = w

compensated-IsSound :
    (fails : Bool) (key : Option ImageKey) (r : Result Movement × Ops)
    → IsSound r.1
    → IsSound (compensated fails key r).1
compensated-IsSound fails key (ok m, s) w = w
compensated-IsSound fails key (err e, s) w = delete_image-IsSound fails key s w

initial_status :
    (o : MovementType) (a : Option Text)
    → is_non_conformant (resolve_initial_conformity_status o a) ≡ false
unfolding resolve_initial_conformity_status is_conformity_applicable
initial_status o a = ground arith

Keeps-persist :
    (w : CreateWorld) (dto : MovementCreateData) (key : Option ImageKey) (origin : MovementOrigin)
    (snapshot : AircraftSnapshot)
    → Keeps IsSound (persist w dto key origin snapshot)
unfolding persist build_movement_create_input
Keeps-persist w dto key origin snapshot = keeps λ s i. compensated-IsSound w.delete_fails key _ (
    Keeps-run
      (Keeps-create (build_movement_create_input w.movement_id dto key origin snapshot)
        w.insert_fails
        (initial_status (or_default origin.operation_type MovementType.landing) dto.aerodrome))
      s i)

Keeps-upload : (w : CreateWorld) (image : Option String) → Keeps IsSound (upload w image)
Keeps-upload w none = keeps λ s i. i
Keeps-upload w (some mimetype) =
    keeps
      λ s i. elim (Bool-cases w.upload_fails) [ inl fails ↦ rw fails i | inr works ↦ rw works i ]

Keeps-image : (image : Option String) → Keeps IsSound (assert_image_mimetype image)
unfolding is_allowed_image_mimetype
Keeps-image none = keeps λ s i. i
Keeps-image (some mimetype) = keeps λ s i.
    Keeps-run {I = IsSound} (Keeps-require (is_allowed_image_mimetype mimetype) invalid_image) s i

Keeps-resolve :
    (fails : Bool) (dto : MovementCreateData) (origin : MovementOrigin)
    → Keeps IsSound (resolve_operation_type fails dto origin)
unfolding resolve_operation_type
Keeps-resolve fails dto origin = keeps λ s i. elim (Option-cases origin.operation_type) [
  | inl automatic ↦ elim (Bool-cases fails) [
    | inl broken ↦ rw (automatic, broken) i
    | inr works ↦ rw (automatic, works) i
  ]
  | inr (o, manual) ↦ rw manual i
]

Keeps-emit : (e : MovementCreatedEvent) → Keeps IsSound (modify (emit e))
Keeps-emit e =
    keeps λ s (ms, ps). (ms, append-All (PhaseJustified s.operational_events) s.running ps tt)

Keeps-emit_if : (b : Bool) (e : MovementCreatedEvent) → Keeps IsSound (modify (emit_if b e))
Keeps-emit_if true e = Keeps-emit e
Keeps-emit_if false e = keeps λ s i. i

-- An edit of the active row that keeps its id, and gives no new mark of non-conformity.
Keeps-edit :
    (id : String) (f : Movement → Movement)
    → ((es : List OperationalEvent) (m : Movement) → Justified es m → Justified es (f m))
    → Keeps IsSound (Store.update_movement id f)
unfolding find_by_id
Keeps-edit id f k = keeps λ s (ms, ps). elim (Option-cases (find_by_id s id)) [
  | inl none' ↦ rw none' (ms, ps)
  | inr (m, found) ↦ rw found (
    update-Justified s.operational_events (is_active_movement id) f s.movements
        (λ m hit j. k s.operational_events m j) ms,
    ps,
  )
]

corrected-Justified :
    (registration : Text) (snapshot : AircraftSnapshot) (by : String) (b : Bool)
    (es : List OperationalEvent) (m : Movement)
    → Justified es m
    → Justified es (corrected registration snapshot by (reset_status b) m)
corrected-Justified registration snapshot by true es m j = λ h. absurd (cc h)
corrected-Justified registration snapshot by false es m j = j

Keeps-update_registration :
    (id : String) (registration : Text) (snapshot : AircraftSnapshot) (by : String) (b : Bool)
    → Keeps IsSound (update_registration id registration snapshot by (reset_status b))
unfolding update_registration
Keeps-update_registration id registration snapshot by b =
    Keeps-edit id (corrected registration snapshot by (reset_status b))
      (corrected-Justified registration snapshot by b)

Keeps-soft_delete : (id by : String) (now : ℕ) → Keeps IsSound (soft_delete id by now)
unfolding soft_delete
Keeps-soft_delete id by now = Keeps-edit id (removed by now) (λ es m j. j)

ruleset sound_rules = (
  keeps_rules, Keeps-image, Keeps-resolve, Keeps-upload, Keeps-persist, Keeps-emit, Keeps-emit_if,
  Keeps-update_registration, Keeps-soft_delete,
)

module _ (other : ℕ → Text) where
  pub Keeps-execute :
      (w : CreateWorld) (dto : MovementCreateData) (origin : MovementOrigin) (image : Option String)
      (batched : Bool)
      → Keeps IsSound (execute other w dto origin image batched)
  unfolding execute
  Keeps-execute w dto origin image batched = search sound_rules depth 14

  pub Keeps-update_movement :
      (t : Tables) (fails : Bool) (id : String) (registration : Text) (actor : AuthenticatedUser)
      → Keeps IsSound (update_movement other t fails id registration actor)
  unfolding update_movement
  Keeps-update_movement t fails id registration actor = search sound_rules depth 14

pub Keeps-remove_movement :
    (t : Tables) (id : String) (actor : AuthenticatedUser) (now : ℕ)
    → Keeps IsSound (remove_movement t id actor now)
unfolding remove_movement
Keeps-remove_movement t id actor now = search sound_rules depth 14
