-- ===== src/Movements/Correction.antt =====
-- The correction of the registration of a movement.
use aerobi_api.Common.{
  ◌≡◌, ◌≢◌, ◌⊎◌, refl, sym, ap, ◌∙◌, Bool, true, false, List, [], ◌∷◌, ◌++◌, Option, none, some,
  String, str_eq, eq_iff, ℕ, find, inl, inr, Bool-cases, Option-cases, arith,
}
use aerobi_api.Common.Text.{Text, same_text, same_text_iff}
use aerobi_api.Common.Errors.{Result, ok, err}
use aerobi_api.Accounts.{update_where}
use aerobi_api.Authz.Guards.{AuthenticatedUser}
use aerobi_api.Registrations.{normalize_marcas}
use aerobi_api.Movements.{
  Ops, Movement, MovementType, MovementCreatedEvent, ConformityStatus, Phase,
  build_aircraft_snapshot_create_input, is_conformity_applicable,
}
use aerobi_api.Movements.Store.{
  find_by_id, find_latest_by_marcas, update_registration, is_active_movement, corrected,
}
use aerobi_api.Movements.Edit.{
  Tables, assert_movement_in_scope, update_movement, should_reevaluate, reset_status,
  conformity_requested, emit_if,
}
use aerobi_api.Movements.Scope.{Visible, scope-lem}

-- An update of an active row that leaves its key as it is.
module _ (id : String) (f : Movement → Movement) (same_id : (m : Movement) → (f m).id ≡ m.id)
    (same_life : (m : Movement) → (f m).deleted_at ≡ m.deleted_at) where
  find-updated :
      (ms : List Movement) (m : Movement)
      → find (is_active_movement id) ms ≡ some m
      → find (is_active_movement id) (update_where (is_active_movement id) f ms) ≡ some (f m)
  find-updated [] m h = absurd (cc h)
  find-updated (x ∷ ms) m h = elim (Bool-cases (is_active_movement id x)) [
    | inl hit ↦ ground (arith, hit, same_id x, same_life x)
    | inr miss ↦ ground (arith, miss, find-updated ms m)
  ]

  find-others :
      (key : String) (ms : List Movement)
      → str_eq id key ≡ false
      → find (is_active_movement key) (update_where (is_active_movement id) f ms)
        ≡ find (is_active_movement key) ms
  find-others key [] h = refl
  find-others key (x ∷ ms) h = elim (Bool-cases (is_active_movement id x)) [
    | inl hit ↦
        let own : x.id ≡ id = (eq_iff x.id id).0 (ground (arith, hit)) in
        let out : str_eq x.id key ≡ false = ap (λ i. str_eq i key) own ∙ h in
        let out' : str_eq (f x).id key ≡ false = ap (λ i. str_eq i key) (same_id x) ∙ out in
        ground (arith, hit, out, out', find-others key ms h)
    | inr miss ↦ ground (arith, miss, find-others key ms h)
  ]

-- Whether a correction to this registration asks for an evaluation.
abbrev pub Reopens : Movement → Text → Type 0
Reopens m registration =
    (registration ≢ m.registration)
    × (m.operation_type ≡ MovementType.landing)
    × (m.aerodrome ≢ none)

applicable-cases :
    (o : MovementType) (a : Option Text)
    → ((is_conformity_applicable o a ≡ true) × (o ≡ MovementType.landing) × (a ≢ none))
      ⊎ ((is_conformity_applicable o a ≡ false) × (¬ ((o ≡ MovementType.landing) × (a ≢ none))))
unfolding is_conformity_applicable
applicable-cases MovementType.takeoff a = inr (refl, λ (landing', known). cc landing')
applicable-cases MovementType.landing none = inr (refl, λ (landing', known). known refl)
applicable-cases MovementType.landing (some a) = inl (refl, refl, λ e. cc e)

reevaluate-cases :
    (m : Movement) (registration : Text)
    → ((should_reevaluate m registration ≡ true) × Reopens m registration)
      ⊎ ((should_reevaluate m registration ≡ false) × (¬ Reopens m registration))
reevaluate-cases m registration = elim (Bool-cases (same_text registration m.registration)) [
  | inl same ↦ inr (
    rw same refl,
    λ (differs, landing', known). differs ((same_text_iff registration m.registration).0 same),
  )
  | inr other' ↦ elim (applicable-cases m.operation_type m.aerodrome) [
    | inl (applies, landing', known) ↦ inl (
      rw (other', applies) refl,
      (
        λ same. cc (sym other' ∙ (same_text_iff registration m.registration).1 same),
        landing',
        known,
      ),
    )
    | inr (applies, out) ↦
        inr (rw (other', applies) refl, λ (differs, landing', known). out (landing', known))
  ]
]

module _ (other : ℕ → Text) (t : Tables) (id : String) (raw : Text)
    (actor : AuthenticatedUser) where
  abbrev pub canonical : Text
  unfolding normalize_marcas
  canonical = normalize_marcas other raw

  -- The event that starts the evaluation of a corrected movement.
  abbrev pub asked_again : Movement → MovementCreatedEvent
  asked_again m = record {
    movement_id = id;
    registration = canonical;
    aerodrome = m.aerodrome;
    operation_type = MovementType.landing;
    source = m.source;
    reading_datetime = m.reading_datetime;
    batched = false;
  }

  -- The row has the new registration, the aircraft of it and the name of the actor; it keeps all
  -- else but its status.
  abbrev pub IsCorrection : Ops → Movement → Movement → Type 0
  unfolding normalize_marcas find_latest_by_marcas build_aircraft_snapshot_create_input
  IsCorrection s m m' =
      (m'.registration ≡ canonical)
      × (m'.aircraft_snapshot
          ≡ build_aircraft_snapshot_create_input (find_latest_by_marcas other s canonical))
      × (m'.updated_by ≡ some actor.id)
      × (record m' {
        registration = m.registration;
        aircraft_snapshot = m.aircraft_snapshot;
        updated_by = m.updated_by;
        conformity_status = m.conformity_status;
      }
          ≡ m)

  abbrev pub IsRestarted : Ops → Movement → Movement → Ops → Type 0
  IsRestarted s m m' s' =
      (Reopens m canonical
        × (m'.conformity_status ≡ ConformityStatus.pending)
        × (s'.running ≡ s.running ++ Phase.started (asked_again m) ∷ []))
      ⊎ ((¬ Reopens m canonical)
          × (m'.conformity_status ≡ m.conformity_status)
          × (s'.running ≡ s.running))

  abbrev pub Corrected : Bool → Ops → Result Movement × Ops → Type 0
  Corrected fails s (err e, s') =
      (s' ≡ s)
      × ((find_by_id s id ≡ none)
          ⊎ ((m : Movement) × (find_by_id s id ≡ some m)
              × ((¬ Visible t actor m.aerodrome) ⊎ (fails ≡ true))))
  Corrected fails s (ok m', s') =
      (fails ≡ false)
      × ((m : Movement) × (find_by_id s id ≡ some m)
          × Visible t actor m.aerodrome
          × IsCorrection s m m'
          × IsRestarted s m m' s'
          × (find_by_id s' id ≡ some m')
          × ((key : String) → str_eq id key ≡ false → find_by_id s' key ≡ find_by_id s key)
          × (record s' { movements = s.movements; running = s.running } ≡ s))

  -- What the update does to a row.
  abbrev correction : Ops → Bool → Movement → Movement
  correction s again =
      corrected canonical
        (build_aircraft_snapshot_create_input (find_latest_by_marcas other s canonical)) actor.id
        (reset_status again)

  found-active :
      (ms : List Movement) (m : Movement)
      → find (is_active_movement id) ms ≡ some m
      → is_active_movement id m ≡ true
  found-active [] m h = absurd (cc h)
  found-active (x ∷ ms) m h = elim (Bool-cases (is_active_movement id x)) [
    | inl hit ↦ ground (arith, hit)
    | inr miss ↦ ground (arith, miss, found-active ms m)
  ]

  asked-same :
      (s : Ops) (m : Movement) (again : Bool)
      → find_by_id s id ≡ some m
      → m.operation_type ≡ MovementType.landing
      → conformity_requested (correction s again m) ≡ asked_again m
  unfolding find_by_id
  asked-same s m again found landing' =
      let own : m.id ≡ id = (eq_iff m.id id).0 (ground (arith, found-active s.movements m found)) in
      rw (own, landing') refl

  -- The tables after the update of a row.
  abbrev saved : Ops → Movement → Bool → Ops
  saved s m again = emit_if again (conformity_requested (correction s again m)) (record s {
    movements = update_where (is_active_movement id) (correction s again) s.movements;
  })

  update_movement-saves :
      (s : Ops) (m : Movement)
      → find_by_id s id ≡ some m
      → assert_movement_in_scope t m.aerodrome id actor ≡ ok tt
      → let again = should_reevaluate m canonical in
        update_movement other t false id raw actor s ≡ (ok (correction s again m), saved s m again)
  unfolding update_movement update_registration
  update_movement-saves s m found granted = rw (found, granted, found) refl

  saved-finds :
      (s : Ops) (m : Movement) (again : Bool)
      → find_by_id s id ≡ some m
      → (find_by_id (saved s m again) id ≡ some (correction s again m))
        × ((key : String)
            → str_eq id key ≡ false
            → find_by_id (saved s m again) key ≡ find_by_id s key)
        × (record (saved s m again) { movements = s.movements; running = s.running } ≡ s)
  unfolding find_by_id
  saved-finds s m true found = (
    find-updated id (correction s true) (λ x. refl) (λ x. refl) s.movements m found,
    λ key h. find-others id (correction s true) (λ x. refl) (λ x. refl) key s.movements h,
    refl,
  )
  saved-finds s m false found = (
    find-updated id (correction s false) (λ x. refl) (λ x. refl) s.movements m found,
    λ key h. find-others id (correction s false) (λ x. refl) (λ x. refl) key s.movements h,
    refl,
  )

  saved-IsRestarted :
      (s : Ops) (m : Movement)
      → find_by_id s id ≡ some m
      → let again = should_reevaluate m canonical in
        IsRestarted s m (correction s again m) (saved s m again)
  saved-IsRestarted s m found = elim (reevaluate-cases m canonical) [
    | inl (again, reopens) ↦ inl (
      reopens,
      rw again refl,
      rw again (ap (λ e. s.running ++ Phase.started e ∷ []) (asked-same s m true found reopens.1)),
    )
    | inr (again, out) ↦ inr (out, rw again refl, rw again refl)
  ]

  -- A correction of a movement that throws changes nothing: the id has no active row, or the row
  -- lies outside the scope of the actor, or the search for the aircraft fails. One that succeeds
  -- gives the row of the id, which lies within the scope, the canonical registration, the aircraft
  -- of it and the name of the actor, and keeps the rest of it, all other movements and all other
  -- tables. If it is a landing at a known aerodrome and the registration is another, its status goes
  -- back to pending and one evaluation of it as corrected is started; otherwise the status stays and
  -- none is started.
  pub update_movement-Corrected :
      (fails : Bool) (s : Ops) → Corrected fails s (update_movement other t fails id raw actor s)
  unfolding update_movement
  update_movement-Corrected fails s = elim (Option-cases (find_by_id s id)) [
    | inl missing ↦ rw missing (refl, inl missing)
    | inr (m, found) ↦ elim (scope-lem t m.aerodrome id actor) [
      | inr (e, denied, outside) ↦ rw (found, denied) (refl, inr (m, found, inl outside))
      | inl (visible, granted) ↦ elim (Bool-cases fails) [
        | inl down ↦ rw (found, granted, down) (refl, inr (m, found, inr refl))
        | inr up ↦
            let again = should_reevaluate m canonical in
            let (own, others, rest) = saved-finds s m again found in
            rw (up, update_movement-saves s m found granted)
              (
                refl,
                (
                  m,
                  found,
                  visible,
                  (refl, refl, refl, refl),
                  saved-IsRestarted s m found,
                  own,
                  others,
                  rest,
                ),
              )
      ]
    ]
  ]
