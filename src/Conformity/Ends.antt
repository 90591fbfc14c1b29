-- ===== src/Conformity/Ends.antt =====
-- How an evaluation goes on from each of its queries to its end.
use aerobi_api.Common.{
  ◌≡◌, ◌⊎◌, refl, ap, sym, subst, ◌∙◌, eq_refl, Bool, true, false, not, List, [], ◌∷◌, ◌++◌, none,
  some, String, ℕ, ◌≤◌, is_none, length, find, inl, inr, Bool-cases, arith,
}
use aerobi_api.Common.Text.{Text}
use aerobi_api.Accounts.{update_where}
use aerobi_api.Movements.{
  Ops, Phase, MovementCreatedEvent, OperationalEvent, ConformityStatus, MovementNonConformityEvent,
  OperationalEventStatus,
}
use aerobi_api.Movements.Store.{
  is_active_movement, is_open_of, with_status, as_resolved, find_open_by_movement,
  resolve_open_by_movement, create_operational_event, update_conformity_status,
}
use aerobi_api.Conformity.Evaluate.{Tick, step, advance, run, after_lookup, non_conformity}
use aerobi_api.Conformity.Verdict.{has_open, any-is_none}

-- The movements are as they were, or the active row of the movement has the status.
abbrev pub Perhaps : MovementCreatedEvent → ConformityStatus → Ops → Ops → Type 0
Perhaps e status s s' =
    (s'.movements ≡ s.movements)
    ⊎ (s'.movements
        ≡ update_where (is_active_movement e.movement_id) (with_status status) s.movements)

-- One record more, which is open, and the notice of it.
abbrev pub IsReported : MovementCreatedEvent → Text → Ops → Ops → Type 0
IsReported e aerodrome s s' =
    (x : OperationalEvent) × (n : MovementNonConformityEvent) × (s'.operational_events
      ≡ s.operational_events ++ x ∷ [])
    × (s'.non_conformities ≡ s.non_conformities ++ n ∷ [])
    × (is_open_of e.movement_id x ≡ true)
    × (x.aerodrome ≡ aerodrome)
    × (n.operational_event_id ≡ x.id)
    × (n.movement_id ≡ e.movement_id)

abbrev pub Decided : MovementCreatedEvent → Text → Bool → Ops → Ops → Type 0
Decided e aerodrome true s s' =
    Perhaps e ConformityStatus.conformant s s'
    × (s'.operational_events
        ≡ update_where (is_open_of e.movement_id) as_resolved s.operational_events)
    × (s'.non_conformities ≡ s.non_conformities)
Decided e aerodrome false s s' =
    Perhaps e ConformityStatus.non_conformant s s'
    × (((has_open e.movement_id s ≡ true)
          × (s'.operational_events ≡ s.operational_events)
          × (s'.non_conformities ≡ s.non_conformities))
        ⊎ ((has_open e.movement_id s ≡ false) × IsReported e aerodrome s s'))

module _ (other : ℕ → Text) (window_ms : ℕ) where
  pub rest-done : (ts : List Tick) (s : Ops) → run other window_ms ts Phase.done s ≡ (Phase.done, s)
  unfolding run step advance
  rest-done [] s = refl
  rest-done (t ∷ ts) s = elim (Bool-cases t.fails) [
    | inl fails ↦ rw fails (rest-done ts s)
    | inr works ↦ rw works (rest-done ts s)
  ]

  abbrev pub Frame : Ops → Ops → Type 0
  Frame s s' =
      record s' {
        movements = s.movements;
        operational_events = s.operational_events;
        non_conformities = s.non_conformities;
      }
      ≡ s

  -- The end of an evaluation whose search gave this answer.
  abbrev pub After : MovementCreatedEvent → Text → Bool → Ops → Phase × Ops → Type 0
  After e aerodrome match s r =
      (r.0 ≡ Phase.done) × ((r.1 ≡ s) ⊎ (Decided e aerodrome match s r.1 × Frame s r.1))

  resolving-ends :
      (id : String) (status : ConformityStatus) (ts : List Tick) (s : Ops)
      → 1 ≤ length ts
      → (run other window_ms ts (Phase.resolving id status) s ≡ (Phase.done, s))
        ⊎ (run other window_ms ts (Phase.resolving id status) s ≡ (
          Phase.done,
          record s {
            movements = update_where (is_active_movement id) (with_status status) s.movements;
          },
        ))
  unfolding run step advance update_conformity_status
  resolving-ends id status [] s h = absurd (omega arith)
  resolving-ends id status (t ∷ ts) s h = elim (Bool-cases t.fails) [
    | inl fails ↦ inl (rw fails (rest-done ts s))
    | inr works ↦ inr (rw works (rest-done ts _))
  ]

  pub matched-ends :
      (e : MovementCreatedEvent) (aerodrome : Text) (ts : List Tick) (s : Ops)
      → 2 ≤ length ts
      → After e aerodrome true s (run other window_ms ts (Phase.matched e) s)
  unfolding run step advance resolve_open_by_movement
  matched-ends e aerodrome [] s h = absurd (omega arith)
  matched-ends e aerodrome (t ∷ ts) s h = elim (Bool-cases t.fails) [
    | inl fails ↦ rw (fails, rest-done ts s) (refl, inl refl)
    | inr works ↦
        elim (resolving-ends e.movement_id ConformityStatus.conformant ts
          (resolve_open_by_movement e.movement_id s) (omega arith)) [
            | inl same ↦ rw (works, same) (refl, inr ((inl refl, refl, refl), refl))
            | inr marked ↦ rw (works, marked) (refl, inr ((inr refl, refl, refl), refl))
          ]
  ]

  abbrev new_record : Tick → MovementCreatedEvent → Text → OperationalEvent
  new_record t e aerodrome = record {
    id = t.new_id;
    status = OperationalEventStatus.open';
    aerodrome = aerodrome;
    movement_id = some e.movement_id;
    occurred_at = e.reading_datetime;
    detected_at = t.now;
    notified_at = none;
    deleted_at = none;
  }

  -- What a report leaves, with the movements still as they were.
  abbrev reported : Tick → MovementCreatedEvent → Text → Ops → Ops
  reported t e aerodrome s = record s {
    operational_events = s.operational_events ++ new_record t e aerodrome ∷ [];
    non_conformities = s.non_conformities ++ non_conformity t.new_id e aerodrome ∷ [];
  }

  new-IsReported :
      (t : Tick) (e : MovementCreatedEvent) (aerodrome : Text) (s s' : Ops)
      → s'.operational_events ≡ s.operational_events ++ new_record t e aerodrome ∷ []
      → s'.non_conformities ≡ s.non_conformities ++ non_conformity t.new_id e aerodrome ∷ []
      → IsReported e aerodrome s s'
  new-IsReported t e aerodrome s s' rows notices = (
    new_record t e aerodrome,
    non_conformity t.new_id e aerodrome,
    rows,
    notices,
    ground (arith, eq_refl e.movement_id),
    refl,
    refl,
    refl,
  )

  missing-ends :
      (e : MovementCreatedEvent) (aerodrome : Text) (ts : List Tick) (s : Ops)
      → 2 ≤ length ts
      → has_open e.movement_id s ≡ false
      → After e aerodrome false s (run other window_ms ts (Phase.missing e aerodrome) s)
  unfolding run step advance create_operational_event
  missing-ends e aerodrome [] s h clear = absurd (omega arith)
  missing-ends e aerodrome (t ∷ ts) s h clear = elim (Bool-cases t.fails) [
    | inl fails ↦ rw (fails, rest-done ts s) (refl, inl refl)
    | inr works ↦
        elim (resolving-ends e.movement_id ConformityStatus.non_conformant ts
          (reported t e aerodrome s) (omega arith)) [
            | inl same ↦
                rw (works, same)
                  (
                    refl,
                    inr (
                      (
                        inl refl,
                        inr (
                          clear,
                          new-IsReported t e aerodrome s (reported t e aerodrome s) refl refl,
                        ),
                      ),
                      refl,
                    ),
                  )
            | inr marked ↦
                rw (works, marked)
                  (
                    refl,
                    inr (
                      (
                        inr refl,
                        inr (
                          clear,
                          new-IsReported t e aerodrome s
                              (record (reported t e aerodrome s) {
                                movements =
                                    update_where (is_active_movement e.movement_id)
                                      (with_status ConformityStatus.non_conformant) s.movements;
                              })
                              refl refl,
                        ),
                      ),
                      refl,
                    ),
                  )
          ]
  ]

  unmatched-step :
      (e : MovementCreatedEvent) (aerodrome : Text) (t : Tick) (s : Ops) (clear : Bool)
      → t.fails ≡ false
      → is_none (find (is_open_of e.movement_id) s.operational_events) ≡ clear
      → step other window_ms t (Phase.unmatched e aerodrome) s ≡ (after_lookup e aerodrome clear, s)
  unfolding step advance find_open_by_movement
  unmatched-step e aerodrome t s clear works answer = rw (works, answer) refl

  failed-step :
      (t : Tick) (p : Phase) (s : Ops)
      → t.fails ≡ true
      → step other window_ms t p s ≡ (Phase.done, s)
  unfolding step
  failed-step t p s fails = rw fails refl

  -- An evaluation after its first query.
  stepped :
      (e : MovementCreatedEvent) (aerodrome : Text) (match : Bool) (t : Tick) (ts : List Tick)
      (p q : Phase) (s : Ops)
      → step other window_ms t p s ≡ (q, s)
      → After e aerodrome match s (run other window_ms ts q s)
      → After e aerodrome match s (run other window_ms (t ∷ ts) p s)
  unfolding run
  stepped e aerodrome match t ts p q s next left =
      subst (λ r. After e aerodrome match s (run other window_ms ts r.0 r.1)) (sym next) left

  seen-ends :
      (e : MovementCreatedEvent) (aerodrome : Text) (ts : List Tick) (s : Ops)
      → 1 ≤ length ts
      → has_open e.movement_id s ≡ true
      → After e aerodrome false s
          (run other window_ms ts (Phase.resolving e.movement_id ConformityStatus.non_conformant) s)
  seen-ends e aerodrome ts s h seen =
      elim (resolving-ends e.movement_id ConformityStatus.non_conformant ts s h) [
        | inl same ↦ rw same (refl, inl refl)
        | inr marked ↦ rw marked (refl, inr ((inr refl, inl (seen, refl, refl)), refl))
      ]

  pub unmatched-ends :
      (e : MovementCreatedEvent) (aerodrome : Text) (ts : List Tick) (s : Ops)
      → 3 ≤ length ts
      → After e aerodrome false s (run other window_ms ts (Phase.unmatched e aerodrome) s)
  unmatched-ends e aerodrome [] s h = absurd (omega arith)
  unmatched-ends e aerodrome (t ∷ ts) s h =
      let p = Phase.unmatched e aerodrome in
      let rows = any-is_none (is_open_of e.movement_id) s.operational_events in
      elim (Bool-cases t.fails) [
        | inl fails ↦
            stepped e aerodrome false t ts p Phase.done s (failed-step t p s fails)
              (ap (λ r. r.0) (rest-done ts s), inl (ap (λ r. r.1) (rest-done ts s)))
        | inr works ↦
            elim (Bool-cases (is_none (find (is_open_of e.movement_id) s.operational_events))) [
              | inl clear ↦
                  stepped e aerodrome false t ts p (Phase.missing e aerodrome) s
                    (unmatched-step e aerodrome t s true works clear)
                    (missing-ends e aerodrome ts s (omega arith) (rows ∙ ap not clear))
              | inr seen ↦
                  stepped e aerodrome false t ts p
                    (Phase.resolving e.movement_id ConformityStatus.non_conformant) s
                    (unmatched-step e aerodrome t s false works seen)
                    (seen-ends e aerodrome ts s (omega arith) (rows ∙ ap not seen))
            ]
      ]
