-- ===== src/Conformity/Invariant.antt =====
-- Evaluations, creations and edits in any order: their queries interleave.
use aerobi_api.Common.{
  ◌≡◌, refl, sym, subst, Bool, true, false, ◌||◌, List, [], ◌∷◌, ◌++◌, Option, none, some, String,
  eq_iff, eq_refl, ℕ, any, find, All, is_none, inl, inr, Bool-cases, arith,
}
use aerobi_api.Common.Text.{Text}
use aerobi_api.Accounts.{update_where}
use aerobi_api.Movements.{
  Ops, Phase, Movement, OperationalEvent, ConformityStatus, MovementType, MovementCreatedEvent,
}
use aerobi_api.Movements.Store.{
  is_active_movement, with_status, concerns, is_open_of, as_resolved, find_open_by_movement,
  resolve_open_by_movement, create_operational_event, update_conformity_status,
}
use aerobi_api.Conformity.Directory.{find_approved_landing_request_match}
use aerobi_api.Conformity.Evaluate.{Tick, step, advance, start, after_search}

abbrev pub is_non_conformant : ConformityStatus → Bool
is_non_conformant ConformityStatus.non_conformant = true
is_non_conformant _ = false

-- There is a record of the non-conformity of a movement.
abbrev pub has_event : List OperationalEvent → String → Bool
has_event events id = any (concerns id) events

abbrev pub Justified : List OperationalEvent → Movement → Type 0
Justified events m = is_non_conformant m.conformity_status ≡ true → has_event events m.id ≡ true

-- An evaluation on its way may mark a movement as non-conformant only with such a record.
abbrev pub PhaseJustified : List OperationalEvent → Phase → Type 0
PhaseJustified events (Phase.resolving id status) =
    is_non_conformant status ≡ true → has_event events id ≡ true
PhaseJustified events _ = Unit

has_event-append :
    (es : List OperationalEvent) (x : OperationalEvent) (id : String)
    → has_event (es ++ x ∷ []) id ≡ (has_event es id || concerns id x)
has_event-append [] x id = ground arith
has_event-append (e ∷ es) x id = ground (arith, has_event-append es x id)

has_event-resolve :
    (p : OperationalEvent → Bool) (es : List OperationalEvent) (id : String)
    → has_event (update_where p as_resolved es) id ≡ has_event es id
has_event-resolve p [] id = refl
has_event-resolve p (e ∷ es) id = ground (arith, has_event-resolve p es id)

found-has_event :
    (id : String) (es : List OperationalEvent)
    → is_none (find (is_open_of id) es) ≡ false
    → has_event es id ≡ true
found-has_event id [] h = cc h
found-has_event id (e ∷ es) h = ground (arith, found-has_event id es)

module _ (es es' : List OperationalEvent)
    (g : (id : String) → has_event es id ≡ true → has_event es' id ≡ true) where
  movements-grow : (ms : List Movement) → All (Justified es) ms → All (Justified es') ms
  movements-grow [] a = tt
  movements-grow (m ∷ ms) (j, a) = (λ h. g m.id (j h), movements-grow ms a)

  phase-grows : (p : Phase) → PhaseJustified es p → PhaseJustified es' p
  phase-grows (Phase.resolving id status) j = λ h. g id (j h)
  phase-grows (Phase.started e) j = tt
  phase-grows (Phase.matched e) j = tt
  phase-grows (Phase.unmatched e a) j = tt
  phase-grows (Phase.missing e a) j = tt
  phase-grows Phase.done j = tt

  phases-grow : (ps : List Phase) → All (PhaseJustified es) ps → All (PhaseJustified es') ps
  phases-grow [] a = tt
  phases-grow (p ∷ ps) (j, a) = (phase-grows p j, phases-grow ps a)

module _ (es : List OperationalEvent) (p : Movement → Bool) (f : Movement → Movement) where
  pub update-Justified :
      (ms : List Movement)
      → ((m : Movement) → p m ≡ true → Justified es m → Justified es (f m))
      → All (Justified es) ms
      → All (Justified es) (update_where p f ms)
  update-Justified [] k a = tt
  update-Justified (m ∷ ms) k (j, a) = elim (Bool-cases (p m)) [
    | inl hit ↦ rw hit (k m hit j, update-Justified ms k a)
    | inr miss ↦ rw miss (j, update-Justified ms k a)
  ]

pub append-All :
    {A : Type 0} (P : A → Type 0) (xs : List A) {x : A} → All P xs → P x → All P (xs ++ x ∷ [])
append-All P [] a h = (h, tt)
append-All P (y ∷ xs) (q, a) h = (q, append-All P xs a h)

-- Every movement that is marked as non-conformant has a record of it, and so has every evaluation
-- that is about to mark one.
abbrev pub IsSound : Ops → Type 0
IsSound s =
    All (Justified s.operational_events) s.movements
    × All (PhaseJustified s.operational_events) s.running

pub active-id : (id : String) (m : Movement) → is_active_movement id m ≡ true → m.id ≡ id
active-id id m h = ground (arith, eq_iff m.id id)

-- One query keeps the database sound, and leaves the evaluation with a record if it marks.
abbrev pub AfterStep : Phase × Ops → Type 0
AfterStep (p, s) = PhaseJustified s.operational_events p × IsSound s

after_search-PhaseJustified :
    (es : List OperationalEvent) (e : MovementCreatedEvent) (a : Text) (b : Bool)
    → PhaseJustified es (after_search e a b)
after_search-PhaseJustified es e a true = tt
after_search-PhaseJustified es e a false = tt

module _ (other : ℕ → Text) (window_ms : ℕ) where
  start-PhaseJustified :
      (e : MovementCreatedEvent) (o : MovementType) (a : Option Text) (s : Ops)
      → PhaseJustified s.operational_events (start other window_ms e o a s)
  unfolding find_approved_landing_request_match
  start-PhaseJustified e MovementType.takeoff a s = tt
  start-PhaseJustified e MovementType.landing none s = tt
  start-PhaseJustified e MovementType.landing (some a) s =
      after_search-PhaseJustified s.operational_events e a (
        is_none (
          find_approved_landing_request_match other s.landing_requests e.registration a
            e.reading_datetime window_ms))

  advance-AfterStep :
      (t : Tick) (p : Phase) (s : Ops)
      → PhaseJustified s.operational_events p
      → IsSound s
      → AfterStep (advance other window_ms t p s)
  unfolding advance find_open_by_movement resolve_open_by_movement create_operational_event
      update_conformity_status
  advance-AfterStep t (Phase.started e) s j w =
      (start-PhaseJustified e e.operation_type e.aerodrome s, w)
  advance-AfterStep t (Phase.matched e) s j (ms, ps) =
      let es = s.operational_events in
      let es' = update_where (is_open_of e.movement_id) as_resolved es in
      let g : (id : String) → has_event es id ≡ true → has_event es' id ≡ true =
        λ id h. rw (has_event-resolve (is_open_of e.movement_id) es id) h in
      (
        λ h. absurd (cc h),
        (movements-grow es es' g s.movements ms, phases-grow es es' g s.running ps),
      )
  advance-AfterStep t (Phase.unmatched e a) s j w =
      elim (Bool-cases (is_none (find (is_open_of e.movement_id) s.operational_events))) [
        | inl clear ↦ rw clear (tt, w)
        | inr seen ↦ rw seen (λ _. found-has_event e.movement_id s.operational_events seen, w)
      ]
  advance-AfterStep t (Phase.missing e a) s j (ms, ps) =
      let es = s.operational_events in
      let es' =
        (create_operational_event t.new_id a e.movement_id e.reading_datetime t.now
          s).operational_events in
      let g : (id : String) → has_event es id ≡ true → has_event es' id ≡ true =
        λ id h. rw (has_event-append es _ id) (ground arith) in
      (
        λ _. rw (has_event-append es _ e.movement_id) (ground (arith, eq_refl e.movement_id)),
        (movements-grow es es' g s.movements ms, phases-grow es es' g s.running ps),
      )
  advance-AfterStep t (Phase.resolving id status) s j (ms, ps) = (
    tt,
    (
      update-Justified s.operational_events (is_active_movement id) (with_status status) s.movements
          (λ m hit was h.
            subst (λ i. has_event s.operational_events i ≡ true) (sym (active-id id m hit)) (j h))
          ms,
      ps,
    ),
  )
  advance-AfterStep t Phase.done s j w = (tt, w)

  pub step-AfterStep :
      (t : Tick) (p : Phase) (s : Ops)
      → PhaseJustified s.operational_events p
      → IsSound s
      → AfterStep (step other window_ms t p s)
  unfolding step
  step-AfterStep t p s j w = elim (Bool-cases t.fails) [
    | inl fails ↦ rw fails (tt, w)
    | inr works ↦ rw works (advance-AfterStep t p s j w)
  ]
