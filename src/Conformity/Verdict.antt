-- ===== src/Conformity/Verdict.antt =====
-- What an evaluation decides that runs without another between its queries.
use aerobi_api.Common.{
  ◌≡◌, refl, Bool, true, false, not, ◌||◌, List, [], ◌∷◌, ◌++◌, some, String, eq_refl, ℕ, any, find,
  All, is_none, inl, inr, Bool-cases, arith,
}
use aerobi_api.Common.Text.{Text}
use aerobi_api.Accounts.{update_where}
use aerobi_api.Movements.{
  Ops, Phase, Movement, OperationalEvent, ConformityStatus, MovementType, MovementCreatedEvent,
}
use aerobi_api.Movements.Store.{
  is_active_movement, with_status, is_open_of, as_resolved, find_open_by_movement,
  resolve_open_by_movement, create_operational_event, update_conformity_status,
}
use aerobi_api.Conformity.Directory.{find_approved_landing_request_match}
use aerobi_api.Conformity.Evaluate.{Tick, step, advance, run}

-- The active rows of a movement carry a status.
abbrev pub Marked : String → ConformityStatus → List Movement → Type 0
Marked id status ms = All (λ m. is_active_movement id m ≡ true → m.conformity_status ≡ status) ms

update-Marked :
    (id : String) (status : ConformityStatus) (ms : List Movement)
    → Marked id status (update_where (is_active_movement id) (with_status status) ms)
update-Marked id status [] = tt
update-Marked id status (m ∷ ms) = elim (Bool-cases (is_active_movement id m)) [
  | inl hit ↦ rw hit (λ _. refl, update-Marked id status ms)
  | inr miss ↦ rw miss (λ h. absurd (cc (rw miss at h)), update-Marked id status ms)
]

pub any-is_none :
    (p : OperationalEvent → Bool) (es : List OperationalEvent)
    → any p es ≡ not (is_none (find p es))
any-is_none p [] = refl
any-is_none p (e ∷ es) = ground (arith, any-is_none p es)

resolve-clears :
    (id : String) (es : List OperationalEvent)
    → any (is_open_of id) (update_where (is_open_of id) as_resolved es) ≡ false
resolve-clears id [] = refl
resolve-clears id (e ∷ es) = ground (arith, resolve-clears id es)

any-append :
    (p : OperationalEvent → Bool) (es : List OperationalEvent) (x : OperationalEvent)
    → any p (es ++ x ∷ []) ≡ (any p es || p x)
any-append p [] x = ground arith
any-append p (e ∷ es) x = ground (arith, any-append p es x)

-- A tick on which the query answers.
abbrev pub Answers : Tick → Type 0
Answers t = t.fails ≡ false

abbrev pub has_open : String → Ops → Bool
has_open id s = any (is_open_of id) s.operational_events

module _ (other : ℕ → Text) (window_ms : ℕ) (e : MovementCreatedEvent) (aerodrome : Text) where
  abbrev pub match_in : Ops → Bool
  unfolding find_approved_landing_request_match
  match_in s = not (
      is_none (
        find_approved_landing_request_match other s.landing_requests e.registration aerodrome
          e.reading_datetime window_ms))

  -- Conformant without an open non-conformity, or non-conformant with one.
  abbrev pub Verdict : Bool → Ops → Type 0
  Verdict true s =
      Marked e.movement_id ConformityStatus.conformant s.movements
      × (has_open e.movement_id s ≡ false)
  Verdict false s =
      Marked e.movement_id ConformityStatus.non_conformant s.movements
      × (has_open e.movement_id s ≡ true)

  -- An evaluation of a landing at a known aerodrome that runs without another between its queries,
  -- none of which fails, marks the active row of the movement as conformant and leaves no record of
  -- it open, if there is an approved request; if there is none it marks it as non-conformant and
  -- leaves a record open.
  pub run-Verdict :
      (a b c d : Tick) (s : Ops)
      → e.operation_type ≡ MovementType.landing
      → e.aerodrome ≡ some aerodrome
      → Answers a
      → Answers b
      → Answers c
      → Answers d
      → Verdict (match_in s) (run other window_ms (a ∷ b ∷ c ∷ d ∷ []) (Phase.started e) s).1
  unfolding run step advance find_open_by_movement resolve_open_by_movement create_operational_event
      update_conformity_status find_approved_landing_request_match
  run-Verdict a b c d s landing known ok_a ok_b ok_c ok_d =
      elim (Bool-cases (
        is_none (
          find_approved_landing_request_match other s.landing_requests e.registration aerodrome
            e.reading_datetime window_ms))) [
              | inl nothing ↦
                  elim (Bool-cases
                    (is_none (find (is_open_of e.movement_id) s.operational_events))) [
                      | inl clear ↦
                          rw (ok_a, landing, known, nothing, ok_b, clear, ok_c, ok_d)
                            (
                              update-Marked e.movement_id ConformityStatus.non_conformant
                                  s.movements,
                              rw (any-append (is_open_of e.movement_id) s.operational_events _)
                                  (ground (arith, eq_refl e.movement_id)),
                            )
                      | inr seen ↦
                          rw (ok_a, landing, known, nothing, ok_b, seen, ok_c, ok_d)
                            (
                              update-Marked e.movement_id ConformityStatus.non_conformant
                                  s.movements,
                              rw (any-is_none (is_open_of e.movement_id) s.operational_events, seen)
                                  refl,
                            )
                    ]
              | inr match ↦
                  rw (ok_a, landing, known, match, ok_b, ok_c, ok_d)
                    (
                      update-Marked e.movement_id ConformityStatus.conformant s.movements,
                      resolve-clears e.movement_id s.operational_events,
                    )
            ]
