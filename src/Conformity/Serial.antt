-- ===== src/Conformity/Serial.antt =====
-- What an evaluation leaves that runs without another between its queries, whichever of them fail.
use aerobi_api.Common.{
  ◌≡◌, ◌⊎◌, refl, ap, Option, List, [], ◌∷◌, none, some, ℕ, ◌≤◌, is_none, length, inl, inr,
  Bool-cases, arith,
}
use aerobi_api.Common.Text.{Text}
use aerobi_api.Movements.{Ops, Phase, MovementType, MovementCreatedEvent}
use aerobi_api.Conformity.Directory.{find_approved_landing_request_match}
use aerobi_api.Conformity.Evaluate.{Tick, step, advance, run, start}
use aerobi_api.Conformity.Verdict.{match_in}
use aerobi_api.Conformity.Ends.{Decided, After, rest-done, matched-ends, unmatched-ends}

module _ (other : ℕ → Text) (window_ms : ℕ) where
  -- Nothing happened, or a landing at a known aerodrome got its records and perhaps its status.
  abbrev pub Ended : MovementCreatedEvent → Ops → Ops → Type 0
  Ended e s s' =
      (s' ≡ s)
      ⊎ ((aerodrome : Text) × (e.operation_type ≡ MovementType.landing)
          × (e.aerodrome ≡ some aerodrome)
          × Decided e aerodrome (match_in other window_ms e aerodrome s) s s'
          × (record s' {
            movements = s.movements;
            operational_events = s.operational_events;
            non_conformities = s.non_conformities;
          }
              ≡ s))

  searched-ends :
      (e : MovementCreatedEvent) (aerodrome : Text) (ts : List Tick) (s : Ops)
      → 3 ≤ length ts
      → After other window_ms e aerodrome (match_in other window_ms e aerodrome s) s (
          run other window_ms ts
            (start other window_ms e MovementType.landing (some aerodrome) s)
            s)
  unfolding find_approved_landing_request_match
  searched-ends e aerodrome ts s h =
      elim (Bool-cases (
        is_none (
          find_approved_landing_request_match other s.landing_requests e.registration aerodrome
            e.reading_datetime window_ms))) [
              | inl nothing ↦ rw nothing (unmatched-ends other window_ms e aerodrome ts s h)
              | inr match ↦ rw match (matched-ends other window_ms e aerodrome ts s (omega arith))
            ]

  started-ends :
      (e : MovementCreatedEvent) (o : MovementType) (a : Option Text) (ts : List Tick) (s : Ops)
      → e.operation_type ≡ o
      → e.aerodrome ≡ a
      → 3 ≤ length ts
      → let r = run other window_ms ts (start other window_ms e o a s) s in
        (r.0 ≡ Phase.done) × Ended e s r.1
  unfolding find_approved_landing_request_match
  started-ends e MovementType.takeoff a ts s type place h = (
    ap (λ p. p.0) (rest-done other window_ms ts s),
    inl (ap (λ p. p.1) (rest-done other window_ms ts s)),
  )
  started-ends e MovementType.landing none ts s type place h = (
    ap (λ p. p.0) (rest-done other window_ms ts s),
    inl (ap (λ p. p.1) (rest-done other window_ms ts s)),
  )
  started-ends e MovementType.landing (some aerodrome) ts s type place h =
      let (ended, left) = searched-ends e aerodrome ts s h in
      (
        ended,
        elim left [
          | inl same ↦ inl same
          | inr (decided, frame) ↦ inr (aerodrome, type, place, decided, frame)
        ],
      )

  -- An evaluation that runs without another between its queries is at its end after four of them,
  -- whichever fail. It changed nothing, or the movement is a landing at a known aerodrome, the
  -- movement has its former status or the one of the verdict, and no other table changed than these:
  -- if there is an approved request, the open records of the movement are resolved; if there is none
  -- and no record was open, one open record and the notice of it are new.
  pub run-Ended :
      (e : MovementCreatedEvent) (ts : List Tick) (s : Ops)
      → 4 ≤ length ts
      → let r = run other window_ms ts (Phase.started e) s in (r.0 ≡ Phase.done) × Ended e s r.1
  unfolding run step advance
  run-Ended e [] s h = absurd (omega arith)
  run-Ended e (t ∷ ts) s h = elim (Bool-cases t.fails) [
    | inl fails ↦ rw (fails, rest-done other window_ms ts s) (refl, inl refl)
    | inr works ↦
        rw works (started-ends e e.operation_type e.aerodrome ts s refl refl (omega arith))
  ]
