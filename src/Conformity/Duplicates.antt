-- ===== src/Conformity/Duplicates.antt =====
-- How many open records of non-conformity a movement has.
use aerobi_api.Common.{
  ◌≡◌, refl, subst, Bool, true, false, List, [], ◌∷◌, ◌++◌, Option, none, some, String, str_eq,
  eq_iff, eq_refl, ℕ, ◌+◌, ◌≤◌, find, count, is_none, inl, inr, Bool-cases, arith,
}
use aerobi_api.Common.Text.{Text}
use aerobi_api.Accounts.{update_where}
use aerobi_api.Movements.{Ops, Phase, OperationalEvent, MovementType, MovementCreatedEvent}
use aerobi_api.Movements.Store.{
  is_open_of, as_resolved, find_open_by_movement, resolve_open_by_movement,
  create_operational_event, update_conformity_status,
}
use aerobi_api.Conformity.Directory.{find_approved_landing_request_match}
use aerobi_api.Conformity.Evaluate.{Tick, step, advance, run, start}
use aerobi_api.Conformity.Histories.{happens, query}

count-append :
    (p : OperationalEvent → Bool) (es : List OperationalEvent) (x : OperationalEvent)
    → count p (es ++ x ∷ []) ≡ count p es + count p (x ∷ [])
count-append p [] x = ground arith
count-append p (e ∷ es) x = ground (arith, count-append p es x)

count-resolve :
    (i j : String) (es : List OperationalEvent)
    → count (is_open_of i) (update_where (is_open_of j) as_resolved es) ≤ count (is_open_of i) es
count-resolve i j [] = omega arith
count-resolve i j (e ∷ es) = ground (arith, count-resolve i j es)

count-none :
    (p : OperationalEvent → Bool) (es : List OperationalEvent)
    → is_none (find p es) ≡ true
    → count p es ≡ 0
count-none p [] h = refl
count-none p (e ∷ es) h = ground (arith, count-none p es)

none-count :
    (p : OperationalEvent → Bool) (es : List OperationalEvent)
    → count p es ≡ 0
    → is_none (find p es) ≡ true
none-count p [] h = refl
none-count p (e ∷ es) h = ground (arith, none-count p es)

abbrev pub open_count : Ops → String → ℕ
open_count s id = count (is_open_of id) s.operational_events

abbrev pub OneOpen : Ops → Type 0
OneOpen s = (id : String) → open_count s id ≤ 1

-- An evaluation that is about to create a record found none.
abbrev Clear : Ops → Phase → Type 0
Clear s (Phase.missing e a) = open_count s e.movement_id ≡ 0
Clear s _ = Unit

module _ (other : ℕ → Text) (window_ms : ℕ) where
  start-Clear :
      (e : MovementCreatedEvent) (o : MovementType) (a : Option Text) (s : Ops)
      → Clear s (start other window_ms e o a s)
  unfolding find_approved_landing_request_match
  start-Clear e MovementType.takeoff a s = tt
  start-Clear e MovementType.landing none s = tt
  start-Clear e MovementType.landing (some a) s =
      elim (Bool-cases (
        is_none (
          find_approved_landing_request_match other s.landing_requests e.registration a
            e.reading_datetime window_ms))) [
              | inl nothing ↦ rw nothing tt
              | inr match ↦ rw match tt
            ]

  abbrev Both : Phase × Ops → Type 0
  Both (p, s) = OneOpen s × Clear s p

  advance-Both :
      (t : Tick) (p : Phase) (s : Ops)
      → OneOpen s
      → Clear s p
      → Both (advance other window_ms t p s)
  unfolding advance find_open_by_movement resolve_open_by_movement create_operational_event
      update_conformity_status
  advance-Both t (Phase.started e) s w c = (w, start-Clear e e.operation_type e.aerodrome s)
  advance-Both t (Phase.matched e) s w c =
      (λ id. omega (arith, w id, count-resolve id e.movement_id s.operational_events), tt)
  advance-Both t (Phase.unmatched e a) s w c =
      elim (Bool-cases (is_none (find (is_open_of e.movement_id) s.operational_events))) [
        | inl clear ↦ rw clear (w, count-none (is_open_of e.movement_id) s.operational_events clear)
        | inr seen ↦ rw seen (w, tt)
      ]
  advance-Both t (Phase.missing e a) s w c =
      let vanishes : (id : String) → str_eq e.movement_id id ≡ true → open_count s id ≡ 0 =
        λ id h. subst (λ i. open_count s i ≡ 0) ((eq_iff e.movement_id id).0 h) c in
      (
        λ id. elim (Bool-cases (str_eq e.movement_id id)) [
          | inl same ↦
              rw (count-append (is_open_of id) s.operational_events _, same)
                (omega (arith, vanishes id same))
          | inr apart ↦
              rw (count-append (is_open_of id) s.operational_events _, apart) (omega (arith, w id))
        ],
        tt,
      )
  advance-Both t (Phase.resolving id status) s w c = (w, tt)
  advance-Both t Phase.done s w c = (w, tt)

  step-Both :
      (t : Tick) (p : Phase) (s : Ops) → OneOpen s → Clear s p → Both (step other window_ms t p s)
  unfolding step
  step-Both t p s w c = elim (Bool-cases t.fails) [
    | inl fails ↦ rw fails (w, tt)
    | inr works ↦ rw works (advance-Both t p s w c)
  ]

  run-Both :
      (ts : List Tick) (p : Phase) (s : Ops)
      → OneOpen s
      → Clear s p
      → OneOpen (run other window_ms ts p s).1
  unfolding run
  run-Both [] p s w c = w
  run-Both (t ∷ ts) p s w c =
      let (w', c') = step-Both t p s w c in
      run-Both ts (step other window_ms t p s).0 (step other window_ms t p s).1 w' c'

  -- Evaluations one after the other, each with its ticks.
  unfoldable pub evaluations : List (MovementCreatedEvent × List Tick) → Ops → Ops
  unfolding run
  evaluations [] s = s
  evaluations ((e, ts) ∷ rest) s = evaluations rest (run other window_ms ts (Phase.started e) s).1

  -- After any sequence of evaluations that run one after the other, whichever of their queries fail,
  -- a movement has at most one open record of non-conformity, if that held before.
  pub evaluations-OneOpen :
      (es : List (MovementCreatedEvent × List Tick)) (s : Ops)
      → OneOpen s
      → OneOpen (evaluations es s)
  unfolding evaluations
  evaluations-OneOpen [] s w = w
  evaluations-OneOpen ((e, ts) ∷ rest) s w =
      evaluations-OneOpen rest (run other window_ms ts (Phase.started e) s).1
        (run-Both ts (Phase.started e) s w tt)

  -- Two evaluations of one movement without an open record that both look for one before either
  -- creates it leave two open records, if no query fails.
  pub race-two_open :
      (s : Ops) (e d : MovementCreatedEvent) (a b : Text) (t u v w : Tick)
      → s.running ≡ Phase.unmatched e a ∷ Phase.unmatched d b ∷ []
      → d.movement_id ≡ e.movement_id
      → open_count s e.movement_id ≡ 0
      → t.fails ≡ false
      → u.fails ≡ false
      → v.fails ≡ false
      → w.fails ≡ false
      → open_count
          (happens other window_ms (query 1 w) (
            happens other window_ms
              (query 0 v)
              (happens other window_ms (query 1 u) (happens other window_ms (query 0 t) s))))
          e.movement_id
        ≡ 2
  unfolding happens step advance find_open_by_movement create_operational_event
  race-two_open s e d a b t u v w two same none' ok_t ok_u ok_v ok_w =
      let nothing = none-count (is_open_of e.movement_id) s.operational_events none' in
      rw (two, ok_t, nothing, ok_u, same, nothing, ok_v, ok_w)
        (rw
          (
            count-append (is_open_of e.movement_id) _ _,
            count-append (is_open_of e.movement_id) _ _,
            none',
            eq_refl e.movement_id,
          )
          refl)
