-- ===== src/Conformity/Histories.antt =====
-- The movements under every interleaving of the requests and of the queries of the evaluations.
use aerobi_api.Common.{Bool, List, [], ◌∷◌, Option, String, ℕ, zero, suc, All}
use aerobi_api.Common.Text.{Text}
use aerobi_api.Authz.Guards.{AuthenticatedUser}
use aerobi_api.Common.Keeps.{Keeps-run}
use aerobi_api.Movements.{Ops, Phase}
use aerobi_api.Movements.Create.{CreateWorld, MovementCreateData, MovementOrigin, execute}
use aerobi_api.Movements.Edit.{Tables, update_movement, remove_movement}
use aerobi_api.Conformity.Services.{Keeps-execute, Keeps-update_movement, Keeps-remove_movement}
use aerobi_api.Conformity.Evaluate.{Tick, step}
use aerobi_api.Conformity.Invariant.{IsSound, PhaseJustified, step-AfterStep}

-- The evaluation at a position, and the list with another in its place.
abbrev pub phase_at : ℕ → List Phase → Phase
phase_at n [] = Phase.done
phase_at zero (p ∷ ps) = p
phase_at (suc n) (p ∷ ps) = phase_at n ps

abbrev pub set_phase : ℕ → Phase → List Phase → List Phase
set_phase n q [] = []
set_phase zero q (p ∷ ps) = q ∷ ps
set_phase (suc n) q (p ∷ ps) = p ∷ set_phase n q ps

abbrev stored : ℕ → Phase × Ops → Ops
stored n (p, s) = record s { running = set_phase n p s.running }

-- What can happen next: a query of one of the evaluations on their way, or a request.
pub data Happening : Type 0 where
  query : ℕ → Tick → Happening
  creates : CreateWorld → MovementCreateData → MovementOrigin → Option String → Bool → Happening
  corrects : Tables → Bool → String → Text → AuthenticatedUser → Happening
  removes : Tables → String → AuthenticatedUser → ℕ → Happening

module _ (other : ℕ → Text) (window_ms : ℕ) where
  unfoldable pub happens : Happening → Ops → Ops
  unfolding execute update_movement remove_movement
  happens (query n t) s = stored n (step other window_ms t (phase_at n s.running) s)
  happens (creates w dto origin image batched) s = (execute other w dto origin image batched s).1
  happens (corrects t fails id registration actor) s =
      (update_movement other t fails id registration actor s).1
  happens (removes t id actor now) s = (remove_movement t id actor now s).1

  -- The states that a history leads to.
  pub data Leads : Ops → Ops → Type 0 where
    rest : {s : Ops} → Leads s s
    next : {s t : Ops} (h : Happening) → Leads (happens h s) t → Leads s t

phase_at-PhaseJustified :
    (P : Phase → Type 0) (n : ℕ) (ps : List Phase) → P Phase.done → All P ps → P (phase_at n ps)
phase_at-PhaseJustified P n [] d a = d
phase_at-PhaseJustified P zero (p ∷ ps) d (h, a) = h
phase_at-PhaseJustified P (suc n) (p ∷ ps) d (h, a) = phase_at-PhaseJustified P n ps d a

set_phase-All :
    (P : Phase → Type 0) (n : ℕ) (q : Phase) (ps : List Phase)
    → P q
    → All P ps
    → All P (set_phase n q ps)
set_phase-All P n q [] h a = tt
set_phase-All P zero q (p ∷ ps) h (j, a) = (h, a)
set_phase-All P (suc n) q (p ∷ ps) h (j, a) = (j, set_phase-All P n q ps h a)

module _ (other : ℕ → Text) (window_ms : ℕ) where
  query-IsSound :
      (n : ℕ) (t : Tick) (s : Ops) → IsSound s → IsSound (happens other window_ms (query n t) s)
  unfolding happens
  query-IsSound n t s (ms, ps) =
      let p = phase_at n s.running in
      let (j, (ms', ps')) =
        step-AfterStep other window_ms t p s
          (phase_at-PhaseJustified (PhaseJustified s.operational_events) n s.running tt ps)
          (ms, ps) in
      (
        ms',
        set_phase-All (PhaseJustified (step other window_ms t p s).1.operational_events) n _ _ j
            ps',
      )

module _ (other : ℕ → Text) (window_ms : ℕ) where
  happens-IsSound : (h : Happening) (s : Ops) → IsSound s → IsSound (happens other window_ms h s)
  unfolding happens
  happens-IsSound (query n t) s i = query-IsSound other window_ms n t s i
  happens-IsSound (creates w dto origin image batched) s i =
      Keeps-run (Keeps-execute other w dto origin image batched) s i
  happens-IsSound (corrects t fails id registration actor) s i =
      Keeps-run (Keeps-update_movement other t fails id registration actor) s i
  happens-IsSound (removes t id actor now) s i =
      Keeps-run (Keeps-remove_movement t id actor now) s i

  -- After any history of creations, corrections and removals of movements, between which the queries
  -- of the evaluations come in any order and may fail, every movement that is marked as non-
  -- conformant has a record of the non-conformity, and so has every evaluation that is about to mark
  -- one, if that held before.
  pub history-IsSound : {s t : Ops} → Leads other window_ms s t → IsSound s → IsSound t
  history-IsSound rest i = i
  history-IsSound (next h l) i = history-IsSound l (happens-IsSound h _ i)
