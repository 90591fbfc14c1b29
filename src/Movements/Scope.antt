-- ===== src/Movements/Scope.antt =====
-- The scope that the edits of a movement respect, and the removal.
use aerobi_api.Common.{
  ◌≡◌, ◌⊎◌, refl, sym, ap, ◌∙◌, true, List, [], ◌∷◌, Option, none, some, String, ℕ, find, inl, inr,
  Bool-cases, Option-cases, arith,
}
use aerobi_api.Common.Text.{Text}
use aerobi_api.Common.Errors.{HttpError, Result, ok, err, Result-cases, ok-eq}
use aerobi_api.Accounts.{update_where}
use aerobi_api.Authz.Guards.{AuthenticatedUser}
use aerobi_api.Movements.{Ops, Movement}
use aerobi_api.Movements.Store.{find_by_id, soft_delete, is_active_movement, removed}
use aerobi_api.Movements.Edit.{
  Tables, resolve_scoped_icaos, movement_in_icaos, assert_movement_in_scope, movement_not_found,
  remove_movement,
}

-- The actor may see a movement at the aerodrome.
abbrev pub Visible : Tables → AuthenticatedUser → Option Text → Type 0
Visible t actor aerodrome =
    (icaos : Option (List Text)) × (resolve_scoped_icaos t actor ≡ ok icaos)
    × (movement_in_icaos icaos aerodrome ≡ true)

pub scope-lem :
    (t : Tables) (aerodrome : Option Text) (id : String) (actor : AuthenticatedUser)
    → (Visible t actor aerodrome × (assert_movement_in_scope t aerodrome id actor ≡ ok tt))
      ⊎ ((e : HttpError) × (assert_movement_in_scope t aerodrome id actor ≡ err e)
          × (¬ Visible t actor aerodrome))
unfolding assert_movement_in_scope
scope-lem t aerodrome id actor = elim (Result-cases (resolve_scoped_icaos t actor)) [
  | inr (e, failed) ↦ inr (e, rw failed refl, λ (icaos, got, inside). cc (sym failed ∙ got))
  | inl (icaos, got) ↦ elim (Bool-cases (movement_in_icaos icaos aerodrome)) [
    | inl inside ↦ inl ((icaos, got, inside), rw (got, inside) refl)
    | inr outside ↦ inr (
      movement_not_found id,
      rw (got, outside) refl,
      λ (icaos', got', inside).
          cc (
            sym outside
            ∙ ap (λ x. movement_in_icaos x aerodrome) (ok-eq (sym got ∙ got'))
            ∙ inside),
    )
  ]
]

-- A removal hides the one visible row; a refusal changes nothing.
module _ (t : Tables) (id : String) (actor : AuthenticatedUser) (now : ℕ) where
  abbrev Removed : Ops → Result Movement × Ops → Type 0
  Removed s (err e, s') = s' ≡ s
  Removed s (ok m', s') =
      (m : Movement) × (find_by_id s id ≡ some m)
      × Visible t actor m.aerodrome
      × (m' ≡ removed actor.id now m)
      × (find_by_id s' id ≡ none)

  removed-none :
      (ms : List Movement)
      → find
          (is_active_movement id)
          (update_where (is_active_movement id) (removed actor.id now) ms)
        ≡ none
  removed-none [] = refl
  removed-none (m ∷ ms) = ground (arith, removed-none ms)

  remove_movement-Removed : (s : Ops) → Removed s (remove_movement t id actor now s)
  unfolding remove_movement soft_delete find_by_id
  remove_movement-Removed s = elim (Option-cases (find_by_id s id)) [
    | inl missing ↦ rw missing refl
    | inr (m, found) ↦ elim (scope-lem t m.aerodrome id actor) [
      | inr (e, denied, outside) ↦ rw (found, denied) refl
      | inl (visible, granted) ↦
          rw (found, granted, found) (m, found, visible, refl, removed-none s.movements)
    ]
  ]
