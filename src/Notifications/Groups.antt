-- ===== src/Notifications/Groups.antt =====
-- How the movements of a batch are divided among the groups.
use aerobi_api.Common.{
  ◌≡◌, refl, sym, ap, ◌∙◌, inl, inr, Bool, true, false, ◌&&◌, List, [], ◌∷◌, ◌++◌, ℕ, ◌==◌, any,
  count, some, none, Option, String, str_eq, eq_iff, arith, all, filter, if◌then◌else◌, Bool-cases,
  Option-cases,
}
use aerobi_api.Movements.{MovementCreatedEvent}
use aerobi_api.Notifications.{
  DirectoryPort, group_of_movement, push_to, group_from, group_movements_by_group,
}

-- The movements of a group: what the map gives for it, and nothing where it has no entry.
unfoldable pub entry :
    String → List (String × List MovementCreatedEvent) → List MovementCreatedEvent
entry g [] = []
entry g ((h, ms) ∷ rest) = if str_eq h g then ms else entry g rest

abbrev matches : String → Option (Option String) → Bool
matches g (some (some h)) = str_eq h g
matches g _ = false

abbrev known : Option (Option String) → Bool
known none = false
known (some x) = true

-- The directory names this group for the movement.
abbrev pub belongs : DirectoryPort → String → MovementCreatedEvent → Bool
belongs d g m = matches g (group_of_movement d m)

-- The directory answers for the movement.
abbrev pub answers : DirectoryPort → MovementCreatedEvent → Bool
answers d m = known (group_of_movement d m)

append_nil : (ms : List MovementCreatedEvent) → ms ++ [] ≡ ms
append_nil [] = refl
append_nil (m ∷ ms) = ap (λ x. m ∷ x) (append_nil ms)

append_one :
    (ms : List MovementCreatedEvent) (m : MovementCreatedEvent) (ns : List MovementCreatedEvent)
    → (ms ++ m ∷ []) ++ ns ≡ ms ++ m ∷ ns
append_one [] m ns = refl
append_one (k ∷ ms) m ns = ap (λ x. k ∷ x) (append_one ms m ns)

-- Two different keys do not both match a third.
str_eq-differ : (k h g : String) → str_eq k h ≡ false → str_eq k g ≡ true → str_eq h g ≡ false
str_eq-differ k h g other hit = elim (Bool-cases (str_eq h g)) [
  | inl both ↦
      let joined : k ≡ h = (eq_iff k g).0 hit ∙ sym ((eq_iff h g).0 both) in
      absurd (ground (arith, other, (eq_iff k h).1 joined))
  | inr miss ↦ miss
]

push_lem :
    (g h : String) (m : MovementCreatedEvent) (groups : List (String × List MovementCreatedEvent))
    → entry g (push_to h m groups) ≡ entry g groups ++ (if str_eq h g then m ∷ [] else [])
unfolding entry push_to
push_lem g h m [] = refl
push_lem g h m ((k, ms) ∷ rest) = elim (Bool-cases (str_eq k h)) [
  | inl same ↦
      let alike : str_eq k g ≡ str_eq h g = ap (λ x. str_eq x g) ((eq_iff k h).0 same) in
      elim (Bool-cases (str_eq h g)) [
        | inl hit ↦ ground (arith, same, hit, alike)
        | inr miss ↦ ground (arith, same, miss, alike, append_nil (entry g rest))
      ]
  | inr other ↦ elim (Bool-cases (str_eq k g)) [
    | inl hit ↦ ground (arith, other, hit, str_eq-differ k h g other hit, append_nil ms)
    | inr miss ↦ ground (arith, other, miss, push_lem g h m rest)
  ]
]

pushed_lem :
    (g h : String) (m : MovementCreatedEvent) (groups : List (String × List MovementCreatedEvent))
    (ns : List MovementCreatedEvent)
    → entry g (push_to h m groups) ++ ns ≡ entry g groups ++ (if str_eq h g then m ∷ ns else ns)
pushed_lem g h m groups ns = elim (Bool-cases (str_eq h g)) [
  | inl hit ↦ ground (arith, hit, push_lem g h m groups, append_one (entry g groups) m ns)
  | inr miss ↦ ground (arith, miss, push_lem g h m groups, append_nil (entry g groups))
]

-- The test that an entry is the one of a group.
abbrev pub keyed : String → (String × List MovementCreatedEvent) → Bool
keyed g x = str_eq x.0 g

abbrev after : Bool → ℕ → ℕ
after more n = if more && n == 0 then 1 else n

count-push_to :
    (g h : String) (m : MovementCreatedEvent) (groups : List (String × List MovementCreatedEvent))
    → count (keyed g) (push_to h m groups) ≡ after (str_eq h g) (count (keyed g) groups)
unfolding push_to
count-push_to g h m [] = ground arith
count-push_to g h m ((k, ms) ∷ rest) = elim (Bool-cases (str_eq k h)) [
  | inl same ↦
      let alike : str_eq k g ≡ str_eq h g = ap (λ x. str_eq x g) ((eq_iff k h).0 same) in
      ground (arith, same, alike)
  | inr other ↦ elim (Bool-cases (str_eq k g)) [
    | inl hit ↦ ground (arith, other, hit, str_eq-differ k h g other hit, count-push_to g h m rest)
    | inr miss ↦ ground (arith, other, miss, count-push_to g h m rest)
  ]
]

group_lem :
    (d : DirectoryPort) (groups : List (String × List MovementCreatedEvent))
    (ms : List MovementCreatedEvent)
    → all (answers d) ms ≡ true
    → (gs : List (String × List MovementCreatedEvent)) × (group_from d groups ms ≡ some gs)
      × ((g : String)
          → (entry g gs ≡ entry g groups ++ filter (belongs d g) ms)
            × (count (keyed g) gs ≡ after (any (belongs d g) ms) (count (keyed g) groups)))
unfolding group_from
group_lem d groups [] h = (groups, refl, λ g. (sym (append_nil (entry g groups)), refl))
group_lem d groups (m ∷ ms) h = elim (Option-cases (group_of_movement d m)) [
  | inl out ↦ absurd (ground (arith, h, out))
  | inr (found, e) ↦ elim (Option-cases found) [
    | inl nobody ↦
        let e' : group_of_movement d m ≡ some none = e ∙ ap some nobody in
        let (gs, r, f) = group_lem d groups ms (ground (arith, h, e')) in
        (gs, ground (arith, e', r), λ g. (ground (arith, e', (f g).0), ground (arith, e', (f g).1)))
    | inr (k, named) ↦
        let e' : group_of_movement d m ≡ some (some k) = e ∙ ap some named in
        let (gs, r, f) = group_lem d (push_to k m groups) ms (ground (arith, h, e')) in
        (
          gs,
          ground (arith, e', r),
          λ g. (
            ground (arith, e', (f g).0, pushed_lem g k m groups (filter (belongs d g) ms)),
            ground (arith, e', (f g).1, count-push_to g k m groups),
          ),
        )
  ]
]

-- If the directory answers for every movement of a batch, the batch is divided: a group to which
-- some movement belongs has exactly one entry, any other group none, and the entry has exactly the
-- movements that belong to the group, in the order of the batch.
pub group_movements_by_group-Divides :
    (d : DirectoryPort) (ms : List MovementCreatedEvent)
    → all (answers d) ms ≡ true
    → (gs : List (String × List MovementCreatedEvent)) × (group_movements_by_group d ms ≡ some gs)
      × ((g : String)
          → (entry g gs ≡ filter (belongs d g) ms)
            × (count (keyed g) gs ≡ (if any (belongs d g) ms then 1 else 0)))
unfolding group_movements_by_group entry
group_movements_by_group-Divides d ms h =
    let (gs, r, f) = group_lem d [] ms h in (gs, r, λ g. ((f g).0, ground (arith, (f g).1)))
