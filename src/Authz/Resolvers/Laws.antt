-- ===== src/Authz/Resolvers/Laws.antt =====
-- The group of a nested resource is the group of everything that it hangs on.
use aerobi_api.Common.{
  ◌≡◌, refl, Bool, true, ◌&&◌, List, Option, none, some, String, str_eq, arith, find, find_holds,
  find_narrow, eq_iff, subst,
}
use aerobi_api.Authz.Resolvers.{
  GroupScopeSubject, Db, Row, resolve_group, follow, is_active, passes, find_nested, ◌>>=◌,
  group_of_aerodrome, task_is_open,
}

-- The subjects that hang on another subject than an aerodrome.
pub data Hangs : GroupScopeSubject → GroupScopeSubject → Type 0 where
  guess_task : Hangs GroupScopeSubject.guess GroupScopeSubject.task
  task_maintenance : Hangs GroupScopeSubject.task GroupScopeSubject.maintenance
  image_visit : Hangs GroupScopeSubject.technical_visit_image GroupScopeSubject.technical_visit

find_of_follow :
    (q : Row → Bool) (rows : List Row) (id : String) (r : Row)
    → follow rows id ≡ some r
    → q r ≡ true
    → find (λ x. str_eq x.id id && q x) rows ≡ some r
find_of_follow q rows id r e live =
    let hit = find_holds (λ x. str_eq x.id id) rows e in
    find_narrow (λ x. str_eq x.id id) (λ x. str_eq x.id id && q x) rows (λ y h. ground arith) e
      (ground arith)

bind_some :
    {A : Type 0} (o : Option A) (k : A → Option String) {g : String}
    → (o >>= k) ≡ some g
    → (a : A) × (o ≡ some a) × (k a ≡ some g)
bind_some none k h = cc
bind_some (some a) k h = (a, refl, h)

and_parts : (a b c : Bool) → (a && (b && c)) ≡ true → (a ≡ true) × (b ≡ true) × (c ≡ true)
and_parts a b c h = ground arith

passes-some :
    (q : Row → Bool) (o : Option Row) (p : Row) → o ≡ some p → passes q o ≡ true → q p ≡ true
passes-some q none p e h = cc
passes-some q (some p') p e h = let same : p' ≡ p = cc e in subst (λ x. q x ≡ true) same h

nested_parent :
    (q : Row → Bool) (parents rows : List Row) (id g : String) (k : Row → Option String)
    → (find_nested q parents rows id >>= λ r. follow parents r.parent_id >>= k) ≡ some g
    → (r : Row) × (r.id ≡ id)
      × (is_active r ≡ true)
      × ((find (λ p. str_eq p.id r.parent_id && q p) parents >>= k) ≡ some g)
nested_parent q parents rows id g k h =
    let (r, found, h') = bind_some _ _ h in
    let held =
      find_holds (λ r. str_eq r.id id && (is_active r && passes q (follow parents r.parent_id)))
        rows found in
    let (p, parent, h'') = bind_some (follow parents r.parent_id) k h' in
    let (same, live, open') = and_parts _ _ _ held in
    let ok' = passes-some q (follow parents r.parent_id) p parent open' in
    (r, (eq_iff _ _).0 same, live, rw (find_of_follow q parents r.parent_id p parent ok') h'')

-- Whoever may act on a guess by its group may act on its task, and who on a task, on its
-- maintenance: the parent is active and lies in the same group. So do the images of a visit.
pub resolve_group-parent :
    (db : Db) (id g : String) (child parent : GroupScopeSubject)
    → Hangs child parent
    → resolve_group child db id ≡ some g
    → (r : Row) × (r.id ≡ id)
      × (is_active r ≡ true)
      × (resolve_group parent db r.parent_id ≡ some g)
unfolding resolve_group
resolve_group-parent db id g child parent guess_task h =
    nested_parent (task_is_open db) db.tasks db.guesses id g
      (λ t. follow db.maintenances t.parent_id >>= λ m. group_of_aerodrome db m.parent_id) h
resolve_group-parent db id g child parent task_maintenance h =
    nested_parent is_active db.maintenances db.tasks id g (λ m. group_of_aerodrome db m.parent_id) h
resolve_group-parent db id g child parent image_visit h =
    nested_parent is_active db.technical_visits db.technical_visit_images id g
      (λ v. group_of_aerodrome db v.parent_id) h
