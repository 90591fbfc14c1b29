-- ===== src/Authz/Permissions/Laws.antt =====
-- What the permission matrix grants, and how the roles compare under it.
use aerobi_api.Common.{
  ◌≡◌, ◌↔◌, refl, Bool, true, false, not, ◌||◌, ◌&&◌, List, [], ◌∷◌, Option, none, some, String,
  str_eq, eq_iff, arith, any, all, is_empty, eq_refl, ap, subst, inl, inr, Bool-cases, sym,
}
use mathlib.Core.List.{Memᴰ}
use aerobi_api.Authz.Permissions.{
  UserRole, AuthzAction, AuthzSubject, can, roles_for, permissions_for_role, role_name, action_name,
  ResolvedPermissions, subjects, subject_name,
}

-- One step up the hierarchy of roles, and any number of them.
pub data Outranks : UserRole → UserRole → Type 0 where
  same_role : {r : UserRole} → Outranks r r
  admin_coordinator : {r : UserRole} → Outranks UserRole.coordinator r → Outranks UserRole.admin r
  coordinator_operator :
      {r : UserRole} → Outranks UserRole.operator r → Outranks UserRole.coordinator r
  coordinator_technical :
      {r : UserRole} → Outranks UserRole.technical r → Outranks UserRole.coordinator r

abbrev implies : Bool → Bool → Bool
implies true b = b
implies false b = true

modus : (a b : Bool) → implies a b ≡ true → a ≡ true → b ≡ true
modus true b h _ = h
modus false b h e = ground arith

abbrev pub is_visit_delete : AuthzSubject → AuthzAction → Bool
is_visit_delete AuthzSubject.technical_visit AuthzAction.delete = true
is_visit_delete _ _ = false

abbrev pub covers : UserRole → UserRole → AuthzSubject → AuthzAction → Bool
covers high low s a = implies (can (some (role_name low)) s a) (can (some (role_name high)) s a)

abbrev actions : List AuthzAction
actions =
    AuthzAction.list ∷ AuthzAction.read ∷ AuthzAction.create ∷ AuthzAction.edit ∷ AuthzAction.update
    ∷ AuthzAction.update_observation ∷ AuthzAction.delete ∷ AuthzAction.decide ∷ AuthzAction.export
    ∷ []

-- A test that passes at each subject of the matrix passes at every subject.
every_subject : (p : AuthzSubject → Bool) (s : AuthzSubject) → all p subjects ≡ true → p s ≡ true
every_subject p AuthzSubject.group h = ground arith
every_subject p _ h = ground arith

every_action : (p : AuthzAction → Bool) (a : AuthzAction) → all p actions ≡ true → p a ≡ true
every_action p AuthzAction.list h = ground arith
every_action p _ h = ground arith

-- A table over subjects and actions, checked by evaluation.
table : (AuthzSubject → AuthzAction → Bool) → Bool
table p = all (λ s. all (p s) actions) subjects

table_sound :
    (p : AuthzSubject → AuthzAction → Bool) (s : AuthzSubject) (a : AuthzAction)
    → table p ≡ true
    → p s a ≡ true
unfolding table
table_sound p s a h = every_action (p s) a (every_subject (λ s'. all (p s') actions) s h)

same : Bool → Bool → Bool
same true b = b
same false b = not b

same_sound : (a b : Bool) → same a b ≡ true → a ≡ b
unfolding same
same_sound a b h = ground arith

covers-table :
    (table (covers UserRole.admin UserRole.coordinator) ≡ true)
    × (table (covers UserRole.coordinator UserRole.operator) ≡ true)
    × (table (covers UserRole.coordinator UserRole.technical) ≡ true)
unfolding table can
covers-table = (refl, refl, refl)

-- A role may do whatever a role below it may: administrators stand above coordinators, and
-- coordinators above operators and above technicians.
can-Outranks :
    {high low : UserRole} (s : AuthzSubject) (a : AuthzAction)
    → Outranks high low
    → can (some (role_name low)) s a ≡ true
    → can (some (role_name high)) s a ≡ true
can-Outranks s a same_role h = h
can-Outranks s a (admin_coordinator o) h =
    modus _ _ (table_sound _ s a covers-table.0) (can-Outranks s a o h)
can-Outranks s a (coordinator_operator o) h =
    modus _ _ (table_sound _ s a covers-table.1) (can-Outranks s a o h)
can-Outranks s a (coordinator_technical o) h =
    modus _ _ (table_sound _ s a covers-table.2) (can-Outranks s a o h)

gap_table :
    table
      (λ s a. same (covers UserRole.operator UserRole.technical s a) (not (is_visit_delete s a)))
    ≡ true
unfolding table same can
gap_table = refl

-- An operator may do whatever a technician may, at every subject and action but one: the removal of
-- a technical visit, which a technician may do and an operator may not.
can-operator_gap :
    (s : AuthzSubject) (a : AuthzAction)
    → covers UserRole.operator UserRole.technical s a ≡ not (is_visit_delete s a)
can-operator_gap s a = same_sound _ _ (table_sound _ s a gap_table)

abbrev lists_action : List AuthzAction → AuthzAction → Bool
lists_action actions a = any (λ b. str_eq (action_name b) (action_name a)) actions

-- Whether the resolved matrix shows an action under a subject.
abbrev pub shows : ResolvedPermissions → AuthzSubject → AuthzAction → Bool
shows [] s a = false
shows ((key, actions) ∷ rest) s a =
    (str_eq (subject_name key) (subject_name s) && lists_action actions a) || shows rest s a

resolved_table :
    (r : UserRole)
    → table (λ s a. same (shows (permissions_for_role r) s a) (can (some (role_name r)) s a)) ≡ true
unfolding table same permissions_for_role can
resolved_table UserRole.admin = refl
resolved_table _ = refl

-- The matrix that a role is handed shows an action under a subject exactly when `can` allows it.
permissions_for_role-can :
    (r : UserRole) (s : AuthzSubject) (a : AuthzAction)
    → shows (permissions_for_role r) s a ≡ can (some (role_name r)) s a
permissions_for_role-can r s a = same_sound _ _ (table_sound _ s a (resolved_table r))

any_role :
    (role : String) (rs : List UserRole)
    → any (λ r. str_eq (role_name r) role) rs ≡ true
    → (r : UserRole) × (role ≡ role_name r) × Memᴰ r rs
any_role role [] h = cc
any_role role (r ∷ rs) h = elim (Bool-cases (str_eq (role_name r) role)) [
  | inl hit ↦ (r, sym ((eq_iff _ _).0 hit), Memᴰ.head refl)
  | inr miss ↦ let (r', e, m) = any_role role rs (rw miss at h) in (r', e, Memᴰ.tail m)
]

role_any :
    (r : UserRole) (rs : List UserRole)
    → Memᴰ r rs
    → any (λ r'. str_eq (role_name r') (role_name r)) rs ≡ true
role_any r [] m = elim m [ ]
role_any r (r' ∷ rs) (Memᴰ.head e) = rw (← e) (rw (eq_refl (role_name r)))
role_any r (r' ∷ rs) (Memᴰ.tail m) = ground (arith, role_any r rs m)

role_name-nonempty : (r : UserRole) → is_empty (role_name r) ≡ false
role_name-nonempty UserRole.admin = refl
role_name-nonempty _ = refl

can-some :
    (role : String) (s : AuthzSubject) (a : AuthzAction)
    → can (some role) s a ≡ true
    → (r : UserRole) × (some role ≡ some (role_name r)) × Memᴰ r (roles_for s a)
unfolding can
can-some role s a h = elim (Bool-cases (is_empty role)) [
  | inl e ↦ absurd (cc (rw (e, can) at h))
  | inr e ↦ let (r, q, m) = any_role role (roles_for s a) (rw (e, can) at h) in (r, ap some q, m)
]

can_named :
    (r : UserRole) (s : AuthzSubject) (a : AuthzAction)
    → Memᴰ r (roles_for s a)
    → can (some (role_name r)) s a ≡ true
unfolding can
can_named r s a m = rw (role_name-nonempty r) (role_any r (roles_for s a) m)

-- A caller is allowed exactly when its role is the name of a role that the matrix lists at the
-- subject and the action: a missing, empty or unknown role is never allowed.
pub can_iff :
    (role : Option String) (s : AuthzSubject) (a : AuthzAction)
    → (can role s a ≡ true)
      ↔ ((r : UserRole) × (role ≡ some (role_name r)) × Memᴰ r (roles_for s a))
unfolding can
can_iff none s a = (λ h. cc h, λ (r, e, m). cc e)
can_iff (some role) s a = (
  λ h. can-some role s a h,
  λ (r, e, m). subst (λ o. can o s a ≡ true) (sym e) (can_named r s a m),
)

pub role_name-injective : (r q : UserRole) → role_name r ≡ role_name q → r ≡ q
role_name-injective UserRole.admin q e = role_name-admin q e
  where
    role_name-admin : (q : UserRole) → "ADMIN" ≡ role_name q → UserRole.admin ≡ q
    role_name-admin UserRole.admin e = refl
    role_name-admin _ e = absurd (cc e)
role_name-injective UserRole.coordinator UserRole.coordinator e = refl
role_name-injective UserRole.operator UserRole.operator e = refl
role_name-injective UserRole.technical UserRole.technical e = refl
role_name-injective _ _ e = absurd (cc e)
