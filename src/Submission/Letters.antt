-- ===== src/Submission/Letters.antt =====
-- Whom the letter to the staff reaches, and that it touches nothing else.
use aerobi_api.Common.{
  ◌≡◌, ◌⊎◌, refl, ap, sym, ◌∙◌, inl, inr, Bool, true, false, not, List, [], ◌∷◌, ◌++◌, none, some,
  String, str_eq, eq_iff, eq_refl, arith, any, filter, map, In, is_empty, Bool-cases,
}
use aerobi_api.Authz.Permissions.{UserRole}
use aerobi_api.Landing.Store.{LandingRequest}
use aerobi_api.Submission.Form.{TargetAerodrome}
use aerobi_api.Submission.Prepare.{StaffRow, SubmissionWorld}
use aerobi_api.Submission.{
  SubmissionDb, notify_staff, find_group_staff_emails, is_staff_of, once, send_staff,
}

abbrev pub includes : String → List String → Bool
includes e es = any (str_eq e) es

once-includes :
    (e : String) (seen es : List String)
    → includes e es ≡ true
    → includes e seen ≡ false
    → includes e (once seen es) ≡ true
once-includes e seen [] h k = absurd (cc h)
once-includes e seen (x ∷ es) h k = elim (Bool-cases (str_eq e x)) [
  | inl hit ↦
      let seen' : any (str_eq x) seen ≡ false =
        ap (λ y. any (str_eq y) seen) (sym ((eq_iff e x).0 hit)) ∙ k in
      ground (arith, hit, seen')
  | inr miss ↦ ground (arith, miss, h, k, once-includes e seen es, once-includes e (x ∷ seen) es)
]

-- An active coordinator or operator of the group who has an address.
abbrev pub IsStaff : (String → String) → String → StaffRow → Type 0
IsStaff trim_address group_id u =
    (u.group_id ≡ some group_id)
    × (u.deleted_at ≡ none)
    × ((u.role ≡ UserRole.coordinator) ⊎ (u.role ≡ UserRole.operator))
    × (is_empty (trim_address u.email) ≡ false)

staff-fits :
    (group_id : String) (u : StaffRow)
    → u.group_id ≡ some group_id
    → u.deleted_at ≡ none
    → (u.role ≡ UserRole.coordinator) ⊎ (u.role ≡ UserRole.operator)
    → is_staff_of group_id u ≡ true
staff-fits group_id u group active (inl role) =
    rw (group, active, role) (ground (arith, eq_refl group_id))
staff-fits group_id u group active (inr role) =
    rw (group, active, role) (ground (arith, eq_refl group_id))

staff-includes :
    (trim_address : String → String) (group_id : String) (staff : List StaffRow) (u : StaffRow)
    → In u staff
    → IsStaff trim_address group_id u
    → includes (trim_address u.email) (
        filter
          (λ e. not (is_empty e))
          (map (λ v. trim_address v.email) (filter (is_staff_of group_id) staff)))
      ≡ true
staff-includes trim_address group_id [] u i h = absurd i
staff-includes trim_address group_id (v ∷ staff) u (inl same) h =
    let (group, active, role, address) = h in
    let fits : is_staff_of group_id u ≡ true = staff-fits group_id u group active role in
    let fits' : is_staff_of group_id v ≡ true = ap (is_staff_of group_id) (sym same) ∙ fits in
    let address' : is_empty (trim_address v.email) ≡ false =
      ap (λ x. is_empty (trim_address x.email)) (sym same) ∙ address in
    let named : str_eq (trim_address u.email) (trim_address v.email) ≡ true =
      (eq_iff _ _).1 (ap (λ x. trim_address x.email) same) in
    ground (arith, fits', address', named)
staff-includes trim_address group_id (v ∷ staff) u (inr i) h =
    let rest = staff-includes trim_address group_id staff u i h in
    elim (Bool-cases (is_staff_of group_id v)) [
      | inl fits ↦ elim (Bool-cases (is_empty (trim_address v.email))) [
        | inl blank ↦ ground (arith, fits, blank, rest)
        | inr address ↦ ground (arith, fits, address, rest)
      ]
      | inr out ↦ ground (arith, out, rest)
    ]

module _ (trim_address : String → String) (w : SubmissionWorld) (staff : List StaffRow)
    (r : LandingRequest) (target : TargetAerodrome) where
  abbrev pub told : SubmissionDb → SubmissionDb
  told s = notify_staff trim_address w staff r target s

  -- The letter to the staff touches nothing but the letters.
  pub told-frame : (s : SubmissionDb) → (record (told s) { staff_letters = s.staff_letters } ≡ s)
  unfolding notify_staff
  told-frame s = elim (Bool-cases w.staff_lookup_fails) [
    | inl fails ↦ rw fails refl
    | inr works ↦
        rw works (sent w.staff_sent (find_group_staff_emails trim_address staff target.group_id))
  ]
    where
      sent :
          (b : Bool) (es : List String)
          → record (send_staff trim_address b es r.id s) { staff_letters = s.staff_letters } ≡ s
      sent b [] = refl
      sent false (e ∷ es) = refl
      sent true (e ∷ es) = refl

  pub told-letter :
      (s : SubmissionDb) (u : StaffRow)
      → w.staff_lookup_fails ≡ false
      → w.staff_sent ≡ true
      → In u staff
      → IsStaff trim_address target.group_id u
      → (es : List String) × ((told s).staff_letters ≡ s.staff_letters ++ (es, r.id) ∷ [])
        × (includes (trim_address u.email) es ≡ true)
  unfolding notify_staff find_group_staff_emails
  told-letter s u works sends i h =
      let es = find_group_staff_emails trim_address staff target.group_id in
      let there : includes (trim_address u.email) es ≡ true =
        once-includes (trim_address u.email) [] _
          (staff-includes trim_address target.group_id staff u i h) refl in
      (es, rw (works, sends) (sent es there), there)
    where
      sent :
          (es : List String)
          → includes (trim_address u.email) es ≡ true
          → (send_staff trim_address true es r.id s).staff_letters
            ≡ s.staff_letters ++ (es, r.id) ∷ []
      sent [] k = absurd (cc k)
      sent (e ∷ es) k = refl
