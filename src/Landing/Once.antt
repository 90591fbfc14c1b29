-- ===== src/Landing/Once.antt =====
-- What holds of the decisions: each request is decided at most once, however its deciders interleave.
use aerobi_api.Common.{
  ◌≡◌, inl, inr, refl, ◌∙◌, Bool, true, false, not, ◌&&◌, List, [], ◌∷◌, ◌++◌, String, str_eq,
  eq_iff, ℕ, suc, ◌==◌, ◌≤◌, if◌then◌else◌, arith, any, all, count, Bool-cases, Option-cases,
}
use aerobi_api.Landing.Store.{
  LandingRequest, LandingDb, Decision, is_pending, is_active_row, is_pending_row, update_rows,
  decided, removed, find_by_id, update_if_pending, soft_delete, insert_request,
}

-- A statement that some service under way sends to the database.
pub data Statement : Type 0 where
  decides : String → Decision → Statement
  removes : String → String → ℕ → Statement
  inserts : LandingRequest → Statement

-- The number of rows that a decision of the request changed, and the database after the statement.
abbrev execute : Statement → LandingDb → ℕ × LandingDb
execute (decides id d) s = update_if_pending id d s
execute (removes id by now) s = (0, (soft_delete id by now s).1)
execute (inserts r) s = (0, (insert_request r s).1)

abbrev concerns : String → Statement → Bool
concerns id (decides id' d) = str_eq id' id
concerns id _ = false

-- How many of the decisions of a request are told that they changed its row.
abbrev pub wins : String → List Statement → LandingDb → ℕ
wins id [] s = 0
wins id (x ∷ xs) s =
    let done = execute x s in
    let rest = wins id xs done.1 in if concerns id x && not (done.0 == 0) then suc rest else rest

-- A decision is an approval or a refusal.
abbrev pub is_answer : Statement → Bool
is_answer (decides id d) = not (is_pending d.decision)
is_answer (removes id by now) = true
is_answer (inserts r) = true

-- The request exists and is not pending.
record IsClosed (id : String) (rs : List LandingRequest) : Type 0 where
  here : any (λ r. str_eq r.id id) rs ≡ true
  none_pending : count (is_pending_row id) rs ≡ 0

module _ (p : LandingRequest → Bool) (f : LandingRequest → LandingRequest) where
  update-here :
      (rs : List LandingRequest) (id : String)
      → ((r : LandingRequest) → (f r).id ≡ r.id)
      → any (λ r. str_eq r.id id) (update_rows p f rs) ≡ any (λ r. str_eq r.id id) rs
  update-here [] id k = refl
  update-here (r ∷ rs) id k = ground (arith, k r, update-here rs id k)

  -- A change that makes no row pending leaves none pending.
  update-none_pending :
      (rs : List LandingRequest) (id : String)
      → ((r : LandingRequest) → is_pending_row id (f r) ≡ true → is_pending_row id r ≡ true)
      → count (is_pending_row id) rs ≡ 0
      → count (is_pending_row id) (update_rows p f rs) ≡ 0
  update-none_pending [] id k h = refl
  update-none_pending (r ∷ rs) id k h = ground (arith, k r, update-none_pending rs id k)

decide-none_pending :
    (id : String) (d : Decision) (rs : List LandingRequest)
    → not (is_pending d.decision) ≡ true
    → count (is_pending_row id) (update_rows (is_pending_row id) (decided d) rs) ≡ 0
decide-none_pending id d [] h = refl
decide-none_pending id d (r ∷ rs) h = ground (arith, decide-none_pending id d rs h)

count-here :
    (id : String) (rs : List LandingRequest)
    → not (count (is_pending_row id) rs == 0) ≡ true
    → any (λ r. str_eq r.id id) rs ≡ true
count-here id [] h = cc
count-here id (r ∷ rs) h = ground (arith, count-here id rs)

insert-none_pending :
    (rs : List LandingRequest) (r : LandingRequest) (id : String)
    → count (is_pending_row id) rs ≡ 0
    → str_eq r.id id ≡ false
    → count (is_pending_row id) (rs ++ r ∷ []) ≡ 0
insert-none_pending [] r id h k = ground arith
insert-none_pending (q ∷ rs) r id h k = ground (arith, insert-none_pending rs r id)

insert-here :
    (rs : List LandingRequest) (r : LandingRequest) (id : String)
    → any (λ q. str_eq q.id id) rs ≡ true
    → any (λ q. str_eq q.id id) (rs ++ r ∷ []) ≡ true
insert-here [] r id h = cc
insert-here (q ∷ rs) r id h = ground (arith, insert-here rs r id)

-- A closed request stays closed under every statement.
decide-IsClosed :
    (id id' : String) (d : Decision) (s : LandingDb)
    → not (is_pending d.decision) ≡ true
    → IsClosed id s.requests
    → IsClosed id (update_if_pending id' d s).1.requests
unfolding update_if_pending
decide-IsClosed id id' d s a c = record {
  here = update-here (is_pending_row id') (decided d) s.requests id (λ r. refl) ∙ c.here;
  none_pending =
      update-none_pending (is_pending_row id') (decided d) s.requests id (λ r h. ground arith)
        c.none_pending;
}

remove-IsClosed :
    (id id' by : String) (now : ℕ) (s : LandingDb)
    → IsClosed id s.requests
    → IsClosed id (soft_delete id' by now s).1.requests
unfolding soft_delete
remove-IsClosed id id' by now s c = elim (Option-cases (find_by_id s id')) [
  | inl out ↦ rw out c
  | inr (r, here) ↦ rw here (record {
    here = update-here (is_active_row id') (removed by now) s.requests id (λ q. refl) ∙ c.here;
    none_pending =
        update-none_pending (is_active_row id') (removed by now) s.requests id (λ q h. ground arith)
          c.none_pending;
  })
]

insert-IsClosed :
    (id : String) (r : LandingRequest) (s : LandingDb)
    → IsClosed id s.requests
    → IsClosed id (insert_request r s).1.requests
unfolding insert_request
insert-IsClosed id r s c = elim (Bool-cases (any (λ q. str_eq q.id r.id) s.requests)) [
  | inl taken ↦ rw taken c
  | inr free ↦ elim (Bool-cases (str_eq r.id id)) [
    | inl same ↦ absurd (ground (arith, (eq_iff r.id id).0 same, c.here))
    | inr other ↦ rw free (record {
      here = insert-here s.requests r id c.here;
      none_pending = insert-none_pending s.requests r id c.none_pending other;
    })
  ]
]

execute-IsClosed :
    (id : String) (x : Statement) (s : LandingDb)
    → is_answer x ≡ true
    → IsClosed id s.requests
    → IsClosed id (execute x s).1.requests
execute-IsClosed id (decides id' d) s a c = decide-IsClosed id id' d s a c
execute-IsClosed id (removes id' by now) s a c = remove-IsClosed id id' by now s c
execute-IsClosed id (inserts r) s a c = insert-IsClosed id r s c

-- And no decision of it is told that it changed a row.
loses_when_closed :
    (id : String) (x : Statement) (s : LandingDb)
    → IsClosed id s.requests
    → (concerns id x && not ((execute x s).0 == 0)) ≡ false
unfolding update_if_pending
loses_when_closed id (decides id' d) s c = elim (Bool-cases (str_eq id' id)) [
  | inl same ↦ rw ((eq_iff id' id).0 same) (ground (arith, c.none_pending))
  | inr other ↦ rw other refl
]
loses_when_closed id (removes id' by now) s c = refl
loses_when_closed id (inserts r) s c = refl

wins_when_closed :
    (id : String) (xs : List Statement) (s : LandingDb)
    → all is_answer xs ≡ true
    → IsClosed id s.requests
    → wins id xs s ≡ 0
wins_when_closed id [] s a c = refl
wins_when_closed id (x ∷ xs) s a c =
    let rest =
      wins_when_closed id xs (execute x s).1 (ground arith)
        (execute-IsClosed id x s (ground arith) c) in
    rw (loses_when_closed id x s c) rest

-- A decision that changed a row closes the request.
win_closes :
    (id : String) (x : Statement) (s : LandingDb)
    → is_answer x ≡ true
    → (concerns id x && not ((execute x s).0 == 0)) ≡ true
    → IsClosed id (execute x s).1.requests
unfolding update_if_pending
win_closes id (decides id' d) s a h = elim (Bool-cases (str_eq id' id)) [
  | inl same ↦
      let eq : id' ≡ id = (eq_iff id' id).0 same in
      let won : not (count (is_pending_row id) s.requests == 0) ≡ true = ground (arith, eq) in
      rw eq (record {
        here =
            update-here (is_pending_row id) (decided d) s.requests id (λ r. refl)
            ∙ count-here id s.requests won;
        none_pending = decide-none_pending id d s.requests a;
      })
  | inr other ↦ absurd (ground arith)
]
win_closes id (removes id' by now) s a h = absurd (cc h)
win_closes id (inserts r) s a h = absurd (cc h)

-- However the statements of any number of deciders, removals and submissions interleave, at most one
-- decision of a request is told that it changed the request's row, if every decision is an approval
-- or a refusal.
pub wins-once :
    (id : String) (xs : List Statement) (s : LandingDb) → all is_answer xs ≡ true → wins id xs s ≤ 1
wins-once id [] s a = omega arith
wins-once id (x ∷ xs) s a = elim (Bool-cases (concerns id x && not ((execute x s).0 == 0))) [
  | inl won ↦
      let rest =
        wins_when_closed id xs (execute x s).1 (ground arith)
          (win_closes id x s (ground arith) won) in
      rw won (ground arith)
  | inr lost ↦ rw lost (wins-once id xs (execute x s).1 (ground arith))
]
