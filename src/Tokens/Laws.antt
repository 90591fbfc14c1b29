-- ===== src/Tokens/Laws.antt =====
-- Tokens are good once, and one at a time.
use aerobi_api.Common.{
  ◌≡◌, ◌⊎◌, inl, inr, refl, ap, sym, ◌∙◌, Bool, true, List, [], ◌∷◌, ◌++◌, none, some, String,
  str_eq, eq_refl, ℕ, ◌+◌, ◌≤◌, ◌<◌, leb, any, count, arith, Bool-cases, Option-cases,
}
use aerobi_api.Common.Errors.{HttpError, ErrorCode, ok, err}
use aerobi_api.Accounts.{Accounts, Token, TokenType, update_where}
use aerobi_api.Tokens.{
  same_type, is_open, is_active, newest, find_active_by_subject_and_type, set_used, set_invalid,
  mark_as_used, invalidate_by_subject_and_type, create_token, DrawnToken, compute_expires_at,
  issued_token, create_one_time_token, refused, expired_at, validate,
}

same_type_refl : (t : TokenType) → same_type t t ≡ true
same_type_refl TokenType.otp = refl
same_type_refl _ = refl

newest-none : (p : Token → Bool) (ts : List Token) → count p ts ≡ 0 → newest p ts ≡ none
newest-none p [] h = refl
newest-none p (t ∷ ts) h = ground (arith, newest-none p ts)

newest-holds : (p : Token → Bool) (ts : List Token) {t : Token} → newest p ts ≡ some t → p t ≡ true
newest-holds p [] e = cc
newest-holds p (u ∷ ts) {t} e = elim (Option-cases (newest p ts)) [
  | inl out ↦ ground (arith, out)
  | inr (v, here) ↦ ground (arith, here, newest-holds p ts here)
]

newest-here :
    (p : Token → Bool) (ts : List Token) {t : Token}
    → newest p ts ≡ some t
    → any (λ u. str_eq u.id t.id) ts ≡ true
newest-here p [] e = cc
newest-here p (u ∷ ts) {t} e = elim (Option-cases (newest p ts)) [
  | inl out ↦ ground (arith, out, eq_refl t.id)
  | inr (v, here) ↦ ground (arith, here, newest-here p ts here, eq_refl t.id)
]

newest-append :
    (p : Token → Bool) (ts : List Token) (t : Token)
    → count p ts ≡ 0
    → p t ≡ true
    → newest p (ts ++ t ∷ []) ≡ some t
newest-append p [] t h k = ground arith
newest-append p (u ∷ ts) t h k = ground (arith, newest-append p ts t)

module _ (subject_id : String) (type : TokenType) where
  -- What is active is open.
  active-open :
      (now : ℕ) (ts : List Token)
      → count (is_open subject_id type) ts ≡ 0
      → count (is_active now subject_id type) ts ≡ 0
  active-open now [] h = refl
  active-open now (t ∷ ts) h = ground (arith, active-open now ts)

  invalid-open :
      (now : ℕ) (ts : List Token)
      → count
          (is_open subject_id type)
          (update_where (is_open subject_id type) (set_invalid now) ts)
        ≡ 0
  invalid-open now [] = refl
  invalid-open now (t ∷ ts) = ground (arith, invalid-open now ts)

  -- A use opens nothing.
  used-closed :
      (id : String) (ts : List Token)
      → count (is_open subject_id type) ts ≡ 0
      → count (is_open subject_id type) (update_where (λ u. str_eq u.id id) set_used ts) ≡ 0
  used-closed id [] h = refl
  used-closed id (u ∷ ts) h = ground (arith, used-closed id ts)

  -- The use of the newest active token closes the only one that is open.
  used-open :
      (now : ℕ) (ts : List Token) (t : Token)
      → count (is_open subject_id type) ts ≤ 1
      → newest (is_active now subject_id type) ts ≡ some t
      → count (is_open subject_id type) (update_where (λ u. str_eq u.id t.id) set_used ts) ≡ 0
  used-open now [] t h e = cc
  used-open now (u ∷ ts) t h e = elim (Bool-cases (is_open subject_id type u)) [
    | inl open' ↦
        let alone : count (is_open subject_id type) ts ≡ 0 = ground arith in
        let rest = newest-none (is_active now subject_id type) ts (active-open now ts alone) in
        let same : u ≡ t = ground (arith, rest) in
        let hit : str_eq u.id t.id ≡ true = rw same (eq_refl t.id) in
        ground (arith, used-closed t.id ts alone, hit)
    | inr shut ↦ ground (arith, used-open now ts t)
  ]

  count-append :
      (ts : List Token) (t : Token)
      → count (is_open subject_id type) (ts ++ t ∷ [])
        ≡ count (is_open subject_id type) ts + count (is_open subject_id type) (t ∷ [])
  count-append [] t = ground arith
  count-append (u ∷ ts) t = ground (arith, count-append ts t)

  open-one :
      (t : Token) → is_open subject_id type t ≡ true → count (is_open subject_id type) (t ∷ []) ≡ 1
  open-one t h = ground arith

  created :
      (d : DrawnToken) (minutes : ℕ) (s s' : Accounts) (plain : String) (t : Token)
      → create_one_time_token d subject_id type minutes s ≡ (ok (plain, t), s')
      → (plain ≡ d.plain)
        × (t ≡ issued_token d subject_id type minutes)
        × (s'.tokens
            ≡ update_where (is_open subject_id type) (set_invalid d.now) s.tokens
              ++ issued_token d subject_id type minutes ∷ [])
  unfolding create_one_time_token create_token invalidate_by_subject_and_type
  created d minutes s s' plain t e =
      elim (Bool-cases (
        any (λ u. str_eq u.id d.id)
          (update_where (is_open subject_id type) (set_invalid d.now) s.tokens))) [
            | inl taken ↦ absurd (cc (ap (λ p. p.0) (rw taken at e)))
            | inr free ↦
                let e' = rw free at e in
                (cc (ap (λ p. p.0) e'), cc (ap (λ p. p.0) e'), sym (ap (λ p. p.1.tokens) e'))
          ]

  -- After the creation of a token it is the only open one of its subject and type, whatever was open
  -- before, and until it expires it is the one that is found.
  pub create-alone :
      (d : DrawnToken) (minutes now : ℕ) (s s' : Accounts) (plain : String) (t : Token)
      → create_one_time_token d subject_id type minutes s ≡ (ok (plain, t), s')
      → now < compute_expires_at d.now minutes
      → (plain ≡ d.plain)
        × (t ≡ issued_token d subject_id type minutes)
        × (count (is_open subject_id type) s'.tokens ≡ 1)
        × (find_active_by_subject_and_type now subject_id type s' ≡ some t)
  unfolding find_active_by_subject_and_type
  create-alone d minutes now s s' plain t e h =
      let closed = update_where (is_open subject_id type) (set_invalid d.now) s.tokens in
      let new = issued_token d subject_id type minutes in
      let good : is_open subject_id type new ≡ true =
        ground (arith, eq_refl subject_id, same_type_refl type) in
      let none_open = invalid-open d.now s.tokens in
      let (same, same', rows) = created d minutes s s' plain t e in
      (
        same,
        same',
        rw rows (count-append closed new ∙ ground (arith, none_open, open-one new good)),
        rw (rows, same')
            (newest-append (is_active now subject_id type) closed new
              (active-open now closed none_open) (ground arith)),
      )

  module _ (compare_token : String → String → Bool) (to_iso_string : ℕ → String) where
    -- The text that a creation hands out passes for its subject and type until it expires, if bcrypt
    -- recognises it by its hash.
    pub validate-create :
        (d : DrawnToken) (minutes now now' : ℕ) (s s' : Accounts) (plain : String) (t : Token)
        → create_one_time_token d subject_id type minutes s ≡ (ok (plain, t), s')
        → compare_token d.plain d.token_hash ≡ true
        → now < compute_expires_at d.now minutes
        → now' < compute_expires_at d.now minutes
        → validate compare_token to_iso_string now now' plain subject_id type s' ≡ (ok t, s')
    unfolding validate
    validate-create d minutes now now' s s' plain t e c h h' =
        let (same, same', one, found) = create-alone d minutes now s s' plain t e h in
        rw found (ground (arith, same, same'))

    pub validate_found :
        (now now' : ℕ) (plain : String) (s s' : Accounts) (t : Token)
        → validate compare_token to_iso_string now now' plain subject_id type s ≡ (ok t, s')
        → (s' ≡ s) × (find_active_by_subject_and_type now subject_id type s ≡ some t)
    unfolding validate
    validate_found now now' plain s s' t e = ground arith

    pub validate_none :
        (now now' : ℕ) (plain : String) (s : Accounts)
        → count (is_open subject_id type) s.tokens ≡ 0
        → validate compare_token to_iso_string now now' plain subject_id type s
          ≡ (err (refused ErrorCode.invalid_token), s)
    unfolding validate find_active_by_subject_and_type
    validate_none now now' plain s h =
        rw (newest-none (is_active now subject_id type) s.tokens (active-open now s.tokens h)) refl

    -- The use of a token that was found good leaves none open.
    pub used_closes :
        (now now' : ℕ) (plain : String) (s s' : Accounts) (t : Token)
        → count (is_open subject_id type) s.tokens ≤ 1
        → validate compare_token to_iso_string now now' plain subject_id type s ≡ (ok t, s')
        → count (is_open subject_id type) (mark_as_used t.id s').1.tokens ≡ 0
    unfolding mark_as_used find_active_by_subject_and_type
    used_closes now now' plain s s' t one e =
        let (same, found) = validate_found now now' plain s s' t e in
        let here = newest-here (is_active now subject_id type) s.tokens found in
        rw (ap (λ x. x.tokens) same) (rw here (used-open now s.tokens t one found))

    -- A token is good once: where one token at most of a subject and type is open, whoever presents
    -- any text for them after a token was found good and marked as used is refused.
    pub validate-mark_as_used :
        (now now' again again' : ℕ) (plain other : String) (s s' : Accounts) (t : Token)
        → count (is_open subject_id type) s.tokens ≤ 1
        → validate compare_token to_iso_string now now' plain subject_id type s ≡ (ok t, s')
        → let after = (mark_as_used t.id s').1 in
          validate compare_token to_iso_string again again' other subject_id type after
          ≡ (err (refused ErrorCode.invalid_token), after)
    validate-mark_as_used now now' again again' plain other s s' t one e =
        validate_none again again' other (mark_as_used t.id s').1
          (used_closes now now' plain s s' t one e)

    -- A refusal says that the token is invalid, unless the token expires between the two readings of
    -- the clock. No caller ever hears that a token was used before.
    validate_err :
        (now now' : ℕ) (plain : String) (s s' : Accounts) (e : HttpError)
        → validate compare_token to_iso_string now now' plain subject_id type s ≡ (err e, s')
        → (s' ≡ s)
          × ((e ≡ refused ErrorCode.invalid_token)
              ⊎ ((t : Token) × (now < t.expires_at)
                  × (t.expires_at ≤ now')
                  × (e ≡ expired_at (to_iso_string t.expires_at))))
    unfolding validate find_active_by_subject_and_type
    validate_err now now' plain s s' e h =
        elim (Option-cases (newest (is_active now subject_id type) s.tokens)) [
          | inl out ↦ ground (arith, out)
          | inr (t, here) ↦
              let active = newest-holds (is_active now subject_id type) s.tokens here in
              elim (Bool-cases (compare_token plain t.token_hash)) [
                | inr differs ↦ ground (arith, here, differs)
                | inl matches ↦ elim (Bool-cases (leb t.expires_at now')) [
                  | inr fresh ↦ absurd (ground (arith, here, matches, fresh))
                  | inl over ↦ (
                    ground (arith, here, matches, over),
                    inr (t, ground arith, ground arith, ground (arith, here, matches, over)),
                  )
                ]
              ]
        ]
