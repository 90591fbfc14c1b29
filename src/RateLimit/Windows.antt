-- ===== src/RateLimit/Windows.antt =====
-- What the clients see of the limiter: a window for each address, and none of the sweeps.
use aerobi_api.Common.{
  ◌&&◌, ◌||◌, not, ◌==◌, count, all, ◌≡◌, refl, ap, sym, ◌∙◌, Bool, true, false, List, [], ◌∷◌,
  Option, none, some, String, str_eq, eq_iff, eq_refl, ℕ, suc, ◌-◌, ◌≤◌, ◌<◌, ◌⊎◌, leb, ltb,
  if◌then◌else◌, arith, Bool-cases, inl, inr,
}
use aerobi_api.Common.Errors.{Result, ok, err, is_ok}
use aerobi_api.RateLimit.{
  Bucket, Limiter, Call, get, set, is_expired, remove_expired, sweep_expired, admit,
  assert_within_limit, store, run, new_limiter,
}

-- The clock never goes back.
abbrev pub Chronological : ℕ → List Call → Type 0
Chronological t [] = Unit
Chronological t (c ∷ cs) = (t ≤ c.now) × Chronological c.now cs

-- A limiter that keeps an entry for every address and never removes one.
abbrev pub Unswept : Type 0
Unswept = String → Option Bucket

abbrev store_unswept : String → Result Bucket → Unswept → Result (Unit {0}) × Unswept
store_unswept ip (err e) w = (err e, w)
store_unswept ip (ok b) w = (ok tt, λ key. if str_eq ip key then some b else w key)

abbrev pub assert_unswept : Call → Unswept → Result (Unit {0}) × Unswept
assert_unswept c w = store_unswept c.ip (admit (w c.ip) c) w

abbrev pub run_unswept : List Call → Unswept → List (Result (Unit {0}))
run_unswept [] w = []
run_unswept (c ∷ cs) w =
    let done = assert_unswept c w in let rest = run_unswept cs done.1 in done.0 ∷ rest

-- An entry as a call at a given time sees it: an expired one is as good as none.
abbrev live : ℕ → Option Bucket → Option Bucket
live now none = none
live now (some b) = if is_expired now b then none else some b

abbrev Agree : ℕ → Limiter → Unswept → Type 0
Agree t l w = (ip : String) (now : ℕ) → t ≤ now → live now (get l.buckets ip) ≡ live now (w ip)

-- An address has one entry at most.
abbrev IsMap : List (String × Bucket) → Type 0
IsMap [] = Unit
IsMap ((key, b) ∷ bs) = (get bs key ≡ none) × IsMap bs

get-remove-none :
    (t : ℕ) (bs : List (String × Bucket)) (ip : String)
    → get bs ip ≡ none
    → get (remove_expired t bs) ip ≡ none
get-remove-none t [] ip h = refl
get-remove-none t ((key, b) ∷ bs) ip h = ground (arith, get-remove-none t bs ip)

live-get-remove :
    (t now : ℕ) (bs : List (String × Bucket)) (ip : String)
    → IsMap bs
    → t ≤ now
    → live now (get (remove_expired t bs) ip) ≡ live now (get bs ip)
live-get-remove t now [] ip m h = refl
live-get-remove t now ((key, b) ∷ bs) ip (free, m) h = elim (Bool-cases (str_eq key ip)) [
  | inl same ↦ ground (arith, get-remove-none t bs key free, (eq_iff key ip).0 same)
  | inr other ↦ ground (arith, live-get-remove t now bs ip m h)
]

remove-IsMap : (t : ℕ) (bs : List (String × Bucket)) → IsMap bs → IsMap (remove_expired t bs)
remove-IsMap t [] m = tt
remove-IsMap t ((key, b) ∷ bs) (free, m) = elim (Bool-cases (is_expired t b)) [
  | inl out ↦ rw out (remove-IsMap t bs m)
  | inr here ↦ rw here (get-remove-none t bs key free, remove-IsMap t bs m)
]

get-set :
    (bs : List (String × Bucket)) (ip key : String) (b : Bucket)
    → get (set bs ip b) key ≡ (if str_eq ip key then some b else get bs key)
get-set [] ip key b = refl
get-set ((k, b') ∷ bs) ip key b =
    ground (arith, get-set bs ip key b, eq_iff k ip, eq_iff k key, eq_iff ip key)

set-IsMap :
    (bs : List (String × Bucket)) (ip : String) (b : Bucket) → IsMap bs → IsMap (set bs ip b)
set-IsMap [] ip b m = (refl, tt)
set-IsMap ((k, b') ∷ bs) ip b (free, m) = elim (Bool-cases (str_eq k ip)) [
  | inl same ↦ rw same (free, m)
  | inr other ↦
      rw other (ground (arith, get-set bs ip k b, eq_iff ip k, eq_iff k ip), set-IsMap bs ip b m)
]

-- A call decides by the live entry alone.
admit-live : (o : Option Bucket) (c : Call) → admit (live c.now o) c ≡ admit o c
unfolding admit
admit-live none c = refl
admit-live (some b) c = ground arith

sweep-IsMap : (t : ℕ) (l : Limiter) → IsMap l.buckets → IsMap (sweep_expired t l).buckets
unfolding sweep_expired
sweep-IsMap t l m = elim (Bool-cases (ltb t l.next_sweep_at)) [
  | inl wait ↦ rw wait m
  | inr due ↦ rw due (remove-IsMap t l.buckets m)
]

live-sweep :
    (t now : ℕ) (l : Limiter) (ip : String)
    → IsMap l.buckets
    → t ≤ now
    → live now (get (sweep_expired t l).buckets ip) ≡ live now (get l.buckets ip)
unfolding sweep_expired
live-sweep t now l ip m h = ground (arith, live-get-remove t now l.buckets ip m h)

-- One call: the same outcome, and the entries agree again.
store-Agree :
    (c : Call) (r : Result Bucket) (t : ℕ) (l : Limiter) (w : Unswept)
    → IsMap l.buckets
    → Agree t l w
    → ((store c.ip r l).0 ≡ (store_unswept c.ip r w).0)
      × IsMap (store c.ip r l).1.buckets
      × Agree t (store c.ip r l).1 (store_unswept c.ip r w).1
store-Agree c (err e) t l w m a = (refl, m, a)
store-Agree c (ok b) t l w m a = (
  refl,
  set-IsMap l.buckets c.ip b m,
  λ ip now h. ground (arith, get-set l.buckets c.ip ip b, a ip now h),
)

step-Agree :
    (c : Call) (t : ℕ) (l : Limiter) (w : Unswept)
    → IsMap l.buckets
    → Agree t l w
    → t ≤ c.now
    → ((assert_within_limit c l).0 ≡ (assert_unswept c w).0)
      × IsMap (assert_within_limit c l).1.buckets
      × Agree c.now (assert_within_limit c l).1 (assert_unswept c w).1
unfolding assert_within_limit
step-Agree c t l w m a h =
    let swept = sweep_expired c.now l in
    let agree : Agree c.now swept w =
      λ ip now k. live-sweep c.now now l ip m k ∙ a ip now (omega arith) in
    let same : admit (get swept.buckets c.ip) c ≡ admit (w c.ip) c =
      sym (admit-live (get swept.buckets c.ip) c)
      ∙ ap (λ o. admit o c) (agree c.ip c.now (omega arith))
      ∙ admit-live (w c.ip) c in
    rw same (store-Agree c (admit (w c.ip) c) c.now swept w (sweep-IsMap c.now l m) agree)

run-Agree :
    (cs : List Call) (t : ℕ) (l : Limiter) (w : Unswept)
    → IsMap l.buckets
    → Agree t l w
    → Chronological t cs
    → (run cs l).0 ≡ run_unswept cs w
run-Agree [] t l w m a h = refl
run-Agree (c ∷ cs) t l w m a (h, hs) =
    let (same, m', a') = step-Agree c t l w m a h in
    let rest = run-Agree cs c.now (assert_within_limit c l).1 (assert_unswept c w).1 m' a' hs in cc

-- As long as the clock does not go back, every sequence of calls has the outcomes that it would have
-- if no entry were ever removed: no client can tell when a sweep takes place.
pub run-run_unswept :
    (cs : List Call) → Chronological 0 cs → (run cs new_limiter).0 ≡ run_unswept cs (λ ip. none)
run-run_unswept cs h = run-Agree cs 0 new_limiter (λ ip. none) tt (λ ip now k. refl) h

abbrev pub min : ℕ → ℕ → ℕ
min m n = if leb m n then m else n

abbrev pub comes_from : String → Call → Bool
comes_from ip c = str_eq c.ip ip

-- The call falls into a window that ends at `end`, and the route of the address has a given limit.
abbrev pub is_in_window : String → ℕ → ℕ → Call → Bool
is_in_window ip limit end c = leb c.now end && (not (comes_from ip c) || (c.limit == limit))

-- How many calls of an address are let through.
abbrev pub admitted : String → List Call → List (Result (Unit {0})) → ℕ
admitted ip (c ∷ cs) (r ∷ rs) =
    if comes_from ip c && is_ok r then suc (admitted ip cs rs) else admitted ip cs rs
admitted ip _ _ = 0

get-remove-live :
    (t : ℕ) (bs : List (String × Bucket)) (ip : String) (b : Bucket)
    → get bs ip ≡ some b
    → t ≤ b.reset_time
    → get (remove_expired t bs) ip ≡ some b
get-remove-live t [] ip b e h = cc
get-remove-live t ((key, b') ∷ bs) ip b e h = ground (arith, get-remove-live t bs ip b)

get-sweep-live :
    (t : ℕ) (l : Limiter) (ip : String) (b : Bucket)
    → get l.buckets ip ≡ some b
    → t ≤ b.reset_time
    → get (sweep_expired t l).buckets ip ≡ some b
unfolding sweep_expired
get-sweep-live t l ip b e h = ground (arith, get-remove-live t l.buckets ip b e h)

store-other :
    (c : Call) (r : Result Bucket) (l : Limiter) (ip : String)
    → comes_from ip c ≡ false
    → get (store c.ip r l).1.buckets ip ≡ get l.buckets ip
store-other c (err e) l ip o = refl
store-other c (ok b) l ip o = ground (arith, get-set l.buckets c.ip ip b)

-- A call of another address leaves the entry.
step-other :
    (c : Call) (l : Limiter) (ip : String) (b : Bucket)
    → get l.buckets ip ≡ some b
    → c.now ≤ b.reset_time
    → comes_from ip c ≡ false
    → get (assert_within_limit c l).1.buckets ip ≡ some b
unfolding assert_within_limit
step-other c l ip b e h o =
    let swept = sweep_expired c.now l in
    store-other c (admit (get swept.buckets c.ip) c) swept ip o ∙ get-sweep-live c.now l ip b e h

-- A call of the address itself is let through and counts as long as the limit is not reached.
step-own :
    (c : Call) (l : Limiter) (b : Bucket)
    → get l.buckets c.ip ≡ some b
    → c.now ≤ b.reset_time
    → let done = assert_within_limit c l in
      ((is_ok done.0 ≡ true)
        × (b.count < c.limit)
        × (get done.1.buckets c.ip ≡ some (record b { count = suc b.count })))
      ⊎ ((is_ok done.0 ≡ false) × (c.limit ≤ b.count) × (get done.1.buckets c.ip ≡ some b))
unfolding assert_within_limit admit
step-own c l b e h =
    let swept = sweep_expired c.now l in
    let here = get-sweep-live c.now l c.ip b e h in
    let fresh : is_expired c.now b ≡ false = ground arith in
    rw here (
      rw fresh (elim (Bool-cases (leb c.limit b.count)) [
        | inl full ↦ rw full (inr (refl, ground arith, here))
        | inr room ↦
            rw room
              (inl (refl, ground arith, get-set swept.buckets c.ip c.ip _ ∙ rw (eq_refl c.ip) refl))
      ]))

-- From an entry of an address on, and while all calls fall into its window and those of the address
-- have one limit, the address gets through exactly as often as the limit leaves room for, whatever
-- the other addresses do in between.
pub run-admitted :
    (cs : List Call) (l : Limiter) (ip : String) (limit : ℕ) (b : Bucket)
    → get l.buckets ip ≡ some b
    → all (is_in_window ip limit b.reset_time) cs ≡ true
    → admitted ip cs (run cs l).0 ≡ min (count (comes_from ip) cs) (limit - b.count)
run-admitted [] l ip limit b e h = ground arith
run-admitted (c ∷ cs) l ip limit b e h = elim (Bool-cases (comes_from ip c)) [
  | inr other ↦
      let rest =
        run-admitted cs (assert_within_limit c l).1 ip limit b
          (step-other c l ip b e (ground arith) other) (ground arith) in
      ground arith
  | inl own ↦
      let same : c.ip ≡ ip = (eq_iff c.ip ip).0 own in
      elim (step-own c l b (rw same e) (ground arith)) [
        | inl (through, room, now_counted) ↦
            let rest =
              run-admitted cs (assert_within_limit c l).1 ip limit
                (record b { count = suc b.count }) (rw (sym same) now_counted) (ground arith) in
            ground arith
        | inr (refused, full, as_before) ↦
            let rest =
              run-admitted cs (assert_within_limit c l).1 ip limit b (rw (sym same) as_before)
                (ground arith) in
            ground arith
      ]
]
