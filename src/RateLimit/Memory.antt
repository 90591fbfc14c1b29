-- ===== src/RateLimit/Memory.antt =====
-- What the limiter keeps: the sweeps bound how long an entry outlives its window.
use aerobi_api.Common.{
  ◌≡◌, refl, Bool, true, List, [], ◌∷◌, Option, none, some, String, ℕ, ◌+◌, ◌≤◌, leb, ltb, arith,
  Bool-cases, inl, inr, all, ◌⊎◌, Option-cases,
}
use aerobi_api.Common.Errors.{Result, ok, err}
use aerobi_api.RateLimit.{
  Bucket, Limiter, Call, get, set, remove_expired, sweep_expired, admit, assert_within_limit, store,
  run, new_limiter, sweep_interval_ms,
}
use aerobi_api.RateLimit.Windows.{Chronological}

-- The window of the entry ends at `t` or later, an interval added.
abbrev pub is_recent : ℕ → (String × Bucket) → Bool
is_recent t e = leb t (e.1.reset_time + sweep_interval_ms)

abbrev pub last_time : ℕ → List Call → ℕ
last_time t [] = t
last_time t (c ∷ cs) = last_time c.now cs

-- The next sweep is due within an interval, and no entry ended its window more than an interval
-- before it.
record IsTidy (t : ℕ) (l : Limiter) : Type 0 where
  not_past : t ≤ l.next_sweep_at
  soon : l.next_sweep_at ≤ t + sweep_interval_ms
  recent : all (is_recent l.next_sweep_at) l.buckets ≡ true

remove-recent :
    (t : ℕ) (bs : List (String × Bucket))
    → all (is_recent (t + sweep_interval_ms)) (remove_expired t bs) ≡ true
remove-recent t [] = refl
remove-recent t ((key, b) ∷ bs) = ground (arith, remove-recent t bs)

set-recent :
    (t : ℕ) (bs : List (String × Bucket)) (ip : String) (b : Bucket)
    → all (is_recent t) bs ≡ true
    → is_recent t (ip, b) ≡ true
    → all (is_recent t) (set bs ip b) ≡ true
set-recent t [] ip b h k = ground arith
set-recent t ((key, b') ∷ bs) ip b h k = ground (arith, set-recent t bs ip b)

get-recent :
    (t : ℕ) (bs : List (String × Bucket)) (ip : String) (b : Bucket)
    → all (is_recent t) bs ≡ true
    → get bs ip ≡ some b
    → is_recent t (ip, b) ≡ true
get-recent t [] ip b h e = cc
get-recent t ((key, b') ∷ bs) ip b h e = ground (arith, get-recent t bs ip b)

all-weaken :
    (t t' : ℕ) (bs : List (String × Bucket))
    → t' ≤ t
    → all (is_recent t) bs ≡ true
    → all (is_recent t') bs ≡ true
all-weaken t t' [] h k = refl
all-weaken t t' ((key, b) ∷ bs) h k = ground (arith, all-weaken t t' bs)

sweep-IsTidy : (t now : ℕ) (l : Limiter) → t ≤ now → IsTidy t l → IsTidy now (sweep_expired now l)
unfolding sweep_expired
sweep-IsTidy t now l h tidy = elim (Bool-cases (ltb now l.next_sweep_at)) [
  | inl wait ↦
      rw wait
        (record { not_past = ground arith; soon = omega (arith, tidy.soon); recent = tidy.recent })
  | inr due ↦
      rw due (record {
        not_past = omega arith;
        soon = omega arith;
        recent = remove-recent now l.buckets;
      })
]

-- What a call writes into the entry of its address is recent.
admit-recent :
    (o : Option Bucket) (c : Call) (t : ℕ) (b : Bucket)
    → t ≤ c.now + sweep_interval_ms
    → admit o c ≡ ok b
    → (o ≡ none) ⊎ ((b' : Bucket) × (o ≡ some b') × (is_recent t (c.ip, b') ≡ true))
    → is_recent t (c.ip, b) ≡ true
unfolding admit
admit-recent none c t b h e k = ground arith
admit-recent (some b') c t b h e k = ground arith

store-IsTidy :
    (c : Call) (r : Result Bucket) (l : Limiter)
    → IsTidy c.now l
    → ((b : Bucket) → r ≡ ok b → is_recent l.next_sweep_at (c.ip, b) ≡ true)
    → IsTidy c.now (store c.ip r l).1
store-IsTidy c (err e) l tidy k = tidy
store-IsTidy c (ok b) l tidy k = record {
  not_past = tidy.not_past;
  soon = tidy.soon;
  recent = set-recent l.next_sweep_at l.buckets c.ip b tidy.recent (k b refl);
}

call-IsTidy :
    (c : Call) (t : ℕ) (l : Limiter)
    → t ≤ c.now
    → IsTidy t l
    → IsTidy c.now (assert_within_limit c l).1
unfolding assert_within_limit
call-IsTidy c t l h tidy =
    let swept = sweep_expired c.now l in
    let tidy' = sweep-IsTidy t c.now l h tidy in
    store-IsTidy c (admit (get swept.buckets c.ip) c) swept tidy' λ b e.
      admit-recent (get swept.buckets c.ip) c swept.next_sweep_at b tidy'.soon e
        (elim (Option-cases (get swept.buckets c.ip)) [
          | inl out ↦ inl out
          | inr (b', here) ↦
              inr (b', here, get-recent swept.next_sweep_at swept.buckets c.ip b' tidy'.recent here)
        ])

run-IsTidy :
    (cs : List Call) (t : ℕ) (l : Limiter)
    → Chronological t cs
    → IsTidy t l
    → IsTidy (last_time t cs) (run cs l).1
run-IsTidy [] t l h tidy = tidy
run-IsTidy (c ∷ cs) t l (h, hs) tidy =
    run-IsTidy cs c.now (assert_within_limit c l).1 hs (call-IsTidy c t l h tidy)

-- After every sequence of calls on a clock that does not go back, no entry is left whose window
-- ended more than one sweep interval before the last call.
run-recent :
    (cs : List Call)
    → Chronological 0 cs
    → all (is_recent (last_time 0 cs)) (run cs new_limiter).1.buckets ≡ true
run-recent cs h =
    let tidy =
      run-IsTidy cs 0 new_limiter h
        (record { not_past = omega arith; soon = omega arith; recent = refl }) in
    all-weaken (run cs new_limiter).1.next_sweep_at (last_time 0 cs) (run cs new_limiter).1.buckets
      tidy.not_past tidy.recent
