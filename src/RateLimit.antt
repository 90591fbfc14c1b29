-- ===== src/RateLimit.antt =====
-- src/common/services/in-memory-ip-rate-limiter.service.ts: the limiter of the public routes, a fixed
-- window for each address. The map keeps its entries in the order in which they were set.
pub mod Windows
pub mod Memory
mod Tests
use aerobi_api.Common.{
  ◌≡◌, Bool, true, false, ◌||◌, not, ◌&&◌, List, [], ◌∷◌, Option, none, some, String, str_eq, ℕ,
  zero, suc, ◌+◌, leb, ltb, if◌then◌else◌, filter, map, any, length,
}
use aerobi_api.Common.Errors.{HttpError, HttpStatus, ErrorCode, Result, ok, err, http_error}

pub record Bucket : Type 0 where
  pub count : ℕ
  pub reset_time : ℕ

pub record Limiter : Type 0 where
  pub buckets : List (String × Bucket)
  pub next_sweep_at : ℕ

-- One call: the address, the limit and the window of its route, and the reading of the clock.
pub record Call : Type 0 where
  pub ip : String
  pub limit : ℕ
  pub window_ms : ℕ
  pub now : ℕ

abbrev pub default_limit : ℕ
default_limit = 10

abbrev pub default_window_ms : ℕ
default_window_ms = 60000

abbrev pub sweep_interval_ms : ℕ
sweep_interval_ms = 60000

abbrev pub get : List (String × Bucket) → String → Option Bucket
get [] ip = none
get ((key, bucket) ∷ rest) ip = if str_eq key ip then some bucket else get rest ip

abbrev pub set : List (String × Bucket) → String → Bucket → List (String × Bucket)
set [] ip b = (ip, b) ∷ []
set ((key, bucket) ∷ rest) ip b =
    if str_eq key ip then (key, b) ∷ rest else (key, bucket) ∷ set rest ip b

abbrev pub is_expired : ℕ → Bucket → Bool
is_expired now b = ltb b.reset_time now

abbrev pub remove_expired : ℕ → List (String × Bucket) → List (String × Bucket)
remove_expired now [] = []
remove_expired now ((key, bucket) ∷ rest) =
    if is_expired now bucket
    then remove_expired now rest
    else (key, bucket) ∷ remove_expired now rest

unfoldable pub sweep_expired : ℕ → Limiter → Limiter
sweep_expired now l =
    if ltb now l.next_sweep_at
    then l
    else record { buckets = remove_expired now l.buckets; next_sweep_at = now + sweep_interval_ms }

abbrev pub too_many : HttpError
too_many =
    http_error HttpStatus.too_many_requests ErrorCode.validation_failed
      (("DETAILS", "Muitas requisições. Tente novamente em alguns minutos.") ∷ [])

-- What the call does with the entry of its address: the new entry, or a refusal.
unfoldable pub admit : Option Bucket → Call → Result Bucket
admit none c = ok (record { count = 1; reset_time = c.now + c.window_ms })
admit (some b) c =
    if is_expired c.now b
    then ok (record { count = 1; reset_time = c.now + c.window_ms })
    else if leb c.limit b.count
    then err too_many
    else ok (record b { count = suc b.count })

abbrev store : String → Result Bucket → Limiter → Result (Unit {0}) × Limiter
store ip (err e) l = (err e, l)
store ip (ok b) l = (ok tt, record l { buckets = set l.buckets ip b })

unfoldable pub assert_within_limit : Call → Limiter → Result (Unit {0}) × Limiter
assert_within_limit c l =
    let swept = sweep_expired c.now l in store c.ip (admit (get swept.buckets c.ip) c) swept

abbrev pub size : Limiter → ℕ
size l = length l.buckets

abbrev pub new_limiter : Limiter
new_limiter = record { buckets = []; next_sweep_at = 0 }

-- The outcomes of a sequence of calls, in order, and the limiter after them.
abbrev pub run : List Call → Limiter → List (Result (Unit {0})) × Limiter
run [] l = ([], l)
run (c ∷ cs) l =
    let done = assert_within_limit c l in let rest = run cs done.1 in (done.0 ∷ rest.0, rest.1)
