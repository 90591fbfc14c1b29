-- ===== src/RateLimit/Tests.antt =====
-- The limiter on sample calls: two addresses, a limit of two calls for each second.
use aerobi_api.Common.{◌≡◌, refl, List, [], ◌∷◌, none, String, ℕ, arith, count}
use aerobi_api.RateLimit.{Bucket, Limiter, Call, run, new_limiter}
use aerobi_api.RateLimit.Windows.{
  run-run_unswept, run-admitted, run_unswept, Chronological, admitted, min, comes_from,
}

abbrev call : String → ℕ → Call
call ip now = record { ip = ip; limit = 2; window_ms = 1000; now = now }

abbrev sample_calls : List Call
sample_calls =
    call "10.0.0.1" 100000
    ∷ call "10.0.0.2" 100300
    ∷ call "10.0.0.1" 100500
    ∷ call "10.0.0.1" 170000
    ∷ []

sample-Chronological : Chronological 0 sample_calls
sample-Chronological = (omega arith, (omega arith, (omega arith, (omega arith, tt))))

unswept_example : (run sample_calls new_limiter).0 ≡ run_unswept sample_calls (λ ip. none)
unswept_example = run-run_unswept sample_calls sample-Chronological

abbrev once_seen : Bucket
once_seen = record { count = 1; reset_time = 2000 }

abbrev sample_limiter : Limiter
sample_limiter = record { buckets = ("10.0.0.1", once_seen) ∷ []; next_sweep_at = 1500 }

abbrev window_calls : List Call
window_calls =
    call "10.0.0.1" 1100 ∷ call "10.0.0.2" 1600 ∷ call "10.0.0.1" 1700 ∷ call "10.0.0.1" 1800 ∷ []

admitted_example :
    admitted "10.0.0.1" window_calls (run window_calls sample_limiter).0
    ≡ min (count (comes_from "10.0.0.1") window_calls) 1
admitted_example = run-admitted window_calls sample_limiter "10.0.0.1" 2 once_seen refl refl
