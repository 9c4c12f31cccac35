-- ===== src/Retry/Examples.antt =====
-- A call that fails twice.
use privibe.Prelude.{ℕ, zero, suc, ◌<◌, ◌≡◌, true, length, arith, String}
use privibe.Prelude.Exec.{Result, ok, err}
use privibe.Retry.{async_retry}
use privibe.Retry.Attempts.{Decides, Retryable, async_retry-Decides}

abbrev third_time : ℕ → Result String ℕ
third_time zero = err "503"
third_time (suc zero) = err "429"
third_time (suc (suc i)) = ok 7

async_retry-Decides_example :
    (i : ℕ) × (i < 3)
    × Decides third_time (λ e. true) 3 i (async_retry third_time (λ e. true) 3).0
    × ((j : ℕ) → j < i → Retryable third_time (λ e. true) j)
    × (length (async_retry third_time (λ e. true) 3).1 ≡ i)
async_retry-Decides_example = async_retry-Decides third_time (λ e. true) 3 (omega arith)
