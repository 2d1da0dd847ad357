-- ===== src/Engine/Retry/Tests.antt =====
-- The theorems on retries at concrete operations.
use na_ai.Base.{ℕ, ◌≤◌, ◌≡◌, refl, [], ◌∷◌, arith, ltb, if◌then◌else◌, All}
use na_ai.Base.Result.{Result, ok, err}
use na_ai.Engine.Retry.{Exn, connect_error, http_status, with_retries}
use na_ai.Engine.Retry.Attempts.{Stopped, scripted, with_retries-Stopped, with_retries-delays}

-- Down for two runs, then up.
abbrev flaky : ℕ → Result Exn ℕ
flaky n = if ltb n 2 then err connect_error else ok n

flaky_run : with_retries (scripted flaky) 4 1 16 0 ≡ (ok 2, 3, 1 ∷ 2 ∷ [])
unfolding with_retries
flaky_run = refl

client_error_run :
    with_retries (scripted {A = ℕ} (λ n. err (http_status 404))) 4 1 16 0
    ≡ (err (http_status 404), 1, [])
unfolding with_retries
client_error_run = refl

with_retries-Stopped_example : Stopped flaky 4 0 (with_retries (scripted flaky) 4 1 16 0)
with_retries-Stopped_example = with_retries-Stopped flaky 4 1 16 (omega arith)

with_retries-delays_example :
    All (λ d. d ≤ 3) (with_retries (scripted {A = ℕ} (λ n. err connect_error)) 6 1 3 0).2
with_retries-delays_example =
    with_retries-delays (scripted {A = ℕ} (λ n. err connect_error)) 6 1 3 0
