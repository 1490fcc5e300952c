-- ===== src/TaskQueue/Backoff.antt =====
-- `retry_backoff` of backend/src/services/task_queue.rs.
use lan_video.Prelude.{ap, ◌-◌, ℕ, zero, suc, ◌+◌, ◌*◌, ◌^◌, ◌≤◌, ◌≡◌, refl, arith, min}
use lan_video.TaskQueue.{retry_base_delay, retry_max_delay, retry_backoff}

shift_max : (a : ℕ) → 5 ≤ a → min (a - 1) 4 ≡ 4
shift_max a h = omega arith

capped : (a : ℕ) → 5 ≤ a → retry_backoff a ≡ retry_max_delay
unfolding retry_backoff
capped a h = ap (λ x. min (retry_base_delay * 2 ^ x) retry_max_delay) (shift_max a h)

doubles : (n : ℕ) → retry_backoff (suc (suc n)) ≡ min (2 * retry_backoff (suc n)) retry_max_delay
unfolding retry_backoff
doubles zero = refl
doubles (suc zero) = refl
doubles (suc (suc zero)) = refl
doubles (suc (suc (suc zero))) = refl
doubles (suc (suc (suc (suc n)))) =
    rw
      (
        capped (suc (suc (suc (suc (suc n))))) (omega arith),
        capped (suc (suc (suc (suc (suc (suc n)))))) (omega arith),
      )
      refl

-- The wait starts at the base delay, doubles with each failed attempt up to the cap, and from the
-- fifth attempt on it is the cap.
pub retry_backoff-doubles :
    (n : ℕ)
    → (retry_backoff 1 ≡ retry_base_delay)
      × (retry_backoff (suc (suc n)) ≡ min (2 * retry_backoff (suc n)) retry_max_delay)
      × (retry_backoff (n + 5) ≡ retry_max_delay)
unfolding retry_backoff
retry_backoff-doubles n = (refl, doubles n, capped (n + 5) (omega arith))
