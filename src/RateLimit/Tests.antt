-- ===== src/RateLimit/Tests.antt =====
-- Runs of the limiter at chosen inputs.
use lan_video.Prelude.{ℕ, ◌≡◌, refl, none, arith, List, [], ◌∷◌}
use lan_video.Prelude.Assoc.{lookup, string_Eq}
use lan_video.RateLimit.{Slot, Limits, default_limits, Cache, allowed, limited}
use lan_video.RateLimit.View.{slot_view}
use lan_video.RateLimit.Calls.{
  Call, check_key, reset_key, sweep, memory_run, redis_run, memory_run-redis_run, empty-Agrees,
  no_keys,
}
use lan_video.RateLimit.Budget.{view_at, checks, window_budget}

abbrev ten_seconds : ℕ
ten_seconds = 10000000000

-- The limits of chat messages: no block.
abbrev chat_limits : Limits
chat_limits = record { max_attempts = 6; window_secs = 10; block_secs = 0 }

abbrev mixed_calls : List (ℕ × Call)
mixed_calls =
    (1, check_key "alice")
    ∷ (2, check_key "bob")
    ∷ (3, reset_key "alice")
    ∷ (70000000000, sweep)
    ∷ (70000000001, check_key "alice")
    ∷ []

memory_run-redis_run_example :
    memory_run (λ _. default_limits) [] mixed_calls
    ≡ redis_run (λ _. default_limits) no_keys mixed_calls
memory_run-redis_run_example =
    memory_run-redis_run (λ _. default_limits) (λ _. omega arith) 0 mixed_calls [] no_keys
      (omega arith) (empty-Agrees (λ _. default_limits) 0)

window_budget_example :
    memory_run (λ _. default_limits) [] (checks "alice" (1 ∷ 2 ∷ 3 ∷ 4 ∷ 5 ∷ 6 ∷ []))
    ≡ allowed ∷ allowed ∷ allowed ∷ allowed ∷ limited ∷ limited ∷ []
unfolding lookup view_at slot_view
window_budget_example =
    window_budget default_limits (omega arith) "alice" 1 3 (2 ∷ 3 ∷ 4 ∷ 5 ∷ 6 ∷ []) [] tt refl refl
      (omega arith) (omega arith) (omega arith)

-- Four attempts of a window that ends at 100.
abbrev four_counted : Slot
four_counted = record { expires_at = 100; entry = record { count = 4; blocked_until = none } }

abbrev one_key : Cache
one_key = ("alice", four_counted) ∷ []

abbrev chatty : Cache
chatty =
    ("chat:user:7", record { expires_at = 100; entry = record { count = 5; blocked_until = none } })
    ∷ []
