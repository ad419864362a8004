-- ===== src/Breaker/Cooldown.antt =====
-- Backend/src/services/circuitBreaker.js: the size of a cooldown.
use devops_hackathon.Prelude.{ℕ, ◌≤◌, arith}
use devops_hackathon.Config.{Config}
use devops_hackathon.Breaker.{cooldown_for}

pub cooldown_for-le-max : (c : Config) (n : ℕ) → cooldown_for c n ≤ c.breaker_max_cooldown_ms
unfolding cooldown_for
cooldown_for-le-max c n = omega arith
