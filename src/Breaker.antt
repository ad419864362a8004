-- ===== src/Breaker.antt =====
-- Backend/src/services/circuitBreaker.js: the per-monitor circuit breaker, pure functions from a
-- monitor's stored fields to a patch.
pub mod Cooldown
use devops_hackathon.Prelude.{
  ℕ, ◌+◌, ◌*◌, ◌^◌, min, Bool, true, false, Option, none, some, leb, if◌then◌else◌, or_default,
  or_falsy,
}
use devops_hackathon.Config.{Config}
use devops_hackathon.Monitor.{Monitor, BreakerState, closed, opened, half_open}

-- A partial document: `none` is a key that is absent; inside, `none` is the value null.
pub record BreakerPatch : Type 0 where
  pub state : Option BreakerState
  pub opened_at : Option (Option ℕ)
  pub retry_at : Option (Option ℕ)
  pub consecutive_opens : Option ℕ

-- `{}`
abbrev pub empty_patch : BreakerPatch
empty_patch = record { state = none; opened_at = none; retry_at = none; consecutive_opens = none }

unfoldable pub cooldown_for : Config → ℕ → ℕ
cooldown_for c consecutive_opens =
    min (c.breaker_cooldown_ms * 2 ^ consecutive_opens) c.breaker_max_cooldown_ms

pub record Decision : Type 0 where
  pub allowed : Bool
  pub mode : BreakerState
  pub patch : Option BreakerPatch

-- The OPEN branch: a probe, once the cooldown has elapsed.
abbrev evaluate_open : ℕ → ℕ → Decision
evaluate_open retry_at now =
    if leb retry_at now
    then record {
      allowed = true;
      mode = half_open;
      patch = some (record empty_patch { state = some half_open });
    }
    else record { allowed = false; mode = opened; patch = none }

abbrev evaluate_state : BreakerState → ℕ → ℕ → Decision
evaluate_state closed retry_at now = record { allowed = true; mode = closed; patch = none }
evaluate_state half_open retry_at now = record { allowed = true; mode = half_open; patch = none }
evaluate_state opened retry_at now = evaluate_open retry_at now

unfoldable pub evaluate_breaker : Monitor → ℕ → Decision
evaluate_breaker m now =
    evaluate_state (or_default m.breaker_state closed) (or_default m.breaker_retry_at 0) now

abbrev is_closed : BreakerState → Bool
is_closed closed = true
is_closed _ = false

unfoldable pub on_check_success : Monitor → BreakerPatch
on_check_success m = if is_closed (or_default m.breaker_state closed) then empty_patch else record {
  state = some closed;
  opened_at = some none;
  retry_at = some none;
  consecutive_opens = some 0;
}

-- The patch of both branches that open the breaker.
abbrev open_patch : ℕ → ℕ → ℕ → BreakerPatch
open_patch now cooldown opens = record {
  state = some opened;
  opened_at = some (some now);
  retry_at = some (some (now + cooldown));
  consecutive_opens = some opens;
}

abbrev fail_state : Config → BreakerState → ℕ → ℕ → ℕ → BreakerPatch
fail_state c half_open opens failures now = open_patch now (cooldown_for c (opens + 1)) (opens + 1)
fail_state c closed opens failures now =
    if leb c.breaker_failure_threshold failures
    then open_patch now (cooldown_for c 0) 1
    else empty_patch
fail_state c opened opens failures now = empty_patch

unfoldable pub on_check_failure : Config → Monitor → ℕ → ℕ → BreakerPatch
on_check_failure c m consecutive_failures now =
    fail_state c (or_default m.breaker_state closed) (or_falsy m.breaker_consecutive_opens 0)
      consecutive_failures now
