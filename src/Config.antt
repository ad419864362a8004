-- ===== src/Config.antt =====
-- Backend/src/config/scheduler.config.js: the tunables of the scheduler and how an environment
-- variable overrides one. A number is a natural number here; `Number` itself is the language's.
use devops_hackathon.Prelude.{ℕ, Bool, Option, none, some, max, if◌then◌else◌, ◌||◌}
use Prim.Native.String.{String}
use text.Mathlib.Text.{◌==◌ as str_eq}

-- What `Number(raw)` yields: not a finite number, a negative one, or a natural one.
pub data Parsed : Type 0 where
  not_finite : Parsed
  negative : ℕ → Parsed
  natural : ℕ → Parsed

-- `num`: the fallback unless the value is finite and not negative.
unfoldable pub num : Parsed → ℕ → ℕ
num not_finite fallback = fallback
num (negative n) fallback = fallback
num (natural n) fallback = n

-- `bool`, with the lower-cased text beside the raw one.
unfoldable pub bool : Option (String × String) → Bool → Bool
bool none fallback = fallback
bool (some (raw, lowered)) fallback =
    if str_eq raw "" then fallback else (str_eq lowered "true" || str_eq raw "1")

pub record Env : Type 0 where
  pub enabled : Option (String × String)
  pub tick_ms : Parsed
  pub concurrency : Parsed
  pub shutdown_grace_ms : Parsed
  pub lock_ttl_ms : Parsed
  pub max_retries : Parsed
  pub retry_base_ms : Parsed
  pub retry_cap_ms : Parsed
  pub breaker_failure_threshold : Parsed
  pub breaker_cooldown_ms : Parsed
  pub breaker_max_cooldown_ms : Parsed
  pub log_retention_days : Parsed

pub record Config : Type 0 where
  pub enabled : Bool
  pub tick_ms : ℕ
  pub concurrency : ℕ
  pub shutdown_grace_ms : ℕ
  pub lock_ttl_ms : ℕ
  pub max_retries : ℕ
  pub retry_base_ms : ℕ
  pub retry_cap_ms : ℕ
  pub breaker_failure_threshold : ℕ
  pub breaker_cooldown_ms : ℕ
  pub breaker_max_cooldown_ms : ℕ
  pub log_retention_days : ℕ

unfoldable pub scheduler_config : Env → Config
unfolding num bool
scheduler_config e = record {
  enabled = bool e.enabled Bool.true;
  tick_ms = num e.tick_ms 5000;
  concurrency = max 1 (num e.concurrency 10);
  shutdown_grace_ms = num e.shutdown_grace_ms 10000;
  lock_ttl_ms = num e.lock_ttl_ms 30000;
  max_retries = num e.max_retries 2;
  retry_base_ms = num e.retry_base_ms 250;
  retry_cap_ms = num e.retry_cap_ms 4000;
  breaker_failure_threshold = max 1 (num e.breaker_failure_threshold 5);
  breaker_cooldown_ms = num e.breaker_cooldown_ms 60000;
  breaker_max_cooldown_ms = num e.breaker_max_cooldown_ms 900000;
  log_retention_days = max 1 (num e.log_retention_days 30);
}

-- No variable is set.
abbrev pub empty_env : Env
empty_env = record {
  enabled = none;
  tick_ms = not_finite;
  concurrency = not_finite;
  shutdown_grace_ms = not_finite;
  lock_ttl_ms = not_finite;
  max_retries = not_finite;
  retry_base_ms = not_finite;
  retry_cap_ms = not_finite;
  breaker_failure_threshold = not_finite;
  breaker_cooldown_ms = not_finite;
  breaker_max_cooldown_ms = not_finite;
  log_retention_days = not_finite;
}
