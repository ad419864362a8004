-- ===== src/Tests/Samples.antt =====
-- Sample monitors, results and answers for the tests.
use devops_hackathon.Prelude.{true, false, none, some, ◌≡◌, refl}
use devops_hackathon.Config.{Config, scheduler_config, empty_env}
use devops_hackathon.Monitor.{Monitor, up, down, closed, opened, half_open}
use devops_hackathon.Probe.{ProbeResult, check_timeout}
use devops_hackathon.Breaker.{Decision}
use devops_hackathon.Check.{Stats}

-- A monitor as it is created.
abbrev pub site : Monitor
site = record {
  id = 7;
  user_id = 3;
  title = some "Shop";
  description = none;
  kind = some "website";
  url = "https://shop.example";
  interval = some 60;
  timeout = some 10;
  status = some up;
  last_check_status = none;
  last_checked = none;
  last_status_code = none;
  active = some true;
  next_check_at = some 0;
  auth_headers = none;
  ignore_tls_errors = some false;
  failure_threshold = some 3;
  success_threshold = some 2;
  consecutive_failures = some 0;
  consecutive_successes = some 0;
  breaker_state = some closed;
  breaker_opened_at = none;
  breaker_retry_at = none;
  breaker_consecutive_opens = some 0;
}

-- Two failures short of an incident, four of an open breaker.
abbrev pub failing_site : Monitor
failing_site = record site { consecutive_failures = some 4 }

abbrev pub open_site : Monitor
open_site = record site {
  status = some down;
  consecutive_failures = some 5;
  breaker_state = some opened;
  breaker_opened_at = some 1000;
  breaker_retry_at = some 61000;
  breaker_consecutive_opens = some 1;
}

abbrev pub probing_site : Monitor
probing_site = record open_site { breaker_state = some half_open }

abbrev pub bad : ProbeResult
bad = record {
  status = down;
  status_code = none;
  error = some "Check exceeded 10000ms deadline";
  error_code = some check_timeout;
  retryable = true;
  redirects = 0;
  response_time = 10000;
  timings = record { dns = none; tcp = none; tls = none; ttfb = none; total = some 10000 };
  attempts = 1;
}

abbrev pub fine : ProbeResult
fine = record {
  status = up;
  status_code = some 200;
  error = none;
  error_code = none;
  retryable = false;
  redirects = 0;
  response_time = 80;
  timings = record { dns = some 5; tcp = some 10; tls = some 20; ttfb = some 70; total = some 80 };
  attempts = 1;
}

abbrev pub normal : Decision
normal = record { allowed = true; mode = closed; patch = none }

abbrev pub no_stats : Stats
no_stats = record {
  is_leader = true;
  ticks = 0;
  checks_executed = 0;
  checks_succeeded = 0;
  checks_failed = 0;
  skipped_overlap = 0;
  skipped_breaker = 0;
  incidents_opened = 0;
  incidents_closed = 0;
  errors = 0;
  max_lag_ms = 0;
}

-- The default configuration.
abbrev pub defaults : Config
defaults = record {
  enabled = true;
  tick_ms = 5000;
  concurrency = 10;
  shutdown_grace_ms = 10000;
  lock_ttl_ms = 30000;
  max_retries = 2;
  retry_base_ms = 250;
  retry_cap_ms = 4000;
  breaker_failure_threshold = 5;
  breaker_cooldown_ms = 60000;
  breaker_max_cooldown_ms = 900000;
  log_retention_days = 30;
}

scheduler_config-empty_env : scheduler_config empty_env ≡ defaults
unfolding scheduler_config
scheduler_config-empty_env = refl
