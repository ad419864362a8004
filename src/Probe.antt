-- ===== src/Probe.antt =====
-- Backend/src/services/monitor.service.js: what one HTTP attempt reports, and a complete check,
-- one attempt with its retry ladder (`backoffDelay`, `checkMonitor`). The attempt itself is
-- Probe/Exchange.
pub mod Attempt
pub mod Exchange
pub mod Retries
use devops_hackathon.Prelude.{
  ℕ, zero, suc, ◌+◌, ◌*◌, ◌^◌, min, Bool, true, false, Option, none, some, List, [], ◌∷◌, ◌||◌, not,
  if◌then◌else◌,
}
use devops_hackathon.Config.{Config}
use devops_hackathon.Monitor.{Status, up, down}
use Prim.Native.String.{String}

-- Milliseconds by phase; `none` is a phase that was never observed.
pub record Timings : Type 0 where
  pub dns : Option ℕ
  pub tcp : Option ℕ
  pub tls : Option ℕ
  pub ttfb : Option ℕ
  pub total : Option ℕ

-- The codes that a failed attempt reports: those that the source names, and any other.
pub data ErrorCode : Type 0 where
  conn_reset conn_refused conn_aborted timed_out dns_again broken_pipe host_unreachable : ErrorCode
  net_unreachable net_reset socket_timed_out check_timeout : ErrorCode
  invalid_url unsupported_protocol too_many_redirects unknown : ErrorCode
  http : ℕ → ErrorCode
  other : String → ErrorCode

-- `RETRYABLE_CODES.has(code)`
unfoldable pub retryable_code : ErrorCode → Bool
retryable_code conn_reset = true
retryable_code conn_refused = true
retryable_code conn_aborted = true
retryable_code timed_out = true
retryable_code dns_again = true
retryable_code broken_pipe = true
retryable_code host_unreachable = true
retryable_code net_unreachable = true
retryable_code net_reset = true
retryable_code socket_timed_out = true
retryable_code check_timeout = true
retryable_code _ = false

pub record ProbeResult : Type 0 where
  pub status : Status
  pub status_code : Option ℕ
  pub error : Option String
  pub error_code : Option ErrorCode
  pub retryable : Bool
  pub redirects : ℕ
  pub response_time : ℕ
  pub timings : Timings
  pub attempts : ℕ

abbrev pub is_up : Status → Bool
is_up up = true
is_up down = false

-- `Math.floor(Math.random() * ceiling)` is the argument `random`, at the ceiling.
unfoldable pub backoff_delay : Config → (ℕ → ℕ) → ℕ → ℕ
backoff_delay c random attempt = random (min (c.retry_base_ms * 2 ^ attempt) c.retry_cap_ms)

-- `result.status === 'UP' || !result.retryable`
abbrev pub is_final : ProbeResult → Bool
is_final r = is_up r.status || not r.retryable

-- The loop of `checkMonitor` with `left` retries to go: `probe n` is what attempt n reports, and
-- `random n` the draw after it. The result comes with the delays slept.
unfoldable pub ladder : Config → (ℕ → ℕ → ℕ) → (ℕ → ProbeResult) → ℕ → ℕ → ProbeResult × List ℕ
unfolding backoff_delay
ladder c random probe zero attempt = (record (probe attempt) { attempts = attempt + 1 }, [])
ladder c random probe (suc left) attempt =
    let rest = ladder c random probe left (attempt + 1) in
    let result = record (probe attempt) { attempts = attempt + 1 } in
    if is_final result
    then (result, [])
    else (rest.0, backoff_delay c (random attempt) attempt ∷ rest.1)

unfoldable pub check_monitor : Config → (ℕ → ℕ → ℕ) → (ℕ → ProbeResult) → ℕ → ProbeResult × List ℕ
check_monitor c random probe max_retries = ladder c random probe max_retries 0
