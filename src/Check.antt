-- ===== src/Check.antt =====
-- Backend/src/jobs/scheduler.js, `runCheck`: one monitor's check and every consequence of it. What
-- the outside answers is an argument; the run is the statistics, the calls made in order, and the
-- result or the error thrown.
pub mod Flapping
pub mod Cycle
pub mod Effects
use devops_hackathon.Prelude.{
  ℕ, ◌+◌, ◌*◌, max, Bool, true, false, Option, none, some, List, [], ◌∷◌, ◌++◌, map, ◌&&◌, not, leb,
  if◌then◌else◌, ◌==◌, or_default, or_falsy, or_text, first_some,
}
use devops_hackathon.Config.{Config}
use devops_hackathon.Monitor.{Monitor, Status, up, down, BreakerState, half_open}
use devops_hackathon.Breaker.{
  BreakerPatch, empty_patch, Decision, on_check_success, on_check_failure,
}
use devops_hackathon.Probe
use devops_hackathon.Probe.{ProbeResult, Timings, is_up}
use devops_hackathon.Store.{Reply, ok, err, DbError}
use devops_hackathon.Incident.{Incident, OpenEnv, CloseEnv, open_incident, close_incident}
use devops_hackathon.Incident
use Prim.Native.String.{String, ◌++◌ as str_append}
use text.Mathlib.Text.{◌==◌ as str_eq}

-- The document handed to `$set`.
pub record Update : Type 0 where
  pub last_checked : ℕ
  pub last_check_status : Status
  pub last_status_code : Option ℕ
  pub consecutive_failures : ℕ
  pub consecutive_successes : ℕ
  pub next_check_at : ℕ
  pub breaker : BreakerPatch
  pub status : Option Status

unfoldable pub spread : BreakerPatch → BreakerPatch → BreakerPatch
spread p q = record {
  state = first_some q.state p.state;
  opened_at = first_some q.opened_at p.opened_at;
  retry_at = first_some q.retry_at p.retry_at;
  consecutive_opens = first_some q.consecutive_opens p.consecutive_opens;
}

-- `{ ...monitor.toObject(), ...update }`: the keys of the update replace the monitor's.
unfoldable pub with_update : Update → Monitor → Monitor
with_update u m = record m {
  last_checked = some u.last_checked;
  last_check_status = some u.last_check_status;
  last_status_code = u.last_status_code;
  consecutive_failures = some u.consecutive_failures;
  consecutive_successes = some u.consecutive_successes;
  next_check_at = some u.next_check_at;
  breaker_state = first_some u.breaker.state m.breaker_state;
  breaker_opened_at = or_default u.breaker.opened_at m.breaker_opened_at;
  breaker_retry_at = or_default u.breaker.retry_at m.breaker_retry_at;
  breaker_consecutive_opens = first_some u.breaker.consecutive_opens m.breaker_consecutive_opens;
  status = first_some u.status m.status;
}

abbrev pub min_interval_seconds : ℕ
min_interval_seconds = 5

-- What a check of the monitor decides, before anything is written.
pub record Assessment : Type 0 where
  pub confirmed : Status
  pub should_open : Bool
  pub should_close : Bool
  pub update : Update

abbrev new_status : Bool → Bool → Option Status
new_status opens closes = if closes then some up else if opens then some down else none

unfoldable pub failures_after : Monitor → Bool → ℕ
failures_after m good = if good then 0 else (or_falsy m.consecutive_failures 0 + 1)

unfoldable pub successes_after : Monitor → Bool → ℕ
successes_after m good = if good then (or_falsy m.consecutive_successes 0 + 1) else 0

abbrev pub failure_threshold_of : Monitor → ℕ
failure_threshold_of m = max 1 (or_default m.failure_threshold 3)

abbrev pub success_threshold_of : Monitor → ℕ
success_threshold_of m = max 1 (or_default m.success_threshold 2)

unfoldable pub interval_seconds : Monitor → ℕ
interval_seconds m = max min_interval_seconds (or_falsy m.interval 60)

-- `...(breaker.patch || {})` and then the patch of the outcome.
unfoldable pub breaker_update : Config → Monitor → Decision → Bool → ℕ → ℕ → BreakerPatch
unfolding spread
breaker_update c m b good failures now =
    spread (or_default b.patch empty_patch)
      (if good then on_check_success m else on_check_failure c m failures now)

unfoldable pub assess : Config → Monitor → Decision → ProbeResult → ℕ → Assessment
unfolding failures_after successes_after interval_seconds breaker_update
assess c m b r now =
    let good = is_up r.status in
    let failures = failures_after m good in
    let successes = successes_after m good in
    let confirmed = or_default m.status up in
    let opens = not good && (is_up confirmed && leb (failure_threshold_of m) failures) in
    let closes = good && (not (is_up confirmed) && leb (success_threshold_of m) successes) in
    record {
      confirmed = confirmed;
      should_open = opens;
      should_close = closes;
      update = record {
        last_checked = now;
        last_check_status = r.status;
        last_status_code = r.status_code;
        consecutive_failures = failures;
        consecutive_successes = successes;
        next_check_at = now + interval_seconds m * 1000;
        breaker = breaker_update c m b good failures now;
        status = new_status opens closes;
      };
    }

pub record LogRow : Type 0 where
  pub monitor_id : ℕ
  pub status : Status
  pub latency : ℕ
  pub timings : Timings
  pub status_code : Option ℕ
  pub error : Option String
  pub attempts : ℕ
  pub timestamp : ℕ

pub data SocketEvent : Type 0 where
  monitor_status :
      (monitor_id : ℕ) (status : Status) (last_check_status : Status) (checked_at : ℕ) → SocketEvent
  incident_opened incident_closed : (monitor_id : ℕ) (incident : Option Incident) → SocketEvent

pub record ProbeOptions : Type 0 where
  pub timeout_ms : ℕ
  pub max_retries : ℕ
  pub ignore_tls_errors : Bool
  pub headers : List (String × String)

pub data Call : Type 0 where
  check_monitor : (url : String) → ProbeOptions → Call
  update_one : (id : ℕ) → Update → Call
  create_log : LogRow → Call
  emit_to_user : (user_id : ℕ) → SocketEvent → Call
  incident_call : Incident.Call → Call

pub record Stats : Type 0 where
  pub is_leader : Bool
  pub ticks : ℕ
  pub checks_executed : ℕ
  pub checks_succeeded : ℕ
  pub checks_failed : ℕ
  pub skipped_overlap : ℕ
  pub skipped_breaker : ℕ
  pub incidents_opened : ℕ
  pub incidents_closed : ℕ
  pub errors : ℕ
  pub max_lag_ms : ℕ

pub record CheckEnv : Type 0 where
  pub now : ℕ
  -- `decryptAuthHeaders(monitor.authHeaders)`
  pub headers : List (String × String)
  -- What each attempt of the probe reports, and the draws of `Math.random`.
  pub attempt : ProbeOptions → ℕ → ProbeResult
  pub random : ℕ → ℕ → ℕ
  pub updated : Reply (Unit {0})
  pub logged : Reply (Unit {0})
  pub open_env : OpenEnv
  pub close_env : CloseEnv

pub record CheckRun : Type 0 where
  pub stats : Stats
  pub calls : List Call
  pub result : Reply ProbeResult

abbrev is_half_open : BreakerState → Bool
is_half_open half_open = true
is_half_open _ = false

abbrev is_true : Option Bool → Bool
is_true (some true) = true
is_true _ = false

unfoldable pub probe_options : Config → Monitor → Decision → CheckEnv → ProbeOptions
probe_options c m b e = record {
  timeout_ms = or_falsy m.timeout 10 * 1000;
  max_retries = if is_half_open b.mode then 0 else c.max_retries;
  ignore_tls_errors = is_true m.ignore_tls_errors;
  headers = e.headers;
}

-- The statistics after the probe.
unfoldable pub count_check : Stats → Bool → Stats
count_check s good = record s {
  checks_executed = s.checks_executed + 1;
  checks_succeeded = if good then s.checks_succeeded + 1 else s.checks_succeeded;
  checks_failed = if good then s.checks_failed else (s.checks_failed + 1);
}

abbrev row_of : Monitor → ProbeResult → ℕ → LogRow
row_of m r now = record {
  monitor_id = m.id;
  status = r.status;
  latency = r.response_time;
  timings = r.timings;
  status_code = r.status_code;
  error = r.error;
  attempts = r.attempts;
  timestamp = now;
}

-- The transition's part of the run: statistics and calls; an error thrown in it is counted.
abbrev settle_open : Monitor → Stats → Reply (Option Incident × Bool) → Stats × List Call
settle_open m s (ok (i, true)) = (
  record s { incidents_opened = s.incidents_opened + 1 },
  emit_to_user m.user_id (incident_opened m.id i) ∷ [],
)
settle_open m s (ok (i, false)) = (s, [])
settle_open m s (err x) = (record s { errors = s.errors + 1 }, [])

abbrev settle_close : Monitor → Stats → Reply (Option Incident × Bool) → Stats × List Call
settle_close m s (ok (i, true)) = (
  record s { incidents_closed = s.incidents_closed + 1 },
  emit_to_user m.user_id (incident_closed m.id i) ∷ [],
)
settle_close m s (ok (i, false)) = (s, [])
settle_close m s (err x) = (record s { errors = s.errors + 1 }, [])

abbrev reason_of : Monitor → ProbeResult → String
reason_of m r = or_text r.error (str_append "Monitor " (str_append m.url " is down"))

abbrev opening_part : Monitor → Assessment → ProbeResult → CheckEnv → Stats → Stats × List Call
opening_part m a r e s =
    let run = open_incident (with_update a.update m) (reason_of m r) e.open_env in
    let rest = settle_open m s run.value in (rest.0, map incident_call run.calls ++ rest.1)

abbrev closing_part : Monitor → Assessment → CheckEnv → Stats → Stats × List Call
closing_part m a e s =
    let run = close_incident (with_update a.update m) e.close_env in
    let rest = settle_close m s run.value in (rest.0, map incident_call run.calls ++ rest.1)

unfoldable pub transition :
    Monitor → Assessment → ProbeResult → CheckEnv → Stats → Stats × List Call
transition m a r e s =
    if a.should_open
    then opening_part m a r e s
    else if a.should_close
    then closing_part m a e s
    else (s, [])

-- After both writes.
abbrev announce : Monitor → Assessment → ProbeResult → CheckEnv → Stats → CheckRun
announce m a r e s =
    let rest = transition m a r e s in
    record {
      stats = rest.0;
      calls =
          emit_to_user m.user_id
            (monitor_status m.id (or_default a.update.status a.confirmed) r.status e.now)
          ∷ rest.1;
      result = ok r;
    }

abbrev after_log :
    Monitor → Assessment → ProbeResult → CheckEnv → Stats → Reply (Unit {0}) → CheckRun
after_log m a r e s (err x) = record { stats = s; calls = []; result = err x }
after_log m a r e s (ok _) = announce m a r e s

abbrev pub after_update :
    Monitor → Assessment → ProbeResult → CheckEnv → Stats → Reply (Unit {0}) → CheckRun
after_update m a r e s (err x) = record { stats = s; calls = []; result = err x }
after_update m a r e s (ok _) =
    let rest = after_log m a r e s e.logged in
    record rest { calls = create_log (row_of m r e.now) ∷ rest.calls }

-- The probe with its retry ladder.
unfoldable pub probe_of : Config → Monitor → Decision → CheckEnv → ProbeResult
unfolding probe_options
probe_of c m b e =
    let o = probe_options c m b e in (Probe.check_monitor c e.random (e.attempt o) o.max_retries).0

unfoldable pub run_check : Config → Monitor → Decision → CheckEnv → Stats → CheckRun
unfolding probe_of probe_options assess count_check
run_check c m b e s =
    let r = probe_of c m b e in
    let a = assess c m b r e.now in
    let rest = after_update m a r e (count_check s (is_up r.status)) e.updated in
    record rest {
      calls = check_monitor m.url (probe_options c m b e) ∷ (update_one m.id a.update ∷ rest.calls);
    }
