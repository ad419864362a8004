-- ===== src/Tests/Checks.antt =====
-- Checks, flap detection and the circuit breaker.
use devops_hackathon.Prelude.{ℕ, ◌+◌, ◌≤◌, ◌≡◌, refl, true, false, none, some, List, [], ◌∷◌, arith}
use devops_hackathon.Monitor.{up, down, half_open}
use devops_hackathon.Breaker.{cooldown_for}
use devops_hackathon.Probe.{check_monitor, ladder}
use devops_hackathon.Store.{ok, err, failure}
use devops_hackathon.Incident.{open_incident}
use devops_hackathon.Check.{CheckEnv, assess, probe_of, run_check, with_update, failures_after}
use devops_hackathon.Check.Flapping.{
  Checked, check_once, after, status_of, confirmed_status, status-after, openings, closings,
  one_if_down, transitions_alternate,
}
use devops_hackathon.Check.Cycle.{cycle, cycle-opened, dead_target}
use devops_hackathon.Check.Effects.{run_check_opening_throws}
use devops_hackathon.Tests.Samples.{
  site, failing_site, open_site, bad, fine, normal, no_stats, defaults,
}

abbrev failed_at : ℕ → Checked
failed_at t = record { decision = normal; result = bad; now = t }

abbrev passed_at : ℕ → Checked
passed_at t = record { decision = normal; result = fine; now = t }

-- Newest first.
abbrev outage : List Checked
outage = failed_at 180 ∷ failed_at 120 ∷ failed_at 60 ∷ passed_at 0 ∷ []

outage_goes_down : status_of (after defaults outage site) ≡ down
unfolding check_once assess with_update
outage_goes_down = refl

status-after_example :
    status_of (after defaults outage site)
    ≡ confirmed_status 3 2 up (false ∷ false ∷ false ∷ true ∷ [])
status-after_example = status-after defaults outage site (omega arith)

transitions_alternate_example :
    openings defaults outage site + one_if_down (status_of site)
    ≡ closings defaults outage site + one_if_down (status_of (after defaults outage site))
transitions_alternate_example = transitions_alternate defaults outage site

cycle-opened_example : (cycle defaults open_site 61000 bad 71000).breaker_state ≡ some half_open
cycle-opened_example =
    (cycle-opened defaults open_site 61000 bad 71000 71001 refl (omega arith) refl).0

failing_enough : 5 ≤ failures_after failing_site false
unfolding failures_after
failing_enough = omega arith

first_cooldown : 1000 + cooldown_for defaults 0 ≤ 61000
unfolding cooldown_for
first_cooldown = omega arith

dead_target_example :
    (cycle defaults
      (cycle defaults (cycle defaults failing_site 1000 bad 1000) 61000 bad 61000)
      121000
      bad
      121000).breaker_retry_at
    ≡ some (121000 + cooldown_for defaults 2)
dead_target_example =
    (dead_target defaults failing_site bad bad bad 1000 61000 121000 refl failing_enough refl refl
      refl first_cooldown).3

-- The fourth minute without the database, at the moment that the incident is due.
abbrev unlucky : CheckEnv
unlucky = record {
  now = 180;
  headers = [];
  attempt = λ o n. bad;
  random = λ n c. 0;
  updated = ok tt;
  logged = ok tt;
  open_env = record {
    now = 180;
    new_id = 1;
    upserted = err (failure "connection reset");
    existing = ok none;
    analysis = ok none;
    saved = ok tt;
    found_user = ok none;
  };
  close_env = record { now = 180; resolved = ok none; saved = ok tt; found_user = ok none };
}

run_check_opening_throws_example :
    (run_check defaults failing_site normal unlucky no_stats).stats.errors ≡ 1
unfolding assess probe_of check_monitor ladder open_incident
run_check_opening_throws_example =
    (run_check_opening_throws defaults failing_site normal unlucky no_stats
      (failure "connection reset") (failed_at 240) refl refl refl refl).1
