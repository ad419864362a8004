-- ===== src/Scheduler/Due.antt =====
-- Backend/src/jobs/scheduler.js: `findDueMonitors` against what `runCheck` writes.
use devops_hackathon.Prelude.{
  ℕ, zero, suc, max, refl, Option, none, some, or_falsy, ◌+◌, ◌*◌, ◌≤◌, ◌<◌, ◌≡◌, ◌↔◌, ◌⊎◌, true,
  false, arith, leb, ltb, ◌||◌,
}
use devops_hackathon.Config.{Config}
use devops_hackathon.Monitor.{Monitor}
use devops_hackathon.Breaker.{Decision}
use devops_hackathon.Probe.{ProbeResult}
use devops_hackathon.Check.{assess, with_update, interval_seconds}
use devops_hackathon.Scheduler.{is_due, is_false}

due_again :
    (t now span : ℕ) → ((leb (now + span) t || ltb t now) ≡ true) ↔ ((t < now) ⊎ (now + span ≤ t))
due_again t now span = ground arith

-- What `Math.max(5, interval || 60)` promises.
abbrev pub span : Option ℕ → ℕ
span none = 60
span (some zero) = 60
span (some (suc n)) = max 5 (suc n)

interval_seconds-span : (m : Monitor) → interval_seconds m ≡ span m.interval
unfolding interval_seconds
interval_seconds-span m = asked m.interval
  where
    asked : (i : Option ℕ) → max 5 (or_falsy i 60) ≡ span i
    asked none = refl
    asked (some zero) = refl
    asked (some (suc n)) = ground arith

at_least_five : (i : Option ℕ) → 5000 ≤ span i * 1000
at_least_five none = omega arith
at_least_five (some zero) = omega arith
at_least_five (some (suc n)) = ground arith

-- An active monitor as a check at `now` wrote it is due at a time t exactly if t lies before the
-- check (the clock has stepped back) or its interval has passed: the number of seconds that its owner
-- set, 60 if that is missing or 0, and five at the least.
pub rescheduled-is_due :
    (c : Config) (m : Monitor) (b : Decision) (r : ProbeResult) (now t : ℕ)
    → is_false m.active ≡ false
    → let m' = with_update (assess c m b r now).update m in
      ((is_due t m' ≡ true) ↔ ((t < now) ⊎ (now + span m.interval * 1000 ≤ t)))
      × (5000 ≤ span m.interval * 1000)
unfolding is_due with_update assess
rescheduled-is_due c m b r now t h =
    rw (h, interval_seconds-span m)
      (due_again t now (span m.interval * 1000), at_least_five m.interval)
