-- ===== src/Check/Cycle.antt =====
-- The circuit breaker (Backend/src/services/circuitBreaker.js) as a check of
-- Backend/src/jobs/scheduler.js drives it: `evaluateBreaker` before, the patches merged into the
-- update after.
use devops_hackathon.Prelude.{
  ℕ, ◌+◌, ◌≤◌, ◌≡◌, ap, ◌∙◌, ◌↔◌, true, false, Option, some, arith, or_default, or_falsy,
}
use devops_hackathon.Config.{Config}
use devops_hackathon.Monitor.{Monitor, BreakerState, closed, opened, half_open}
use devops_hackathon.Breaker.{evaluate_breaker, cooldown_for, on_check_success, on_check_failure}
use devops_hackathon.Breaker.Cooldown.{cooldown_for-le-max}
use devops_hackathon.Probe.{ProbeResult, is_up}
use devops_hackathon.Check.{assess, with_update, failures_after}

-- A check whose breaker was evaluated at `asked` and which finished at `now` with the result r.
pub cycle : Config → Monitor → ℕ → ProbeResult → ℕ → Monitor
cycle c m asked r now = with_update (assess c m (evaluate_breaker m asked) r now).update m

abbrev pub state_of : Monitor → BreakerState
state_of m = or_default m.breaker_state closed

-- From CLOSED, the check opens the breaker exactly if it fails and the failures counted with it
-- reach the threshold; it then stays refused for the first cooldown.
pub cycle-closed :
    (c : Config) (m : Monitor) (asked : ℕ) (r : ProbeResult) (now : ℕ)
    → state_of m ≡ closed
    → (state_of (cycle c m asked r now) ≡ opened)
      ↔ ((is_up r.status ≡ false) × (c.breaker_failure_threshold ≤ failures_after m false))
unfolding cycle assess with_update evaluate_breaker on_check_success on_check_failure failures_after
cycle-closed c m asked r now h = ground arith

-- From a stored HALF_OPEN, one failed check opens the breaker again, with one more consecutive open
-- and the cooldown for that number.
pub cycle-half_open :
    (c : Config) (m : Monitor) (asked : ℕ) (r : ProbeResult) (now : ℕ)
    → state_of m ≡ half_open
    → is_up r.status ≡ false
    → let opens = or_falsy m.breaker_consecutive_opens 0 + 1 in
      let m' = cycle c m asked r now in
      (m'.breaker_state ≡ some opened)
      × (m'.breaker_retry_at ≡ some (now + cooldown_for c opens))
      × (m'.breaker_consecutive_opens ≡ some opens)
unfolding cycle assess with_update evaluate_breaker on_check_failure
cycle-half_open c m asked r now h f = ground arith

-- From a stored OPEN whose retry time has come, a failed probe does not open the breaker again: it
-- is left HALF_OPEN, with the old retry time and count of opens, and no later check is refused.
pub cycle-opened :
    (c : Config) (m : Monitor) (asked : ℕ) (r : ProbeResult) (now later : ℕ)
    → state_of m ≡ opened
    → or_default m.breaker_retry_at 0 ≤ asked
    → is_up r.status ≡ false
    → let m' = cycle c m asked r now in
      (m'.breaker_state ≡ some half_open)
      × (m'.breaker_retry_at ≡ m.breaker_retry_at)
      × (m'.breaker_consecutive_opens ≡ m.breaker_consecutive_opens)
      × ((evaluate_breaker m' later).allowed ≡ true)
unfolding cycle assess with_update evaluate_breaker on_check_failure
cycle-opened c m asked r now later h d f = ground arith

-- A success closes the breaker from every state: the monitor is due at its normal cadence, with the
-- full retry ladder, at every later time.
pub cycle_success :
    (c : Config) (m : Monitor) (asked : ℕ) (r : ProbeResult) (now later : ℕ)
    → is_up r.status ≡ true
    → let m' = cycle c m asked r now in
      (state_of m' ≡ closed)
      × ((evaluate_breaker m' later).allowed ≡ true)
      × ((evaluate_breaker m' later).mode ≡ closed)
      × (failures_after m' false ≡ 1)
unfolding cycle assess with_update evaluate_breaker on_check_success failures_after
cycle_success c m asked r now later u = ground arith

-- No check that the breaker allowed makes it refuse the monitor for longer than the greatest
-- cooldown: from then on a check is allowed again.
pub refusal_bounded :
    (c : Config) (m : Monitor) (asked : ℕ) (r : ProbeResult) (now later : ℕ)
    → (evaluate_breaker m asked).allowed ≡ true
    → now + c.breaker_max_cooldown_ms ≤ later
    → (evaluate_breaker (cycle c m asked r now) later).allowed ≡ true
unfolding cycle assess with_update evaluate_breaker on_check_success on_check_failure
refusal_bounded c m asked r now later a h = ground (
  arith,
  cooldown_for-le-max c 0,
  cooldown_for-le-max c (or_falsy m.breaker_consecutive_opens 0 + 1),
)

trip :
    (c : Config) (m : Monitor) (asked : ℕ) (r : ProbeResult) (now : ℕ)
    → state_of m ≡ closed
    → c.breaker_failure_threshold ≤ failures_after m false
    → is_up r.status ≡ false
    → let m' = cycle c m asked r now in
      (m'.breaker_state ≡ some opened)
      × (m'.breaker_retry_at ≡ some (now + cooldown_for c 0))
      × (m'.breaker_consecutive_opens ≡ some 1)
unfolding cycle assess with_update evaluate_breaker on_check_failure failures_after
trip c m asked r now h n f = ground arith

two_opens : {o p : Option ℕ} → o ≡ some 1 → p ≡ o → or_falsy p 0 + 1 ≡ 2
two_opens e f = ground arith

-- A target that stays dead: the check that opens a CLOSED breaker at t1, the probe at t2 after its
-- retry time, and the check at t3 after that. The breaker is open again only after t3, with the
-- cooldown for two opens in place of the one for one.
pub dead_target :
    (c : Config) (m : Monitor) (r1 r2 r3 : ProbeResult) (t1 t2 t3 : ℕ)
    → state_of m ≡ closed
    → c.breaker_failure_threshold ≤ failures_after m false
    → is_up r1.status ≡ false
    → is_up r2.status ≡ false
    → is_up r3.status ≡ false
    → t1 + cooldown_for c 0 ≤ t2
    → let m1 = cycle c m t1 r1 t1 in
      let m2 = cycle c m1 t2 r2 t2 in
      let m3 = cycle c m2 t3 r3 t3 in
      (m1.breaker_retry_at ≡ some (t1 + cooldown_for c 0))
      × (m2.breaker_state ≡ some half_open)
      × (m3.breaker_state ≡ some opened)
      × (m3.breaker_retry_at ≡ some (t3 + cooldown_for c 2))
      × (m3.breaker_consecutive_opens ≡ some 2)
dead_target c m r1 r2 r3 t1 t2 t3 h n f1 f2 f3 d =
    let a = trip c m t1 r1 t1 h n f1 in
    let m1 = cycle c m t1 r1 t1 in
    let b = cycle-opened c m1 t2 r2 t2 t3 (ground (arith, a.0)) (ground (arith, a.1)) f2 in
    let e = cycle-half_open c (cycle c m1 t2 r2 t2) t3 r3 t3 (ground (arith, b.0)) f3 in
    let k = two_opens a.2 b.2 in
    (a.1, b.0, e.0, e.1 ∙ ap (λ o. some (t3 + cooldown_for c o)) k, e.2 ∙ ap some k)
