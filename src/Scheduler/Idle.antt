-- ===== src/Scheduler/Idle.antt =====
-- Backend/src/jobs/scheduler.js: ticks without a check, and a turn of the loop.
use devops_hackathon.Prelude.{
  ℕ, ◌≡◌, refl, ◌∙◌, ap, Bool, true, false, List, [], ◌∷◌, arith, length, All, not, if◌then◌else◌,
  ◌+◌, Bool-cases, inl, inr,
}
use mathlib.Core.List.Permᴰ.{Permᴰ}
use devops_hackathon.Config.{Config}
use devops_hackathon.Monitor.{Monitor}
use devops_hackathon.Breaker.{Decision, evaluate_breaker}
use devops_hackathon.Store.{Reply, ok, err}
use devops_hackathon.Lock.{SchedulerLock, acquire}
use devops_hackathon.Check.{CheckEnv, Call}
use devops_hackathon.Scheduler.{
  Scheduler, Stats, admit, has, Task, Dispatch, dispatch, run_tasks, tick, loop, TickEnv, TickRun,
  follow_or_lead, check_due, max_lag, settle_tick, rearm,
}
use devops_hackathon.Scheduler.Outcome.{tick-leader, led_by, Perm-length}

-- A follower's tick makes no call; of the statistics it changes the leadership alone.
pub tick-follower :
    (c : Config) (e : TickEnv) (s : Scheduler)
    → s.ticking ≡ false
    → (acquire s.lock e.acquired).1 ≡ false
    → ((tick c e s).calls ≡ [])
      × ((tick c e s).scheduler.stats ≡ record s.stats { is_leader = false })
      × ((tick c e s).scheduler.in_flight ≡ s.in_flight)
unfolding tick
tick-follower c e s k l = simp k (followed (acquire s.lock e.acquired) l)
  where
    followed :
        (l : SchedulerLock × Bool)
        → l.1 ≡ false
        → let r = follow_or_lead c e (record s { ticking = true }) l in
          (r.calls ≡ [])
          × (r.scheduler.stats ≡ record s.stats { is_leader = false })
          × (r.scheduler.in_flight ≡ s.in_flight)
    followed (l, false) h = (refl, refl, refl)
    followed (l, true) h = ground arith

-- The breaker refuses each of the monitors.
abbrev pub Refused : ℕ → List Monitor → Type 0
Refused now due = All (λ m. (evaluate_breaker m now).allowed ≡ false) due

abbrev skipped : Stats → ℕ
skipped x = x.skipped_overlap + x.skipped_breaker

-- What a round of the loop leaves, when it admits no monitor.
abbrev Passes : ℕ → Dispatch → Dispatch → Type 0
Passes n d e =
    (e.tasks ≡ d.tasks)
    × (e.in_flight ≡ d.in_flight)
    × (e.stats.checks_executed ≡ d.stats.checks_executed)
    × (skipped e.stats ≡ skipped d.stats + n)

admit-Passes :
    (now : ℕ) (m : Monitor) (b : Decision) (d : Dispatch)
    → b.allowed ≡ false
    → Passes 1 d (admit now m b d)
admit-Passes now m b d h = elim (Bool-cases (has m.id d.in_flight)) [
  | inl e ↦ rw e (refl, refl, refl, omega arith)
  | inr e ↦ rw (e, h) (refl, refl, refl, omega arith)
]

dispatch-Passes :
    (now : ℕ) (due : List Monitor) (d : Dispatch)
    → Refused now due
    → Passes (length due) d (dispatch now due d)
unfolding dispatch
dispatch-Passes now [] d r = (refl, refl, refl, omega arith)
dispatch-Passes now (m ∷ due) d (a, r) =
    let (t, f, x, n) = admit-Passes now m (evaluate_breaker m now) d a in
    let (ts, fs, xs, ns) = dispatch-Passes now due (admit now m (evaluate_breaker m now) d) r in
    (ts ∙ t, fs ∙ f, xs ∙ x, omega (arith, n, ns))

run_tasks-none :
    (c : Config) (check : Task → CheckEnv) (ts : List Task) (s : Scheduler)
    → length ts ≡ 0
    → run_tasks c check ts s ≡ (s, [])
unfolding run_tasks
run_tasks-none c check [] s h = refl
run_tasks-none c check (t ∷ ts) s h = ground arith

-- What a batch of n monitors leaves of a scheduler, when none of them is checked.
abbrev pub Idles : ℕ → Scheduler → Scheduler × List Call → Type 0
Idles n s x =
    (x.1 ≡ [])
    × (x.0.in_flight ≡ s.in_flight)
    × (x.0.stats.checks_executed ≡ s.stats.checks_executed)
    × (skipped x.0.stats ≡ skipped s.stats + n)

check_due-Refused :
    (c : Config) (e : TickEnv) (due : List Monitor) (s : Scheduler)
    → Refused e.now due
    → ((ts : List Task) → Permᴰ ts (e.order ts))
    → Idles (length due) s (check_due c e due s)
check_due-Refused c e [] s r p = (refl, refl, refl, omega arith)
check_due-Refused c e (m ∷ due) s r p =
    let d : Dispatch = record {
      in_flight = s.in_flight;
      stats = record s.stats { max_lag_ms = max_lag e.now 0 (m ∷ due) };
      tasks = [];
    } in
    let after = dispatch e.now (m ∷ due) d in
    let (ts, fs, xs, ns) = dispatch-Passes e.now (m ∷ due) d r in
    let none_left : length (e.order after.tasks) ≡ 0 =
      omega (arith, Perm-length (p after.tasks), ap length ts) in
    let ran =
      run_tasks-none c e.check (e.order after.tasks)
        (record s { in_flight = after.in_flight; stats = after.stats }) none_left in
    (
      ap (λ x. x.1) ran,
      ap (λ x. x.0.in_flight) ran ∙ fs,
      ap (λ x. x.0.stats.checks_executed) ran ∙ xs,
      ap (λ x. skipped x.0.stats) ran ∙ ns,
    )

-- A batch that the breakers refuse as a whole, whatever is in flight, with no other tick under way and
-- the checks in any order: the leader's tick makes no call of a check, leaves in flight what was, counts
-- no check, and counts every monitor of the batch as skipped, for an overlap or for the breaker.
pub tick-Refused :
    (c : Config) (e : TickEnv) (s : Scheduler) (due : List Monitor)
    → s.ticking ≡ false
    → (acquire s.lock e.acquired).1 ≡ true
    → e.due ≡ ok due
    → Refused e.now due
    → ((ts : List Task) → Permᴰ ts (e.order ts))
    → Idles (length due) s ((tick c e s).scheduler, (tick c e s).calls)
tick-Refused c e s due k l q r p =
    let (stats, calls, in_flight) = tick-leader c e s due k l q in
    let (none, kept, same, passed) =
      check_due-Refused c e due (led_by s (acquire s.lock e.acquired).0) r p in
    (
      calls ∙ none,
      in_flight ∙ kept,
      ap (λ x. x.checks_executed) stats ∙ same,
      ap skipped stats ∙ passed,
    )

run_tasks-running :
    (c : Config) (check : Task → CheckEnv) (ts : List Task) (s : Scheduler)
    → (run_tasks c check ts s).0.running ≡ s.running
unfolding run_tasks
run_tasks-running c check [] s = refl
run_tasks-running c check (t ∷ ts) s = run_tasks-running c check ts _

tick-running :
    (c : Config) (e : TickEnv) (s : Scheduler)
    → s.ticking ≡ false
    → ((tick c e s).scheduler.running ≡ s.running) × ((tick c e s).scheduler.ticking ≡ false)
unfolding tick
tick-running c e s k = simp k (ran (acquire s.lock e.acquired) e.due refl, refl)
  where
    checked : (due : List Monitor) (s : Scheduler) → (check_due c e due s).0.running ≡ s.running
    checked [] s = refl
    checked (m ∷ due) s =
        let d = dispatch e.now (m ∷ due) (record {
          in_flight = s.in_flight;
          stats = record s.stats { max_lag_ms = max_lag e.now 0 (m ∷ due) };
          tasks = [];
        }) in
        run_tasks-running c e.check (e.order d.tasks)
          (record s { in_flight = d.in_flight; stats = d.stats })

    ran :
        (l : SchedulerLock × Bool) (due : Reply (List Monitor))
        → e.due ≡ due
        → (follow_or_lead c e (record s { ticking = true }) l).scheduler.running ≡ s.running
    ran (l, false) due q = refl
    ran (l, true) (ok due) q = simp q (checked due (led_by s l))
    ran (l, true) (err x) q = simp q refl

settle_tick-running :
    (r : TickRun) (x : Reply (Unit {0}))
    → ((settle_tick r x).running ≡ r.scheduler.running)
      × ((settle_tick r x).ticking ≡ r.scheduler.ticking)
settle_tick-running r (ok _) = (refl, refl)
settle_tick-running r (err x) = (refl, refl)

rearm-timer :
    (s : Scheduler)
    → s.running ≡ true
    → ((rearm s).timer ≡ true) × ((rearm s).running ≡ true) × ((rearm s).ticking ≡ s.ticking)
rearm-timer s h = branch s.running h
  where
    branch :
        (b : Bool)
        → b ≡ true
        → let t = if b then (record s { timer = true }) else s in
          (t.timer ≡ true) × (t.running ≡ true) × (t.ticking ≡ s.ticking)
    branch true g = (refl, h, refl)
    branch false g = ground arith

-- The scheduler runs, the next timeout is set and no tick is under way.
abbrev pub Waits : Scheduler → Type 0
Waits s = (s.timer ≡ true) × (s.running ≡ true) × (s.ticking ≡ false)

branch-Waits :
    (b : Bool) (s t : Scheduler × List Call)
    → b ≡ true
    → Waits t.0
    → Waits (if not b then s else t).0
branch-Waits true s t h w = w
branch-Waits false s t h w = ground arith

-- One turn of the loop, begun by a running scheduler with no tick under way: whether its tick throws
-- or not, the scheduler still runs, the next timeout is set and no tick is under way.
pub loop-Waits :
    (c : Config) (e : TickEnv) (s : Scheduler)
    → s.running ≡ true
    → s.ticking ≡ false
    → Waits (loop c e s).0
unfolding loop
loop-Waits c e s h k =
    let r = tick c e s in
    let (run, ticking) = tick-running c e s k in
    let (keep, rest) = settle_tick-running r r.result in
    let (timer, running, same) = rearm-timer (settle_tick r r.result) (keep ∙ run ∙ h) in
    branch-Waits s.running (s, []) (rearm (settle_tick r r.result), r.calls) h
      (timer, running, same ∙ rest ∙ ticking)
