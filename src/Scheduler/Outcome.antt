-- ===== src/Scheduler/Outcome.antt =====
-- Backend/src/jobs/scheduler.js: the checks of a leader's tick.
use devops_hackathon.Prelude.{
  ℕ, ◌+◌, ◌≡◌, refl, ◌∙◌, ap, inl, inr, Bool, true, false, List, [], ◌∷◌, arith, length, Bool-cases,
}
use mathlib.Core.List.Permᴰ.{Permᴰ, nil, cons, swap, trans}
use devops_hackathon.Config.{Config}
use devops_hackathon.Monitor.{Monitor}
use devops_hackathon.Breaker.{Decision, evaluate_breaker}
use devops_hackathon.Probe.{ProbeResult}
use devops_hackathon.Store.{Reply, ok, err}
use devops_hackathon.Lock.{SchedulerLock, acquire}
use devops_hackathon.Check.{Stats, CheckEnv, run_check}
use devops_hackathon.Check.Effects.{run_check_once}
use devops_hackathon.Scheduler.{
  Scheduler, Task, Dispatch, dispatch, admit, has, delete, run_tasks, tick, TickEnv, follow_or_lead,
  lead, check_due, crash, max_lag,
}
use devops_hackathon.Scheduler.Admission.{dispatch-admitted, admitted, Unseen}

pub Perm-length : {ts us : List Task} → Permᴰ ts us → length ts ≡ length us
Perm-length nil = refl
Perm-length (cons e p) = omega (arith, Perm-length p)
Perm-length (swap e f) = refl
Perm-length (trans p q) = Perm-length p ∙ Perm-length q

-- A crash counts as an error, and changes no other number.
crash-executed :
    (r : Reply ProbeResult) (s : Stats) → (crash r s).checks_executed ≡ s.checks_executed
crash-executed (ok r) s = refl
crash-executed (err x) s = refl

run_tasks-executed :
    (c : Config) (check : Task → CheckEnv) (ts : List Task) (s : Scheduler)
    → (run_tasks c check ts s).0.stats.checks_executed ≡ s.stats.checks_executed + length ts
unfolding run_tasks
run_tasks-executed c check [] s = omega arith
run_tasks-executed c check (t ∷ ts) s =
    let r = run_check c t.monitor t.breaker (check t) s.stats in
    let k = (run_check_once c t.monitor t.breaker (check t) s.stats).0 in
    omega (
      arith,
      run_tasks-executed c check ts (record s {
        stats = crash r.result r.stats;
        in_flight = delete t.monitor.id s.in_flight;
      }),
      crash-executed r.result r.stats,
      k.executed,
    )

admit-executed :
    (now : ℕ) (m : Monitor) (b : Decision) (d : Dispatch)
    → (admit now m b d).stats.checks_executed ≡ d.stats.checks_executed
admit-executed now m b d = elim (Bool-cases (has m.id d.in_flight)) [
  | inl h ↦ simp h refl
  | inr h ↦ simp h (elim (Bool-cases b.allowed) [ inl a ↦ simp a refl | inr a ↦ simp a refl ])
]

dispatch-executed :
    (now : ℕ) (due : List Monitor) (d : Dispatch)
    → (dispatch now due d).stats.checks_executed ≡ d.stats.checks_executed
unfolding dispatch
dispatch-executed now [] d = refl
dispatch-executed now (m ∷ due) d =
    let b = evaluate_breaker m now in
    dispatch-executed now due (admit now m b d) ∙ admit-executed now m b d

check_due-executed :
    (c : Config) (e : TickEnv) (due : List Monitor) (s : Scheduler)
    → Unseen s.in_flight due
    → ((ts : List Task) → Permᴰ ts (e.order ts))
    → (check_due c e due s).0.stats.checks_executed
      ≡ s.stats.checks_executed + length (admitted e.now due)
check_due-executed c e [] s u p = omega arith
check_due-executed c e (m ∷ due) s u p =
    let d : Dispatch = record {
      in_flight = s.in_flight;
      stats = record s.stats { max_lag_ms = max_lag e.now 0 (m ∷ due) };
      tasks = [];
    } in
    let after = dispatch e.now (m ∷ due) d in
    omega (
      arith,
      run_tasks-executed c e.check (e.order after.tasks)
          (record s { in_flight = after.in_flight; stats = after.stats }),
      dispatch-executed e.now (m ∷ due) d,
      Perm-length (p after.tasks),
      ap length (dispatch-admitted e.now (m ∷ due) d u).0,
    )

-- The state in which a leader's tick asks for the due monitors.
abbrev pub led_by : Scheduler → SchedulerLock → Scheduler
led_by s l = record s {
  lock = l;
  ticking = true;
  stats = record s.stats { is_leader = true; ticks = s.stats.ticks + 1 };
}

follow_or_lead-leader :
    (c : Config) (e : TickEnv) (s : Scheduler) (l : SchedulerLock × Bool)
    → l.1 ≡ true
    → follow_or_lead c e (record s { ticking = true }) l ≡ lead c e (led_by s l.0) e.due
follow_or_lead-leader c e s (l, true) h = refl
follow_or_lead-leader c e s (l, false) h = ground arith

pub tick-leader :
    (c : Config) (e : TickEnv) (s : Scheduler) (due : List Monitor)
    → s.ticking ≡ false
    → (acquire s.lock e.acquired).1 ≡ true
    → e.due ≡ ok due
    → let r = check_due c e due (led_by s (acquire s.lock e.acquired).0) in
      ((tick c e s).scheduler.stats ≡ r.0.stats)
      × ((tick c e s).calls ≡ r.1)
      × ((tick c e s).scheduler.in_flight ≡ r.0.in_flight)
unfolding tick
tick-leader c e s due k l q =
    simp k
      (simp (follow_or_lead-leader c e s (acquire s.lock e.acquired) l) (simp q (refl, refl, refl)))

-- How many checks a leader's tick executes.
pub tick-executed :
    (c : Config) (e : TickEnv) (s : Scheduler) (due : List Monitor)
    → s.ticking ≡ false
    → (acquire s.lock e.acquired).1 ≡ true
    → e.due ≡ ok due
    → Unseen s.in_flight due
    → ((ts : List Task) → Permᴰ ts (e.order ts))
    → (tick c e s).scheduler.stats.checks_executed
      ≡ s.stats.checks_executed + length (admitted e.now due)
tick-executed c e s due k l q u p =
    ap (λ x. x.checks_executed) (tick-leader c e s due k l q).0
    ∙ check_due-executed c e due (led_by s (acquire s.lock e.acquired).0) u p
