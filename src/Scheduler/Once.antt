-- ===== src/Scheduler/Once.antt =====
-- Backend/src/jobs/scheduler.js: the updates that a leader's tick sends for one monitor.
use devops_hackathon.Prelude.{
  ℕ, ◌+◌, ◌≤◌, ◌≡◌, refl, sym, ◌∙◌, ap, inl, inr, true, false, List, [], ◌∷◌, arith, length,
  Bool-cases, if◌then◌else◌, ◌==◌, subst,
}
use mathlib.Core.List.Permᴰ.{Permᴰ}
use devops_hackathon.Config.{Config}
use devops_hackathon.Monitor.{Monitor}
use devops_hackathon.Breaker.{Decision}
use devops_hackathon.Store.{ok}
use devops_hackathon.Lock.{acquire}
use devops_hackathon.Check.{
  Stats, CheckEnv, Call, update_one, run_check, probe_of, assess, after_update, count_check,
}
use devops_hackathon.Probe.{is_up}
use devops_hackathon.Check.Effects.{total, one_if_update, run_check_once, total-append}
use devops_hackathon.Scheduler.{
  Scheduler, Task, Dispatch, dispatch, has, delete, run_tasks, tick, TickEnv, check_due, crash,
  max_lag,
}
use devops_hackathon.Scheduler.Admission.{
  ids, Distinct, dispatch_fresh-Tracks, dispatch-admitted, admitted, Unseen,
}
use devops_hackathon.Scheduler.Ticks.{Perm-has, Perm-Distinct}
use devops_hackathon.Scheduler.Outcome.{tick-leader, led_by, tick-executed}

-- One for the update of monitor i.
abbrev pub one_if_updates : ℕ → Call → ℕ
one_if_updates i (update_one j u) = if j == i then 1 else 0
one_if_updates i _ = 0

total-updates : (i : ℕ) (xs : List Call) → total (one_if_updates i) xs ≤ total one_if_update xs
total-updates i [] = omega arith
total-updates i (x ∷ xs) = let k = total-updates i xs in ground arith

run_check-updates :
    (i : ℕ) (c : Config) (m : Monitor) (b : Decision) (e : CheckEnv) (s : Stats)
    → total (one_if_updates i) (run_check c m b e s).calls ≡ (if m.id == i then 1 else 0)
unfolding run_check
run_check-updates i c m b e s =
    let r = probe_of c m b e in
    let a = assess c m b r e.now in
    let rest = (after_update m a r e (count_check s (is_up r.status)) e.updated).calls in
    sums (if m.id == i then 1 else 0) (total one_if_update rest) (total (one_if_updates i) rest)
      (total-updates i rest) (run_check_once c m b e s).1
  where
    sums : (x a b : ℕ) → b ≤ a → 0 + (1 + a) ≡ 1 → 0 + (x + b) ≡ x
    sums x a b le e = omega arith

-- The tasks for monitor i.
abbrev tasks_for : ℕ → List Task → ℕ
tasks_for i [] = 0
tasks_for i (t ∷ ts) = (if t.monitor.id == i then 1 else 0) + tasks_for i ts

run_tasks-updates :
    (i : ℕ) (c : Config) (check : Task → CheckEnv) (ts : List Task) (s : Scheduler)
    → total (one_if_updates i) (run_tasks c check ts s).1 ≡ tasks_for i ts
unfolding run_tasks
run_tasks-updates i c check [] s = refl
run_tasks-updates i c check (t ∷ ts) s =
    let r = run_check c t.monitor t.breaker (check t) s.stats in
    let next = (record s {
      stats = crash r.result r.stats;
      in_flight = delete t.monitor.id s.in_flight;
    }) in
    omega (
      arith,
      total-append (one_if_updates i) r.calls (run_tasks c check ts next).1,
      run_check-updates i c t.monitor t.breaker (check t) s.stats,
      run_tasks-updates i c check ts next,
    )

absent-tasks_for : (i : ℕ) (ts : List Task) → has i (ids ts) ≡ false → tasks_for i ts ≡ 0
absent-tasks_for i [] h = refl
absent-tasks_for i (t ∷ ts) h = let k = absent-tasks_for i ts in ground arith

Distinct-tasks_for :
    (i : ℕ) (ts : List Task)
    → Distinct (ids ts)
    → tasks_for i ts ≡ (if has i (ids ts) then 1 else 0)
Distinct-tasks_for i [] d = refl
Distinct-tasks_for i (t ∷ ts) (n, d) = elim (Bool-cases (t.monitor.id == i)) [
  | inl e ↦ rw e (omega (arith, absent-tasks_for i ts (same e)))
  | inr e ↦ rw e (omega (arith, Distinct-tasks_for i ts d))
]
  where
    same : (t.monitor.id == i) ≡ true → has i (ids ts) ≡ false
    same e = subst (λ k. has k (ids ts) ≡ false) (ground arith) n

check_due-updates :
    (i : ℕ) (c : Config) (e : TickEnv) (due : List Monitor) (s : Scheduler)
    → Distinct s.in_flight
    → Unseen s.in_flight due
    → ((ts : List Task) → Permᴰ ts (e.order ts))
    → total (one_if_updates i) (check_due c e due s).1
      ≡ (if has i (ids (admitted e.now due)) then 1 else 0)
check_due-updates i c e [] s k u p = refl
check_due-updates i c e (m ∷ due) s k u p =
    let d : Dispatch = record {
      in_flight = s.in_flight;
      stats = record s.stats { max_lag_ms = max_lag e.now 0 (m ∷ due) };
      tasks = [];
    } in
    let after = dispatch e.now (m ∷ due) d in
    let order = p after.tasks in
    run_tasks-updates i c e.check (e.order after.tasks)
      (record s { in_flight = after.in_flight; stats = after.stats })
    ∙ Distinct-tasks_for i (e.order after.tasks)
        (Perm-Distinct order (dispatch_fresh-Tracks e.now (m ∷ due) d refl k).distinct)
    ∙ ap (λ b. if b then 1 else 0) (sym (Perm-has order i))
    ∙ ap (λ ts. if has i (ids ts) then 1 else 0) (dispatch-admitted e.now (m ∷ due) d u).0

-- A leader's tick over due monitors that differ from each other and from those in flight, in whatever
-- order its checks end: it executes as many checks as breakers let a monitor through, and the update
-- of a monitor is sent once if its breaker lets it through, and not at all otherwise.
pub tick-admitted :
    (c : Config) (e : TickEnv) (s : Scheduler) (due : List Monitor) (i : ℕ)
    → s.ticking ≡ false
    → (acquire s.lock e.acquired).1 ≡ true
    → e.due ≡ ok due
    → Distinct s.in_flight
    → Unseen s.in_flight due
    → ((ts : List Task) → Permᴰ ts (e.order ts))
    → ((tick c e s).scheduler.stats.checks_executed
        ≡ s.stats.checks_executed + length (admitted e.now due))
      × (total (one_if_updates i) (tick c e s).calls
          ≡ (if has i (ids (admitted e.now due)) then 1 else 0))
tick-admitted c e s due i k l q d u p = (
  tick-executed c e s due k l q u p,
  ap (λ x. total (one_if_updates i) x) (tick-leader c e s due k l q).1
      ∙ check_due-updates i c e due (led_by s (acquire s.lock e.acquired).0) d u p,
)
