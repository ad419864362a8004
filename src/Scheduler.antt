-- ===== src/Scheduler.antt =====
-- Backend/src/jobs/scheduler.js, the class `MonitorScheduler` without `runCheck`: which monitors a
-- tick takes on, which it skips, and what is left when it ends. What the outside answers during a
-- tick is an argument. The checks of a tick are run in the order in which they end.
pub mod Due
pub mod Admission
pub mod Ticks
pub mod Outcome
pub mod Once
pub mod Idle
use devops_hackathon.Prelude.{
  ℕ, ◌+◌, ◌-◌, ◌*◌, Bool, true, false, Option, none, some, List, [], ◌∷◌, ◌++◌, ◌&&◌, ◌||◌, not,
  leb, ltb, ◌==◌, if◌then◌else◌, or_default,
}
use devops_hackathon.Config.{Config}
use devops_hackathon.Monitor.{Monitor}
use devops_hackathon.Breaker.{Decision, evaluate_breaker}
use devops_hackathon.Probe.{ProbeResult}
use devops_hackathon.Store.{Reply, ok, err}
use devops_hackathon.Lock.{SchedulerLock, Lease, acquire, release}
use devops_hackathon.Check.{Stats, CheckEnv, Call, run_check}

-- `timer` is whether the field holds a timeout of the loop.
pub record Scheduler : Type 0 where
  pub tick_ms : ℕ
  pub concurrency : ℕ
  pub shutdown_grace_ms : ℕ
  pub lock : SchedulerLock
  pub enabled : Bool
  pub in_flight : List ℕ
  pub timer : Bool
  pub running : Bool
  pub ticking : Bool
  pub stats : Stats
  pub last_tick_at : Option ℕ
  pub last_tick_duration_ms : Option ℕ

-- `options.x ?? schedulerConfig.X`
pub record Options : Type 0 where
  pub tick_ms : Option ℕ
  pub concurrency : Option ℕ
  pub shutdown_grace_ms : Option ℕ
  pub enabled : Option Bool

unfoldable pub new_scheduler : Config → Options → SchedulerLock → Scheduler
new_scheduler c o lock = record {
  tick_ms = or_default o.tick_ms c.tick_ms;
  concurrency = or_default o.concurrency c.concurrency;
  shutdown_grace_ms = or_default o.shutdown_grace_ms c.shutdown_grace_ms;
  lock = lock;
  enabled = or_default o.enabled c.enabled;
  in_flight = [];
  timer = false;
  running = false;
  ticking = false;
  stats = record {
    is_leader = false;
    ticks = 0;
    checks_executed = 0;
    checks_succeeded = 0;
    checks_failed = 0;
    skipped_overlap = 0;
    skipped_breaker = 0;
    incidents_opened = 0;
    incidents_closed = 0;
    errors = 0;
    max_lag_ms = 0;
  };
  last_tick_at = none;
  last_tick_duration_ms = none;
}

unfoldable pub start : Scheduler → Scheduler
start s = if not s.enabled || s.running then s else (record s { running = true; timer = true })

abbrev pub max_batch : ℕ
max_batch = 500

abbrev is_false : Option Bool → Bool
is_false (some false) = true
is_false _ = false

-- `{ $lte: now }` and `{ $gt: now }` match no document that lacks the field.
abbrev at_most : ℕ → Option ℕ → Bool
at_most now none = false
at_most now (some t) = leb t now

abbrev after : ℕ → Option ℕ → Bool
after now none = false
after now (some t) = ltb now t

-- The filter of `findDueMonitors`.
unfoldable pub is_due : ℕ → Monitor → Bool
is_due now m = not (is_false m.active) && (at_most now m.next_check_at || after now m.last_checked)

-- `due.reduce((max, m) => ..., 0)`: a negative lag is no more than the 0 it starts from.
unfoldable pub max_lag : ℕ → ℕ → List Monitor → ℕ
max_lag now most [] = most
max_lag now most (m ∷ due) =
    let lag = now - or_default m.next_check_at now in
    max_lag now (if ltb most lag then lag else most) due

abbrev pub has : ℕ → List ℕ → Bool
has id [] = false
has id (x ∷ xs) = x == id || has id xs

-- `inFlight.delete(id)`: a set holds an id once.
unfoldable pub delete : ℕ → List ℕ → List ℕ
delete id [] = []
delete id (x ∷ xs) = if x == id then xs else (x ∷ delete id xs)

pub record Task : Type 0 where
  pub monitor : Monitor
  pub breaker : Decision

pub record Dispatch : Type 0 where
  pub in_flight : List ℕ
  pub stats : Stats
  pub tasks : List Task

-- One round of the loop over the due monitors.
abbrev pub admit : ℕ → Monitor → Decision → Dispatch → Dispatch
admit now m b d =
    if has m.id d.in_flight
    then (record d { stats = record stats { skipped_overlap = stats.skipped_overlap + 1 } })
    else if not b.allowed
    then (record d { stats = record stats { skipped_breaker = stats.skipped_breaker + 1 } })
    else (record d {
      in_flight = m.id ∷ d.in_flight;
      tasks = d.tasks ++ record { monitor = m; breaker = b } ∷ [];
    })
  where
    open d use {stats}

unfoldable pub dispatch : ℕ → List Monitor → Dispatch → Dispatch
dispatch now [] d = d
dispatch now (m ∷ due) d = dispatch now due (admit now m (evaluate_breaker m now) d)

pub record TickEnv : Type 0 where
  -- The answer to the lock's upsert.
  pub acquired : Reply (Lease × Bool)
  pub now : ℕ
  pub due : Reply (List Monitor)
  -- The order in which the checks end, and what each meets.
  pub order : List Task → List Task
  pub check : Task → CheckEnv
  pub ended_at : ℕ
  pub duration_ms : ℕ

pub record TickRun : Type 0 where
  pub scheduler : Scheduler
  -- Those of the checks. The upsert of the lease and the query for the due monitors precede them.
  pub calls : List Call
  pub result : Reply (Unit {0})

abbrev pub count_error : Stats → Stats
count_error s = record s { errors = s.errors + 1 }

-- What the pool makes of a task that throws.
abbrev crash : Reply ProbeResult → Stats → Stats
crash (ok r) s = s
crash (err x) s = count_error s

-- The tasks, each with its `finally`, and the count of those that crashed.
unfoldable pub run_tasks :
    Config → (Task → CheckEnv) → List Task → Scheduler → Scheduler × List Call
unfolding delete
run_tasks c check [] s = (s, [])
run_tasks c check (t ∷ ts) s =
    let r = run_check c t.monitor t.breaker (check t) s.stats in
    let rest =
      run_tasks c check ts (record s {
        stats = crash r.result r.stats;
        in_flight = delete t.monitor.id s.in_flight;
      }) in
    (rest.0, r.calls ++ rest.1)

abbrev check_due : Config → TickEnv → List Monitor → Scheduler → Scheduler × List Call
check_due c e [] s = (s, [])
check_due c e (m ∷ due) s =
    let d = dispatch e.now (m ∷ due) (record {
      in_flight = s.in_flight;
      stats = record s.stats { max_lag_ms = max_lag e.now 0 (m ∷ due) };
      tasks = [];
    }) in
    run_tasks c e.check (e.order d.tasks) (record s { in_flight = d.in_flight; stats = d.stats })

abbrev lead : Config → TickEnv → Scheduler → Reply (List Monitor) → TickRun
lead c e s (err x) = record { scheduler = s; calls = []; result = err x }
lead c e s (ok due) =
    let rest = check_due c e due s in record { scheduler = rest.0; calls = rest.1; result = ok tt }

-- The body of the `try`, from the lock's answer on.
abbrev follow_or_lead : Config → TickEnv → Scheduler → SchedulerLock × Bool → TickRun
follow_or_lead c e s (lock, false) = record {
  scheduler = record s { lock = lock; stats = record s.stats { is_leader = false } };
  calls = [];
  result = ok tt;
}
follow_or_lead c e s (lock, true) =
    lead c e
      (record s {
        lock = lock;
        stats = record s.stats { is_leader = true; ticks = s.stats.ticks + 1 };
      })
      e.due

-- The `finally`.
abbrev finish_tick : TickEnv → TickRun → TickRun
finish_tick e r = record r {
  scheduler = record r.scheduler {
    last_tick_at = some e.ended_at;
    last_tick_duration_ms = some e.duration_ms;
    ticking = false;
  };
}

unfoldable pub tick : Config → TickEnv → Scheduler → TickRun
unfolding max_lag dispatch run_tasks acquire
tick c e s =
    if s.ticking
    then (record { scheduler = s; calls = []; result = ok tt })
    else (finish_tick e
        (follow_or_lead c e (record s { ticking = true }) (acquire s.lock e.acquired)))

-- What the loop does with a tick that threw, and whether it sets the next timeout.
abbrev settle_tick : TickRun → Reply (Unit {0}) → Scheduler
settle_tick r (ok _) = r.scheduler
settle_tick r (err x) = record r.scheduler { stats = count_error r.scheduler.stats }

abbrev rearm : Scheduler → Scheduler
rearm s = if s.running then (record s { timer = true }) else s

unfoldable pub loop : Config → TickEnv → Scheduler → Scheduler × List Call
unfolding tick
loop c e s =
    if not s.running
    then (s, [])
    else let r = tick c e s in (rearm (settle_tick r r.result), r.calls)

-- `stop` up to its wait, the test of the wait, and the rest after it.
unfoldable pub stop_accepting : Scheduler → Scheduler
stop_accepting s = record s { running = false; timer = false }

abbrev none_in_flight : List ℕ → Bool
none_in_flight [] = true
none_in_flight (x ∷ xs) = false

unfoldable pub still_waiting : ℕ → ℕ → Scheduler → Bool
still_waiting stopped_at now s =
    not (none_in_flight s.in_flight) && ltb now (stopped_at + s.shutdown_grace_ms)

unfoldable pub finish_stop : Scheduler → Scheduler × Bool
unfolding release
finish_stop s =
    let r = release s.lock in
    (record s { lock = r.0; stats = record s.stats { is_leader = false } }, r.1)
