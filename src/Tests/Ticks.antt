-- ===== src/Tests/Ticks.antt =====
-- Ticks of a scheduler that holds the lease, and of one that has lost it.
use devops_hackathon.Prelude.{
  ◌+◌, ◌*◌, ◌≤◌, ◌<◌, ◌≡◌, ◌↔◌, ◌⊎◌, refl, true, false, none, [], ◌∷◌, length, if◌then◌else◌,
}
use mathlib.Core.List.Permᴰ
use devops_hackathon.Monitor.{Monitor}
use devops_hackathon.Breaker.{evaluate_breaker}
use devops_hackathon.Store.{ok, err, failure}
use devops_hackathon.Lock.{new_lock, acquire}
use devops_hackathon.Check.{CheckEnv, assess, with_update}
use devops_hackathon.Scheduler.{
  Scheduler, Dispatch, TickEnv, new_scheduler, start, tick, has, dispatch, is_due,
}
use devops_hackathon.Scheduler.Due.{rescheduled-is_due, span}
use devops_hackathon.Scheduler.Admission.{Tracks, admitted, ids, dispatch_fresh-Tracks}
use devops_hackathon.Scheduler.Ticks.{tick-in_flight}
use devops_hackathon.Scheduler.Once.{one_if_updates, tick-admitted}
use devops_hackathon.Check.Effects.{total}
use devops_hackathon.Scheduler.Idle.{tick-Refused, Idles}
use devops_hackathon.Tests.Samples.{site, open_site, defaults, no_stats, normal, bad, fine}

abbrev running : Scheduler
running = record {
  tick_ms = 5000;
  concurrency = 10;
  shutdown_grace_ms = 10000;
  lock = new_lock defaults 1;
  enabled = true;
  in_flight = [];
  timer = true;
  running = true;
  ticking = false;
  stats = no_stats;
  last_tick_at = none;
  last_tick_duration_ms = none;
}

-- As the constructor and `start` make it, but for the leadership in the statistics.
start-new_scheduler :
    start (
      new_scheduler defaults
        (record { tick_ms = none; concurrency = none; shutdown_grace_ms = none; enabled = none })
        (new_lock defaults 1))
    ≡ record running { stats = record no_stats { is_leader = false } }
unfolding start new_scheduler
start-new_scheduler = refl

abbrev other : Monitor
other = record site { id = 8 }

abbrev refused_site : Monitor
refused_site = record open_site { id = 9 }

abbrev answers : CheckEnv
answers = record {
  now = 200;
  headers = [];
  attempt = λ o n. fine;
  random = λ n c. 0;
  updated = ok tt;
  logged = err (failure "disk full");
  open_env = record {
    now = 200;
    new_id = 1;
    upserted = err (failure "down");
    existing = ok none;
    analysis = ok none;
    saved = ok tt;
    found_user = ok none;
  };
  close_env = record { now = 200; resolved = ok none; saved = ok tt; found_user = ok none };
}

abbrev leading : TickEnv
leading = record {
  acquired =
      ok (record { owner = 1; expires_at = 30100; acquired_at = 100; heartbeat_at = 100 }, true);
  now = 100;
  due = ok (site ∷ refused_site ∷ other ∷ []);
  order = λ ts. ts;
  check = λ t. answers;
  ended_at = 300;
  duration_ms = 200;
}

abbrev idle : Dispatch
idle = record { in_flight = []; stats = no_stats; tasks = [] }

rescheduled-is_due_example :
    let m = with_update (assess defaults site normal bad 1000).update site in
    ((is_due 61000 m ≡ true) ↔ ((61000 < 1000) ⊎ (1000 + span site.interval * 1000 ≤ 61000)))
    × (5000 ≤ span site.interval * 1000)
rescheduled-is_due_example = rescheduled-is_due defaults site normal bad 1000 61000 refl

dispatch_fresh-Tracks_example : Tracks 100 [] (dispatch 100 (site ∷ site ∷ refused_site ∷ []) idle)
dispatch_fresh-Tracks_example =
    dispatch_fresh-Tracks 100 (site ∷ site ∷ refused_site ∷ []) idle refl tt

tick-in_flight_example : (tick defaults leading running).scheduler.in_flight ≡ []
tick-in_flight_example = tick-in_flight defaults leading running refl Permᴰ.refl

tick-admitted_example :
    ((tick defaults leading running).scheduler.stats.checks_executed
      ≡ 0 + length (admitted 100 (site ∷ refused_site ∷ other ∷ [])))
    × (total (one_if_updates 8) (tick defaults leading running).calls
        ≡ (if has 8 (ids (admitted 100 (site ∷ refused_site ∷ other ∷ []))) then 1 else 0))
unfolding acquire new_lock
tick-admitted_example =
    tick-admitted defaults leading running (site ∷ refused_site ∷ other ∷ []) 8 refl refl refl tt
      (refl, (refl, (refl, tt))) Permᴰ.refl

abbrev following : TickEnv
following = record leading {
  acquired =
      ok (record { owner = 2; expires_at = 30100; acquired_at = 100; heartbeat_at = 100 }, true);
}

tick-Refused_example :
    let r = tick defaults (record leading { due = ok (refused_site ∷ []) }) running in
    Idles 1 running (r.scheduler, r.calls)
unfolding acquire new_lock evaluate_breaker
tick-Refused_example =
    tick-Refused defaults (record leading { due = ok (refused_site ∷ []) }) running
      (refused_site ∷ []) refl refl refl (refl, tt) Permᴰ.refl
