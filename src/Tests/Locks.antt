-- ===== src/Tests/Locks.antt =====
-- The scheduler's lease at concrete times: instance 1 holds it until 30000.
use devops_hackathon.Prelude.{ℕ, zero, suc, ◌≡◌, refl, true, false, none, some, arith}
use devops_hackathon.Store.{ok, inserted}
use devops_hackathon.Lock.{Lease, SchedulerLock, new_lock, may_take, fresh, acquire}
use devops_hackathon.Lock.Leadership.{
  System, Reach, here, next, acquires, acquired, Leads, starts, leader_unique,
}
use devops_hackathon.Lock.Failover.{leaders_overlap}
use devops_hackathon.Tests.Samples.{defaults}

abbrev held : Lease
held = record { owner = 1; expires_at = 30000; acquired_at = 0; heartbeat_at = 0 }

abbrev first : SchedulerLock
first = record { ttl_ms = 30000; owner = 1; is_leader = true }

abbrev second : SchedulerLock
second = record { ttl_ms = 30000; owner = 2; is_leader = false }

-- Instance 1 has just acquired.
abbrev after_first : System
after_first =
    acquired (starts defaults 0 none) 1 0 (ok (fresh (new_lock defaults 1) 0, false))
      (some (fresh (new_lock defaults 1) 0))

first_reached : Reach (starts defaults 0 none) after_first
first_reached = next here (acquires 1 0 _ _ (omega arith) (inserted refl refl refl))

first-Leads : Leads after_first 1
unfolding acquire fresh new_lock
first-Leads = (refl, omega arith)

leader_unique_example : ◌≡◌ {A = ℕ} 1 1
leader_unique_example =
    leader_unique defaults 0 none after_first 1 1 first_reached first-Leads first-Leads

second-may_take : may_take second 31000 held ≡ true
unfolding may_take
second-may_take = refl

-- Both instances, the second with no lease yet.
abbrev two : System
two = record {
  clock = 20000;
  stored = some held;
  locks = λ i. elim i [ zero ↦ second | suc j ↦ elim j [ zero ↦ first | suc k ↦ second ] ];
  until = λ i. 30000;
}

leaders_overlap_example :
    (u : System) × Reach two u × ((u.locks 1).is_leader ≡ true) × ((u.locks 2).is_leader ≡ true)
leaders_overlap_example =
    leaders_overlap two 1 2 30000 held refl refl refl (omega arith) (omega arith) (omega arith)
