-- ===== src/Lock/Failover.antt =====
-- Backend/src/services/lock.service.js: how leadership moves from one instance to another.
use devops_hackathon.Prelude.{ℕ, ◌+◌, ◌≤◌, ◌≡◌, refl, ◌≢◌, sym, Bool, true, Option, some, arith}
use devops_hackathon.Store.{
  Reply, ok, Upsert, updated, inserted, conflict, failed, updated_unacknowledged,
  inserted_unacknowledged,
}
use devops_hackathon.Lock.{Lease, SchedulerLock, may_take, renewed, fresh, acquire}
use devops_hackathon.Lock.Leadership.{
  System, Backs, Reach, here, next, tick, acquires, acquired, put-eq, put-ne,
}

-- Once the stored lease d has run out, an `acquire` that the database serves without an error makes
-- the caller leader, with a lease in its own name that runs for one TTL.
pub acquire_expired :
    (l : SchedulerLock) (now : ℕ) (d : Lease) (after : Option Lease) (reply : Reply (Lease × Bool))
    (x : Lease × Bool)
    → d.expires_at ≤ now
    → reply ≡ ok x
    → Upsert (may_take l now) (renewed l now) (fresh l now) (some d) reply after
    → ((acquire l reply).1 ≡ true) × Backs after l.owner (now + l.ttl_ms)
unfolding acquire renewed
acquire_expired l now d after reply x le e (updated d' b m r a) =
    (ground arith, (renewed l now d', a, refl, refl))
acquire_expired l now d after reply x le e (inserted b r a) = absurd (cc)
acquire_expired l now d after reply x le e (conflict d' b r a) = absurd (cc)
acquire_expired l now d after reply x le e (failed text r a) = absurd (cc)
acquire_expired l now d after reply x le e (updated_unacknowledged d' text b m r a) = absurd (cc)
acquire_expired l now d after reply x le e (inserted_unacknowledged text b r a) = absurd (cc)

-- The system after another instance j takes the lease at a time t.
abbrev usurped : System → ℕ → ℕ → Lease → System
usurped s j t d =
    let late = record s { clock = t } in
    acquired late j t (ok (renewed (s.locks j) t d, true)) (some (renewed (s.locks j) t d))

-- Leadership is only as fresh as the last `acquire`: from any state where i believes that it leads
-- and its lease is stored, an instance j can come to lead, by waiting for a time t at which that lease
-- has run out, and i still believes that it leads.
pub leaders_overlap :
    (s : System) (i j t : ℕ) (d : Lease)
    → (s.locks j).owner ≡ j
    → (s.locks i).is_leader ≡ true
    → s.stored ≡ some d
    → i ≢ j
    → d.expires_at ≤ t
    → s.clock ≤ t
    → (u : System) × Reach s u × ((u.locks i).is_leader ≡ true) × ((u.locks j).is_leader ≡ true)
unfolding acquire may_take renewed
leaders_overlap s i j t d named leads e ne le later = (
  usurped s j t d,
  next (next here (tick t later))
      (acquires j t _ _ (omega arith) (updated d e (ground arith) refl refl)),
  rw (put-ne s.locks (acquire (s.locks j) (ok (renewed (s.locks j) t d, true))).0 (λ q. ne (sym q)))
      leads,
  rw
      (put-eq s.locks {i = j} {j = j} (acquire (s.locks j) (ok (renewed (s.locks j) t d, true))).0
        refl)
      (ground arith),
)
