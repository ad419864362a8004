-- ===== src/Lock.antt =====
-- Backend/src/services/lock.service.js and models/schedulerLock.model.js: the lease lock by which
-- one instance leads. The reply of the database is an argument of `acquire`; Lock/Leadership
-- composes it with the database's documented behaviour.
pub mod Leadership
pub mod Failover
use devops_hackathon.Prelude.{
  ℕ, ◌+◌, Bool, true, false, Option, none, some, ◌||◌, leb, ◌==◌, if◌then◌else◌,
}
use devops_hackathon.Config.{Config}
use devops_hackathon.Store.{Reply, ok, err}

-- The one document of the collection. An owner is a number in place of INSTANCE_ID.
pub record Lease : Type 0 where
  pub owner : ℕ
  pub expires_at : ℕ
  pub acquired_at : ℕ
  pub heartbeat_at : ℕ

-- An instance's lock object.
pub record SchedulerLock : Type 0 where
  pub ttl_ms : ℕ
  pub owner : ℕ
  pub is_leader : Bool

unfoldable pub new_lock : Config → ℕ → SchedulerLock
new_lock c owner = record { ttl_ms = c.lock_ttl_ms; owner = owner; is_leader = false }

-- `$or: [{ expiresAt: { $lte: now } }, { owner: this.owner }]`
unfoldable pub may_take : SchedulerLock → ℕ → Lease → Bool
may_take l now d = leb d.expires_at now || d.owner == l.owner

-- `$set: { owner, expiresAt, heartbeatAt: now }`
unfoldable pub renewed : SchedulerLock → ℕ → Lease → Lease
renewed l now d = record d { owner = l.owner; expires_at = now + l.ttl_ms; heartbeat_at = now }

-- The inserted document, `$setOnInsert: { acquiredAt: now }` included.
unfoldable pub fresh : SchedulerLock → ℕ → Lease
fresh l now = record {
  owner = l.owner;
  expires_at = now + l.ttl_ms;
  acquired_at = now;
  heartbeat_at = now;
}

-- What `acquire` does with the reply: `isLeader` and the value returned are the same.
unfoldable pub acquire : SchedulerLock → Reply (Lease × Bool) → SchedulerLock × Bool
acquire l (ok (doc, existing)) =
    let held = doc.owner == l.owner in (record l { is_leader = held }, held)
acquire l (err e) = (record l { is_leader = false }, false)

-- `release`: whether `deleteOne({ _id, owner })` is sent; a failure of it is swallowed.
unfoldable pub release : SchedulerLock → SchedulerLock × Bool
release l = if l.is_leader then (record l { is_leader = false }, true) else (l, false)

-- The filter of that deletion.
unfoldable pub owned_by : SchedulerLock → Lease → Bool
owned_by l d = d.owner == l.owner
