-- ===== src/Lock/Leadership.antt =====
-- Backend/src/services/lock.service.js: any number of instances that contend for the lease, over
-- MongoDB's documented upsert. All instances read one clock.
use devops_hackathon.Prelude.{
  ℕ, ◌+◌, ◌≤◌, ◌<◌, ◌≡◌, refl, ◌≢◌, Bool, true, Option, none, some, arith, ◌==◌, ==_iff, inl, inr,
  sym, ap, ◌∙◌, Bool-cases, if◌then◌else◌,
}
use native.Mathlib.Decide.{ℕ_discrete}
use devops_hackathon.Config.{Config}
use devops_hackathon.Store.{
  Reply, ok, err, Upsert, updated, inserted, conflict, updated_unacknowledged,
  inserted_unacknowledged, Modify, failed, changed, unmatched, changed_unacknowledged,
}
use devops_hackathon.Lock.{
  Lease, SchedulerLock, may_take, renewed, fresh, new_lock, acquire, release, owned_by,
}

-- The instances' lock objects by owner, the stored lease, and the clock. `until i` is when the
-- lease that `i` last acquired runs out.
pub record System : Type 0 where
  pub clock : ℕ
  pub stored : Option Lease
  pub locks : ℕ → SchedulerLock
  pub until : ℕ → ℕ

abbrev pub put {ℓ} : {A : Type ℓ} → (ℕ → A) → ℕ → A → ℕ → A
put f i a j = if i == j then a else f j

pub put-eq {ℓ} : {A : Type ℓ} (f : ℕ → A) {i j : ℕ} (a : A) → i ≡ j → put f i a j ≡ a
put-eq f {i} {j} a e = rw (e, (==_iff j j).1 refl) refl

pub put-ne {ℓ} : {A : Type ℓ} (f : ℕ → A) {i j : ℕ} (a : A) → i ≢ j → put f i a j ≡ f j
put-ne f {i} {j} a ne = elim (Bool-cases (i == j)) [
  | inl e ↦ absurd (ne ((==_iff i j).0 e))
  | inr e ↦ rw e
]

-- After a reply to the `acquire` that `i` called at `now`.
abbrev pub acquired : System → ℕ → ℕ → Reply (Lease × Bool) → Option Lease → System
acquired s i now reply after = record s {
  stored = after;
  locks = put s.locks i (acquire (s.locks i) reply).0;
  until = put s.until i (now + (s.locks i).ttl_ms);
}

pub data Step (s : System) : System → Type 0 where
  tick : (t : ℕ) → s.clock ≤ t → Step s (record s { clock = t })
  -- The request was made at `now`, and the database serves it at the present time.
  acquires :
      (i now : ℕ) (reply : Reply (Lease × Bool)) (after : Option Lease)
      → now ≤ s.clock
      → Upsert
          (may_take (s.locks i) now)
          (renewed (s.locks i) now)
          (fresh (s.locks i) now)
          s.stored
          reply
          after
      → Step s (acquired s i now reply after)
  releases :
      (i : ℕ) (reply : Reply (Option Lease)) (after : Option Lease)
      → (release (s.locks i)).1 ≡ true
      → Modify (owned_by (s.locks i)) (λ d. none) (λ d. d) s.stored reply after
      → Step s (record s { stored = after; locks = put s.locks i (release (s.locks i)).0 })
  -- The TTL index removes a lease that has run out.
  sweeps :
      (d : Lease) → s.stored ≡ some d → d.expires_at ≤ s.clock → Step s (record s { stored = none })

pub data Reach (s : System) : System → Type 0 where
  here : Reach s s
  next : {t u : System} → Reach s t → Step t u → Reach s u

-- `i` believes that it leads, and its lease has not run out.
abbrev pub Leads : System → ℕ → Type 0
Leads s i = ((s.locks i).is_leader ≡ true) × (s.clock < s.until i)

-- A lease that backs the belief of `i` up to the time `t`.
abbrev pub Backs : Option Lease → ℕ → ℕ → Type 0
Backs stored i t = (d : Lease) × (stored ≡ some d) × (d.owner ≡ i) × (d.expires_at ≡ t)

pub record Inv (s : System) : Type 0 where
  pub named : (i : ℕ) → (s.locks i).owner ≡ i
  pub backed :
      (i : ℕ) → (s.locks i).is_leader ≡ true → s.clock < s.until i → Backs s.stored i (s.until i)

-- The instance that acquired: if it now believes that it leads, its own lease is stored.
acquire-Backs :
    (l : SchedulerLock) (now : ℕ) (before after : Option Lease) (reply : Reply (Lease × Bool))
    → Upsert (may_take l now) (renewed l now) (fresh l now) before reply after
    → (acquire l reply).0.is_leader ≡ true
    → Backs after l.owner (now + l.ttl_ms)
unfolding acquire renewed fresh
acquire-Backs l now before after reply (updated d b m r a) h = (renewed l now d, a, refl, refl)
acquire-Backs l now before after reply (inserted b r a) h = (fresh l now, a, refl, refl)
acquire-Backs l now before after reply (conflict d b r a) h = ground arith
acquire-Backs l now before after reply (failed text r a) h = ground arith
acquire-Backs l now before after reply (updated_unacknowledged d text b m r a) h = ground arith
acquire-Backs l now before after reply (inserted_unacknowledged text b r a) h = ground arith

may_take_live :
    (l : SchedulerLock) (now j t : ℕ) (before : Option Lease) (d : Lease)
    → before ≡ some d
    → Backs before j t
    → now < t
    → j ≢ l.owner
    → may_take l now d ≡ true
    → ⊥
unfolding may_take
may_take_live l now j t before d e (b, f, o, x) lt ne m = ground arith

-- Another instance's live lease stays.
Upsert-Backs :
    (l : SchedulerLock) (now j t : ℕ) (before after : Option Lease) (reply : Reply (Lease × Bool))
    → Upsert (may_take l now) (renewed l now) (fresh l now) before reply after
    → Backs before j t
    → now < t
    → j ≢ l.owner
    → Backs after j t
Upsert-Backs l now j t before after reply (updated d b m r a) h lt ne =
    absurd (may_take_live l now j t before d b h lt ne m)
Upsert-Backs l now j t before after reply (inserted b r a) (d, e, o, x) lt ne = absurd (cc)
Upsert-Backs l now j t before after reply (conflict d b r a) h lt ne = rw a h
Upsert-Backs l now j t before after reply (failed text r a) h lt ne = rw a h
Upsert-Backs l now j t before after reply (updated_unacknowledged d text b m r a) h lt ne =
    absurd (may_take_live l now j t before d b h lt ne m)
Upsert-Backs l now j t before after reply (inserted_unacknowledged text b r a) (d, e, o, x) lt ne =
    absurd (cc)

-- A deletion in the name of another owner leaves the lease.
Modify-Backs :
    (l : SchedulerLock) (j t : ℕ) (before after : Option Lease) (reply : Reply (Option Lease))
    → Modify (owned_by l) (λ d. none) (λ d. d) before reply after
    → Backs before j t
    → j ≢ l.owner
    → Backs after j t
unfolding owned_by
Modify-Backs l j t before after reply (changed d b m r a) (d', e, o, x) ne = absurd (ground arith)
Modify-Backs l j t before after reply (unmatched n r a) h ne = rw a h
Modify-Backs l j t before after reply (failed text r a) h ne = rw a h
Modify-Backs l j t before after reply (changed_unacknowledged d text b m r a) (d', e, o, x) ne =
    absurd (ground arith)

Step-named : {s t : System} → Step s t → Inv s → (i : ℕ) → (t.locks i).owner ≡ i
unfolding acquire release
Step-named (tick t h) v i = v.named i
Step-named (acquires j now (ok (doc, existing)) after h u) v i =
    ground (arith, v.named i, v.named j)
Step-named (acquires j now (err e) after h u) v i = ground (arith, v.named i, v.named j)
Step-named (releases j reply after h m) v i = ground (arith, v.named i, v.named j)
Step-named (sweeps d e h) v i = v.named i

release_not_leader : (l : SchedulerLock) → (release l).1 ≡ true → (release l).0.is_leader ≡ true → ⊥
unfolding release
release_not_leader l h k = ground arith

Step-backed :
    {s t : System}
    → Step s t
    → Inv s
    → (i : ℕ) → (t.locks i).is_leader ≡ true
    → t.clock < t.until i
    → Backs t.stored i (t.until i)
Step-backed (tick t h) v i l c = v.backed i l (omega arith)
Step-backed {s} (acquires j now reply after h u) v i l c = elim (ℕ_discrete j i) [
  | yes e ↦
      let l' = rw (put-eq s.locks (acquire (s.locks j) reply).0 e) at l in
      let (d, a, o, x) = acquire-Backs (s.locks j) now s.stored after reply u l' in
      (d, a, o ∙ v.named j ∙ e, x ∙ sym (put-eq s.until (now + (s.locks j).ttl_ms) e))
  | no ne ↦
      let l' = rw (put-ne s.locks (acquire (s.locks j) reply).0 ne) at l in
      let c' = rw (put-ne s.until (now + (s.locks j).ttl_ms) ne) at c in
      rw (put-ne s.until (now + (s.locks j).ttl_ms) ne) (
        Upsert-Backs (s.locks j) now i (s.until i) s.stored after reply u (v.backed i l' c')
          (omega (arith, c', h)) (λ e. ne (sym (e ∙ v.named j))))
]
Step-backed {s} (releases j reply after held m) v i l c = elim (ℕ_discrete j i) [
  | yes e ↦
      let l' = rw (put-eq s.locks (release (s.locks j)).0 e) at l in
      absurd (release_not_leader (s.locks j) held l')
  | no ne ↦
      let l' = rw (put-ne s.locks (release (s.locks j)).0 ne) at l in
      Modify-Backs (s.locks j) i (s.until i) s.stored after reply m (v.backed i l' c)
        (λ e. ne (sym (e ∙ v.named j)))
]
Step-backed {s} (sweeps d e h) v i l c =
    let (d', e', o, x) = v.backed i l c in
    let same : d' ≡ d = ground arith in
    let y : d'.expires_at ≡ d.expires_at = ap (λ r. r.expires_at) same in
    absurd (omega (arith, x, y, h, c))

Step-Inv : {s t : System} → Step s t → Inv s → Inv t
Step-Inv st v = record { named = Step-named st v; backed = Step-backed st v }

Reach-Inv : {s t : System} → Inv s → Reach s t → Inv t
Reach-Inv v here = v
Reach-Inv v (next r st) = Step-Inv st (Reach-Inv v r)

-- Every instance has just started: none believes that it leads, whatever lease is stored.
abbrev pub starts : Config → ℕ → Option Lease → System
starts c clock stored = record {
  clock = clock;
  stored = stored;
  locks = new_lock c;
  until = λ i. 0;
}

starts-Inv : (c : Config) (clock : ℕ) (stored : Option Lease) → Inv (starts c clock stored)
unfolding new_lock
starts-Inv c clock stored = record { named = λ i. refl; backed = λ i l t. absurd (omega arith) }

-- In any run of any number of instances, with acquisitions, releases, lost acknowledgements and
-- sweeps in any order, at most one instance at a time believes that it leads while the lease that it
-- last acquired has not run out.
pub leader_unique :
    (c : Config) (clock : ℕ) (stored : Option Lease) (s : System) (i j : ℕ)
    → Reach (starts c clock stored) s
    → Leads s i
    → Leads s j
    → i ≡ j
leader_unique c clock stored s i j r (li, ci) (lj, cj) =
    let v = Reach-Inv (starts-Inv c clock stored) r in
    let (d, e, o, x) = v.backed i li ci in let (d', e', o', x') = v.backed j lj cj in cc
