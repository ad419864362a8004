-- ===== src/Scheduler/Ticks.antt =====
-- Backend/src/jobs/scheduler.js: what a whole tick leaves in flight.
use devops_hackathon.Prelude.{
  ℕ, ◌≡◌, refl, sym, subst, ◌∙◌, ap, inl, inr, Bool, true, false, List, [], ◌∷◌, ◌||◌, arith,
  Bool-cases, ◌==◌, not, ◌&&◌,
}
use mathlib.Core.List.Permᴰ.{Permᴰ, nil, cons, swap, trans}
use devops_hackathon.Config.{Config}
use devops_hackathon.Monitor.{Monitor}
use devops_hackathon.Store.{Reply, ok, err}
use devops_hackathon.Lock.{SchedulerLock, acquire}
use devops_hackathon.Check.{CheckEnv, run_check}
use devops_hackathon.Scheduler.{
  Scheduler, Task, Dispatch, dispatch, has, delete, run_tasks, tick, TickEnv, follow_or_lead,
  check_due, crash, max_lag,
}
use devops_hackathon.Scheduler.Admission.{ids, Distinct, dispatch_fresh-Tracks}

or_swap : (a b c : Bool) → (a || (b || c)) ≡ (b || (a || c))
or_swap a b c = ground arith

pub Perm-has : {ts us : List Task} → Permᴰ ts us → (i : ℕ) → has i (ids ts) ≡ has i (ids us)
Perm-has nil i = refl
Perm-has (cons {a = a} {b = b} {l₁ = l₁} {l₂ = l₂} e p) i =
    alike (ap (λ t. t.monitor.id) e) (Perm-has p i)
  where
    alike :
        a.monitor.id ≡ b.monitor.id
        → has i (ids l₁) ≡ has i (ids l₂)
        → has i (ids (a ∷ l₁)) ≡ has i (ids (b ∷ l₂))
    alike f k = rw (f, k) refl
Perm-has (swap {a = a} {b = b} {a' = a'} {b' = b'} {l = l} e f) i =
    alike (ap (λ t. t.monitor.id) e) (ap (λ t. t.monitor.id) f)
  where
    alike :
        a.monitor.id ≡ b'.monitor.id
        → b.monitor.id ≡ a'.monitor.id
        → has i (ids (a ∷ b ∷ l)) ≡ has i (ids (a' ∷ b' ∷ l))
    alike x y = rw (x, y) (or_swap (b'.monitor.id == i) (a'.monitor.id == i) (has i (ids l)))
Perm-has (trans p q) i = Perm-has p i ∙ Perm-has q i

swap-Distinct : (i j : ℕ) (xs : List ℕ) → Distinct (i ∷ j ∷ xs) → Distinct (j ∷ i ∷ xs)
swap-Distinct i j xs (h, (g, d)) = (ground arith, (ground arith, d))

pub Perm-Distinct : {ts us : List Task} → Permᴰ ts us → Distinct (ids ts) → Distinct (ids us)
Perm-Distinct nil d = d
Perm-Distinct (cons {a = a} {b = b} {l₁ = l₁} {l₂ = l₂} e p) (h, d) =
    (alike (ap (λ t. t.monitor.id) e) (Perm-has p b.monitor.id), Perm-Distinct p d)
  where
    alike :
        a.monitor.id ≡ b.monitor.id
        → has b.monitor.id (ids l₁) ≡ has b.monitor.id (ids l₂)
        → has b.monitor.id (ids l₂) ≡ false
    alike f k = sym k ∙ rw (sym f) h
Perm-Distinct (swap {a = a} {b = b} {a' = a'} {b' = b'} {l = l} e f) d =
    subst (λ i. Distinct (i ∷ b'.monitor.id ∷ ids l)) (ap (λ t. t.monitor.id) f)
      (subst (λ i. Distinct (b.monitor.id ∷ i ∷ ids l)) (ap (λ t. t.monitor.id) e)
        (swap-Distinct a.monitor.id b.monitor.id (ids l) d))
Perm-Distinct (trans p q) d = Perm-Distinct q (Perm-Distinct p d)

has-same : (i j : ℕ) (xs : List ℕ) → i ≡ j → has i xs ≡ has j xs
has-same i j xs e = ap (λ k. has k xs) e

delete-has :
    (x i : ℕ) (xs : List ℕ) → Distinct xs → has i (delete x xs) ≡ (has i xs && not (i == x))
unfolding delete
delete-has x i [] d = refl
delete-has x i (y ∷ ys) (h, d) = elim (Bool-cases (y == x)) [
  | inl e ↦ rw e (let k = has-same i y ys in ground arith)
  | inr e ↦ rw e (let k = delete-has x i ys d in ground arith)
]

delete-Distinct : (x : ℕ) (xs : List ℕ) → Distinct xs → Distinct (delete x xs)
unfolding delete
delete-Distinct x [] d = d
delete-Distinct x (y ∷ ys) (h, d) = elim (Bool-cases (y == x)) [
  | inl e ↦ rw e d
  | inr e ↦ rw e (let k = delete-has x y ys d in ground arith, delete-Distinct x ys d)
]

none-has : (xs : List ℕ) → ((i : ℕ) → has i xs ≡ false) → xs ≡ []
none-has [] h = refl
none-has (x ∷ xs) h = let k = h x in ground arith

-- Every check takes its monitor off the set when it ends.
run_tasks-in_flight :
    (c : Config) (check : Task → CheckEnv) (ts : List Task) (s : Scheduler)
    → Distinct s.in_flight
    → Distinct (ids ts)
    → ((i : ℕ) → has i s.in_flight ≡ has i (ids ts))
    → (run_tasks c check ts s).0.in_flight ≡ []
unfolding run_tasks
run_tasks-in_flight c check [] s d e h = none-has s.in_flight h
run_tasks-in_flight c check (t ∷ ts) s d (n, e) h =
    let r = run_check c t.monitor t.breaker (check t) s.stats in
    run_tasks-in_flight c check ts
      (record s { stats = crash r.result r.stats; in_flight = delete t.monitor.id s.in_flight })
      (delete-Distinct t.monitor.id s.in_flight d) e
      (λ i. rest i (delete-has t.monitor.id i s.in_flight d) (h i))
  where
    rest :
        (i : ℕ)
        → has i (delete t.monitor.id s.in_flight) ≡ (has i s.in_flight && not (i == t.monitor.id))
        → has i s.in_flight ≡ ((t.monitor.id == i) || has i (ids ts))
        → has i (delete t.monitor.id s.in_flight) ≡ has i (ids ts)
    rest i a b = let k = has-same i t.monitor.id (ids ts) in ground arith

check_due-in_flight :
    (c : Config) (e : TickEnv) (due : List Monitor) (s : Scheduler)
    → s.in_flight ≡ []
    → ((ts : List Task) → Permᴰ ts (e.order ts))
    → (check_due c e due s).0.in_flight ≡ []
check_due-in_flight c e [] s h p = h
check_due-in_flight c e (m ∷ due) s h p =
    let d : Dispatch = record {
      in_flight = s.in_flight;
      stats = record s.stats { max_lag_ms = max_lag e.now 0 (m ∷ due) };
      tasks = [];
    } in
    let after = dispatch e.now (m ∷ due) d in
    let t = dispatch_fresh-Tracks e.now (m ∷ due) d refl (rw h tt) in
    run_tasks-in_flight c e.check (e.order after.tasks)
      (record s { in_flight = after.in_flight; stats = after.stats }) t.held
      (Perm-Distinct (p after.tasks) t.distinct)
      (λ i. t.in_flight i ∙ alone i (ids after.tasks) ∙ Perm-has (p after.tasks) i)
  where
    alone : (i : ℕ) (xs : List ℕ) → (has i xs || has i s.in_flight) ≡ has i xs
    alone i xs = rw h (ground arith)

follow_or_lead-in_flight :
    (c : Config) (e : TickEnv) (s : Scheduler) (l : SchedulerLock × Bool)
    (due : Reply (List Monitor))
    → e.due ≡ due
    → s.in_flight ≡ []
    → ((ts : List Task) → Permᴰ ts (e.order ts))
    → (follow_or_lead c e s l).scheduler.in_flight ≡ []
follow_or_lead-in_flight c e s (l, false) due q h p = h
follow_or_lead-in_flight c e s (l, true) (err x) q h p = simp q h
follow_or_lead-in_flight c e s (l, true) (ok due) q h p = simp q (check_due-in_flight c e due _ h p)

-- With nothing in flight before a tick nothing is in flight after it, in whatever order its checks
-- end and whatever they and the database answer.
pub tick-in_flight :
    (c : Config) (e : TickEnv) (s : Scheduler)
    → s.in_flight ≡ []
    → ((ts : List Task) → Permᴰ ts (e.order ts))
    → (tick c e s).scheduler.in_flight ≡ []
unfolding tick
tick-in_flight c e s h p = elim (Bool-cases s.ticking) [
  | inl k ↦ simp k h
  | inr k ↦ simp k (
      follow_or_lead-in_flight c e (record s { ticking = true }) (acquire s.lock e.acquired) e.due
        refl h p)
]
