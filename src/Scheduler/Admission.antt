-- ===== src/Scheduler/Admission.antt =====
-- Backend/src/jobs/scheduler.js: the loop of a tick over the due monitors.
use devops_hackathon.Prelude.{
  ℕ, ◌+◌, ◌≡◌, refl, sym, ◌∙◌, ap, inl, inr, true, false, List, [], ◌∷◌, ◌++◌, ◌||◌, arith, All,
  All-append, Bool-cases, ◌==◌, if◌then◌else◌,
}
use mathlib.Core.List.{append-nil, append_assoc}
use devops_hackathon.Monitor.{Monitor}
use devops_hackathon.Breaker.{evaluate_breaker}
use devops_hackathon.Scheduler.{Task, Dispatch, dispatch, admit, has}

abbrev pub ids : List Task → List ℕ
ids [] = []
ids (t ∷ ts) = t.monitor.id ∷ ids ts

has-append : (i : ℕ) (xs ys : List ℕ) → has i (xs ++ ys) ≡ (has i xs || has i ys)
has-append i [] ys = refl
has-append i (x ∷ xs) ys = elim (Bool-cases (x == i)) [
  | inl e ↦ rw e refl
  | inr e ↦ rw e (has-append i xs ys)
]

ids-append : (ts us : List Task) → ids (ts ++ us) ≡ ids ts ++ ids us
ids-append [] us = refl
ids-append (t ∷ ts) us = ap (λ x. t.monitor.id ∷ x) (ids-append ts us)

abbrev pub Distinct : List ℕ → Type 0
Distinct [] = Unit
Distinct (x ∷ xs) = (has x xs ≡ false) × Distinct xs

snoc-Distinct : (x : ℕ) (xs : List ℕ) → Distinct xs → has x xs ≡ false → Distinct (xs ++ x ∷ [])
snoc-Distinct x [] d h = (refl, tt)
snoc-Distinct x (y ∷ ys) (f, d) h =
    (apart f (ground arith) (has-append y ys (x ∷ [])), snoc-Distinct x ys d (ground arith))
  where
    apart :
        has y ys ≡ false
        → (x == y) ≡ false
        → has y (ys ++ x ∷ []) ≡ (has y ys || ((x == y) || false))
        → has y (ys ++ x ∷ []) ≡ false
    apart f g e = ground arith

-- What is in flight at a point of the loop that began with `before` in flight: those, and the tasks
-- made, each under the breaker's leave.
pub record Tracks (now : ℕ) (before : List ℕ) (d : Dispatch) : Type 0 where
  pub in_flight : (i : ℕ) → has i d.in_flight ≡ (has i (ids d.tasks) || has i before)
  pub held : Distinct d.in_flight
  pub distinct : Distinct (ids d.tasks)
  pub new : All (λ t. has t.monitor.id before ≡ false) d.tasks
  pub allowed :
      All (λ t. (t.breaker ≡ evaluate_breaker t.monitor now) × (t.breaker.allowed ≡ true)) d.tasks

take-Tracks :
    (now : ℕ) (before : List ℕ) (m : Monitor) (d : Dispatch)
    → Tracks now before d
    → has m.id d.in_flight ≡ false
    → (evaluate_breaker m now).allowed ≡ true
    → Tracks now before (record d {
      in_flight = m.id ∷ d.in_flight;
      tasks = d.tasks ++ record { monitor = m; breaker = evaluate_breaker m now } ∷ [];
    })
take-Tracks now before m d h f a =
    let t : Task = record { monitor = m; breaker = evaluate_breaker m now } in
    let free = h.in_flight m.id in
    record {
      in_flight = λ i.
          rw (ids-append d.tasks (t ∷ []))
            (joined i (has-append i (ids d.tasks) (m.id ∷ [])) (h.in_flight i));
      held = (f, h.held);
      distinct =
          rw (ids-append d.tasks (t ∷ []))
            (snoc-Distinct m.id (ids d.tasks) h.distinct (ground arith));
      new =
          All-append (λ u. has u.monitor.id before ≡ false) d.tasks (t ∷ []) h.new
            (ground arith, tt);
      allowed =
          All-append
            (λ u. (u.breaker ≡ evaluate_breaker u.monitor now) × (u.breaker.allowed ≡ true)) d.tasks
            (t ∷ []) h.allowed ((refl, a), tt);
    }
  where
    joined :
        (i : ℕ)
        → has i (ids d.tasks ++ m.id ∷ []) ≡ (has i (ids d.tasks) || ((m.id == i) || false))
        → has i d.in_flight ≡ (has i (ids d.tasks) || has i before)
        → ((m.id == i) || has i d.in_flight) ≡ (has i (ids d.tasks ++ m.id ∷ []) || has i before)
    joined i x y = ground arith

admit-Tracks :
    (now : ℕ) (before : List ℕ) (m : Monitor) (d : Dispatch)
    → Tracks now before d
    → Tracks now before (admit now m (evaluate_breaker m now) d)
admit-Tracks now before m d h = elim (Bool-cases (has m.id d.in_flight)) [
  | inl f ↦ simp f (record {
    in_flight = h.in_flight;
    held = h.held;
    distinct = h.distinct;
    new = h.new;
    allowed = h.allowed;
  })
  | inr f ↦ simp f (elim (Bool-cases (evaluate_breaker m now).allowed) [
    | inl a ↦ simp a (take-Tracks now before m d h f a)
    | inr a ↦ simp a (record {
      in_flight = h.in_flight;
      held = h.held;
      distinct = h.distinct;
      new = h.new;
      allowed = h.allowed;
    })
  ])
]

dispatch-Tracks :
    (now : ℕ) (before : List ℕ) (due : List Monitor) (d : Dispatch)
    → Tracks now before d
    → Tracks now before (dispatch now due d)
unfolding dispatch
dispatch-Tracks now before [] d h = h
dispatch-Tracks now before (m ∷ due) d h =
    dispatch-Tracks now before due (admit now m (evaluate_breaker m now) d)
      (admit-Tracks now before m d h)

-- The loop of a tick, begun without tasks and with a set of ids in flight: the checks in flight after it are those before it and the
-- tasks made, again without repetition; the tasks are of distinct monitors, none of which was in flight; and the breaker of
-- each allows it.
pub dispatch_fresh-Tracks :
    (now : ℕ) (due : List Monitor) (d : Dispatch)
    → d.tasks ≡ []
    → Distinct d.in_flight
    → Tracks now d.in_flight (dispatch now due d)
dispatch_fresh-Tracks now due d e h = dispatch-Tracks now d.in_flight due d (record {
  in_flight = λ i. simp e refl;
  held = h;
  distinct = simp e tt;
  new = simp e tt;
  allowed = simp e tt;
})

-- The due monitors that their breakers let through.
abbrev pub admitted : ℕ → List Monitor → List Task
admitted now [] = []
admitted now (m ∷ due) =
    let b = evaluate_breaker m now in
    let rest = admitted now due in
    if b.allowed then (record { monitor = m; breaker = b } ∷ rest) else rest

-- Monitors that differ from each other, and from all that is in flight.
abbrev pub Unseen : List ℕ → List Monitor → Type 0
Unseen seen [] = Unit
Unseen seen (m ∷ due) = (has m.id seen ≡ false) × Unseen (m.id ∷ seen) due

fewer-Unseen :
    (seen more : List ℕ) (due : List Monitor)
    → ((i : ℕ) → has i more ≡ false → has i seen ≡ false)
    → Unseen more due
    → Unseen seen due
fewer-Unseen seen more [] f u = tt
fewer-Unseen seen more (m ∷ due) f (n, u) =
    (f m.id n, fewer-Unseen (m.id ∷ seen) (m.id ∷ more) due (wider m.id) u)
  where
    wider : (x i : ℕ) → ((x == i) || has i more) ≡ false → ((x == i) || has i seen) ≡ false
    wider x i h = let k = f i in ground arith

-- No monitor is skipped as in flight while the due ones differ from each other and from those in
-- flight: the tasks added are then exactly the monitors that their breakers let through, in order.
pub dispatch-admitted :
    (now : ℕ) (due : List Monitor) (d : Dispatch)
    → Unseen d.in_flight due
    → ((dispatch now due d).tasks ≡ d.tasks ++ admitted now due)
      × ((dispatch now due d).stats.skipped_overlap ≡ d.stats.skipped_overlap)
unfolding dispatch
dispatch-admitted now [] d u = (sym (append-nil d.tasks), refl)
dispatch-admitted now (m ∷ due) d (n, u) = elim (Bool-cases (evaluate_breaker m now).allowed) [
  | inl a ↦
      let t : Task = record { monitor = m; breaker = evaluate_breaker m now } in
      let (made, skipped) =
        dispatch-admitted now due
          (record d { in_flight = m.id ∷ d.in_flight; tasks = d.tasks ++ t ∷ [] }) u in
      simp (n, a) (made ∙ append_assoc d.tasks (t ∷ []) (admitted now due), skipped)
  | inr a ↦
      simp (n, a)
        (dispatch-admitted now due
          (record d { stats = record d.stats { skipped_breaker = d.stats.skipped_breaker + 1 } })
          (fewer-Unseen d.in_flight (m.id ∷ d.in_flight) due (λ i h. ground arith) u))
]
