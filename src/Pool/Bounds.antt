-- ===== src/Pool/Bounds.antt =====
-- Backend/src/utils/pool.js: the tasks that run at a moment.
use devops_hackathon.Prelude.{
  ℕ, max, min, zero, suc, ◌+◌, ◌≤◌, ◌<◌, ◌≡◌, refl, ap, Option, none, some, List, [], ◌∷◌, length,
  set, get_or, replicate, arith, leb, ◌==◌, if◌then◌else◌,
}
use devops_hackathon.Store.{Reply}
use devops_hackathon.Pool.{
  Pool, width, run_pool, take_task, settle_task, Step, takes, settles, Moves, here, next,
}

-- Whether a worker awaits task i.
abbrev pub awaits : ℕ → Option ℕ → ℕ
awaits i none = 0
awaits i (some j) = if j == i then 1 else 0

abbrev pub is_busy : Option ℕ → ℕ
is_busy none = 0
is_busy (some j) = 1

abbrev pub running : ℕ → List (Option ℕ) → ℕ
running i [] = 0
running i (o ∷ os) = awaits i o + running i os

abbrev pub busy : List (Option ℕ) → ℕ
busy [] = 0
busy (o ∷ os) = is_busy o + busy os

abbrev pub one_if_set {ℓ} : {B : Type ℓ} → Option B → ℕ
one_if_set none = 0
one_if_set (some b) = 1

running-set :
    (i w : ℕ) (os : List (Option ℕ)) (v : Option ℕ)
    → w < length os
    → running i (set os w v) + awaits i (get_or os w none) ≡ running i os + awaits i v
running-set i w [] v h = elim h [ ]
running-set i zero (o ∷ os) v h = omega arith
running-set i (suc w) (o ∷ os) v h = omega (arith, running-set i w os v (omega arith))

pub busy-set :
    (w : ℕ) (os : List (Option ℕ)) (v : Option ℕ)
    → w < length os
    → busy (set os w v) + is_busy (get_or os w none) ≡ busy os + is_busy v
busy-set w [] v h = elim h [ ]
busy-set zero (o ∷ os) v h = omega arith
busy-set (suc w) (o ∷ os) v h = omega (arith, busy-set w os v (omega arith))

busy-le-length : (os : List (Option ℕ)) → busy os ≤ length os
busy-le-length [] = omega arith
busy-le-length (none ∷ os) = omega (arith, busy-le-length os)
busy-le-length (some j ∷ os) = omega (arith, busy-le-length os)

length-set {ℓ} : {B : Type ℓ} (xs : List B) (i : ℕ) (v : B) → length (set xs i v) ≡ length xs
length-set [] i v = refl
length-set (x ∷ xs) zero v = refl
length-set (x ∷ xs) (suc i) v = ap suc (length-set xs i v)

length-replicate {ℓ} : {B : Type ℓ} (n : ℕ) (b : B) → length (replicate n b) ≡ n
length-replicate zero b = refl
length-replicate (suc n) b = ap suc (length-replicate n b)

get_or-set {ℓ} :
    {B : Type ℓ} (xs : List B) (k i : ℕ) (v d : B)
    → k < length xs
    → get_or (set xs k v) i d ≡ (if k == i then v else get_or xs i d)
get_or-set [] k i v d h = elim h [ ]
get_or-set (x ∷ xs) zero zero v d h = refl
get_or-set (x ∷ xs) zero (suc i) v d h = ground arith
get_or-set (x ∷ xs) (suc k) zero v d h = ground arith
get_or-set (x ∷ xs) (suc k) (suc i) v d h = ground (arith, get_or-set xs k i v d)

get_or-replicate {ℓ} : {B : Type ℓ} (n i : ℕ) (b : B) → get_or (replicate n b) i b ≡ b
get_or-replicate zero i b = refl
get_or-replicate (suc n) zero b = refl
get_or-replicate (suc n) (suc i) b = get_or-replicate n i b

running-replicate : (i n : ℕ) → running i (replicate n none) ≡ 0
running-replicate i zero = refl
running-replicate i (suc n) = omega (arith, running-replicate i n)

pub busy-replicate : (n : ℕ) → busy (replicate n none) ≡ 0
busy-replicate zero = refl
busy-replicate (suc n) = omega (arith, busy-replicate n)

-- Task i is awaited by one worker, or settled, or still ahead of the cursor: exactly one of these.
pub record Inv {A : Type 0} (outcome : ℕ → Reply A) (tasks limit : ℕ) (p : Pool A) : Type 0 where
  pub same_tasks : p.tasks ≡ tasks
  pub same_width : length p.slots ≡ width limit tasks
  pub same_results : length p.results ≡ tasks
  pub within : p.cursor ≤ tasks
  pub once :
      (i : ℕ)
      → running i p.slots + one_if_set (get_or p.results i none) + (if leb p.cursor i then 1 else 0)
        ≡ 1
  pub right : (i : ℕ) (r : Reply A) → get_or p.results i none ≡ some r → r ≡ outcome i

module _ {A : Type 0} (outcome : ℕ → Reply A) (tasks limit : ℕ) where
  takes-Inv :
      (p : Pool A) (w : ℕ)
      → w < length p.slots
      → get_or p.slots w none ≡ none
      → p.cursor < p.tasks
      → Inv outcome tasks limit p
      → Inv outcome tasks limit (take_task w p)
  unfolding take_task
  takes-Inv p w h idle ahead v = record {
    same_tasks = v.same_tasks;
    same_width = omega (arith, v.same_width, length-set p.slots w (some p.cursor));
    same_results = v.same_results;
    within = omega (arith, ahead, v.same_tasks);
    once = λ i. ground (arith, v.once i, running-set i w p.slots (some p.cursor) h);
    right = v.right;
  }

  held-lt :
      (p : Pool A) (w j : ℕ)
      → w < length p.slots
      → get_or p.slots w none ≡ some j
      → Inv outcome tasks limit p
      → j < length p.results
  held-lt p w j h held v =
      ground (arith, v.once j, v.within, v.same_results, running-set j w p.slots none h)

  settles-Inv :
      (p : Pool A) (w j : ℕ)
      → w < length p.slots
      → get_or p.slots w none ≡ some j
      → Inv outcome tasks limit p
      → Inv outcome tasks limit (settle_task w j (outcome j) p)
  unfolding settle_task
  settles-Inv p w j h held v = record {
    same_tasks = v.same_tasks;
    same_width = omega (arith, v.same_width, length-set p.slots w none);
    same_results = omega (arith, v.same_results, length-set p.results j (some (outcome j)));
    within = v.within;
    once = λ i. ground (
      arith,
      v.once i,
      running-set i w p.slots none h,
      get_or-set p.results j i (some (outcome j)) none (held-lt p w j h held v),
    );
    right = λ i r e. ground (
      arith,
      v.right i r,
      get_or-set p.results j i (some (outcome j)) none (held-lt p w j h held v),
    );
  }

  start-Inv : Inv outcome tasks limit (run_pool tasks limit)
  unfolding run_pool
  start-Inv = record {
    same_tasks = refl;
    same_width = length-replicate (width limit tasks) none;
    same_results = length-replicate tasks none;
    within = omega arith;
    once = λ i. ground (
      arith,
      running-replicate i (width limit tasks),
      get_or-replicate {B = Option (Reply A)} tasks i none,
    );
    right = λ i r e. ground (arith, get_or-replicate {B = Option (Reply A)} tasks i none);
  }

  Step-Inv :
      {p q : Pool A} → Step outcome p q → Inv outcome tasks limit p → Inv outcome tasks limit q
  Step-Inv {p} (takes w h idle ahead) v = takes-Inv p w h idle ahead v
  Step-Inv {p} (settles w i h held) v = settles-Inv p w i h held v

  Moves-Inv :
      {p : Pool A} {n : ℕ} {q : Pool A}
      → Moves outcome p n q
      → Inv outcome tasks limit p
      → Inv outcome tasks limit q
  Moves-Inv here v = v
  Moves-Inv (next r st e) v = Step-Inv st (Moves-Inv r v)

  pub reached-Inv :
      {n : ℕ} {q : Pool A} → Moves outcome (run_pool tasks limit) n q → Inv outcome tasks limit q
  reached-Inv r = Moves-Inv r start-Inv

  -- At every moment of a run at most max(1, min(limit, tasks)) tasks are running, and each task is
  -- either running in one worker, or settled, or not yet taken, and never two of these.
  pub run_pool_bounded :
      {n : ℕ} {q : Pool A} (i : ℕ)
      → Moves outcome (run_pool tasks limit) n q
      → (busy q.slots ≤ max 1 (min limit tasks))
        × (running i q.slots
              + one_if_set (get_or q.results i none)
              + (if leb q.cursor i then 1 else 0)
            ≡ 1)
  unfolding width
  run_pool_bounded {q = q} i r =
      let v = reached-Inv r in (omega (arith, busy-le-length q.slots, v.same_width), v.once i)
