-- ===== src/Pool.antt =====
-- Backend/src/utils/pool.js, `runPool`: workers that share a cursor over the tasks. JavaScript runs a
-- worker without interruption from one `await` to the next, so a worker makes two kinds of moves: it
-- takes the task at the cursor, or the task that it awaits settles and its outcome is stored.
pub mod Bounds
pub mod Completion
use devops_hackathon.Prelude.{
  ℕ, ◌+◌, ◌<◌, ◌≡◌, max, min, Option, none, some, List, length, set, get_or, replicate,
}
use devops_hackathon.Store.{Reply}

-- `slots` holds what each worker awaits: the index of a task, or nothing.
pub record Pool (A : Type 0) : Type 0 where
  pub tasks : ℕ
  pub cursor : ℕ
  pub slots : List (Option ℕ)
  pub results : List (Option (Reply A))

-- `Math.max(1, Math.min(limit, tasks.length))`
unfoldable pub width : ℕ → ℕ → ℕ
width limit tasks = max 1 (min limit tasks)

unfoldable pub run_pool : {A : Type 0} → ℕ → ℕ → Pool A
unfolding width
run_pool tasks limit = record {
  tasks = tasks;
  cursor = 0;
  slots = replicate (width limit tasks) none;
  results = replicate tasks none;
}

-- `const index = cursor; cursor += 1;`
unfoldable pub take_task : {A : Type 0} → ℕ → Pool A → Pool A
take_task w p = record p { cursor = p.cursor + 1; slots = set p.slots w (some p.cursor) }

-- `results[index] = { ok, ... }`: a value, or the error caught.
unfoldable pub settle_task : {A : Type 0} → ℕ → ℕ → Reply A → Pool A → Pool A
settle_task w index r p = record p {
  slots = set p.slots w none;
  results = set p.results index (some r);
}

-- Task i ends in `outcome i`, when it does.
pub data Step {A : Type 0} (outcome : ℕ → Reply A) (p : Pool A) : Pool A → Type 0 where
  takes :
      (w : ℕ)
      → w < length p.slots
      → get_or p.slots w none ≡ none
      → p.cursor < p.tasks
      → Step outcome p (take_task w p)
  settles :
      (w i : ℕ)
      → w < length p.slots
      → get_or p.slots w none ≡ some i
      → Step outcome p (settle_task w i (outcome i) p)

-- A run of n moves.
pub data Moves {A : Type 0} (outcome : ℕ → Reply A) (p : Pool A) : ℕ → Pool A → Type 0 where
  here : Moves outcome p 0 p
  next :
      {n k : ℕ} {q r : Pool A}
      → Moves outcome p n q
      → Step outcome q r
      → k ≡ n + 1
      → Moves outcome p k r
