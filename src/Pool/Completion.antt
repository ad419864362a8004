-- ===== src/Pool/Completion.antt =====
-- Backend/src/utils/pool.js: how a run goes on, and how it ends.
use devops_hackathon.Prelude.{
  ℕ, suc, ◌+◌, ◌-◌, ◌*◌, ◌≤◌, ◌<◌, ◌≡◌, refl, ap, ◌∙◌, inl, inr, Option, none, some, List, [], ◌∷◌,
  length, get_or, arith, Option-cases,
}
use native.Mathlib.Decide.{dec_lt}
use devops_hackathon.Store.{Reply}
use devops_hackathon.Pool.{
  Pool, width, run_pool, take_task, settle_task, Step, takes, settles, Moves, here, next,
}
use devops_hackathon.Pool.Bounds.{
  Inv, busy, one_if_set, running, busy-set, busy-replicate, reached-Inv,
}

-- A task to take counts for two moves, a running one for one.
abbrev pub moves_left : {A : Type 0} → Pool A → ℕ
moves_left p = 2 * (p.tasks - p.cursor) + busy p.slots

-- A worker that is idle, or one that is busy.
idle_slot :
    (os : List (Option ℕ))
    → busy os < length os
    → (w : ℕ) × (w < length os) × (get_or os w none ≡ none)
idle_slot [] h = absurd (omega arith)
idle_slot (none ∷ os) h = (0, omega arith, refl)
idle_slot (some j ∷ os) h = let (w, l, e) = idle_slot os (omega arith) in (suc w, omega arith, e)

busy_slot :
    (os : List (Option ℕ))
    → 0 < busy os
    → (w : ℕ) × (i : ℕ) × (w < length os) × (get_or os w none ≡ some i)
busy_slot [] h = absurd (omega arith)
busy_slot (some j ∷ os) h = (0, j, omega arith, refl)
busy_slot (none ∷ os) h =
    let (w, i, l, e) = busy_slot os (omega arith) in (suc w, i, omega arith, e)

not_running : (i : ℕ) (os : List (Option ℕ)) → busy os ≡ 0 → running i os ≡ 0
not_running i [] h = refl
not_running i (none ∷ os) h = omega (arith, not_running i os (omega arith))
not_running i (some j ∷ os) h = absurd (omega arith)

module _ {A : Type 0} (outcome : ℕ → Reply A) where
  Step-moves_left :
      {p q : Pool A} → Step outcome p q → p.cursor ≤ p.tasks → moves_left q + 1 ≡ moves_left p
  unfolding take_task settle_task
  Step-moves_left {p} (takes w h idle ahead) v =
      ground (arith, busy-set w p.slots (some p.cursor) h)
  Step-moves_left {p} (settles w i h held) v = ground (arith, busy-set w p.slots none h)

  progress : (p : Pool A) → 0 < moves_left p → 0 < length p.slots → (q : Pool A) × Step outcome p q
  progress p h l = elim (dec_lt 0 (busy p.slots)) [
    | yes b ↦ let (w, i, k, e) = busy_slot p.slots b in (_, settles w i k e)
    | no b ↦ let (w, k, e) = idle_slot p.slots (omega arith) in (_, takes w k e (omega arith))
  ]

module _ {A : Type 0} (outcome : ℕ → Reply A) (tasks limit : ℕ) where
  Moves-spent :
      {n : ℕ} {q : Pool A} → Moves outcome (run_pool tasks limit) n q → n + moves_left q ≡ 2 * tasks
  unfolding run_pool
  Moves-spent here = omega (arith, busy-replicate (width limit tasks))
  Moves-spent (next {q = q} r st e) =
      let v = reached-Inv outcome tasks limit r in
      omega (
        arith,
        e,
        Moves-spent r,
        Step-moves_left outcome st (omega (arith, v.within, v.same_tasks)),
      )

  stored :
      (q : Pool A) (i : ℕ)
      → Inv outcome tasks limit q
      → moves_left q ≡ 0
      → i < tasks
      → get_or q.results i none ≡ some (outcome i)
  stored q i v m h = elim (Option-cases (get_or q.results i none)) [
    | inl e ↦ absurd (
        ground (
          arith,
          v.once i,
          ap one_if_set e,
          not_running i q.slots (omega (arith, m)),
          v.same_tasks,
        ))
    | inr (r, e) ↦ e ∙ ap some (v.right i r e)
  ]

  width-pos : 0 < width limit tasks
  unfolding width
  width-pos = omega arith

  -- A run of fewer than 2 * tasks moves can go on, whatever the limit is, 0 included, and no run has
  -- more; a run of 2 * tasks moves has stored at the index of each task the outcome of that task.
  pub run_pool_completes :
      {n : ℕ} {q : Pool A}
      → Moves outcome (run_pool tasks limit) n q
      → (n ≤ 2 * tasks)
        × (n < 2 * tasks → (r : Pool A) × Step outcome q r)
        × (n ≡ 2 * tasks → (i : ℕ) → i < tasks → get_or q.results i none ≡ some (outcome i))
  run_pool_completes {q = q} r =
      let v = reached-Inv outcome tasks limit r in
      let m = Moves-spent r in
      (
        omega (arith, m),
        λ l. progress outcome q (omega (arith, m)) (omega (arith, v.same_width, width-pos)),
        λ e i h. stored q i v (omega (arith, m)) h,
      )
