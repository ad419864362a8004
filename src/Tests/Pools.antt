-- ===== src/Tests/Pools.antt =====
-- A pool of two workers over three tasks.
use devops_hackathon.Prelude.{ℕ, ◌≡◌, ◌≤◌, refl, none, some, get_or, arith}
use devops_hackathon.Store.{Reply, ok}
use devops_hackathon.Pool.{
  Pool, run_pool, take_task, settle_task, takes, settles, Moves, here, next,
}
use devops_hackathon.Pool.Bounds.{busy, run_pool_bounded}
use devops_hackathon.Pool.Completion.{run_pool_completes}

abbrev doubled : ℕ → Reply ℕ
doubled i = ok i

abbrev first_move : Pool ℕ
first_move = take_task 0 (run_pool 3 2)

moved : Moves doubled (run_pool 3 2) 1 first_move
unfolding run_pool
moved = next here (takes 0 (omega arith) refl (omega arith)) refl

run_pool_bounded_example : busy first_move.slots ≤ 2
run_pool_bounded_example = (run_pool_bounded doubled 3 2 0 moved).0

-- One task and a limit of 0: the one worker takes it and stores its outcome.
abbrev taken : Pool ℕ
taken = take_task 0 (run_pool 1 0)

abbrev settled : Pool ℕ
settled = settle_task 0 0 (doubled 0) taken

settled_reached : Moves doubled (run_pool 1 0) 2 settled
unfolding run_pool take_task
settled_reached =
    next (next here (takes 0 (omega arith) refl (omega arith)) refl)
      (settles 0 0 (omega arith) refl) refl

run_pool_completes_example : get_or settled.results 0 none ≡ some (ok 0)
run_pool_completes_example = (run_pool_completes doubled 1 0 settled_reached).2 refl 0 (omega arith)
