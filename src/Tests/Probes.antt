-- ===== src/Tests/Probes.antt =====
-- The retry ladder against a target that answers at the second attempt.
use devops_hackathon.Prelude.{ℕ, zero, suc, ◌+◌, ◌*◌, ◌/◌, ◌≤◌, ◌≡◌, All, length, arith}
use devops_hackathon.Probe.{ProbeResult, check_monitor}
use devops_hackathon.Probe.Retries.{IsOutcome, check_monitor-IsOutcome, check_monitor_sleeps, sum}
use devops_hackathon.Tests.Samples.{bad, fine, defaults}

abbrev flaky : ℕ → ProbeResult
flaky n = elim n [ zero ↦ bad | suc k ↦ fine ]

abbrev half : ℕ → ℕ → ℕ
half n c = c / 2

check_monitor-IsOutcome_example : IsOutcome flaky 0 2 (check_monitor defaults half flaky 2).0
check_monitor-IsOutcome_example = check_monitor-IsOutcome defaults half flaky 2

check_monitor_sleeps_example :
    let r = check_monitor defaults half flaky 2 in
    (r.0.attempts ≤ 3)
    × (length r.1 + 1 ≡ r.0.attempts)
    × All (λ s. s ≤ defaults.retry_cap_ms) r.1
    × (sum r.1 ≤ 2 * defaults.retry_cap_ms)
check_monitor_sleeps_example =
    check_monitor_sleeps defaults half flaky 2 (λ n. record { below = λ c. omega arith })
