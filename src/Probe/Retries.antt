-- ===== src/Probe/Retries.antt =====
-- Backend/src/services/monitor.service.js: the result and the sleeps of `checkMonitor`.
use devops_hackathon.Prelude.{
  ℕ, zero, suc, ◌+◌, ◌*◌, ◌≤◌, ◌<◌, ◌^◌, min, ◌≡◌, refl, ◌⊎◌, inl, inr, true, false, List, [], ◌∷◌,
  length, arith, Bool-cases, ap, All,
}
use native.Mathlib.Decide.{dec_le}
use native.Mathlib.Nat.{mul-le-mul_right}
use devops_hackathon.Config.{Config}
use devops_hackathon.Probe.{ProbeResult, is_final, ladder, check_monitor, backoff_delay}

-- `Math.random()` lies in [0, 1), so the floor of its product with a number does not exceed it.
pub record IsDraw (random : ℕ → ℕ) : Type 0 where
  pub below : (ceiling : ℕ) → random ceiling ≤ ceiling

-- Attempt `last` is the one reported: it is within the ladder, every earlier one failed in a way
-- worth retrying, and it either settles the check or exhausts the retries.
pub record IsOutcome (probe : ℕ → ProbeResult) (first left : ℕ) (r : ProbeResult) : Type 0 where
  pub last : ℕ
  pub reported : r ≡ record (probe last) { attempts = last + 1 }
  pub from : first ≤ last
  pub upto : last ≤ first + left
  pub earlier : (n : ℕ) → first ≤ n → n < last → is_final (probe n) ≡ false
  pub stopped : (is_final (probe last) ≡ true) ⊎ (last ≡ first + left)

later :
    (probe : ℕ → ProbeResult) (first left : ℕ) (r : ProbeResult)
    → is_final (probe first) ≡ false
    → IsOutcome probe (first + 1) left r
    → IsOutcome probe first (suc left) r
later probe first left r e o = record {
  last = o.last;
  reported = o.reported;
  from = omega (arith, o.from);
  upto = omega (arith, o.upto);
  earlier = λ n h l. elim (dec_le (first + 1) n) [
    | yes p ↦ o.earlier n p l
    | no p ↦ let q : n ≡ first = omega arith in rw q e
  ];
  stopped = elim o.stopped [ inl s ↦ inl s | inr s ↦ inr (omega (arith, s)) ];
}

ladder-IsOutcome :
    (c : Config) (random : ℕ → ℕ → ℕ) (probe : ℕ → ProbeResult) (left first : ℕ)
    → IsOutcome probe first left (ladder c random probe left first).0
unfolding ladder
ladder-IsOutcome c random probe zero first = record {
  last = first;
  reported = refl;
  from = omega arith;
  upto = omega arith;
  earlier = λ n h l. absurd (omega arith);
  stopped = inr (omega arith);
}
ladder-IsOutcome c random probe (suc left) first = elim (Bool-cases (is_final (probe first))) [
  | inl e ↦ rw e (record {
    last = first;
    reported = refl;
    from = omega arith;
    upto = omega arith;
    earlier = λ n h l. absurd (omega arith);
    stopped = inl e;
  })
  | inr e ↦ rw e (later probe first left _ e (ladder-IsOutcome c random probe left (first + 1)))
]

-- A check with `max_retries` retries reports its attempt number `last`, at most `max_retries`, with
-- `attempts` one more; every earlier attempt was DOWN with a retryable error; and that attempt is
-- UP, or not retryable, or the last one allowed.
pub check_monitor-IsOutcome :
    (c : Config) (random : ℕ → ℕ → ℕ) (probe : ℕ → ProbeResult) (max_retries : ℕ)
    → IsOutcome probe 0 max_retries (check_monitor c random probe max_retries).0
unfolding check_monitor
check_monitor-IsOutcome c random probe max_retries = ladder-IsOutcome c random probe max_retries 0

abbrev pub sum : List ℕ → ℕ
sum [] = 0
sum (x ∷ xs) = x + sum xs

backoff_delay-le :
    (c : Config) (random : ℕ → ℕ) (n : ℕ)
    → IsDraw random
    → backoff_delay c random n ≤ c.retry_cap_ms
unfolding backoff_delay
backoff_delay-le c random n d =
    omega (arith, d.below (min (c.retry_base_ms * 2 ^ n) c.retry_cap_ms))

sum-le : (cap : ℕ) (xs : List ℕ) → All (λ s. s ≤ cap) xs → sum xs ≤ length xs * cap
sum-le cap [] h = omega arith
sum-le cap (x ∷ xs) h = omega (arith, h.0, sum-le cap xs h.1)

ladder_sleeps :
    (c : Config) (random : ℕ → ℕ → ℕ) (probe : ℕ → ProbeResult) (left first : ℕ)
    → ((n : ℕ) → IsDraw (random n))
    → let r = ladder c random probe left first in
      (first + length r.1 + 1 ≡ r.0.attempts) × All (λ s. s ≤ c.retry_cap_ms) r.1
unfolding ladder
ladder_sleeps c random probe zero first d = (omega arith, tt)
ladder_sleeps c random probe (suc left) first d = elim (Bool-cases (is_final (probe first))) [
  | inl e ↦ rw e (omega arith, tt)
  | inr e ↦ rw e (
      let ih = ladder_sleeps c random probe left (first + 1) d in
      (omega (arith, ih.0), (backoff_delay-le c (random first) first (d first), ih.1)))
]

-- With draws no larger than their ceilings, a check makes at most `max_retries + 1` attempts and sleeps
-- once between any two of them; no sleep is longer than the cap, and all of them together last at most
-- `max_retries` caps.
pub check_monitor_sleeps :
    (c : Config) (random : ℕ → ℕ → ℕ) (probe : ℕ → ProbeResult) (max_retries : ℕ)
    → ((n : ℕ) → IsDraw (random n))
    → let r = check_monitor c random probe max_retries in
      (r.0.attempts ≤ max_retries + 1)
      × (length r.1 + 1 ≡ r.0.attempts)
      × All (λ s. s ≤ c.retry_cap_ms) r.1
      × (sum r.1 ≤ max_retries * c.retry_cap_ms)
unfolding check_monitor
check_monitor_sleeps c random probe max_retries d =
    let (count, each) = ladder_sleeps c random probe max_retries 0 d in
    let o = ladder-IsOutcome c random probe max_retries 0 in
    let e : (ladder c random probe max_retries 0).0.attempts ≡ o.last + 1 =
      ap (λ r. r.attempts) o.reported in
    let few : length (ladder c random probe max_retries 0).1 ≤ max_retries =
      omega (arith, e, o.upto, count) in
    (
      omega (arith, e, o.upto),
      omega (arith, count),
      each,
      omega (
        arith,
        sum-le c.retry_cap_ms (ladder c random probe max_retries 0).1 each,
        mul-le-mul_right c.retry_cap_ms few,
      ),
    )
