-- ===== src/Uptime/Percentages.antt =====
-- Backend/src/services/uptime.service.js: how far the percentage, computed in doubles, is from the exact
-- one.
use devops_hackathon.Prelude.{
  ℕ, zero, suc, ◌≡◌, ap, sym, ◌∙◌, ◌+◌, ◌*◌, ◌/◌, ◌%◌, ◌^◌, ◌≤◌, ◌<◌, ltb, leb, arith, inl, inr,
  Bool-cases,
}
use devops_hackathon.Prelude.Doubles.{
  round_even, doublings, scale, quotient, times_hundred, to_fixed_3,
}
use devops_hackathon.Uptime.{percentage}
use native.Mathlib.Omega.{pow_step}
use native.Mathlib.Nat.{
  mul-le-mul_right, div-add-mod', mod-lt, le_of_mul-le-mul_right, lt_of_mul-lt-mul_right,
  pow-le-pow_right, div-lt_iff_lt-mul, le-div_iff_mul-le,
}

abbrev Near : (a b q : ℕ) → Type 0
Near a b q = (2 * (q * b) ≤ 2 * a + b) × (2 * a ≤ 2 * (q * b) + b)

tie-Near : (q r a b d : ℕ) → d < 2 → q * b + r ≡ a → 2 * r ≡ b → Near a b (q + d)
tie-Near q r a b zero l h t = (omega (arith, h, t), omega (arith, h, t))
tie-Near q r a b (suc zero) l h t = (omega (arith, h, t), omega (arith, h, t))
tie-Near q r a b (suc (suc d)) l h t = absurd (omega (arith, l))

-- The rounding is off by half a unit at most.
round_even-Near : (a b : ℕ) → zero < b → Near a b (round_even a b)
unfolding round_even
round_even-Near a b z =
    let q = a / b in
    let r = a % b in
    let whole : q * b + r ≡ a = div-add-mod' a b in
    let rest : r < b = mod-lt a z in
    elim (Bool-cases (ltb (2 * r) b)) [
      | inl e ↦ rw e (ground (arith, whole, rest, e), ground (arith, whole, rest, e))
      | inr e ↦ elim (Bool-cases (ltb b (2 * r))) [
        | inl k ↦ rw (e, k) (ground (arith, whole, rest, k), ground (arith, whole, rest, k))
        | inr k ↦
            rw (e, k)
              (tie-Near q r a b (q % 2) (mod-lt q (omega arith)) whole (ground (arith, e, k)))
      ]
    ]

times_hundred-near :
    (m : ℕ) → (2 * times_hundred m ≤ 200 * m + 128) × (200 * m ≤ 2 * times_hundred m + 128)
unfolding times_hundred
times_hundred-near m =
    let six = round_even-Near (100 * m) 64 (omega arith) in
    let seven = round_even-Near (100 * m) 128 (omega arith) in
    elim (Bool-cases (ltb (100 * m) (2 ^ 59))) [
      | inl e ↦ rw (times_hundred, e) (omega (arith, six.0), omega (arith, six.1))
      | inr e ↦ rw (times_hundred, e) (omega (arith, seven.0), omega (arith, seven.1))
    ]

pow_shift : (a k : ℕ) → a * 2 ^ suc k ≡ 2 * a * 2 ^ k
pow_shift a k = ap (λ x. a * x) (pow_step 2 k) ∙ omega arith

-- 53 doublings are enough for a count below 2 ^ 53.
doublings-enough : (fuel a b : ℕ) → b ≤ a * 2 ^ fuel → b ≤ a * 2 ^ doublings fuel a b
unfolding doublings
doublings-enough zero a b h = h
doublings-enough (suc fuel) a b h = elim (Bool-cases (leb b a)) [
  | inl e ↦ rw e (ground (arith, e))
  | inr e ↦
      let start : b ≤ 2 * a * 2 ^ fuel = omega (arith, h, pow_shift a fuel) in
      let rest = doublings-enough fuel (2 * a) b start in
      rw e (omega (arith, rest, pow_shift a (doublings fuel (2 * a) b)))
]

scale-le : (n total : ℕ) → 2 ^ 52 ≤ 2 ^ scale n total
unfolding scale
scale-le n total =
    pow-le-pow_right {n = 2} (omega arith) {i = 52} {j = 52 + doublings 53 n total} (omega arith)

pow_plus : (c k : ℕ) → 2 ^ (c + k) ≡ 2 ^ c * 2 ^ k
pow_plus zero k = ap (λ x. 2 ^ x) {x = 0 + k} {y = k} (omega arith) ∙ omega arith
pow_plus (suc c) k =
    ap (λ x. 2 ^ x) {x = suc c + k} {y = suc (c + k)} (omega arith)
    ∙ (pow_step 2 (c + k)
        ∙ (ap (λ x. 2 * x) (pow_plus c k)
            ∙ (omega arith ∙ ap (λ x. x * 2 ^ k) (sym (pow_step 2 c)))))

-- The numerator of the quotient has 53 bits, before it is rounded.
scale-enough : (n total : ℕ) → zero < n → total ≤ 2 ^ 53 → 2 ^ 52 * total ≤ n * 2 ^ scale n total
unfolding scale
scale-enough n total z h =
    let enough = doublings-enough 53 n total (omega (arith, z, h)) in
    rw (pow_plus 52 (doublings 53 n total)) (omega (arith, enough))

-- x is the quotient 100000 n / t to within half a unit and a billionth of one.
abbrev pub IsPercentage : (n t x : ℕ) → Type 0
IsPercentage n t x =
    (2000000000 * (x * t) ≤ 200000000000000 * n + 1000000001 * t)
    × (200000000000000 * n ≤ 2000000000 * (x * t) + 1000000001 * t)

above :
    (x d t n m p : ℕ)
    → x * (2 * d) ≤ 2 * (1000 * p) + d
    → 2 * p ≤ 200 * m + 128
    → 2 * (m * t) ≤ 2 * (n * d) + t
    → 2 ^ 52 ≤ d
    → 2000000000 * (x * t) * d ≤ (200000000000000 * n + 1000000001 * t) * d
above x d t n m p a b c e =
    let a' = mul-le-mul_right t a in
    let b' = mul-le-mul_right t b in let e' = mul-le-mul_right t e in omega (arith, a', b', c, e')

below :
    (x d t n m p : ℕ)
    → 2 * (1000 * p) + d < (x + 1) * (2 * d)
    → 200 * m ≤ 2 * p + 128
    → 2 * (n * d) ≤ 2 * (m * t) + t
    → 2 ^ 52 ≤ d
    → 200000000000000 * n * d ≤ (2000000000 * (x * t) + 1000000001 * t) * d
below x d t n m p a b c e =
    let a' = mul-le-mul_right t a in
    let b' = mul-le-mul_right t b in let e' = mul-le-mul_right t e in omega (arith, a', b', c, e')

pub percentage-IsPercentage :
    (n total : ℕ) → zero < total → IsPercentage n total (percentage n total)
unfolding percentage quotient
percentage-IsPercentage n total z =
    let d = 2 ^ scale n total in
    let m = quotient n total in
    let p = times_hundred m in
    let x = to_fixed_3 p d in
    let big = scale-le n total in
    let pos : zero < 2 * d = omega (arith, big) in
    let divided = round_even-Near (n * d) total z in
    let product = times_hundred-near m in
    let lower : x * (2 * d) ≤ 2 * (1000 * p) + d =
      (le-div_iff_mul-le {k = 2 * d} {x = x} {y = 2 * (1000 * p) + d} pos).0 (omega arith) in
    let upper : 2 * (1000 * p) + d < (x + 1) * (2 * d) =
      (div-lt_iff_lt-mul {k = 2 * d} {x = 2 * (1000 * p) + d} {y = x + 1} pos).0 (omega arith) in
    (
      le_of_mul-le-mul_right {k = d} (above x d total n m p lower product.0 divided.0 big)
          (omega (arith, big)),
      le_of_mul-le-mul_right {k = d} (below x d total n m p upper product.1 divided.1 big)
          (omega (arith, big)),
    )

pub IsPercentage-le : (n t x : ℕ) → zero < t → n ≤ t → IsPercentage n t x → x ≤ 100000
IsPercentage-le n t x z h p =
    let bound : x * t < 100001 * t = omega (arith, z, h, p.0) in
    omega (arith, lt_of_mul-lt-mul_right t bound)
