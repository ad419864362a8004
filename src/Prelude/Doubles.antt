-- ===== src/Prelude/Doubles.antt =====
-- The JavaScript numbers of a percentage, `Number(((n / total) * 100).toFixed(3))` for n ≤ total: the
-- numerators over 2 ^ k of IEEE doubles, which have 53 bits, rounded to the nearest, ties to even.
use Prim.Native.Nat.{ℕ, zero, suc, ◌+◌, ◌*◌, ◌/◌, ◌%◌, ◌^◌}
use devops_hackathon.Prelude.Tests.{ltb, leb, if◌then◌else◌}

-- The integer nearest to a / b; of two, the even one.
abbrev nearest : (q r b : ℕ) → ℕ
nearest q r b = if ltb (2 * r) b then q else if ltb b (2 * r) then q + 1 else q + q % 2

unfoldable pub round_even : ℕ → ℕ → ℕ
round_even a b = nearest (a / b) (a % b) b

-- How often a is doubled to reach b.
unfoldable pub doublings : (fuel : ℕ) → ℕ → ℕ → ℕ
doublings zero a b = 0
doublings (suc fuel) a b = let rest = doublings fuel (2 * a) b in if leb b a then 0 else suc rest

-- The k of the quotient n / total: its numerator has 53 bits. Counts are below 2 ^ 53.
unfoldable pub scale : ℕ → ℕ → ℕ
unfolding doublings
scale n total = 52 + doublings 53 n total

unfoldable pub quotient : ℕ → ℕ → ℕ
unfolding scale round_even
quotient n total = round_even (n * 2 ^ scale n total) total

-- The product of a numerator of 53 bits with 100 has 59 bits or 60.
unfoldable pub times_hundred : ℕ → ℕ
unfolding round_even
times_hundred m =
    if ltb (100 * m) (2 ^ 59) then round_even (100 * m) 64 * 64 else round_even (100 * m) 128 * 128

-- `toFixed(3)`, in thousandths: the integer nearest to 1000 times the number, of two the larger one.
abbrev pub to_fixed_3 : (m d : ℕ) → ℕ
to_fixed_3 m d = (2 * (1000 * m) + d) / (2 * d)
