-- ===== src/Uptime/Counts.antt =====
-- Backend/src/services/uptime.service.js: the counts of a window and the percentage made of them.
use devops_hackathon.Prelude.{
  ℕ, zero, suc, ◌≡◌, refl, ap, ◌+◌, ◌≤◌, Bool, false, Option, none, some, List, [], ◌∷◌, ◌&&◌, ◌==◌,
  length, arith,
}
use devops_hackathon.Prelude.Texts.{filter}
use devops_hackathon.Check.{LogRow}
use devops_hackathon.Uptime.{
  Bucket, Window, group_stage, is_up, window_of, percentage, get_uptime_windows, recent, of_monitor,
  day, week, month, add_row,
}
use devops_hackathon.Uptime.Percentages.{IsPercentage, percentage-IsPercentage, IsPercentage-le}

length-filter : {A : Type 0} (p : A → Bool) (xs : List A) → length (filter p xs) ≤ length xs
length-filter p [] = omega arith
length-filter p (x ∷ xs) = ground (arith, length-filter p xs)

-- The bucket of one row or more counts them, and those with status UP.
group_stage-counts :
    (row : LogRow) (rows : List LogRow)
    → (b : Bucket) × (group_stage (row ∷ rows) ≡ some b)
      × (b.total ≡ length (row ∷ rows))
      × (b.up ≡ length (filter is_up (row ∷ rows)))
unfolding group_stage
group_stage-counts row [] = (_, refl, refl, ground arith)
group_stage-counts row (next ∷ rows) =
    let (b, e, t, u) = group_stage-counts next rows in
    (add_row row (some b), ap (λ o. some (add_row row o)) e, ground (arith, t), ground (arith, u))

-- What a window says of the rows that fall into it: how many there are and how many with status UP; the
-- uptime is missing if there is no row, and else at most 100 percent, and the percentage of the counts to
-- within half a thousandth and a billionth of one.
abbrev pub IsUptime : ℕ → ℕ → Option ℕ → Type 0
IsUptime n zero u = u ≡ none
IsUptime n (suc k) u = (x : ℕ) × (u ≡ some x) × (x ≤ 100000) × IsPercentage n (suc k) x

abbrev pub IsWindowOf : List LogRow → Window → Type 0
IsWindowOf rows w =
    (w.total_checks ≡ length rows)
    × (w.up_checks ≡ length (filter is_up rows))
    × (w.up_checks + w.down_checks ≡ w.total_checks)
    × IsUptime (length (filter is_up rows)) (length rows) w.uptime

IsUptime-percentage : (n k : ℕ) → n ≤ suc k → IsUptime n (suc k) (some (percentage n (suc k)))
IsUptime-percentage n k h =
    let near = percentage-IsPercentage n (suc k) (omega arith) in
    (percentage n (suc k), refl, IsPercentage-le n (suc k) _ (omega arith) h near, near)

not_zero : (k : ℕ) → (suc k == 0) ≡ false
not_zero k = ground arith

bucket-IsWindowOf :
    (rows : List LogRow) (b : Bucket) (k : ℕ)
    → length rows ≡ suc k
    → b.total ≡ length rows
    → b.up ≡ length (filter is_up rows)
    → IsWindowOf rows (window_of (some b))
unfolding window_of
bucket-IsWindowOf rows b k l t u =
    let few = length-filter is_up rows in
    (
      t,
      u,
      ground (arith, t, u, few),
      simp (t, u, l, not_zero k)
          (IsUptime-percentage (length (filter is_up rows)) k (omega (arith, few, l))),
    )

pub window_of-IsWindowOf : (rows : List LogRow) → IsWindowOf rows (window_of (group_stage rows))
window_of-IsWindowOf [] = unfold group_stage window_of in (refl, refl, refl, refl)
window_of-IsWindowOf (row ∷ rows) =
    let (b, e, t, u) = group_stage-counts row rows in
    rw e (bucket-IsWindowOf (row ∷ rows) b (length rows) refl t u)

-- The rows of a monitor at or after `now - ms`.
abbrev pub rows_since : List LogRow → (monitor now ms : ℕ) → List LogRow
rows_since logs monitor now ms =
    filter (λ row. (row.monitor_id == monitor) && recent now ms row) logs

filter_twice :
    (logs : List LogRow) (monitor now ms : ℕ)
    → ms ≤ month
    → filter (recent now ms) (filter (of_monitor monitor now) logs) ≡ rows_since logs monitor now ms
filter_twice [] monitor now ms h = refl
filter_twice (row ∷ logs) monitor now ms h = ground (arith, filter_twice logs monitor now ms h)

rows_since_wider :
    (logs : List LogRow) (monitor now ms wider : ℕ)
    → ms ≤ wider
    → length (rows_since logs monitor now ms) ≤ length (rows_since logs monitor now wider)
rows_since_wider [] monitor now ms wider h = omega arith
rows_since_wider (row ∷ logs) monitor now ms wider h =
    ground (arith, rows_since_wider logs monitor now ms wider h)

since-IsWindowOf :
    (logs : List LogRow) (monitor now ms : ℕ)
    → ms ≤ month
    → IsWindowOf
        (rows_since logs monitor now ms)
        (window_of (group_stage (filter (recent now ms) (filter (of_monitor monitor now) logs))))
since-IsWindowOf logs monitor now ms h =
    rw (filter_twice logs monitor now ms h) (window_of-IsWindowOf (rows_since logs monitor now ms))

-- Each window counts exactly the monitor's rows of its own span, all of them and those with status UP;
-- its uptime is missing if there is none, and else at most 100 and the percentage of the two counts, to
-- within half a thousandth and a billionth of one. A shorter span counts no more rows than a longer one.
pub get_uptime_windows-IsWindowOf :
    (logs : List LogRow) (monitor now : ℕ)
    → IsWindowOf (rows_since logs monitor now day) (get_uptime_windows logs monitor now).last_day
      × IsWindowOf
          (rows_since logs monitor now week)
          (get_uptime_windows logs monitor now).last_week
      × IsWindowOf
          (rows_since logs monitor now month)
          (get_uptime_windows logs monitor now).last_month
      × (length (rows_since logs monitor now day) ≤ length (rows_since logs monitor now week))
      × (length (rows_since logs monitor now week) ≤ length (rows_since logs monitor now month))
unfolding get_uptime_windows
get_uptime_windows-IsWindowOf logs monitor now = (
  since-IsWindowOf logs monitor now day (omega arith),
  since-IsWindowOf logs monitor now week (omega arith),
  since-IsWindowOf logs monitor now month (omega arith),
  rows_since_wider logs monitor now day week (omega arith),
  rows_since_wider logs monitor now week month (omega arith),
)
