-- ===== src/Tests/Uptimes.antt =====
-- A log of three rows.
use devops_hackathon.Prelude.{◌≡◌, ◌≤◌, refl, none, some, List, [], ◌∷◌, length}
use devops_hackathon.Monitor.{up, down}
use devops_hackathon.Check.{LogRow}
use devops_hackathon.Uptime.{get_uptime_windows, percentage, day, week, month}
use devops_hackathon.Uptime.Counts.{get_uptime_windows-IsWindowOf, IsWindowOf, rows_since}

abbrev row : LogRow
row = record {
  monitor_id = 7;
  status = up;
  latency = 80;
  timings = record { dns = none; tcp = none; tls = none; ttfb = none; total = none };
  status_code = some 200;
  error = none;
  attempts = 1;
  timestamp = 999000000;
}

abbrev logs : List LogRow
logs =
    row
    ∷ (record row { status = down; timestamp = 998000000 })
    ∷ (record row { timestamp = 500000000 })
    ∷ []

last_day_uptime : (get_uptime_windows logs 7 1000000000).last_day.uptime ≡ some 50000
unfolding get_uptime_windows
last_day_uptime = refl

last_week_uptime : (get_uptime_windows logs 7 1000000000).last_week.uptime ≡ some 66667
unfolding get_uptime_windows
last_week_uptime = refl

-- 100 * (23 / 320) is the double before 7.1875.
below_half : percentage 23 320 ≡ 7187
unfolding percentage
below_half = refl

exact_half : percentage 1 16 ≡ 6250
unfolding percentage
exact_half = refl

everything : percentage 7 7 ≡ 100000
unfolding percentage
everything = refl

get_uptime_windows-IsWindowOf_example :
    IsWindowOf (rows_since logs 7 1000000000 day) (get_uptime_windows logs 7 1000000000).last_day
    × IsWindowOf
        (rows_since logs 7 1000000000 week)
        (get_uptime_windows logs 7 1000000000).last_week
    × IsWindowOf
        (rows_since logs 7 1000000000 month)
        (get_uptime_windows logs 7 1000000000).last_month
    × (length (rows_since logs 7 1000000000 day) ≤ length (rows_since logs 7 1000000000 week))
    × (length (rows_since logs 7 1000000000 week) ≤ length (rows_since logs 7 1000000000 month))
get_uptime_windows-IsWindowOf_example = get_uptime_windows-IsWindowOf logs 7 1000000000
