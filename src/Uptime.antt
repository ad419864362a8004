-- ===== src/Uptime.antt =====
-- Backend/src/services/uptime.service.js: the uptime of a monitor over three rolling windows. The
-- pipeline of the aggregation is computed over the list of the log's rows; a percentage is in
-- thousandths, and is computed as the doubles of JavaScript are.
pub mod Counts
pub mod Percentages
use devops_hackathon.Prelude.{
  ℕ, ◌+◌, ◌*◌, ◌/◌, ◌-◌, ◌^◌, max, Bool, true, false, Option, none, some, List, [], ◌∷◌, ◌&&◌, ◌==◌,
  leb, if◌then◌else◌,
}
use devops_hackathon.Prelude.Texts.{filter}
use devops_hackathon.Prelude.Doubles.{quotient, times_hundred, to_fixed_3, scale}
use devops_hackathon.Monitor.{Status, up, down}
use devops_hackathon.Check.{LogRow}

-- WINDOWS, in milliseconds.
abbrev pub day : ℕ
day = 24 * (60 * (60 * 1000))

abbrev pub week : ℕ
week = 7 * day

abbrev pub month : ℕ
month = 30 * day

abbrev pub is_up : LogRow → Bool
is_up row = elim row.status [ up ↦ true | down ↦ false ]

-- What `groupStage` makes of the rows; `latencies` lists what its average is over.
pub record Bucket : Type 0 where
  pub total : ℕ
  pub up : ℕ
  pub latency_sum : ℕ
  pub last_check_at : ℕ

abbrev add_row : LogRow → Option Bucket → Bucket
add_row row none = record {
  total = 1;
  up = if is_up row then 1 else 0;
  latency_sum = if is_up row then row.latency else 0;
  last_check_at = row.timestamp;
}
add_row row (some b) = record {
  total = 1 + b.total;
  up = if is_up row then 1 + b.up else b.up;
  latency_sum = if is_up row then row.latency + b.latency_sum else b.latency_sum;
  last_check_at = max row.timestamp b.last_check_at;
}

-- One group, and none where there is no row.
unfoldable pub group_stage : List LogRow → Option Bucket
group_stage [] = none
group_stage (row ∷ rows) = some (add_row row (group_stage rows))

pub record Window : Type 0 where
  pub uptime : Option ℕ
  pub total_checks : ℕ
  pub up_checks : ℕ
  pub down_checks : ℕ
  pub avg_latency_ms : Option ℕ
  pub last_check_at : Option ℕ

pub record Windows : Type 0 where
  pub last_day : Window
  pub last_week : Window
  pub last_month : Window

-- `Math.round(a / b)`, where the double nearest to a / b rounds as the quotient does: below 2 ^ 52 of a.
abbrev pub rounded : ℕ → ℕ → ℕ
rounded a b = (2 * a + b) / (2 * b)

-- `Number(((up / total) * 100).toFixed(3))` in thousandths.
unfoldable pub percentage : ℕ → ℕ → ℕ
unfolding quotient times_hundred scale
percentage n total = to_fixed_3 (times_hundred (quotient n total)) (2 ^ scale n total)

unfoldable pub window_of : Option Bucket → Window
unfolding percentage
window_of none = record {
  uptime = none;
  total_checks = 0;
  up_checks = 0;
  down_checks = 0;
  avg_latency_ms = none;
  last_check_at = none;
}
window_of (some b) = record {
  uptime = if b.total == 0 then none else some (percentage b.up b.total);
  total_checks = b.total;
  up_checks = b.up;
  down_checks = b.total - b.up;
  avg_latency_ms = if b.up == 0 then none else some (rounded b.latency_sum b.up);
  last_check_at = some b.last_check_at;
}

-- `timestamp: { $gte: now - ms }`
abbrev pub recent : (now ms : ℕ) → LogRow → Bool
recent now ms row = leb now (row.timestamp + ms)

-- The rows that the first `$match` lets through.
abbrev pub of_monitor : (monitor now : ℕ) → LogRow → Bool
of_monitor monitor now row = (row.monitor_id == monitor) && recent now month row

unfoldable pub get_uptime_windows : List LogRow → (monitor now : ℕ) → Windows
unfolding group_stage window_of
get_uptime_windows logs monitor now =
    let rows = filter (of_monitor monitor now) logs in
    record {
      last_day = window_of (group_stage (filter (recent now day) rows));
      last_week = window_of (group_stage (filter (recent now week) rows));
      last_month = window_of (group_stage (filter (recent now month) rows));
    }
