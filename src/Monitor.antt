-- ===== src/Monitor.antt =====
-- Backend/src/models/monitor.model.js: the part of a monitor document that the scheduler and its
-- collaborators read or write. A field that a stored document may lack is an `Option`; a time is in
-- milliseconds, an ObjectId is a number.
use devops_hackathon.Prelude.{ℕ, Bool, Option}
use Prim.Native.String.{String}

pub data Status : Type 0 where
  up down : Status

pub data BreakerState : Type 0 where
  closed opened half_open : BreakerState

pub record Monitor : Type 0 where
  pub id : ℕ
  pub user_id : ℕ
  pub title : Option String
  pub description : Option String
  pub kind : Option String
  pub url : String
  pub interval : Option ℕ
  pub timeout : Option ℕ
  pub status : Option Status
  pub last_check_status : Option Status
  pub last_checked : Option ℕ
  pub last_status_code : Option ℕ
  pub active : Option Bool
  pub next_check_at : Option ℕ
  pub auth_headers : Option String
  pub ignore_tls_errors : Option Bool
  pub failure_threshold : Option ℕ
  pub success_threshold : Option ℕ
  pub consecutive_failures : Option ℕ
  pub consecutive_successes : Option ℕ
  pub breaker_state : Option BreakerState
  pub breaker_opened_at : Option ℕ
  pub breaker_retry_at : Option ℕ
  pub breaker_consecutive_opens : Option ℕ
