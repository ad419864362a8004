-- ===== src/Probe/Attempt.antt =====
-- Backend/src/services/monitor.service.js, `probeOnce`: the data of one attempt, which are its options,
-- its variables, the requests that it sends and the events that Node delivers.
use devops_hackathon.Prelude.{ℕ, Bool, Option, List}
use devops_hackathon.Probe.{Timings, ErrorCode, ProbeResult}
use Prim.Native.String.{String}

pub data Protocol : Type 0 where
  http_protocol https_protocol : Protocol
  other_protocol : String → Protocol

pub record Parsed : Type 0 where
  pub protocol : Protocol
  pub origin : String

-- What the code takes from the platform: `new URL(u)` (`none` where it throws), `new URL(l, u)` as a
-- text, and a number as a text.
pub record Platform : Type 0 where
  pub parse : String → Option Parsed
  pub resolve : String → String → Option String
  pub show : ℕ → String

pub record Options : Type 0 where
  pub timeout_ms : ℕ
  pub ignore_tls_errors : Bool
  pub max_redirects : ℕ
  pub headers : List (String × String)

-- A request that was sent: `credentials` are the caller's headers that it carries.
pub record Sent : Type 0 where
  pub url : String
  pub credentials : List (String × String)
  pub reject_unauthorized : Bool

-- The variables of one call. `crashed` is an exception that left an event handler, which ends the
-- process; `responded` is the status code of a response whose body is being drained.
pub record Exchange : Type 0 where
  pub raw_url : String
  pub started : ℕ
  pub settled : Option ProbeResult
  pub redirects : ℕ
  pub timings : Timings
  pub target : String
  pub hop_start : ℕ
  pub hop_dns : Option ℕ
  pub hop_tcp : Option ℕ
  pub responded : Option ℕ
  pub bytes : ℕ
  pub body_destroyed : Bool
  pub sent : List Sent
  pub crashed : Bool

pub record Fault : Type 0 where
  pub message : Option String
  pub code : Option ErrorCode

pub data Event : Type 0 where
  deadline : Event
  failed : Fault → Event
  response : (status_code : ℕ) (location : Option String) → Event
  chunk : ℕ → Event
  body_failed body_ended body_closed : Event
  looked_up connected secured : Event
