-- ===== src/Probe/Exchange.antt =====
-- Backend/src/services/monitor.service.js, `probeOnce`: one HTTP attempt with its redirects, as a
-- machine over the events that Node delivers. The `URL` class is a parameter, and so is the printing
-- of a number; times are milliseconds of the monotonic clock. A result holds the timings as they are
-- when it is made (the source shares their object with the handlers of a request that it destroys
-- then), and every event belongs to the request that was sent last.
pub mod Settling
pub mod Credentials
use devops_hackathon.Prelude.{
  ℕ, ◌+◌, ◌-◌, ◌≡◌, Bool, true, false, Option, none, some, List, [], ◌∷◌, ◌&&◌, ◌||◌, not, leb, ltb,
  ◌==◌, if◌then◌else◌, or_default, or_text,
}
use devops_hackathon.Monitor.{Status, up, down}
use devops_hackathon.Probe.{
  Timings, ErrorCode, check_timeout, invalid_url, unsupported_protocol, too_many_redirects, unknown,
  http, retryable_code, ProbeResult,
}
use devops_hackathon.Probe.Attempt.{
  Protocol, http_protocol, https_protocol, other_protocol, Parsed, Platform, Options, Sent,
  Exchange, Fault, Event, deadline, failed, response, chunk, body_failed, body_ended, body_closed,
  looked_up, connected, secured,
}
use Prim.Native.String.{String, ◌++◌ as str_append}
use text.Mathlib.Text.{◌==◌ as str_eq}

abbrev pub max_body_bytes : ℕ
max_body_bytes = 524288

unfoldable pub retryable_status : ℕ → Bool
retryable_status code = code == 408 || (code == 429 || leb 500 code)

-- The part of a result that the caller of `finish` gives.
pub record Verdict : Type 0 where
  pub status : Status
  pub status_code : Option ℕ
  pub error : Option String
  pub error_code : Option ErrorCode
  pub retryable : Bool

abbrev complete : Exchange → ℕ → Verdict → ProbeResult
complete s now v = record {
  status = v.status;
  status_code = v.status_code;
  error = v.error;
  error_code = v.error_code;
  retryable = v.retryable;
  redirects = s.redirects;
  response_time = now - s.started;
  timings = record timings { total = some (now - s.started) };
  attempts = 1;
}
  where
    open s use {timings}

abbrev settle : Exchange → ℕ → Verdict → Option ProbeResult → Exchange
settle s now v (some r) = s
settle s now v none = record s { settled = some (complete s now v) }

-- `finish`: the first verdict stands.
unfoldable pub finish : Exchange → ℕ → Verdict → Exchange
finish s now v = settle s now v s.settled

-- The code of `err?.code`, retryable only if the source lists it.
abbrev retryable_fault : Option ErrorCode → Bool
retryable_fault none = false
retryable_fault (some c) = retryable_code c

unfoldable pub fail : Exchange → ℕ → Fault → Exchange
unfolding finish
fail s now f = finish s now (record {
  status = down;
  status_code = none;
  error = some (or_text f.message "Request failed");
  error_code = some (or_default f.code unknown);
  retryable = retryable_fault f.code;
})

abbrev down_with : Option ℕ → String → ErrorCode → Bool → Verdict
down_with status_code error code retryable = record {
  status = down;
  status_code = status_code;
  error = some error;
  error_code = some code;
  retryable = retryable;
}

module _ (p : Platform) where
  -- `originOf`
  unfoldable pub origin_of : String → Option String
  origin_of url = elim (p.parse url) [ none ↦ none | some u ↦ some u.origin ]

  -- `originOf(targetUrl) === initialOrigin`
  abbrev same_origin : Option String → Option String → Bool
  same_origin none none = true
  same_origin (some a) (some b) = str_eq a b
  same_origin _ _ = false

  -- The request proper, with the variables of its hop.
  abbrev send : Options → Exchange → ℕ → String → Exchange
  send o s now url = record s {
    target = url;
    hop_start = now;
    hop_dns = none;
    hop_tcp = none;
    responded = none;
    bytes = 0;
    sent =
        record {
          url = url;
          credentials = if same_origin (origin_of url) (origin_of s.raw_url) then o.headers else [];
          reject_unauthorized = not o.ignore_tls_errors;
        }
        ∷ s.sent;
  }

  abbrev request_protocol : Options → Exchange → ℕ → String → Protocol → Exchange
  request_protocol o s now url http_protocol = send o s now url
  request_protocol o s now url https_protocol = send o s now url
  request_protocol o s now url (other_protocol q) =
      finish s now
        (down_with none (str_append "Unsupported protocol: " q) unsupported_protocol false)

  abbrev request_parsed : Options → Exchange → ℕ → String → Option Parsed → Exchange
  request_parsed o s now url none =
      finish s now (down_with none (str_append "Invalid URL: " url) invalid_url false)
  request_parsed o s now url (some u) = request_protocol o s now url u.protocol

  unfoldable pub request : Options → Exchange → ℕ → String → Exchange
  unfolding finish origin_of
  request o s now url = request_parsed o s now url (p.parse url)

  -- `settleWithStatus`
  unfoldable pub settle_with_status : Exchange → ℕ → ℕ → Exchange
  unfolding finish retryable_status
  settle_with_status s now code =
      if leb 200 code && ltb code 400
      then (finish s now (record {
        status = up;
        status_code = some code;
        error = none;
        error_code = none;
        retryable = false;
      }))
      else (finish s now (
          down_with (some code) (str_append "HTTP " (p.show code)) (http code)
            (retryable_status code)))

  -- `location &&`: an empty header is no location.
  abbrev given : Option String → Option String
  given none = none
  given (some l) = if str_eq l "" then none else some l

  abbrev drain : Exchange → ℕ → Exchange
  drain s code = record s { responded = some code }

  -- `return request(new URL(location, targetUrl).toString())`, after `redirects += 1`.
  abbrev follow : Options → Exchange → ℕ → Option String → Exchange
  follow o s now none = record s { crashed = true }
  follow o s now (some url) = request o s now url

  abbrev respond_located : Options → Exchange → ℕ → ℕ → String → Exchange
  respond_located o s now code location =
      if leb 300 code && (ltb code 400 && ltb s.redirects o.max_redirects)
      then (follow o (record s { redirects = s.redirects + 1 }) now (p.resolve location s.target))
      else if leb o.max_redirects s.redirects
      then (finish s now (
          down_with (some code)
            (str_append "Exceeded " (str_append (p.show o.max_redirects) " redirects"))
            too_many_redirects false))
      else drain s code

  abbrev respond_to : Options → Exchange → ℕ → ℕ → Option String → Exchange
  respond_to o s now code none = drain s code
  respond_to o s now code (some location) = respond_located o s now code location

  unfoldable pub respond : Options → Exchange → ℕ → ℕ → Option String → Exchange
  unfolding request finish
  respond o s now code location =
      respond_to o (record s { timings = record timings { ttfb = some (now - s.started) } }) now
        code (given location)
    where
      open s use {timings}

  abbrev end_body : Exchange → ℕ → Option ℕ → Exchange
  end_body s now none = s
  end_body s now (some code) = settle_with_status s now code

  -- The phase marks: each is taken off what the hop has used up, and added to the running total.
  abbrev look_up : Exchange → ℕ → Exchange
  look_up s now =
      let spent = now - s.hop_start in
      record s {
        hop_dns = some spent;
        timings = record timings { dns = some (or_default timings.dns 0 + spent) };
      }
    where
      open s use {timings}

  abbrev connect : Exchange → ℕ → Exchange
  connect s now =
      let spent = now - s.hop_start - or_default s.hop_dns 0 in
      record s {
        hop_tcp = some spent;
        timings = record timings { tcp = some (or_default timings.tcp 0 + spent) };
      }
    where
      open s use {timings}

  abbrev secure : Exchange → ℕ → Exchange
  secure s now =
      let spent = now - s.hop_start - or_default s.hop_dns 0 - or_default s.hop_tcp 0 in
      record s { timings = record timings { tls = some (or_default timings.tls 0 + spent) } }
    where
      open s use {timings}

  abbrev handle : Options → Exchange → ℕ → Event → Exchange
  handle o s now deadline = finish s now (
      down_with none (str_append "Check exceeded " (str_append (p.show o.timeout_ms) "ms deadline"))
        check_timeout true)
  handle o s now (failed f) = fail s now f
  handle o s now (response code location) = respond o s now code location
  handle o s now (chunk n) = record s {
    bytes = s.bytes + n;
    body_destroyed = s.body_destroyed || ltb max_body_bytes (s.bytes + n);
  }
  handle o s now body_failed = end_body s now s.responded
  handle o s now body_ended = end_body s now s.responded
  handle o s now body_closed = end_body s now s.responded
  handle o s now looked_up = look_up s now
  handle o s now connected = connect s now
  handle o s now secured = secure s now

  -- One event; a process that has crashed handles no more.
  unfoldable pub step : Options → Exchange → ℕ → Event → Exchange
  unfolding respond settle_with_status fail finish
  step o s now e = if s.crashed then s else handle o s now e

  -- The variables before `request(rawUrl)`, and the call.
  abbrev pub start : String → ℕ → Exchange
  start url now = record {
    raw_url = url;
    started = now;
    settled = none;
    redirects = 0;
    timings = record { dns = none; tcp = none; tls = none; ttfb = none; total = none };
    target = url;
    hop_start = now;
    hop_dns = none;
    hop_tcp = none;
    responded = none;
    bytes = 0;
    body_destroyed = false;
    sent = [];
    crashed = false;
  }

  -- The whole attempt over the events that arrive, each with its time.
  unfoldable pub events : Options → Exchange → List (ℕ × Event) → Exchange
  events o s [] = s
  events o s ((now, e) ∷ es) = events o (step o s now e) es

  unfoldable pub probe_once : Options → String → ℕ → List (ℕ × Event) → Exchange
  unfolding events request
  probe_once o url now es = events o (request o (start url now) now url) es
