-- ===== src/Notifier.antt =====
-- Backend/src/notifications/notifier.js: the registry of notifiers and the fan-out of an incident's
-- event to them. What a notifier's `send` comes to is a function of the payload; the calls are the
-- rows of the notification log, whose failures the source swallows.
pub mod Registry
pub mod FanOut
use devops_hackathon.Prelude.{
  ℕ, Bool, true, false, Option, none, some, List, [], ◌∷◌, ◌++◌, map, not, if◌then◌else◌,
  or_default, or_text, first_some,
}
use devops_hackathon.Incident.{IncidentEvent, incident_opened, incident_closed, Payload}
use Prim.Native.String.{String}
use text.Mathlib.Text.{◌==◌ as str_eq}

pub data DeliveryStatus : Type 0 where
  delivered failed_delivery skipped : DeliveryStatus

pub record NotificationResult : Type 0 where
  pub status : DeliveryStatus
  pub channel : Option String
  pub target : Option String
  pub detail : Option String

-- What the promise of `send` comes to: one outcome, several, or an error with its message.
pub data Sending : Type 0 where
  one : Option NotificationResult → Sending
  many : List (Option NotificationResult) → Sending
  thrown : (message : Option String) → Sending

pub record Notifier : Type 0 where
  pub name : String
  pub supports : IncidentEvent → Bool
  pub send : Payload → Sending

-- An object handed to `register`, before its contract is known to hold.
pub record Candidate : Type 0 where
  pub name : Option String
  pub supports : Option (IncidentEvent → Bool)
  pub send : Option (Payload → Sending)

pub record LogEntry : Type 0 where
  pub user_id : ℕ
  pub monitor_id : ℕ
  pub event : String
  pub channel : String
  pub target : Option String
  pub status : DeliveryStatus
  pub detail : Option String

-- `EVENT_LABELS`
unfoldable pub event_label : IncidentEvent → String
event_label incident_opened = "CRITICAL_OUTAGE"
event_label incident_closed = "HEALTH_RECOVERY"

-- `this.notifiers.filter((n) => n.name !== name)`
unfoldable pub unregister : String → List Notifier → List Notifier
unregister name [] = []
unregister name (n ∷ ns) =
    let rest = unregister name ns in if str_eq n.name name then rest else (n ∷ rest)

abbrev register_named :
    List Notifier
    → Option (IncidentEvent → Bool)
    → String
    → (Payload → Sending)
    → Option (List Notifier)
register_named ns supports name send =
    if str_eq name ""
    then none
    else (some (
        unregister name ns
        ++ record { name = name; supports = or_default supports (λ e. true); send = send } ∷ []))

abbrev register_checked :
    List Notifier
    → Option (IncidentEvent → Bool)
    → Option String
    → Option (Payload → Sending)
    → Option (List Notifier)
register_checked ns supports (some name) (some send) = register_named ns supports name send
register_checked ns supports name send = none

-- `none` where it throws.
unfoldable pub register : List Notifier → Candidate → Option (List Notifier)
unfolding unregister
register ns c = register_checked ns c.supports c.name c.send

-- `{ channel: notifier.name, ...o }`
abbrev pub labelled : String → NotificationResult → NotificationResult
labelled name o = record o { channel = first_some o.channel (some name) }

-- `.filter(Boolean).map(...)`
abbrev pub kept : String → List (Option NotificationResult) → List NotificationResult
kept name [] = []
kept name (none ∷ os) = kept name os
kept name (some o ∷ os) = labelled name o ∷ kept name os

-- The results of one notifier; one that throws has failed.
unfoldable pub results_of : String → Sending → List NotificationResult
results_of name (one o) = kept name (o ∷ [])
results_of name (many os) = kept name os
results_of name (thrown message) =
    record {
      status = failed_delivery;
      channel = some name;
      target = none;
      detail = some (or_text message "Notifier threw");
    }
    ∷ []

unfoldable pub collect : List Notifier → Payload → List NotificationResult
unfolding results_of
collect [] p = []
collect (n ∷ ns) p =
    let rest = collect ns p in
    if n.supports p.event then results_of n.name (n.send p) ++ rest else rest

-- `#record`
unfoldable pub log_entry : Payload → NotificationResult → LogEntry
unfolding event_label
log_entry p r = record {
  user_id = p.user.id;
  monitor_id = p.monitor.id;
  event = event_label p.event;
  channel = or_text r.channel "Email";
  target = r.target;
  status = r.status;
  detail = r.detail;
}

abbrev opted_out : Option Bool → Bool
opted_out (some false) = true
opted_out _ = false

abbrev opt_out_result : Payload → NotificationResult
opt_out_result p = record {
  status = skipped;
  channel = some "Email";
  target = p.user.email;
  detail = some "Incident alerts are disabled in preferences";
}

-- The results returned, and the rows written.
unfoldable pub dispatch : List Notifier → Payload → List NotificationResult × List LogEntry
unfolding collect log_entry
dispatch ns p =
    let results =
      if opted_out p.user.incident_alerts then opt_out_result p ∷ [] else collect ns p in
    (results, map (log_entry p) results)
