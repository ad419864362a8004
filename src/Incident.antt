-- ===== src/Incident.antt =====
-- Backend/src/services/incident.service.js and models/incidents.model.js: opening and closing an
-- incident. The replies of the database, of the AI analysis and of the user lookup are arguments;
-- a run is its value and the calls that it made, in order.
pub mod Transitions
pub mod History
pub mod Durations
use devops_hackathon.Prelude.{
  ℕ, ◌-◌, ◌/◌, Bool, true, false, Option, none, some, List, [], ◌∷◌, ◌++◌, if◌then◌else◌, ◌==◌, leb,
  ℤ, pos, negsuc,
}
use devops_hackathon.Monitor.{Monitor}
use devops_hackathon.Store.{Reply, ok, err, DbError, duplicate_key, failure}
use Prim.Native.String.{String}
use text.Mathlib.Text.{◌==◌ as str_eq}

pub data IncidentStatus : Type 0 where
  ongoing resolved : IncidentStatus

pub record Incident : Type 0 where
  pub id : ℕ
  pub monitor_id : ℕ
  pub user_id : ℕ
  pub status : IncidentStatus
  pub start_time : ℕ
  pub end_time : Option ℕ
  pub duration : ℤ
  pub reason : String
  pub ai_summary : Option String

-- The owner: what a notification needs of the account.
pub record User : Type 0 where
  pub id : ℕ
  pub email : Option String
  pub username : Option String
  pub incident_alerts : Option Bool

pub data IncidentEvent : Type 0 where
  incident_opened incident_closed : IncidentEvent

pub record Payload : Type 0 where
  pub event : IncidentEvent
  pub incident : Incident
  pub monitor : Monitor
  pub user : User
  pub occurred_at : ℕ

-- The calls that leave this module; `save` carries the document as it is written.
pub data Call : Type 0 where
  upsert_ongoing : (monitor_id : ℕ) (inserted : Incident) → Call
  find_ongoing : (monitor_id : ℕ) → Call
  resolve_ongoing : (monitor_id : ℕ) (end_time : ℕ) → Call
  analyze : (reason : String) → Call
  save : Incident → Call
  find_user : (user_id : ℕ) → Call
  dispatch : Payload → Call

-- A function that may throw: its value or the error, and the calls made.
pub record Run (A : Type 0) : Type 0 where
  pub value : Reply A
  pub calls : List Call

-- What the outside answers.
pub record OpenEnv : Type 0 where
  pub now : ℕ
  pub new_id : ℕ
  pub upserted : Reply (Incident × Bool)
  pub existing : Reply (Option Incident)
  pub analysis : Reply (Option String)
  pub saved : Reply (Unit {0})
  pub found_user : Reply (Option User)

pub record CloseEnv : Type 0 where
  pub now : ℕ
  pub resolved : Reply (Option Incident)
  pub saved : Reply (Unit {0})
  pub found_user : Reply (Option User)

-- `loadOwner`: no userId, an error and a missing user all give null.
abbrev user_of : Reply (Option User) → Option User
user_of (ok u) = u
user_of (err e) = none

unfoldable pub load_owner : Monitor → Reply (Option User) → Option User × List Call
load_owner m found =
    if m.user_id == 0 then (none, []) else (user_of found, find_user m.user_id ∷ [])

-- `Math.floor((end - start) / 1000)`
unfoldable pub floor_seconds : ℕ → ℕ → ℤ
floor_seconds end start =
    if leb start end then pos ((end - start) / 1000) else negsuc ((start - end - 1) / 1000)

-- The `pre('save')` hook, which every `save` of a document runs first.
unfoldable pub pre_save : Incident → Incident
pre_save i = elim i.end_time [
  | none ↦ i
  | some end ↦ record i { duration = floor_seconds end i.start_time }
]

-- `$setOnInsert`, with the schema's defaults.
unfoldable pub new_incident : Monitor → String → OpenEnv → Incident
new_incident m reason e = record {
  id = e.new_id;
  monitor_id = m.id;
  user_id = m.user_id;
  status = ongoing;
  start_time = e.now;
  end_time = none;
  duration = pos 0;
  reason = reason;
  ai_summary = none;
}

-- `if (aiSummary) { incident.aiSummary = aiSummary; await incident.save(); }`, in a `try` that
-- swallows a failed analysis and a failed save.
abbrev add_summary : Incident → Reply (Option String) → Incident × List Call
add_summary i (err e) = (i, [])
add_summary i (ok none) = (i, [])
add_summary i (ok (some text)) =
    if str_eq text ""
    then (i, [])
    else (let i' = pre_save (record i { ai_summary = some text }) in (i', save i' ∷ []))

-- `if (user) await notifierRegistry.dispatch(...)`
abbrev notify : IncidentEvent → Incident → Monitor → ℕ → Option User → List Call
notify event i m at none = []
notify event i m at (some u) =
    dispatch (record { event = event; incident = i; monitor = m; user = u; occurred_at = at }) ∷ []

-- The rest of `openIncident` after an insertion.
abbrev announce : Monitor → String → OpenEnv → Incident → Run (Option Incident × Bool)
announce m reason e i =
    let (i', saves) = add_summary i e.analysis in
    let (user, lookup) = load_owner m e.found_user in
    record {
      value = ok (some i', true);
      calls = analyze reason ∷ (saves ++ (lookup ++ notify incident_opened i' m e.now user));
    }

abbrev deferred : Reply (Option Incident) → Reply (Option Incident × Bool)
deferred (ok i) = ok (i, false)
deferred (err x) = err x

-- The handler of code 11000: the other writer's incident, and no transition.
abbrev defer : Monitor → OpenEnv → Run (Option Incident × Bool)
defer m e = record { value = deferred e.existing; calls = find_ongoing m.id ∷ [] }

abbrev after_upsert :
    Monitor → String → OpenEnv → Reply (Incident × Bool) → Run (Option Incident × Bool)
after_upsert m reason e (ok (i, true)) = record { value = ok (some i, false); calls = [] }
after_upsert m reason e (ok (i, false)) = announce m reason e i
after_upsert m reason e (err duplicate_key) = defer m e
after_upsert m reason e (err (failure text)) = record { value = err (failure text); calls = [] }

unfoldable pub open_incident : Monitor → String → OpenEnv → Run (Option Incident × Bool)
unfolding new_incident load_owner pre_save
open_incident m reason e =
    let rest = after_upsert m reason e e.upserted in
    record rest { calls = upsert_ongoing m.id (new_incident m reason e) ∷ rest.calls }

abbrev at_least_zero : ℤ → ℤ
at_least_zero (pos n) = pos n
at_least_zero (negsuc n) = pos 0

-- `incident.duration = Math.max(0, Math.floor((endTime - incident.startTime) / 1000))`, and then
-- what `incident.save()` makes of the document.
unfoldable pub with_duration : ℕ → Incident → Incident
unfolding floor_seconds
with_duration end i = record i { duration = at_least_zero (floor_seconds end i.start_time) }

-- The rest of `closeIncident` after a match; a failed `save` throws.
abbrev resolve : Monitor → CloseEnv → Incident → Reply (Unit {0}) → Run (Option Incident × Bool)
resolve m e i (err x) = record { value = err x; calls = save i ∷ [] }
resolve m e i (ok _) =
    let (user, lookup) = load_owner m e.found_user in
    record {
      value = ok (some i, true);
      calls = save i ∷ (lookup ++ notify incident_closed i m e.now user);
    }

abbrev after_resolve : Monitor → CloseEnv → Reply (Option Incident) → Run (Option Incident × Bool)
after_resolve m e (err x) = record { value = err x; calls = [] }
after_resolve m e (ok none) = record { value = ok (none, false); calls = [] }
after_resolve m e (ok (some i)) = resolve m e (pre_save (with_duration e.now i)) e.saved

unfoldable pub close_incident : Monitor → CloseEnv → Run (Option Incident × Bool)
unfolding load_owner with_duration pre_save
close_incident m e =
    let rest = after_resolve m e e.resolved in
    record rest { calls = resolve_ongoing m.id e.now ∷ rest.calls }
