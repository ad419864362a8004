-- ===== src/Incident/Transitions.antt =====
-- Backend/src/services/incident.service.js: single transitions, over MongoDB's documented atomic
-- updates of the one ongoing incident that the partial unique index allows a monitor.
use devops_hackathon.Prelude.{
  ℕ, suc, ◌+◌, ◌≡◌, refl, ◌∙◌, ◌≤◌, Bool, true, false, Option, none, some, List, [], ◌∷◌, ◌++◌,
  arith, if◌then◌else◌, ◌==◌,
}
use devops_hackathon.Monitor.{Monitor}
use devops_hackathon.Store.{
  Reply, ok, err, failure, Upsert, updated, inserted, conflict, failed, updated_unacknowledged,
  inserted_unacknowledged, Modify, changed, unmatched, changed_unacknowledged,
}
use devops_hackathon.Incident.{
  Incident, User, Call, dispatch, OpenEnv, CloseEnv, IncidentEvent, incident_opened,
  incident_closed, add_summary, notify, announce, resolve, with_duration, pre_save, resolved,
  load_owner, new_incident, open_incident, close_incident,
}
use mathlib.Core.Bool.{true≢false}
use Prim.Native.String.{String}

-- How many notifications a run sent.
abbrev pub dispatches : List Call → ℕ
dispatches [] = 0
dispatches (dispatch p ∷ cs) = suc (dispatches cs)
dispatches (_ ∷ cs) = dispatches cs

-- The document after `$set: { status: 'RESOLVED', endTime }`.
abbrev pub resolved_at : ℕ → Incident → Incident
resolved_at end i = record i { status = resolved; end_time = some end }

-- What an `openIncident` does to the ongoing incident of its monitor.
abbrev pub Opening : Monitor → String → OpenEnv → Option Incident → Option Incident → Type 0
Opening m reason e before after =
    Upsert (λ d. true) (λ d. d) (new_incident m reason e) before e.upserted after

abbrev pub Closing : CloseEnv → Option Incident → Option Incident → Type 0
Closing e before after = Modify (λ d. true) (λ d. none) (resolved_at e.now) before e.resolved after

-- The second part of a returned value.
abbrev pub flagged : Reply (Option Incident × Bool) → ℕ
flagged (ok (i, true)) = 1
flagged (ok (i, false)) = 0
flagged (err x) = 0

dispatches-append : (xs ys : List Call) → dispatches (xs ++ ys) ≡ dispatches xs + dispatches ys
dispatches-append [] ys = omega arith
dispatches-append (dispatch p ∷ xs) ys = omega (arith, dispatches-append xs ys)
dispatches-append (_ ∷ xs) ys = dispatches-append xs ys

-- While an incident d is ongoing, `openIncident` changes nothing of it, reports no transition and
-- notifies nobody, whatever the database, the AI service and the user lookup answer.
pub open_incident-ongoing :
    (m : Monitor) (reason : String) (e : OpenEnv) (d : Incident) (after : Option Incident)
    → Opening m reason e (some d) after
    → (after ≡ some d)
      × (flagged (open_incident m reason e).value ≡ 0)
      × (dispatches (open_incident m reason e).calls ≡ 0)
unfolding open_incident
open_incident-ongoing m reason e d after (updated d' b q r a) = rw r (ground arith)
open_incident-ongoing m reason e d after (inserted b r a) = absurd (cc)
open_incident-ongoing m reason e d after (conflict d' b r a) = ground arith
open_incident-ongoing m reason e d after (failed text r a) = ground arith
open_incident-ongoing m reason e d after (updated_unacknowledged d' text b q r a) = ground arith
open_incident-ongoing m reason e d after (inserted_unacknowledged text b r a) = absurd (cc)

-- Whether a notification goes out: the monitor names its owner and the lookup finds one.
abbrev pub reachable : Monitor → Reply (Option User) → ℕ
reachable m (ok (some u)) = if m.user_id == 0 then 0 else 1
reachable m (ok none) = 0
reachable m (err x) = 0

add_summary_quiet :
    (i : Incident) (r : Reply (Option String)) (cs : List Call)
    → dispatches ((add_summary i r).1 ++ cs) ≡ dispatches cs
add_summary_quiet i (err x) cs = refl
add_summary_quiet i (ok none) cs = refl
add_summary_quiet i (ok (some text)) cs = ground arith

owner_told :
    (m : Monitor) (found : Reply (Option User)) (ev : IncidentEvent) (i : Incident) (at : ℕ)
    → dispatches ((load_owner m found).1 ++ notify ev i m at (load_owner m found).0)
      ≡ reachable m found
unfolding load_owner
owner_told m (ok none) ev i at = ground arith
owner_told m (ok (some u)) ev i at = ground arith
owner_told m (err x) ev i at = ground arith

dispatches-announce :
    (m : Monitor) (reason : String) (e : OpenEnv) (i : Incident)
    → dispatches (announce m reason e i).calls ≡ reachable m e.found_user
dispatches-announce m reason e i =
    add_summary_quiet i e.analysis _ ∙ owner_told m e.found_user incident_opened _ e.now

-- With no incident ongoing and the insertion acknowledged, `openIncident` reports the transition,
-- the new incident is stored, and one notification goes out exactly if the owner is found: a failed
-- analysis, a failed save of its summary or a failed lookup does not change that.
pub open_incident-none :
    (m : Monitor) (reason : String) (e : OpenEnv) (after : Option Incident) (x : Incident × Bool)
    → Opening m reason e none after
    → e.upserted ≡ ok x
    → (after ≡ some (new_incident m reason e))
      × (flagged (open_incident m reason e).value ≡ 1)
      × (dispatches (open_incident m reason e).calls ≡ reachable m e.found_user)
unfolding open_incident
open_incident-none m reason e after x (updated d' b q r a) k = absurd (cc)
open_incident-none m reason e after x (inserted b r a) k =
    simp r (a, refl, dispatches-announce m reason e (new_incident m reason e))
open_incident-none m reason e after x (conflict d' b r a) k = absurd (cc)
open_incident-none m reason e after x (failed text r a) k = absurd (cc)
open_incident-none m reason e after x (updated_unacknowledged d' text b q r a) k = absurd (cc)
open_incident-none m reason e after x (inserted_unacknowledged text b r a) k = absurd (cc)

pub open_incident-err :
    (m : Monitor) (reason : String) (e : OpenEnv) (text : String)
    → e.upserted ≡ err (failure text)
    → dispatches (open_incident m reason e).calls ≡ 0
unfolding open_incident
open_incident-err m reason e text r = simp r

pub reachable-le-one : (m : Monitor) (r : Reply (Option User)) → reachable m r ≤ 1
reachable-le-one m (ok none) = omega arith
reachable-le-one m (ok (some u)) = ground arith
reachable-le-one m (err x) = omega arith

dispatches-resolve :
    (m : Monitor) (e : CloseEnv) (i : Incident) (w : Reply (Unit {0}))
    → dispatches (resolve m e i w).calls ≤ 1
dispatches-resolve m e i (err x) = omega arith
dispatches-resolve m e i (ok _) =
    omega
      (arith, owner_told m e.found_user incident_closed i e.now, reachable-le-one m e.found_user)

pub close_incident-some :
    (m : Monitor) (e : CloseEnv) (i : Incident)
    → e.resolved ≡ ok (some i)
    → dispatches (close_incident m e).calls ≤ 1
unfolding close_incident
close_incident-some m e i r =
    simp r (dispatches-resolve m e (pre_save (with_duration e.now i)) e.saved)

-- A `closeIncident` whose update matches an ongoing incident d and whose writes are acknowledged
-- takes d out of the ongoing ones, reports the transition and notifies the owner if found; with no
-- ongoing incident it reports none and notifies nobody.
pub close_incident-ongoing :
    (m : Monitor) (e : CloseEnv) (d : Incident) (after : Option Incident) (x : Option Incident)
    → Closing e (some d) after
    → e.resolved ≡ ok x
    → e.saved ≡ ok tt
    → (after ≡ none)
      × (flagged (close_incident m e).value ≡ 1)
      × (dispatches (close_incident m e).calls ≡ reachable m e.found_user)
unfolding close_incident
close_incident-ongoing m e d after x (changed d' b q r a) k w =
    simp (r, w) (a, refl, owner_told m e.found_user incident_closed _ e.now)
close_incident-ongoing m e d after x (unmatched n r a) k w = absurd (true≢false (n d refl))
close_incident-ongoing m e d after x (failed text r a) k w = absurd (cc)
close_incident-ongoing m e d after x (changed_unacknowledged d' text b q r a) k w = absurd (cc)
