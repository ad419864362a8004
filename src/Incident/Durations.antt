-- ===== src/Incident/Durations.antt =====
-- Backend/src/services/incident.service.js and models/incidents.model.js: the duration of an incident.
use devops_hackathon.Prelude.{
  ℕ, ◌<◌, ◌≡◌, refl, ap, ◌∙◌, ◌-◌, ◌/◌, ◌++◌, List, [], ◌∷◌, arith, ℤ, negsuc, Option, some, none,
}
use devops_hackathon.Monitor.{Monitor}
use devops_hackathon.Store.{Reply, ok, err}
use devops_hackathon.Incident.{
  Incident, Call, save, CloseEnv, User, IncidentEvent, incident_closed, floor_seconds,
  close_incident, load_owner, notify, resolve, pre_save, with_duration,
}

-- The durations of the documents that a run saves, in order.
abbrev pub saved_durations : List Call → List ℤ
saved_durations [] = []
saved_durations (save i ∷ cs) = i.duration ∷ saved_durations cs
saved_durations (_ ∷ cs) = saved_durations cs

notify_durations :
    (m : Monitor) (found : Reply (Option User)) (ev : IncidentEvent) (i : Incident) (at : ℕ)
    → saved_durations ((load_owner m found).1 ++ notify ev i m at (load_owner m found).0) ≡ []
unfolding load_owner
notify_durations m (ok none) ev i at = ground arith
notify_durations m (ok (some u)) ev i at = ground arith
notify_durations m (err x) ev i at = ground arith

resolve_durations :
    (m : Monitor) (e : CloseEnv) (i : Incident) (w : Reply (Unit {0}))
    → saved_durations (resolve m e i w).calls ≡ i.duration ∷ []
resolve_durations m e i (err x) = refl
resolve_durations m e i (ok _) =
    ap (λ ds. i.duration ∷ ds) (notify_durations m e.found_user incident_closed i e.now)

pre_save_duration :
    (i : Incident) (end : ℕ)
    → i.end_time ≡ some end
    → (pre_save i).duration ≡ floor_seconds end i.start_time
unfolding pre_save
pre_save_duration i end e = rw e

-- When the update matches an incident i with its end time set, the one document that
-- `closeIncident` saves has the whole seconds from start to end for its duration, rounded down.
pub close_incident_duration :
    (m : Monitor) (e : CloseEnv) (i : Incident) (end : ℕ)
    → e.resolved ≡ ok (some i)
    → i.end_time ≡ some end
    → saved_durations (close_incident m e).calls ≡ floor_seconds end i.start_time ∷ []
unfolding close_incident
close_incident_duration m e i end r t = simp r (
    resolve_durations m e (pre_save (with_duration e.now i)) e.saved
    ∙ ap (λ d. d ∷ []) (pre_save_duration (with_duration e.now i) end t))

-- The clamp at zero is lost: whenever the end lies before the start, as after a backward step of the
-- clock, the duration saved is negative, because the `pre('save')` hook computes it again.
pub close_incident_negative :
    (m : Monitor) (e : CloseEnv) (i : Incident) (end : ℕ)
    → e.resolved ≡ ok (some i)
    → i.end_time ≡ some end
    → end < i.start_time
    → (n : ℕ) × (saved_durations (close_incident m e).calls ≡ negsuc n ∷ [])
unfolding floor_seconds
close_incident_negative m e i end r t lt =
    ((i.start_time - end - 1) / 1000, close_incident_duration m e i end r t ∙ ground arith)
