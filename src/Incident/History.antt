-- ===== src/Incident/History.antt =====
-- Backend/src/services/incident.service.js: one monitor's outages over a run of openings and
-- closings, by any number of instances.
use devops_hackathon.Prelude.{ℕ, ◌+◌, ◌-◌, ◌≤◌, ◌≡◌, refl, ap, Option, none, some, arith}
use devops_hackathon.Monitor.{Monitor}
use devops_hackathon.Store.{
  updated, inserted, conflict, failed, updated_unacknowledged, inserted_unacknowledged, changed,
  unmatched, changed_unacknowledged,
}
use devops_hackathon.Incident.{Incident, OpenEnv, CloseEnv, open_incident, close_incident}
use devops_hackathon.Incident.Transitions.{
  Opening, Closing, dispatches, open_incident-ongoing, open_incident-none, open_incident-err,
  close_incident-some, reachable-le-one,
}
use Prim.Native.String.{String}

-- The ongoing incident; how many were inserted and taken out; how many notifications of an opening
-- and of a recovery were sent.
pub record Outages : Type 0 where
  pub ongoing : Option Incident
  pub inserted_so_far : ℕ
  pub removed_so_far : ℕ
  pub announced : ℕ
  pub recovered : ℕ

abbrev pub occupied : Option Incident → ℕ
occupied none = 0
occupied (some i) = 1

abbrev pub after_opening : Outages → Monitor → String → OpenEnv → Option Incident → Outages
after_opening s m reason e after = record s {
  ongoing = after;
  inserted_so_far = s.inserted_so_far + (occupied after - occupied s.ongoing);
  announced = s.announced + dispatches (open_incident m reason e).calls;
}

abbrev pub after_closing : Outages → Monitor → CloseEnv → Option Incident → Outages
after_closing s m e after = record s {
  ongoing = after;
  removed_so_far = s.removed_so_far + (occupied s.ongoing - occupied after);
  recovered = s.recovered + dispatches (close_incident m e).calls;
}

pub data Step (s : Outages) : Outages → Type 0 where
  opens :
      (m : Monitor) (reason : String) (e : OpenEnv) (after : Option Incident)
      → Opening m reason e s.ongoing after
      → Step s (after_opening s m reason e after)
  closes :
      (m : Monitor) (e : CloseEnv) (after : Option Incident)
      → Closing e s.ongoing after
      → Step s (after_closing s m e after)

pub data Reach (s : Outages) : Outages → Type 0 where
  here : Reach s s
  next : {t u : Outages} → Reach s t → Step t u → Reach s u

pub record Inv (s : Outages) : Type 0 where
  pub balanced : s.inserted_so_far ≡ s.removed_so_far + occupied s.ongoing
  pub announced_once : s.announced ≤ s.inserted_so_far
  pub recovered_once : s.recovered ≤ s.removed_so_far

-- An opening on an empty slot fills it and announces at most once, or announces nothing.
Opening-none :
    (m : Monitor) (reason : String) (e : OpenEnv) (after : Option Incident)
    → Opening m reason e none after
    → dispatches (open_incident m reason e).calls ≤ occupied after
Opening-none m reason e after (updated d b q r a) = absurd (cc)
Opening-none m reason e after (inserted b r a) =
    let t = open_incident-none m reason e after _ (inserted b r a) r in
    rw a (omega (arith, t.2, reachable-le-one m e.found_user))
Opening-none m reason e after (conflict d b r a) = absurd (cc)
Opening-none m reason e after (failed text r a) = omega (arith, open_incident-err m reason e text r)
Opening-none m reason e after (updated_unacknowledged d text b q r a) = absurd (cc)
Opening-none m reason e after (inserted_unacknowledged text b r a) =
    omega (arith, open_incident-err m reason e text r)

-- A closing notifies at most once, and only if it empties the slot.
Closing-dispatches :
    (m : Monitor) (e : CloseEnv) (before after : Option Incident)
    → Closing e before after
    → dispatches (close_incident m e).calls + occupied after ≤ occupied before
unfolding close_incident
Closing-dispatches m e before after (changed d b q r a) =
    rw (a, b) (omega (arith, close_incident-some m e _ r))
Closing-dispatches m e before after (unmatched n r a) = ground arith
Closing-dispatches m e before after (failed text r a) = ground arith
Closing-dispatches m e before after (changed_unacknowledged d text b q r a) = ground arith

Opening-Inv :
    (s : Outages) (m : Monitor) (reason : String) (e : OpenEnv) (after before : Option Incident)
    → s.ongoing ≡ before
    → Opening m reason e before after
    → Inv s
    → Inv (after_opening s m reason e after)
Opening-Inv s m reason e after none b u v =
    let t = Opening-none m reason e after u in
    record {
      balanced = rw b (omega (arith, v.balanced, ap occupied b));
      announced_once = rw b (omega (arith, v.announced_once, t));
      recovered_once = v.recovered_once;
    }
Opening-Inv s m reason e after (some d) b u v =
    let (a, f, z) = open_incident-ongoing m reason e d after u in
    record {
      balanced = rw (a, b) (omega (arith, v.balanced, ap occupied b));
      announced_once = omega (arith, v.announced_once, z);
      recovered_once = v.recovered_once;
    }

Step-Inv : {s t : Outages} → Step s t → Inv s → Inv t
Step-Inv {s} (opens m reason e after u) v = Opening-Inv s m reason e after s.ongoing refl u v
Step-Inv {s} (closes m e after u) v =
    let t = Closing-dispatches m e s.ongoing after u in
    record {
      balanced = omega (arith, v.balanced, t);
      announced_once = v.announced_once;
      recovered_once = omega (arith, v.recovered_once, t);
    }

abbrev pub no_outages : Outages
no_outages = record {
  ongoing = none;
  inserted_so_far = 0;
  removed_so_far = 0;
  announced = 0;
  recovered = 0;
}

-- In any run of openings and closings for one monitor, however they are interleaved and whatever the
-- database answers, as many incidents were inserted as were resolved, plus the one ongoing if there is
-- one; no more openings were announced than incidents inserted, and no more recoveries than resolved.
pub outages_exactly_once : {s : Outages} → Reach no_outages s → Inv s
outages_exactly_once here = omega arith
outages_exactly_once (next r st) = Step-Inv st (outages_exactly_once r)
