-- ===== src/Tests/Incidents.antt =====
-- Incidents at concrete answers of the database.
use devops_hackathon.Prelude.{ℕ, ◌≡◌, refl, true, false, none, some, [], ◌∷◌, arith, pos, negsuc}
use devops_hackathon.Store.{ok, inserted}
use devops_hackathon.Incident.{
  Incident, User, OpenEnv, CloseEnv, ongoing, new_incident, close_incident,
}
use devops_hackathon.Incident.Transitions.{Opening, resolved_at}
use devops_hackathon.Incident.History.{
  here, next, opens, after_opening, no_outages, Inv, outages_exactly_once,
}
use devops_hackathon.Incident.Durations.{saved_durations, close_incident_negative}
use devops_hackathon.Tests.Samples.{site}

abbrev owner : User
owner = record {
  id = 3;
  email = some "ops@shop.example";
  username = some "ops";
  incident_alerts = some true;
}

abbrev outage : Incident
outage = record {
  id = 1;
  monitor_id = 7;
  user_id = 3;
  status = ongoing;
  start_time = 5000;
  end_time = none;
  duration = pos 0;
  reason = "HTTP 500";
  ai_summary = none;
}

-- A first opening: the document is inserted.
abbrev opening : OpenEnv
opening = record {
  now = 5000;
  new_id = 1;
  upserted = ok (outage, false);
  existing = ok none;
  analysis = ok none;
  saved = ok tt;
  found_user = ok (some owner);
}

-- A second opening meets the first incident.
abbrev opening_again : OpenEnv
opening_again = record opening { upserted = ok (outage, true); now = 9000 }

abbrev closing : CloseEnv
closing = record {
  now = 65000;
  resolved = ok (some (resolved_at 65000 outage));
  saved = ok tt;
  found_user = ok (some owner);
}

-- The clock was set back between opening and closing.
abbrev closing_early : CloseEnv
closing_early = record closing { now = 2000; resolved = ok (some (resolved_at 2000 outage)) }

opened_once : Opening site "HTTP 500" opening none (some outage)
unfolding new_incident
opened_once = inserted refl refl refl

outages_exactly_once_example : Inv (after_opening no_outages site "HTTP 500" opening (some outage))
outages_exactly_once_example =
    outages_exactly_once (next here (opens site "HTTP 500" opening (some outage) opened_once))

close_incident_negative_example :
    (n : ℕ) × (saved_durations (close_incident site closing_early).calls ≡ negsuc n ∷ [])
close_incident_negative_example =
    close_incident_negative site closing_early (resolved_at 2000 outage) 2000 refl refl
      (omega arith)
