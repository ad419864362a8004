-- ===== src/Tests/Notifiers.antt =====
-- Three notifiers, of which the second throws.
use devops_hackathon.Prelude.{◌≡◌, refl, true, none, some, [], ◌∷◌, ◌++◌, map, pos}
use devops_hackathon.Incident.{ongoing, Payload, incident_opened}
use devops_hackathon.Notifier.{
  Notifier, delivered, failed_delivery, one, thrown, dispatch, log_entry,
}
use devops_hackathon.Notifier.FanOut.{dispatch-thrown}
use devops_hackathon.Tests.Samples.{site}

abbrev email : Notifier
email = record {
  name = "Email";
  supports = λ e. true;
  send = λ p.
      one (
        some (record { status = delivered; channel = none; target = p.user.email; detail = none }));
}

abbrev webhook : Notifier
webhook = record { name = "Webhook"; supports = λ e. true; send = λ p. thrown (some "timeout") }

abbrev pager : Notifier
pager = record { name = "Pager"; supports = λ e. true; send = λ p. one none }

abbrev payload : Payload
payload = record {
  event = incident_opened;
  incident = record {
    id = 1;
    monitor_id = 7;
    user_id = 3;
    status = ongoing;
    start_time = 180;
    end_time = none;
    duration = pos 0;
    reason = "down";
    ai_summary = none;
  };
  monitor = site;
  user = record { id = 3; email = some "a@b.example"; username = none; incident_alerts = none };
  occurred_at = 180;
}

dispatch-thrown_example :
    let results =
      (dispatch (email ∷ []) payload).0
      ++ record {
        status = failed_delivery;
        channel = some "Webhook";
        target = none;
        detail = some "timeout";
      }
        ∷ (dispatch (pager ∷ []) payload).0 in
    ((dispatch (email ∷ webhook ∷ pager ∷ []) payload).0 ≡ results)
    × ((dispatch (email ∷ webhook ∷ pager ∷ []) payload).1 ≡ map (log_entry payload) results)
dispatch-thrown_example =
    dispatch-thrown (email ∷ []) (pager ∷ []) webhook payload (some "timeout") refl refl refl
