-- ===== src/Notifier/FanOut.antt =====
-- Backend/src/notifications/notifier.js: `dispatch` over several notifiers.
use devops_hackathon.Prelude.{
  ◌≡◌, refl, sym, ap, ◌∙◌, inl, inr, true, false, Option, none, some, List, [], ◌∷◌, ◌++◌, map,
  Bool-cases, or_text,
}
use mathlib.Core.List.{append_assoc}
use devops_hackathon.Incident.{Payload}
use Prim.Native.String.{String}
use devops_hackathon.Notifier.{
  Notifier, NotificationResult, failed_delivery, thrown, collect, dispatch, log_entry, results_of,
  opted_out,
}

collect-append :
    (ns ms : List Notifier) (p : Payload) → collect (ns ++ ms) p ≡ collect ns p ++ collect ms p
unfolding collect
collect-append [] ms p = refl
collect-append (n ∷ ns) ms p = elim (Bool-cases (n.supports p.event)) [
  | inl e ↦ rw e (
      ap (λ r. results_of n.name (n.send p) ++ r) (collect-append ns ms p)
      ∙ sym (append_assoc (results_of n.name (n.send p)) (collect ns p) (collect ms p)))
  | inr e ↦ rw e (collect-append ns ms p)
]

collect-thrown :
    (after : List Notifier) (n : Notifier) (p : Payload) (message : Option String)
    → n.supports p.event ≡ true
    → n.send p ≡ thrown message
    → collect (n ∷ after) p
      ≡ record {
        status = failed_delivery;
        channel = some n.name;
        target = none;
        detail = some (or_text message "Notifier threw");
      }
        ∷ collect after p
unfolding collect
collect-thrown after n p message s t = rw (s, t) refl

-- A notifier that throws, for an owner who has not opted out: the results are those of the notifiers
-- before it, one failure with its name and message, and those of the notifiers after it, the same as
-- each group gives without it; and every result has its row in the log.
pub dispatch-thrown :
    (before after : List Notifier) (n : Notifier) (p : Payload) (message : Option String)
    → opted_out p.user.incident_alerts ≡ false
    → n.supports p.event ≡ true
    → n.send p ≡ thrown message
    → let failure : NotificationResult = record {
      status = failed_delivery;
      channel = some n.name;
      target = none;
      detail = some (or_text message "Notifier threw");
    } in
      let results = (dispatch before p).0 ++ failure ∷ (dispatch after p).0 in
      ((dispatch (before ++ n ∷ after) p).0 ≡ results)
      × ((dispatch (before ++ n ∷ after) p).1 ≡ map (log_entry p) results)
unfolding dispatch
dispatch-thrown before after n p message o s t =
    let e =
      collect-append before (n ∷ after) p
      ∙ ap (λ r. collect before p ++ r) (collect-thrown after n p message s t) in
    rw o (e, ap (λ r. map (log_entry p) r) e)
