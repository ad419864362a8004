-- ===== src/Check/Effects.antt =====
-- Backend/src/jobs/scheduler.js: what a whole `runCheck` writes, emits and counts.
use devops_hackathon.Prelude.{
  ℕ, ◌+◌, ◌≡◌, refl, ap, ◌∙◌, Bool, true, false, Option, List, [], ◌∷◌, ◌++◌, map, arith,
  if◌then◌else◌, inl, inr, Bool-cases,
}
use devops_hackathon.Config.{Config}
use devops_hackathon.Monitor.{Monitor}
use devops_hackathon.Breaker.{Decision}
use devops_hackathon.Probe.{ProbeResult, is_up}
use devops_hackathon.Store.{Reply, ok, err, DbError}
use devops_hackathon.Incident
use devops_hackathon.Incident.{Incident, open_incident, close_incident}
use devops_hackathon.Check.Flapping.{Checked, check_once, opening_not_retried}
use devops_hackathon.Check.{
  Call, update_one, create_log, emit_to_user, incident_call, SocketEvent, incident_opened,
  incident_closed, Stats, CheckEnv, CheckRun, Assessment, assess, probe_of, run_check, transition,
  settle_open, settle_close, reason_of, with_update, count_check, after_update, after_log,
}

-- The calls of a run, weighed and added up.
abbrev pub total : (Call → ℕ) → List Call → ℕ
total f [] = 0
total f (x ∷ xs) = f x + total f xs

pub total-append : (f : Call → ℕ) (xs ys : List Call) → total f (xs ++ ys) ≡ total f xs + total f ys
total-append f [] ys = omega arith
total-append f (x ∷ xs) ys = omega (arith, total-append f xs ys)

abbrev pub one_if_update : Call → ℕ
one_if_update (update_one i u) = 1
one_if_update _ = 0

abbrev pub one_if_log : Call → ℕ
one_if_log (create_log r) = 1
one_if_log _ = 0

abbrev one_if_opened : SocketEvent → ℕ
one_if_opened (incident_opened i x) = 1
one_if_opened _ = 0

abbrev pub one_if_opening : Call → ℕ
one_if_opening (emit_to_user i e) = one_if_opened e
one_if_opening _ = 0

abbrev pub one_if_ok {ℓ} : {A : Type ℓ} → Reply A → ℕ
one_if_ok (ok a) = 1
one_if_ok (err x) = 0

-- The statistics of the checks themselves, after one check.
pub record Counted (s t : Stats) (good : Bool) : Type 0 where
  pub executed : t.checks_executed ≡ s.checks_executed + 1
  pub succeeded : t.checks_succeeded ≡ s.checks_succeeded + (if good then 1 else 0)
  pub failed : t.checks_failed ≡ s.checks_failed + (if good then 0 else 1)

-- What a transition sends: no update, no log row.
total-incident_calls :
    (f : Call → ℕ)
    → ((x : Incident.Call) → f (incident_call x) ≡ 0)
    → (xs : List Incident.Call) (ys : List Call) → total f (map incident_call xs ++ ys) ≡ total f ys
total-incident_calls f z [] ys = refl
total-incident_calls f z (x ∷ xs) ys = omega (arith, z x, total-incident_calls f z xs ys)

settle_open-total :
    (f : Call → ℕ) (m : Monitor) (s : Stats) (w : Reply (Option Incident × Bool))
    → ((u : ℕ) (x : SocketEvent) → f (emit_to_user u x) ≡ 0)
    → total f (settle_open m s w).1 ≡ 0
settle_open-total f m s (ok (i, true)) z = omega (arith, z m.user_id (incident_opened m.id i))
settle_open-total f m s (ok (i, false)) z = refl
settle_open-total f m s (err x) z = refl

settle_close-total :
    (f : Call → ℕ) (m : Monitor) (s : Stats) (w : Reply (Option Incident × Bool))
    → ((u : ℕ) (x : SocketEvent) → f (emit_to_user u x) ≡ 0)
    → total f (settle_close m s w).1 ≡ 0
settle_close-total f m s (ok (i, true)) z = omega (arith, z m.user_id (incident_closed m.id i))
settle_close-total f m s (ok (i, false)) z = refl
settle_close-total f m s (err x) z = refl

-- A run that has the probe behind it: the statistics count it once, `writes` updates and `rows` log
-- rows are sent.
record Sends (s : Stats) (good : Bool) (writes rows : ℕ) (r : CheckRun) : Type 0 where
  counted : Counted s r.stats good
  written : total one_if_update r.calls ≡ writes
  logged : total one_if_log r.calls ≡ rows

count_check-Counted : (s : Stats) (good : Bool) → Counted s (count_check s good) good
unfolding count_check
count_check-Counted s good = ground arith

transition-Counted :
    (m : Monitor) (a : Assessment) (r : ProbeResult) (e : CheckEnv) (s t : Stats) (good : Bool)
    → Counted s t good
    → Counted s (transition m a r e t).0 good
unfolding transition
transition-Counted m a r e s t good h = ground arith

transition-total :
    (f : Call → ℕ) (m : Monitor) (a : Assessment) (r : ProbeResult) (e : CheckEnv) (s : Stats)
    → ((x : Incident.Call) → f (incident_call x) ≡ 0)
    → ((u : ℕ) (x : SocketEvent) → f (emit_to_user u x) ≡ 0)
    → total f (transition m a r e s).1 ≡ 0
unfolding transition
transition-total f m a r e s z w = elim (Bool-cases a.should_open) [
  | inl o ↦
      let run = open_incident (with_update a.update m) (reason_of m r) e.open_env in
      rw o (
        total-incident_calls f z run.calls (settle_open m s run.value).1
        ∙ settle_open-total f m s run.value w)
  | inr o ↦ rw o (elim (Bool-cases a.should_close) [
    | inl p ↦
        let run = close_incident (with_update a.update m) e.close_env in
        rw p (
          total-incident_calls f z run.calls (settle_close m s run.value).1
          ∙ settle_close-total f m s run.value w)
    | inr p ↦ rw p refl
  ])
]

after_log-Sends :
    (m : Monitor) (a : Assessment) (r : ProbeResult) (e : CheckEnv) (s t : Stats) (good : Bool)
    (w : Reply (Unit {0}))
    → Counted s t good
    → Sends s good 0 0 (after_log m a r e t w)
after_log-Sends m a r e s t good (err x) h = record { counted = h; written = refl; logged = refl }
after_log-Sends m a r e s t good (ok _) h = record {
  counted = transition-Counted m a r e s t good h;
  written = omega (arith, transition-total one_if_update m a r e t (λ x. refl) (λ u x. refl));
  logged = omega (arith, transition-total one_if_log m a r e t (λ x. refl) (λ u x. refl));
}

after_update-Sends :
    (m : Monitor) (a : Assessment) (r : ProbeResult) (e : CheckEnv) (s t : Stats) (good : Bool)
    (w : Reply (Unit {0}))
    → Counted s t good
    → Sends s good 0 (one_if_ok w) (after_update m a r e t w)
after_update-Sends m a r e s t good (err x) h = record {
  counted = h;
  written = refl;
  logged = refl;
}
after_update-Sends m a r e s t good (ok _) h =
    let l = after_log-Sends m a r e s t good e.logged h in
    record {
      counted = l.counted;
      written = omega (arith, l.written);
      logged = omega (arith, l.logged);
    }

-- On every path, errors included: a check counts as one executed and as one succeeded or one failed
-- by its result; exactly one update is sent; and exactly one log row, if the update was accepted.
pub run_check_once :
    (c : Config) (m : Monitor) (b : Decision) (e : CheckEnv) (s : Stats)
    → let r = run_check c m b e s in
      Counted s r.stats (is_up (probe_of c m b e).status)
      × (total one_if_update r.calls ≡ 1)
      × (total one_if_log r.calls ≡ one_if_ok e.updated)
unfolding run_check
run_check_once c m b e s =
    let good = is_up (probe_of c m b e).status in
    let n =
      after_update-Sends m (assess c m b (probe_of c m b e) e.now) (probe_of c m b e) e s
        (count_check s good) good e.updated (count_check-Counted s good) in
    (n.counted, omega (arith, n.written), omega (arith, n.logged))

transition_throws :
    (m : Monitor) (a : Assessment) (r : ProbeResult) (e : CheckEnv) (s : Stats) (x : DbError)
    → a.should_open ≡ true
    → (open_incident (with_update a.update m) (reason_of m r) e.open_env).value ≡ err x
    → (transition m a r e s).0 ≡ record s { errors = s.errors + 1 }
unfolding transition
transition_throws m a r e s x o v = rw (o, v) refl

written_then :
    (m : Monitor) (a : Assessment) (r : ProbeResult) (e : CheckEnv) (s : Stats)
    (u l : Reply (Unit {0}))
    → e.logged ≡ l
    → u ≡ ok tt
    → l ≡ ok tt
    → ((after_update m a r e s u).result ≡ ok r)
      × ((after_update m a r e s u).stats ≡ (transition m a r e s).0)
written_then m a r e s u l d h k = rw (h, d, k) (refl, refl)

-- What a failed opening costs. A check calls for an opening, its writes are accepted, and
-- `openIncident` throws: the run still returns the result and counts one more error, and no
-- check of the monitor as it was written, at any time, with any probe result and under any breaker
-- decision, calls for an opening.
pub run_check_opening_throws :
    (c : Config) (m : Monitor) (b : Decision) (e : CheckEnv) (s : Stats) (x : DbError)
    (later : Checked)
    → let r = probe_of c m b e in
      let a = assess c m b r e.now in
      a.should_open ≡ true
      → e.updated ≡ ok tt
      → e.logged ≡ ok tt
      → (open_incident (with_update a.update m) (reason_of m r) e.open_env).value ≡ err x
      → ((run_check c m b e s).result ≡ ok r)
        × ((run_check c m b e s).stats.errors ≡ s.errors + 1)
        × ((assess c (with_update a.update m) later.decision later.result later.now).should_open
            ≡ false)
unfolding run_check check_once
run_check_opening_throws c m b e s x later o u l v =
    let r = probe_of c m b e in
    let a = assess c m b r e.now in
    let good = is_up r.status in
    let w = written_then m a r e (count_check s good) e.updated e.logged refl u l in
    let k : Checked = record { decision = b; result = r; now = e.now } in
    (
      w.0,
      ap (λ t. t.errors) (w.1 ∙ transition_throws m a r e (count_check s good) x o v),
      (opening_not_retried c k later m o).1,
    )
